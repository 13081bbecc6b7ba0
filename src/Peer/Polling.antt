-- ===== src/Peer/Polling.antt =====
-- gdiroh/src/peer.rs: what polling hands to Godot, and in which order.
use gdiroh.Prelude.{
  ℕ, zero, suc, ◌≡◌, refl, sym, some, List, [], ◌∷◌, ◌++◌, append-nil, append_assoc, length, arith,
}
use gdiroh.Wire.{Bytes}
use gdiroh.Session.{Event, ready, peer_connected, peer_disconnected, warning, closed, Command}
use gdiroh.Session.Handle
use gdiroh.Peer.{
  IrohPeer, Packet, Signal, connected_signal, disconnected_signal, warning_signal, unconfigured,
  disconnected, from_session_mode,
}
use gdiroh.Peer.Calls.{
  handle, handle_all, poll, get_packet, get_available_packet_count, get_packet_peer,
  get_packet_channel, get_packet_mode, send, close,
}

-- The packets and the signals that a list of events stands for.
abbrev pub packets : List Event → List Packet
packets [] = []
packets (Event.packet p ∷ events) =
    record {
      peer = p.peer;
      channel = p.channel;
      mode = from_session_mode p.mode;
      payload = p.payload;
    }
    ∷ packets events
packets (ready id ∷ events) = packets events
packets (peer_connected id ∷ events) = packets events
packets (peer_disconnected id ∷ events) = packets events
packets (warning oversize ∷ events) = packets events
packets (closed reason ∷ events) = packets events

abbrev pub signalled : List Event → List Signal
signalled [] = []
signalled (peer_connected id ∷ events) = connected_signal id ∷ signalled events
signalled (peer_disconnected id ∷ events) = disconnected_signal id ∷ signalled events
signalled (warning oversize ∷ events) = warning_signal oversize ∷ signalled events
signalled (Event.packet p ∷ events) = signalled events
signalled (ready id ∷ events) = signalled events
signalled (closed reason ∷ events) = signalled events

handle_all_lem :
    (events : List Event) (p : IrohPeer)
    → ((handle_all events p).incoming ≡ p.incoming ++ packets events)
      × ((handle_all events p).signals ≡ p.signals ++ signalled events)
unfolding handle_all handle
handle_all_lem [] p = (sym (append-nil p.incoming), sym (append-nil p.signals))
handle_all_lem (ready id ∷ events) p = handle_all_lem events _
handle_all_lem (closed reason ∷ events) p = handle_all_lem events _
handle_all_lem (peer_connected id ∷ events) p = ground (
  arith,
  handle_all_lem events (handle (peer_connected id) p),
  append_assoc p.signals (connected_signal id ∷ []) (signalled events),
)
handle_all_lem (peer_disconnected id ∷ events) p = ground (
  arith,
  handle_all_lem events (handle (peer_disconnected id) p),
  append_assoc p.signals (disconnected_signal id ∷ []) (signalled events),
)
handle_all_lem (warning oversize ∷ events) p = ground (
  arith,
  handle_all_lem events (handle (warning oversize) p),
  append_assoc p.signals (warning_signal oversize ∷ []) (signalled events),
)
handle_all_lem (Event.packet q ∷ events) p = ground (
  arith,
  handle_all_lem events (handle (Event.packet q) p),
  append_assoc p.incoming (packets (Event.packet q ∷ [])) (packets events),
)

-- One poll hands on every event that waits, in the order the task sent them, also those after the
-- session's end: packets behind those that still wait, and signals.
pub poll_lem :
    (p : IrohPeer) (s : Handle.Session)
    → p.session ≡ some s
    → ((poll p).incoming ≡ p.incoming ++ packets s.events)
      × ((poll p).signals ≡ p.signals ++ signalled s.events)
unfolding poll
poll_lem p s e =
    ground
      (arith, e, handle_all_lem s.events (record p { session = some (record s { events = [] }) }))

-- Godot's loop over the packets that wait: the answers of the getters before each fetch, with the
-- bytes fetched.
abbrev pub fetch_all : ℕ → IrohPeer → List Packet
fetch_all zero p = []
fetch_all (suc n) p =
    let fetched = get_packet p in
    record {
      peer = get_packet_peer p;
      channel = get_packet_channel p;
      mode = get_packet_mode p;
      payload = fetched.1.0;
    }
    ∷ fetch_all n fetched.1.1

fetch_waiting :
    (waiting : List Packet) (p : IrohPeer)
    → p.incoming ≡ waiting
    → fetch_all (length waiting) p ≡ waiting
unfolding get_packet get_packet_peer get_packet_channel get_packet_mode
fetch_waiting [] p e = refl
fetch_waiting (packet ∷ rest) p e =
    ground (arith, e, fetch_waiting rest (record p { incoming = rest; current = some packet }))

-- Fetching as many packets as the count says gives all that wait, in order, each with the sender,
-- channel and mode that the getters told before it.
pub fetch_all_lem : (p : IrohPeer) → fetch_all (get_available_packet_count p) p ≡ p.incoming
unfolding get_available_packet_count
fetch_all_lem p = fetch_waiting p.incoming p refl

-- After `close` the peer is disconnected, keeps no packet, takes none for sending, and its session
-- was given one more command, the last.
pub close_lem :
    (p : IrohPeer) (s : Handle.Session) (bytes : Bytes)
    → p.session ≡ some s
    → let closing = close p in
      (closing.0 ≡ some (Handle.command Command.close s))
      × (closing.1.status ≡ disconnected)
      × (get_available_packet_count closing.1 ≡ 0)
      × (send bytes closing.1 ≡ (unconfigured, closing.1))
      × (poll closing.1 ≡ closing.1)
unfolding close send poll get_available_packet_count
close_lem p s bytes e = ground (arith, e)
