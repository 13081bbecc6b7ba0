-- ===== src/Journey.antt =====
-- gdiroh/src/peer.rs and gdiroh/src/session.rs together: a reliable packet on its way from the game
-- that puts it to the game that gets it.
-- The sending game's calls come to commands (Peer/Puts), these to frames on a channel's queue
-- (Session/Outgoing), these to the bytes of a stream and back to frames (Frames), these to events and
-- to the packets that the receiving game fetches (Peer/Polling).
pub mod Reliable
pub mod Members
mod Tests
use gdiroh.Prelude.{
  ℕ, ◌+◌, ◌<◌, ◌^◌, ◌≡◌, ◌≢◌, refl, ap, sym, subst, ◌∙◌, some, List, [], ◌∷◌, ◌++◌, append_assoc,
  Bool, true, false, ◌&&◌, arith, ◌==◌, nat_eq, beq_refl, if◌then◌else◌, All, length, word_size,
}
use gdiroh.Wire.{Bytes, Buf}
use gdiroh.Frames.{Write, written, control_channel, stream_writer, read_stream}
use gdiroh.Frames
use gdiroh.Frames.Parse.{StartOf, IsShort, all_written}
use gdiroh.Frames.Delivery.{deliver_prefix, deliver_whole}
use gdiroh.Session.{Event, host_id}
use gdiroh.Session.Handle
use gdiroh.Session.Reader.{forwarded}
use gdiroh.Session.Run.{Loop, Input, connection, running, step, rounds, run, hosting, state_of}
use gdiroh.Session.Run
use gdiroh.Session.Queues.{queued}
use gdiroh.Session.Traffic.{taken, meant, Steady}
use gdiroh.Session.Outgoing.{queued-joined, queued-hosted}
use gdiroh.Peer.{IrohPeer, Packet, connected, from_session_mode}
use gdiroh.Peer.Calls.{poll, get_available_packet_count}
use gdiroh.Peer.Polling.{packets, poll_lem, fetch_all, fetch_all_lem}
use gdiroh.Peer.Puts.{Call, perform_all, is_reliable, put_for, commands_of, meant-perform_all}

-- The payloads of the reliable packets from one peer on one channel, in order.
abbrev pub payloads_from : ℕ → ℕ → List Packet → List Bytes
payloads_from peer ch [] = []
payloads_from peer ch (packet ∷ rest) =
    if packet.peer == peer && (packet.channel == ch && is_reliable packet.mode)
    then packet.payload ∷ payloads_from peer ch rest
    else payloads_from peer ch rest

-- All that the game gets from a peer on a channel when it polls once and then fetches what waits.
abbrev pub received : ℕ → ℕ → IrohPeer → List Bytes
received peer ch p =
    payloads_from peer ch (fetch_all (get_available_packet_count (poll p)) (poll p))

-- What the stream reader of a link sends to the main thread, for the bytes on the stream.
abbrev pub events_of : ⦃b : Buf⦄ → ℕ → ℕ → Bytes → List Event
events_of w peer bytes = forwarded peer (read_stream w bytes)

-- Frames that are all written.
abbrev pub whole_stream : ℕ → List Bytes → Bytes
whole_stream ch frames = stream_writer true (written ∷ all_written frames) ch frames

module _ (me ch : ℕ) where
  payloads_from-append :
      (xs ys : List Packet)
      → payloads_from me ch (xs ++ ys) ≡ payloads_from me ch xs ++ payloads_from me ch ys
  payloads_from-append [] ys = refl
  payloads_from-append (x ∷ xs) ys = ground (arith, payloads_from-append xs ys)

  payloads_from-forwarded :
      (frames : List Bytes)
      → payloads_from me ch (packets (forwarded me (Frames.packets ch frames))) ≡ frames
  unfolding forwarded Frames.packets from_session_mode
  payloads_from-forwarded [] = refl
  payloads_from-forwarded (frame ∷ frames) =
      ground (arith, payloads_from-forwarded frames, beq_refl me, beq_refl ch)

  -- The receiving end: what a reader forwarded is fetched behind what waited already.
  pub received_lem :
      ⦃b : Buf⦄ (w : ℕ) (p : IrohPeer) (r : Handle.Session) (bytes : Bytes) (frames : List Bytes)
      → p.session ≡ some r
      → payloads_from me ch (packets r.events)
        ≡ payloads_from me ch (packets (events_of w me bytes))
      → read_stream w bytes ≡ Frames.packets ch frames
      → received me ch p ≡ payloads_from me ch p.incoming ++ frames
  received_lem w p r bytes frames there arrived read =
      ap (payloads_from me ch) (fetch_all_lem (poll p) ∙ (poll_lem p r there).0)
      ∙ payloads_from-append p.incoming (packets r.events)
      ∙ ap (λ fs. payloads_from me ch p.incoming ++ fs)
          (arrived
            ∙ ap (λ seen. payloads_from me ch (packets (forwarded me seen))) read
            ∙ payloads_from-forwarded frames)
