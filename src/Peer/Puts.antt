-- ===== src/Peer/Puts.antt =====
-- gdiroh/src/peer.rs: the commands that a game's calls for sending come to.
use gdiroh.Prelude.{
  ℕ, ◌≡◌, refl, sym, none, some, List, [], ◌∷◌, ◌++◌, append-nil, append_assoc, Bool, true, false,
  ◌&&◌, arith, ltb, ◌==◌, nat_eq, if◌then◌else◌, sign_bit,
}
use gdiroh.Wire.{Bytes}
use gdiroh.Session.{Command, send, disconnect, close, reliable, unreliable, unreliable_ordered}
use gdiroh.Session.Handle
use gdiroh.Session.Traffic.{reaches, meant}
use gdiroh.Peer.{
  IrohPeer, TransferMode, transfer_unreliable, transfer_unreliable_ordered, transfer_reliable,
  connected, to_session_mode,
}
use gdiroh.Peer.Calls
use gdiroh.Peer.Calls.{put_packet, set_transfer_channel, set_transfer_mode, set_target_peer}

-- What a game calls to send: its settings, and packets with the size given for them.
pub data Call : Type 0 where
  to_target on_channel : ℕ → Call
  with_mode : TransferMode → Call
  put : ℕ → Bytes → Call

unfoldable pub perform : Call → IrohPeer → IrohPeer
perform (to_target target) p = set_target_peer target p
perform (on_channel channel) p = set_transfer_channel channel p
perform (with_mode mode) p = set_transfer_mode mode p
perform (put size bytes) p = (put_packet size bytes p).1

unfoldable pub perform_all : List Call → IrohPeer → IrohPeer
perform_all [] p = p
perform_all (call ∷ calls) p = perform_all calls (perform call p)

abbrev pub is_reliable : TransferMode → Bool
is_reliable transfer_unreliable = false
is_reliable transfer_unreliable_ordered = false
is_reliable transfer_reliable = true

-- The packets put with a size that is not negative, in reliable mode, on channel `ch` and with a
-- target that includes `q`, from the settings for target, channel and mode on.
abbrev pub put_for : Bool → ℕ → ℕ → List Call → ℕ → ℕ → TransferMode → List Bytes
put_for is_host q ch [] target channel mode = []
put_for is_host q ch (to_target new ∷ calls) target channel mode =
    put_for is_host q ch calls new channel mode
put_for is_host q ch (on_channel new ∷ calls) target channel mode =
    put_for is_host q ch calls target new mode
put_for is_host q ch (with_mode new ∷ calls) target channel mode =
    put_for is_host q ch calls target channel new
put_for is_host q ch (put size bytes ∷ calls) target channel mode =
    if ltb size sign_bit && (is_reliable mode && (reaches is_host q target && channel == ch))
    then bytes ∷ put_for is_host q ch calls target channel mode
    else put_for is_host q ch calls target channel mode

-- Every command that was handed to the session's task and not taken yet.
abbrev pub commands_of : IrohPeer → List Command
commands_of p = elim p.session [ none ↦ [] | some s ↦ s.commands ]

module _ (is_host : Bool) (q ch : ℕ) where
  meant-append :
      (cs ds : List Command)
      → meant is_host q ch (cs ++ ds) ≡ meant is_host q ch cs ++ meant is_host q ch ds
  meant-append [] ds = refl
  meant-append (send target channel reliable payload ∷ cs) ds = ground (arith, meant-append cs ds)
  meant-append (send target channel unreliable payload ∷ cs) ds = meant-append cs ds
  meant-append (send target channel unreliable_ordered payload ∷ cs) ds = meant-append cs ds
  meant-append (disconnect p ∷ cs) ds = meant-append cs ds
  meant-append (close ∷ cs) ds = meant-append cs ds

  -- A command for one packet.
  meant-send :
      (target channel : ℕ) (mode : TransferMode) (bytes : Bytes) (rest : List Bytes)
      → meant is_host q ch (send target channel (to_session_mode mode) bytes ∷ []) ++ rest ≡ (
          if is_reliable mode && (reaches is_host q target && channel == ch)
          then bytes ∷ rest
          else rest)
  unfolding to_session_mode
  meant-send target channel transfer_unreliable bytes rest = refl
  meant-send target channel transfer_unreliable_ordered bytes rest = refl
  meant-send target channel transfer_reliable bytes rest = ground arith

  -- What a connected peer handed to its session's task of reliable packets for a channel and a peer is
  -- what was put for them, in order, behind what waited before.
  pub meant-perform_all :
      (calls : List Call) (p : IrohPeer) (s : Handle.Session)
      → p.status ≡ connected
      → p.session ≡ some s
      → meant is_host q ch (commands_of (perform_all calls p))
        ≡ meant is_host q ch s.commands
          ++ put_for is_host q ch calls p.target_peer p.transfer_channel p.transfer_mode
  unfolding perform_all perform put_packet Calls.send
  meant-perform_all [] p s up there = rw there (sym (append-nil (meant is_host q ch s.commands)))
  meant-perform_all (to_target new ∷ calls) p s up there =
      meant-perform_all calls (set_target_peer new p) s up there
  meant-perform_all (on_channel new ∷ calls) p s up there =
      meant-perform_all calls (set_transfer_channel new p) s up there
  meant-perform_all (with_mode new ∷ calls) p s up there =
      meant-perform_all calls (set_transfer_mode new p) s up there
  meant-perform_all (put size bytes ∷ calls) p s up there =
      let c = send p.target_peer p.transfer_channel (to_session_mode p.transfer_mode) bytes in
      let t = Handle.command c s in
      let rest = put_for is_host q ch calls p.target_peer p.transfer_channel p.transfer_mode in
      ground (
        arith,
        meant-perform_all calls p s,
        meant-perform_all calls (record p { session = some t }) t up refl,
        meant-append s.commands (c ∷ []),
        append_assoc (meant is_host q ch s.commands) (meant is_host q ch (c ∷ [])) rest,
        meant-send p.target_peer p.transfer_channel p.transfer_mode bytes rest,
      )
