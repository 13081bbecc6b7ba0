-- ===== src/Peer/Late.antt =====
-- gdiroh/src/peer.rs: a session's id that is met in the same poll as the session's end, and after it.
use gdiroh.Prelude.{
  ℕ, ◌≡◌, refl, ap, ◌∙◌, none, some, List, [], ◌∷◌, ◌++◌, arith, String, All, true,
}
use gdiroh.Wire.{Bytes}
use gdiroh.Session.{Event, ready, closed, peer_connected, peer_disconnected, warning}
use gdiroh.Session.Emitting.{of_peers}
use gdiroh.Session.Handle
use gdiroh.Peer.{IrohPeer, connected, unconfigured}
use gdiroh.Peer.Calls.{handle, handle_all, poll, send}
use gdiroh.Peer.Standing.{dropped-handle_all}

handle_all-append :
    (es fs : List Event) (p : IrohPeer) → handle_all (es ++ fs) p ≡ handle_all fs (handle_all es p)
unfolding handle_all
handle_all-append [] fs p = refl
handle_all-append (e ∷ es) fs p = handle_all-append es fs (handle e p)

-- A peer that says it is connected and has no session.
stranded :
    (p : IrohPeer) (bytes : Bytes)
    → p.status ≡ connected
    → p.session ≡ none
    → (send bytes p ≡ (unconfigured, p)) × (poll p ≡ p)
unfolding send poll
stranded p bytes up gone = (ground (arith, up, gone), ground (arith, gone))

poll-some :
    (p : IrohPeer) (s : Handle.Session)
    → p.session ≡ some s
    → poll p ≡ handle_all s.events (record p { session = some (record s { events = [] }) })
unfolding poll
poll-some p s there = ground (arith, there)

-- Events of peers say nothing of one's own standing.
peers-handle_all :
    (gs : List Event) (p : IrohPeer)
    → All (λ e. of_peers e ≡ true) gs
    → ((handle_all gs p).status ≡ p.status)
      × ((handle_all gs p).unique_id ≡ p.unique_id)
      × ((handle_all gs p).session ≡ p.session)
unfolding handle_all handle
peers-handle_all [] p only = (refl, refl, refl)
peers-handle_all (ready id ∷ gs) p only = absurd (ground (arith, only.0))
peers-handle_all (closed reason ∷ gs) p only = absurd (ground (arith, only.0))
peers-handle_all (peer_connected id ∷ gs) p only =
    peers-handle_all gs (handle (peer_connected id) p) only.1
peers-handle_all (peer_disconnected id ∷ gs) p only =
    peers-handle_all gs (handle (peer_disconnected id) p) only.1
peers-handle_all (Event.packet q ∷ gs) p only =
    peers-handle_all gs (handle (Event.packet q) p) only.1
peers-handle_all (warning w ∷ gs) p only = peers-handle_all gs (handle (warning w) p) only.1

-- A peer that meets, in one poll, the end of its session and after it a welcome that was still on its
-- way, with any events of other peers behind that, such as those that the welcome announces, says that it
-- is connected, under the id it was welcomed with, has no session any more, so that nothing it is given
-- to send goes out, and is not told otherwise by the next poll, which changes nothing.
pub late_ready_revives :
    (p : IrohPeer) (s : Handle.Session) (es fs gs : List Event) (reason : String) (id : ℕ)
    (bytes : Bytes)
    → p.session ≡ some s
    → s.events ≡ es ++ (closed reason ∷ (fs ++ (ready id ∷ gs)))
    → All (λ e. of_peers e ≡ true) gs
    → ((poll p).status ≡ connected)
      × ((poll p).unique_id ≡ id)
      × ((poll p).session ≡ none)
      × (send bytes (poll p) ≡ (unconfigured, poll p))
      × (poll (poll p) ≡ poll p)
unfolding handle_all handle
late_ready_revives p s es fs gs reason id bytes there all only =
    let emptied = record p { session = some (record s { events = [] }) } in
    let ended = handle (closed reason) (handle_all es emptied) in
    let q = handle_all fs ended in
    let after : poll p ≡ handle_all gs (handle (ready id) q) =
      poll-some p s there
      ∙ ap (λ events. handle_all events emptied) all
      ∙ handle_all-append es (closed reason ∷ (fs ++ (ready id ∷ gs))) emptied
      ∙ handle_all-append fs (ready id ∷ gs) ended in
    let (still, named, kept) = peers-handle_all gs (handle (ready id) q) only in
    let lost : q.session ≡ none = dropped-handle_all fs ended refl in
    let gone : (poll p).session ≡ none = rw after (kept ∙ lost) in
    let up : (poll p).status ≡ connected = rw after still in
    let (unsent, unpolled) = stranded (poll p) bytes up gone in
    (up, rw after named, gone, unsent, unpolled)
