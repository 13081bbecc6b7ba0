-- ===== src/Peer/Standing.antt =====
-- gdiroh/src/peer.rs: what a game is told of its own standing, however the events of its session are
-- spread over the frames in which it polls.
use gdiroh.Prelude.{
  ◌≡◌, refl, none, some, List, [], ◌∷◌, ◌++◌, true, arith, if◌then◌else◌, concat, Bool-cases, inl,
  inr,
}
use gdiroh.Session.{Event, ready, peer_connected, peer_disconnected, warning, closed}
use gdiroh.Session.Handle
use gdiroh.Peer.{IrohPeer}
use gdiroh.Peer.Calls.{handle, handle_all, poll}
use gdiroh.Peer.Stance.{
  stance, gone, told, unready, calm, over, told-append, told-over, calm-append,
}

-- One frame: what the task has sent since the last, if the session is still there, and the poll.
pub frame : List Event → IrohPeer → IrohPeer
frame batch p = poll (elim p.session [
  | none ↦ p
  | some s ↦ record p { session = some (record s { events = s.events ++ batch }) }
])

pub frames : List (List Event) → IrohPeer → IrohPeer
unfolding frame
frames [] p = p
frames (batch ∷ batches) p = frames batches (frame batch p)

stance-over :
    (events : List Event) (p : IrohPeer)
    → unready events ≡ true
    → stance p ≡ gone
    → stance (handle_all events p) ≡ gone
unfolding handle_all handle unready
stance-over [] p quiet e = e
stance-over (ready id ∷ events) p quiet e = absurd (ground arith)
stance-over (closed reason ∷ events) p quiet e =
    stance-over events (handle (closed reason) p) quiet refl
stance-over (peer_connected id ∷ events) p quiet e =
    stance-over events (handle (peer_connected id) p) quiet e
stance-over (peer_disconnected id ∷ events) p quiet e =
    stance-over events (handle (peer_disconnected id) p) quiet e
stance-over (Event.packet q ∷ events) p quiet e =
    stance-over events (handle (Event.packet q) p) quiet e
stance-over (warning w ∷ events) p quiet e = stance-over events (handle (warning w) p) quiet e

stance-handle_all :
    (events : List Event) (p : IrohPeer)
    → calm events ≡ true
    → stance (handle_all events p) ≡ told events (stance p)
unfolding handle_all handle calm told
stance-handle_all [] p quiet = refl
stance-handle_all (ready id ∷ events) p quiet = stance-handle_all events (handle (ready id) p) quiet
stance-handle_all (closed reason ∷ events) p quiet =
    stance-over events (handle (closed reason) p) quiet refl
stance-handle_all (peer_connected id ∷ events) p quiet =
    stance-handle_all events (handle (peer_connected id) p) quiet
stance-handle_all (peer_disconnected id ∷ events) p quiet =
    stance-handle_all events (handle (peer_disconnected id) p) quiet
stance-handle_all (Event.packet q ∷ events) p quiet =
    stance-handle_all events (handle (Event.packet q) p) quiet
stance-handle_all (warning w ∷ events) p quiet =
    stance-handle_all events (handle (warning w) p) quiet

pub dropped-handle_all :
    (events : List Event) (p : IrohPeer) → p.session ≡ none → (handle_all events p).session ≡ none
unfolding handle_all handle
dropped-handle_all [] p e = e
dropped-handle_all (ready id ∷ events) p e = dropped-handle_all events (handle (ready id) p) e
dropped-handle_all (closed reason ∷ events) p e =
    dropped-handle_all events (handle (closed reason) p) refl
dropped-handle_all (peer_connected id ∷ events) p e =
    dropped-handle_all events (handle (peer_connected id) p) e
dropped-handle_all (peer_disconnected id ∷ events) p e =
    dropped-handle_all events (handle (peer_disconnected id) p) e
dropped-handle_all (Event.packet q ∷ events) p e =
    dropped-handle_all events (handle (Event.packet q) p) e
dropped-handle_all (warning w ∷ events) p e = dropped-handle_all events (handle (warning w) p) e

session-handle_all :
    (events : List Event) (p : IrohPeer)
    → (handle_all events p).session ≡ (if over events then none else p.session)
unfolding handle_all handle over
session-handle_all [] p = refl
session-handle_all (ready id ∷ events) p = session-handle_all events (handle (ready id) p)
session-handle_all (closed reason ∷ events) p =
    dropped-handle_all events (handle (closed reason) p) refl
session-handle_all (peer_connected id ∷ events) p =
    session-handle_all events (handle (peer_connected id) p)
session-handle_all (peer_disconnected id ∷ events) p =
    session-handle_all events (handle (peer_disconnected id) p)
session-handle_all (Event.packet q ∷ events) p =
    session-handle_all events (handle (Event.packet q) p)
session-handle_all (warning w ∷ events) p = session-handle_all events (handle (warning w) p)

-- Without a session nothing happens.
frames-gone : (batches : List (List Event)) (p : IrohPeer) → p.session ≡ none → frames batches p ≡ p
unfolding frames frame poll
frames-gone [] p e = refl
frames-gone (batch ∷ batches) p e = ground (arith, e, frames-gone batches p e)

frame-session :
    (batch : List Event) (p : IrohPeer) (s : Handle.Session)
    → p.session ≡ some s
    → s.events ≡ []
    → frame batch p ≡ handle_all batch (record p { session = some (record s { events = [] }) })
unfolding frame poll
frame-session batch p s e quiet = ground (arith, e, quiet)

-- However the events of a session are spread over the frames in which the game polls, it comes to stand
-- as they say.
pub stance-frames :
    (batches : List (List Event)) (p : IrohPeer) (s : Handle.Session)
    → p.session ≡ some s
    → s.events ≡ []
    → calm (concat batches) ≡ true
    → stance (frames batches p) ≡ told (concat batches) (stance p)
unfolding frames told
stance-frames [] p s e quiet c = refl
stance-frames (batch ∷ batches) p s e quiet c =
    let emptied = record p { session = some (record s { events = [] }) } in
    let q = handle_all batch emptied in
    let polled = frame-session batch p s e quiet in
    let same : stance emptied ≡ stance p = ground (arith, e) in
    let split = told-append batch (concat batches) (stance p) in
    let calms = calm-append batch (concat batches) in
    let kept = session-handle_all batch emptied in
    let stands = stance-handle_all batch emptied in
    elim (Bool-cases (over batch)) [
      | inl ended ↦ ground (
        arith,
        polled,
        same,
        split,
        calms,
        kept,
        stands,
        told-over batch (stance p) ended,
        frames-gone batches q,
      )
      | inr goes_on ↦ ground (
        arith,
        polled,
        same,
        split,
        calms,
        kept,
        stands,
        stance-frames batches q (record s { events = [] }),
      )
    ]
