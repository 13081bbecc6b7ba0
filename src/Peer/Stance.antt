-- ===== src/Peer/Stance.antt =====
-- gdiroh/src/peer.rs: a peer's standing, and what the events of a session say of it.
use gdiroh.Prelude.{
  ℕ, ◌≡◌, refl, Option, none, List, [], ◌∷◌, ◌++◌, Bool, true, false, ◌&&◌, ◌||◌, arith,
  if◌then◌else◌, is_some,
}
use gdiroh.Session.{Event, ready, peer_connected, peer_disconnected, warning, closed}
use gdiroh.Peer.{IrohPeer, ConnectionStatus, disconnected, connected}

-- What Godot sees of a peer's standing, and what the peer holds on to.
pub record Stance : Type 0 where
  pub status : ConnectionStatus
  pub unique_id : ℕ
  pub holds_session : Bool
  pub endpoint : Option ℕ

abbrev pub stance : IrohPeer → Stance
stance p = record {
  status = p.status;
  unique_id = p.unique_id;
  holds_session = is_some p.session;
  endpoint = p.endpoint;
}

-- The standing of a peer whose session is over.
abbrev pub gone : Stance
gone = record { status = disconnected; unique_id = 0; holds_session = false; endpoint = none }

-- What a session's events say: an id with `ready`, the end with the first `closed`, and no more.
unfoldable pub told : List Event → Stance → Stance
told [] s = s
told (ready id ∷ events) s = told events (record s { unique_id = id; status = connected })
told (closed reason ∷ events) s = gone
told (peer_connected id ∷ events) s = told events s
told (peer_disconnected id ∷ events) s = told events s
told (Event.packet p ∷ events) s = told events s
told (warning w ∷ events) s = told events s

-- No `ready` among the events, and none after a `closed`.
unfoldable pub unready : List Event → Bool
unready [] = true
unready (ready id ∷ events) = false
unready (closed reason ∷ events) = unready events
unready (peer_connected id ∷ events) = unready events
unready (peer_disconnected id ∷ events) = unready events
unready (Event.packet p ∷ events) = unready events
unready (warning w ∷ events) = unready events

unfoldable pub calm : List Event → Bool
unfolding unready
calm [] = true
calm (closed reason ∷ events) = unready events
calm (ready id ∷ events) = calm events
calm (peer_connected id ∷ events) = calm events
calm (peer_disconnected id ∷ events) = calm events
calm (Event.packet p ∷ events) = calm events
calm (warning w ∷ events) = calm events

unfoldable pub over : List Event → Bool
over [] = false
over (closed reason ∷ events) = true
over (ready id ∷ events) = over events
over (peer_connected id ∷ events) = over events
over (peer_disconnected id ∷ events) = over events
over (Event.packet p ∷ events) = over events
over (warning w ∷ events) = over events

pub told-append :
    (es fs : List Event) (s : Stance)
    → told (es ++ fs) s ≡ (if over es then gone else told fs (told es s))
unfolding told over
told-append [] fs s = refl
told-append (ready id ∷ es) fs s =
    told-append es fs (record s { unique_id = id; status = connected })
told-append (closed reason ∷ es) fs s = refl
told-append (peer_connected id ∷ es) fs s = told-append es fs s
told-append (peer_disconnected id ∷ es) fs s = told-append es fs s
told-append (Event.packet p ∷ es) fs s = told-append es fs s
told-append (warning w ∷ es) fs s = told-append es fs s

pub told-over : (es : List Event) (s : Stance) → over es ≡ true → told es s ≡ gone
unfolding told over
told-over [] s h = absurd (ground arith)
told-over (ready id ∷ es) s h = told-over es (record s { unique_id = id; status = connected }) h
told-over (closed reason ∷ es) s h = refl
told-over (peer_connected id ∷ es) s h = told-over es s h
told-over (peer_disconnected id ∷ es) s h = told-over es s h
told-over (Event.packet p ∷ es) s h = told-over es s h
told-over (warning w ∷ es) s h = told-over es s h

pub unready-append : (es fs : List Event) → unready (es ++ fs) ≡ (unready es && unready fs)
unfolding unready
unready-append [] fs = refl
unready-append (ready id ∷ es) fs = refl
unready-append (closed reason ∷ es) fs = unready-append es fs
unready-append (peer_connected id ∷ es) fs = unready-append es fs
unready-append (peer_disconnected id ∷ es) fs = unready-append es fs
unready-append (Event.packet p ∷ es) fs = unready-append es fs
unready-append (warning w ∷ es) fs = unready-append es fs

pub calm-append :
    (es fs : List Event) → calm (es ++ fs) ≡ (calm es && (if over es then unready fs else calm fs))
unfolding calm over
calm-append [] fs = refl
calm-append (ready id ∷ es) fs = calm-append es fs
calm-append (closed reason ∷ es) fs = unready-append es fs
calm-append (peer_connected id ∷ es) fs = calm-append es fs
calm-append (peer_disconnected id ∷ es) fs = calm-append es fs
calm-append (Event.packet p ∷ es) fs = calm-append es fs
calm-append (warning w ∷ es) fs = calm-append es fs

pub over-append : (es fs : List Event) → over (es ++ fs) ≡ (over es || over fs)
unfolding over
over-append [] fs = refl
over-append (ready id ∷ es) fs = over-append es fs
over-append (closed reason ∷ es) fs = refl
over-append (Event.peer_connected id ∷ es) fs = over-append es fs
over-append (Event.peer_disconnected id ∷ es) fs = over-append es fs
over-append (Event.packet p ∷ es) fs = over-append es fs
over-append (Event.warning w ∷ es) fs = over-append es fs

-- What the session's task itself sent of a session's events: the packets are sent by its readers.
abbrev pub without_packets : List Event → List Event
without_packets [] = []
without_packets (Event.packet p ∷ es) = without_packets es
without_packets (ready id ∷ es) = ready id ∷ without_packets es
without_packets (closed reason ∷ es) = closed reason ∷ without_packets es
without_packets (peer_connected id ∷ es) = peer_connected id ∷ without_packets es
without_packets (peer_disconnected id ∷ es) = peer_disconnected id ∷ without_packets es
without_packets (warning w ∷ es) = warning w ∷ without_packets es

pub told-without_packets : (es : List Event) (s : Stance) → told es s ≡ told (without_packets es) s
unfolding told
told-without_packets [] s = refl
told-without_packets (Event.packet p ∷ es) s = told-without_packets es s
told-without_packets (ready id ∷ es) s =
    told-without_packets es (record s { unique_id = id; status = connected })
told-without_packets (closed reason ∷ es) s = refl
told-without_packets (peer_connected id ∷ es) s = told-without_packets es s
told-without_packets (peer_disconnected id ∷ es) s = told-without_packets es s
told-without_packets (warning w ∷ es) s = told-without_packets es s

unready-without_packets : (es : List Event) → unready es ≡ unready (without_packets es)
unfolding unready
unready-without_packets [] = refl
unready-without_packets (Event.packet p ∷ es) = unready-without_packets es
unready-without_packets (ready id ∷ es) = refl
unready-without_packets (closed reason ∷ es) = unready-without_packets es
unready-without_packets (peer_connected id ∷ es) = unready-without_packets es
unready-without_packets (peer_disconnected id ∷ es) = unready-without_packets es
unready-without_packets (warning w ∷ es) = unready-without_packets es

pub calm-without_packets : (es : List Event) → calm es ≡ calm (without_packets es)
unfolding calm
calm-without_packets [] = refl
calm-without_packets (Event.packet p ∷ es) = calm-without_packets es
calm-without_packets (ready id ∷ es) = calm-without_packets es
calm-without_packets (closed reason ∷ es) = unready-without_packets es
calm-without_packets (peer_connected id ∷ es) = calm-without_packets es
calm-without_packets (peer_disconnected id ∷ es) = calm-without_packets es
calm-without_packets (warning w ∷ es) = calm-without_packets es
