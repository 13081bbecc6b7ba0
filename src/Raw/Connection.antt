-- ===== src/Raw/Connection.antt =====
-- gdiroh/src/raw.rs: what a raw connection reports, `dial`, `adopt` and the three tasks of `pump`.
use gdiroh.Prelude.{ℕ, List, [], ◌∷◌, ◌++◌, if◌then◌else◌, Bool, true, false, String}
use gdiroh.Wire.{Bytes}
use gdiroh.Raw.{Stream}

pub data Event : Type 0 where
  opened : ℕ → Event
  stream_opened : Stream → Event
  datagram : Bytes → Event
  closed : String → Event

-- Which of the three tasks is still running: the stream acceptor, the datagram reader and the close
-- watcher.
pub record Tasks : Type 0 where
  pub accepting : Bool
  pub reading : Bool
  pub watching : Bool

abbrev pub pumping : Tasks
pumping = record { accepting = true; reading = true; watching = true }

-- What one of the tasks meets next, in the order the scheduler picks them. `listened` is whether a
-- report still finds its receiver.
pub data Turn : Type 0 where
  stream_accepted : (listened : Bool) → Stream → Turn
  accept_failed : Turn
  datagram_read : (listened : Bool) → Bytes → Turn
  read_failed : Turn
  connection_closed : (listened : Bool) → String → Turn

-- What a task that met this reports, and the tasks that go on. A task that has ended meets nothing.
unfoldable pub turn : Tasks → Turn → List Event × Tasks
turn t (stream_accepted listened st) =
    if t.accepting
    then (if listened then (stream_opened st ∷ [], t) else ([], record t { accepting = false }))
    else ([], t)
turn t accept_failed = ([], record t { accepting = false })
turn t (datagram_read listened bytes) =
    if t.reading
    then (if listened then (datagram bytes ∷ [], t) else ([], record t { reading = false }))
    else ([], t)
turn t read_failed = ([], record t { reading = false })
turn t (connection_closed listened reason) =
    if t.watching
    then (if listened then closed reason ∷ [] else [], record t { watching = false })
    else ([], t)

unfoldable pub pump : Tasks → List Turn → List Event
pump t [] = []
pump t (met ∷ turns) = let now = turn t met in now.0 ++ pump now.1 turns

-- How the task of `dial` goes: it cannot be started, the connection fails, or it is made, with
-- whether the main thread still listens then.
pub data Dial : Type 0 where
  not_started : Dial
  failed : String → Dial
  connected : (listened : Bool) → ℕ → Dial

unfoldable pub dial : Dial → List Turn → List Event
dial not_started turns = closed "the network runtime is not running" ∷ []
dial (failed reason) turns = closed reason ∷ []
dial (connected listened connection) turns =
    if listened then opened connection ∷ pump pumping turns else []

unfoldable pub adopt : List Turn → List Event
adopt turns = pump pumping turns
