-- ===== src/Session/Handle.antt =====
-- gdiroh/src/session.rs: `Session`, the main thread's end of a session.
use gdiroh.Prelude.{
  ℕ, Option, none, some, ◌>>=◌, List, [], ◌∷◌, ◌++◌, Bool, true, false, String, Assoc, lookup,
  nat_eq,
}
use gdiroh.Raw.{NetPath, PathInfo, path_info}
use gdiroh.Dispatch.{Alpn, Dispatcher, Protocol, register, set_refuse, drop_claim, drop_inbound}
use gdiroh.Session.{Event, closed, Command}

-- The ALPN of Godot's multiplayer: "gdiroh/0".
abbrev pub alpn : Alpn
alpn = 103 ∷ 100 ∷ 105 ∷ 114 ∷ 111 ∷ 104 ∷ 47 ∷ 48 ∷ []

-- The events the task has sent and nobody took, the commands it has not met yet, the flag that the
-- dispatcher shares with a host, and the connections by peer id.
pub record Session : Type 0 where
  pub events : List Event
  pub commands : List Command
  pub refuse : Option ℕ
  pub connections : Assoc ℕ ℕ

abbrev opened : List Event → Option ℕ → Session
opened events refuse = record { events = events; commands = []; refuse = refuse; connections = [] }

-- What the main thread finds at once when `detach` answered so: the task's own events come later.
abbrev not_detached : Bool → List Event
not_detached true = []
not_detached false = closed "the network runtime is not running" ∷ []

-- A task that could not be detached is dropped, and its registration with it.
abbrev claimed : Bool → Option Protocol × Dispatcher → Session × Dispatcher
claimed detached (none, d) = (opened (closed "this endpoint is already hosting" ∷ []) none, d)
claimed true (some p, d) = (opened [] (some p.refuse), d)
claimed false (some p, d) =
    (opened (not_detached false) (some p.refuse), drop_inbound p.connections (drop_claim alpn d))

-- Session::start, with whether the session hosts and whether its task could be detached.
unfoldable pub start : Bool → Bool → Dispatcher → Session × Dispatcher
start true detached d = claimed detached (register alpn d)
start false detached d = (opened (not_detached detached) none, d)

unfoldable pub peer_connection : ℕ → Session → Option ℕ
peer_connection peer s = lookup peer s.connections

unfoldable pub peer_endpoint_id : (ℕ → String) → ℕ → Session → Option String
peer_endpoint_id remote_id peer s = lookup peer s.connections >>= λ c. some (remote_id c)

-- `paths` is what iroh lists for a connection.
unfoldable pub peer_path : (ℕ → List NetPath) → ℕ → Session → Option PathInfo
peer_path paths peer s = lookup peer s.connections >>= λ c. path_info (paths c)

unfoldable pub set_refuse_new_connections : Bool → Session → Dispatcher → Dispatcher
set_refuse_new_connections refuse s d = elim s.refuse [ none ↦ d | some f ↦ set_refuse f refuse d ]

unfoldable pub try_recv : Session → Option Event × Session
try_recv s = elim s.events [ [] ↦ (none, s) | e ∷ es ↦ (some e, record s { events = es }) ]

abbrev pub command : Command → Session → Session
command c s = record s { commands = s.commands ++ (c ∷ []) }
