-- ===== src/Session/Run.antt =====
-- gdiroh/src/session.rs: `run`, the loop of a session's task. What `select!` picks is an input, and
-- a session's life is the list of its inputs; time and the scheduler choose that list.
use gdiroh.Prelude.{
  ℕ, List, [], ◌∷◌, Bool, true, false, String, if◌then◌else◌, Assoc, wrapping_inc, signed_max, All,
}
use gdiroh.Wire.{Buf}
use gdiroh.Session.{
  ready, closed, Command, send, disconnect, close, Internal, control, lost, close_connection, Link,
  State, emit, act, add_link, drop_link, host_id, first_client_id,
}
use gdiroh.Session.Send.{Limits, send_to}
use gdiroh.Session.Members
use gdiroh.Session.Members.{welcome, apply}

-- What one round of the loop can meet: a command, with what the connections carry at that time, a
-- report of a reader, a routed connection, or the end of one of these three queues.
pub data Input : Type 0 where
  command : Command → Limits → Input
  message : Internal → Input
  connection : ℕ → Input
  no_more_commands no_more_messages no_more_connections : Input

-- The variables of the loop; `inbound` is whether the registration is still held.
pub record Loop : Type 0 where
  pub state : State
  pub next_id : ℕ
  pub inbound : Bool

pub data Flow : Type 0 where
  running : Loop → Flow
  finished : State → Flow

-- `next_id.wrapping_add(1).max(FIRST_CLIENT_ID)`
unfoldable pub following_id : ℕ → ℕ
following_id id = signed_max (wrapping_inc id) first_client_id

unfoldable pub close_all : Assoc ℕ Link → State → State
unfolding act
close_all [] s = s
close_all ((peer, link) ∷ links) s =
    close_all links (act (close_connection link.connection "closing") s)

-- After the loop: every link is drained and closed, the registration dropped, and the last event
-- sent.
unfoldable pub finish : Loop → Flow
unfolding close_all emit
finish l =
    finished
      (emit (closed "session closed") (close_all l.state.links (record l.state { links = [] })))

module _ ⦃b : Buf⦄ where
  unfoldable pub step : Loop → Input → Flow
  unfolding finish following_id
  step l (command (send target channel mode payload) limits) =
      running (record l { state = send_to limits target channel mode payload l.state })
  step l (command (disconnect peer) limits) = running (record l { state = drop_link peer l.state })
  step l (command close limits) = finish l
  step l (message (control c)) = running (record l { state = apply c l.state })
  step l (message (lost peer)) = running (record l { state = Members.lost peer l.state })
  step l (connection conn) =
      if l.inbound
      then running
          (record l { state = welcome l.next_id conn l.state; next_id = following_id l.next_id })
      else running l
  step l no_more_commands = finish l
  step l no_more_messages = finish l
  step l no_more_connections = running (record l { inbound = false })

  -- The loop over the inputs that come.
  unfoldable pub rounds : Flow → List Input → Flow
  rounds flow [] = flow
  rounds (finished s) (i ∷ is) = finished s
  rounds (running l) (i ∷ is) = rounds (step l i) is

-- The state that `run` begins with.
abbrev pub fresh : Bool → State
fresh is_host = record {
  events = [];
  is_host = is_host;
  links = [];
  announced = [];
  connections = [];
  actions = [];
}

-- `run` up to the loop: as the host, or as a client whose dial ended so.
pub data Start : Type 0 where
  hosting : Start
  connected : ℕ → Start
  refused : String → Start

unfoldable pub start : Start → Flow
unfolding emit add_link
start hosting = running (record {
  state = emit (ready host_id) (fresh true);
  next_id = first_client_id;
  inbound = true;
})
start (connected conn) = running (record {
  state = add_link host_id conn (fresh false);
  next_id = first_client_id;
  inbound = false;
})
start (refused reason) = finished (emit (closed reason) (fresh false))

abbrev pub state_of : Flow → State
state_of (running l) = l.state
state_of (finished s) = s

unfoldable pub run : ⦃b : Buf⦄ → Start → List Input → Flow
unfolding start rounds step
run how is = rounds (start how) is

-- A property of flows that every round keeps, on inputs that meet `Q`, holds of whatever a session
-- comes to on such inputs.
module _ {κ} (P : Flow → Type κ) (Q : Input → Type κ) ⦃b : Buf⦄
    (step-P : (l : Loop) (i : Input) → Q i → P (running l) → P (step l i)) where
  pub rounds_induction : (flow : Flow) (is : List Input) → All Q is → P flow → P (rounds flow is)
  unfolding rounds
  rounds_induction flow [] q h = h
  rounds_induction (finished s) (i ∷ is) q h = h
  rounds_induction (running l) (i ∷ is) q h = rounds_induction (step l i) is q.1 (step-P l i q.0 h)

  pub run_induction : (how : Start) (is : List Input) → All Q is → P (start how) → P (run how is)
  unfolding run
  run_induction how is q h = rounds_induction (start how) is q h

-- Any input will do.
abbrev pub Any : Input → Type 0
Any i = Unit

pub All-Any : (is : List Input) → All Any is
All-Any [] = tt
All-Any (i ∷ is) = (tt, All-Any is)
