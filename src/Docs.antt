-- ===== src/Docs.antt =====
-- gdiroh/src/docs.rs: the task of one open document. Namespaces, authors, hashes and peers are numbers;
-- what iroh-docs and the blob store answer are inputs.
use gdiroh.Prelude.{
  ℕ, ◌%◌, ◌^◌, Option, none, some, List, [], ◌∷◌, ◌++◌, Bool, true, false, String, if◌then◌else◌,
  Result, good, bad, Oneshot, answered, abandoned, ◌>>=◌,
}
use gdiroh.Wire.{Bytes}
pub mod Replies
pub mod Endings
pub mod Queries
mod Tests

pub record KeyInfo : Type 0 where
  pub key : Bytes
  pub author : ℕ
  pub hash : ℕ
  pub len : ℕ

pub data Event : Type 0 where
  opened : ℕ → Event
  entry : KeyInfo → (sender : Option ℕ) → Event
  content_ready : ℕ → Event
  keys : (prefix : Bytes) → List KeyInfo → Event
  status : (syncing : Bool) → (subscribers handles : ℕ) → Event
  value : (key : Bytes) → Option Bytes → Event
  shared : String → Event
  sync_finished neighbor_up neighbor_down : ℕ → Event
  closed : String → Event

pub data Command : Type 0 where
  set : (key value : Bytes) → Command
  delete read list_keys : Bytes → Command
  ask_status : Command
  share : Bool → Command
  join : List ℕ → Command
  leave : Command

-- Which document the task opens.
pub data Source : Type 0 where
  create : Source
  open_it join_by : ℕ → Source

-- How an open document, and the store, answer at one moment.
pub record Doc : Type 0 where
  pub set_bytes : Bytes → Bytes → Result {0} Unit
  pub del : Bytes → Result {0} Unit
  pub get_one : Bytes → Result (Option ℕ)
  pub get_bytes : ℕ → Option Bytes
  pub get_many : Bytes → Result (List (Result KeyInfo))
  pub doc_status : Result (Bool × ℕ × ℕ)
  pub share_ticket : Bool → Result String
  pub start_sync : List ℕ → Result {0} Unit
  pub leave_sync : Result {0} Unit

-- The loop over what a listing gives.
unfoldable pub listed : List KeyInfo → List (Result KeyInfo) → Result (List KeyInfo)
listed entries [] = good entries
listed entries (good info ∷ rest) = listed (entries ++ info ∷ []) rest
listed entries (bad reason ∷ rest) = bad reason

-- `?`, and what is sent of a success.
abbrev on_success {ℓ} : {A : Type ℓ} → (A → Option Event) → Result A → Result (Option Event)
on_success f (good a) = good (f a)
on_success f (bad reason) = bad reason

abbrev collected : Result (List (Result KeyInfo)) → Result (List KeyInfo)
collected (bad reason) = bad reason
collected (good found) = listed [] found

-- apply, with the one event that it sends, if any.
unfoldable pub apply : Command → Doc → Result (Option Event)
apply (set key v) d = on_success (λ u. none) (d.set_bytes key v)
apply (delete prefix) d = on_success (λ u. none) (d.del prefix)
apply (read key) d = on_success (λ e. some (value key (e >>= d.get_bytes))) (d.get_one key)
apply (list_keys prefix) d =
    on_success (λ entries. some (keys prefix entries)) (collected (d.get_many prefix))
apply ask_status d = on_success (λ s. some (status s.0 (s.1 % 2 ^ 32) (s.2 % 2 ^ 32))) d.doc_status
apply (share writable) d = on_success (λ ticket. some (shared ticket)) (d.share_ticket writable)
apply (join peers) d = on_success (λ u. none) (d.start_sync peers)
apply leave d = on_success (λ u. none) d.leave_sync

-- iroh-docs' own events.
pub data LiveEvent : Type 0 where
  insert_local : KeyInfo → LiveEvent
  insert_remote : KeyInfo → ℕ → LiveEvent
  live_content_ready live_neighbor_up live_neighbor_down live_sync_finished : ℕ → LiveEvent
  pending_content_ready : LiveEvent

-- What is told of one; the last kind is not told at all.
unfoldable pub translated : LiveEvent → Option Event
translated (insert_local info) = some (entry info none)
translated (insert_remote info peer) = some (entry info (some peer))
translated (live_content_ready hash) = some (content_ready hash)
translated (live_neighbor_up peer) = some (neighbor_up peer)
translated (live_neighbor_down peer) = some (neighbor_down peer)
translated (live_sync_finished peer) = some (sync_finished peer)
translated pending_content_ready = none

-- The task: the events it sent, whether its handle, a `Document`, exists, and whether it runs.
pub record Task : Type 0 where
  pub sent : List Event
  pub held : Bool
  pub running : Bool
  pub dropped : Bool

unfoldable pub send : Event → Task → Task
send e t = if t.held then record t { sent = t.sent ++ e ∷ [] } else t

abbrev pub stop : Event → Task → Task
stop e t = record (send e t) { running = false }

-- The runtime stops (gdiroh/src/runtime.rs) and drops the task where it waits: it sends nothing more.
abbrev pub cut_off : Task → Task
cut_off t = record t { running = false; dropped = true }

-- report: an event that nobody takes ends the loop.
unfoldable pub report : LiveEvent → Task → Task
report event t = elim (translated event) [
  | none ↦ t
  | some e ↦ record (send e t) { running = t.held }
]

unfoldable pub applied : Result (Option Event) → Task → Task
applied (good none) t = t
applied (good (some e)) t = send e t
applied (bad reason) t = stop (closed reason) t

-- What `select!` picks, and the main thread dropping the handle, of which the task learns when it
-- next looks at its commands. The runtime may stop at any time, also while a command is carried out.
pub data Input : Type 0 where
  commanded : Command → Doc → Input
  dropping unheld : Input
  reported : LiveEvent → Input
  failing : String → Input
  ending runtime_stopped : Input

unfoldable pub turn : Input → Task → Task
turn (commanded c d) t = applied (apply c d) t
turn dropping t = record t { held = false }
turn unheld t = if t.held then t else record t { running = false }
turn (reported event) t = report event t
turn (failing reason) t = stop (closed reason) t
turn ending t = stop (closed "document closed") t
turn runtime_stopped t = cut_off t

unfoldable pub loop : List Input → Task → Task
loop [] t = t
loop (i ∷ is) t = let next = loop is (turn i t) in if t.running then next else t

-- What is awaited in opening: nothing comes if the runtime stops meanwhile.
abbrev pub Awaited {ℓ} : Type ℓ → Type ℓ
Awaited A = Option (Result A)

-- How opening goes: the engine, the document, the author, the subscription and the blob store.
pub record Opening : Type 0 where
  pub docs : Awaited {0} Unit
  pub created : Awaited ℕ
  pub found : ℕ → Awaited (Option ℕ)
  pub imported : ℕ → Awaited ℕ
  pub author : Awaited ℕ
  pub updates : Awaited {0} Unit
  pub store : Awaited {0} Unit

unfoldable pub open_doc : Source → Opening → Awaited ℕ
open_doc create o = o.created
open_doc (open_it id) o = elim (o.found id) [
  | none ↦ none
  | some (good none) ↦ some (bad "no document with that id is in the store")
  | some (good (some doc)) ↦ some (good doc)
  | some (bad reason) ↦ some (bad reason)
]
open_doc (join_by ticket) o = o.imported ticket

abbrev pub starting : Task
starting = record { sent = []; held = true; running = true; dropped = false }

-- One step of opening, and what follows it if it succeeds.
abbrev pub and_then {ℓ} : {A : Type ℓ} → Awaited A → Awaited ℕ → Awaited ℕ
and_then none rest = none
and_then (some (bad reason)) rest = some (bad reason)
and_then (some (good a)) rest = rest

-- The steps up to `Event::Opened`, of which the first that fails, or never ends, is the outcome.
abbrev pub begin : Awaited {0} Unit → Awaited ℕ → Awaited ℕ → Awaited {0} Unit → Awaited ℕ
begin docs doc author updates =
    and_then docs (and_then doc (and_then author (and_then updates doc)))

-- What follows them: `Event::Opened`, the store, and the loop.
abbrev pub serve : Awaited ℕ → Awaited {0} Unit → List Input → Task
serve none store is = cut_off starting
serve (some (bad reason)) store is = stop (closed reason) starting
serve (some (good id)) none is = cut_off (send (opened id) starting)
serve (some (good id)) (some (bad reason)) is = stop (closed reason) (send (opened id) starting)
serve (some (good id)) (some (good u)) is = loop is (send (opened id) starting)

unfoldable pub run : Source → Opening → List Input → Task
run source o is = serve (begin o.docs (open_doc source o) o.author o.updates) o.store is

-- Library::spawn, where `detached` is whether the task could be started.
unfoldable pub spawn : Bool → Source → Opening → List Input → Task
spawn false source o is = stop (closed "the network runtime is not running") starting
spawn true source o is = run source o is
