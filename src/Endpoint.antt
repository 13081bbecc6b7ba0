-- ===== src/Endpoint.antt =====
-- gdiroh/src/endpoint.rs: `IrohEndpoint`, its binding and its listeners. The state has the slot of the
-- shared runtime and whether there is a scene tree to poll on; a signal deferred is a signal given.
use gdiroh.Prelude.{
  ℕ, Option, none, some, List, [], ◌∷◌, ◌++◌, Bool, true, false, not, ◌&&◌, ◌||◌, String,
  if◌then◌else◌, ◌==◌, nat_eq, bytes_eq, Assoc, insert, remove, has, contains, set_remove, is_some,
  is_empty, Result, good, bad, Oneshot, unanswered, answered, abandoned,
}
use gdiroh.Wire.{Bytes}
use gdiroh.Dispatch.{Alpn, Protocol, Dispatcher, start, register, drop_claim, drop_inbound}
use gdiroh.Runtime.{Shared, acquire, drop_lease, spawn}
use gdiroh.Blobs.{Answer}
use gdiroh.Docs.Queries.{Reply}
use gdiroh.Session.Handle
pub mod Services
pub mod Requests
pub mod Receiving
pub mod Accepting
pub mod Life
pub mod Operations
pub mod Signals
pub mod Sound
pub mod Ticking
pub mod Binding
pub mod Listening
pub mod Queues
pub mod Apart
pub mod Received
pub mod Registered
pub mod Leasing
pub mod Questions
pub mod Unanswered
pub mod Diagnostics
mod Tests

pub data RelayMode : Type 0 where
  default staging disabled : RelayMode
  custom : ℕ → RelayMode

-- What a question is about: to the blob store, and to the documents.
pub data Kind : Type 0 where
  of_status of_blobs of_tags of_mutation : Kind

pub data DocKind : Type 0 where
  of_documents of_authors of_new_author of_doc_mutation : DocKind

pub record Question : Type 0 where
  pub kind : Kind
  pub about : String
  pub ask : Oneshot Answer

pub record DocQuestion : Type 0 where
  pub kind : DocKind
  pub about : String
  pub ask : Oneshot Reply

pub data Signal : Type 0 where
  bound : ℕ → Signal
  bind_failed : String → Signal
  connection_received : Alpn → ℕ → Signal
  blob_status : String → (present complete : Bool) → ℕ → Signal
  blob_list tag_list document_list author_list : List String → Signal
  author_created : String → Signal

-- A registration, and the claim of a service, is the queue and the flag that its ALPN was given.
-- `closing` are the dispatchers of endpoints told to close.
pub record IrohEndpoint : Type 0 where
  pub secret_key : Option Bytes
  pub lease : Bool
  pub dispatcher : Option Dispatcher
  pub pending_bind : Option (Oneshot (Result ℕ))
  pub listeners : Assoc Alpn Protocol
  pub pending_listens : List Alpn
  pub swarm : Option Protocol
  pub depot : Option Protocol
  pub library : Option Protocol
  pub blob_path : Option String
  pub questions : List Question
  pub document_questions : List DocQuestion
  pub ticking : Bool
  pub relay_mode : RelayMode
  pub dns_lookup : Bool
  pub local_discovery : Bool
  pub local_service : String
  -- The addresses learned out of band, oldest first; an address is a number.
  pub address_book : List ℕ
  pub shared : Shared
  pub scene : Bool
  pub signals : List Signal
  pub closing : List Dispatcher

abbrev default_local_service : String
default_local_service = "gdiroh"

abbrev pub init : Bool → Shared → IrohEndpoint
init scene shared = record {
  secret_key = none;
  lease = false;
  dispatcher = none;
  pending_bind = none;
  listeners = [];
  pending_listens = [];
  swarm = none;
  depot = none;
  library = none;
  blob_path = none;
  questions = [];
  document_questions = [];
  ticking = false;
  relay_mode = default;
  dns_lookup = true;
  local_discovery = false;
  local_service = default_local_service;
  address_book = [];
  shared = shared;
  scene = scene;
  signals = [];
  closing = [];
}

abbrev pub start_ticking : IrohEndpoint → IrohEndpoint
start_ticking e = if e.ticking then e else record e { ticking = e.scene }

abbrev pub stop_ticking : IrohEndpoint → IrohEndpoint
stop_ticking e = record e { ticking = false }

-- Whether there is anything to poll for.
abbrev pub busy : IrohEndpoint → Bool
busy e =
    is_some e.pending_bind
    || not (is_empty e.listeners)
    || not (is_empty e.questions)
    || not (is_empty e.document_questions)

unfoldable pub refresh_ticking : IrohEndpoint → IrohEndpoint
refresh_ticking e = if busy e then start_ticking e else stop_ticking e

abbrev pub emit_later : Signal → IrohEndpoint → IrohEndpoint
emit_later s e = record e { signals = e.signals ++ s ∷ [] }

-- What `claim` does with the dispatcher's answer.
abbrev pub claimed : Alpn → Option Protocol × Dispatcher → IrohEndpoint → Bool × IrohEndpoint
claimed alpn (none, d) e = (false, record e { dispatcher = some d })
claimed alpn (some p, d) e = (
  true,
  refresh_ticking (record e { dispatcher = some d; listeners = insert alpn p e.listeners }),
)

unfoldable pub claim : Alpn → IrohEndpoint → Bool × IrohEndpoint
claim alpn e =
    if has alpn e.listeners
    then (true, e)
    else elim e.dispatcher [ none ↦ (false, e) | some d ↦ claimed alpn (register alpn d) e ]

unfoldable pub claim_each : List Alpn → IrohEndpoint → IrohEndpoint
claim_each [] e = e
claim_each (alpn ∷ alpns) e = claim_each alpns (claim alpn e).1

-- The end of `drain_bind`. iroh's endpoint is built with no ALPN, and the number is its id.
abbrev pub settled : Result ℕ → IrohEndpoint → IrohEndpoint
settled (good id) e =
    let up = record e { dispatcher = some (start []); pending_listens = [] } in
    emit_later (bound id) (claim_each e.pending_listens up)
settled (bad reason) e = emit_later (bind_failed reason) e

abbrev pub unpended : IrohEndpoint → IrohEndpoint
unpended e = refresh_ticking (record e { pending_bind = none })

unfoldable pub drain_bind : IrohEndpoint → IrohEndpoint
drain_bind e = elim e.pending_bind [
  | none ↦ e
  | some unanswered ↦ e
  | some (answered outcome) ↦ settled outcome (unpended e)
  | some abandoned ↦ settled (bad "the bind task was dropped") (unpended e)
]

-- bind, where `builds` is whether tokio could build a runtime and `task` is what is spawned.
abbrev pub leased : Bool → IrohEndpoint → IrohEndpoint
leased builds e =
    let given = acquire builds e.shared in
    if e.lease then e else record e { lease = given.0; shared = given.1 }

abbrev pub bind_on : Bool × Shared → IrohEndpoint → IrohEndpoint
bind_on (false, shared) e = record e { shared = shared }
bind_on (true, shared) e =
    refresh_ticking (record e { shared = shared; pending_bind = some unanswered })

unfoldable pub bind : Bool → ℕ → IrohEndpoint → IrohEndpoint
bind builds task e =
    let ready = leased builds e in
    if is_some e.pending_bind || is_some e.dispatcher
    then e
    else bind_on (spawn task ready.shared) ready

abbrev queue_listen : Alpn → IrohEndpoint → Bool × IrohEndpoint
queue_listen alpn e =
    if is_some e.pending_bind
    then (
      true,
      if contains alpn e.pending_listens
          then e
          else record e { pending_listens = e.pending_listens ++ alpn ∷ [] },
    )
    else (false, e)

unfoldable pub listen : Alpn → IrohEndpoint → Bool × IrohEndpoint
listen alpn e =
    if is_empty alpn || alpn == Handle.alpn
    then (false, e)
    else (if is_some e.dispatcher then claim alpn e else queue_listen alpn e)

-- Drop of a `Registration`: the claim and the receiving end.
abbrev pub drop_registration : Alpn → Option Protocol → Dispatcher → Dispatcher
drop_registration alpn none d = d
drop_registration alpn (some p) d = drop_inbound p.connections (drop_claim alpn d)
