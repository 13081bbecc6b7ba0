-- ===== src/Endpoint/Leasing.antt =====
-- gdiroh/src/endpoint.rs, with gdiroh/src/runtime.rs: the runtime of a game with one endpoint.
use gdiroh.Prelude.{
  ℕ, ◌≡◌, refl, some, Option-cases, inl, inr, List, [], ◌∷◌, Bool, false, if◌then◌else◌, is_some,
  arith, unanswered, answered, abandoned, Result, good, bad, All,
}
use gdiroh.Dispatch.{Alpn, register, start}
use gdiroh.Runtime.{unstarted, acquire, spawn, drop_lease}
use gdiroh.Endpoint.{
  IrohEndpoint, connection_received, emit_later, init, refresh_ticking, claim, claim_each, settled,
  unpended, drain_bind, bind, listen,
}
use gdiroh.Endpoint.Services.{
  Alpns, start_swarm, start_depot, start_library, swarm, depot, engine, library,
}
use gdiroh.Endpoint.Requests.{
  still_asked, answers, doc_still_asked, doc_replies, asking, asking_documents, drain_questions,
  drain_document_questions,
}
use gdiroh.Endpoint.Receiving.{arrived, receive_each, drain_listeners}
use gdiroh.Endpoint.Life.{stop_listening, drain, teardown, close}
use gdiroh.Endpoint.Operations.{
  Operation, binding, bind_settled, listening, unlistening, starting_swarm, starting_depot,
  starting_library, asking_store, asking_docs, answering, session_hosting, session_over, incoming,
  elsewhere, frame, closing, perform, performed,
}
use gdiroh.Endpoint.Signals.{OnlySignals-answer_each, OnlySignals-reply_each}

-- The only user of the runtime.
abbrev pub Leased : IrohEndpoint → Type 0
Leased e = (e.shared.holders ≡ (if e.lease then 1 else 0)) × (is_some e.shared.runtime ≡ e.lease)

-- Neither the slot nor the lease is touched.
abbrev SameLease : IrohEndpoint → IrohEndpoint → Type 0
SameLease e f = (f.shared ≡ e.shared) × (f.lease ≡ e.lease)

SameLease-claim_each : (alpns : List Alpn) (e : IrohEndpoint) → SameLease e (claim_each alpns e)
unfolding claim_each claim refresh_ticking register
SameLease-claim_each [] e = (refl, refl)
SameLease-claim_each (a ∷ alpns) e = ground (arith, SameLease-claim_each alpns (claim a e).1)

SameLease-listen : (a : Alpn) (e : IrohEndpoint) → SameLease e (listen a e).1
unfolding listen claim refresh_ticking register
SameLease-listen a e = ground arith

SameLease-settled :
    (outcome : Result ℕ) (e : IrohEndpoint) → SameLease e (settled outcome (unpended e))
unfolding refresh_ticking
SameLease-settled (good id) e =
    let up : IrohEndpoint = record (unpended e) {
      dispatcher = some (start []);
      pending_listens = [];
    } in
    ground (arith, SameLease-claim_each e.pending_listens up)
SameLease-settled (bad reason) e = ground arith

SameLease-drain_bind : (e : IrohEndpoint) → SameLease e (drain_bind e)
unfolding drain_bind
SameLease-drain_bind e = elim (Option-cases e.pending_bind) [
  | inl n ↦ ground (arith, n)
  | inr (unanswered, p) ↦ ground (arith, p)
  | inr (answered outcome, p) ↦ ground (arith, p, SameLease-settled outcome e)
  | inr (abandoned, p) ↦ ground (arith, p, SameLease-settled (bad "the bind task was dropped") e)
]

SameLease-receive_each : (cs : List (Alpn × ℕ)) (e : IrohEndpoint) → SameLease e (receive_each cs e)
unfolding receive_each
SameLease-receive_each [] e = (refl, refl)
SameLease-receive_each ((alpn, c) ∷ cs) e =
    SameLease-receive_each cs (emit_later (connection_received alpn c) e)

SameLease-drain_listeners : (e : IrohEndpoint) → SameLease e (drain_listeners e)
unfolding drain_listeners
SameLease-drain_listeners e = elim (Option-cases e.dispatcher) [
  | inl n ↦ ground (arith, n)
  | inr (d, s) ↦
      let taken = arrived e.listeners d in
      ground (arith, s, SameLease-receive_each taken.0 (record e { dispatcher = some taken.1 }))
]

SameLease-drain_questions : (e : IrohEndpoint) → SameLease e (drain_questions e)
unfolding drain_questions refresh_ticking
SameLease-drain_questions e =
    let kept : IrohEndpoint = record e { questions = still_asked e.questions } in
    ground (arith, OnlySignals-answer_each (answers e.questions) kept)

SameLease-drain_document_questions : (e : IrohEndpoint) → SameLease e (drain_document_questions e)
unfolding drain_document_questions refresh_ticking
SameLease-drain_document_questions e =
    let kept : IrohEndpoint = record e {
      document_questions = doc_still_asked e.document_questions;
    } in
    ground (arith, OnlySignals-reply_each (doc_replies e.document_questions) kept)

SameLease-drain : (e : IrohEndpoint) → SameLease e (drain e)
unfolding drain
SameLease-drain e =
    let bound = drain_bind e in
    let received = drain_listeners bound in
    let told = drain_questions received in
    ground (
      arith,
      SameLease-drain_bind e,
      SameLease-drain_listeners bound,
      SameLease-drain_questions received,
      SameLease-drain_document_questions told,
    )

-- Starting a service starts a task at most.
Leased-swarm : (a : Alpns) (task : ℕ) (e : IrohEndpoint) → Leased e → Leased (swarm a task e).1
unfolding swarm start_swarm register spawn
Leased-swarm a task e h = ground arith

Leased-depot : (a : Alpns) (task : ℕ) (e : IrohEndpoint) → Leased e → Leased (depot a task e).1
unfolding depot start_depot register spawn
Leased-depot a task e h = ground arith

Leased-engine : (a : Alpns) (task : ℕ) (e : IrohEndpoint) → Leased e → Leased (engine a task e).1
unfolding start_library register spawn
Leased-engine a task e h = ground arith

Leased-library : (a : Alpns) (task : ℕ) (e : IrohEndpoint) → Leased e → Leased (library a task e).1
unfolding library
Leased-library a task e h =
    let stored = depot a task e in
    let gossiping = swarm a task stored.1 in
    let both = Leased-swarm a task stored.1 (Leased-depot a task e h) in
    ground (arith, both, Leased-depot a task e h, Leased-engine a task gossiping.1 both)

Leased-bind : (builds : Bool) (task : ℕ) (e : IrohEndpoint) → Leased e → Leased (bind builds task e)
unfolding bind acquire spawn refresh_ticking
Leased-bind builds task e h = ground arith

Leased-close : (a : Alpns) (task : ℕ) (e : IrohEndpoint) → Leased e → Leased (close a task e)
unfolding close teardown refresh_ticking spawn drop_lease
Leased-close a task e h = ground arith

SameLease-stop_listening : (a : Alpn) (e : IrohEndpoint) → SameLease e (stop_listening a e)
unfolding stop_listening refresh_ticking
SameLease-stop_listening a e = ground arith

-- Nothing is done to the runtime by others.
abbrev pub Alone : Operation → Type 0
Alone (elsewhere shared) = ⊥
Alone _ = Unit

Leased-perform :
    (a : Alpns) (e : IrohEndpoint) (o : Operation) → Alone o → Leased e → Leased (perform a e o)
unfolding perform asking asking_documents refresh_ticking
Leased-perform a e (binding builds task) l h = Leased-bind builds task e h
Leased-perform a e (bind_settled outcome) l h = h
Leased-perform a e (listening b) l h = ground (arith, SameLease-listen b e)
Leased-perform a e (unlistening b) l h = ground (arith, SameLease-stop_listening b e)
Leased-perform a e (starting_swarm task) l h = Leased-swarm a task e h
Leased-perform a e (starting_depot task) l h = Leased-depot a task e h
Leased-perform a e (starting_library task) l h = Leased-library a task e h
Leased-perform a e (asking_store kind about ask) l h = ground (arith, Leased-depot a 0 e)
Leased-perform a e (asking_docs kind about ask) l h = ground (arith, Leased-library a 0 e)
Leased-perform a e (answering outcomes) l h = h
Leased-perform a e session_hosting l h = ground arith
Leased-perform a e session_over l h = ground arith
Leased-perform a e (incoming i) l h = ground arith
Leased-perform a e (elsewhere shared) l h = absurd l
Leased-perform a e frame l h = ground (arith, SameLease-drain e)
Leased-perform a e (closing task) l h = Leased-close a task e h

Leased-performed :
    (a : Alpns) (e : IrohEndpoint) (os : List Operation)
    → All Alone os
    → Leased e
    → Leased (performed a e os)
unfolding performed
Leased-performed a e [] l h = h
Leased-performed a e (o ∷ os) l h =
    Leased-performed a (perform a e o) os l.1 (Leased-perform a e o l.0 h)

close-lease : (a : Alpns) (task : ℕ) (e : IrohEndpoint) → (close a task e).lease ≡ false
unfolding close teardown refresh_ticking
close-lease a task e = ground arith

-- In a game whose only endpoint it is, and while the extension stays loaded, whatever happens to the
-- endpoint, the runtime runs exactly while the endpoint has a lease, which is the only one, and after
-- `close` it does not run.
pub performed-Leased :
    (a : Alpns) (scene : Bool) (os : List Operation) (task : ℕ)
    → All Alone os
    → let e = performed a (init scene unstarted) os in
      (e.shared.holders ≡ (if e.lease then 1 else 0))
      × (is_some e.shared.runtime ≡ e.lease)
      × (is_some (close a task e).shared.runtime ≡ false)
performed-Leased a scene os task l =
    let e = performed a (init scene unstarted) os in
    let leased = Leased-performed a (init scene unstarted) os l (refl, refl) in
    ground (arith, leased, Leased-close a task e leased, close-lease a task e)
