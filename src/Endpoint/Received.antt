-- ===== src/Endpoint/Received.antt =====
-- gdiroh/src/endpoint.rs: connections for listened ALPNs, over all that happens to an endpoint.
use gdiroh.Prelude.{
  ℕ, ◌≤◌, ◌≡◌, refl, none, some, is_some, Option-cases, inl, inr, List, [], ◌∷◌, ◌++◌, Bool, true,
  String, if◌then◌else◌, nat_eq, arith, Oneshot, Assoc, contains,
}
use gdiroh.Dispatch.{
  start, Alpn, Protocol, Dispatcher, Incoming, register, drop_claim, try_accept, dispatch,
}
use gdiroh.Dispatch.Claims.{SameRegistry-try_accept, SameRegistry-dispatch}
use gdiroh.Runtime.{Shared}
use gdiroh.Session.Handle
use gdiroh.Blobs.{Answer}
use gdiroh.Docs.Queries.{Reply}
use gdiroh.Endpoint.{
  IrohEndpoint, Kind, DocKind, connection_received, emit_later, init, refresh_ticking, drain_bind,
  bind,
}
use gdiroh.Endpoint.Services.{Alpns, depot, library}
use gdiroh.Endpoint.Requests.{
  still_asked, answers, doc_still_asked, doc_replies, asking, asking_documents, drain_questions,
  drain_document_questions,
}
use gdiroh.Endpoint.Receiving.{accepted, accept_all, arrived, receive_each, drain_listeners}
use gdiroh.Endpoint.Life.{drain}
use gdiroh.Endpoint.Operations.{
  Operation, binding, bind_settled, listening, unlistening, starting_swarm, starting_depot,
  starting_library, asking_store, asking_docs, answering, session_hosting, session_over, incoming,
  elsewhere, frame, closing, perform, performed,
}
use gdiroh.Endpoint.Ticking.{Sound-perform}
use gdiroh.Endpoint.Signals.{OnlySignals-answer_each, OnlySignals-reply_each}
use gdiroh.Endpoint.Sound.{Sound}
use gdiroh.Endpoint.Accepting.{queues_of, due, received, waiting_on, Emptied-drain_listeners}
use gdiroh.Endpoint.Apart.{
  Apart, Apart-listen, Apart-stop_listening, Apart-on_dispatcher, allocated-register,
  allocated-drop_claim, Apart-swarm, Apart-depot, Apart-library, Apart-drain_bind, Apart-close,
}

allocated-accepted :
    (q : ℕ) (rounds : List ℕ) (d : Dispatcher) → (accepted q rounds d).1.allocated ≡ d.allocated
allocated-accepted q [] d = refl
allocated-accepted q (c ∷ rounds) d =
    let given = try_accept q d in
    ground (arith, SameRegistry-try_accept q d, allocated-accepted q rounds given.1)

allocated-arrived :
    (listeners : Assoc Alpn Protocol) (d : Dispatcher)
    → (arrived listeners d).1.allocated ≡ d.allocated
unfolding arrived accept_all
allocated-arrived [] d = refl
allocated-arrived ((alpn, p) ∷ listeners) d =
    let given = accept_all p.connections d in
    ground (
      arith,
      allocated-accepted p.connections (waiting_on p.connections d) d,
      allocated-arrived listeners given.1,
    )

Apart-receive_each : (cs : List (Alpn × ℕ)) (e : IrohEndpoint) → Apart e → Apart (receive_each cs e)
unfolding receive_each
Apart-receive_each [] e h = h
Apart-receive_each ((alpn, c) ∷ cs) e h =
    Apart-receive_each cs (emit_later (connection_received alpn c) e) h

Apart-drain_listeners : (e : IrohEndpoint) → Apart e → Apart (drain_listeners e)
unfolding drain_listeners
Apart-drain_listeners e h = elim (Option-cases e.dispatcher) [
  | inl n ↦ ground (arith, n)
  | inr (d, s) ↦
      let taken = arrived e.listeners d in
      ground (
        arith,
        s,
        allocated-arrived e.listeners d,
        Apart-receive_each taken.0 (record e { dispatcher = some taken.1 }),
      )
]

Apart-drain_questions : (e : IrohEndpoint) → Apart e → Apart (drain_questions e)
unfolding drain_questions refresh_ticking
Apart-drain_questions e h =
    let kept : IrohEndpoint = record e { questions = still_asked e.questions } in
    ground (arith, OnlySignals-answer_each (answers e.questions) kept)

Apart-drain_document_questions : (e : IrohEndpoint) → Apart e → Apart (drain_document_questions e)
unfolding drain_document_questions refresh_ticking
Apart-drain_document_questions e h =
    let kept : IrohEndpoint = record e {
      document_questions = doc_still_asked e.document_questions;
    } in
    ground (arith, OnlySignals-reply_each (doc_replies e.document_questions) kept)

Apart-drain : (e : IrohEndpoint) → Sound e → Apart e → Apart (drain e)
unfolding drain
Apart-drain e s h =
    let bound = drain_bind e in
    let received = drain_listeners bound in
    let told = drain_questions received in
    Apart-drain_document_questions told
      (Apart-drain_questions received (Apart-drain_listeners bound (Apart-drain_bind e s h)))

Apart-bind : (builds : Bool) (task : ℕ) (e : IrohEndpoint) → Apart e → Apart (bind builds task e)
unfolding bind refresh_ticking
Apart-bind builds task e h = ground arith

Apart-asking :
    (kind : Kind) (about : String) (ask : Oneshot Answer) (e : IrohEndpoint)
    → Apart e
    → Apart (asking kind about ask e)
unfolding asking refresh_ticking
Apart-asking kind about ask e h = ground arith

Apart-asking_documents :
    (kind : DocKind) (about : String) (ask : Oneshot Reply) (e : IrohEndpoint)
    → Apart e
    → Apart (asking_documents kind about ask e)
unfolding asking_documents refresh_ticking
Apart-asking_documents kind about ask e h = ground arith

allocated-dispatch : (i : Incoming) (d : Dispatcher) → d.allocated ≤ (dispatch i d).allocated
allocated-dispatch i d = ground (arith, SameRegistry-dispatch i d)

Apart-perform :
    (a : Alpns) (e : IrohEndpoint) (o : Operation) → Sound e → Apart e → Apart (perform a e o)
unfolding perform
Apart-perform a e (binding builds task) s h = Apart-bind builds task e h
Apart-perform a e (bind_settled outcome) s h = h
Apart-perform a e (listening b) s h = Apart-listen b e h
Apart-perform a e (unlistening b) s h = Apart-stop_listening b e h
Apart-perform a e (starting_swarm task) s h = Apart-swarm a task e h
Apart-perform a e (starting_depot task) s h = Apart-depot a task e h
Apart-perform a e (starting_library task) s h = Apart-library a task e h
Apart-perform a e (asking_store kind about ask) s h =
    let there = depot a 0 e in
    ground (arith, Apart-depot a 0 e, Apart-asking kind about ask there.1)
Apart-perform a e (asking_docs kind about ask) s h =
    let there = library a 0 e in
    ground (arith, Apart-library a 0 e, Apart-asking_documents kind about ask there.1)
Apart-perform a e (answering outcomes) s h = h
Apart-perform a e session_hosting s h =
    Apart-on_dispatcher (λ d. (register Handle.alpn d).1) e (allocated-register Handle.alpn) h
Apart-perform a e session_over s h =
    Apart-on_dispatcher (drop_claim Handle.alpn) e (allocated-drop_claim Handle.alpn) h
Apart-perform a e (incoming i) s h = Apart-on_dispatcher (dispatch i) e (allocated-dispatch i) h
Apart-perform a e (elsewhere shared) s h = h
Apart-perform a e frame s h = Apart-drain e s h
Apart-perform a e (closing task) s h = Apart-close a task e h

Apart-performed :
    (a : Alpns) (e : IrohEndpoint) (os : List Operation)
    → Sound e
    → Apart e
    → Apart (performed a e os)
unfolding performed
Apart-performed a e [] s h = h
Apart-performed a e (o ∷ os) s h =
    Apart-performed a (perform a e o) os (Sound-perform a e o s) (Apart-perform a e o s h)

-- The dispatcher of a bound endpoint.
abbrev pub dispatcher_of : IrohEndpoint → Dispatcher
dispatcher_of e = elim e.dispatcher [ none ↦ start [] | some d ↦ d ]

dispatcher_of_lem :
    (e : IrohEndpoint) → is_some e.dispatcher ≡ true → e.dispatcher ≡ some (dispatcher_of e)
dispatcher_of_lem e h = elim (Option-cases e.dispatcher) [
  | inl n ↦ ground (arith, n)
  | inr (d, s) ↦ ground (arith, s)
]

-- A bound endpoint, after anything that can happen to it, hands all connections that wait for its
-- listeners to the game when it next looks at them: each once, a listener's in order of arrival, under
-- the ALPN it came for; the listeners' queues are empty then, and nothing else of a queue is taken.
pub performed-due :
    (a : Alpns) (shared : Shared) (os : List Operation) (j : ℕ)
    → is_some (performed a (init true shared) os).dispatcher ≡ true
    → let e = performed a (init true shared) os in
      let d = dispatcher_of e in
      let after = (arrived e.listeners d).1 in
      ((drain_listeners e).signals ≡ e.signals ++ received (due e.listeners d))
      × ((drain_listeners e).dispatcher ≡ some after)
      × (waiting_on j after ≡ (if contains j (queues_of e.listeners) then [] else waiting_on j d))
performed-due a shared os j up =
    let e = performed a (init true shared) os in
    let apart = Apart-performed a (init true shared) os (refl, refl, refl, refl, refl) (tt, refl) in
    Emptied-drain_listeners j e (dispatcher_of e) apart.0 (dispatcher_of_lem e up)
