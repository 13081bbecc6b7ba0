-- ===== src/Endpoint/Registered.antt =====
-- gdiroh/src/endpoint.rs: listeners over all that happens to an endpoint.
use gdiroh.Prelude.{
  ℕ, ◌≡◌, refl, some, Option-cases, inl, inr, List, [], ◌∷◌, Bool, true, false, String,
  if◌then◌else◌, ◌==◌, bytes_eq, arith, Oneshot, Assoc, lookup, has, contains, lookup-insert,
  lookup-remove,
}
use gdiroh.Dispatch.{
  Alpn, Protocol, Dispatcher, Incoming, register, publish_alpns, claim, made, drop_claim,
  try_accept, dispatch,
}
use gdiroh.Dispatch.Claims.{SameRegistry-try_accept, SameRegistry-dispatch}
use gdiroh.Runtime.{Shared}
use gdiroh.Session.Handle
use gdiroh.Blobs.{Answer}
use gdiroh.Docs.Queries.{Reply}
use gdiroh.Endpoint.{
  IrohEndpoint, Kind, DocKind, connection_received, emit_later, init, refresh_ticking, drain_bind,
  bind,
}
use gdiroh.Endpoint.Services.{Alpns, depot, library}
use gdiroh.Endpoint.Requests.{
  still_asked, answers, doc_still_asked, doc_replies, asking, asking_documents, drain_questions,
  drain_document_questions,
}
use gdiroh.Endpoint.Receiving.{accepted, accept_all, arrived, receive_each, drain_listeners}
use gdiroh.Endpoint.Life.{drain}
use gdiroh.Endpoint.Operations.{
  Operation, binding, bind_settled, listening, unlistening, starting_swarm, starting_depot,
  starting_library, asking_store, asking_docs, answering, session_hosting, session_over, incoming,
  elsewhere, frame, closing, perform, performed,
}
use gdiroh.Endpoint.Binding.{registered}
use gdiroh.Endpoint.Ticking.{Sound-perform}
use gdiroh.Endpoint.Signals.{OnlySignals-answer_each, OnlySignals-reply_each}
use gdiroh.Endpoint.Sound.{Sound}
use gdiroh.Endpoint.Listening.{
  Known, Known-stop_listening, Known-swarm, Known-depot, Known-library, Known-listen,
  Known-drain_bind, Known-on_dispatcher, Known-close,
}

-- Taking connections leaves the registry.
protocols-accepted :
    (q : ℕ) (rounds : List ℕ) (d : Dispatcher) → (accepted q rounds d).1.protocols ≡ d.protocols
protocols-accepted q [] d = refl
protocols-accepted q (c ∷ rounds) d =
    let given = try_accept q d in
    ground (arith, SameRegistry-try_accept q d, protocols-accepted q rounds given.1)

protocols-arrived :
    (listeners : Assoc Alpn Protocol) (d : Dispatcher)
    → (arrived listeners d).1.protocols ≡ d.protocols
unfolding arrived accept_all
protocols-arrived [] d = refl
protocols-arrived ((alpn, p) ∷ listeners) d =
    let given = accept_all p.connections d in
    ground (
      arith,
      protocols-accepted p.connections (d.queues p.connections).waiting d,
      protocols-arrived listeners given.1,
    )

module _ (alpn : Alpn) where
  Known-receive_each :
      (cs : List (Alpn × ℕ)) (e : IrohEndpoint) → Known alpn e → Known alpn (receive_each cs e)
  unfolding receive_each
  Known-receive_each [] e h = h
  Known-receive_each ((a, c) ∷ cs) e h =
      Known-receive_each cs (emit_later (connection_received a c) e) h

  Known-drain_listeners : (e : IrohEndpoint) → Known alpn e → Known alpn (drain_listeners e)
  unfolding drain_listeners
  Known-drain_listeners e h = elim (Option-cases e.dispatcher) [
    | inl n ↦ ground (arith, n)
    | inr (d, s) ↦
        let taken = arrived e.listeners d in
        ground (
          arith,
          s,
          protocols-arrived e.listeners d,
          Known-receive_each taken.0 (record e { dispatcher = some taken.1 }),
        )
  ]

  Known-drain_questions : (e : IrohEndpoint) → Known alpn e → Known alpn (drain_questions e)
  unfolding drain_questions refresh_ticking
  Known-drain_questions e h =
      let kept : IrohEndpoint = record e { questions = still_asked e.questions } in
      ground (arith, OnlySignals-answer_each (answers e.questions) kept)

  Known-drain_document_questions :
      (e : IrohEndpoint) → Known alpn e → Known alpn (drain_document_questions e)
  unfolding drain_document_questions refresh_ticking
  Known-drain_document_questions e h =
      let kept : IrohEndpoint = record e {
        document_questions = doc_still_asked e.document_questions;
      } in
      ground (arith, OnlySignals-reply_each (doc_replies e.document_questions) kept)

  Known-drain : (e : IrohEndpoint) → Sound e → Known alpn e → Known alpn (drain e)
  unfolding drain
  Known-drain e s h =
      let bound = drain_bind e in
      let received = drain_listeners bound in
      let told = drain_questions received in
      Known-drain_document_questions told
        (Known-drain_questions received (Known-drain_listeners bound (Known-drain_bind alpn e s h)))

  Known-bind :
      (builds : Bool) (task : ℕ) (e : IrohEndpoint) → Known alpn e → Known alpn (bind builds task e)
  unfolding bind refresh_ticking
  Known-bind builds task e h = ground arith

  Known-asking :
      (kind : Kind) (about : String) (ask : Oneshot Answer) (e : IrohEndpoint)
      → Known alpn e
      → Known alpn (asking kind about ask e)
  unfolding asking refresh_ticking
  Known-asking kind about ask e h = ground arith

  Known-asking_documents :
      (kind : DocKind) (about : String) (ask : Oneshot Reply) (e : IrohEndpoint)
      → Known alpn e
      → Known alpn (asking_documents kind about ask e)
  unfolding asking_documents refresh_ticking
  Known-asking_documents kind about ask e h = ground arith

  -- What a session does to the registry is done to its own ALPN.
  abbrev Elsewhere : (Dispatcher → Dispatcher) → Type 0
  Elsewhere f =
      (d : Dispatcher)
      → if alpn == Handle.alpn
        then Unit
        else (lookup alpn d.protocols ≡ lookup alpn (f d).protocols)

  Elsewhere-register : Elsewhere (λ d. (register Handle.alpn d).1)
  unfolding register publish_alpns claim
  Elsewhere-register d = ground (
    arith,
    lookup-insert Handle.alpn alpn (made d) d.protocols,
    bytes_eq.equals_iff alpn Handle.alpn,
    bytes_eq.equals_iff Handle.alpn alpn,
  )

  Elsewhere-drop_claim : Elsewhere (drop_claim Handle.alpn)
  unfolding drop_claim publish_alpns
  Elsewhere-drop_claim d = ground (
    arith,
    lookup-remove Handle.alpn alpn d.protocols,
    bytes_eq.equals_iff alpn Handle.alpn,
    bytes_eq.equals_iff Handle.alpn alpn,
  )

  Elsewhere-dispatch : (i : Incoming) → Elsewhere (dispatch i)
  Elsewhere-dispatch i d = ground (arith, SameRegistry-dispatch i d)

  Known-perform :
      (a : Alpns) (e : IrohEndpoint) (o : Operation)
      → Sound e
      → Known alpn e
      → Known alpn (perform a e o)
  unfolding perform
  Known-perform a e (binding builds task) s h = Known-bind builds task e h
  Known-perform a e (bind_settled outcome) s h = h
  Known-perform a e (listening b) s h = Known-listen alpn b e h
  Known-perform a e (unlistening b) s h = Known-stop_listening alpn b e h
  Known-perform a e (starting_swarm task) s h = Known-swarm alpn a task e h
  Known-perform a e (starting_depot task) s h = Known-depot alpn a task e h
  Known-perform a e (starting_library task) s h = Known-library alpn a task e h
  Known-perform a e (asking_store kind about ask) s h =
      let there = depot a 0 e in
      ground (arith, Known-depot alpn a 0 e, Known-asking kind about ask there.1)
  Known-perform a e (asking_docs kind about ask) s h =
      let there = library a 0 e in
      ground (arith, Known-library alpn a 0 e, Known-asking_documents kind about ask there.1)
  Known-perform a e (answering outcomes) s h = h
  Known-perform a e session_hosting s h =
      Known-on_dispatcher alpn (λ d. (register Handle.alpn d).1) e Elsewhere-register h
  Known-perform a e session_over s h =
      Known-on_dispatcher alpn (drop_claim Handle.alpn) e Elsewhere-drop_claim h
  Known-perform a e (incoming i) s h =
      Known-on_dispatcher alpn (dispatch i) e (Elsewhere-dispatch i) h
  Known-perform a e (elsewhere shared) s h = h
  Known-perform a e frame s h = Known-drain e s h
  Known-perform a e (closing task) s h = Known-close alpn a task e h

  Known-performed :
      (a : Alpns) (e : IrohEndpoint) (os : List Operation)
      → Sound e
      → Known alpn e
      → Known alpn (performed a e os)
  unfolding performed
  Known-performed a e [] s h = h
  Known-performed a e (o ∷ os) s h =
      Known-performed a (perform a e o) os (Sound-perform a e o s) (Known-perform a e o s h)

  -- After anything that can happen to an endpoint, an ALPN that it listens for is registered with the
  -- dispatcher, under the queue and the flag that the listener has, and is not the sessions' own.
  pub performed-registered :
      (a : Alpns) (shared : Shared) (os : List Operation)
      → let e = performed a (init true shared) os in
        if has alpn e.listeners
        then (registered alpn e ≡ lookup alpn e.listeners) × ((alpn == Handle.alpn) ≡ false)
        else Unit
  unfolding lookup contains
  performed-registered a shared os =
      (Known-performed a (init true shared) os (refl, refl, refl, refl, refl) (tt, refl)).0
