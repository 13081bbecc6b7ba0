-- ===== src/Endpoint/Ticking.antt =====
-- gdiroh/src/endpoint.rs: when the endpoint is polled, over all that happens to it.
use gdiroh.Prelude.{
  ℕ, ◌≡◌, refl, Option, none, some, List, [], ◌∷◌, true, is_some, is_empty, Result, Oneshot,
  unanswered, answered, abandoned, arith,
}
use gdiroh.Dispatch.{Dispatcher, register, drop_claim, dispatch}
use gdiroh.Blobs.{Answer}
use gdiroh.Session.Handle
use gdiroh.Runtime.{Shared}
use gdiroh.Endpoint.{IrohEndpoint, init, Question}
use gdiroh.Endpoint.Services.{Alpns, depot, library}
use gdiroh.Endpoint.Operations.{
  perform, performed, on_dispatcher, Operation, binding, bind_settled, listening, unlistening,
  starting_swarm, starting_depot, starting_library, asking_store, asking_docs, answering,
  session_hosting, session_over, incoming, elsewhere, frame, closing, settle_bind, settle_asks,
}
use gdiroh.Endpoint.Sound.{
  Sound, Sound-bind, Sound-stop_listening, Sound-close, Sound-swarm, Sound-depot, Sound-library,
  Sound-listen, Sound-drain, Sound-asking, Sound-asking_documents,
}

settle_bind-is_some :
    (outcome : Oneshot (Result ℕ)) (o : Option (Oneshot (Result ℕ)))
    → is_some (settle_bind outcome o) ≡ is_some o
settle_bind-is_some outcome none = refl
settle_bind-is_some outcome (some unanswered) = refl
settle_bind-is_some outcome (some (answered r)) = refl
settle_bind-is_some outcome (some abandoned) = refl

settle_asks-is_empty :
    (outcomes : List (Oneshot Answer)) (qs : List Question)
    → is_empty (settle_asks outcomes qs) ≡ is_empty qs
settle_asks-is_empty outcomes [] = refl
settle_asks-is_empty [] (q ∷ qs) = refl
settle_asks-is_empty (o ∷ outcomes) (q ∷ qs) = refl

Sound-on_dispatcher :
    (f : Dispatcher → Dispatcher) (e : IrohEndpoint) → Sound e → Sound (on_dispatcher f e)
Sound-on_dispatcher f e h = ground arith

module _ (a : Alpns) where
  pub Sound-perform : (e : IrohEndpoint) (o : Operation) → Sound e → Sound (perform a e o)
  unfolding perform
  Sound-perform e (binding builds task) h = Sound-bind builds task e h
  Sound-perform e (bind_settled outcome) h =
      ground (arith, settle_bind-is_some outcome e.pending_bind)
  Sound-perform e (listening alpn) h = Sound-listen alpn e h
  Sound-perform e (unlistening alpn) h = Sound-stop_listening alpn e h
  Sound-perform e (starting_swarm task) h = Sound-swarm a task e h
  Sound-perform e (starting_depot task) h = Sound-depot a task e h
  Sound-perform e (starting_library task) h = Sound-library a task e h
  Sound-perform e (asking_store kind about ask) h =
      let there = depot a 0 e in
      ground (arith, Sound-depot a 0 e, Sound-asking kind about ask there.1)
  Sound-perform e (asking_docs kind about ask) h =
      let there = library a 0 e in
      ground (arith, Sound-library a 0 e, Sound-asking_documents kind about ask there.1)
  Sound-perform e (answering outcomes) h = ground (arith, settle_asks-is_empty outcomes e.questions)
  Sound-perform e session_hosting h = Sound-on_dispatcher (λ d. (register Handle.alpn d).1) e h
  Sound-perform e session_over h = Sound-on_dispatcher (drop_claim Handle.alpn) e h
  Sound-perform e (incoming i) h = Sound-on_dispatcher (dispatch i) e h
  Sound-perform e (elsewhere shared) h = h
  Sound-perform e frame h = Sound-drain e h
  Sound-perform e (closing task) h = Sound-close a task e h

  pub Sound-performed :
      (e : IrohEndpoint) (os : List Operation) → Sound e → Sound (performed a e os)
  unfolding performed
  Sound-performed e [] h = h
  Sound-performed e (o ∷ os) h = Sound-performed (perform a e o) os (Sound-perform e o h)

  -- Whatever happens to an endpoint of a game with a scene tree, in any order, also answers, sessions and
  -- connections, it is polled just while a bind, a listener or a question is outstanding; it is never
  -- bound and binding at once, and is either only with a lease on the runtime; and it has listeners and
  -- services only while it is bound.
  pub performed-Sound :
      (shared : Shared) (os : List Operation) → Sound (performed a (init true shared) os)
  performed-Sound shared os = Sound-performed (init true shared) os (refl, refl, refl, refl, refl)
