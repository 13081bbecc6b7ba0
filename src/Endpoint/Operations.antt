-- ===== src/Endpoint/Operations.antt =====
-- gdiroh/src/endpoint.rs: all that happens to an endpoint, one thing after the other.
use gdiroh.Prelude.{
  ℕ, Option, none, some, List, [], ◌∷◌, Bool, String, Result, Oneshot, unanswered, answered,
  abandoned,
}
use gdiroh.Dispatch.{Alpn, Dispatcher, Incoming, dispatch, register, drop_claim}
use gdiroh.Runtime.{Shared}
use gdiroh.Blobs.{Answer}
use gdiroh.Session.Handle
use gdiroh.Docs.Queries.{Reply}
use gdiroh.Endpoint.{Kind, DocKind, Question, IrohEndpoint, bind, listen}
use gdiroh.Endpoint.Services.{Alpns, swarm, depot, library}
use gdiroh.Endpoint.Requests.{ask_depot, ask_library}
use gdiroh.Endpoint.Life.{stop_listening, drain, close}

-- All that can happen: what the game calls, the frame signal, the bind task, a question's task, and
-- what others do to the dispatcher and to the runtime: sessions, incoming connections, other endpoints.
pub data Operation : Type 0 where
  binding : Bool → ℕ → Operation
  bind_settled : Oneshot (Result ℕ) → Operation
  listening unlistening : Alpn → Operation
  starting_swarm starting_depot starting_library : ℕ → Operation
  asking_store : Kind → String → Oneshot Answer → Operation
  asking_docs : DocKind → String → Oneshot Reply → Operation
  answering : List (Oneshot Answer) → Operation
  session_hosting session_over : Operation
  incoming : Incoming → Operation
  elsewhere : Shared → Operation
  frame : Operation
  closing : ℕ → Operation

abbrev pub settle_bind :
    Oneshot (Result ℕ) → Option (Oneshot (Result ℕ)) → Option (Oneshot (Result ℕ))
settle_bind outcome none = none
settle_bind outcome (some unanswered) = some outcome
settle_bind outcome (some (answered result)) = some (answered result)
settle_bind outcome (some abandoned) = some abandoned

-- The answers that came in, question by question.
abbrev pub settle_asks : List (Oneshot Answer) → List Question → List Question
settle_asks outcomes [] = []
settle_asks [] (q ∷ qs) = q ∷ qs
settle_asks (outcome ∷ outcomes) (q ∷ qs) = record q { ask = outcome } ∷ settle_asks outcomes qs

abbrev pub on_dispatcher : (Dispatcher → Dispatcher) → IrohEndpoint → IrohEndpoint
on_dispatcher f e = elim e.dispatcher [ none ↦ e | some d ↦ record e { dispatcher = some (f d) } ]

module _ (a : Alpns) where
  unfoldable pub perform : IrohEndpoint → Operation → IrohEndpoint
  perform e (binding builds task) = bind builds task e
  perform e (bind_settled outcome) = record e { pending_bind = settle_bind outcome e.pending_bind }
  perform e (listening alpn) = (listen alpn e).1
  perform e (unlistening alpn) = stop_listening alpn e
  perform e (starting_swarm task) = (swarm a task e).1
  perform e (starting_depot task) = (depot a task e).1
  perform e (starting_library task) = (library a task e).1
  perform e (asking_store kind about ask) = (ask_depot a 0 kind about ask e).1
  perform e (asking_docs kind about ask) = (ask_library a 0 kind about ask e).1
  perform e (answering outcomes) = record e { questions = settle_asks outcomes e.questions }
  perform e session_hosting = on_dispatcher (λ d. (register Handle.alpn d).1) e
  perform e session_over = on_dispatcher (drop_claim Handle.alpn) e
  perform e (incoming i) = on_dispatcher (dispatch i) e
  perform e (elsewhere shared) = record e { shared = shared }
  perform e frame = drain e
  perform e (closing task) = close a task e

  unfoldable pub performed : IrohEndpoint → List Operation → IrohEndpoint
  performed e [] = e
  performed e (o ∷ os) = performed (perform e o) os
