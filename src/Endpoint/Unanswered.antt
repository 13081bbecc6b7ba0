-- ===== src/Endpoint/Unanswered.antt =====
-- gdiroh/src/endpoint.rs: the questions that are never answered.
use gdiroh.Prelude.{
  ℕ, zero, suc, ◌≡◌, refl, ap, ◌∙◌, Result, good, bad, some, Option-cases, inl, inr, List, [], ◌∷◌,
  Bool, true, false, ◌||◌, unanswered, answered, abandoned, is_abandoned, arith,
}
use gdiroh.Runtime.{Shared}
use gdiroh.Dispatch.{Alpn, register, start}
use gdiroh.Endpoint.{
  IrohEndpoint, Question, init, emit_later, refresh_ticking, drain_bind, claim, claim_each, settled,
  unpended, connection_received,
}
use gdiroh.Endpoint.Services.{Alpns}
use gdiroh.Endpoint.Requests.{
  still_asked, answers, doc_still_asked, doc_replies, drain_questions, drain_document_questions,
}
use gdiroh.Endpoint.Receiving.{receive_each, arrived, drain_listeners}
use gdiroh.Endpoint.Life.{drain, teardown, close}
use gdiroh.Endpoint.Operations.{Operation, performed}
use gdiroh.Endpoint.Ticking.{performed-Sound}
use gdiroh.Endpoint.Signals.{OnlySignals-answer_each, OnlySignals-reply_each}
use gdiroh.Endpoint.Sound.{Sound, Sound-drain, Sound-close}

-- A question whose task was dropped before it answered.
abbrev pub any_abandoned : List Question → Bool
any_abandoned [] = false
any_abandoned (q ∷ qs) = is_abandoned q.ask || any_abandoned qs

any_abandoned-still_asked :
    (qs : List Question) → any_abandoned qs ≡ true → any_abandoned (still_asked qs) ≡ true
unfolding still_asked
any_abandoned-still_asked [] h = h
any_abandoned-still_asked (q ∷ qs) h = ground (arith, any_abandoned-still_asked qs)

-- The other steps of a frame leave the questions.
claim_each-questions :
    (alpns : List Alpn) (e : IrohEndpoint) → (claim_each alpns e).questions ≡ e.questions
unfolding claim_each claim refresh_ticking register
claim_each-questions [] e = refl
claim_each-questions (a ∷ alpns) e = ground (arith, claim_each-questions alpns (claim a e).1)

settled-questions :
    (outcome : Result ℕ) (e : IrohEndpoint) → (settled outcome (unpended e)).questions ≡ e.questions
unfolding refresh_ticking
settled-questions (good id) e =
    let up : IrohEndpoint = record (unpended e) {
      dispatcher = some (start []);
      pending_listens = [];
    } in
    ground (arith, claim_each-questions e.pending_listens up)
settled-questions (bad reason) e = ground arith

drain_bind-questions : (e : IrohEndpoint) → (drain_bind e).questions ≡ e.questions
unfolding drain_bind
drain_bind-questions e = elim (Option-cases e.pending_bind) [
  | inl n ↦ ground (arith, n)
  | inr (unanswered, p) ↦ ground (arith, p)
  | inr (answered outcome, p) ↦ ground (arith, p, settled-questions outcome e)
  | inr (abandoned, p) ↦ ground (arith, p, settled-questions (bad "the bind task was dropped") e)
]

receive_each-questions :
    (cs : List (Alpn × ℕ)) (e : IrohEndpoint) → (receive_each cs e).questions ≡ e.questions
unfolding receive_each
receive_each-questions [] e = refl
receive_each-questions ((alpn, c) ∷ cs) e =
    receive_each-questions cs (emit_later (connection_received alpn c) e)

drain_listeners-questions : (e : IrohEndpoint) → (drain_listeners e).questions ≡ e.questions
unfolding drain_listeners
drain_listeners-questions e = elim (Option-cases e.dispatcher) [
  | inl n ↦ ground (arith, n)
  | inr (d, s) ↦
      let taken = arrived e.listeners d in
      ground (arith, s, receive_each-questions taken.0 (record e { dispatcher = some taken.1 }))
]

drain_document_questions-questions :
    (e : IrohEndpoint) → (drain_document_questions e).questions ≡ e.questions
unfolding drain_document_questions refresh_ticking
drain_document_questions-questions e =
    let kept : IrohEndpoint = record e {
      document_questions = doc_still_asked e.document_questions;
    } in
    ground (arith, OnlySignals-reply_each (doc_replies e.document_questions) kept)

drain_questions-questions :
    (e : IrohEndpoint) → (drain_questions e).questions ≡ still_asked e.questions
unfolding drain_questions refresh_ticking
drain_questions-questions e =
    let kept : IrohEndpoint = record e { questions = still_asked e.questions } in
    ground (arith, OnlySignals-answer_each (answers e.questions) kept)

drain-any_abandoned :
    (e : IrohEndpoint) → any_abandoned e.questions ≡ true → any_abandoned (drain e).questions ≡ true
unfolding drain
drain-any_abandoned e h =
    let bound = drain_bind e in
    let received = drain_listeners bound in
    let told = drain_questions received in
    ground (
      arith,
      drain_bind-questions e,
      drain_listeners-questions bound,
      drain_questions-questions received,
      drain_document_questions-questions told,
      any_abandoned-still_asked e.questions,
    )

unfoldable pub frames : ℕ → IrohEndpoint → IrohEndpoint
frames zero e = e
frames (suc n) e = frames n (drain e)

-- Polled, with a question that will never have an answer.
abbrev Stuck : IrohEndpoint → Type 0
Stuck e = (any_abandoned e.questions ≡ true) × (e.ticking ≡ true)

frames-Stuck :
    (n : ℕ) (e : IrohEndpoint) → Sound e → any_abandoned e.questions ≡ true → Stuck (frames n e)
unfolding frames
frames-Stuck zero e s h = ground arith
frames-Stuck (suc n) e s h = frames-Stuck n (drain e) (Sound-drain e s) (drain-any_abandoned e h)

close-questions :
    (a : Alpns) (task : ℕ) (e : IrohEndpoint) → (close a task e).questions ≡ e.questions
unfolding close teardown refresh_ticking
close-questions a task e = ground arith

-- A question whose task is dropped without an answer is never given up: after anything that came
-- before, it is still there however many frames go by once the endpoint was closed, and the closed
-- endpoint is polled in each of them.
pub close-any_abandoned :
    (a : Alpns) (shared : Shared) (os : List Operation) (task n : ℕ)
    → any_abandoned (performed a (init true shared) os).questions ≡ true
    → let f = frames n (close a task (performed a (init true shared) os)) in
      (any_abandoned f.questions ≡ true) × (f.ticking ≡ true)
close-any_abandoned a shared os task n h =
    let e = performed a (init true shared) os in
    frames-Stuck n (close a task e) (Sound-close a task e (performed-Sound a shared os))
      (ap any_abandoned (close-questions a task e) ∙ h)
