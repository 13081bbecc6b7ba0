-- ===== src/Endpoint/Questions.antt =====
-- gdiroh/src/endpoint.rs: the questions that are answered.
use gdiroh.Prelude.{
  ◌≡◌, refl, sym, ◌+◌, length, append-nil, append_assoc, none, some, Option-cases, inl, inr, List,
  [], ◌∷◌, ◌++◌, Bool, true, not, ◌&&◌, String, is_some, received_answer, arith,
}
use gdiroh.Blobs.{Answer}
use gdiroh.Endpoint.{IrohEndpoint, Kind, Question, Signal, emit_later, refresh_ticking}
use gdiroh.Endpoint.Requests.{answer_signal, still_asked, answers, answer_each, drain_questions}
use gdiroh.Endpoint.Signals.{OnlySignals-answer_each}

-- The signals of answers that came in.
abbrev pub signals_of : List (Kind × String × Answer) → List Signal
signals_of [] = []
signals_of ((kind, about, a) ∷ given) = elim (answer_signal kind about a) [
  | none ↦ signals_of given
  | some s ↦ s ∷ signals_of given
]

abbrev pub all_unanswered : List Question → Bool
all_unanswered [] = true
all_unanswered (q ∷ qs) = not (is_some (received_answer q.ask)) && all_unanswered qs

answer_each-signals :
    (given : List (Kind × String × Answer)) (e : IrohEndpoint)
    → (answer_each given e).signals ≡ e.signals ++ signals_of given
unfolding answer_each
answer_each-signals [] e = sym (append-nil e.signals)
answer_each-signals ((kind, about, a) ∷ given) e =
    let s = answer_signal kind about a in
    elim (Option-cases s) [
      | inl n ↦ ground (arith, n, answer_each-signals given e)
      | inr (t, n) ↦ ground (
        arith,
        n,
        answer_each-signals given (emit_later t e),
        append_assoc e.signals (t ∷ []) (signals_of given),
      )
    ]

still_asked_lem :
    (qs : List Question)
    → (all_unanswered (still_asked qs) ≡ true)
      × (length (still_asked qs) + length (answers qs) ≡ length qs)
unfolding still_asked answers
still_asked_lem [] = (refl, refl)
still_asked_lem (q ∷ qs) = elim (Option-cases (received_answer q.ask)) [
  | inl n ↦ ground (arith, n, still_asked_lem qs)
  | inr (a, n) ↦ ground (arith, n, still_asked_lem qs)
]

-- A frame answers the questions whose answers are there, in the order in which they were asked and each
-- once: as many are gone as there were answers, and none of those that stay has one.
pub drain_questions_lem :
    (e : IrohEndpoint)
    → let f = drain_questions e in
      (f.signals ≡ e.signals ++ signals_of (answers e.questions))
      × (all_unanswered f.questions ≡ true)
      × (length f.questions + length (answers e.questions) ≡ length e.questions)
unfolding drain_questions refresh_ticking
drain_questions_lem e =
    let kept : IrohEndpoint = record e { questions = still_asked e.questions } in
    ground (
      arith,
      OnlySignals-answer_each (answers e.questions) kept,
      answer_each-signals (answers e.questions) kept,
      still_asked_lem e.questions,
    )
