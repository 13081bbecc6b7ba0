-- ===== src/Endpoint/Sound.antt =====
-- gdiroh/src/endpoint.rs: the parts of an endpoint's life that go together, operation by operation.
use gdiroh.Prelude.{
  ℕ, ◌≡◌, some, Option-cases, inl, inr, List, [], ◌∷◌, Bool, true, false, not, ◌&&◌, ◌||◌, String,
  is_some, is_empty, Result, good, bad, Oneshot, unanswered, answered, abandoned, arith, remove,
}
use gdiroh.Dispatch.{Alpn, register, start}
use gdiroh.Blobs.{Answer}
use gdiroh.Runtime.{acquire, spawn}
use gdiroh.Docs.Queries.{Reply}
use gdiroh.Endpoint.{
  IrohEndpoint, busy, refresh_ticking, claim, claim_each, settled, unpended, drain_bind, bind,
  listen, emit_later, Kind, DocKind, connection_received,
}
use gdiroh.Endpoint.Services.{Alpns, swarm, depot, library}
use gdiroh.Endpoint.Requests.{
  still_asked, answers, doc_still_asked, doc_replies, asking, asking_documents, drain_questions,
  drain_document_questions,
}
use gdiroh.Endpoint.Receiving.{receive_each, drain_listeners, arrived}
use gdiroh.Endpoint.Life.{stop_listening, drain, teardown, close}
use gdiroh.Endpoint.Signals.{OnlySignals-answer_each, OnlySignals-reply_each}

abbrev pub has_services : IrohEndpoint → Bool
has_services e = is_some e.swarm || is_some e.depot || is_some e.library

-- Polled just while there is something to poll for; at most one of binding and bound, and both of them
-- only with a lease; listeners and services only while bound.
abbrev pub Sound : IrohEndpoint → Type 0
Sound e =
    (e.scene ≡ true)
    × (e.ticking ≡ busy e)
    × ((is_some e.pending_bind && is_some e.dispatcher) ≡ false)
    × (((is_some e.pending_bind || is_some e.dispatcher) && not e.lease) ≡ false)
    × ((is_some e.dispatcher || is_empty e.listeners && not (has_services e)) ≡ true)

pub Sound-bind :
    (builds : Bool) (task : ℕ) (e : IrohEndpoint) → Sound e → Sound (bind builds task e)
unfolding bind acquire spawn refresh_ticking
Sound-bind builds task e h = ground arith

pub Sound-claim : (alpn : Alpn) (e : IrohEndpoint) → Sound e → Sound (claim alpn e).1
unfolding claim refresh_ticking register
Sound-claim alpn e h = ground arith

pub Sound-stop_listening :
    (alpn : Alpn) (e : IrohEndpoint) → Sound e → Sound (stop_listening alpn e)
unfolding stop_listening refresh_ticking remove
Sound-stop_listening alpn e h = ground arith

pub Sound-close : (a : Alpns) (task : ℕ) (e : IrohEndpoint) → Sound e → Sound (close a task e)
unfolding close teardown refresh_ticking
Sound-close a task e h = ground arith

pub Sound-swarm : (a : Alpns) (task : ℕ) (e : IrohEndpoint) → Sound e → Sound (swarm a task e).1
unfolding swarm
Sound-swarm a task e h = ground arith

pub Sound-depot : (a : Alpns) (task : ℕ) (e : IrohEndpoint) → Sound e → Sound (depot a task e).1
unfolding depot
Sound-depot a task e h = ground arith

pub Sound-library : (a : Alpns) (task : ℕ) (e : IrohEndpoint) → Sound e → Sound (library a task e).1
unfolding library
Sound-library a task e h =
    ground (arith, Sound-depot a task e, Sound-swarm a task (depot a task e).1)

pub Sound-listen : (alpn : Alpn) (e : IrohEndpoint) → Sound e → Sound (listen alpn e).1
unfolding listen
Sound-listen alpn e h = ground (arith, Sound-claim alpn e)

pub Sound-claim_each : (alpns : List Alpn) (e : IrohEndpoint) → Sound e → Sound (claim_each alpns e)
unfolding claim_each
Sound-claim_each [] e h = h
Sound-claim_each (alpn ∷ alpns) e h = Sound-claim_each alpns (claim alpn e).1 (Sound-claim alpn e h)

pub Sound-settled :
    (outcome : Result ℕ) (e : IrohEndpoint)
    → is_some e.pending_bind ≡ true
    → Sound e
    → Sound (settled outcome (unpended e))
unfolding refresh_ticking
Sound-settled (good id) e p h =
    let up = record (unpended e) { dispatcher = some (start []); pending_listens = [] } in
    ground (arith, Sound-claim_each e.pending_listens up)
Sound-settled (bad reason) e p h = ground arith

pub Sound-drain_bind : (e : IrohEndpoint) → Sound e → Sound (drain_bind e)
unfolding drain_bind
Sound-drain_bind e h = elim (Option-cases e.pending_bind) [
  | inl n ↦ ground (arith, n)
  | inr (unanswered, p) ↦ ground (arith, p)
  | inr (answered outcome, p) ↦ ground (arith, p, Sound-settled outcome e)
  | inr (abandoned, p) ↦ ground (arith, p, Sound-settled (bad "the bind task was dropped") e)
]

-- What draining the queues and the questions does not touch.
pub Sound-receive_each :
    (cs : List (Alpn × ℕ)) (e : IrohEndpoint) → Sound e → Sound (receive_each cs e)
unfolding receive_each
Sound-receive_each [] e h = h
Sound-receive_each ((alpn, c) ∷ cs) e h =
    Sound-receive_each cs (emit_later (connection_received alpn c) e) h

pub Sound-drain_listeners : (e : IrohEndpoint) → Sound e → Sound (drain_listeners e)
unfolding drain_listeners
Sound-drain_listeners e h = elim (Option-cases e.dispatcher) [
  | inl n ↦ ground (arith, n)
  | inr (d, s) ↦
      let taken = arrived e.listeners d in
      ground (arith, s, Sound-receive_each taken.0 (record e { dispatcher = some taken.1 }))
]

pub Sound-drain_questions : (e : IrohEndpoint) → Sound e → Sound (drain_questions e)
unfolding drain_questions refresh_ticking
Sound-drain_questions e h =
    let kept = record e { questions = still_asked e.questions } in
    ground (arith, OnlySignals-answer_each (answers e.questions) kept)

pub Sound-drain_document_questions :
    (e : IrohEndpoint) → Sound e → Sound (drain_document_questions e)
unfolding drain_document_questions refresh_ticking
Sound-drain_document_questions e h =
    let kept = record e { document_questions = doc_still_asked e.document_questions } in
    ground (arith, OnlySignals-reply_each (doc_replies e.document_questions) kept)

pub Sound-drain : (e : IrohEndpoint) → Sound e → Sound (drain e)
unfolding drain
Sound-drain e h =
    let bound = drain_bind e in
    let received = drain_listeners bound in
    let told = drain_questions received in
    Sound-drain_document_questions told
      (Sound-drain_questions received (Sound-drain_listeners bound (Sound-drain_bind e h)))

pub Sound-asking :
    (kind : Kind) (about : String) (ask : Oneshot Answer) (e : IrohEndpoint)
    → Sound e
    → Sound (asking kind about ask e)
unfolding asking refresh_ticking
Sound-asking kind about ask e h = ground arith

pub Sound-asking_documents :
    (kind : DocKind) (about : String) (ask : Oneshot Reply) (e : IrohEndpoint)
    → Sound e
    → Sound (asking_documents kind about ask e)
unfolding asking_documents refresh_ticking
Sound-asking_documents kind about ask e h = ground arith
