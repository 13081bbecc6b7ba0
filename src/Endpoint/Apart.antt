-- ===== src/Endpoint/Apart.antt =====
-- gdiroh/src/endpoint.rs: the listeners' queues are their own.
use gdiroh.Prelude.{
  ℕ, ◌+◌, ◌≤◌, ◌≡◌, none, some, Option-cases, inl, inr, List, [], ◌∷◌, true, nat_eq, bytes_eq,
  is_empty, arith, NoDup, Result, good, bad, unanswered, answered, abandoned,
}
use gdiroh.Dispatch.{
  Alpn, Dispatcher, register, start, publish_alpns, claim, made, drop_claim, drop_inbound,
}
use gdiroh.Endpoint.{
  IrohEndpoint, init, refresh_ticking, claim_each, settled, unpended, drain_bind, bind, listen,
}
use gdiroh.Endpoint
use gdiroh.Endpoint.Services.{
  Alpns, start_swarm, start_depot, start_library, swarm, depot, engine, library,
}
use gdiroh.Endpoint.Life.{stop_listening, teardown, close}
use gdiroh.Endpoint.Operations.{on_dispatcher}
use gdiroh.Endpoint.Accepting.{queues_of}
use gdiroh.Endpoint.Sound.{Sound}
use gdiroh.Endpoint.Queues.{
  all_below, all_below_mono, all_below-absent, all_below-insert, all_below-remove,
  NoDup-insert_queue, NoDup-remove_queue,
}

-- The listeners' queues differ, and were made by the dispatcher that is there.
abbrev pub Apart : IrohEndpoint → Type 0
Apart e =
    NoDup (queues_of e.listeners)
    × (elim e.dispatcher [ none ↦ true | some d ↦ all_below d.allocated e.listeners ] ≡ true)

Apart-claim : (a : Alpn) (e : IrohEndpoint) → Apart e → Apart (Endpoint.claim a e).1
unfolding Endpoint.claim register publish_alpns claim refresh_ticking
Apart-claim a e h = elim (Option-cases e.dispatcher) [
  | inl z ↦ ground (arith, z)
  | inr (d, s) ↦ ground (
    arith,
    s,
    all_below_mono d.allocated (d.allocated + 1) e.listeners,
    all_below-absent d.allocated e.listeners,
    all_below-insert (d.allocated + 1) a (made d) e.listeners,
    NoDup-insert_queue a (made d) e.listeners,
  )
]

Apart-claim_each : (alpns : List Alpn) (e : IrohEndpoint) → Apart e → Apart (claim_each alpns e)
unfolding claim_each
Apart-claim_each [] e h = h
Apart-claim_each (a ∷ alpns) e h = Apart-claim_each alpns (Endpoint.claim a e).1 (Apart-claim a e h)

pub Apart-listen : (a : Alpn) (e : IrohEndpoint) → Apart e → Apart (listen a e).1
unfolding listen
Apart-listen a e h = ground (arith, Apart-claim a e)

pub Apart-stop_listening : (a : Alpn) (e : IrohEndpoint) → Apart e → Apart (stop_listening a e)
unfolding stop_listening refresh_ticking drop_claim publish_alpns drop_inbound
Apart-stop_listening a e h = elim (Option-cases e.dispatcher) [
  | inl z ↦ ground (arith, z, NoDup-remove_queue a e.listeners)
  | inr (d, s) ↦
      ground
        (arith, s, NoDup-remove_queue a e.listeners, all_below-remove d.allocated a e.listeners)
]

-- Whatever is done to the dispatcher, its counter does not go back.
pub Apart-on_dispatcher :
    (f : Dispatcher → Dispatcher) (e : IrohEndpoint)
    → ((d : Dispatcher) → d.allocated ≤ (f d).allocated)
    → Apart e
    → Apart (on_dispatcher f e)
Apart-on_dispatcher f e grows h = elim (Option-cases e.dispatcher) [
  | inl z ↦ ground (arith, z)
  | inr (d, s) ↦ ground (arith, s, all_below_mono d.allocated (f d).allocated e.listeners (grows d))
]

pub allocated-register :
    (alpn : Alpn) (d : Dispatcher) → d.allocated ≤ (register alpn d).1.allocated
unfolding register publish_alpns claim
allocated-register alpn d = ground arith

pub allocated-drop_claim :
    (alpn : Alpn) (d : Dispatcher) → d.allocated ≤ (drop_claim alpn d).allocated
unfolding drop_claim publish_alpns
allocated-drop_claim alpn d = ground arith

pub Apart-swarm : (a : Alpns) (task : ℕ) (e : IrohEndpoint) → Apart e → Apart (swarm a task e).1
unfolding swarm start_swarm register publish_alpns claim drop_claim drop_inbound
Apart-swarm a task e h = elim (Option-cases e.dispatcher) [
  | inl z ↦ ground (arith, z)
  | inr (d, s) ↦
      ground (arith, s, all_below_mono d.allocated (d.allocated + 1) e.listeners (omega arith))
]

pub Apart-depot : (a : Alpns) (task : ℕ) (e : IrohEndpoint) → Apart e → Apart (depot a task e).1
unfolding depot start_depot register publish_alpns claim drop_claim drop_inbound
Apart-depot a task e h = elim (Option-cases e.dispatcher) [
  | inl z ↦ ground (arith, z)
  | inr (d, s) ↦
      ground (arith, s, all_below_mono d.allocated (d.allocated + 1) e.listeners (omega arith))
]

Apart-engine : (a : Alpns) (task : ℕ) (e : IrohEndpoint) → Apart e → Apart (engine a task e).1
unfolding start_library register publish_alpns claim drop_claim drop_inbound
Apart-engine a task e h = elim (Option-cases e.dispatcher) [
  | inl z ↦ ground (arith, z)
  | inr (d, s) ↦
      ground (arith, s, all_below_mono d.allocated (d.allocated + 1) e.listeners (omega arith))
]

pub Apart-library : (a : Alpns) (task : ℕ) (e : IrohEndpoint) → Apart e → Apart (library a task e).1
unfolding library
Apart-library a task e h =
    let stored = depot a task e in
    let gossiping = swarm a task stored.1 in
    let both = Apart-swarm a task stored.1 (Apart-depot a task e h) in
    ground (arith, both, Apart-depot a task e h, Apart-engine a task gossiping.1 both)

Apart-settled :
    (outcome : Result ℕ) (e : IrohEndpoint)
    → is_empty e.listeners ≡ true
    → Apart e
    → Apart (settled outcome (unpended e))
unfolding refresh_ticking
Apart-settled (good id) e p h =
    let up : IrohEndpoint = record (unpended e) {
      dispatcher = some (start []);
      pending_listens = [];
    } in
    ground (arith, Apart-claim_each e.pending_listens up)
Apart-settled (bad reason) e p h = ground arith

pub Apart-drain_bind : (e : IrohEndpoint) → Sound e → Apart e → Apart (drain_bind e)
unfolding drain_bind
Apart-drain_bind e s h = elim (Option-cases e.pending_bind) [
  | inl n ↦ ground (arith, n)
  | inr (unanswered, p) ↦ ground (arith, p)
  | inr (answered outcome, p) ↦ ground (arith, s, p, Apart-settled outcome e)
  | inr (abandoned, p) ↦ ground (arith, s, p, Apart-settled (bad "the bind task was dropped") e)
]

pub Apart-close : (a : Alpns) (task : ℕ) (e : IrohEndpoint) → Apart e → Apart (close a task e)
unfolding close teardown refresh_ticking
Apart-close a task e h = ground arith
