-- ===== src/Endpoint/Listening.antt =====
-- gdiroh/src/endpoint.rs: what a listener is worth: its ALPN is the dispatcher's.
use gdiroh.Prelude.{
  ℕ, ◌≡◌, some, Option-cases, inl, inr, List, [], ◌∷◌, ◌++◌, true, false, ◌||◌, if◌then◌else◌, ◌==◌,
  bytes_eq, nat_eq, is_empty, Result, good, bad, unanswered, answered, abandoned, arith, lookup,
  insert, has, contains, lookup-insert, lookup-remove, contains-set_remove,
}
use gdiroh.Dispatch.{
  Alpn, Dispatcher, register, start, publish_alpns, claim, made, drop_claim, drop_inbound,
}
use gdiroh.Session.Handle
use gdiroh.Endpoint.{
  IrohEndpoint, Signal, Kind, DocKind, Question, connection_received, emit_later, init,
  refresh_ticking, claimed, claim_each, settled, unpended, drain_bind, leased, bind_on, bind,
  listen, queue_listen, drop_registration,
}
use gdiroh.Endpoint
use gdiroh.Endpoint.Services.{
  Alpns, start_swarm, start_depot, start_library, engine, swarm, depot, library,
}
use gdiroh.Endpoint.Life.{stop_listening, teardown, close}
use gdiroh.Endpoint.Operations.{on_dispatcher}
use gdiroh.Endpoint.Binding.{registered}
use gdiroh.Endpoint.Sound.{Sound}

-- At one ALPN: a listener has the registration that the dispatcher has, and is not the sessions'
-- ALPN, which is not waited for either.
abbrev pub Known : Alpn → IrohEndpoint → Type 0
Known alpn e =
    (if has alpn e.listeners
      then (registered alpn e ≡ lookup alpn e.listeners) × ((alpn == Handle.alpn) ≡ false)
      else Unit)
    × (contains Handle.alpn e.pending_listens ≡ false)

contains-append :
    (k : Alpn) (s : List Alpn) (a : Alpn) → contains k (s ++ a ∷ []) ≡ (contains k s || a == k)
unfolding contains
contains-append k [] a = ground arith
contains-append k (j ∷ s) a = ground (arith, contains-append k s a)

module _ (alpn : Alpn) where
  pub Known-claim :
      (a : Alpn) (e : IrohEndpoint)
      → (a == Handle.alpn) ≡ false
      → Known alpn e
      → Known alpn (Endpoint.claim a e).1
  unfolding Endpoint.claim register publish_alpns claim refresh_ticking
  Known-claim a e n h = elim (Option-cases e.dispatcher) [
    | inl z ↦ ground (arith, z)
    | inr (d, s) ↦ ground (
      arith,
      s,
      lookup-insert a alpn (made d) e.listeners,
      lookup-insert a alpn (made d) d.protocols,
      bytes_eq.equals_iff a alpn,
    )
  ]

  pub Known-stop_listening :
      (a : Alpn) (e : IrohEndpoint) → Known alpn e → Known alpn (stop_listening a e)
  unfolding stop_listening refresh_ticking drop_claim publish_alpns drop_inbound
  Known-stop_listening a e h = elim (Option-cases e.dispatcher) [
    | inl z ↦ ground (
      arith,
      z,
      lookup-remove a alpn e.listeners,
      contains-set_remove a Handle.alpn e.pending_listens,
    )
    | inr (d, s) ↦ ground (
      arith,
      s,
      lookup-remove a alpn e.listeners,
      lookup-remove a alpn d.protocols,
      contains-set_remove a Handle.alpn e.pending_listens,
    )
  ]

  pub Known-swarm :
      (a : Alpns) (task : ℕ) (e : IrohEndpoint) → Known alpn e → Known alpn (swarm a task e).1
  unfolding swarm start_swarm register publish_alpns claim drop_claim drop_inbound
  Known-swarm a task e h = elim (Option-cases e.dispatcher) [
    | inl z ↦ ground (arith, z)
    | inr (d, s) ↦ ground (
      arith,
      s,
      lookup-insert a.gossip alpn (made d) d.protocols,
      lookup-remove a.gossip alpn (insert a.gossip (made d) d.protocols),
      bytes_eq.equals_iff a.gossip alpn,
    )
  ]

  pub Known-depot :
      (a : Alpns) (task : ℕ) (e : IrohEndpoint) → Known alpn e → Known alpn (depot a task e).1
  unfolding depot start_depot register publish_alpns claim drop_claim drop_inbound
  Known-depot a task e h = elim (Option-cases e.dispatcher) [
    | inl z ↦ ground (arith, z)
    | inr (d, s) ↦ ground (
      arith,
      s,
      lookup-insert a.blobs alpn (made d) d.protocols,
      lookup-remove a.blobs alpn (insert a.blobs (made d) d.protocols),
      bytes_eq.equals_iff a.blobs alpn,
    )
  ]

  pub Known-engine :
      (a : Alpns) (task : ℕ) (e : IrohEndpoint) → Known alpn e → Known alpn (engine a task e).1
  unfolding start_library register publish_alpns claim drop_claim drop_inbound
  Known-engine a task e h = elim (Option-cases e.dispatcher) [
    | inl z ↦ ground (arith, z)
    | inr (d, s) ↦ ground (
      arith,
      s,
      lookup-insert a.docs alpn (made d) d.protocols,
      lookup-remove a.docs alpn (insert a.docs (made d) d.protocols),
      bytes_eq.equals_iff a.docs alpn,
    )
  ]

  pub Known-library :
      (a : Alpns) (task : ℕ) (e : IrohEndpoint) → Known alpn e → Known alpn (library a task e).1
  unfolding library
  Known-library a task e h =
      let stored = depot a task e in
      let gossiping = swarm a task stored.1 in
      let both = Known-swarm a task stored.1 (Known-depot a task e h) in
      ground (arith, both, Known-depot a task e h, Known-engine a task gossiping.1 both)

  pub Known-claim_each :
      (alpns : List Alpn) (e : IrohEndpoint)
      → contains Handle.alpn alpns ≡ false
      → Known alpn e
      → Known alpn (claim_each alpns e)
  unfolding claim_each contains
  Known-claim_each [] e n h = h
  Known-claim_each (a ∷ alpns) e n h =
      let next = (Endpoint.claim a e).1 in
      ground (arith, Known-claim a e, Known-claim_each alpns next)

  pub Known-listen : (a : Alpn) (e : IrohEndpoint) → Known alpn e → Known alpn (listen a e).1
  unfolding listen
  Known-listen a e h =
      ground (arith, Known-claim a e, contains-append Handle.alpn e.pending_listens a)

  pub Known-settled :
      (outcome : Result ℕ) (e : IrohEndpoint)
      → is_empty e.listeners ≡ true
      → Known alpn e
      → Known alpn (settled outcome (unpended e))
  unfolding refresh_ticking lookup contains
  Known-settled (good id) e p h =
      let up : IrohEndpoint = record (unpended e) {
        dispatcher = some (start []);
        pending_listens = [];
      } in
      ground (arith, Known-claim_each e.pending_listens up)
  Known-settled (bad reason) e p h = ground arith

  pub Known-drain_bind : (e : IrohEndpoint) → Sound e → Known alpn e → Known alpn (drain_bind e)
  unfolding drain_bind
  Known-drain_bind e s h = elim (Option-cases e.pending_bind) [
    | inl n ↦ ground (arith, n)
    | inr (unanswered, p) ↦ ground (arith, p)
    | inr (answered outcome, p) ↦ ground (arith, s, p, Known-settled outcome e)
    | inr (abandoned, p) ↦ ground (arith, s, p, Known-settled (bad "the bind task was dropped") e)
  ]

  pub Known-on_dispatcher :
      (f : Dispatcher → Dispatcher) (e : IrohEndpoint)
      → ((d : Dispatcher)
          → if alpn == Handle.alpn
            then Unit
            else (lookup alpn d.protocols ≡ lookup alpn (f d).protocols))
      → Known alpn e
      → Known alpn (on_dispatcher f e)
  Known-on_dispatcher f e same h = elim (Option-cases e.dispatcher) [
    | inl z ↦ ground (arith, z)
    | inr (d, s) ↦ ground (arith, s, same d)
  ]

  pub Known-close :
      (a : Alpns) (task : ℕ) (e : IrohEndpoint) → Known alpn e → Known alpn (close a task e)
  unfolding close teardown refresh_ticking lookup contains
  Known-close a task e h = ground arith
