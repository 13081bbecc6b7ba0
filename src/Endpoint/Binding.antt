-- ===== src/Endpoint/Binding.antt =====
-- gdiroh/src/endpoint.rs: a bind that comes to its end.
use gdiroh.Prelude.{
  ℕ, ◌≡◌, refl, sym, ap, ◌∙◌, Option, none, some, Option-cases, inl, inr, List, [], ◌∷◌, true, ◌||◌,
  ◌==◌, bytes_eq, nat_eq, is_some, is_empty_iff, good, answered, arith, lookup, has, contains,
  lookup-insert,
}
use gdiroh.Dispatch.{Alpn, Protocol, register, start, publish_alpns, claim, made}
use gdiroh.Runtime.{Shared}
use gdiroh.Endpoint.{
  IrohEndpoint, init, refresh_ticking, claimed, claim_each, settled, unpended, drain_bind,
}
use gdiroh.Endpoint
use gdiroh.Endpoint.Services.{Alpns}
use gdiroh.Endpoint.Operations.{Operation, performed}
use gdiroh.Endpoint.Ticking.{performed-Sound}
use gdiroh.Endpoint.Sound.{Sound}

-- What the dispatcher has for an ALPN.
abbrev pub registered : Alpn → IrohEndpoint → Option Protocol
registered alpn e = elim e.dispatcher [ none ↦ none | some d ↦ lookup alpn d.protocols ]

-- The dispatcher has the listeners' ALPNs and no other.
abbrev Twins : IrohEndpoint → Type 0
Twins e = (alpn : Alpn) → registered alpn e ≡ lookup alpn e.listeners

-- One ALPN that was listened for before the bind was done.
abbrev Claimed : Alpn → Alpn → IrohEndpoint → IrohEndpoint → Type 0
Claimed a alpn e f =
    (has alpn f.listeners ≡ (a == alpn || has alpn e.listeners))
    × (registered alpn f ≡ lookup alpn f.listeners)
    × (is_some f.dispatcher ≡ true)

Claimed-claim :
    (a alpn : Alpn) (e : IrohEndpoint)
    → is_some e.dispatcher ≡ true
    → registered a e ≡ lookup a e.listeners
    → registered alpn e ≡ lookup alpn e.listeners
    → Claimed a alpn e (Endpoint.claim a e).1
unfolding Endpoint.claim register publish_alpns claim refresh_ticking
Claimed-claim a alpn e up at_a at_alpn = elim (Option-cases e.dispatcher) [
  | inl n ↦ ground (arith, n)
  | inr (d, s) ↦ ground (
    arith,
    s,
    lookup-insert a alpn (made d) e.listeners,
    lookup-insert a alpn (made d) d.protocols,
    bytes_eq.equals_iff a alpn,
  )
]

claim_each-has :
    (alpns : List Alpn) (alpn : Alpn) (e : IrohEndpoint)
    → is_some e.dispatcher ≡ true
    → Twins e
    → let f = claim_each alpns e in
      (has alpn f.listeners ≡ (contains alpn alpns || has alpn e.listeners))
      × (registered alpn f ≡ lookup alpn f.listeners)
      × (is_some f.dispatcher ≡ true)
unfolding claim_each contains
claim_each-has [] alpn e up twins = (refl, twins alpn, up)
claim_each-has (a ∷ alpns) alpn e up twins =
    let next = (Endpoint.claim a e).1 in
    let after = (λ (b : Alpn). Claimed-claim a b e up (twins a) (twins b)) in
    ground (arith, after alpn, claim_each-has alpns alpn next (after alpn).2 (λ b. (after b).1))

claim-pending_listens :
    (a : Alpn) (e : IrohEndpoint) → (Endpoint.claim a e).1.pending_listens ≡ e.pending_listens
unfolding Endpoint.claim refresh_ticking register
claim-pending_listens a e = ground arith

claim_each-pending_listens :
    (alpns : List Alpn) (e : IrohEndpoint)
    → (claim_each alpns e).pending_listens ≡ e.pending_listens
unfolding claim_each
claim_each-pending_listens [] e = refl
claim_each-pending_listens (a ∷ alpns) e =
    claim_each-pending_listens alpns (Endpoint.claim a e).1 ∙ claim-pending_listens a e

-- One ALPN after a bind that came to its end.
abbrev Bound : Alpn → IrohEndpoint → IrohEndpoint → Type 0
Bound alpn e f =
    (has alpn f.listeners ≡ contains alpn e.pending_listens)
    × (registered alpn f ≡ lookup alpn f.listeners)
    × (is_some f.dispatcher ≡ true)
    × (f.pending_listens ≡ [])

settled-Bound :
    (id : ℕ) (alpn : Alpn) (e : IrohEndpoint)
    → e.listeners ≡ []
    → Bound alpn e (settled (good id) (unpended e))
unfolding refresh_ticking lookup
settled-Bound id alpn e n =
    let up : IrohEndpoint = record (unpended e) {
      dispatcher = some (start []);
      pending_listens = [];
    } in
    let same : (unpended e).listeners ≡ e.listeners = ground arith in
    let twins = (λ (b : Alpn). ap (lookup b) (sym (same ∙ n))) in
    ground (
      arith,
      n,
      same,
      claim_each-has e.pending_listens alpn up refl twins,
      claim_each-pending_listens e.pending_listens up,
    )

drain_bind-Bound :
    (id : ℕ) (alpn : Alpn) (e : IrohEndpoint)
    → Sound e
    → e.pending_bind ≡ some (answered (good id))
    → Bound alpn e (drain_bind e)
unfolding drain_bind
drain_bind-Bound id alpn e h p =
    ground (arith, h, p, is_empty_iff e.listeners, settled-Bound id alpn e)

-- A bind that succeeds, whatever was done before it and while it was in flight: the endpoint is bound,
-- exactly the ALPNs that were waiting for it are listened for, each with the registration that the
-- dispatcher has for it, and none waits any more.
pub drain_bind-claims :
    (a : Alpns) (shared : Shared) (os : List Operation) (id : ℕ) (alpn : Alpn)
    → (performed a (init true shared) os).pending_bind ≡ some (answered (good id))
    → let e = performed a (init true shared) os in
      let f = drain_bind e in
      (has alpn f.listeners ≡ contains alpn e.pending_listens)
      × (registered alpn f ≡ lookup alpn f.listeners)
      × (is_some f.dispatcher ≡ true)
      × (f.pending_listens ≡ [])
drain_bind-claims a shared os id alpn p =
    drain_bind-Bound id alpn (performed a (init true shared) os) (performed-Sound a shared os) p
