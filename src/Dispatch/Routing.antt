-- ===== src/Dispatch/Routing.antt =====
-- gdiroh/src/dispatch.rs: where an inbound connection goes.
use gdiroh.Prelude.{
  ℕ, ◌≡◌, inl, inr, refl, ap, Option, none, some, List, [], ◌∷◌, ◌++◌, Bool, true, false, not, ◌||◌,
  ◌&&◌, if◌then◌else◌, ◌==◌, nat_eq, nat_beq_iff, bytes_eq, bytes_beq_iff, lookup, arith,
  Bool-cases, Option-cases,
}
use gdiroh.Dispatch.{
  Alpn, Protocol, Dispatcher, Incoming, dispatch, route, deliver, established, any_wanted, wanted,
  offers_wanted_alpn, accept_turn,
}

-- The owner of the negotiated ALPN, when the handshake went through.
abbrev pub destination : Option Alpn → Option ℕ → Dispatcher → Option Protocol
destination none c d = none
destination (some alpn) none d = none
destination (some alpn) (some c) d = lookup alpn d.protocols

-- Whether a connection that is meant for `owner` is queued on `q`.
abbrev pub reaches : ℕ → Option Protocol → Dispatcher → Bool
reaches q none d = false
reaches q (some p) d = p.connections == q && not (d.flags p.refuse) && (d.queues q).receiving

module _ (q : ℕ) where
  waiting-established :
      (alpn : Option Alpn) (c : ℕ) (d : Dispatcher)
      → ((established alpn (some c) d).queues q).waiting ≡ (
          if reaches q (destination alpn (some c) d) d
          then (d.queues q).waiting ++ (c ∷ [])
          else (d.queues q).waiting)
  unfolding route deliver
  waiting-established none c d = refl
  waiting-established (some alpn) c d = elim (Option-cases (lookup alpn d.protocols)) [
    | inl e ↦ ground (arith, e)
    | inr (p, e) ↦ ground (arith, e, nat_beq_iff p.connections q)
  ]

  -- A connection whose handshake was accepted and completed is queued once, at the end of the queue of
  -- the protocol that holds its negotiated ALPN, if that is not refusing and its owner still
  -- receives; every other queue is as it was.
  pub waiting-dispatch :
      (i : Incoming) (c : ℕ) (d : Dispatcher)
      → i.accepted ≡ true
      → i.connection ≡ some c
      → ((dispatch i d).queues q).waiting ≡ (
          if reaches q (destination i.negotiated i.connection d) d
          then (d.queues q).waiting ++ (c ∷ [])
          else (d.queues q).waiting)
  unfolding dispatch
  waiting-dispatch i c d h e = ground (arith, waiting-established i.negotiated c d)

-- Whether an ALPN is among those the ClientHello offers.
abbrev pub offers_alpn : Alpn → List (Option Alpn) → Bool
offers_alpn alpn [] = false
offers_alpn alpn (none ∷ offers) = offers_alpn alpn offers
offers_alpn alpn (some other ∷ offers) = other == alpn || offers_alpn alpn offers

any_wanted_offer :
    (alpn : Alpn) (offers : List (Option Alpn)) (d : Dispatcher)
    → any_wanted offers d ≡ false
    → offers_alpn alpn offers ≡ true
    → wanted alpn d ≡ false
any_wanted_offer alpn [] d h e = ground arith
any_wanted_offer alpn (none ∷ offers) d h e = any_wanted_offer alpn offers d h e
any_wanted_offer alpn (some other ∷ offers) d h e = elim (Bool-cases (other == alpn)) [
  | inl same ↦
      let eq = (bytes_beq_iff other alpn).0 same in ground (arith, eq, ap (λ a. wanted a d) eq)
  | inr apart ↦ ground (arith, any_wanted_offer alpn offers d)
]

-- The early refusal turns away no connection that `dispatch` would have queued: where the offers could
-- be read, what an accepted and completed handshake settles on is among them, and the loop refuses,
-- `dispatch` in the same state would leave every queue as it was.
pub early_refusal_sound :
    (q c : ℕ) (i : Incoming) (alpn : Alpn) (offers : List (Option Alpn)) (d : Dispatcher)
    → i.offered ≡ some offers
    → i.negotiated ≡ some alpn
    → i.accepted ≡ true
    → i.connection ≡ some c
    → offers_alpn alpn offers ≡ true
    → accept_turn i d ≡ false
    → ((dispatch i d).queues q).waiting ≡ (d.queues q).waiting
unfolding accept_turn offers_wanted_alpn wanted
early_refusal_sound q c i alpn offers d eo en ea ec among h = ground (
  arith,
  any_wanted_offer alpn offers d,
  waiting-dispatch q i c d ea ec,
  Option-cases (lookup alpn d.protocols),
)
