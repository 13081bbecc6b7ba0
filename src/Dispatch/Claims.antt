-- ===== src/Dispatch/Claims.antt =====
-- gdiroh/src/dispatch.rs: claims on ALPNs: who owns one, and what the endpoint is told.
use gdiroh.Prelude.{
  ℕ, ◌≡◌, refl, Option, none, some, List, [], ◌∷◌, Bool, true, false, if◌then◌else◌, ◌==◌, nat_eq,
  bytes_eq, Assoc, lookup, insert, remove, has, keys, contains, lookup-insert, lookup-remove,
  contains-keys, arith, both_branches, beq_refl,
}
use gdiroh.Dispatch.{
  Alpn, Protocol, Dispatcher, Incoming, start, publish_alpns, collect_alpns, set_alpns, claim, made,
  register, drop_claim, drop_inbound, try_accept, set_refuse, dispatch, route, deliver, pop,
}

-- What the owners of claims, and the accept loop, do one after the other. A claim is dropped by its
-- owner, so dropping one that nobody has does nothing.
pub data Operation : Type 0 where
  registering dropping : Alpn → Operation
  dropping_receiver polling : ℕ → Operation
  refusing : ℕ → Bool → Operation
  dispatching : Incoming → Operation

-- The dispatcher, and the claims that are held outside of it: by ALPN, the halves its owner has.
pub record World : Type 0 where
  pub dispatcher : Dispatcher
  pub held : Assoc Alpn Protocol

abbrev hold : Alpn → Option Protocol → Assoc Alpn Protocol → Assoc Alpn Protocol
hold alpn none held = held
hold alpn (some p) held = insert alpn p held

unfoldable pub perform : World → Operation → World
perform w (registering alpn) =
    let given = register alpn w.dispatcher in
    record { dispatcher = given.1; held = hold alpn given.0 w.held }
perform w (dropping alpn) =
    if has alpn w.held
    then record { dispatcher = drop_claim alpn w.dispatcher; held = remove alpn w.held }
    else w
perform w (dropping_receiver q) = record w { dispatcher = drop_inbound q w.dispatcher }
perform w (polling q) = record w { dispatcher = (try_accept q w.dispatcher).1 }
perform w (refusing f value) = record w { dispatcher = set_refuse f value w.dispatcher }
perform w (dispatching i) = record w { dispatcher = dispatch i w.dispatcher }

unfoldable pub performed : World → List Operation → World
performed w [] = w
performed w (o ∷ os) = performed (perform w o) os

abbrev pub opening : World
opening = record { dispatcher = start []; held = [] }

-- The registry as it was.
abbrev pub SameRegistry : Dispatcher → Dispatcher → Type 0
SameRegistry d e =
    (e.protocols ≡ d.protocols) × (e.published ≡ d.published) × (e.allocated ≡ d.allocated)

pub SameRegistry-try_accept : (q : ℕ) (d : Dispatcher) → SameRegistry d (try_accept q d).1
unfolding try_accept
SameRegistry-try_accept q d = pop_lem (d.queues q).waiting
  where
    pop_lem : (cs : List ℕ) → SameRegistry d (pop q cs d).1
    pop_lem [] = (refl, refl, refl)
    pop_lem (c ∷ cs) = (refl, refl, refl)

pub SameRegistry-dispatch : (i : Incoming) (d : Dispatcher) → SameRegistry d (dispatch i d)
unfolding dispatch route deliver
SameRegistry-dispatch i d = ground arith

-- At one ALPN the owners of claims and the registry agree, and the endpoint was told of just the
-- registered ones.
abbrev pub Consistent : Alpn → World → Type 0
Consistent alpn w =
    (lookup alpn w.held ≡ lookup alpn w.dispatcher.protocols)
    × (w.dispatcher.published ≡ keys w.dispatcher.protocols)

module _ (alpn : Alpn) where
  Consistent-perform :
      (w : World) (o : Operation) → Consistent alpn w → Consistent alpn (perform w o)
  unfolding perform register drop_claim publish_alpns claim set_refuse drop_inbound
  Consistent-perform w (registering a) h =
      let d = w.dispatcher in
      both_branches
        (λ (given : Option Protocol × Dispatcher).
          Consistent alpn (record { dispatcher = given.1; held = hold a given.0 w.held }))
        (has a d.protocols) (none, d) (some (made d), publish_alpns (claim a d)) h
        (
          ground (
            arith,
            lookup-insert a alpn (made d) w.held,
            lookup-insert a alpn (made d) d.protocols,
          ),
          refl,
        )
  Consistent-perform w (dropping a) h =
      ground (arith, lookup-remove a alpn w.held, lookup-remove a alpn w.dispatcher.protocols)
  Consistent-perform w (dropping_receiver q) h = h
  Consistent-perform w (polling q) h = ground (arith, SameRegistry-try_accept q w.dispatcher)
  Consistent-perform w (refusing f value) h = h
  Consistent-perform w (dispatching i) h = ground (arith, SameRegistry-dispatch i w.dispatcher)

  Consistent-performed :
      (w : World) (os : List Operation) → Consistent alpn w → Consistent alpn (performed w os)
  unfolding performed
  Consistent-performed w [] h = h
  Consistent-performed w (o ∷ os) h =
      Consistent-performed (perform w o) os (Consistent-perform w o h)

  -- Whatever was done before, the registry has an ALPN exactly while its claim is held, with the queue
  -- and the flag that the owner has, and the endpoint was told of just the registered ones.
  pub performed-Consistent : (os : List Operation) → Consistent alpn (performed opening os)
  unfolding lookup
  performed-Consistent os = Consistent-performed opening os (refl, refl)

-- An ALPN is given to one owner at a time: after anything that came before, `register` answers
-- exactly when nobody holds it, and it answers again once the claim is dropped.
pub register_exclusive :
    (os : List Operation) (alpn : Alpn)
    → let w = performed opening os in
      ((register alpn w.dispatcher).0
        ≡ (if has alpn w.held then none else some (made w.dispatcher)))
      × ((register alpn (drop_claim alpn w.dispatcher)).0 ≡ some (made w.dispatcher))
unfolding register drop_claim publish_alpns
register_exclusive os alpn =
    let w = performed opening os in
    ground (
      arith,
      performed-Consistent alpn os,
      lookup-remove alpn alpn w.dispatcher.protocols,
      beq_refl alpn,
    )

-- The endpoint's list and the registry are not updated together: when a second ALPN, free and other
-- than the first, is claimed and published between the two halves of the first one's
-- `publish_alpns`, it stays registered and the endpoint no longer offers it.
pub publish_race :
    (a b : Alpn) (d : Dispatcher)
    → (a == b) ≡ false
    → has b d.protocols ≡ false
    → let first = claim a d in
      let stale = collect_alpns first in
      let second = claim b first in
      let after = set_alpns stale (publish_alpns second) in
      (has b after.protocols ≡ true) × (contains b after.published ≡ false)
unfolding claim publish_alpns
publish_race a b d ne free =
    let first = claim a d in
    ground (
      arith,
      contains-keys b first.protocols,
      lookup-insert a b (made d) d.protocols,
      lookup-insert b b (made first) first.protocols,
      beq_refl b,
    )
