-- ===== src/Endpoint/Accepting.antt =====
-- gdiroh/src/endpoint.rs: what `drain_listeners` takes from the dispatcher's queues.
use gdiroh.Prelude.{
  ℕ, ◌≡◌, refl, sym, ap, ◌∙◌, some, List, [], ◌∷◌, ◌++◌, append-nil, append_assoc, false,
  if◌then◌else◌, ◌==◌, nat_eq, nat_beq_iff, ℕ_discrete, subst, arith, Assoc, contains, NoDup,
}
use gdiroh.Dispatch.{Alpn, Protocol, Dispatcher, try_accept, update, pop}
use gdiroh.Endpoint.{IrohEndpoint, Signal, connection_received, emit_later}
use gdiroh.Endpoint.Receiving.{accepted, accept_all, under, arrived, receive_each, drain_listeners}

abbrev pub waiting_on : ℕ → Dispatcher → List ℕ
waiting_on q d = (d.queues q).waiting

-- The queues of some listeners.
abbrev pub queues_of : Assoc Alpn Protocol → List ℕ
queues_of [] = []
queues_of ((alpn, p) ∷ listeners) = p.connections ∷ queues_of listeners

-- All that waits for them, each connection under its listener's ALPN.
abbrev pub due : Assoc Alpn Protocol → Dispatcher → List (Alpn × ℕ)
due [] d = []
due ((alpn, p) ∷ listeners) d = under alpn (waiting_on p.connections d) ++ due listeners d

-- The dispatcher once one connection was taken.
abbrev popped : ℕ → List ℕ → Dispatcher → Dispatcher
popped q cs d = record d { queues = update q (record (d.queues q) { waiting = cs }) d.queues }

try_accept_pops :
    (q c : ℕ) (cs : List ℕ) (d : Dispatcher)
    → waiting_on q d ≡ c ∷ cs
    → try_accept q d ≡ (some c, popped q cs d)
unfolding try_accept
try_accept_pops q c cs d h = ap (λ ws. pop q ws d) h

empty_there :
    (q j : ℕ) (d : Dispatcher)
    → waiting_on q d ≡ []
    → waiting_on j d ≡ (if q == j then [] else waiting_on j d)
empty_there q j d h = elim (ℕ_discrete q j) [
  | yes e ↦
      subst (λ (i : ℕ). waiting_on i d ≡ (if q == i then [] else waiting_on i d)) e
        (ground (arith, h))
  | no n ↦ ground (arith, n)
]

accepted_lem :
    (q j : ℕ) (rounds : List ℕ) (d : Dispatcher)
    → waiting_on q d ≡ rounds
    → let r = accepted q rounds d in
      (r.0 ≡ rounds) × (waiting_on j r.1 ≡ (if q == j then [] else waiting_on j d))
accepted_lem q j [] d h = (refl, empty_there q j d h)
accepted_lem q j (c ∷ rounds) d h =
    let next = popped q rounds d in
    ground (
      arith,
      try_accept_pops q c rounds d h,
      accepted_lem q j rounds next (ground arith),
      nat_beq_iff q j,
    )

accept_all_lem :
    (q j : ℕ) (d : Dispatcher)
    → ((accept_all q d).0 ≡ waiting_on q d)
      × (waiting_on j (accept_all q d).1 ≡ (if q == j then [] else waiting_on j d))
unfolding accept_all
accept_all_lem q j d = accepted_lem q j (waiting_on q d) d refl

-- Taking from a queue leaves what is due to listeners on others.
due-accept_all :
    (q : ℕ) (listeners : Assoc Alpn Protocol) (d : Dispatcher)
    → contains q (queues_of listeners) ≡ false
    → due listeners (accept_all q d).1 ≡ due listeners d
unfolding contains
due-accept_all q [] d h = refl
due-accept_all q ((alpn, p) ∷ listeners) d h = ground (
  arith,
  due-accept_all q listeners d,
  accept_all_lem q p.connections d,
  nat_beq_iff q p.connections,
  nat_beq_iff p.connections q,
)

-- Listeners of which no two share a queue.
arrived_lem :
    (listeners : Assoc Alpn Protocol) (d : Dispatcher) (j : ℕ)
    → NoDup (queues_of listeners)
    → ((arrived listeners d).0 ≡ due listeners d)
      × (waiting_on j (arrived listeners d).1
          ≡ (if contains j (queues_of listeners) then [] else waiting_on j d))
unfolding arrived contains
arrived_lem [] d j n = (refl, refl)
arrived_lem ((alpn, p) ∷ listeners) d j n =
    let q = p.connections in
    let next = (accept_all q d).1 in
    ground (
      arith,
      accept_all_lem q j d,
      due-accept_all q listeners d n.0,
      arrived_lem listeners next j n.1,
      nat_beq_iff q j,
    )

-- The signals of connections.
abbrev pub received : List (Alpn × ℕ) → List Signal
received [] = []
received ((alpn, c) ∷ cs) = connection_received alpn c ∷ received cs

receive_each-signals :
    (cs : List (Alpn × ℕ)) (e : IrohEndpoint)
    → (receive_each cs e).signals ≡ e.signals ++ received cs
unfolding receive_each
receive_each-signals [] e = sym (append-nil e.signals)
receive_each-signals ((alpn, c) ∷ cs) e =
    receive_each-signals cs (emit_later (connection_received alpn c) e)
    ∙ append_assoc e.signals (connection_received alpn c ∷ []) (received cs)

receive_each-dispatcher :
    (cs : List (Alpn × ℕ)) (e : IrohEndpoint) → (receive_each cs e).dispatcher ≡ e.dispatcher
unfolding receive_each
receive_each-dispatcher [] e = refl
receive_each-dispatcher ((alpn, c) ∷ cs) e =
    receive_each-dispatcher cs (emit_later (connection_received alpn c) e)

-- What a frame makes of the queues of a bound endpoint, at one queue.
abbrev pub Emptied : ℕ → IrohEndpoint → Dispatcher → IrohEndpoint → Type 0
Emptied j e d f =
    (f.signals ≡ e.signals ++ received (due e.listeners d))
    × (f.dispatcher ≡ some (arrived e.listeners d).1)
    × (waiting_on j (arrived e.listeners d).1
        ≡ (if contains j (queues_of e.listeners) then [] else waiting_on j d))

pub Emptied-drain_listeners :
    (j : ℕ) (e : IrohEndpoint) (d : Dispatcher)
    → NoDup (queues_of e.listeners)
    → e.dispatcher ≡ some d
    → Emptied j e d (drain_listeners e)
unfolding drain_listeners
Emptied-drain_listeners j e d n up =
    let taken = arrived e.listeners d in
    let after : IrohEndpoint = record e { dispatcher = some taken.1 } in
    ground (
      arith,
      up,
      arrived_lem e.listeners d j n,
      receive_each-signals taken.0 after,
      receive_each-dispatcher taken.0 after,
    )
