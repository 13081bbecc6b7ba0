-- ===== src/Dispatch.antt =====
-- gdiroh/src/dispatch.rs: one accept loop per endpoint, routing inbound connections by ALPN.
use gdiroh.Prelude.{
  ℕ, suc, ◌+◌, Option, none, some, ◌>>=◌, List, [], ◌∷◌, ◌++◌, Bool, true, false, not, ◌||◌, String,
  if◌then◌else◌, ◌==◌, nat_eq, bytes_eq, Assoc, lookup, insert, remove, has, keys,
}
pub mod Claims
pub mod Routing
mod Tests

-- Close codes.
abbrev pub no_listener : ℕ
no_listener = 1

abbrev pub refused : ℕ
refused = 2

abbrev pub Alpn : Type 0
Alpn = List ℕ

-- One claimed ALPN: which queue its connections go to, and which flag turns them away.
pub record Protocol : Type 0 where
  pub connections : ℕ
  pub refuse : ℕ

-- An unbounded channel of connections, and whether its receiver still exists.
pub record Queue : Type 0 where
  pub waiting : List ℕ
  pub receiving : Bool

-- A connection that was closed, with the code and the reason given.
pub record Close : Type 0 where
  pub connection : ℕ
  pub code : ℕ
  pub reason : String

-- The registry, the ALPNs the endpoint negotiates, and the queues and flags that the registry and
-- the owners of claims share; `allocated` counts those made so far.
pub record Dispatcher : Type 0 where
  pub protocols : Assoc Alpn Protocol
  pub published : List Alpn
  pub queues : ℕ → Queue
  pub flags : ℕ → Bool
  pub allocated : ℕ
  pub closed : List Close

abbrev pub update {ℓ} : {A : Type ℓ} → ℕ → A → (ℕ → A) → ℕ → A
update i a f = λ j. if i == j then a else f j

-- `alpns` is what the endpoint was built with.
abbrev pub start : List Alpn → Dispatcher
start alpns = record {
  protocols = [];
  published = alpns;
  queues = λ q. record { waiting = []; receiving = false };
  flags = λ f. false;
  allocated = 0;
  closed = [];
}

-- The two halves of `publish_alpns`: only the first holds the lock.
abbrev pub collect_alpns : Dispatcher → List Alpn
collect_alpns d = keys d.protocols

abbrev pub set_alpns : List Alpn → Dispatcher → Dispatcher
set_alpns alpns d = record d { published = alpns }

unfoldable pub publish_alpns : Dispatcher → Dispatcher
publish_alpns d = set_alpns (collect_alpns d) d

-- The channel and the flag that `register` makes.
abbrev pub made : Dispatcher → Protocol
made d = record { connections = d.allocated; refuse = d.allocated }

-- The part of `register` that holds the lock, once the ALPN is known to be free.
unfoldable pub claim : Alpn → Dispatcher → Dispatcher
claim alpn d = record d {
  protocols = insert alpn (made d) d.protocols;
  queues = update d.allocated (record { waiting = []; receiving = true }) d.queues;
  flags = update d.allocated false d.flags;
  allocated = d.allocated + 1;
}

-- `none` if something already holds the ALPN.
unfoldable pub register : Alpn → Dispatcher → Option Protocol × Dispatcher
register alpn d =
    if has alpn d.protocols then (none, d) else (some (made d), publish_alpns (claim alpn d))

-- Drop for Claim.
unfoldable pub drop_claim : Alpn → Dispatcher → Dispatcher
drop_claim alpn d = publish_alpns (record d { protocols = remove alpn d.protocols })

-- Drop of the receiving half, which `split` separates from the claim.
unfoldable pub drop_inbound : ℕ → Dispatcher → Dispatcher
drop_inbound q d = record d {
  queues = update q (record { waiting = []; receiving = false }) d.queues;
}

-- Registration::try_accept.
abbrev pub pop : ℕ → List ℕ → Dispatcher → Option ℕ × Dispatcher
pop q [] d = (none, d)
pop q (c ∷ cs) d =
    (some c, record d { queues = update q (record (d.queues q) { waiting = cs }) d.queues })

unfoldable pub try_accept : ℕ → Dispatcher → Option ℕ × Dispatcher
try_accept q d = pop q (d.queues q).waiting d

-- Storing into the flag that `refusals` shares.
unfoldable pub set_refuse : ℕ → Bool → Dispatcher → Dispatcher
set_refuse f value d = record d { flags = update f value d.flags }

-- What iroh says of an inbound connection: the ALPNs its ClientHello offers (`none` when it could
-- not be read, and within it `none` for one that did not parse), and how the handshake goes.
pub record Incoming : Type 0 where
  pub offered : Option (List (Option Alpn))
  pub accepted : Bool
  pub negotiated : Option Alpn
  pub connection : Option ℕ

unfoldable pub wanted : Alpn → Dispatcher → Bool
wanted alpn d = elim (lookup alpn d.protocols) [ none ↦ false | some p ↦ not (d.flags p.refuse) ]

abbrev pub any_wanted : List (Option Alpn) → Dispatcher → Bool
any_wanted [] d = false
any_wanted (none ∷ offers) d = any_wanted offers d
any_wanted (some alpn ∷ offers) d = wanted alpn d || any_wanted offers d

unfoldable pub offers_wanted_alpn : Incoming → Dispatcher → Option Bool
offers_wanted_alpn i d = i.offered >>= λ offers. some (any_wanted offers d)

-- One turn of `accept_loop`: whether the connection goes on to `dispatch`.
unfoldable pub accept_turn : Incoming → Dispatcher → Bool
accept_turn i d = elim (offers_wanted_alpn i d) [ none ↦ true | some offers ↦ offers ]

-- The part of `dispatch` that holds the lock: the queue to send to, or the connection closed.
unfoldable pub route : Alpn → ℕ → Dispatcher → Option ℕ × Dispatcher
route alpn c d = elim (lookup alpn d.protocols) [
  | none ↦ (
    none,
    record d {
      closed =
          record { connection = c; code = no_listener; reason = "no listener for that protocol" }
          ∷ d.closed;
    },
  )
  | some p ↦
      if d.flags p.refuse
      then (
        none,
        record d {
          closed =
              record { connection = c; code = refused; reason = "not accepting connections" }
              ∷ d.closed;
        },
      )
      else (some p.connections, d)
]

-- connections.send(connection): lost when the receiver is gone.
unfoldable pub deliver : ℕ → Option ℕ × Dispatcher → Dispatcher
deliver c (none, d) = d
deliver c (some q, d) =
    if (d.queues q).receiving
    then record d {
      queues =
          update q (record (d.queues q) { waiting = (d.queues q).waiting ++ (c ∷ []) }) d.queues;
    }
    else d

-- dispatch, with nothing else between the lock and the send.
abbrev established : Option Alpn → Option ℕ → Dispatcher → Dispatcher
established none c d = d
established (some alpn) none d = d
established (some alpn) (some c) d = deliver c (route alpn c d)

unfoldable pub dispatch : Incoming → Dispatcher → Dispatcher
dispatch i d = if i.accepted then established i.negotiated i.connection d else d
