-- ===== src/Endpoint/Queues.antt =====
-- gdiroh/src/endpoint.rs: the queues of a map of listeners.
use gdiroh.Prelude.{
  ℕ, ◌≤◌, ◌≡◌, refl, [], ◌∷◌, Bool, true, false, ◌&&◌, ◌||◌, ◌==◌, nat_eq, nat_beq_iff, bytes_eq,
  ltb, arith, Assoc, lookup, insert, remove, has, contains, NoDup,
}
use gdiroh.Dispatch.{Alpn, Protocol}
use gdiroh.Endpoint.Accepting.{queues_of}

-- All of them made before the counter came to `n`.
abbrev pub all_below : ℕ → Assoc Alpn Protocol → Bool
all_below n [] = true
all_below n ((alpn, p) ∷ listeners) = ltb p.connections n && all_below n listeners

pub all_below_mono :
    (n m : ℕ) (listeners : Assoc Alpn Protocol)
    → n ≤ m
    → all_below n listeners ≡ true
    → all_below m listeners ≡ true
all_below_mono n m [] le h = refl
all_below_mono n m ((alpn, p) ∷ listeners) le h = ground (arith, all_below_mono n m listeners le)

pub all_below-absent :
    (n : ℕ) (listeners : Assoc Alpn Protocol)
    → all_below n listeners ≡ true
    → contains n (queues_of listeners) ≡ false
unfolding contains
all_below-absent n [] h = refl
all_below-absent n ((alpn, p) ∷ listeners) h = ground (arith, all_below-absent n listeners)

pub all_below-insert :
    (n : ℕ) (alpn : Alpn) (p : Protocol) (listeners : Assoc Alpn Protocol)
    → ltb p.connections n ≡ true
    → all_below n listeners ≡ true
    → all_below n (insert alpn p listeners) ≡ true
unfolding insert
all_below-insert n alpn p [] b h = ground arith
all_below-insert n alpn p ((a, o) ∷ listeners) b h =
    ground (arith, all_below-insert n alpn p listeners b)

pub all_below-remove :
    (n : ℕ) (alpn : Alpn) (listeners : Assoc Alpn Protocol)
    → all_below n listeners ≡ true
    → all_below n (remove alpn listeners) ≡ true
unfolding remove
all_below-remove n alpn [] h = refl
all_below-remove n alpn ((a, o) ∷ listeners) h = ground (arith, all_below-remove n alpn listeners)

pub contains-insert :
    (j : ℕ) (alpn : Alpn) (p : Protocol) (listeners : Assoc Alpn Protocol)
    → has alpn listeners ≡ false
    → contains j (queues_of (insert alpn p listeners))
      ≡ (contains j (queues_of listeners) || p.connections == j)
unfolding insert contains lookup
contains-insert j alpn p [] h = ground arith
contains-insert j alpn p ((a, o) ∷ listeners) h = ground (arith, contains-insert j alpn p listeners)

pub NoDup-insert_queue :
    (alpn : Alpn) (p : Protocol) (listeners : Assoc Alpn Protocol)
    → has alpn listeners ≡ false
    → contains p.connections (queues_of listeners) ≡ false
    → NoDup (queues_of listeners)
    → NoDup (queues_of (insert alpn p listeners))
unfolding insert contains lookup
NoDup-insert_queue alpn p [] h c n = (refl, tt)
NoDup-insert_queue alpn p ((a, o) ∷ listeners) h c n = ground (
  arith,
  NoDup-insert_queue alpn p listeners,
  contains-insert o.connections alpn p listeners,
  nat_beq_iff o.connections p.connections,
  nat_beq_iff p.connections o.connections,
)

pub contains-remove_queue :
    (j : ℕ) (alpn : Alpn) (listeners : Assoc Alpn Protocol)
    → contains j (queues_of listeners) ≡ false
    → contains j (queues_of (remove alpn listeners)) ≡ false
unfolding remove contains
contains-remove_queue j alpn [] h = refl
contains-remove_queue j alpn ((a, o) ∷ listeners) h =
    ground (arith, contains-remove_queue j alpn listeners)

pub NoDup-remove_queue :
    (alpn : Alpn) (listeners : Assoc Alpn Protocol)
    → NoDup (queues_of listeners)
    → NoDup (queues_of (remove alpn listeners))
unfolding remove
NoDup-remove_queue alpn [] n = tt
NoDup-remove_queue alpn ((a, o) ∷ listeners) n = ground (
  arith,
  NoDup-remove_queue alpn listeners n.1,
  contains-remove_queue o.connections alpn listeners n.0,
)
