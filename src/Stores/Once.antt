-- ===== src/Stores/Once.antt =====
-- gdiroh/src/blobs.rs and gdiroh/src/docs.rs: that the store and the documents are opened once.
use gdiroh.Prelude.{
  ◌≡◌, none, some, good, bad, is_some, is_empty, if◌then◌else◌, Bool, true, false, ◌&&◌,
}
use gdiroh.Stores.{Cell, Stores, Given, store_given, docs_given}

abbrev pub is_good : Cell → Bool
is_good none = false
is_good (some (good n)) = true
is_good (some (bad err)) = false

-- What the store makes of the documents: a store that could not be opened is their failure too.
abbrev pub Follows : Cell → Cell → Type 0
Follows store none = Unit
Follows none (some r) = ⊥
Follows (some (good n)) (some r) = Unit
Follows (some (bad err)) (some r) = r ≡ bad err

-- The store is loaded as often as its cell is full, the documents are started as often as theirs is and
-- the store is a good one, and fail with the store; and nothing is served from a store that is not open.
abbrev pub Once : Stores → Type 0
Once s =
    (s.loads ≡ (if is_some s.store then 1 else 0))
    × (s.starts ≡ (if is_some s.engine && is_good s.store then 1 else 0))
    × Follows s.store s.engine
    × ((if is_good s.store then true else is_empty s.blobs_served) ≡ true)

-- What is there stays.
abbrev pub Stays : Cell → Cell → Type 0
Stays none d = Unit
Stays (some r) d = d ≡ some r

abbrev pub Keeps : Stores → Stores → Type 0
Keeps s t = Stays s.store t.store × Stays s.engine t.engine

-- What was given is what the cell holds.
abbrev pub Holds : Stores → Given → Type 0
Holds t (store_given r) = t.store ≡ some r
Holds t (docs_given r) = t.engine ≡ some r

-- What a use leaves behind, and that it was given what is there.
abbrev Used : Stores → Given → Stores → Type 0
Used s g t = Once t × Keeps s t × Holds t g
