-- ===== src/Stores.antt =====
-- gdiroh/src/blobs.rs and gdiroh/src/docs.rs: `StoreHandle` and `DocsHandle`, which open the blob store
-- and start the documents on first use, and the tasks that serve inbound connections from them. A store,
-- an engine and a connection are numbers; what iroh answers when it is asked is part of the input.
use gdiroh.Prelude.{
  ℕ, ◌+◌, ◌≤◌, ◌≡◌, refl, Option, none, some, List, [], ◌∷◌, ◌++◌, Bool, true, false, String,
  Result, good, bad, is_some, arith, inl, inr, Option-cases,
}
use Prim.Native.String
pub mod Once
mod Tests

-- An `OnceCell` with the outcome of the building it holds.
abbrev pub Cell : Type 0
Cell = Option (Result ℕ)

-- The two cells, with how often each was built to its end, and the connections that were served.
pub record Stores : Type 0 where
  pub path : Option String
  pub store : Cell
  pub engine : Cell
  pub loads : ℕ
  pub starts : ℕ
  pub blobs_served : List ℕ
  pub docs_served : List ℕ

-- Answers: of `FsStore::load`, for a store in memory, and of the documents' `spawn`.
pub record Answers : Type 0 where
  pub loaded : Result ℕ
  pub memory : ℕ
  pub spawned : Result ℕ

abbrev described : String → Result ℕ → Result ℕ
described what (good n) = good n
described what (bad err) = bad (String.◌++◌ what err)

abbrev built_store : Option String → Answers → Result ℕ
built_store none a = good a.memory
built_store (some path) a = described "could not open the blob store: " a.loaded

-- StoreHandle::ready and open
unfoldable pub open_store : Answers → Stores → Result ℕ × Stores
open_store a s = elim s.store [
  | some r ↦ (r, s)
  | none ↦
      (built_store s.path a, record s { store = some (built_store s.path a); loads = s.loads + 1 })
]

-- The rest of DocsHandle::open, once the store was asked for.
abbrev pub start_engine : Answers → Result ℕ × Stores → Result ℕ × Stores
start_engine a (bad err, s) = (bad err, record s { engine = some (bad err) })
start_engine a (good store, s) =
    let r = described "could not start documents: " a.spawned in
    (r, record s { engine = some r; starts = s.starts + 1 })

-- DocsHandle::open
unfoldable pub open_docs : Answers → Stores → Result ℕ × Stores
open_docs a s = elim s.engine [ some r ↦ (r, s) | none ↦ start_engine a (open_store a s) ]

-- One round of the tasks that `Depot::start` and `Library::start` detach: a connection that comes while
-- there is nothing to serve it from is dropped.
abbrev pub blob_served : ℕ → Result ℕ × Stores → Stores
blob_served conn (good store, s) = record s { blobs_served = s.blobs_served ++ conn ∷ [] }
blob_served conn (bad err, s) = s

unfoldable pub serve_blobs : ℕ → Answers → Stores → Stores
serve_blobs conn a s = blob_served conn (open_store a s)

abbrev pub doc_served : ℕ → Result ℕ × Stores → Stores
doc_served conn (good engine, s) = record s { docs_served = s.docs_served ++ conn ∷ [] }
doc_served conn (bad err, s) = s

unfoldable pub serve_docs : ℕ → Answers → Stores → Stores
serve_docs conn a s = doc_served conn (open_docs a s)

-- Whatever asks for one of the two.
pub data Use : Type 0 where
  store_asked docs_asked : Answers → Use
  blobs_inbound docs_inbound : ℕ → Answers → Use

unfoldable pub perform : Use → Stores → Stores
perform (store_asked a) s = (open_store a s).1
perform (docs_asked a) s = (open_docs a s).1
perform (blobs_inbound conn a) s = serve_blobs conn a s
perform (docs_inbound conn a) s = serve_docs conn a s

-- What a use is given: the store or the documents, or the reason why there are none.
pub data Given : Type 0 where
  store_given docs_given : Result ℕ → Given

unfoldable pub given : Use → Stores → Given
given (store_asked a) s = store_given (open_store a s).0
given (docs_asked a) s = docs_given (open_docs a s).0
given (blobs_inbound conn a) s = store_given (open_store a s).0
given (docs_inbound conn a) s = docs_given (open_docs a s).0

unfoldable pub performed : List Use → Stores → Stores
performed [] s = s
performed (u ∷ us) s = performed us (perform u s)

-- What the uses are given, one after the other.
unfoldable pub all_given : List Use → Stores → List Given
all_given [] s = []
all_given (u ∷ us) s = given u s ∷ all_given us (perform u s)
