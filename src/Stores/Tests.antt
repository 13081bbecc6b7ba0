-- ===== src/Stores/Tests.antt =====
-- gdiroh/src/blobs.rs and gdiroh/src/docs.rs: the stores, at concrete answers.
use gdiroh.Prelude.{none, some, List, [], ◌∷◌, good, bad}
use gdiroh.Stores.{Answers, Stores, Use, store_asked, docs_asked, blobs_inbound, docs_inbound}
use gdiroh.Stores.Once.{Once}

abbrev unopened : Stores
unopened = record {
  path = some "user://blobs";
  store = none;
  engine = none;
  loads = 0;
  starts = 0;
  blobs_served = [];
  docs_served = [];
}

abbrev fine : Answers
fine = record { loaded = good 3; memory = 0; spawned = good 4 }

abbrev locked : Answers
locked = record { loaded = bad "locked"; memory = 0; spawned = good 4 }

-- The first that asks finds the store locked, and so do all after it.
abbrev uses : List Use
uses = docs_asked locked ∷ store_asked fine ∷ blobs_inbound 7 fine ∷ docs_inbound 8 fine ∷ []
