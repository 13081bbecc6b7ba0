-- ===== src/Blobs/Tests.antt =====
-- gdiroh/src/blobs.rs: operations of the store, at concrete reports.
use gdiroh.Prelude.{ℕ, ◌≡◌, Option, some, [], ◌∷◌, true, good, bad}
use gdiroh.Blobs.{add_size, add_progress, add_done, add_other}
use gdiroh.Blobs.Endings.{is_last, Work, adding, sent, ends_once-sent}
use gdiroh.Prelude.{goes_on, ends_once, is_some, if◌then◌else◌}

-- Adding nine bytes, whose tag cannot be set.
abbrev untagged : Work
untagged =
    adding (add_size 9 ∷ add_progress 4 ∷ add_other ∷ add_done 77 ∷ []) (some "level") (bad "full")

-- The runtime stops after the size and the progress.
abbrev stopping : Option ℕ
stopping = some 2

ends_once-sent_example :
    let es = sent true stopping (good tt) untagged in
    (if goes_on is_last es then is_some stopping else ends_once is_last es) ≡ true
ends_once-sent_example = ends_once-sent true stopping (good tt) untagged
