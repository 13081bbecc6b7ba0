-- ===== src/Blobs/Endings.antt =====
-- gdiroh/src/blobs.rs: how an operation ends.
use gdiroh.Prelude.{
  ℕ, ◌≡◌, refl, Option, none, some, List, [], ◌∷◌, Bool, true, false, String, Result, good, bad,
  goes_on, ends_once, ends_once-append, zero, suc, ◌++◌, if◌then◌else◌, is_some, is_empty_iff, take,
  arith,
}
use gdiroh.Wire.{Bytes}
use gdiroh.Blobs.{
  Event, size, progress, completed, gave_up, AddItem, add_size, add_progress, add_done, add_error,
  add_other, forward_add, add, FetchItem, fetch_progress, fetch_error, download_error, fetch_other,
  forward_fetch, fetch, ExportItem, export_size, export_progress, export_error, export_other,
  export, cut_off, run, read,
}

abbrev pub is_last : Event → Bool
is_last (size n) = false
is_last (progress n) = false
is_last (completed hash bytes) = true
is_last (gave_up reason) = true

goes_on-forward_add :
    (hash : Option ℕ) (items : List AddItem) → goes_on is_last (forward_add hash items).0 ≡ true
unfolding forward_add
goes_on-forward_add none [] = refl
goes_on-forward_add (some h) [] = refl
goes_on-forward_add none (add_size n ∷ items) = goes_on-forward_add none items
goes_on-forward_add none (add_progress n ∷ items) = goes_on-forward_add none items
goes_on-forward_add none (add_done h ∷ items) = goes_on-forward_add (some h) items
goes_on-forward_add none (add_error reason ∷ items) = refl
goes_on-forward_add none (add_other ∷ items) = goes_on-forward_add none items
goes_on-forward_add (some g) (add_size n ∷ items) = goes_on-forward_add (some g) items
goes_on-forward_add (some g) (add_progress n ∷ items) = goes_on-forward_add (some g) items
goes_on-forward_add (some g) (add_done h ∷ items) = goes_on-forward_add (some h) items
goes_on-forward_add (some g) (add_error reason ∷ items) = refl
goes_on-forward_add (some g) (add_other ∷ items) = goes_on-forward_add (some g) items

goes_on-forward_fetch :
    (hash : ℕ) (items : List FetchItem) → goes_on is_last (forward_fetch hash items).0 ≡ true
unfolding forward_fetch
goes_on-forward_fetch hash [] = refl
goes_on-forward_fetch hash (fetch_progress n ∷ items) = goes_on-forward_fetch hash items
goes_on-forward_fetch hash (fetch_error reason ∷ items) = refl
goes_on-forward_fetch hash (download_error ∷ items) = refl
goes_on-forward_fetch hash (fetch_other ∷ items) = goes_on-forward_fetch hash items

goes_on-export : (hash : ℕ) (items : List ExportItem) → goes_on is_last (export hash items).0 ≡ true
unfolding export
goes_on-export hash [] = refl
goes_on-export hash (export_size n ∷ items) = goes_on-export hash items
goes_on-export hash (export_progress n ∷ items) = goes_on-export hash items
goes_on-export hash (export_error reason ∷ items) = refl
goes_on-export hash (export_other ∷ items) = goes_on-export hash items

-- Progress, and then one ending; or progress only, and the runtime stopped.
abbrev pub Ends : Option ℕ → List Event → Type 0
Ends stops es = (if goes_on is_last es then is_some stops else ends_once is_last es) ≡ true

take-nil : (n : ℕ) → take {A = Event} n [] ≡ []
take-nil zero = refl
take-nil (suc n) = refl

Ends-take : (n : ℕ) (es : List Event) → ends_once is_last es ≡ true → Ends (some n) (take n es)
Ends-take zero es h = refl
Ends-take (suc n) [] h = ground arith
Ends-take (suc n) (e ∷ es) h = ground (arith, Ends-take n es, is_empty_iff es, take-nil n)

-- An ending is where it does not go on.
goes_on_iff : (es : List Event) → ends_once is_last es ≡ true → goes_on is_last es ≡ false
goes_on_iff [] h = ground arith
goes_on_iff (e ∷ es) h = ground (arith, goes_on_iff es)

Ends-cut_off :
    (stops : Option ℕ) (es : List Event)
    → ends_once is_last es ≡ true
    → Ends stops (cut_off stops es)
unfolding cut_off
Ends-cut_off none es h = ground (arith, h, goes_on_iff es)
Ends-cut_off (some n) es h = Ends-take n es h

-- Work that reports progress only.
Ends-run :
    (detached : Bool) (stops : Option ℕ) (ready : Result {0} Unit) (work : List Event × Result ℕ)
    → goes_on is_last work.0 ≡ true
    → Ends stops (run detached stops ready work)
unfolding run
Ends-run false stops ready work h = refl
Ends-run true stops (bad reason) work h = Ends-cut_off stops (gave_up reason ∷ []) refl
Ends-run true stops (good u) (events, good hash) h =
    Ends-cut_off stops (events ++ completed hash [] ∷ [])
      (ends_once-append is_last events (completed hash []) h)
Ends-run true stops (good u) (events, bad reason) h =
    Ends-cut_off stops (events ++ gave_up reason ∷ [])
      (ends_once-append is_last events (gave_up reason) h)

-- One operation of the store, with all that its outcome depends on.
pub data Work : Type 0 where
  adding : List AddItem → Option String → Result {0} Unit → Work
  fetching : ℕ → Result (List FetchItem) → Option String → Result {0} Unit → Work
  exporting : ℕ → List ExportItem → Work
  reading : ℕ → Result Bytes → Work

-- Everything that the transfer of an operation is sent, where the runtime may stop on the way.
abbrev pub sent : Bool → Option ℕ → Result {0} Unit → Work → List Event
sent detached stops ready (adding items tag tagged) =
    run detached stops ready (add items tag tagged)
sent detached stops ready (fetching hash download tag tagged) =
    run detached stops ready (fetch hash download tag tagged)
sent detached stops ready (exporting hash items) = run detached stops ready (export hash items)
sent detached stops ready (reading hash got) = read detached stops hash ready got

-- Every operation of the store is reported to its transfer with progress, if any, and then just one
-- completion or failure, whatever fails on the way, the store, the operation or the tag, and also if the
-- runtime is not running; only if the runtime stops before that is sent, there is progress alone.
pub ends_once-sent :
    (detached : Bool) (stops : Option ℕ) (ready : Result {0} Unit) (work : Work)
    → let es = sent detached stops ready work in
      (if goes_on is_last es then is_some stops else ends_once is_last es) ≡ true
unfolding add fetch read
ends_once-sent detached stops ready (adding items tag tagged) =
    Ends-run detached stops ready (add items tag tagged) (goes_on-forward_add none items)
ends_once-sent detached stops ready (fetching hash (bad reason) tag tagged) =
    Ends-run detached stops ready (fetch hash (bad reason) tag tagged) refl
ends_once-sent detached stops ready (fetching hash (good items) tag tagged) =
    Ends-run detached stops ready (fetch hash (good items) tag tagged)
      (goes_on-forward_fetch hash items)
ends_once-sent detached stops ready (exporting hash items) =
    Ends-run detached stops ready (export hash items) (goes_on-export hash items)
ends_once-sent false stops ready (reading hash got) = refl
ends_once-sent true stops (bad reason) (reading hash got) =
    Ends-cut_off stops (gave_up reason ∷ []) refl
ends_once-sent true stops (good u) (reading hash (good bytes)) =
    Ends-cut_off stops (completed hash bytes ∷ []) refl
ends_once-sent true stops (good u) (reading hash (bad reason)) =
    Ends-cut_off stops (gave_up reason ∷ []) refl
