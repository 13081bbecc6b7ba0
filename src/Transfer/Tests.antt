-- ===== src/Transfer/Tests.antt =====
-- gdiroh/src/transfer.rs: a transfer over three frames.
use gdiroh.Prelude.{
  ℕ, if◌then◌else◌, ◌≡◌, Option, is_some, goes_on, refl, none, List, [], ◌∷◌, true, good,
}
use gdiroh.Blobs.{
  Event, size, progress, completed, cut_off, run, add, forward_add, keep, add_size, add_progress,
  add_done,
}
use gdiroh.Blobs.Endings.{is_last, Work, adding, sent}
use gdiroh.Transfer.{wrap}
use gdiroh.Transfer.Reports.{frames, heard, wrap-heard}

abbrev nine_bytes : Work
nine_bytes = adding (add_size 9 ∷ add_progress 4 ∷ add_done 77 ∷ []) none (good tt)

-- A frame with nothing new stands between the others.
abbrev by_frame : List (List Event)
by_frame = (size 9 ∷ []) ∷ [] ∷ (progress 4 ∷ completed 77 [] ∷ []) ∷ []

abbrev undisturbed : Option ℕ
undisturbed = none

wrap-heard_example :
    let es = sent true undisturbed (good tt) nine_bytes in
    let t = frames (wrap true []) by_frame in
    (t.signals ≡ heard 0 0 es)
    × (is_some t.transfer ≡ goes_on is_last es)
    × (t.ticking ≡ goes_on is_last es)
    × ((if goes_on is_last es then is_some undisturbed else true) ≡ true)
wrap-heard_example =
    wrap-heard true undisturbed (good tt) nine_bytes by_frame
      (unfold run cut_off add forward_add keep in refl)
