-- ===== src/Document/Tests.antt =====
-- gdiroh/src/document.rs: a document over three frames.
use gdiroh.Prelude.{◌≡◌, refl, none, List, map, [], ◌∷◌, true, good, bad, some, ◌||◌, String}
use gdiroh.Wire.{Bytes}
use gdiroh.Docs.{
  Event, opened, neighbor_up, closed, Input, reported, ending, live_neighbor_up, create, Opening,
  spawn, run, loop, turn, report, send, open_doc, translated,
}
use gdiroh.Document.{Document, wrap, is_open}
use gdiroh.Document.Frames.{frames, signal, wrap-heard_whole}

abbrev opening : Opening
opening = record {
  docs = some (good tt);
  created = some (good 11);
  found = λ id. some (good none);
  imported = λ ticket. some (bad "unreachable");
  author = some (good 4);
  updates = some (good tt);
  store = some (good tt);
}

-- Every key is shown alike.
abbrev shown : Bytes → String
shown key = "key"

abbrev short : List Input
short = reported (live_neighbor_up 6) ∷ ending ∷ []

abbrev fresh_document : Document
fresh_document = record { events = []; commands = []; served = true }

abbrev by_frame : List (List Event)
by_frame = (opened 11 ∷ []) ∷ [] ∷ (neighbor_up 6 ∷ closed "document closed" ∷ []) ∷ []

wrap-heard_whole_example :
    let task = spawn true create opening short in
    let t = frames shown (wrap true fresh_document) by_frame in
    (t.signals ≡ map (signal shown) task.sent)
    × (is_open t ≡ (task.running || task.dropped))
    × (t.ticking ≡ (task.running || task.dropped))
wrap-heard_whole_example =
    wrap-heard_whole shown fresh_document true create opening short by_frame refl
      (unfold spawn run loop turn report send open_doc translated in refl)
      (unfold spawn run loop turn report send open_doc translated in refl)
