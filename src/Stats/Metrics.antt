-- ===== src/Stats/Metrics.antt =====
-- gdiroh/src/stats.rs: what can be read in the dictionary of the metrics.
use gdiroh.Prelude.{
  ◌≡◌, refl, Option, none, some, ◌>>=◌, List, [], ◌∷◌, String, ◌==◌, string_eq, if◌then◌else◌,
  arith, Assoc, insert, lookup, lookup-insert,
}
use gdiroh.Stats.{
  Item, Variant, plain, text, Dictionary, value_of, help_name, add_item, add_items, metrics,
}

module _ {Real : Type 0} (group key : String) where
  -- What stands under a key of a group.
  abbrev pub reading : Assoc String (Dictionary Real) → Option (Variant Real)
  reading out = lookup group out >>= lookup key

  -- What one counter has to say about a key: its description, or its value.
  abbrev pub told : Item Real → Option (Variant Real)
  told item =
      if item.group == group
      then if help_name item.name == key
        then some (plain (text item.help))
        else if item.name == key
        then some (value_of item.value)
        else none
      else none

  -- What the last counter says that has something to say.
  abbrev pub last_told : List (Item Real) → Option (Variant Real)
  last_told [] = none
  last_told (item ∷ items) = elim (last_told items) [ none ↦ told item | some v ↦ some v ]

  abbrev or_before : Option (Variant Real) → Option (Variant Real) → Option (Variant Real)
  or_before (some v) before = some v
  or_before none before = before

  reading-add_item :
      (item : Item Real) (out : Assoc String (Dictionary Real))
      → reading (add_item item out) ≡ or_before (told item) (reading out)
  unfolding add_item lookup
  reading-add_item item out =
      let counters : Dictionary Real = elim (lookup item.group out) [
        | none ↦ []
        | some existing ↦ existing
      ] in
      let named : Dictionary Real = insert item.name (value_of item.value) counters in
      let helped : Dictionary Real = insert (help_name item.name) (plain (text item.help)) named in
      ground (
        arith,
        lookup-insert item.group group helped out,
        lookup-insert (help_name item.name) key (plain (text item.help)) named,
        lookup-insert item.name key (value_of item.value) counters,
        string_eq.equals_iff item.group group,
      )

  reading-add_items :
      (items : List (Item Real)) (out : Assoc String (Dictionary Real))
      → reading (add_items items out) ≡ or_before (last_told items) (reading out)
  unfolding add_items
  reading-add_items [] out = refl
  reading-add_items (item ∷ items) out =
      ground (arith, reading-add_items items (add_item item out), reading-add_item item out)

  -- The dictionary says of every key of every group what the last counter of that group says that is
  -- read under the key, or described there, and nothing where there is none, so no counter is lost.
  pub reading-metrics : (items : List (Item Real)) → reading (metrics items) ≡ last_told items
  unfolding metrics lookup
  reading-metrics items = ground (arith, reading-add_items items [])
