-- ===== src/Stats.antt =====
-- gdiroh/src/stats.rs: `metrics` and `connection`, readouts as Godot dictionaries. A dictionary is a
-- map, a `u64` or `i64` is its 64-bit pattern, and `Real` stands for the floats: `millis` is a time in
-- milliseconds and `unknown` is -1.0.
use gdiroh.Prelude.{
  ℕ, Option, none, some, ◌>>=◌, List, [], ◌∷◌, Bool, true, false, String, Assoc, lookup, insert,
  string_eq,
}
use gdiroh.Raw.{NetPath, PathInfo, path_info}
use Prim.Native.String
pub mod Metrics
mod Tests

-- What `connection.stats()` tells.
pub record Traffic : Type 0 where
  pub tx_datagrams : ℕ
  pub tx_bytes : ℕ
  pub rx_datagrams : ℕ
  pub rx_bytes : ℕ
  pub lost_packets : ℕ
  pub lost_bytes : ℕ

module _ (Real : Type 0) where
  -- MetricValue of iroh-metrics, without a histogram's buckets.
  pub data MetricValue : Type 0 where
    counter gauge : ℕ → MetricValue
    histogram : Real → ℕ → MetricValue
    unfamiliar : MetricValue

  -- One counter of a metrics set, as its iterator gives it.
  pub record Item : Type 0 where
    pub group : String
    pub name : String
    pub value : MetricValue
    pub help : String

  -- A Godot value, and one that may also be a dictionary of such.
  pub data Plain : Type 0 where
    integer : ℕ → Plain
    real : Real → Plain
    flag : Bool → Plain
    text : String → Plain
    nil : Plain

  pub data Variant : Type 0 where
    plain : Plain → Variant
    summary : Assoc String Plain → Variant

abbrev pub Dictionary : Type 0 → Type 0
Dictionary Real = Assoc String (Variant Real)

-- The name under which a counter's description stands.
abbrev pub help_name : String → String
help_name name = String.◌++◌ name "__help"

abbrev pub is_relayed : Option PathInfo → Bool
is_relayed path = elim path [ none ↦ false | some p ↦ p.relay ]

module _ {Real : Type 0} where
  unfoldable pub value_of : MetricValue Real → Variant Real
  value_of (counter count) = plain (integer count)
  value_of (gauge level) = plain (integer level)
  value_of (histogram sum count) =
      summary (insert "count" (integer count) (insert "sum" (real sum) []))
  value_of unfamiliar = plain nil

  -- One round of the loop.
  unfoldable pub add_item :
      Item Real → Assoc String (Dictionary Real) → Assoc String (Dictionary Real)
  unfolding value_of
  add_item item out =
      let counters : Dictionary Real = elim (lookup item.group out) [
        | none ↦ []
        | some existing ↦ existing
      ] in
      insert item.group
        (insert (help_name item.name) (plain (text item.help))
          (insert item.name (value_of item.value) counters))
        out

  unfoldable pub add_items :
      List (Item Real) → Assoc String (Dictionary Real) → Assoc String (Dictionary Real)
  add_items [] out = out
  add_items (item ∷ items) out = add_items items (add_item item out)

  unfoldable pub metrics : List (Item Real) → Assoc String (Dictionary Real)
  metrics items = add_items items []

  -- `millis`, or -1.0 where there is no path.
  unfoldable pub rtt_ms : Real → (ℕ → Real) → Option PathInfo → Real
  rtt_ms unknown millis path = elim path [ none ↦ unknown | some p ↦ millis p.rtt ]

  -- connection, over the transport's counters and the paths it lists.
  unfoldable pub connection : Real → (ℕ → Real) → Traffic → List NetPath → Assoc String (Plain Real)
  connection unknown millis stats paths =
      let path = path_info paths in
      insert "relayed" (flag (is_relayed path)) (
        insert "rtt_ms" (real (rtt_ms unknown millis path)) (
          insert "lost_bytes" (integer stats.lost_bytes) (
            insert "lost_packets" (integer stats.lost_packets) (
              insert "received_bytes" (integer stats.rx_bytes) (
                insert "received_datagrams" (integer stats.rx_datagrams) (
                  insert "sent_bytes" (integer stats.tx_bytes)
                    (insert "sent_datagrams" (integer stats.tx_datagrams) [])))))))
