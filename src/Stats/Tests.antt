-- ===== src/Stats/Tests.antt =====
-- gdiroh/src/stats.rs: readouts, at concrete counters.
use gdiroh.Prelude.{ℕ, ◌≡◌, some, List, [], ◌∷◌}
use gdiroh.Stats.{Item, counter, plain, integer, metrics}
use gdiroh.Stats.Metrics.{reading, reading-metrics}

-- Two groups; the second counter of the first group comes again with another value.
abbrev counters : List (Item ℕ)
counters =
    record { group = "magicsock"; name = "send_ipv4"; value = counter 3; help = "Sent over IPv4" }
    ∷ record { group = "net_report"; name = "reports"; value = counter 1; help = "Reports made" }
    ∷ record { group = "magicsock"; name = "send_ipv4"; value = counter 5; help = "Sent over IPv4" }
    ∷ []

reading-metrics_example :
    reading "magicsock" "send_ipv4" (metrics counters) ≡ some (plain (integer 5))
unfolding gdiroh.Stats.value_of
reading-metrics_example = reading-metrics "magicsock" "send_ipv4" counters
