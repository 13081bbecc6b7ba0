-- ===== src/Gossip/Tests.antt =====
-- gdiroh/src/gossip.rs: one topic, at concrete reports.
use gdiroh.Prelude.{none, List, [], ◌∷◌, true, nat_eq}
use gdiroh.Gossip.{
  Input, commanded, reported, came, went, received, fell_behind, broadcast, joined, subscribe,
}
use gdiroh.Gossip.Neighbors.{Told, subscribe-linked}

-- Two peers come, one goes, and the topic falls behind.
abbrev lobby : List Input
lobby =
    reported (came 5)
    ∷ reported (came 6)
    ∷ commanded (broadcast (1 ∷ [])) none
    ∷ reported (received (9 ∷ []) 6 true)
    ∷ reported (went 5)
    ∷ reported fell_behind
    ∷ reported (came 7)
    ∷ []

subscribe-linked_example : Told 6 (subscribe true joined lobby)
subscribe-linked_example = subscribe-linked 6 true joined lobby
