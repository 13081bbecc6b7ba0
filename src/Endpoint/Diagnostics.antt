-- ===== src/Endpoint/Diagnostics.antt =====
-- gdiroh/src/endpoint.rs: what a game can read of an endpoint.
use gdiroh.Prelude.{none, some, List, [], Bool, true, String, Assoc, is_some}
use gdiroh.Stats
use gdiroh.Stats.{Item, Dictionary}
use gdiroh.Endpoint.{IrohEndpoint}

-- What iroh tells of the endpoint that is bound.
pub record Bound (Real : Type 0) : Type 0 where
  pub id : String
  pub address_ticket : String
  pub relays : List String
  pub addresses : List String
  pub closed : Bool
  pub counters : List (Item Real)

unfoldable pub is_bound : IrohEndpoint → Bool
is_bound e = is_some e.dispatcher

module _ {Real : Type 0} (bound : Bound Real) where
  unfoldable pub ticket : IrohEndpoint → String
  ticket e = elim e.dispatcher [ none ↦ "" | some d ↦ bound.address_ticket ]

  unfoldable pub endpoint_id : IrohEndpoint → String
  endpoint_id e = elim e.dispatcher [ none ↦ "" | some d ↦ bound.id ]

  unfoldable pub get_metrics : IrohEndpoint → Assoc String (Dictionary Real)
  get_metrics e = elim e.dispatcher [ none ↦ [] | some d ↦ Stats.metrics bound.counters ]

  unfoldable pub home_relays : IrohEndpoint → List String
  home_relays e = elim e.dispatcher [ none ↦ [] | some d ↦ bound.relays ]

  unfoldable pub direct_addresses : IrohEndpoint → List String
  direct_addresses e = elim e.dispatcher [ none ↦ [] | some d ↦ bound.addresses ]

  unfoldable pub is_closed : IrohEndpoint → Bool
  is_closed e = elim e.dispatcher [ none ↦ true | some d ↦ bound.closed ]
