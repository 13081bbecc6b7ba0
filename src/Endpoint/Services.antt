-- ===== src/Endpoint/Services.antt =====
-- gdiroh/src/endpoint.rs: the services of an endpoint and what the game starts through them, with
-- `start` of gdiroh/src/gossip.rs, gdiroh/src/blobs.rs and gdiroh/src/docs.rs.
use gdiroh.Prelude.{
  ℕ, Option, none, some, ◌>>=◌, List, [], ◌∷◌, ◌++◌, Bool, true, false, String, if◌then◌else◌,
  is_some, parse_each,
}
use gdiroh.Dispatch.{Alpn, Protocol, Dispatcher, register}
use gdiroh.Runtime.{Shared, spawn}
use gdiroh.Endpoint.{IrohEndpoint, drop_registration}

-- The ALPNs of iroh-gossip, iroh-blobs and iroh-docs.
pub record Alpns : Type 0 where
  pub gossip : Alpn
  pub blobs : Alpn
  pub docs : Alpn

-- The tail of the three `start`s: the task that accepts is started, or the registration dropped. They
-- are called on the main thread, which is in no runtime of its own, so a task goes to the shared one.
abbrev pub accepting :
    Alpn → Protocol → Dispatcher → Bool × Shared → Option Protocol × Dispatcher × Shared
accepting alpn p d (true, shared) = (some p, d, shared)
accepting alpn p d (false, shared) = (none, drop_registration alpn (some p) d, shared)

abbrev pub serve_on :
    Alpn → ℕ → Option Protocol × Dispatcher → Shared → Option Protocol × Dispatcher × Shared
serve_on alpn task (none, d) shared = (none, d, shared)
serve_on alpn task (some p, d) shared = accepting alpn p d (spawn task shared)

unfoldable pub start_swarm : Alpns → ℕ → Dispatcher → Shared → Option Protocol × Dispatcher × Shared
start_swarm a task d shared = serve_on a.gossip task (register a.gossip d) shared

unfoldable pub start_depot : Alpns → ℕ → Dispatcher → Shared → Option Protocol × Dispatcher × Shared
start_depot a task d shared = serve_on a.blobs task (register a.blobs d) shared

unfoldable pub start_library :
    Alpns → ℕ → Dispatcher → Shared → Option Protocol × Dispatcher × Shared
start_library a task d shared = serve_on a.docs task (register a.docs d) shared

module _ (a : Alpns) (task : ℕ) where
  -- swarm: whether it is there, after it was started if it was not.
  unfoldable pub swarm : IrohEndpoint → Bool × IrohEndpoint
  swarm e = if is_some e.swarm then (true, e) else elim e.dispatcher [
    | none ↦ (false, e)
    | some d ↦
        let given = start_swarm a task d e.shared in
        (is_some given.0, record e { swarm = given.0; dispatcher = some given.1; shared = given.2 })
  ]

  unfoldable pub depot : IrohEndpoint → Bool × IrohEndpoint
  depot e = if is_some e.depot then (true, e) else elim e.dispatcher [
    | none ↦ (false, e)
    | some d ↦
        let given = start_depot a task d e.shared in
        (is_some given.0, record e { depot = given.0; dispatcher = some given.1; shared = given.2 })
  ]

  -- The end of `library`. The dispatcher that was cloned first is the one that the others changed.
  abbrev pub engine : IrohEndpoint → Bool × IrohEndpoint
  engine e = elim e.dispatcher [
    | none ↦ (false, e)
    | some d ↦
        let given = start_library a task d e.shared in
        (
          is_some given.0,
          record e { library = given.0; dispatcher = some given.1; shared = given.2 },
        )
  ]

  unfoldable pub library : IrohEndpoint → Bool × IrohEndpoint
  library e =
      let stored = depot e in
      let gossiping = swarm stored.1 in
      if is_some e.library
      then (true, e)
      else (if is_some e.dispatcher
          then (if stored.0
              then (if gossiping.0 then engine gossiping.1 else (false, gossiping.1))
              else (false, stored.1))
          else (false, e))

  -- subscribe: the peers that the topic's task is to join by. They are parsed first.
  unfoldable pub subscribe : List (Option ℕ) → IrohEndpoint → Option (List ℕ) × IrohEndpoint
  subscribe bootstrap e =
      let there = swarm e in
      if is_some e.dispatcher
      then elim (parse_each bootstrap) [
        | none ↦ (none, e)
        | some peers ↦ (if there.0 then some peers else none, there.1)
      ]
      else (none, e)

  -- Starting an operation of the blob store: its arguments are read first, and `none` if bad.
  abbrev pub transfer {ℓ} : {A : Type ℓ} → Option A → IrohEndpoint → Option A × IrohEndpoint
  transfer none e = (none, e)
  transfer (some x) e = let there = depot e in (if there.0 then some x else none, there.1)

  -- A blank tag is not given.
  abbrev optional : Bool → String → Option String
  optional blank s = if blank then none else some s

  -- add_bytes and add_file; a file's path is `none` when it is blank.
  abbrev pub add_bytes : Bool → String → IrohEndpoint → Option (Option String) × IrohEndpoint
  add_bytes blank tag e = transfer (some (optional blank tag)) e

  abbrev pub add_file :
      Option String → Bool → String → IrohEndpoint → Option (String × Option String) × IrohEndpoint
  add_file path blank tag e = transfer (path >>= λ p. some (p, optional blank tag)) e

  -- fetch_blob: the hash is parsed before the providers.
  unfoldable pub fetch_blob :
      Option ℕ → List (Option ℕ) → IrohEndpoint → Option (ℕ × List ℕ) × IrohEndpoint
  fetch_blob hash providers e =
      transfer (hash >>= λ h. parse_each providers >>= λ peers. some (h, peers)) e

  -- fetch_blob_ticket: the ticket is a hash and an address, which is learned before the fetch.
  unfoldable pub fetch_blob_ticket :
      Option (ℕ × ℕ) → IrohEndpoint → Option (ℕ × List ℕ) × IrohEndpoint
  fetch_blob_ticket none e = (none, e)
  fetch_blob_ticket (some (hash, addr)) e =
      transfer (some (hash, addr ∷ [])) (record e { address_book = e.address_book ++ addr ∷ [] })

  -- blob_ticket: the hash that a ticket is made of, with the endpoint's own address.
  unfoldable pub blob_ticket : Option ℕ → IrohEndpoint → Option ℕ
  blob_ticket hash e = if is_some e.dispatcher then hash else none

  abbrev pub export_blob :
      Option ℕ → Option String → IrohEndpoint → Option (ℕ × String) × IrohEndpoint
  export_blob hash path e = transfer (hash >>= λ h. path >>= λ p. some (h, p)) e

  abbrev pub read_blob : Option ℕ → IrohEndpoint → Option ℕ × IrohEndpoint
  read_blob hash e = transfer hash e

  -- Opening a document: `none` for an id or a ticket that is none.
  unfoldable pub open_by {ℓ} : {A : Type ℓ} → Option A → IrohEndpoint → Option A × IrohEndpoint
  open_by none e = (none, e)
  open_by (some x) e = let there = library e in (if there.0 then some x else none, there.1)
