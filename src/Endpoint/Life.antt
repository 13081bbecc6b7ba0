-- ===== src/Endpoint/Life.antt =====
-- gdiroh/src/endpoint.rs: settings, the frame, and closing.
use gdiroh.Prelude.{
  ℕ, Option, none, some, [], ◌∷◌, ◌++◌, Bool, true, false, String, if◌then◌else◌, ◌==◌, nat_eq,
  bytes_eq, Assoc, lookup, remove, set_remove, length,
}
use gdiroh.Wire.{Bytes}
use gdiroh.Dispatch.{Alpn, Protocol, Dispatcher}
use gdiroh.Runtime.{drop_lease, spawn}
use gdiroh.Endpoint.{
  default, staging, disabled, custom, IrohEndpoint, refresh_ticking, drain_bind, drop_registration,
}
use gdiroh.Endpoint.Services.{Alpns}
use gdiroh.Endpoint.Requests.{drain_questions, drain_document_questions}
use gdiroh.Endpoint.Receiving.{drain_listeners}

-- `mode` is an i32, as its 32-bit pattern.
unfoldable pub set_relay_mode : ℕ → IrohEndpoint → Bool × IrohEndpoint
set_relay_mode mode e =
    if mode == 0
    then (true, record e { relay_mode = default })
    else (if mode == 1
        then (true, record e { relay_mode = staging })
        else (if mode == 2 then (true, record e { relay_mode = disabled }) else (false, e)))

-- `relays` is what the urls parse to, if all of them do.
unfoldable pub set_custom_relays : Option ℕ → IrohEndpoint → Bool × IrohEndpoint
set_custom_relays none e = (false, e)
set_custom_relays (some relays) e = (true, record e { relay_mode = custom relays })

abbrev pub set_dns_lookup : Bool → IrohEndpoint → IrohEndpoint
set_dns_lookup enabled e = record e { dns_lookup = enabled }

abbrev pub set_local_discovery : Bool → IrohEndpoint → IrohEndpoint
set_local_discovery enabled e = record e { local_discovery = enabled }

-- `blank` is whether the name is one of spaces only.
unfoldable pub set_local_discovery_service : Bool → String → IrohEndpoint → IrohEndpoint
set_local_discovery_service blank name e = record e {
  local_service = if blank then "gdiroh" else name;
}

unfoldable pub set_secret_key : Bytes → IrohEndpoint → Bool × IrohEndpoint
set_secret_key key e =
    if length key == 32 then (true, record e { secret_key = some key }) else (false, e)

-- A path is globalized.
unfoldable pub set_blob_store_path : Bool → String → IrohEndpoint → IrohEndpoint
set_blob_store_path blank path e = record e { blob_path = if blank then none else some path }

-- dial: the peer and the ALPN that `IrohConnection::dial` is given.
unfoldable pub dial : ℕ → Alpn → IrohEndpoint → Option (ℕ × Alpn)
dial peer [] e = none
dial peer (b ∷ alpn) e = elim e.dispatcher [ none ↦ none | some d ↦ some (peer, b ∷ alpn) ]

-- connect_to and connect_to_ticket, whose first argument is none when it cannot be parsed.
abbrev pub connect_to : Option ℕ → Alpn → IrohEndpoint → Option (ℕ × Alpn)
connect_to none alpn e = none
connect_to (some peer) alpn e = dial peer alpn e

-- remember_peer: the id of what is remembered; `addr` is none when the ticket cannot be parsed.
unfoldable pub remember_peer : Option ℕ → IrohEndpoint → Option ℕ × IrohEndpoint
remember_peer none e = (none, e)
remember_peer (some addr) e = (some addr, record e { address_book = e.address_book ++ addr ∷ [] })

abbrev dropping_on : (Dispatcher → Dispatcher) → Option Dispatcher → Option Dispatcher
dropping_on f none = none
dropping_on f (some d) = some (f d)

unfoldable pub stop_listening : Alpn → IrohEndpoint → IrohEndpoint
stop_listening alpn e = refresh_ticking (record e {
  pending_listens = set_remove alpn e.pending_listens;
  dispatcher = dropping_on (drop_registration alpn (lookup alpn e.listeners)) e.dispatcher;
  listeners = remove alpn e.listeners;
})

unfoldable pub drain : IrohEndpoint → IrohEndpoint
drain e = drain_document_questions (drain_questions (drain_listeners (drain_bind e)))

-- listeners.clear()
unfoldable pub drop_listeners : Assoc Alpn Protocol → Dispatcher → Dispatcher
drop_listeners [] d = d
drop_listeners ((alpn, p) ∷ listeners) d =
    drop_listeners listeners (drop_registration alpn (some p) d)

-- What of the dispatcher is dropped before it is given up: listeners, then the services.
abbrev pub dropped : Alpns → IrohEndpoint → Dispatcher → Dispatcher
dropped a e d = drop_registration a.docs e.library (
    drop_registration a.blobs e.depot
      (drop_registration a.gossip e.swarm (drop_listeners e.listeners d)))

-- The endpoint is closed by a task, and the lease given back after it was started.
abbrev pub gave_up : Alpns → ℕ → IrohEndpoint → IrohEndpoint
gave_up a task e = elim e.dispatcher [
  | none ↦ e
  | some d ↦ record e {
    dispatcher = none;
    shared = (spawn task e.shared).1;
    closing = e.closing ++ dropped a e d ∷ [];
  }
]

unfoldable pub teardown : Alpns → ℕ → IrohEndpoint → IrohEndpoint
teardown a task e =
    let away = gave_up a task e in
    record away {
      pending_bind = none;
      listeners = [];
      pending_listens = [];
      swarm = none;
      depot = none;
      library = none;
      lease = false;
      shared = if e.lease then drop_lease away.shared else away.shared;
    }

unfoldable pub close : Alpns → ℕ → IrohEndpoint → IrohEndpoint
close a task e = refresh_ticking (teardown a task e)
