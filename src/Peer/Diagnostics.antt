-- ===== src/Peer/Diagnostics.antt =====
-- gdiroh/src/peer.rs: what a game can read of the connection behind a peer.
use gdiroh.Prelude.{ℕ, none, some, ◌>>=◌, List, [], String, Assoc, if◌then◌else◌}
use gdiroh.Raw.{NetPath}
use gdiroh.Stats
use gdiroh.Stats.{Traffic, Plain, rtt_ms}
use gdiroh.Session.Handle.{peer_endpoint_id, peer_path, peer_connection}
use gdiroh.Peer.{IrohPeer}

-- get_peer_path_type: PATH_UNKNOWN, PATH_RELAY and PATH_DIRECT.
unfoldable pub get_peer_path_type : (ℕ → List NetPath) → ℕ → IrohPeer → ℕ
get_peer_path_type paths peer p = elim (p.session >>= peer_path paths peer) [
  | none ↦ 0
  | some path ↦ if path.relay then 1 else 2
]

unfoldable pub get_peer_endpoint_id : (ℕ → String) → ℕ → IrohPeer → String
get_peer_endpoint_id remote_id peer p = elim (p.session >>= peer_endpoint_id remote_id peer) [
  | none ↦ ""
  | some id ↦ id
]

module _ {Real : Type 0} (unknown : Real) (millis : ℕ → Real) where
  unfoldable pub get_peer_latency_ms : (ℕ → List NetPath) → ℕ → IrohPeer → Real
  get_peer_latency_ms paths peer p = rtt_ms unknown millis (p.session >>= peer_path paths peer)

  -- `counters` is what the transport counts for a connection.
  unfoldable pub get_peer_stats :
      (ℕ → Traffic) → (ℕ → List NetPath) → ℕ → IrohPeer → Assoc String (Plain Real)
  get_peer_stats counters paths peer p = elim (p.session >>= peer_connection peer) [
    | none ↦ []
    | some c ↦ Stats.connection unknown millis (counters c) (paths c)
  ]
