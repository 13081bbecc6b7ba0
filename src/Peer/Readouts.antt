-- ===== src/Peer/Readouts.antt =====
-- gdiroh/src/peer.rs with gdiroh/src/session.rs and gdiroh/src/stats.rs: that what a game reads of a
-- peer is told of the connection that the session's task has to it.
use gdiroh.Prelude.{ℕ, ◌≡◌, Option, none, some, List, [], String, ◌==◌, nat_eq, string_eq, lookup}
use gdiroh.Raw.{NetPath}
use gdiroh.Stats
use gdiroh.Stats.{Traffic, Plain, integer, real, flag}
use gdiroh.Session.Handle
use gdiroh.Peer.{IrohPeer}
use gdiroh.Peer.Diagnostics.{
  get_peer_path_type, get_peer_endpoint_id, get_peer_latency_ms, get_peer_stats,
}

module _ {Real : Type 0} (unknown : Real) (millis : ℕ → Real) (remote_id : ℕ → String)
    (counters : ℕ → Traffic) (paths : ℕ → List NetPath) (q : ℕ) where
  -- What the game reads of peer `q`, if the connection to it is this, or none.
  abbrev pub Reads : Option ℕ → IrohPeer → Type 0
  Reads none p =
      (get_peer_endpoint_id remote_id q p ≡ "")
      × (get_peer_path_type paths q p ≡ 0)
      × (get_peer_latency_ms unknown millis paths q p ≡ unknown)
      × (get_peer_stats unknown millis counters paths q p ≡ [])
  Reads (some c) p =
      let stats = get_peer_stats unknown millis counters paths q p in
      (get_peer_endpoint_id remote_id q p ≡ remote_id c)
      × (lookup "relayed" stats ≡ some (flag (get_peer_path_type paths q p == 1)))
      × (lookup "rtt_ms" stats ≡ some (real (get_peer_latency_ms unknown millis paths q p)))
      × (lookup "sent_datagrams" stats ≡ some (integer (counters c).tx_datagrams))
      × (lookup "sent_bytes" stats ≡ some (integer (counters c).tx_bytes))
      × (lookup "received_datagrams" stats ≡ some (integer (counters c).rx_datagrams))
      × (lookup "received_bytes" stats ≡ some (integer (counters c).rx_bytes))
      × (lookup "lost_packets" stats ≡ some (integer (counters c).lost_packets))
      × (lookup "lost_bytes" stats ≡ some (integer (counters c).lost_bytes))
