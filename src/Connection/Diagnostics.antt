-- ===== src/Connection/Diagnostics.antt =====
-- gdiroh/src/connection.rs: what a game can read of a connection.
use gdiroh.Prelude.{
  ℕ, ◌-◌, min, Option, none, some, ◌>>=◌, List, [], String, Assoc, if◌then◌else◌, sign_bit,
}
use gdiroh.Raw.{NetPath, path_info}
use gdiroh.Stats
use gdiroh.Stats.{Traffic, Plain, rtt_ms}
use gdiroh.Connection.{IrohConnection}

-- `limits` is what the transport carries on a connection, a `usize`.
unfoldable pub max_datagram_size : (ℕ → Option ℕ) → IrohConnection → ℕ
max_datagram_size limits c =
    min (elim (c.connection >>= limits) [ none ↦ 0 | some n ↦ n ]) (sign_bit - 1)

unfoldable pub remote_id : (ℕ → String) → IrohConnection → String
remote_id ids c = elim c.connection [ none ↦ "" | some conn ↦ ids conn ]

-- The text of the protocol's name.
unfoldable pub alpn : (ℕ → String) → IrohConnection → String
alpn names c = elim c.connection [ none ↦ "" | some conn ↦ names conn ]

-- get_path_type: PATH_UNKNOWN, PATH_RELAY and PATH_DIRECT.
unfoldable pub get_path_type : (ℕ → List NetPath) → IrohConnection → ℕ
get_path_type paths c = elim (c.connection >>= λ conn. path_info (paths conn)) [
  | none ↦ 0
  | some path ↦ if path.relay then 1 else 2
]

module _ {Real : Type 0} (unknown : Real) (millis : ℕ → Real) where
  unfoldable pub get_latency_ms : (ℕ → List NetPath) → IrohConnection → Real
  get_latency_ms paths c = rtt_ms unknown millis (c.connection >>= λ conn. path_info (paths conn))

  unfoldable pub get_stats :
      (ℕ → Traffic) → (ℕ → List NetPath) → IrohConnection → Assoc String (Plain Real)
  get_stats counters paths c = elim c.connection [
    | none ↦ []
    | some conn ↦ Stats.connection unknown millis (counters conn) (paths conn)
  ]
