-- ===== src/Connection/Tests.antt =====
-- gdiroh/src/connection.rs: a connection, at concrete events.
use gdiroh.Prelude.{◌≡◌, none, [], ◌∷◌, true}
use gdiroh.Raw.Connection.{opened, datagram, closed}
use gdiroh.Connection.{Events, IrohConnection, wrap, get_datagram}
use gdiroh.Connection.Datagrams.{awaited, get_datagram_lem}

abbrev queue : Events
queue = record {
  arrived = opened 7 ∷ datagram (1 ∷ []) ∷ [];
  coming = datagram (2 ∷ []) ∷ closed "done" ∷ datagram (3 ∷ []) ∷ [];
}

abbrev dialled : IrohConnection
dialled = wrap true queue none

get_datagram_lem_example :
    ((get_datagram dialled).0 ≡ 1 ∷ []) × (awaited (get_datagram dialled).1 ≡ (2 ∷ []) ∷ [])
get_datagram_lem_example = get_datagram_lem dialled
