-- ===== src/Connection/Datagrams.antt =====
-- gdiroh/src/connection.rs: the datagrams of a connection, in the order they arrive.
use gdiroh.Prelude.{
  ◌≡◌, refl, sym, none, some, Option-cases, List, [], ◌∷◌, ◌++◌, append-nil, append_assoc, arith,
  inl, inr,
}
use gdiroh.Wire.{Bytes}
use gdiroh.Raw.Connection.{Event, opened, stream_opened, datagram, closed}
use gdiroh.Raw.Reports.{received}
use gdiroh.Connection.{
  Events, IrohConnection, handle, handle_all, drain_pending, wait_coming, wait_arrived,
  get_datagram,
}

-- The datagrams of a queue up to the end of the connection.
abbrev pub before_end : List Event → List Bytes
before_end [] = []
before_end (datagram bytes ∷ events) = bytes ∷ before_end events
before_end (closed reason ∷ events) = []
before_end (opened c ∷ events) = before_end events
before_end (stream_opened st ∷ events) = before_end events

-- What a caller of `get_datagram` can still get.
abbrev pub awaited : IrohConnection → List Bytes
awaited c =
    c.datagrams
    ++ elim c.events [ none ↦ [] | some events ↦ before_end (events.arrived ++ events.coming) ]

abbrev pub first : List Bytes → Bytes
first [] = []
first (bytes ∷ rest) = bytes

abbrev pub others : List Bytes → List Bytes
others [] = []
others (bytes ∷ rest) = rest

wait_coming_lem :
    (coming : List Event) (c : IrohConnection)
    → c.datagrams ≡ []
    → ((wait_coming coming c).0 ≡ first (before_end coming))
      × (awaited (wait_coming coming c).1 ≡ others (before_end coming))
unfolding wait_coming handle
wait_coming_lem [] c e = ground (arith, e)
wait_coming_lem (datagram bytes ∷ rest) c e = ground (arith, e)
wait_coming_lem (closed reason ∷ rest) c e = ground (arith, e)
wait_coming_lem (opened connection ∷ rest) c e =
    wait_coming_lem rest (handle (opened connection) c) e
wait_coming_lem (stream_opened st ∷ rest) c e = wait_coming_lem rest (handle (stream_opened st) c) e

wait_arrived_lem :
    (arrived coming : List Event) (c : IrohConnection)
    → c.datagrams ≡ []
    → ((wait_arrived arrived coming c).0 ≡ first (before_end (arrived ++ coming)))
      × (awaited (wait_arrived arrived coming c).1 ≡ others (before_end (arrived ++ coming)))
unfolding wait_arrived handle
wait_arrived_lem [] coming c e = wait_coming_lem coming c e
wait_arrived_lem (datagram bytes ∷ rest) coming c e = ground (arith, e)
wait_arrived_lem (closed reason ∷ rest) coming c e = ground (arith, e)
wait_arrived_lem (opened connection ∷ rest) coming c e =
    wait_arrived_lem rest coming (handle (opened connection) c) e
wait_arrived_lem (stream_opened st ∷ rest) coming c e =
    wait_arrived_lem rest coming (handle (stream_opened st) c) e

-- `get_datagram` gives the first datagram that waits or will arrive before the end, which may be empty
-- itself, and an empty one when there is none; the others stay, in order.
pub get_datagram_lem :
    (c : IrohConnection)
    → ((get_datagram c).0 ≡ first (awaited c)) × (awaited (get_datagram c).1 ≡ others (awaited c))
unfolding get_datagram
get_datagram_lem c = go c.datagrams refl
  where
    go :
        (waiting : List Bytes)
        → c.datagrams ≡ waiting
        → ((get_datagram c).0 ≡ first (awaited c))
          × (awaited (get_datagram c).1 ≡ others (awaited c))
    go (bytes ∷ rest) e = ground (arith, e)
    go [] e = elim (Option-cases c.events) [
      | inl gone ↦ ground (arith, e, gone)
      | inr (events, there) ↦
          ground (arith, e, there, wait_arrived_lem events.arrived events.coming c e)
    ]

handle_all_lem :
    (pending : List Event) (c : IrohConnection)
    → (handle_all pending c).datagrams ≡ c.datagrams ++ received pending
unfolding handle_all handle
handle_all_lem [] c = sym (append-nil c.datagrams)
handle_all_lem (opened connection ∷ rest) c = handle_all_lem rest (handle (opened connection) c)
handle_all_lem (stream_opened st ∷ rest) c = handle_all_lem rest (handle (stream_opened st) c)
handle_all_lem (closed reason ∷ rest) c = handle_all_lem rest (handle (closed reason) c)
handle_all_lem (datagram bytes ∷ rest) c = ground (
  arith,
  handle_all_lem rest (handle (datagram bytes) c),
  append_assoc c.datagrams (bytes ∷ []) (received rest),
)

-- Draining a connection that has not ended puts every datagram that has arrived behind those that
-- wait, in order, also those that follow the end.
pub drain_pending_lem :
    (c : IrohConnection) (events : Events)
    → c.events ≡ some events
    → (drain_pending c).datagrams ≡ c.datagrams ++ received events.arrived
unfolding drain_pending
drain_pending_lem c events there = ground (
  arith,
  there,
  handle_all_lem events.arrived (record c { events = some (record events { arrived = [] }) }),
)
