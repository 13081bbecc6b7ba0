-- ===== src/Raw/Reports.antt =====
-- gdiroh/src/raw.rs: what a raw connection is reported to have done.
use gdiroh.Prelude.{ℕ, suc, ◌≤◌, ◌≡◌, refl, List, [], ◌∷◌, Bool, true, false, if◌then◌else◌, arith}
use gdiroh.Wire.{Bytes}
use gdiroh.Raw.Connection.{
  Event, opened, stream_opened, datagram, closed, Tasks, pumping, Turn, stream_accepted,
  accept_failed, datagram_read, read_failed, connection_closed, turn, pump, Dial, not_started,
  failed, connected, dial, adopt,
}

-- How often a connection was reported open, and closed.
abbrev pub openings : List Event → ℕ
openings [] = 0
openings (opened c ∷ events) = suc (openings events)
openings (stream_opened st ∷ events) = openings events
openings (datagram bytes ∷ events) = openings events
openings (closed reason ∷ events) = openings events

abbrev pub closings : List Event → ℕ
closings [] = 0
closings (closed reason ∷ events) = suc (closings events)
closings (stream_opened st ∷ events) = closings events
closings (datagram bytes ∷ events) = closings events
closings (opened c ∷ events) = closings events

-- The close watcher speaks once.
pump_lem :
    (t : Tasks) (turns : List Turn)
    → (openings (pump t turns) ≡ 0) × (closings (pump t turns) ≤ (if t.watching then 1 else 0))
unfolding pump turn
pump_lem t [] = ground arith
pump_lem t (stream_accepted listened st ∷ turns) =
    ground (arith, pump_lem t turns, pump_lem (record t { accepting = false }) turns)
pump_lem t (accept_failed ∷ turns) = pump_lem (record t { accepting = false }) turns
pump_lem t (datagram_read listened bytes ∷ turns) =
    ground (arith, pump_lem t turns, pump_lem (record t { reading = false }) turns)
pump_lem t (read_failed ∷ turns) = pump_lem (record t { reading = false }) turns
pump_lem t (connection_closed listened reason ∷ turns) =
    ground (arith, pump_lem t turns, pump_lem (record t { watching = false }) turns)

-- Whether a dial came to a connection that somebody waits for.
abbrev pub made : Dial → Bool
made not_started = false
made (failed reason) = false
made (connected listened c) = listened

-- A dial reports its connection open once if it was made and somebody listens, and otherwise never;
-- it reports an end at most once.
pub dial_lem :
    (how : Dial) (turns : List Turn)
    → (openings (dial how turns) ≡ (if made how then 1 else 0)) × (closings (dial how turns) ≤ 1)
unfolding dial
dial_lem not_started turns = (refl, omega arith)
dial_lem (failed reason) turns = (refl, omega arith)
dial_lem (connected listened c) turns = ground (arith, pump_lem pumping turns)

-- The datagrams among what is reported, and those that the reader meets before it stops.
abbrev pub received : List Event → List Bytes
received [] = []
received (datagram bytes ∷ events) = bytes ∷ received events
received (opened c ∷ events) = received events
received (stream_opened st ∷ events) = received events
received (closed reason ∷ events) = received events

abbrev pub met_datagrams : List Turn → List Bytes
met_datagrams [] = []
met_datagrams (datagram_read true bytes ∷ turns) = bytes ∷ met_datagrams turns
met_datagrams (datagram_read false bytes ∷ turns) = []
met_datagrams (read_failed ∷ turns) = []
met_datagrams (stream_accepted listened st ∷ turns) = met_datagrams turns
met_datagrams (accept_failed ∷ turns) = met_datagrams turns
met_datagrams (connection_closed listened reason ∷ turns) = met_datagrams turns

received-pump :
    (t : Tasks) (turns : List Turn)
    → received (pump t turns) ≡ (if t.reading then met_datagrams turns else [])
unfolding pump turn
received-pump t [] = ground arith
received-pump t (stream_accepted listened st ∷ turns) =
    ground (arith, received-pump t turns, received-pump (record t { accepting = false }) turns)
received-pump t (accept_failed ∷ turns) = received-pump (record t { accepting = false }) turns
received-pump t (datagram_read true bytes ∷ turns) = ground (arith, received-pump t turns)
received-pump t (datagram_read false bytes ∷ turns) =
    ground (arith, received-pump t turns, received-pump (record t { reading = false }) turns)
received-pump t (read_failed ∷ turns) =
    ground (arith, received-pump (record t { reading = false }) turns)
received-pump t (connection_closed listened reason ∷ turns) =
    ground (arith, received-pump t turns, received-pump (record t { watching = false }) turns)

-- Whatever the stream acceptor and the close watcher do in between, an adopted connection reports
-- every datagram that its reader meets before it fails or nobody listens, in order, and no other.
pub received-adopt : (turns : List Turn) → received (adopt turns) ≡ met_datagrams turns
unfolding adopt
received-adopt turns = received-pump pumping turns
