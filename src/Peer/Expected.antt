-- ===== src/Peer/Expected.antt =====
-- gdiroh/src/peer.rs with gdiroh/src/session.rs: where a session's inputs leave the game's peer.
use gdiroh.Prelude.{
  ℕ, ◌≡◌, refl, List, [], ◌∷◌, ◌++◌, Bool, true, false, ◌||◌, not, arith, ◌==◌, nat_eq,
  if◌then◌else◌, All, both_branches, String,
}
use gdiroh.Wire.{Buf, Control}
use gdiroh.Session.{Event, ready, closed, send, disconnect, close, control, lost, host_id}
use gdiroh.Session.Run.{
  Loop, Flow, Input, command, message, connection, no_more_commands, no_more_messages,
  no_more_connections, running, finish, step, rounds, rounds_induction, Start, hosting, connected,
  refused, state_of,
}
use gdiroh.Session.Emitting.{
  of_peers, events-drop_link, events-finish, Said-apply, Said-send_to, Said-welcome, Said-lost,
}
use gdiroh.Peer
use gdiroh.Peer.{IrohPeer}
use gdiroh.Peer.Stance.{
  Stance, gone, told, unready, calm, over, told-append, calm-append, over-append,
}

-- What a session's inputs are to make of the standing of its peer: a welcome gives it an id, the end of
-- the session ends it, and so does, for a client, the loss of its host.
abbrev pub expected : Bool → List Input → Stance → Stance
expected is_host [] s = s
expected is_host (command (send target channel mode payload) limits ∷ is) s = expected is_host is s
expected is_host (command (disconnect p) limits ∷ is) s = expected is_host is s
expected is_host (command close limits ∷ is) s = gone
expected is_host (message (control (Control.welcome id peers)) ∷ is) s =
    expected is_host is (record s { unique_id = id; status = Peer.connected })
expected is_host (message (control (Control.peer_joined id)) ∷ is) s = expected is_host is s
expected is_host (message (control (Control.peer_left id)) ∷ is) s = expected is_host is s
expected is_host (message (lost p) ∷ is) s =
    if is_host || not (p == host_id) then expected is_host is s else gone
expected is_host (connection conn ∷ is) s = expected is_host is s
expected is_host (no_more_commands ∷ is) s = gone
expected is_host (no_more_messages ∷ is) s = gone
expected is_host (no_more_connections ∷ is) s = expected is_host is s

-- The same from the session's start.
abbrev pub expected_from : Start → List Input → Stance → Stance
expected_from hosting is s =
    expected true is (record s { unique_id = host_id; status = Peer.connected })
expected_from (connected conn) is s = expected false is s
expected_from (refused reason) is s = gone

abbrev pub Unwelcome : Input → Type 0
Unwelcome (message (control (Control.welcome id peers))) = ⊥
Unwelcome _ = Unit

-- A client that has lost its host is not welcomed any more.
abbrev pub Orderly : Bool → List Input → Type 0
Orderly is_host [] = Unit
Orderly is_host (message (lost p) ∷ is) =
    Orderly is_host is × (is_host ≡ false → p ≡ host_id → All Unwelcome is)
Orderly is_host (command c limits ∷ is) = Orderly is_host is
Orderly is_host (message (control c) ∷ is) = Orderly is_host is
Orderly is_host (connection conn ∷ is) = Orderly is_host is
Orderly is_host (no_more_commands ∷ is) = Orderly is_host is
Orderly is_host (no_more_messages ∷ is) = Orderly is_host is
Orderly is_host (no_more_connections ∷ is) = Orderly is_host is

module _ (st : Stance) where
  -- Events that leave the peer at `x`, with the session not over, and events with it over.
  abbrev pub At : Stance → List Event → Type 0
  At x es = (over es ≡ false) × (calm es ≡ true) × (told es st ≡ x)

  abbrev pub Ended : List Event → Type 0
  Ended es = (over es ≡ true) × (calm es ≡ true)

  pub At-more :
      (x : Stance) (es : List Event) (e : Event) → of_peers e ≡ true → At x es → At x (es ++ e ∷ [])
  unfolding over calm told
  At-more x es (ready id) h a = absurd (ground arith)
  At-more x es (closed reason) h a = absurd (ground arith)
  At-more x es (Event.peer_connected id) h a =
      let f = Event.peer_connected id ∷ [] in
      ground (arith, over-append es f, calm-append es f, told-append es f st)
  At-more x es (Event.peer_disconnected id) h a =
      let f = Event.peer_disconnected id ∷ [] in
      ground (arith, over-append es f, calm-append es f, told-append es f st)
  At-more x es (Event.packet p) h a =
      let f = Event.packet p ∷ [] in
      ground (arith, over-append es f, calm-append es f, told-append es f st)
  At-more x es (Event.warning w) h a =
      let f = Event.warning w ∷ [] in
      ground (arith, over-append es f, calm-append es f, told-append es f st)

  pub At-ready :
      (x : Stance) (id : ℕ) (es : List Event)
      → At x es
      → At (record x { unique_id = id; status = Peer.connected }) (es ++ ready id ∷ [])
  unfolding over calm told
  At-ready x id es a =
      let f = ready id ∷ [] in
      ground (arith, over-append es f, calm-append es f, told-append es f st)

  pub At-closed :
      (x : Stance) (reason : String) (es : List Event) → At x es → Ended (es ++ closed reason ∷ [])
  unfolding over calm unready
  At-closed x reason es a =
      let f = closed reason ∷ [] in ground (arith, over-append es f, calm-append es f)

  -- Once it is over, anything but a welcome leaves it so.
  Ended-more :
      (es : List Event) (e : Event) → unready (e ∷ []) ≡ true → Ended es → Ended (es ++ e ∷ [])
  Ended-more es e h a = ground (arith, over-append es (e ∷ []), calm-append es (e ∷ []))

  Ended-peers : (es : List Event) (e : Event) → of_peers e ≡ true → Ended es → Ended (es ++ e ∷ [])
  unfolding unready
  Ended-peers es (ready id) h a = absurd (ground arith)
  Ended-peers es (closed reason) h a = absurd (ground arith)
  Ended-peers es (Event.peer_connected id) h a = Ended-more es (Event.peer_connected id) refl a
  Ended-peers es (Event.peer_disconnected id) h a =
      Ended-more es (Event.peer_disconnected id) refl a
  Ended-peers es (Event.packet p) h a = Ended-more es (Event.packet p) refl a
  Ended-peers es (Event.warning w) h a = Ended-more es (Event.warning w) refl a

  module _ ⦃b : Buf⦄ where
    abbrev pub Past : Flow → Type 0
    Past flow = Ended (state_of flow).events

    Past-finish : (l : Loop) → Ended l.state.events → Past (finish l)
    Past-finish l h =
        rw (events-finish l)
          (unfold unready in Ended-more l.state.events (closed "session closed") refl h)

    Past-step : (l : Loop) (i : Input) → Unwelcome i → Past (running l) → Past (step l i)
    unfolding step
    Past-step l (command (send target channel mode payload) limits) _ h =
        Said-send_to Ended Ended-peers limits target channel mode payload l.state h
    Past-step l (command (disconnect p) limits) _ h = rw (events-drop_link p l.state) h
    Past-step l (command close limits) _ h = Past-finish l h
    Past-step l (message (control (Control.welcome id peers))) never h = absurd never
    Past-step l (message (control (Control.peer_joined id))) _ h =
        Said-apply Ended Ended-peers (Control.peer_joined id) l.state tt h
    Past-step l (message (control (Control.peer_left id))) _ h =
        Said-apply Ended Ended-peers (Control.peer_left id) l.state tt h
    Past-step l (message (lost p)) _ h =
        Said-lost Ended Ended-peers p l.state
          (λ _ _ es k. unfold unready in Ended-more es (closed "host disconnected") refl k) h
    Past-step l (connection conn) _ h =
        both_branches Past l.inbound _ _ (Said-welcome Ended Ended-peers l.next_id conn l.state h) h
    Past-step l no_more_commands _ h = Past-finish l h
    Past-step l no_more_messages _ h = Past-finish l h
    Past-step l no_more_connections _ h = h

    -- A client that has lost its host, as long as it is not welcomed again.
    pub Past-rounds :
        (flow : Flow) (is : List Input) → All Unwelcome is → Past flow → Past (rounds flow is)
    Past-rounds flow is q h = rounds_induction Past Unwelcome Past-step flow is q h
