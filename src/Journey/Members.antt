-- ===== src/Journey/Members.antt =====
-- gdiroh/src/session.rs: membership, from the host's links to what the game of a client is told.
use gdiroh.Prelude.{
  ℕ, ◌+◌, ◌%◌, ◌<◌, ◌≤◌, ◌^◌, ◌≡◌, ◌≢◌, refl, sym, ap, ◌∙◌, some, List, [], ◌∷◌, ◌++◌, map, true,
  false, not, ◌&&◌, arith, ◌==◌, nat_eq, All, has, contains, length, length-append, word_size,
}
use gdiroh.Wire.{Buf, Control, welcome, peer_joined, peer_left, put_words, encode}
use gdiroh.Wire.RoundTrip.{InRange, length-put_words}
use gdiroh.Frames
use gdiroh.Frames.{control_channel, read_stream}
use gdiroh.Frames.Parse.{IsShort}
use gdiroh.Frames.Delivery.{deliver_controls}
use gdiroh.Session.{
  send, disconnect, close, Internal, control, lost, host_id, drop_link, add_link, first_client_id,
}
use gdiroh.Session.Reader.{to_task}
use gdiroh.Session.Send.{send_to}
use gdiroh.Session.Members.{apply}
use gdiroh.Session.Run.{
  Loop, Input, command, message, connection, no_more_commands, no_more_messages,
  no_more_connections, running, step, rounds, start, run, hosting, connected, state_of, fresh,
}
use gdiroh.Session.Quiet.{Quiet-send_to, Quiet-drop_link}
use gdiroh.Session.Queues.{queued}
use gdiroh.Session.Agreement.{heard, announced-apply, announced-apply_all}
use gdiroh.Session.Kept.{OnGameChannel, Modest}
use gdiroh.Session.Synced.{told_agrees}
use gdiroh.Session.Membership.{replay, run-Told}
use gdiroh.Journey.{whole_stream}

-- What a client meets while it runs and its connection lasts.
abbrev pub Attends : Input → Type 0
Attends (command (send target channel mode payload) limits) = Unit
Attends (command (disconnect p) limits) = Unit
Attends (command close limits) = ⊥
Attends (message (control c)) = Unit
Attends (message (lost p)) = ⊥
Attends (connection conn) = ⊥
Attends no_more_commands = ⊥
Attends no_more_messages = ⊥
Attends no_more_connections = Unit

-- The reports of the connection's readers that the task takes, in order.
abbrev pub messages_of : List Input → List Internal
messages_of [] = []
messages_of (message m ∷ is) = m ∷ messages_of is
messages_of (command c limits ∷ is) = messages_of is
messages_of (connection conn ∷ is) = messages_of is
messages_of (no_more_commands ∷ is) = messages_of is
messages_of (no_more_messages ∷ is) = messages_of is
messages_of (no_more_connections ∷ is) = messages_of is

-- The membership messages among them.
abbrev controls_in : List Internal → List Control
controls_in [] = []
controls_in (control c ∷ ms) = c ∷ controls_in ms
controls_in (lost p ∷ ms) = controls_in ms

controls_in-to_task : (cs : List Control) → controls_in (to_task (map Frames.control cs)) ≡ cs
unfolding to_task
controls_in-to_task [] = refl
controls_in-to_task (c ∷ cs) = ap (λ ds. c ∷ ds) (controls_in-to_task cs)

module _ ⦃b : Buf⦄ (p : ℕ) where
  -- A client announces whom the messages tell it to, whatever it meets between them.
  announced-rounds :
      (js : List Input) (l : Loop)
      → All Attends js
      → contains p (state_of (rounds (running l) js)).announced
        ≡ heard p (contains p l.state.announced) (controls_in (messages_of js))
  unfolding rounds step
  announced-rounds [] l a = refl
  announced-rounds (command (send target channel mode payload) limits ∷ js) l a =
      let t = send_to limits target channel mode payload l.state in
      announced-rounds js (record l { state = t }) a.1
      ∙ ap (λ ps. heard p (contains p ps) (controls_in (messages_of js)))
          (Quiet-send_to p limits target channel mode payload l.state).announced
  announced-rounds (command (disconnect q) limits ∷ js) l a =
      announced-rounds js (record l { state = drop_link q l.state }) a.1
      ∙ ap (λ ps. heard p (contains p ps) (controls_in (messages_of js)))
          (Quiet-drop_link p q l.state).announced
  announced-rounds (command close limits ∷ js) l a = absurd a.0
  announced-rounds (message (control c) ∷ js) l a =
      announced-rounds js (record l { state = apply c l.state }) a.1
      ∙ ap (λ here. heard p here (controls_in (messages_of js))) (announced-apply p c l.state)
  announced-rounds (message (lost q) ∷ js) l a = absurd a.0
  announced-rounds (connection conn ∷ js) l a = absurd a.0
  announced-rounds (no_more_commands ∷ js) l a = absurd a.0
  announced-rounds (no_more_messages ∷ js) l a = absurd a.0
  announced-rounds (no_more_connections ∷ js) l a =
      announced-rounds js (record l { inbound = false }) a.1

module _ ⦃b : Buf⦄ (w n : ℕ) (wide : word_size ≤ 2 ^ w) (few : n < 2 ^ 29) where
  All-fits : (ps : List ℕ) → All (λ q. q < n) ps → All (λ q. q < word_size) ps
  All-fits [] a = tt
  All-fits (q ∷ ps) a = (omega (arith, a.0), All-fits ps a.1)

  -- Such messages can be encoded, and framed.
  InRange-Modest : (cs : List Control) → All (Modest n) cs → All (InRange w) cs
  InRange-Modest [] m = tt
  InRange-Modest (welcome id ps ∷ cs) ((small, short, all), m) =
      ((omega arith, omega arith, omega arith, All-fits ps all), InRange-Modest cs m)
  InRange-Modest (peer_joined id ∷ cs) m = (omega (arith, m.0), InRange-Modest cs m.1)
  InRange-Modest (peer_left id ∷ cs) m = (omega (arith, m.0), InRange-Modest cs m.1)

  IsShort-encode : (c : Control) → Modest n c → IsShort (encode c)
  unfolding encode
  IsShort-encode (welcome id ps) (small, short, all) = omega (
    arith,
    length-append (b.put_word id) (b.put_word (length ps % word_size) ++ put_words ps),
    length-append (b.put_word (length ps % word_size)) (put_words ps),
    b.length-put_word id,
    b.length-put_word (length ps % word_size),
    length-put_words ps,
  )
  IsShort-encode (peer_joined id) m = omega (arith, b.length-put_word id)
  IsShort-encode (peer_left id) m = omega (arith, b.length-put_word id)

  IsShort-Modest : (cs : List Control) → All (Modest n) cs → All IsShort (map encode cs)
  IsShort-Modest [] m = tt
  IsShort-Modest (c ∷ cs) m = (IsShort-encode c m.0, IsShort-Modest cs m.1)

module _ ⦃b : Buf⦄ (w q p : ℕ) (wide : word_size ≤ 2 ^ w) (no_host : p ≢ host_id) where
  -- Where a running host has met fewer than 2 ^ 29 - 3 inputs, with no packet of the game sent on
  -- the control channel, and is linked to a client, and the client at the other end, with a usize of
  -- 32 bits or more, has met just the messages that its reader made of the control channel's whole
  -- stream, between whatever else but an end of its session or its connection, the client's game was
  -- told of arrivals and departures of any other peer than the host in turn, the last of them an
  -- arrival exactly if the host is linked to that peer now and it is not the client itself.
  pub members_agree :
      (is js : List Input) (l : Loop) (conn : ℕ)
      → All OnGameChannel is
      → length is + 3 < 2 ^ 29
      → run hosting is ≡ running l
      → has q l.state.links ≡ true
      → All Attends js
      → messages_of js
        ≡ to_task (read_stream w (whole_stream control_channel (queued q control_channel l.state)))
      → replay p false (state_of (run (connected conn) js)).events
        ≡ some (has p l.state.links && not (p == q))
  unfolding run start
  members_agree is js l conn game few e there attends read =
      let (cs, all, agree, modest) = told_agrees q p no_host is l conn game (omega arith) e there in
      let arrived : read_stream w (whole_stream control_channel (queued q control_channel l.state))
          ≡ map Frames.control cs =
        rw all (
          deliver_controls w cs (InRange-Modest w (length is + 3) wide few cs modest)
            (IsShort-Modest w (length is + 3) wide few cs modest)) in
      let heard_all : controls_in (messages_of js) ≡ cs =
        ap controls_in read
        ∙ ap (λ seen. controls_in (to_task seen)) arrived
        ∙ controls_in-to_task cs in
      let joined = add_link host_id conn (fresh false) in
      let first : Loop = record { state = joined; next_id = first_client_id; inbound = false } in
      run-Told p (connected conn) js
      ∙ ap (λ here. some here)
          (announced-rounds p js first attends
            ∙ ap (heard p (contains p joined.announced)) heard_all
            ∙ sym (announced-apply_all p cs joined)
            ∙ agree)
