-- ===== src/Session/Outgoing.antt =====
-- gdiroh/src/session.rs: what a client has queued for its host, and a host for a client, over the
-- whole life of the link.
use gdiroh.Prelude.{
  ℕ, zero, suc, ◌+◌, ◌<◌, ◌^◌, ◌≡◌, ◌≢◌, refl, ap, subst, ◌∙◌, List, [], ◌∷◌, ◌++◌, append_assoc,
  append-nil, Bool, true, false, arith, ◌==◌, nat_eq, All, length, ◌&&◌, if◌then◌else◌, inl, inr,
  has, lookup, beq_refl, nat_beq_iff, lookup-insert, taken_branch,
}
use gdiroh.Wire.{Bytes, Buf}
use gdiroh.Frames.{control_channel}
use gdiroh.Session.{
  add_link, new_link, send, disconnect, close, reliable, unreliable, unreliable_ordered, host_id,
}
use gdiroh.Session.Run.{
  Loop, Flow, Input, command, message, connection, no_more_commands, no_more_messages,
  no_more_connections, running, finished, step, rounds, start, run, hosting, connected, state_of,
  following_id,
}
use gdiroh.Session.Members.{welcome}
use gdiroh.Session.Role.{run-is_host}
use gdiroh.Session.Undisturbed.{is_host-welcome}
use gdiroh.Session.Distinct.{Distinct, Distinct-welcome, run-Distinct}
use gdiroh.Session.Ids.{
  next_id_fresh, BelowWhile, BelowWhile-rounds, following_id_bounds, has-welcome,
}
use gdiroh.Session.Telling.{queued-welcome}
use gdiroh.Session.Queues.{queued}
use gdiroh.Session.Traffic.{taken, meant, Steady, Carrying}
use gdiroh.Session.Carried.{Carrying-step}

module _ ⦃b : Buf⦄ (q ch : ℕ) (is_host : Bool) (app : ch ≢ control_channel) where
  meant-taken :
      (i : Input) (is : List Input)
      → meant is_host q ch (taken (i ∷ [])) ++ meant is_host q ch (taken is)
        ≡ meant is_host q ch (taken (i ∷ is))
  meant-taken (command (send target channel reliable payload) limits) is = ground arith
  meant-taken (command (send target channel unreliable payload) limits) is = refl
  meant-taken (command (send target channel unreliable_ordered payload) limits) is = refl
  meant-taken (command (disconnect p) limits) is = refl
  meant-taken (command close limits) is = refl
  meant-taken (message m) is = refl
  meant-taken (connection conn) is = refl
  meant-taken no_more_commands is = refl
  meant-taken no_more_messages is = refl
  meant-taken no_more_connections is = refl

  Carrying-rounds :
      (is : List Input) (frames : List Bytes) (flow : Flow)
      → All (Steady q ch) is
      → Carrying q ch is_host (length is) frames flow
      → Carrying q ch is_host 0 (frames ++ meant is_host q ch (taken is)) (rounds flow is)
  unfolding rounds
  Carrying-rounds [] frames flow steady h = rw (append-nil frames) h
  Carrying-rounds (i ∷ is) frames (finished s) steady h = absurd h
  Carrying-rounds (i ∷ is) frames (running l) steady h =
      subst (λ fs. Carrying q ch is_host 0 fs (rounds (step l i) is))
        (append_assoc frames (meant is_host q ch (taken (i ∷ []))) (meant is_host q ch (taken is))
          ∙ ap (λ fs. frames ++ fs) (meant-taken i is))
        (Carrying-rounds is (frames ++ meant is_host q ch (taken (i ∷ []))) (step l i) steady.1
          (Carrying-step q ch is_host app (length is) frames l i steady.0 h))

carried_queue :
    ⦃b : Buf⦄ (q ch : ℕ) (is_host : Bool) (room : ℕ) (frames : List Bytes) (flow : Flow)
    → Carrying q ch is_host room frames flow
    → queued q ch (state_of flow) ≡ frames
carried_queue q ch is_host room frames (running l) h = h.1
carried_queue q ch is_host room frames (finished s) h = absurd h

-- A client whose dial worked has queued for its host on a channel of the game, as long as it runs and
-- the connection lasts, exactly the payloads of the reliable packets on that channel that it was told
-- to send to its host, in order, whatever else it met between them.
pub queued-joined :
    ⦃b : Buf⦄ (ch conn : ℕ) (is : List Input)
    → ch ≢ control_channel
    → All (Steady host_id ch) is
    → queued host_id ch (state_of (run (connected conn) is)) ≡ meant false host_id ch (taken is)
unfolding run start rounds lookup add_link gdiroh.Prelude.insert
queued-joined ch conn is app steady = carried_queue host_id ch false 0 _ _ (
    Carrying-rounds host_id ch false app is [] (start (connected conn)) steady (
      record {
        role = refl;
        distinct = run-Distinct (connected conn) [];
        linked = refl;
        place =
            inr (refl, refl, refl, λ r. ground (arith, lookup-insert host_id r (new_link conn) []));
      },
      refl,
    ))

-- A host has queued for a client on a channel of the game, from the client's arrival and as long as it
-- runs and the connection lasts, exactly the payloads of the reliable packets on that channel that it
-- was told to send with a target that includes the client, in order, whatever else it met between them,
-- fewer than 2 ^ 31 - 3 inputs in all.
pub queued-hosted :
    ⦃b : Buf⦄ (ch conn : ℕ) (before is : List Input) (l : Loop)
    → ch ≢ control_channel
    → length before + length is + 3 < 2 ^ 31
    → run hosting before ≡ running l
    → l.inbound ≡ true
    → All (Steady l.next_id ch) is
    → queued l.next_id ch (state_of (rounds (step l (connection conn)) is))
      ≡ meant true l.next_id ch (taken is)
unfolding step run rounds
queued-hosted ch conn before is l app room e held steady =
    let m : Loop = record {
      state = welcome l.next_id conn l.state;
      next_id = following_id l.next_id;
      inbound = l.inbound;
    } in
    let role =
      is_host-welcome l.next_id conn l.state
      ∙ subst (λ flow. (state_of flow).is_host ≡ true) e (run-is_host hosting before) in
    let below = subst (BelowWhile l.next_id (suc (length is))) e (
      BelowWhile-rounds l.next_id (suc (length is)) (start hosting) before
        (unfold start lookup in (refl, omega arith, omega arith))) in
    let free = next_id_fresh before l (omega arith) e in
    let n = subst (λ flow. Distinct (state_of flow)) e (run-Distinct hosting before) in
    carried_queue l.next_id ch true 0 _ _ (
      Carrying-rounds l.next_id ch true app is [] (step l (connection conn)) steady (
        taken_branch (Carrying l.next_id ch true (length is) []) l.inbound (running m) (running l)
          (λ _. (
            record {
              role = role;
              distinct = Distinct-welcome l.next_id conn l.state n;
              linked =
                  ground (arith, has-welcome l.next_id l.next_id conn l.state, beq_refl l.next_id);
              place = inl (
                role,
                ground (
                  arith,
                  has-welcome l.next_id l.next_id conn l.state,
                  beq_refl l.next_id,
                  following_id_bounds l.next_id,
                ),
              );
            },
            ground (
              arith,
              queued-welcome l.next_id ch l.next_id conn l.state n free,
              beq_refl l.next_id,
              nat_beq_iff control_channel ch,
            ),
          ))
          (λ shut. absurd (ground arith))))
