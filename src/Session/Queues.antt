-- ===== src/Session/Queues.antt =====
-- gdiroh/src/session.rs: what is queued on the reliable channels of a session's links.
use gdiroh.Prelude.{
  ℕ, ◌≡◌, refl, inl, inr, List, [], ◌∷◌, ◌++◌, none, some, ◌&&◌, arith, ◌==◌, nat_eq, nat_beq_iff,
  if◌then◌else◌, contains, lookup, lookup-insert, has, Option, Option-cases, insert, NoDup,
}
use gdiroh.Wire.{Bytes, Buf, Control, encode}
use gdiroh.Frames.{control_channel}
use gdiroh.Session.{Link, State, put_link, act, append_frame, write_reliable}
use gdiroh.Session.Members.{control_to, tell_all}
use gdiroh.Session.Quiet.{Quiet-write_reliable, has-Quiet}

abbrev pub frames_of : Option (List Bytes) → List Bytes
frames_of none = []
frames_of (some queue) = queue

abbrev pub link_frames : ℕ → Option Link → List Bytes
link_frames channel none = []
link_frames channel (some link) = frames_of (lookup channel link.reliable_queues)

-- Every frame handed to the writer of `q`'s channel, oldest first.
abbrev pub queued : ℕ → ℕ → State → List Bytes
queued q channel s = link_frames channel (lookup q s.links)

module _ (q ch : ℕ) where
  queued-append_frame :
      (p : ℕ) (link : Link) (channel : ℕ) (payload : Bytes) (s : State)
      → lookup p s.links ≡ some link
      → queued q ch (append_frame p link channel payload s)
        ≡ (if p == q && channel == ch then queued q ch s ++ payload ∷ [] else queued q ch s)
  queued-append_frame p link channel payload s e =
      elim (Option-cases (lookup channel link.reliable_queues)) [
        | inl new ↦
            unfold append_frame put_link act in
            rw (new, append_frame)
              (ground (
                arith,
                lookup-insert p q
                    (record link {
                      reliable_queues = insert channel (payload ∷ []) link.reliable_queues;
                    })
                    s.links,
                lookup-insert channel ch (payload ∷ []) link.reliable_queues,
                nat_beq_iff p q,
                nat_beq_iff channel ch,
              ))
        | inr (queue, old) ↦
            unfold append_frame put_link act in
            rw (old, append_frame)
              (ground (
                arith,
                lookup-insert p q
                    (record link {
                      reliable_queues = insert channel (queue ++ payload ∷ []) link.reliable_queues;
                    })
                    s.links,
                lookup-insert channel ch (queue ++ payload ∷ []) link.reliable_queues,
                nat_beq_iff p q,
                nat_beq_iff channel ch,
              ))
      ]

  -- A write reaches the end of its own channel to its own peer, if that is linked, and no other.
  pub queued-write_reliable :
      (p channel : ℕ) (payload : Bytes) (s : State)
      → queued q ch (write_reliable p channel payload s) ≡ (
          if has p s.links && (p == q && channel == ch)
          then queued q ch s ++ payload ∷ []
          else queued q ch s)
  queued-write_reliable p channel payload s = elim (Option-cases (lookup p s.links)) [
    | inl gone ↦ unfold write_reliable in rw (gone, write_reliable) (ground arith)
    | inr (link, e) ↦
        unfold write_reliable in
        rw (e, write_reliable) (ground (arith, queued-append_frame p link channel payload s e))
  ]

module _ ⦃b : Buf⦄ (q ch : ℕ) where
  -- Telling a list of peers, none twice, queues the message once on the control channel of each
  -- that is linked.
  pub queued-tell_all :
      (ps : List ℕ) (c : Control) (s : State)
      → NoDup ps
      → queued q ch (tell_all ps c s) ≡ (
          if contains q ps && (has q s.links && control_channel == ch)
          then queued q ch s ++ encode c ∷ []
          else queued q ch s)
  unfolding tell_all control_to contains
  queued-tell_all [] c s n = refl
  queued-tell_all (p ∷ ps) c s n =
      let t = write_reliable p control_channel (encode c) s in
      ground (
        arith,
        queued-tell_all ps c t n.1,
        queued-write_reliable q ch p control_channel (encode c) s,
        has-Quiet q s t (Quiet-write_reliable q p control_channel (encode c) s),
        nat_beq_iff p q,
      )
