-- ===== src/Session/Members.antt =====
-- gdiroh/src/session.rs: membership, `State::welcome`, `apply` and `lost`.
use gdiroh.Prelude.{ℕ, List, [], ◌∷◌, ◌==◌, nat_eq, if◌then◌else◌, remove, has, keys}
use gdiroh.Wire.{Buf, Control, peer_joined, peer_left, encode}
use gdiroh.Frames.{control_channel}
use gdiroh.Session.{ready, closed, State, emit, host_id, add_link, announce, forget, write_reliable}

module _ ⦃b : Buf⦄ where
  unfoldable pub control_to : ℕ → Control → State → State
  control_to peer c s = write_reliable peer control_channel (encode c) s

  unfoldable pub tell_all : List ℕ → Control → State → State
  tell_all [] c s = s
  tell_all (other ∷ others) c s = tell_all others c (control_to other c s)

  -- Host side: welcome a freshly accepted peer and tell everyone else.
  unfoldable pub welcome : ℕ → ℕ → State → State
  welcome peer connection s =
      let existing = keys s.links in
      announce peer (
        tell_all existing (peer_joined peer)
          (control_to peer (Control.welcome peer existing) (add_link peer connection s)))

  -- The end of `lost`, on the state without the link.
  unfoldable pub report_lost : ℕ → State → State
  unfolding emit
  report_lost peer s =
      if s.is_host
      then tell_all (keys s.links) (peer_left peer) s
      else if peer == host_id
      then emit (closed "host disconnected") s
      else s

  unfoldable pub lost : ℕ → State → State
  lost peer s =
      if has peer s.links
      then report_lost peer (
          forget peer
            (record s { links = remove peer s.links; connections = remove peer s.connections }))
      else s

unfoldable pub announce_all : List ℕ → State → State
announce_all [] s = s
announce_all (peer ∷ peers) s = announce_all peers (announce peer s)

-- Client side: act on a membership message from the host.
unfoldable pub apply : Control → State → State
unfolding emit announce_all
apply (Control.welcome your_id peers) s =
    announce_all peers (announce host_id (emit (ready your_id) s))
apply (peer_joined id) s = announce id s
apply (peer_left id) s = forget id s
