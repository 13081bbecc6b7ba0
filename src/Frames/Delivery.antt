-- ===== src/Frames/Delivery.antt =====
-- gdiroh/src/session.rs: what a channel's reader delivers, from what its writer was given.
use gdiroh.Prelude.{
  ℕ, ◌<◌, ◌≡◌, ◌≢◌, refl, ap, ◌∙◌, List, [], ◌∷◌, ◌++◌, map, Bool, true, false, length, take,
  length-take, append-nil, All, word_size, arith, dec_lt, nat_beq_iff,
}
use gdiroh.Wire.{Bytes, Buf, Control, encode}
use gdiroh.Wire.RoundTrip.{InRange, decode-encode}
use gdiroh.Wire.BigEndian.{to_be_bytes, read_word_short, read_word-to_be_bytes}
use gdiroh.Frames.{
  Write, written, failed, write_frames, stream_writer, cut_frames, control_channel, control,
  controls, packets, route, read_stream,
}
use gdiroh.Frames.Parse.{
  StartOf, IsShort, take_all, cut_frames_nil, cut_frames-write_frames, all_written,
  cut_frames-all_written, length-write_frames,
}

module _ ⦃b : Buf⦄ where
  read_stream_short : (w : ℕ) (bytes : Bytes) → length bytes < 4 → read_stream w bytes ≡ []
  unfolding read_stream
  read_stream_short w bytes h = rw (read_word_short bytes h, read_stream)

  -- After the header the frames are cut and routed.
  pub read_stream_open :
      (w channel : ℕ) (rest : Bytes)
      → channel < word_size
      → read_stream w (to_be_bytes channel ++ rest)
        ≡ route w channel (cut_frames (length rest) rest)
  unfolding read_stream
  read_stream_open w channel rest h = rw (read_word-to_be_bytes channel rest h, read_stream)

  route-packets :
      (w channel : ℕ) (frames : List Bytes)
      → channel ≢ control_channel
      → route w channel frames ≡ packets channel frames
  unfolding route
  route-packets w channel frames h = ground (arith, nat_beq_iff channel control_channel)

  -- The stream of an application channel.
  module _ (w channel : ℕ) (fits : channel < word_size) (app : channel ≢ control_channel) where
    deliver_some :
        (bytes : Bytes) (frames : List Bytes)
        → StartOf (cut_frames (length bytes) bytes) frames
        → (ds : List Bytes) × StartOf ds frames
          × (read_stream w (to_be_bytes channel ++ bytes) ≡ packets channel ds)
    deliver_some bytes frames s = (
      cut_frames (length bytes) bytes,
      s,
      read_stream_open w channel bytes fits ∙ route-packets w channel _ app,
    )

    deliver_none :
        (bytes : Bytes) (frames : List Bytes)
        → read_stream w bytes ≡ []
        → (ds : List Bytes) × StartOf ds frames × (read_stream w bytes ≡ packets channel ds)
    unfolding packets
    deliver_none bytes frames e = ([], (frames, refl), e)

    deliver_header :
        (n : ℕ) (frames : List Bytes)
        → (ds : List Bytes) × StartOf ds frames
          × (read_stream w (take n (to_be_bytes channel)) ≡ packets channel ds)
    deliver_header n frames = elim (dec_lt n 4) [
      | yes cut ↦ deliver_none (take n (to_be_bytes channel)) frames (
          read_stream_short w (take n (to_be_bytes channel))
            (omega (arith, length-take n (to_be_bytes channel))))
      | no whole ↦ rw (take_all n (to_be_bytes channel) (unfold to_be_bytes in omega arith)) (
          rw (← append-nil (to_be_bytes channel))
            (deliver_some [] frames (frames, rw (cut_frames_nil 0))))
    ]

    -- Whatever the transport does to the writes of an application channel, its reader delivers the
    -- first of the queued packets, whole and in order, and nothing else.
    pub deliver_prefix :
        (opened : Bool) (ws : List Write) (frames : List Bytes)
        → All IsShort frames
        → (ds : List Bytes) × StartOf ds frames
          × (read_stream w (stream_writer opened ws channel frames) ≡ packets channel ds)
    unfolding stream_writer
    deliver_prefix false [] frames h = deliver_none [] frames (read_stream_short w [] (omega arith))
    deliver_prefix true [] frames h = deliver_none [] frames (read_stream_short w [] (omega arith))
    deliver_prefix false (failed n ∷ ws) frames h =
        deliver_none [] frames (read_stream_short w [] (omega arith))
    deliver_prefix false (written ∷ ws) frames h =
        deliver_none [] frames (read_stream_short w [] (omega arith))
    deliver_prefix true (failed n ∷ ws) frames h = deliver_header n frames
    deliver_prefix true (written ∷ ws) frames h =
        deliver_some (write_frames ws frames) frames (cut_frames-write_frames _ ws frames h)

    -- With no failed write the reader delivers every queued packet, in order.
    pub deliver_whole :
        (frames : List Bytes)
        → All IsShort frames
        → read_stream w (stream_writer true (written ∷ all_written frames) channel frames)
          ≡ packets channel frames
    unfolding stream_writer
    deliver_whole frames h =
        read_stream_open w channel (write_frames (all_written frames) frames) fits
        ∙ route-packets w channel _ app
        ∙ ap (packets channel) (cut_frames-all_written _ frames h (length-write_frames frames))

  controls-encode :
      (w : ℕ) (cs : List Control) → All (InRange w) cs → controls w (map encode cs) ≡ map control cs
  unfolding controls
  controls-encode w [] h = refl
  controls-encode w (c ∷ cs) h =
      rw (← append-nil (encode c))
        (rw (decode-encode w c [] h.0, controls) (rw (controls-encode w cs h.1)))

  -- With no failed write the control channel delivers every membership message, in order.
  pub deliver_controls :
      (w : ℕ) (cs : List Control)
      → All (InRange w) cs
      → All IsShort (map encode cs)
      → read_stream w (
          stream_writer true
            (written ∷ all_written (map encode cs))
            control_channel
            (map encode cs))
        ≡ map control cs
  unfolding stream_writer
  deliver_controls w cs h short =
      read_stream_open w control_channel _ (omega arith)
      ∙ ap (route w control_channel)
          (cut_frames-all_written _ (map encode cs) short (length-write_frames (map encode cs)))
      ∙ (unfold route in controls-encode w cs h)
