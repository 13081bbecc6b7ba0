-- ===== src/Peer/Modes.antt =====
-- gdiroh/src/peer.rs: transfer modes between Godot and the session.
use gdiroh.Prelude.{◌≡◌, refl}
use gdiroh.Session.{Mode, reliable, unreliable, unreliable_ordered}
use gdiroh.Peer.{
  TransferMode, transfer_unreliable, transfer_unreliable_ordered, transfer_reliable,
  to_session_mode, from_session_mode,
}

-- The two translations are inverse to each other: a packet arrives under the mode that it was put
-- with.
pub session_modes :
    (mode : TransferMode) (m : Mode)
    → (from_session_mode (to_session_mode mode) ≡ mode)
      × (to_session_mode (from_session_mode m) ≡ m)
unfolding from_session_mode to_session_mode
session_modes mode m = (there mode, back m)
  where
    there : (mode : TransferMode) → from_session_mode (to_session_mode mode) ≡ mode
    there transfer_unreliable = refl
    there transfer_unreliable_ordered = refl
    there transfer_reliable = refl

    back : (mode : Mode) → to_session_mode (from_session_mode mode) ≡ mode
    back unreliable = refl
    back unreliable_ordered = refl
    back reliable = refl
