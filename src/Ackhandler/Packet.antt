-- ===== src/Ackhandler/Packet.antt =====
-- ackhandler/packet.go and retransmittable.go: a sent packet, and which of its frames matter when it
-- is lost or duplicated.
use mpquic_latency.Base
use mpquic_latency.Base.{
  ℕ, ◌+◌, ◌≤◌, ◌==◌, ◌≡◌, refl, Bool, true, false, not, ◌||◌, List, [], ◌∷◌, any, if◌then◌else◌,
  u64, arith,
}
use mpquic_latency.Wire.Frame.{
  Frame, stream, rst_stream, window_update, blocked, ping, goaway, stop_waiting, ack, add_address,
  paths, connection_close, close_path,
}

pub record Packet : Type 0 where
  pub packet_number : ℕ
  pub frames : List Frame
  pub length : ℕ
  pub encryption_level : ℕ
  pub send_time : ℕ

-- retransmittable.go
unfoldable pub is_frame_retransmittable : Frame → Bool
is_frame_retransmittable (stop_waiting f) = false
is_frame_retransmittable (ack f) = false
is_frame_retransmittable f = true

unfoldable pub has_retransmittable_frames : List Frame → Bool
unfolding is_frame_retransmittable
has_retransmittable_frames fs = any is_frame_retransmittable fs

unfoldable pub strip_non_retransmittable_frames : List Frame → List Frame
unfolding is_frame_retransmittable
strip_non_retransmittable_frames [] = []
strip_non_retransmittable_frames (f ∷ fs) =
    let rest = strip_non_retransmittable_frames fs in
    if is_frame_retransmittable f then f ∷ rest else rest

-- packet.go. GetFramesForRetransmission skips the same two types.
unfoldable pub resent : Frame → Bool
resent (ack f) = false
resent (stop_waiting f) = false
resent f = true

unfoldable pub get_frames_for_retransmission : List Frame → List Frame
unfolding resent
get_frames_for_retransmission [] = []
get_frames_for_retransmission (f ∷ fs) =
    let rest = get_frames_for_retransmission fs in if resent f then f ∷ rest else rest

-- The switch of IsRetransmittable.
unfoldable pub keeps_alarm : Frame → Bool
keeps_alarm (stream f) = true
keeps_alarm (rst_stream f) = true
keeps_alarm (window_update f) = true
keeps_alarm (blocked f) = true
keeps_alarm ping = true
keeps_alarm (goaway f) = true
keeps_alarm (add_address f) = true
keeps_alarm (paths f) = true
keeps_alarm f = false

unfoldable pub is_retransmittable : Packet → Bool
unfolding keeps_alarm
is_retransmittable p = any keeps_alarm p.frames

unfoldable pub get_stream_frame_length : List Frame → ℕ
get_stream_frame_length fs = total fs 0
  where
    total : List Frame → ℕ → ℕ
    total [] n = n
    total (stream f ∷ fs) n = total fs (u64 (n + Base.length f.payload))
    total (_ ∷ fs) n = total fs n

-- The switch of GetCopyFrames.
unfoldable pub is_copied : Frame → Bool
is_copied (stream f) = true
is_copied (rst_stream f) = true
is_copied (window_update f) = true
is_copied (blocked f) = true
is_copied ping = true
is_copied (goaway f) = true
is_copied (add_address f) = true
is_copied (paths f) = true
is_copied f = false

-- `nil` for no frame is the empty list.
unfoldable pub get_copy_frames : List Frame → List Frame
unfolding is_copied
get_copy_frames [] = []
get_copy_frames (f ∷ fs) = let rest = get_copy_frames fs in if is_copied f then f ∷ rest else rest

-- The switch of IsDupDropable.
unfoldable pub is_dropped : Frame → Bool
is_dropped (stream f) = true
is_dropped (rst_stream f) = true
is_dropped (window_update f) = true
is_dropped (blocked f) = true
is_dropped ping = true
is_dropped (goaway f) = true
is_dropped (add_address f) = true
is_dropped (paths f) = true
is_dropped f = false

unfoldable pub is_dup_dropable : List Frame → Bool
unfolding is_dropped
is_dup_dropable [] = true
is_dup_dropable (f ∷ fs) = let rest = is_dup_dropable fs in if is_dropped f then rest else false

-- The three switches list the same types.
same_types : (f : Frame) → (is_copied f ≡ keeps_alarm f) × (is_dropped f ≡ keeps_alarm f)
unfolding keeps_alarm is_copied is_dropped
same_types (stream f) = (refl, refl)
same_types (rst_stream f) = (refl, refl)
same_types (window_update f) = (refl, refl)
same_types (blocked f) = (refl, refl)
same_types ping = (refl, refl)
same_types (goaway f) = (refl, refl)
same_types (connection_close f) = (refl, refl)
same_types (stop_waiting f) = (refl, refl)
same_types (ack f) = (refl, refl)
same_types (close_path f) = (refl, refl)
same_types (add_address f) = (refl, refl)
same_types (paths f) = (refl, refl)

get_copy_frames_le : (fs : List Frame) → Base.length (get_copy_frames fs) ≤ Base.length fs
unfolding get_copy_frames
get_copy_frames_le [] = omega arith
get_copy_frames_le (f ∷ fs) = ground (arith, get_copy_frames_le fs)

copies_all :
    (fs : List Frame) → is_dup_dropable fs ≡ (Base.length (get_copy_frames fs) == Base.length fs)
unfolding is_dup_dropable get_copy_frames
copies_all [] = refl
copies_all (f ∷ fs) = ground (arith, copies_all fs, same_types f, get_copy_frames_le fs)

copies_some : (fs : List Frame) → any keeps_alarm fs ≡ not (Base.length (get_copy_frames fs) == 0)
unfolding get_copy_frames
copies_some [] = refl
copies_some (f ∷ fs) = ground (arith, copies_some fs, same_types f)

-- IsDupDropable holds exactly for the packets of which GetCopyFrames copies every frame, and
-- IsRetransmittable exactly for those of which it copies a frame at all.
pub get_copy_frames_agrees :
    (p : Packet)
    → (is_dup_dropable p.frames ≡ (Base.length (get_copy_frames p.frames) == Base.length p.frames))
      × (is_retransmittable p ≡ not (Base.length (get_copy_frames p.frames) == 0))
unfolding is_retransmittable
get_copy_frames_agrees p = (copies_all p.frames, copies_some p.frames)
