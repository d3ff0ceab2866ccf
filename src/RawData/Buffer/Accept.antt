-- ===== src/RawData/Buffer/Accept.antt =====
-- When `Buffer::addData` of src/RawDataManager.cpp accepts a sample, and what it leaves.
use aws_iot_fleetwise_edge.Prelude.{
  ℕ, ◌+◌, ◌^◌, ◌≤◌, ◌<◌, ◌≡◌, refl, sym, ◌∙◌, Bool, true, false, List, arith, length, ap,
}
use aws_iot_fleetwise_edge.RawData.Types.{Buffer}
use aws_iot_fleetwise_edge.RawData.Buffer.{add_data, bytes_available_to_use}
use aws_iot_fleetwise_edge.RawData.Buffer.Bounds.{IsValid, pinned, bytes_held}
use aws_iot_fleetwise_edge.RawData.Buffer.Room.{IsFull, pinned-of_stuck}
use aws_iot_fleetwise_edge.RawData.Buffer.AddData.{IsAdmissible, Adds, footprint, add_data-Adds}

module _ (b : Buffer) (bytes : List ℕ) (timestamp handle available : ℕ) (v : IsValid b)
    (u : available + footprint b < 2 ^ 63) where
  -- From a valid buffer with less than 2 ^ 63 bytes of free memory and footprint together,
  -- `addData` leaves a buffer that is valid again, and whose footprint grows by no more than the
  -- free memory, whether it accepts the sample or not.
  pub add_data_bounded :
      let b' = (add_data b bytes timestamp handle available).1 in
      IsValid b' × (footprint b' ≤ available + footprint b)
  add_data_bounded =
      let a = add_data-Adds b bytes timestamp handle available v u in (a.valid, a.footprint_bounded)

  -- From a valid buffer with less than 2 ^ 63 bytes of free memory and footprint together,
  -- `addData` gives up no frame whose data is borrowed or whose handle is in upload, and keeps
  -- these frames in their order, whether it accepts the sample or not.
  pub add_data-pinned :
      pinned (add_data b bytes timestamp handle available).1.frames ≡ pinned b.frames
  add_data-pinned = (add_data-Adds b bytes timestamp handle available v u).pinned_kept

  IsFull-pinned :
      (b' : Buffer)
      → Adds b bytes available (false, b')
      → IsAdmissible b (length bytes)
      → IsFull (length bytes) (bytes_available_to_use b available) b'
        × (b'.frames ≡ pinned b.frames)
  IsFull-pinned b' a h =
      ((a.refused refl h).1, sym (pinned-of_stuck b'.frames (a.refused refl h).0) ∙ a.pinned_kept)

  no_refusal :
      (r : Bool × Buffer)
      → Adds b bytes available r
      → IsAdmissible b (length bytes)
      → length (pinned b.frames) < b.max_num_of_samples
      → bytes_held (pinned b.frames) + length bytes ≤ b.max_overall_bytes
      → length bytes ≤ bytes_available_to_use b available
      → r.0 ≡ true
  no_refusal (true, b') a h s m l = refl
  no_refusal (false, b') a h s m l =
      let f = IsFull-pinned b' a h in
      absurd (
        omega (
          arith,
          f.0,
          a.valid,
          a.max_bytes_kept,
          a.max_samples_kept,
          ap (λ fs. length fs) f.1,
          ap bytes_held f.1,
        ))

  -- To a valid buffer with less than 2 ^ 63 bytes of free memory and footprint together, `addData`
  -- accepts a sample that is within the limits per sample and per buffer, wherever it fits beside
  -- the frames that are in use (in number and in bytes) and is no larger than the memory that is
  -- available to the buffer.
  pub add_data_accepts :
      IsAdmissible b (length bytes)
      → length (pinned b.frames) < b.max_num_of_samples
      → bytes_held (pinned b.frames) + length bytes ≤ b.max_overall_bytes
      → length bytes ≤ bytes_available_to_use b available
      → (add_data b bytes timestamp handle available).0 ≡ true
  add_data_accepts =
      no_refusal (add_data b bytes timestamp handle available)
        (add_data-Adds b bytes timestamp handle available v u)
