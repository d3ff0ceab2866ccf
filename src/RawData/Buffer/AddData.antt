-- ===== src/RawData/Buffer/AddData.antt =====
-- `Buffer::addData` of src/RawDataManager.cpp: the buffer that it leaves.
use aws_iot_fleetwise_edge.Prelude.{
  ℕ, suc, ◌+◌, ◌^◌, ◌≤◌, ◌<◌, ◌≡◌, refl, ◌∙◌, Bool, true, false, ◌||◌, List, [], ◌∷◌, arith, ltb,
  length, All-append, inl, inr, max, Bool-cases, length-append, sum_by-append, filter_by-append,
  append-nil,
}
use aws_iot_fleetwise_edge.RawData.Types.{Buffer, new_frame, get_size}
use aws_iot_fleetwise_edge.RawData.Buffer.{and_then, append_frame, bytes_available_to_use, add_data}
use aws_iot_fleetwise_edge.RawData.Buffer.Bounds.{IsValid, pinned, is_pinned, FitsIn}
use aws_iot_fleetwise_edge.RawData.Buffer.Room.{IsStuck, Frees, HasRoom, IsFull, make_room-Frees}

-- A sample within the limits of the buffer that concern a single sample.
pub record IsAdmissible (b : Buffer) (size : ℕ) : Type 0 where
  pub sample_fits : size ≤ b.max_bytes_per_sample
  pub total_fits : size ≤ b.max_overall_bytes

-- The memory that a buffer ties up: what it uses, or what it has reserved.
abbrev pub footprint : Buffer → ℕ
footprint b = max b.bytes_in_use b.reserved_bytes

module _ (b : Buffer) (bytes : List ℕ) (timestamp handle : ℕ) where
  append_frame-IsValid :
      (total : ℕ)
      → IsValid b
      → HasRoom (length bytes) total b
      → length bytes ≤ b.max_bytes_per_sample
      → IsValid (append_frame b bytes timestamp handle)
  append_frame-IsValid total v r h = record {
    bytes_counted =
        omega (arith, sum_by-append get_size b.frames (new_frame handle timestamp bytes ∷ []));
    samples_counted = omega (arith, length-append b.frames (new_frame handle timestamp bytes ∷ []));
    samples_limited = omega arith;
    bytes_limited = omega arith;
    limit_small = v.limit_small;
    samples_small = v.samples_small;
    samples_fit = All-append (FitsIn b.max_bytes_per_sample) b.frames _ v.samples_fit (h, tt);
  }

  -- The new frame is not pinned.
  pinned-append_frame : pinned (append_frame b bytes timestamp handle).frames ≡ pinned b.frames
  pinned-append_frame =
      filter_by-append is_pinned b.frames (new_frame handle timestamp bytes ∷ [])
      ∙ append-nil (pinned b.frames)

-- What `addData` does to the rest of the buffer, whether it accepts the sample or not.
pub record Adds (b : Buffer) (bytes : List ℕ) (available : ℕ) (r : Bool × Buffer) : Type 0 where
  pub valid : IsValid r.1
  pub type_id_kept : r.1.type_id ≡ b.type_id
  pub reserved_kept : r.1.reserved_bytes ≡ b.reserved_bytes
  pub max_samples_kept : r.1.max_num_of_samples ≡ b.max_num_of_samples
  pub max_bytes_kept : r.1.max_overall_bytes ≡ b.max_overall_bytes
  pub deleting_kept : r.1.deleting ≡ b.deleting
  pub pinned_kept : pinned r.1.frames ≡ pinned b.frames
  pub footprint_bounded : footprint r.1 ≤ available + footprint b
  pub samples_bounded : length r.1.frames ≤ suc (length b.frames)
  pub refused :
      r.0 ≡ false
      → IsAdmissible b (length bytes)
      → IsStuck r.1 × IsFull (length bytes) (bytes_available_to_use b available) r.1

-- The free memory and the footprint cover what is available and what is in use.
bytes_available_to_use-total :
    (b : Buffer) (available : ℕ)
    → available + footprint b < 2 ^ 63
    → bytes_available_to_use b available + b.bytes_in_use ≡ available + footprint b
bytes_available_to_use-total b available u = ground arith

accept-Adds :
    (b : Buffer) (bytes : List ℕ) (timestamp handle available : ℕ) (r : Bool × Buffer)
    → IsValid b
    → available + footprint b < 2 ^ 63
    → IsAdmissible b (length bytes)
    → Frees
        (HasRoom (length bytes) (bytes_available_to_use b available + b.bytes_in_use))
        (IsFull (length bytes) (bytes_available_to_use b available))
        b
        r
    → Adds b bytes available (and_then r (λ b'. (true, append_frame b' bytes timestamp handle)))
accept-Adds b bytes timestamp handle available (true, b') v u a f =
    let d = f.deletes in
    let r = f.success refl in
    let t = bytes_available_to_use-total b available u in
    record {
      valid =
          append_frame-IsValid b' bytes timestamp handle _ d.valid r (omega (arith, a, d.shrunk));
      type_id_kept = d.shrunk.type_id_kept;
      reserved_kept = d.shrunk.reserved_kept;
      max_samples_kept = d.shrunk.max_samples_kept;
      max_bytes_kept = d.shrunk.max_bytes_kept;
      deleting_kept = d.shrunk.deleting_kept;
      pinned_kept = pinned-append_frame b' bytes timestamp handle ∙ d.shrunk.pinned_kept;
      footprint_bounded = omega (arith, r, d.shrunk, d.valid, t);
      samples_bounded =
          omega (arith, length-append b'.frames (new_frame handle timestamp bytes ∷ []), d.shrunk);
      refused = λ h. absurd (cc);
    }
accept-Adds b bytes timestamp handle available (false, b') v u a f =
    let d = f.deletes in
    record {
      valid = d.valid;
      type_id_kept = d.shrunk.type_id_kept;
      reserved_kept = d.shrunk.reserved_kept;
      max_samples_kept = d.shrunk.max_samples_kept;
      max_bytes_kept = d.shrunk.max_bytes_kept;
      deleting_kept = d.shrunk.deleting_kept;
      pinned_kept = d.shrunk.pinned_kept;
      footprint_bounded = omega (arith, d.shrunk);
      samples_bounded = omega (arith, d.shrunk);
      refused = λ h _. f.failure h;
    }

refuse-Adds :
    (b : Buffer) (bytes : List ℕ) (available : ℕ)
    → IsValid b
    → ¬ IsAdmissible b (length bytes)
    → Adds b bytes available (false, b)
refuse-Adds b bytes available v n = record {
  valid = v;
  type_id_kept = refl;
  reserved_kept = refl;
  max_samples_kept = refl;
  max_bytes_kept = refl;
  deleting_kept = refl;
  pinned_kept = refl;
  footprint_bounded = omega arith;
  samples_bounded = omega arith;
  refused = λ _ a. absurd (n a);
}

-- Whatever `addData` answers, the buffer stays valid and its frames in use stay, and if it refuses a
-- sample of an admissible size then it has given up all that it may and is still full.
pub add_data-Adds :
    (b : Buffer) (bytes : List ℕ) (timestamp handle available : ℕ)
    → IsValid b
    → available + footprint b < 2 ^ 63
    → Adds b bytes available (add_data b bytes timestamp handle available)
unfolding add_data
add_data-Adds b bytes timestamp handle available v u =
    elim (Bool-cases
      (ltb b.max_bytes_per_sample (length bytes) || ltb b.max_overall_bytes (length bytes))) [
        | inl e ↦ rw e (refuse-Adds b bytes available v (λ a. ground arith))
        | inr e ↦ rw e (
            accept-Adds b bytes timestamp handle available _ v u (ground arith) (
              make_room-Frees (length bytes) (bytes_available_to_use b available) _ b v
                (ground arith) refl (omega (arith, bytes_available_to_use-total b available u))))
      ]
