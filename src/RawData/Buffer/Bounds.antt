-- ===== src/RawData/Buffer/Bounds.antt =====
-- The counters, the limits and the frames in use of `Buffer` in src/RawDataManager.cpp, and the
-- deletion of a frame.
use aws_iot_fleetwise_edge.Prelude.{
  ℕ, zero, suc, ◌^◌, ◌≤◌, ◌<◌, ◌≡◌, refl, Bool, true, false, not, List, [], ◌∷◌, some, arith,
  length, get_or, ◌==◌, ◌||◌, All, All-erase_if, find_if, filter_by, filter_by-erase_if,
  find_if-passes, length-erase_if, sum_by, sum_by-erase_if, inl, inr, Option-cases,
}
use aws_iot_fleetwise_edge.RawData.Types.{
  Frame, Buffer, any_nonzero, get_size, get_usage_hint, uploading,
}
use aws_iot_fleetwise_edge.RawData.Buffer.{is_unused, is_releasable, drop_frame, delete_unused_data}

-- The bytes that the frames hold.
abbrev pub bytes_held : List Frame → ℕ
bytes_held = sum_by get_size

abbrev pub FitsIn : ℕ → Frame → Type 0
FitsIn limit frame = get_size frame ≤ limit

pub record IsValid (b : Buffer) : Type 0 where
  pub bytes_counted : b.bytes_in_use ≡ bytes_held b.frames
  pub samples_counted : b.num_of_samples_currently_in_memory ≡ length b.frames
  pub samples_limited : b.num_of_samples_currently_in_memory ≤ b.max_num_of_samples
  pub bytes_limited : b.bytes_in_use ≤ b.max_overall_bytes
  pub limit_small : b.max_overall_bytes < 2 ^ 63
  pub samples_small : b.max_num_of_samples < 2 ^ 64
  pub samples_fit : All (FitsIn b.max_bytes_per_sample) b.frames

-- A frame that no operation of the buffer may give up: its data is borrowed, or it is in upload.
abbrev pub is_pinned : Frame → Bool
is_pinned frame = not (frame.data_in_use_counter == 0) || not (get_usage_hint frame uploading == 0)

abbrev pub pinned : List Frame → List Frame
pinned = filter_by is_pinned

-- What deleting frames leaves alone.
pub record IsShrunk (b b' : Buffer) : Type 0 where
  pub type_id_kept : b'.type_id ≡ b.type_id
  pub max_samples_kept : b'.max_num_of_samples ≡ b.max_num_of_samples
  pub max_sample_kept : b'.max_bytes_per_sample ≡ b.max_bytes_per_sample
  pub max_bytes_kept : b'.max_overall_bytes ≡ b.max_overall_bytes
  pub reserved_kept : b'.reserved_bytes ≡ b.reserved_bytes
  pub deleting_kept : b'.deleting ≡ b.deleting
  pub pinned_kept : pinned b'.frames ≡ pinned b.frames
  pub bytes_shrunk : b'.bytes_in_use ≤ b.bytes_in_use
  pub frames_shrunk : length b'.frames ≤ length b.frames

pub IsShrunk-refl : (b : Buffer) → IsShrunk b b
IsShrunk-refl b = ground arith

pub IsShrunk-trans : {a b c : Buffer} → IsShrunk a b → IsShrunk b c → IsShrunk a c
IsShrunk-trans h k = ground arith

any_nonzero-get : (cs : List ℕ) (i : ℕ) → any_nonzero cs ≡ false → get_or cs i 0 ≡ 0
any_nonzero-get [] i h = refl
any_nonzero-get (c ∷ cs) zero h = ground arith
any_nonzero-get (c ∷ cs) (suc i) h = ground (arith, any_nonzero-get cs i)

pub is_unused-releasable : (f : Frame) → is_unused f ≡ true → is_pinned f ≡ false
is_unused-releasable f h = ground (arith, any_nonzero-get f.usage_hint_counters 4)

module _ (b : Buffer) (p : Frame → Bool) (f : Frame) (found : find_if p b.frames ≡ some f) where
  pub drop_frame-IsShrunk : IsValid b → is_pinned f ≡ false → IsShrunk b (drop_frame b p f)
  drop_frame-IsShrunk v h = ground (
    arith,
    filter_by-erase_if is_pinned p b.frames f found h,
    length-erase_if p b.frames f found,
    sum_by-erase_if get_size p b.frames f found,
  )

  pub drop_frame-IsValid : IsValid b → IsValid (drop_frame b p f)
  drop_frame-IsValid v = record {
    bytes_counted = omega (arith, sum_by-erase_if get_size p b.frames f found);
    samples_counted = omega (arith, length-erase_if p b.frames f found);
    samples_limited = omega (arith, length-erase_if p b.frames f found);
    bytes_limited = omega (arith, sum_by-erase_if get_size p b.frames f found);
    limit_small = v.limit_small;
    samples_small = v.samples_small;
    samples_fit = All-erase_if (FitsIn b.max_bytes_per_sample) p b.frames v.samples_fit;
  }

-- The result of an operation that deletes frames: a valid buffer that has shrunk.
pub record Deletes (b b' : Buffer) : Type 0 where
  pub valid : IsValid b'
  pub shrunk : IsShrunk b b'

pub Deletes-trans : {a b c : Buffer} → Deletes a b → Deletes b c → Deletes a c
Deletes-trans h k = record { valid = k.valid; shrunk = IsShrunk-trans h.shrunk k.shrunk }

pub Deletes-refl : {b : Buffer} → IsValid b → Deletes b b
Deletes-refl {b} v = record { valid = v; shrunk = IsShrunk-refl b }

abbrev Dropped : Buffer → Bool × Buffer → Type 0
Dropped b r = Deletes b r.1 × (r.0 ≡ true → suc (length r.1.frames) ≡ length b.frames)

pub delete_unused_data-Deletes : (b : Buffer) → IsValid b → Dropped b (delete_unused_data b)
unfolding delete_unused_data
delete_unused_data-Deletes b v = elim (Option-cases (find_if is_unused b.frames)) [
  | inr (f, e) ↦
      rw (e, delete_unused_data)
        (
          record {
            valid = drop_frame-IsValid b is_unused f e v;
            shrunk =
                drop_frame-IsShrunk b is_unused f e v
                  (is_unused-releasable f (find_if-passes is_unused b.frames f e));
          },
          λ _. length-erase_if is_unused b.frames f e,
        )
  | inl e ↦ elim (Option-cases (find_if is_releasable b.frames)) [
    | inr (f, k) ↦
        rw (e, k, delete_unused_data)
          (
            record {
              valid = drop_frame-IsValid b is_releasable f k v;
              shrunk =
                  drop_frame-IsShrunk b is_releasable f k v
                    (ground (arith, find_if-passes is_releasable b.frames f k));
            },
            λ _. length-erase_if is_releasable b.frames f k,
          )
    | inl k ↦ rw (e, k, delete_unused_data) (Deletes-refl v, λ h. cc)
  ]
]
