-- ===== src/RawData/Buffer/Room.antt =====
-- How `Buffer::addData` of src/RawDataManager.cpp makes room: the two `while` loops and the step
-- before them.
use aws_iot_fleetwise_edge.Prelude.{
  ℕ, zero, suc, ◌+◌, ◌^◌, ◌≤◌, ◌<◌, ◌≡◌, refl, Bool, true, false, List, [], ◌⊎◌, ◌∷◌, none, arith,
  ltb, ◌==◌, add64, sub64, length, find_if, inl, inr, Bool-cases,
}
use aws_iot_fleetwise_edge.RawData.Types.{Frame, Buffer}
use aws_iot_fleetwise_edge.RawData.Buffer.{
  is_releasable, delete_unused_data, and_then, free_own_limit, free_shared_memory, free_sample,
  make_room,
}
use aws_iot_fleetwise_edge.RawData.Buffer.Bounds.{
  IsValid, Deletes, Deletes-refl, Deletes-trans, pinned, delete_unused_data-Deletes,
}

-- No frame is left that may be given up.
abbrev pub IsStuck : Buffer → Type 0
IsStuck b = find_if is_releasable b.frames ≡ none

pub pinned-of_stuck : (xs : List Frame) → find_if is_releasable xs ≡ none → pinned xs ≡ xs
pinned-of_stuck [] h = refl
pinned-of_stuck (x ∷ xs) h = ground (arith, pinned-of_stuck xs)

delete_unused_data-IsStuck :
    (b : Buffer)
    → (delete_unused_data b).0 ≡ false
    → IsStuck (delete_unused_data b).1 × ((delete_unused_data b).1 ≡ b)
unfolding delete_unused_data
delete_unused_data-IsStuck b h = ground arith

-- The outcome of a step that deletes frames: what success and failure say.
pub record Frees (Ok Fail : Buffer → Type 0) (b : Buffer) (r : Bool × Buffer) : Type 0 where
  pub deletes : Deletes b r.1
  pub success : r.0 ≡ true → Ok r.1
  pub failure : r.0 ≡ false → IsStuck r.1 × Fail r.1

abbrev OwnLimit : ℕ → Buffer → Type 0
OwnLimit required b = b.bytes_in_use + required ≤ b.max_overall_bytes

abbrev OverOwnLimit : ℕ → Buffer → Type 0
OverOwnLimit required b = b.max_overall_bytes < b.bytes_in_use + required

find_if-nothing : (p : Frame → Bool) (xs : List Frame) → length xs ≤ 0 → find_if p xs ≡ none
find_if-nothing p [] h = refl
find_if-nothing p (x ∷ xs) h = absurd (omega arith)

delete_unused_data-Frees :
    (b : Buffer)
    → IsValid b
    → Frees (λ b'. suc (length b'.frames) ≡ length b.frames) (λ b'. b' ≡ b) b (delete_unused_data b)
delete_unused_data-Frees b v =
    let d = delete_unused_data-Deletes b v in
    record { deletes = d.0; success = d.1; failure = delete_unused_data-IsStuck b }

module _ {Ok₁ Fail₁ Ok Fail : Buffer → Type 0} where
  and_then-Frees :
      (b : Buffer) (r : Bool × Buffer) (k : Buffer → Bool × Buffer)
      → Frees Ok₁ Fail₁ b r
      → (Deletes b r.1 → Ok₁ r.1 → Frees Ok Fail r.1 (k r.1))
      → ((b' : Buffer) → Fail₁ b' → Fail b')
      → Frees Ok Fail b (and_then r k)
  and_then-Frees b (true, b') k h next fail =
      let n = next h.deletes (h.success refl) in
      record {
        deletes = Deletes-trans h.deletes n.deletes;
        success = n.success;
        failure = n.failure;
      }
  and_then-Frees b (false, b') k h next fail = record {
    deletes = h.deletes;
    success = λ e. absurd (cc);
    failure = λ e. ((h.failure refl).0, fail b' (h.failure refl).1);
  }

-- A step that stops at once.
module _ {Ok Fail : Buffer → Type 0} where
  Frees-stop : {b : Buffer} → IsValid b → Ok b → Frees Ok Fail b (true, b)
  Frees-stop v h = record { deletes = Deletes-refl v; success = λ _. h; failure = λ e. absurd (cc) }

-- `while ( mBytesInUse + requiredBytes > mMaxOverallBytes )` ends within the limit, or with no frame
-- left that may be given up.
pub free_own_limit-Frees :
    (n required : ℕ) (b : Buffer)
    → IsValid b
    → required < 2 ^ 63
    → length b.frames ≤ n
    → Frees (OwnLimit required) (OverOwnLimit required) b (free_own_limit n required b)
unfolding free_own_limit
free_own_limit-Frees zero required b v s h = record {
  deletes = Deletes-refl v;
  success = λ e. ground arith;
  failure = λ e. (find_if-nothing is_releasable b.frames h, ground arith);
}
free_own_limit-Frees (suc n) required b v s h =
    elim (Bool-cases (ltb b.max_overall_bytes (add64 b.bytes_in_use required))) [
      | inr e ↦ rw e (Frees-stop v (ground arith))
      | inl e ↦ rw e (
          and_then-Frees b (delete_unused_data b) (free_own_limit n required)
            (delete_unused_data-Frees b v)
            (λ d l.
              free_own_limit-Frees n required (delete_unused_data b).1 d.valid s (omega arith))
            (λ b' p. ground arith))
    ]

abbrev SharedLimit : ℕ → ℕ → Buffer → Type 0
SharedLimit total required b = b.bytes_in_use + required ≤ total

abbrev OverSharedLimit : ℕ → ℕ → Buffer → Type 0
OverSharedLimit total required b = total < b.bytes_in_use + required

-- `while ( requiredBytes > bytesAvailableToUse )`: what is available and what the buffer uses have
-- one sum throughout.
pub free_shared_memory-Frees :
    (n required available total : ℕ) (b : Buffer)
    → IsValid b
    → available + b.bytes_in_use ≡ total
    → total < 2 ^ 64
    → length b.frames ≤ n
    → Frees
        (SharedLimit total required)
        (OverSharedLimit total required)
        b
        (free_shared_memory n required available b)
unfolding free_shared_memory
free_shared_memory-Frees zero required available total b v t s h = record {
  deletes = Deletes-refl v;
  success = λ e. ground arith;
  failure = λ e. (find_if-nothing is_releasable b.frames h, ground arith);
}
free_shared_memory-Frees (suc n) required available total b v t s h =
    elim (Bool-cases (ltb available required)) [
      | inr e ↦ rw e (Frees-stop v (ground arith))
      | inl e ↦ rw e (
          and_then-Frees b (delete_unused_data b) _ (delete_unused_data-Frees b v)
            (λ d l.
              free_shared_memory-Frees n required
                (add64 available (sub64 b.bytes_in_use (delete_unused_data b).1.bytes_in_use)) total
                (delete_unused_data b).1 d.valid (omega arith) s (omega arith))
            (λ b' p. ground arith))
    ]

-- A full buffer gives up one sample, or has none to give up.
free_sample-Frees :
    (b : Buffer)
    → IsValid b
    → Frees
        (λ b'. b'.num_of_samples_currently_in_memory < b'.max_num_of_samples)
        (λ b'. b'.num_of_samples_currently_in_memory ≡ b'.max_num_of_samples)
        b
        (free_sample b)
unfolding free_sample
free_sample-Frees b v =
    elim (Bool-cases (b.num_of_samples_currently_in_memory == b.max_num_of_samples)) [
      | inr e ↦ rw e (Frees-stop v (ground arith))
      | inl e ↦ rw e (full (ground arith))
    ]
  where
    d :
        Frees
          (λ b'. suc (length b'.frames) ≡ length b.frames)
          (λ b'. b' ≡ b)
          b
          (delete_unused_data b)
    d = delete_unused_data-Frees b v

    full :
        b.num_of_samples_currently_in_memory ≡ b.max_num_of_samples
        → Frees
            (λ b'. b'.num_of_samples_currently_in_memory < b'.max_num_of_samples)
            (λ b'. b'.num_of_samples_currently_in_memory ≡ b'.max_num_of_samples)
            b
            (delete_unused_data b)
    full e = record {
      deletes = d.deletes;
      success = λ h. omega (arith, d.success h, d.deletes.valid, d.deletes.shrunk);
      failure = λ h. ((d.failure h).0, rw (d.failure h).1 e);
    }

-- Room for one more sample of `required` bytes.
pub record HasRoom (required total : ℕ) (b : Buffer) : Type 0 where
  pub sample_room : b.num_of_samples_currently_in_memory < b.max_num_of_samples
  pub own_room : b.bytes_in_use + required ≤ b.max_overall_bytes
  pub shared_room : b.bytes_in_use + required ≤ total

-- One of the three limits stands in the way.
abbrev pub IsFull : ℕ → ℕ → Buffer → Type 0
IsFull required available b =
    (b.num_of_samples_currently_in_memory ≡ b.max_num_of_samples)
    ⊎ ((b.max_overall_bytes < b.bytes_in_use + required) ⊎ (available < required))

pub make_room-Frees :
    (required available total : ℕ) (b : Buffer)
    → IsValid b
    → required < 2 ^ 63
    → available + b.bytes_in_use ≡ total
    → total < 2 ^ 64
    → Frees (HasRoom required total) (IsFull required available) b (make_room required available b)
unfolding make_room
make_room-Frees required available total b v s t u =
    and_then-Frees b (free_sample b) _ (free_sample-Frees b v) after_sample (λ b' p. inl p)
  where
    after_shared :
        (b1 b2 : Buffer)
        → Deletes b b1
        → b1.num_of_samples_currently_in_memory < b1.max_num_of_samples
        → Deletes b1 b2
        → OwnLimit required b2
        → Frees
            (HasRoom required total)
            (IsFull required available)
            b2
            (free_shared_memory (length b2.frames) required available b2)
    after_shared b1 b2 d1 l1 d2 l2 =
        let f =
          free_shared_memory-Frees (length b2.frames) required available
            (available + b2.bytes_in_use) b2 d2.valid refl (omega arith) (omega arith) in
        record {
          deletes = f.deletes;
          success = λ h. omega (arith, f.success h, f.deletes.valid, f.deletes.shrunk);
          failure =
              λ h. ((f.failure h).0, inr (inr (omega (arith, (f.failure h).1, f.deletes.shrunk))));
        }

    after_sample :
        Deletes b (free_sample b).1
        → (free_sample b).1.num_of_samples_currently_in_memory
          < (free_sample b).1.max_num_of_samples
        → Frees (HasRoom required total) (IsFull required available) (free_sample b).1 (
            and_then
              (free_own_limit (length (free_sample b).1.frames) required (free_sample b).1)
              (λ b2. free_shared_memory (length b2.frames) required available b2))
    after_sample d1 l1 =
        and_then-Frees (free_sample b).1 _ _
          (free_own_limit-Frees (length (free_sample b).1.frames) required (free_sample b).1
            d1.valid s (omega arith))
          (λ d2 l2. after_shared (free_sample b).1 _ d1 l1 d2 l2) (λ b' p. inr (inl p))
