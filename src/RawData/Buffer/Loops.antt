-- ===== src/RawData/Buffer/Loops.antt =====
-- The `while` loops of `addData` and `updateConfig` in src/RawDataManager.cpp, which delete unused
-- data: they end.
use aws_iot_fleetwise_edge.Prelude.{
  ℕ, zero, suc, ◌≤◌, ◌≡◌, refl, Bool, true, false, arith, ltb, add64, sub64, length, find_if,
  length-erase_if, Bool-cases, Option-cases, inl, inr, ap,
}
use aws_iot_fleetwise_edge.RawData.Types.{Buffer}
use aws_iot_fleetwise_edge.RawData.Buffer.{
  is_unused, is_releasable, delete_unused_data, free_own_limit, free_shared_memory,
  delete_all_unused,
}

-- A deletion that succeeds takes one frame.
pub length-delete_unused_data :
    (b : Buffer)
    → (delete_unused_data b).0 ≡ true
    → suc (length (delete_unused_data b).1.frames) ≡ length b.frames
unfolding delete_unused_data
length-delete_unused_data b h = elim (Option-cases (find_if is_unused b.frames)) [
  | inr (f, e) ↦ rw (e, delete_unused_data) (length-erase_if is_unused b.frames f e)
  | inl e ↦ elim (Option-cases (find_if is_releasable b.frames)) [
    | inr (f, k) ↦ rw (e, k, delete_unused_data) (length-erase_if is_releasable b.frames f k)
    | inl k ↦ ground arith
  ]
]

-- Only then does the buffer change.
pub delete_unused_data_fails :
    (b : Buffer) → (delete_unused_data b).0 ≡ false → delete_unused_data b ≡ (false, b)
unfolding delete_unused_data
delete_unused_data_fails b h = ground arith

delete_unused_data-empty : (b : Buffer) → length b.frames ≡ 0 → delete_unused_data b ≡ (false, b)
delete_unused_data-empty b h = elim (Bool-cases (delete_unused_data b).0) [
  | inl e ↦ absurd (omega (arith, length-delete_unused_data b e))
  | inr e ↦ delete_unused_data_fails b e
]

-- The runs of `while ( test ) { if ( !body() ) return false; }`: how often the body runs, the state
-- before, and the result with the state after. A loop that does not end has no run.
pub data Ends {S : Type 0} (test : S → Bool) (body : S → Bool × S) : ℕ → S → Bool × S → Type 0 where
  stops : {s : S} → test s ≡ false → Ends test body 0 s (true, s)
  fails : {s s' : S} → test s ≡ true → body s ≡ (false, s') → Ends test body 1 s (false, s')
  again :
      {n : ℕ} {s s' : S} {r : Bool × S}
      → test s ≡ true
      → body s ≡ (true, s')
      → Ends test body n s' r
      → Ends test body (suc n) s r

-- A run that ends with the result, in which the body runs once for each frame at most, and once more
-- when there is nothing to delete.
abbrev pub EndsWithin : {S : Type 0} → (S → Bool) → (S → Bool × S) → ℕ → S → Bool × S → Type 0
EndsWithin test body frames s r = (n : ℕ) × ((n ≤ suc frames) × Ends test body n s r)

abbrev pub over_own_limit : ℕ → Buffer → Bool
over_own_limit required b = ltb b.max_overall_bytes (add64 b.bytes_in_use required)

-- What the deletions from one buffer to the other add to the available bytes.
abbrev released : ℕ → Buffer → Buffer → ℕ
released available b b' = add64 available (sub64 b.bytes_in_use b'.bytes_in_use)

abbrev pub over_shared_limit : ℕ → ℕ × Buffer → Bool
over_shared_limit required (available, b) = ltb available required

-- The body of the second loop of `addData`: what is deleted is available.
abbrev pub delete_and_release : ℕ × Buffer → Bool × (ℕ × Buffer)
delete_and_release (available, b) =
    let deleted = delete_unused_data b in (deleted.0, (released available b deleted.1, deleted.1))

abbrev next : ℕ → Buffer → ℕ × Buffer
next available b = (delete_and_release (available, b)).1

abbrev pub always : Buffer → Bool
always b = true

with_flag : {S : Type 0} (r : Bool × S) (c : Bool) → r.0 ≡ c → r ≡ (c, r.1)
with_flag (a, s) c h = ap (λ x. (x, s)) h

module _ {S : Type 0} {test : S → Bool} {body : S → Bool × S} where
  EndsWithin-stops : (n : ℕ) (s : S) → test s ≡ false → EndsWithin test body n s (true, s)
  EndsWithin-stops n s t = (0, (omega arith, stops t))

  EndsWithin-fails :
      (n : ℕ) (s s' : S)
      → test s ≡ true
      → body s ≡ (false, s')
      → EndsWithin test body n s (false, s')
  EndsWithin-fails n s s' t e = (1, (omega arith, fails t e))

  EndsWithin-again :
      (n : ℕ) (s s' : S) (r : Bool × S)
      → test s ≡ true
      → body s ≡ (true, s')
      → EndsWithin test body n s' r
      → EndsWithin test body (suc n) s r
  EndsWithin-again n s s' r t e (k, (h, run)) = (suc k, (omega arith, again t e run))

free_own_limit-Ends :
    (n required : ℕ) (b : Buffer)
    → length b.frames ≡ n
    → EndsWithin (over_own_limit required) delete_unused_data n b (free_own_limit n required b)
unfolding free_own_limit
free_own_limit-Ends zero required b h = elim (Bool-cases (over_own_limit required b)) [
  | inr t ↦ rw t (EndsWithin-stops 0 b t)
  | inl t ↦ rw t (EndsWithin-fails 0 b b t (delete_unused_data-empty b h))
]
free_own_limit-Ends (suc n) required b h = elim (Bool-cases (over_own_limit required b)) [
  | inr t ↦ rw t (EndsWithin-stops (suc n) b t)
  | inl t ↦ elim (Bool-cases (delete_unused_data b).0) [
    | inr d ↦
        let e = with_flag (delete_unused_data b) false d in
        rw (t, e) (EndsWithin-fails (suc n) b (delete_unused_data b).1 t e)
    | inl d ↦
        let e = with_flag (delete_unused_data b) true d in
        let less : length (delete_unused_data b).1.frames ≡ n =
          omega (arith, length-delete_unused_data b d) in
        rw (t, e)
          (EndsWithin-again n b (delete_unused_data b).1 _ t e
            (free_own_limit-Ends n required (delete_unused_data b).1 less))
  ]
]

free_shared_memory-Ends :
    (n required available : ℕ) (b : Buffer)
    → length b.frames ≡ n
    → (left : ℕ) × EndsWithin
        (over_shared_limit required)
        delete_and_release
        n
        (available, b)
        (
          (free_shared_memory n required available b).0,
          (left, (free_shared_memory n required available b).1),
        )
unfolding free_shared_memory
free_shared_memory-Ends zero required available b h = elim (Bool-cases (ltb available required)) [
  | inr t ↦ rw t (available, EndsWithin-stops 0 (available, b) t)
  | inl t ↦
      let e : delete_and_release (available, b) ≡ (false, (released available b b, b)) =
        rw (delete_unused_data-empty b h) refl in
      rw t (released available b b, EndsWithin-fails 0 (available, b) _ t e)
]
free_shared_memory-Ends (suc n) required available b h =
    elim (Bool-cases (ltb available required)) [
      | inr t ↦ rw t (available, EndsWithin-stops (suc n) (available, b) t)
      | inl t ↦ elim (Bool-cases (delete_unused_data b).0) [
        | inr d ↦
            let e : delete_and_release (available, b) ≡ (false, next available b) =
              ap (λ c. (c, next available b)) d in
            rw (t, with_flag (delete_unused_data b) false d)
              ((next available b).0, EndsWithin-fails (suc n) (available, b) (next available b) t e)
        | inl d ↦
            let e : delete_and_release (available, b) ≡ (true, next available b) =
              ap (λ c. (c, next available b)) d in
            let less : length (delete_unused_data b).1.frames ≡ n =
              omega (arith, length-delete_unused_data b d) in
            let (left, run) =
              free_shared_memory-Ends n required (next available b).0 (delete_unused_data b).1
                less in
            rw (t, with_flag (delete_unused_data b) true d)
              (left, EndsWithin-again n (available, b) (next available b) _ t e run)
      ]
    ]

delete_all_unused-Ends :
    (n : ℕ) (b : Buffer)
    → length b.frames ≡ n
    → EndsWithin always delete_unused_data n b (false, delete_all_unused n b)
unfolding delete_all_unused
delete_all_unused-Ends zero b h = EndsWithin-fails 0 b b refl (delete_unused_data-empty b h)
delete_all_unused-Ends (suc n) b h = elim (Bool-cases (delete_unused_data b).0) [
  | inr d ↦
      let e = with_flag (delete_unused_data b) false d in
      rw e (EndsWithin-fails (suc n) b (delete_unused_data b).1 refl e)
  | inl d ↦
      let e = with_flag (delete_unused_data b) true d in
      let less : length (delete_unused_data b).1.frames ≡ n =
        omega (arith, length-delete_unused_data b d) in
      rw e (
        EndsWithin-again n b (delete_unused_data b).1 _ refl e
          (delete_all_unused-Ends n (delete_unused_data b).1 less))
]

-- Whatever the buffer, the bytes required and the bytes available, the three loops that delete unused
-- data end: `while ( mBytesInUse + requiredBytes > mMaxOverallBytes )` and
-- `while ( requiredBytes > bytesAvailableToUse )` of `addData`, and `while ( buffer.deleteUnusedData() )`
-- of `updateConfig`. The body runs at most once more than the buffer has frames, and the loops of the
-- model, with as many rounds as there are frames, give the result and the buffer of that run.
pub while_loops_end :
    (required available : ℕ) (b : Buffer)
    → EndsWithin
        (over_own_limit required)
        delete_unused_data
        (length b.frames)
        b
        (free_own_limit (length b.frames) required b)
      × ((left : ℕ) × EndsWithin
            (over_shared_limit required)
            delete_and_release
            (length b.frames)
            (available, b)
            (
              (free_shared_memory (length b.frames) required available b).0,
              (left, (free_shared_memory (length b.frames) required available b).1),
            ))
      × EndsWithin always delete_unused_data
          (length b.frames)
          b
          (false, delete_all_unused (length b.frames) b)
while_loops_end required available b = (
  free_own_limit-Ends (length b.frames) required b refl,
  free_shared_memory-Ends (length b.frames) required available b refl,
  delete_all_unused-Ends (length b.frames) b refl,
)
