-- ===== src/Inspection/History.antt =====
-- The ring of a SignalHistoryBuffer as the list of its samples, newest first.
use aws_iot_fleetwise_edge.Prelude.{
  ℕ, zero, suc, ◌+◌, ◌-◌, ◌%◌, ◌^◌, ◌≤◌, ◌<◌, min, false, List, [], ◌∷◌, length, get_or, set, leb,
  if◌then◌else◌, leb→le, Bool-cases, ◌⊎◌, inl, inr, ◌≡◌, refl, ap, arith,
}
use aws_iot_fleetwise_edge.Schemes.Types.{TimePoint}
use aws_iot_fleetwise_edge.Inspection.Buffer.{
  Sample, SignalHistoryBuffer, position_before, next_position, new_sample, insert_sample,
}

-- The steps back from one position of a ring to another.
abbrev pub steps_back : (size q p : ℕ) → ℕ
steps_back size q p = if leb p q then q - p else q + size - p

pub position_before-below : (size q : ℕ) → q < size → position_before size q < size
position_before-below size zero h = omega arith
position_before-below size (suc q) h = ground arith

pub steps_back-before :
    (size q p : ℕ)
    → q < size
    → p < size
    → 1 ≤ steps_back size q p
    → suc (steps_back size (position_before size q) p) ≡ steps_back size q p
steps_back-before size zero p hq hp h = ground arith
steps_back-before size (suc q) p hq hp h = ground arith

-- From the position before `p` back to `p` is the whole ring but one step.
pub steps_back_around :
    (size p : ℕ) → p < size → suc (steps_back size (position_before size p) p) ≡ size
steps_back_around size zero h = ground arith
steps_back_around size (suc p) h = ground arith

module _ {ℓ} {A : Type ℓ} where
  abbrev pub take : ℕ → List A → List A
  take zero xs = []
  take (suc n) [] = []
  take (suc n) (x ∷ xs) = x ∷ take n xs

  pub get_or-set_same :
      (xs : List A) (i : ℕ) (v d : A) → i < length xs → get_or (set xs i v) i d ≡ v
  get_or-set_same [] i v d h = absurd (omega arith)
  get_or-set_same (x ∷ xs) zero v d h = refl
  get_or-set_same (x ∷ xs) (suc i) v d h = get_or-set_same xs i v d (omega arith)

  pub get_or-set_other :
      (xs : List A) (i j : ℕ) (v d : A)
      → (i < j) ⊎ (j < i)
      → get_or (set xs i v) j d ≡ get_or xs j d
  get_or-set_other [] i j v d h = refl
  get_or-set_other (x ∷ xs) zero zero v d h = absurd (omega arith)
  get_or-set_other (x ∷ xs) zero (suc j) v d h = refl
  get_or-set_other (x ∷ xs) (suc i) zero v d h = refl
  get_or-set_other (x ∷ xs) (suc i) (suc j) v d h = get_or-set_other xs i j v d (omega arith)

  pub length-set : (xs : List A) (i : ℕ) (v : A) → length (set xs i v) ≡ length xs
  length-set [] i v = refl
  length-set (x ∷ xs) zero v = refl
  length-set (x ∷ xs) (suc i) v = ap suc (length-set xs i v)

  -- Samples read backwards from a position of a ring of `size`.
  abbrev pub recent : A → (n position size : ℕ) → List A → List A
  recent d zero position size xs = []
  recent d (suc n) position size xs =
      get_or xs position d ∷ recent d n (position_before size position) size xs

  pub recent-set :
      (d : A) (n q size p : ℕ) (xs : List A) (v : A)
      → q < size
      → p < size
      → n ≤ steps_back size q p
      → recent d n q size (set xs p v) ≡ recent d n q size xs
  recent-set d zero q size p xs v hq hp h = refl
  recent-set d (suc n) q size p xs v hq hp h =
      let step = steps_back-before size q p hq hp (omega arith) in
      let apart : (p < q) ⊎ (q < p) = ground arith in
      rw
        (
          get_or-set_other xs p q v d apart,
          recent-set d n (position_before size q) size p xs v (position_before-below size q hq) hp
              (omega arith),
        )
        refl

  take-recent :
      (d : A) (k n q size : ℕ) (xs : List A)
      → k ≤ n
      → take k (recent d n q size xs) ≡ recent d k q size xs
  take-recent d zero n q size xs h = refl
  take-recent d (suc k) zero q size xs h = absurd (omega arith)
  take-recent d (suc k) (suc n) q size xs h =
      rw (take-recent d k n (position_before size q) size xs (omega arith)) refl

  pub take_all-recent :
      (d : A) (k n q size : ℕ) (xs : List A)
      → n ≤ k
      → take k (recent d n q size xs) ≡ recent d n q size xs
  take_all-recent d zero zero q size xs h = refl
  take_all-recent d zero (suc n) q size xs h = absurd (omega arith)
  take_all-recent d (suc k) zero q size xs h = refl
  take_all-recent d (suc k) (suc n) q size xs h =
      rw (take_all-recent d k n (position_before size q) size xs (omega arith)) refl

  pub take-recent-min :
      (d : A) (k n q size : ℕ) (xs : List A)
      → take k (recent d n q size xs) ≡ recent d (min k n) q size xs
  take-recent-min d k n q size xs = elim (Bool-cases (leb k n)) [
    | inl t ↦
        let e : min k n ≡ k = ground arith in rw e (take-recent d k n q size xs (leb→le k n t))
    | inr t ↦
        let e : min k n ≡ n = ground arith in rw e (take_all-recent d k n q size xs (ground arith))
  ]

  -- What was there, after `v` was written one position on.
  written-recent :
      (d v : A) (m size pos : ℕ) (xs : List A)
      → pos < size
      → size ≤ length xs
      → m < size
      → recent d
          (suc m)
          (if leb size (pos + 1) then 0 else pos + 1)
          size
          (set xs (if leb size (pos + 1) then 0 else pos + 1) v)
        ≡ v ∷ recent d m pos size xs
  written-recent d v m size pos xs h l k =
      let e : pos + 1 ≡ suc pos = omega arith in
      rw e (elim (Bool-cases (leb size (suc pos))) [
        | inl t ↦
            let back : size - 1 ≡ pos = ground arith in
            let far : m ≤ steps_back size pos 0 = ground arith in
            rw
              (
                t,
                get_or-set_same xs 0 v d (omega arith),
                back,
                recent-set d m pos size 0 xs v h (omega arith) far,
              )
              refl
        | inr t ↦
            let back : leb size pos ≡ false = ground arith in
            let far : m ≤ steps_back size pos (suc pos) = ground arith in
            let below : suc pos < size = ground arith in
            rw
              (
                t,
                get_or-set_same xs (suc pos) v d (omega arith),
                back,
                recent-set d m pos size (suc pos) xs v h below far,
              )
              refl
      ])

  ring-insert :
      (d v : A) (size pos c : ℕ) (xs : List A)
      → pos < size
      → size ≤ length xs
      → recent d
          (min (c + 1) size)
          (if leb size (pos + 1) then 0 else pos + 1)
          size
          (set xs (if leb size (pos + 1) then 0 else pos + 1) v)
        ≡ take size (v ∷ recent d (min c size) pos size xs)
  ring-insert d v zero pos c xs h l = absurd (omega arith)
  ring-insert d v (suc k) pos c xs h l = elim (Bool-cases (leb c k)) [
    | inl t ↦
        let few : c ≤ k = leb→le c k t in
        let new : min (c + 1) (suc k) ≡ suc c = omega arith in
        let old : min c (suc k) ≡ c = omega arith in
        rw (new, old, take_all-recent d k c pos (suc k) xs few)
          (written-recent d v c (suc k) pos xs h l (omega arith))
    | inr t ↦
        let many : k < c = ground arith in
        let new : min (c + 1) (suc k) ≡ suc k = omega arith in
        let old : min c (suc k) ≡ suc k = omega arith in
        rw (new, old, take-recent d k (suc k) pos (suc k) xs (omega arith))
          (written-recent d v k (suc k) pos xs h l (omega arith))
  ]

module _ {V : Type 0} where
  -- A buffer that addSignalBuffer and preAllocateBuffers have made, and the samples that it holds.
  abbrev pub IsRing : SignalHistoryBuffer V → Type 0
  IsRing b = (0 < b.size) × (b.size ≤ length b.buffer) × (b.current_position < b.size)

  abbrev pub history : Sample V → SignalHistoryBuffer V → List (Sample V)
  history d b = recent d (min b.counter b.size) b.current_position b.size b.buffer

  pub next_position-below :
      (b : SignalHistoryBuffer V) → b.current_position < b.size → next_position b < b.size
  next_position-below b h = ground arith

  pub insert_sample-history :
      (d : Sample V) (v : V) (t : TimePoint) (b : SignalHistoryBuffer V)
      → IsRing b
      → b.counter + 1 < 2 ^ 64
      → history d (insert_sample v t b) ≡ take b.size (new_sample v t ∷ history d b)
  insert_sample-history d v t b ring count =
      let word : (b.counter + 1) % 2 ^ 64 ≡ b.counter + 1 = omega arith in
      rw word
        (ring-insert d (new_sample v t) b.size b.current_position b.counter b.buffer ring.2 ring.1)
