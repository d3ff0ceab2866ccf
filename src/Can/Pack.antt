-- ===== src/Can/Pack.antt =====
-- The way back for extractIntegerSignalFromFrame: a frame with a little endian field replaced.
use aws_iot_fleetwise_edge.Prelude.{
  ℕ, zero, suc, ◌+◌, ◌-◌, ◌*◌, ◌/◌, ◌%◌, ◌^◌, ◌≤◌, ◌<◌, Bool, true, false, List, [], ◌∷◌, some,
  length, ltb, lt→ltb, Bool-cases, ◌⊎◌, inl, inr, ◌≡◌, refl, sym, ap, ◌∙◌, arith,
}
use aws_iot_fleetwise_edge.Prelude.Fields.{pow-positive, pow-add, pow_split, mod-above}
use native.Mathlib.Nat.{
  mod-lt, mod-mod, mul-suc, mod-eq_of_lt, mul_assoc, add-mul-div_left, div-eq_of_lt,
  div-div-eq-div-mul, add-mul-mod_self_left, pow-suc, pow-le-pow_right,
}
use aws_iot_fleetwise_edge.Can.Types.{CanSignalFormat}
use aws_iot_fleetwise_edge.Can.Extract.{extract_integer_signal_from_frame}
use aws_iot_fleetwise_edge.Can.Field.{AreBytes, field, little_endian}
use aws_iot_fleetwise_edge.Can.Extracted.{IsPlaced}
use aws_iot_fleetwise_edge.Can.Signed.{
  two_complement, extract_integer_signal_from_frame-field, integer_of_field,
}

abbrev pub to_bytes : ℕ → ℕ → List ℕ
to_bytes zero x = []
to_bytes (suc n) x = x % 256 ∷ to_bytes n (x / 256)

-- The number with the `size` bits from `first` on replaced by those of `v`.
abbrev pub replace_bits : (x first size v : ℕ) → ℕ
replace_bits x first size v =
    x % 2 ^ first + 2 ^ first * (v % 2 ^ size + 2 ^ size * (x / 2 ^ (first + size)))

-- The 64 bits of a number that `size` bits can hold.
abbrev pub IsRepresentable : Bool → ℕ → ℕ → Type 0
IsRepresentable true size v = (v < 2 ^ (size - 1)) ⊎ ((2 ^ 64 ≤ v + 2 ^ (size - 1)) × (v < 2 ^ 64))
IsRepresentable false size v = v < 2 ^ size

length-to_bytes : (n x : ℕ) → length (to_bytes n x) ≡ n
length-to_bytes zero x = refl
length-to_bytes (suc n) x = ap suc (length-to_bytes n (x / 256))

to_bytes-AreBytes : (n x : ℕ) → AreBytes (to_bytes n x)
to_bytes-AreBytes zero x = tt
to_bytes-AreBytes (suc n) x = (omega arith, to_bytes-AreBytes n (x / 256))

gather : (a l p q : ℕ) → a + 256 * l + 256 * p * q ≡ a + 256 * (l + p * q)
gather a l p q = grind arith

half_double : (size : ℕ) → 1 ≤ size → 2 ^ (size - 1) * 2 ≡ 2 ^ size
half_double size h =
    let e : suc (size - 1) ≡ size = omega arith in sym (pow-suc 2 (size - 1)) ∙ ap (λ n. 2 ^ n) e

-- The bytes hold a number up to what lies above them.
little_endian-to_bytes :
    (n x : ℕ) → little_endian (to_bytes n x) + 2 ^ (8 * n) * (x / 2 ^ (8 * n)) ≡ x
little_endian-to_bytes zero x = omega arith
little_endian-to_bytes (suc n) x =
    let e : 8 * suc n ≡ 8 + 8 * n = omega arith in
    let q = x / 256 / 2 ^ (8 * n) in
    let l = little_endian (to_bytes n (x / 256)) in
    let rest : x % 256 + 256 * (l + 2 ^ (8 * n) * q) ≡ x =
      (rw (little_endian-to_bytes n (x / 256)) (omega arith)) in
    rw (e, pow-add 8 (8 * n), sym (div-div-eq-div-mul x 256 (2 ^ (8 * n))))
      (gather (x % 256) l (2 ^ (8 * n)) q ∙ rest)

-- Bits within a number do not depend on what lies above it.
bits-below :
    (first size n l q : ℕ)
    → first + size ≤ n
    → l / 2 ^ first % 2 ^ size ≡ (l + 2 ^ n * q) / 2 ^ first % 2 ^ size
bits-below first size n l q h =
    let above = 2 ^ (n - first) in
    let e : l + 2 ^ n * q ≡ l + 2 ^ first * (above * q) =
      (rw (pow_split first n (omega arith), mul_assoc (2 ^ first) above q) refl) in
    rw (e, add-mul-div_left l (above * q) (pow-positive first))
      (sym (mod-above size (n - first) (l / 2 ^ first) q (omega arith)))

replaced-bits :
    (n x first size v : ℕ)
    → first + size ≤ 8 * n
    → little_endian (to_bytes n (replace_bits x first size v)) / 2 ^ first % 2 ^ size ≡ v % 2 ^ size
replaced-bits n x first size v h =
    let y = replace_bits x first size v in
    let z = v % 2 ^ size + 2 ^ size * (x / 2 ^ (first + size)) in
    let p = pow-positive first in
    let low : x % 2 ^ first / 2 ^ first ≡ 0 = div-eq_of_lt (mod-lt x p) in
    let e : 0 + z ≡ z = omega arith in
    bits-below first size (8 * n) (little_endian (to_bytes n y)) (y / 2 ^ (8 * n)) h
    ∙ (rw (little_endian-to_bytes n y, add-mul-div_left (x % 2 ^ first) z p, low, e)
        (add-mul-mod_self_left (v % 2 ^ size) (2 ^ size) (x / 2 ^ (first + size))
          ∙ mod-mod v (2 ^ size)))

two_complement-mod :
    (size v : ℕ)
    → 1 ≤ size
    → size ≤ 64
    → IsRepresentable true size v
    → two_complement size (v % 2 ^ size) ≡ v
two_complement-mod size v h k (inl low) =
    let e : v % 2 ^ size ≡ v = mod-eq_of_lt (omega (arith, half_double size h)) in
    rw (e, lt→ltb v (2 ^ (size - 1)) low) refl
two_complement-mod size v h k (inr high) =
    let r = v + 2 ^ size - 2 ^ 64 in
    let word : 2 ^ size ≤ 2 ^ 64 = pow-le-pow_right (omega arith) k in
    let split : v ≡ r + 2 ^ 64 - 2 ^ size = omega (arith, high.0, half_double size h) in
    let j = 2 ^ (64 - size) - 1 in
    let f : suc j ≡ 2 ^ (64 - size) = omega (arith, pow-positive (64 - size)) in
    let p : 2 ^ 64 ≡ 2 ^ size * suc j = pow_split size 64 k ∙ ap (λ z. 2 ^ size * z) (sym f) in
    let above_field : v ≡ r + 2 ^ size * j =
      omega (arith, high.0, half_double size h, p, mul-suc (2 ^ size) j) in
    let small : r < 2 ^ size = omega (arith, high.0, high.1, word) in
    let e : v % 2 ^ size ≡ r =
      ap (λ z. z % 2 ^ size) above_field
      ∙ add-mul-mod_self_left r (2 ^ size) j
      ∙ mod-eq_of_lt small in
    let above : ltb r (2 ^ (size - 1)) ≡ false = ground (arith, high.0, half_double size h) in
    rw (e, above) (sym split)

module _ {D : Type 0} where
  abbrev pub IsHeld : CanSignalFormat D → ℕ → Type 0
  IsHeld f v = IsRepresentable f.is_signed f.size_in_bits v

  -- A frame with the bits of a little endian signal replaced by those of `v`.
  abbrev pub pack : List ℕ → CanSignalFormat D → ℕ → List ℕ
  pack frame f v =
      to_bytes (length frame)
        (replace_bits (little_endian frame) f.first_bit_position f.size_in_bits v)

  pack-field :
      (frame : List ℕ) (f : CanSignalFormat D) (v : ℕ)
      → f.is_big_endian ≡ false
      → f.first_bit_position + f.size_in_bits ≤ 8 * length frame
      → field (pack frame f v) f ≡ v % 2 ^ f.size_in_bits
  pack-field frame f v e h =
      rw e
        (replaced-bits (length frame) (little_endian frame) f.first_bit_position f.size_in_bits v h)

  pack-IsPlaced :
      (frame : List ℕ) (f : CanSignalFormat D) (v : ℕ)
      → f.is_big_endian ≡ false
      → length frame ≤ 256
      → 1 ≤ f.size_in_bits
      → f.first_bit_position + f.size_in_bits ≤ 8 * length frame
      → IsPlaced (pack frame f v) f
  pack-IsPlaced frame f v e l s h =
      let x = replace_bits (little_endian frame) f.first_bit_position f.size_in_bits v in
      rw (e, length-to_bytes (length frame) x)
        (to_bytes-AreBytes (length frame) x, l, omega arith, s, omega arith)

  held-integer :
      (f : CanSignalFormat D) (v : ℕ) (frame : List ℕ)
      → 1 ≤ f.size_in_bits
      → f.size_in_bits ≤ 64
      → IsHeld f v
      → field frame f ≡ v % 2 ^ f.size_in_bits
      → integer_of_field frame f ≡ v
  held-integer f v frame h k held e = elim (Bool-cases f.is_signed) [
    | inl s ↦
        let signed = (rw s at held) in rw (s, e) (two_complement-mod f.size_in_bits v h k signed)
    | inr s ↦ let unsigned = (rw s at held) in rw (s, e) (mod-eq_of_lt unsigned)
  ]

  -- Round trip: where a little endian signal of 1 to 64 bits ends within a frame of at most 256
  -- bytes and can hold the number `v`, given by its 64 bits, extracting the signal from the frame
  -- with its bits replaced by those of `v` gives `v` back.
  pub extract_integer_signal_from_frame-pack :
      (frame : List ℕ) (f : CanSignalFormat D) (v : ℕ)
      → f.is_big_endian ≡ false
      → length frame ≤ 256
      → 1 ≤ f.size_in_bits
      → f.size_in_bits ≤ 64
      → f.first_bit_position + f.size_in_bits ≤ 8 * length frame
      → IsHeld f v
      → extract_integer_signal_from_frame (pack frame f v) f ≡ some v
  extract_integer_signal_from_frame-pack frame f v e l s k h held =
      extract_integer_signal_from_frame-field (pack frame f v) f (pack-IsPlaced frame f v e l s h) k
      ∙ ap some (held-integer f v (pack frame f v) s k held (pack-field frame f v e h))
