-- ===== src/Can/Signed.antt =====
-- The sign extension of extractIntegerSignalFromFrame, as two's complement numbers.
use Prim.Native.Nat.{bit_xor}
use aws_iot_fleetwise_edge.Prelude.{
  ℕ, suc, ◌+◌, ◌-◌, ◌*◌, ◌^◌, ◌≤◌, ◌<◌, List, some, ltb, lt→ltb, ltb→lt, if◌then◌else◌, sub64,
  Bool-cases, inl, inr, ◌≡◌, refl, sym, ap, ◌∙◌, arith,
}
use aws_iot_fleetwise_edge.Prelude.Fields.{bit_xor_set, bit_xor_clear, pow-positive}
use native.Mathlib.Nat.{mod-lt, pow-suc, pow-le-pow_right, mod-eq_of_lt}
use aws_iot_fleetwise_edge.Can.Types.{CanSignalFormat}
use aws_iot_fleetwise_edge.Can.Extract.{extract_integer_signal_from_frame, shift_left}
use aws_iot_fleetwise_edge.Can.Field.{field}
use aws_iot_fleetwise_edge.Can.Extracted.{IsPlaced, extract_raw_signal_from_frame-field}

-- The 64 bits of the two's complement number that the lower `size` bits `raw` stand for.
abbrev pub two_complement : ℕ → ℕ → ℕ
two_complement size raw = if ltb raw (2 ^ (size - 1)) then raw else raw + 2 ^ 64 - 2 ^ size

sign_extension :
    (size raw : ℕ)
    → 1 ≤ size
    → size ≤ 64
    → raw < 2 ^ size
    → sub64 (bit_xor raw (2 ^ (size - 1))) (2 ^ (size - 1)) ≡ two_complement size raw
sign_extension size raw h k r =
    let half = 2 ^ (size - 1) in
    let e : suc (size - 1) ≡ size = omega arith in
    let double : half * 2 ≡ 2 ^ size = sym (pow-suc 2 (size - 1)) ∙ ap (λ n. 2 ^ n) e in
    let word : 2 ^ size ≤ 2 ^ 64 = pow-le-pow_right (omega arith) k in
    elim (Bool-cases (ltb raw half)) [
      | inl t ↦ rw (t, bit_xor_set (size - 1) raw (ltb→lt raw half t)) (omega arith)
      | inr t ↦
          let above : half ≤ raw = ground arith in
          let below : raw < 2 ^ suc (size - 1) = (rw e r) in
          rw (t, bit_xor_clear (size - 1) raw above below) (omega arith)
    ]

single_bit : (n : ℕ) → n < 64 → shift_left 64 1 n ≡ some (2 ^ n)
single_bit n h =
    let word : 2 ^ suc n ≤ 2 ^ 64 = pow-le-pow_right (omega arith) h in
    let below : 1 * 2 ^ n < 2 ^ 64 = omega (arith, pow-suc 2 n, pow-positive n) in
    let e : 1 * 2 ^ n ≡ 2 ^ n = omega arith in
    rw (lt→ltb n 64 h, shift_left, mod-eq_of_lt below) (ap some e)

module _ {D : Type 0} where
  -- The 64 bits of the number that the field stands for.
  abbrev pub integer_of_field : List ℕ → CanSignalFormat D → ℕ
  integer_of_field frame f =
      if f.is_signed then two_complement f.size_in_bits (field frame f) else field frame f

  field-below : (frame : List ℕ) (f : CanSignalFormat D) → field frame f < 2 ^ f.size_in_bits
  field-below frame f = mod-lt _ (pow-positive f.size_in_bits)

  -- For a signal of 1 to 64 bits that lies in a frame of at most 256 bytes,
  -- extractIntegerSignalFromFrame is defined and gives the field, as a two's complement number where
  -- the signal is signed.
  pub extract_integer_signal_from_frame-field :
      (frame : List ℕ) (f : CanSignalFormat D)
      → IsPlaced frame f
      → f.size_in_bits ≤ 64
      → extract_integer_signal_from_frame frame f ≡ some (integer_of_field frame f)
  unfolding extract_integer_signal_from_frame
  extract_integer_signal_from_frame-field frame f placed small =
      let raw = extract_raw_signal_from_frame-field 64 frame f placed small (omega arith) in
      let e : sub64 f.size_in_bits 1 ≡ f.size_in_bits - 1 = omega (arith, placed.3) in
      let mask : shift_left 64 1 (f.size_in_bits - 1) ≡ some (2 ^ (f.size_in_bits - 1)) =
        single_bit (f.size_in_bits - 1) (omega (arith, placed.3)) in
      elim (Bool-cases f.is_signed) [
        | inl s ↦
            rw (raw, s, e, mask)
              (ap some (
                sign_extension f.size_in_bits (field frame f) placed.3 small (field-below frame f)))
        | inr s ↦ rw (raw, s) refl
      ]
