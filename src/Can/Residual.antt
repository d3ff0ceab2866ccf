-- ===== src/Can/Residual.antt =====
-- The loops of extractRawSignalFromFrame: what the bytes that they add make of the result.
use Prim.Native.Nat.{bit_or}
use aws_iot_fleetwise_edge.Prelude.{
  ℕ, zero, suc, ◌+◌, ◌-◌, ◌*◌, ◌/◌, ◌%◌, ◌^◌, ◌≤◌, ◌<◌, List, Option, some, length, get_or, lt→ltb,
  ◌≡◌, refl, sym, ap, ◌∙◌, arith,
}
use aws_iot_fleetwise_edge.Prelude.Fields.{pow-add, bit_or_field, mod-above, shifted-mod, pow_split}
use native.Mathlib.Nat.{mod-le, mul-le-mul_right, div-add-mod'}
use aws_iot_fleetwise_edge.Can.Extract.{shift_left, add_byte, residual_up, residual_down}
use aws_iot_fleetwise_edge.Can.Field.{
  AreBytes, big_endian, little_endian_from, little_endian_from-step, get_or-byte, get_elem-byte,
}

-- What one more byte makes of the result: it stays below its length, and the bits of the signal are
-- as if the byte and any number `v` of higher ones were added without bounds.
abbrev Longer : (size result result_length byte longer : ℕ) → Type 0
Longer size result result_length byte longer =
    (longer < 2 ^ (result_length + 8))
    × ((v : ℕ)
        → (longer + 2 ^ (result_length + 8) * v) % 2 ^ size
          ≡ (result + 2 ^ result_length * (byte + 256 * v)) % 2 ^ size)

-- Below the next length.
below-longer :
    (w n result byte : ℕ)
    → n ≤ w
    → byte < 256
    → result < 2 ^ n
    → result + byte % 2 ^ (w - n) * 2 ^ n < 2 ^ (n + 8)
below-longer w n result byte h b r =
    let small : byte % 2 ^ (w - n) ≤ 255 = omega (arith, mod-le byte (2 ^ (w - n))) in
    rw (pow-add n 8) (omega (arith, mul-le-mul_right (2 ^ n) small))

rearrange : (x n m q r v : ℕ) → x + r * n + n * 256 * v + n * m * q ≡ x + n * (q * m + r + 256 * v)
rearrange x n m q r v = grind arith

same_bits :
    (w size n result byte v : ℕ)
    → size ≤ w
    → n ≤ w
    → (result + byte % 2 ^ (w - n) * 2 ^ n + 2 ^ (n + 8) * v) % 2 ^ size
      ≡ (result + 2 ^ n * (byte + 256 * v)) % 2 ^ size
same_bits w size n result byte v hs hn =
    let m = 2 ^ (w - n) in
    let all = result + byte % m * 2 ^ n + 2 ^ (n + 8) * v in
    let e : all + 2 ^ w * (byte / m) ≡ result + 2 ^ n * (byte / m * m + byte % m + 256 * v) =
      (rw (pow-add n 8, pow_split n w hn) (rearrange result (2 ^ n) m (byte / m) (byte % m) v)) in
    sym (mod-above size w all (byte / m) hs)
    ∙ ap (λ z. z % 2 ^ size) e
    ∙ ap (λ z. (result + 2 ^ n * (z + 256 * v)) % 2 ^ size) (div-add-mod' byte m)

byte-Longer :
    (w size n result byte : ℕ)
    → size ≤ w
    → n ≤ w
    → byte < 256
    → result < 2 ^ n
    → Longer size result n byte (bit_or result (byte * 2 ^ n % 2 ^ w))
byte-Longer w size n result byte hs hn hb hr =
    let joined : bit_or result (byte * 2 ^ n % 2 ^ w) ≡ result + byte % 2 ^ (w - n) * 2 ^ n =
      (rw (shifted-mod w n byte hn) (bit_or_field n result (byte % 2 ^ (w - n)) hr)) in
    rw joined (below-longer w n result byte hn hb hr, λ v. same_bits w size n result byte v hs hn)

add_byte-Longer :
    (w size : ℕ) (frame : List ℕ) (count result n : ℕ)
    → AreBytes frame
    → size ≤ w
    → n < w
    → count < length frame
    → result < 2 ^ n
    → (longer : ℕ) × (add_byte w frame count result n ≡ some longer)
      × Longer size result n (get_or frame count 0) longer
add_byte-Longer w size frame count result n bytes hs hn hc hr =
    let b = get_or frame count 0 in
    (
      bit_or result (b * 2 ^ n % 2 ^ w),
      rw (get_elem-byte frame count hc, lt→ltb n w hn, shift_left, add_byte) refl,
      byte-Longer w size n result b hs (omega arith) (get_or-byte frame count bytes) hr,
    )

-- The loops end, and the result has the bits of the signal.
abbrev pub Gathers : (size : ℕ) → Option ℕ → ℕ → Type 0
Gathers size o v = (r : ℕ) × (o ≡ some r) × (r % 2 ^ size ≡ v % 2 ^ size)

module _ (w size : ℕ) (frame : List ℕ) (bytes : AreBytes frame) (hs : size ≤ w) (hw : w ≤ 64) where
  pub residual_up-Gathers :
      (rounds count result n : ℕ)
      → count + rounds ≤ length frame
      → size ≤ n + 8 * rounds
      → n + 8 * rounds < w + 8
      → result < 2 ^ n
      → Gathers size
          (residual_up w frame rounds count result n)
          (result + 2 ^ n * little_endian_from count frame)
  unfolding residual_up
  residual_up-Gathers zero count result n hc hn hr h =
      (result, refl, sym (mod-above size n result (little_endian_from count frame) (omega arith)))
  residual_up-Gathers (suc rounds) count result n hc hn hr h =
      let (longer, e, (below, same)) =
        add_byte-Longer w size frame count result n bytes hs (omega arith) (omega arith) h in
      let (r, returned, bits) =
        residual_up-Gathers rounds (count + 1) longer (n + 8) (omega arith) (omega arith)
          (omega arith) below in
      let wide : (n + 8) % 2 ^ 8 ≡ n + 8 = omega arith in
      let next : count + 1 ≡ suc count = omega arith in
      (
        r,
        rw (e, wide) returned,
        rw (little_endian_from-step count frame, sym next)
            (bits ∙ same (little_endian_from (count + 1) frame)),
      )

  pub residual_down-Gathers :
      (rounds count result n : ℕ)
      → rounds ≤ count
      → count ≤ length frame
      → size ≤ n + 8 * rounds
      → n + 8 * rounds < w + 8
      → result < 2 ^ n
      → Gathers size
          (residual_down w frame rounds (count - 1) result n)
          (result + 2 ^ n * big_endian frame count)
  unfolding residual_down
  residual_down-Gathers zero count result n hc hl hn hr h =
      (result, refl, sym (mod-above size n result (big_endian frame count) (omega arith)))
  residual_down-Gathers (suc rounds) zero result n hc hl hn hr h = absurd (omega arith)
  residual_down-Gathers (suc rounds) (suc count) result n hc hl hn hr h =
      let (longer, e, (below, same)) =
        add_byte-Longer w size frame count result n bytes hs (omega arith) (omega arith) h in
      let (r, returned, bits) =
        residual_down-Gathers rounds count longer (n + 8) (omega arith) (omega arith) (omega arith)
          (omega arith) below in
      let wide : (n + 8) % 2 ^ 8 ≡ n + 8 = omega arith in
      let swapped : 256 * big_endian frame count + get_or frame count 0
          ≡ get_or frame count 0 + 256 * big_endian frame count =
        omega arith in
      let less : suc count - 1 ≡ count = omega arith in
      (r, rw (less, e, wide) returned, rw swapped (bits ∙ same (big_endian frame count)))
