-- ===== src/Can/Extracted.antt =====
-- What extractRawSignalFromFrame and extractIntegerSignalFromFrame give for a signal that lies in
-- its frame.
use Prim.Native.Nat.{bit_and}
use aws_iot_fleetwise_edge.Prelude.{
  ℕ, suc, ◌+◌, ◌-◌, ◌*◌, ◌/◌, ◌%◌, ◌^◌, ◌≤◌, ◌<◌, List, some, length, get_or, lt→ltb, if◌then◌else◌,
  ◌>>=◌, sub64, Bool-cases, inl, inr, ◌≡◌, refl, sym, ap, ◌∙◌, arith,
}
use aws_iot_fleetwise_edge.Prelude.Fields.{
  pow-add, bit_and_mask, ones-shifted, shift-sum, shifted-below,
}
use native.Mathlib.Nat.{div-div-eq-div-mul}
use aws_iot_fleetwise_edge.Can.Types.{CanSignalFormat}
use aws_iot_fleetwise_edge.Can.Extract.{
  residual_up, residual_down, extract_raw_signal_from_frame, residual_bytes, shift_right,
  byte_of_difference,
}
use aws_iot_fleetwise_edge.Can.Field.{
  AreBytes, field, little_endian, big_endian, little_endian_from, little_endian-div, get_or-byte,
  get_elem-byte, little_endian_from-step,
}
use aws_iot_fleetwise_edge.Can.Residual.{Gathers, residual_up-Gathers, residual_down-Gathers}

-- The mask keeps the bits of the signal.
mask-field :
    (w size r : ℕ)
    → 1 ≤ size
    → size ≤ w
    → w ≤ 64
    → (shift_right w (2 ^ w - 1) (sub64 w size) >>= λ mask. some (bit_and r mask))
      ≡ some (r % 2 ^ size)
mask-field w size r h k l =
    let e : sub64 w size ≡ w - size = omega arith in
    rw
      (
        e,
        shift_right,
        lt→ltb (w - size) w (omega arith),
        ones-shifted size w k,
        bit_and_mask size r,
      )
      refl

-- The first byte with the ones above, `v`.
first_byte :
    (byte n v : ℕ)
    → n ≤ 8
    → byte < 256
    → (byte / 2 ^ n < 2 ^ (8 - n)) × (byte / 2 ^ n + 2 ^ (8 - n) * v ≡ (byte + 256 * v) / 2 ^ n)
first_byte byte n v h k = (shifted-below n byte h k, sym (shift-sum n byte v h))

little_endian-shifted :
    (first_bit : ℕ) (frame : List ℕ)
    → AreBytes frame
    → little_endian frame / 2 ^ first_bit
      ≡ (get_or frame (first_bit / 8) 0 + 256 * little_endian_from (first_bit / 8 + 1) frame)
        / 2 ^ (first_bit % 8)
little_endian-shifted first_bit frame bytes =
    let s = first_bit / 8 in
    let n = first_bit % 8 in
    let e : first_bit ≡ 8 * s + n = omega arith in
    let next : s + 1 ≡ suc s = omega arith in
    ap (λ k. little_endian frame / 2 ^ k) e
    ∙ (rw
        (
          pow-add (8 * s) n,
          sym (div-div-eq-div-mul (little_endian frame) (2 ^ (8 * s)) (2 ^ n)),
          little_endian-div s frame bytes,
          little_endian_from-step s frame,
          next,
        )
        refl)

up-Gathers :
    (w size first_bit : ℕ) (frame : List ℕ)
    → AreBytes frame
    → length frame ≤ 256
    → first_bit / 8 < length frame
    → 1 ≤ size
    → size ≤ (length frame - first_bit / 8) * 8 - first_bit % 8
    → size ≤ w
    → w ≤ 64
    → Gathers size
        (residual_up w frame
          (byte_of_difference (first_bit + size) 1 - first_bit / 8 % 2 ^ 8)
          (first_bit / 8 % 2 ^ 8 + 1)
          (get_or frame (first_bit / 8) 0 / 2 ^ (first_bit % 8))
          (8 - first_bit % 8))
        (little_endian frame / 2 ^ first_bit)
up-Gathers w size first_bit frame bytes long first least placed hs hw =
    let s = first_bit / 8 in
    let n = first_bit % 8 in
    let rounds : byte_of_difference (first_bit + size) 1 - s % 2 ^ 8
        ≡ (first_bit + size - 1) / 8 - s =
      ground arith in
    let start : s % 2 ^ 8 ≡ s = omega arith in
    let low =
      first_byte (get_or frame s 0) n (little_endian_from (s + 1) frame) (omega arith)
        (get_or-byte frame s bytes) in
    let gathers =
      residual_up-Gathers w size frame bytes hs hw ((first_bit + size - 1) / 8 - s) (s + 1)
        (get_or frame s 0 / 2 ^ n) (8 - n) (omega arith) (omega arith) (omega arith) low.0 in
    rw (rounds, start, little_endian-shifted first_bit frame bytes, sym low.1) gathers

down-Gathers :
    (w size first_bit : ℕ) (frame : List ℕ)
    → AreBytes frame
    → length frame ≤ 256
    → first_bit / 8 < length frame
    → 1 ≤ size
    → size ≤ (first_bit / 8 + 1) * 8 - first_bit % 8
    → size ≤ w
    → w ≤ 64
    → Gathers size
        (residual_down w frame
          (first_bit / 8 % 2 ^ 8
            - byte_of_difference (first_bit / 8 % 2 ^ 8 * 8 + 8) (first_bit % 8 + size))
          (first_bit / 8 % 2 ^ 8 - 1)
          (get_or frame (first_bit / 8) 0 / 2 ^ (first_bit % 8))
          (8 - first_bit % 8))
        (big_endian frame (first_bit / 8 + 1) / 2 ^ (first_bit % 8))
down-Gathers w size first_bit frame bytes long first least placed hs hw =
    let s = first_bit / 8 in
    let n = first_bit % 8 in
    let start : s % 2 ^ 8 ≡ s = omega arith in
    let end : byte_of_difference (s * 8 + 8) (n + size) ≡ (s * 8 + 8 - (n + size)) / 8 =
      ground arith in
    let low =
      first_byte (get_or frame s 0) n (big_endian frame s) (omega arith)
        (get_or-byte frame s bytes) in
    let gathers =
      residual_down-Gathers w size frame bytes hs hw (s - (s * 8 + 8 - (n + size)) / 8) s
        (get_or frame s 0 / 2 ^ n) (8 - n) (omega arith) (omega arith) (omega arith) (omega arith)
        low.0 in
    let next : s + 1 ≡ suc s = omega arith in
    let swapped : 256 * big_endian frame s + get_or frame s 0
        ≡ get_or frame s 0 + 256 * big_endian frame s =
      omega arith in
    rw (start, end, next, swapped, sym low.1) gathers

module _ {D : Type 0} where
  -- The bits of a frame from the first bit of a signal on, in the direction of the signal.
  abbrev pub room : List ℕ → CanSignalFormat D → ℕ
  room frame f =
      (if f.is_big_endian
          then f.first_bit_position / 8 + 1
          else length frame - f.first_bit_position / 8)
        * 8
      - f.first_bit_position % 8

  -- A signal lies in a frame of at most 256 bytes: its first byte does, and its bits have room.
  abbrev pub IsPlaced : List ℕ → CanSignalFormat D → Type 0
  IsPlaced frame f =
      AreBytes frame
      × (length frame ≤ 256)
      × (f.first_bit_position / 8 < length frame)
      × (1 ≤ f.size_in_bits)
      × (f.size_in_bits ≤ room frame f)

  residual_bytes-Gathers :
      (w : ℕ) (frame : List ℕ) (f : CanSignalFormat D)
      → IsPlaced frame f
      → f.size_in_bits ≤ w
      → w ≤ 64
      → Gathers f.size_in_bits
          (residual_bytes w frame f
            (get_or frame (f.first_bit_position / 8) 0 / 2 ^ (f.first_bit_position % 8)))
          (if f.is_big_endian
            then big_endian frame (f.first_bit_position / 8 + 1) / 2 ^ (f.first_bit_position % 8)
            else little_endian frame / 2 ^ f.first_bit_position)
  unfolding residual_bytes
  residual_bytes-Gathers w frame f (bytes, long, first, least, placed) hs hw =
      elim (Bool-cases f.is_big_endian) [
        | inl e ↦ rw e (
            let room_down = (rw e at placed) in
            down-Gathers w f.size_in_bits f.first_bit_position frame bytes long first least
              room_down hs hw)
        | inr e ↦ rw e (
            let room_up = (rw e at placed) in
            up-Gathers w f.size_in_bits f.first_bit_position frame bytes long first least room_up hs
              hw)
      ]

  -- For a signal of at least one bit and at most the `w` ≤ 64 bits of the word that lies in a frame
  -- of at most 256 bytes, extractRawSignalFromFrame reads within the frame, shifts by less than the
  -- word, and gives the field of the frame, in either byte order.
  pub extract_raw_signal_from_frame-field :
      (w : ℕ) (frame : List ℕ) (f : CanSignalFormat D)
      → IsPlaced frame f
      → f.size_in_bits ≤ w
      → w ≤ 64
      → extract_raw_signal_from_frame w frame f ≡ some (field frame f)
  unfolding extract_raw_signal_from_frame
  extract_raw_signal_from_frame-field w frame f placed hs hw =
      let start : f.first_bit_position / 8 % 2 ^ 8 ≡ f.first_bit_position / 8 =
        omega (arith, placed.1, placed.2) in
      let (r, returned, bits) = residual_bytes-Gathers w frame f placed hs hw in
      rw
        (
          start,
          get_elem-byte frame (f.first_bit_position / 8) placed.2,
          returned,
          mask-field w f.size_in_bits r placed.3 hs hw,
        )
        (ap some bits)
