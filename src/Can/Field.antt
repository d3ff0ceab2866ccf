-- ===== src/Can/Field.antt =====
-- Where a frame holds the bits of a signal, without the loops: the frame as one number, and the
-- bits from the first position on. For a big endian signal that is the number of the bytes up to the
-- first one of the signal, the highest byte first.
use aws_iot_fleetwise_edge.Prelude.{
  ℕ, zero, suc, ◌+◌, ◌*◌, ◌/◌, ◌%◌, ◌^◌, ◌<◌, List, [], ◌∷◌, some, length, get_or, get_elem?, All,
  if◌then◌else◌, ◌≡◌, refl, sym, arith,
}
use aws_iot_fleetwise_edge.Prelude.Fields.{pow-add}
use native.Mathlib.Nat.{div-one, zero-div, div-div-eq-div-mul}
use aws_iot_fleetwise_edge.Can.Types.{CanSignalFormat}

abbrev pub little_endian : List ℕ → ℕ
little_endian [] = 0
little_endian (b ∷ bs) = b + 256 * little_endian bs

-- Of the first bytes of a frame, as many as the number says.
abbrev pub big_endian : List ℕ → ℕ → ℕ
big_endian frame zero = 0
big_endian frame (suc n) = 256 * big_endian frame n + get_or frame n 0

abbrev pub field : {D : Type 0} → List ℕ → CanSignalFormat D → ℕ
field frame f =
    (if f.is_big_endian
      then big_endian frame (f.first_bit_position / 8 + 1) / 2 ^ (f.first_bit_position % 8)
      else little_endian frame / 2 ^ f.first_bit_position)
    % 2 ^ f.size_in_bits

-- The bytes of a frame are bytes.
abbrev pub AreBytes : List ℕ → Type 0
AreBytes = All (λ b. b < 256)

-- The number of the bytes from a position on.
abbrev pub little_endian_from : ℕ → List ℕ → ℕ
little_endian_from zero bs = little_endian bs
little_endian_from (suc n) [] = 0
little_endian_from (suc n) (b ∷ bs) = little_endian_from n bs

pub little_endian_from-step :
    (n : ℕ) (bs : List ℕ)
    → little_endian_from n bs ≡ get_or bs n 0 + 256 * little_endian_from (suc n) bs
little_endian_from-step zero [] = refl
little_endian_from-step (suc n) [] = refl
little_endian_from-step zero (b ∷ bs) = refl
little_endian_from-step (suc n) (b ∷ bs) = little_endian_from-step n bs

pub get_or-byte : (bs : List ℕ) (n : ℕ) → AreBytes bs → get_or bs n 0 < 256
get_or-byte [] n h = omega arith
get_or-byte (b ∷ bs) zero h = h.0
get_or-byte (b ∷ bs) (suc n) h = get_or-byte bs n h.1

pub get_elem-byte : (bs : List ℕ) (n : ℕ) → n < length bs → get_elem? bs n ≡ some (get_or bs n 0)
get_elem-byte [] n h = absurd (omega arith)
get_elem-byte (b ∷ bs) zero h = refl
get_elem-byte (b ∷ bs) (suc n) h = get_elem-byte bs n (omega arith)

pub little_endian-div :
    (n : ℕ) (bs : List ℕ) → AreBytes bs → little_endian bs / 2 ^ (8 * n) ≡ little_endian_from n bs
little_endian-div zero bs h = div-one (little_endian bs)
little_endian-div (suc n) [] h = zero-div (2 ^ (8 * suc n))
little_endian-div (suc n) (b ∷ bs) h =
    let e : 8 * suc n ≡ 8 + 8 * n = omega arith in
    let first : (b + 256 * little_endian bs) / 256 ≡ little_endian bs = omega (arith, h.0) in
    rw
      (
        e,
        pow-add 8 (8 * n),
        sym (div-div-eq-div-mul (b + 256 * little_endian bs) 256 (2 ^ (8 * n))),
        first,
      )
      (little_endian-div n bs h.1)
