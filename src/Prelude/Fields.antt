-- ===== src/Prelude/Fields.antt =====
-- Fields of bits in a word: `|` of numbers that share no digit, `&` with a mask, `^` with a single
-- bit, and powers of two.
use Prim.Native.Nat.{
  ℕ, zero, suc, ◌+◌, ◌-◌, ◌*◌, ◌/◌, ◌%◌, ◌^◌, ◌≤◌, ◌<◌, min, differ, digits, bit_or, bit_and,
  bit_xor, bit_and-bitwise, bit_or-bitwise, bit_xor-bitwise,
}
use mathlib.Core.Path.{◌≡◌, refl, sym, ap, ◌∙◌, subst}
use native.Mathlib.Omega.{arith}
use native.Mathlib.Nat.{
  pow-suc, mul_assoc, one-le-pow, div-add-mod', add-mul-mod_self_right, add-mul-mod_self_left,
  mul_comm, mul-lt-mul_of_pos_right, mod-add-div', add-mul, div-eq_of_lt-le, div-lt_iff_lt-mul,
  add-mul-div_left, suc-mul, mod-eq_of_lt, mod-lt,
}
use aws_iot_fleetwise_edge.Prelude.Bits.{bit_or_even}

pub pow-add : (n m : ℕ) → 2 ^ (n + m) ≡ 2 ^ n * 2 ^ m
pow-add n zero = let e : n + 0 ≡ n = omega arith in rw e (omega arith)
pow-add n (suc m) =
    let e : n + suc m ≡ suc (n + m) = omega arith in
    rw (e, pow-suc 2 (n + m), pow-suc 2 m, pow-add n m, mul_assoc (2 ^ n) (2 ^ m) 2) refl

pub pow-positive : (n : ℕ) → 0 < 2 ^ n
pow-positive n = one-le-pow n 2 (omega arith)

pub bit_or_field : (n x y : ℕ) → x < 2 ^ n → bit_or x (y * 2 ^ n) ≡ x + y * 2 ^ n
bit_or_field zero zero y h = omega (arith, bit_or-bitwise 0 (y * 2 ^ 0))
bit_or_field zero (suc x) y h = absurd (omega arith)
bit_or_field (suc n) x y h =
    let e : y * 2 ^ suc n ≡ y * 2 ^ n * 2 = rw (pow-suc 2 n, mul_assoc y (2 ^ n) 2) refl in
    let below : x / 2 < 2 ^ n = omega arith in
    rw e (omega (arith, bit_or_even x (y * 2 ^ n), bit_or_field n (x / 2) y below))

-- The digits of `&` and of `^`, with any fuel that is enough.
fuel_is_free :
    (z : ℕ → ℕ) (f : ℕ → ℕ → ℕ) (n m x y : ℕ) → x ≤ n → x ≤ m → digits z f n x y ≡ digits z f m x y
fuel_is_free z f zero zero x y h k = refl
fuel_is_free z f zero (suc m) zero y h k = refl
fuel_is_free z f zero (suc m) (suc x) y h k = absurd (omega arith)
fuel_is_free z f (suc n) zero zero y h k = refl
fuel_is_free z f (suc n) zero (suc x) y h k = absurd (omega arith)
fuel_is_free z f (suc n) (suc m) zero y h k = refl
fuel_is_free z f (suc n) (suc m) (suc x) y h k =
    rw (fuel_is_free z f n m (suc x / 2) (y / 2) (omega arith) (omega arith)) refl

bit_and_digit : (x y : ℕ) → bit_and x y ≡ bit_and (x / 2) (y / 2) * 2 + min (x % 2) (y % 2)
bit_and_digit zero y = omega (arith, bit_and-bitwise 0 y, bit_and-bitwise 0 (y / 2))
bit_and_digit (suc x) y = omega (
  arith,
  bit_and-bitwise (suc x) y,
  bit_and-bitwise (suc x / 2) (y / 2),
  fuel_is_free (λ b. zero) min x (suc x / 2) (suc x / 2) (y / 2) (omega arith) (omega arith),
)

bit_xor_digit : (x y : ℕ) → bit_xor x y ≡ bit_xor (x / 2) (y / 2) * 2 + differ (x % 2) (y % 2)
bit_xor_digit zero y = omega (arith, bit_xor-bitwise 0 y, bit_xor-bitwise 0 (y / 2))
bit_xor_digit (suc x) y =
    rw
      (
        bit_xor-bitwise (suc x) y,
        bit_xor-bitwise (suc x / 2) (y / 2),
        fuel_is_free (λ b. b) differ x (suc x / 2) (suc x / 2) (y / 2) (omega arith) (omega arith),
      )
      refl

differ-zero : (x : ℕ) → differ x 0 ≡ x
differ-zero zero = refl
differ-zero (suc x) = refl

-- The remainder by a power of two, digit by digit.
mod_pow_digit : (n x : ℕ) → x % 2 ^ suc n ≡ x / 2 % 2 ^ n * 2 + x % 2
mod_pow_digit n x =
    let p = pow-positive n in
    let q = x / 2 / 2 ^ n in
    let r = x / 2 % 2 ^ n * 2 + x % 2 in
    let small : r < 2 ^ suc n = omega (arith, mod-lt (x / 2) p) in
    let split : x ≡ r + q * 2 ^ suc n =
      (rw (pow-suc 2 n, sym (mul_assoc q (2 ^ n) 2))
        (omega (arith, div-add-mod' (x / 2) (2 ^ n)))) in
    ap (λ z. z % 2 ^ suc n) split ∙ add-mul-mod_self_right r q (2 ^ suc n) ∙ mod-eq_of_lt small

no_digit_in_common : (n x : ℕ) → digits (λ b. zero) min n x 0 ≡ 0
no_digit_in_common zero x = refl
no_digit_in_common (suc n) zero = refl
no_digit_in_common (suc n) (suc x) = omega (arith, no_digit_in_common n (suc x / 2))

pub bit_and_mask : (n x : ℕ) → bit_and x (2 ^ n - 1) ≡ x % 2 ^ n
bit_and_mask zero x = omega (arith, bit_and-bitwise x 0, no_digit_in_common x x)
bit_and_mask (suc n) x =
    let p = pow-positive n in
    let half : (2 ^ suc n - 1) / 2 ≡ 2 ^ n - 1 = omega arith in
    let odd : (2 ^ suc n - 1) % 2 ≡ 1 = omega arith in
    let rest : bit_and (x / 2) ((2 ^ suc n - 1) / 2) ≡ x / 2 % 2 ^ n =
      (rw half (bit_and_mask n (x / 2))) in
    rw (bit_and_digit x (2 ^ suc n - 1), rest, odd) (omega (arith, mod_pow_digit n x))

-- The single bit `2 ^ n` is set where it is clear, and cleared where it is set.
pub bit_xor_set : (n x : ℕ) → x < 2 ^ n → bit_xor x (2 ^ n) ≡ x + 2 ^ n
bit_xor_set zero zero h = refl
bit_xor_set zero (suc x) h = absurd (omega arith)
bit_xor_set (suc n) x h =
    let half : 2 ^ suc n / 2 ≡ 2 ^ n = omega arith in
    let even : 2 ^ suc n % 2 ≡ 0 = omega arith in
    let rest : bit_xor (x / 2) (2 ^ suc n / 2) ≡ x / 2 + 2 ^ n =
      (rw half (bit_xor_set n (x / 2) (omega arith))) in
    rw (bit_xor_digit x (2 ^ suc n), rest, even, differ-zero (x % 2)) (omega arith)

pub bit_xor_clear : (n x : ℕ) → 2 ^ n ≤ x → x < 2 ^ suc n → bit_xor x (2 ^ n) ≡ x - 2 ^ n
bit_xor_clear zero zero h k = absurd (omega arith)
bit_xor_clear zero (suc zero) h k = refl
bit_xor_clear zero (suc (suc x)) h k = absurd (omega arith)
bit_xor_clear (suc n) x h k =
    let half : 2 ^ suc n / 2 ≡ 2 ^ n = omega arith in
    let even : 2 ^ suc n % 2 ≡ 0 = omega arith in
    let rest : bit_xor (x / 2) (2 ^ suc n / 2) ≡ x / 2 - 2 ^ n =
      (rw half (bit_xor_clear n (x / 2) (omega arith) (omega arith))) in
    rw (bit_xor_digit x (2 ^ suc n), rest, even, differ-zero (x % 2)) (omega arith)

-- A power as a product of two.
pub pow_split : (s n : ℕ) → s ≤ n → 2 ^ n ≡ 2 ^ s * 2 ^ (n - s)
pow_split s n h = let e : n ≡ s + (n - s) = omega arith in ap (λ k. 2 ^ k) e ∙ pow-add s (n - s)

-- What lies above a word does not show below.
pub mod-above : (s n x v : ℕ) → s ≤ n → (x + 2 ^ n * v) % 2 ^ s ≡ x % 2 ^ s
mod-above s n x v h =
    rw (pow_split s n h, mul_assoc (2 ^ s) (2 ^ (n - s)) v)
      (add-mul-mod_self_left x (2 ^ s) (2 ^ (n - s) * v))

-- A shift to the left within a word keeps whole multiples.
pub shifted-mod : (w n b : ℕ) → n ≤ w → b * 2 ^ n % 2 ^ w ≡ b % 2 ^ (w - n) * 2 ^ n
shifted-mod w n b h =
    let m = 2 ^ (w - n) in
    let r = b % m in
    let q = b / m in
    let p : 2 ^ w ≡ m * 2 ^ n = pow_split n w h ∙ mul_comm (2 ^ n) m in
    let small : r * 2 ^ n < m * 2 ^ n =
      mul-lt-mul_of_pos_right (mod-lt b (pow-positive (w - n))) (pow-positive n) in
    let split : b * 2 ^ n ≡ r * 2 ^ n + q * (m * 2 ^ n) =
      ap (λ z. z * 2 ^ n) (sym (mod-add-div' b m))
      ∙ add-mul r (q * m) (2 ^ n)
      ∙ ap (λ z. r * 2 ^ n + z) (mul_assoc q m (2 ^ n)) in
    rw (p, split, add-mul-mod_self_right (r * 2 ^ n) q (m * 2 ^ n)) (mod-eq_of_lt small)

one_less-div : (n k : ℕ) → 0 < k → (suc n * k - 1) / k ≡ n
one_less-div n k h =
    let e : n + 1 ≡ suc n = omega arith in
    let low : n * k ≤ suc n * k - 1 = omega (arith, suc-mul n k) in
    let high : suc n * k - 1 < (n + 1) * k = rw e (omega (arith, suc-mul n k)) in
    div-eq_of_lt-le k low high

-- A mask of ones from a word of ones.
pub ones-shifted : (s w : ℕ) → s ≤ w → (2 ^ w - 1) / 2 ^ (w - s) ≡ 2 ^ s - 1
ones-shifted s w h =
    let k = 2 ^ (w - s) in
    let e : suc (2 ^ s - 1) ≡ 2 ^ s = omega (arith, pow-positive s) in
    let p : 2 ^ w ≡ suc (2 ^ s - 1) * k = pow_split s w h ∙ ap (λ z. z * k) (sym e) in
    rw p (one_less-div (2 ^ s - 1) k (pow-positive (w - s)))

-- A number with a byte below: a shift by fewer bits than a byte.
pub shift-sum : (n b x : ℕ) → n ≤ 8 → (b + 256 * x) / 2 ^ n ≡ b / 2 ^ n + 2 ^ (8 - n) * x
shift-sum n b x h =
    let p : 256 ≡ 2 ^ n * 2 ^ (8 - n) = pow_split n 8 h in
    let e : b + 256 * x ≡ b + 2 ^ n * (2 ^ (8 - n) * x) =
      ap (λ z. b + z * x) p ∙ ap (λ z. b + z) (mul_assoc (2 ^ n) (2 ^ (8 - n)) x) in
    ap (λ z. z / 2 ^ n) e ∙ add-mul-div_left b (2 ^ (8 - n) * x) (pow-positive n)

pub shifted-below : (n b : ℕ) → n ≤ 8 → b < 256 → b / 2 ^ n < 2 ^ (8 - n)
shifted-below n b h k =
    let p : 256 ≡ 2 ^ (8 - n) * 2 ^ n = pow_split n 8 h ∙ mul_comm (2 ^ n) (2 ^ (8 - n)) in
    (div-lt_iff_lt-mul (pow-positive n)).1 (subst (λ z. b < z) p k)
