-- ===== src/Prelude/Bits.antt =====
-- `|` on words, digit by digit: the native operation is a recursion on binary digits whose fuel is
-- the first number, and more fuel gives the same digits.
use Prim.Native.Nat.{ℕ, zero, suc, ◌+◌, ◌*◌, ◌/◌, ◌%◌, ◌≤◌, max, digits, bit_or, bit_or-bitwise}
use mathlib.Core.Path.{◌≡◌, refl}
use native.Mathlib.Omega.{arith}

abbrev or_digits : ℕ → ℕ → ℕ → ℕ
or_digits = digits (λ high. high) max

same_digits : (f g x y : ℕ) → x ≤ f → x ≤ g → or_digits f x y ≡ or_digits g x y
same_digits (suc f) (suc g) (suc x) y p q =
    omega (arith, same_digits f g (suc x / 2) (y / 2) (omega arith) (omega arith))
same_digits (suc f) (suc g) zero y p q = refl
same_digits (suc f) zero zero y p q = refl
same_digits (suc f) zero (suc x) y p q = absurd (omega arith)
same_digits zero (suc g) zero y p q = refl
same_digits zero (suc g) (suc x) y p q = absurd (omega arith)
same_digits zero zero x y p q = refl

-- The lowest digit of `x | y`, and the others.
pub bit_or_digit : (x y : ℕ) → bit_or x y ≡ bit_or (x / 2) (y / 2) * 2 + max (x % 2) (y % 2)
bit_or_digit zero y = omega (arith, bit_or-bitwise 0 y, bit_or-bitwise 0 (y / 2))
bit_or_digit (suc x) y = omega (
  arith,
  bit_or-bitwise (suc x) y,
  bit_or-bitwise (suc x / 2) (y / 2),
  same_digits x (suc x / 2) (suc x / 2) (y / 2) (omega arith) (omega arith),
)

-- A digit beside a number that is even.
pub bit_or_even : (x y : ℕ) → bit_or x (y * 2) ≡ bit_or (x / 2) y * 2 + x % 2
bit_or_even x y =
    let e : y * 2 / 2 ≡ y = omega arith in
    let d : bit_or x (y * 2) ≡ bit_or (x / 2) y * 2 + max (x % 2) (y * 2 % 2) =
      (rw e at (bit_or_digit x (y * 2))) in
    omega arith

bit_or_crumb : (x y : ℕ) → bit_or x (y * 4) ≡ bit_or (x / 4) y * 4 + x % 4
bit_or_crumb x y =
    let e : y * 4 ≡ y * 2 * 2 = omega arith in
    let h : x / 2 / 2 ≡ x / 4 = omega arith in
    let l : bit_or (x / 2) (y * 2) ≡ bit_or (x / 4) y * 2 + x / 2 % 2 =
      (rw h at (bit_or_even (x / 2) y)) in
    rw e (omega (arith, bit_or_even x (y * 2)))

bit_or_nibble : (x y : ℕ) → bit_or x (y * 16) ≡ bit_or (x / 16) y * 16 + x % 16
bit_or_nibble x y =
    let e : y * 16 ≡ y * 4 * 4 = omega arith in
    let h : x / 4 / 4 ≡ x / 16 = omega arith in
    let l : bit_or (x / 4) (y * 4) ≡ bit_or (x / 16) y * 4 + x / 4 % 4 =
      (rw h at (bit_or_crumb (x / 4) y)) in
    rw e (omega (arith, bit_or_crumb x (y * 4)))

-- A byte beside a number that has none: the other digits, and the byte.
pub bit_or_byte : (x y : ℕ) → bit_or x (y * 256) ≡ bit_or (x / 256) y * 256 + x % 256
bit_or_byte x y =
    let e : y * 256 ≡ y * 16 * 16 = omega arith in
    let h : x / 16 / 16 ≡ x / 256 = omega arith in
    let l : bit_or (x / 16) (y * 16) ≡ bit_or (x / 256) y * 16 + x / 16 % 16 =
      (rw h at (bit_or_nibble (x / 16) y)) in
    rw e (omega (arith, bit_or_nibble x (y * 16)))
