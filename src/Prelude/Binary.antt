-- ===== src/Prelude/Binary.antt =====
-- The bit operations of the encoders as arithmetic.
use Prim.Native.Nat.{
  ℕ, zero, suc, ◌+◌, ◌*◌, ◌/◌, ◌%◌, ◌≤◌, ◌<◌, min, max, digits, bit_and, bit_or, bit_and-bitwise,
  bit_or-bitwise,
}
use mathlib.Core.Path.{◌≡◌, refl, ap, ◌∙◌, sym}
use native.Mathlib.Omega.{arith}

-- Any count of digits that is enough gives the same.
pub enough_digits :
    (z : ℕ → ℕ) (f : ℕ → ℕ → ℕ) (n m a b : ℕ) → a ≤ n → a ≤ m → digits z f n a b ≡ digits z f m a b
enough_digits z f zero zero zero b h k = refl
enough_digits z f zero (suc m) zero b h k = refl
enough_digits z f (suc n) zero zero b h k = refl
enough_digits z f (suc n) (suc m) zero b h k = refl
enough_digits z f zero m (suc a) b h k = absurd (omega arith)
enough_digits z f (suc n) zero (suc a) b h k = absurd (omega arith)
enough_digits z f (suc n) (suc m) (suc a) b h k =
    ap (λ d. d * 2 + f (suc a % 2) (b % 2))
      (enough_digits z f n m (suc a / 2) (b / 2) (omega arith) (omega arith))

-- One digit of an `and` and of an `or`.
pub and_digit : (a b : ℕ) → bit_and a b ≡ bit_and (a / 2) (b / 2) * 2 + min (a % 2) (b % 2)
and_digit zero b = omega (arith, bit_and-bitwise 0 b, bit_and-bitwise 0 (b / 2))
and_digit (suc a) b =
    bit_and-bitwise (suc a) b
    ∙ ap (λ d. d * 2 + min (suc a % 2) (b % 2))
        (enough_digits (λ k. zero) min a (suc a / 2) (suc a / 2) (b / 2) (omega arith) (omega arith)
          ∙ sym (bit_and-bitwise (suc a / 2) (b / 2)))

or_digit : (a b : ℕ) → bit_or a b ≡ bit_or (a / 2) (b / 2) * 2 + max (a % 2) (b % 2)
or_digit zero b = omega (arith, bit_or-bitwise 0 b, bit_or-bitwise 0 (b / 2))
or_digit (suc a) b =
    bit_or-bitwise (suc a) b
    ∙ ap (λ d. d * 2 + max (suc a % 2) (b % 2))
        (enough_digits (λ k. k) max a (suc a / 2) (suc a / 2) (b / 2) (omega arith) (omega arith)
          ∙ sym (bit_or-bitwise (suc a / 2) (b / 2)))

pub and_nothing : (n a : ℕ) → a ≤ n → bit_and a 0 ≡ 0
and_nothing zero zero h = bit_and-bitwise 0 0
and_nothing zero (suc a) h = absurd (omega arith)
and_nothing (suc n) zero h = bit_and-bitwise 0 0
and_nothing (suc n) (suc a) h =
    omega (arith, and_digit (suc a) 0, and_nothing n (suc a / 2) (omega arith))

or_nothing : (n a : ℕ) → a ≤ n → bit_or a 0 ≡ a
or_nothing zero zero h = bit_or-bitwise 0 0
or_nothing zero (suc a) h = absurd (omega arith)
or_nothing (suc n) zero h = bit_or-bitwise 0 0
or_nothing (suc n) (suc a) h =
    omega (arith, or_digit (suc a) 0, or_nothing n (suc a / 2) (omega arith))

-- A mask of five bits is a remainder.
pub and_31 : (a : ℕ) → bit_and a 31 ≡ a % 32
and_31 a = omega (
  arith,
  and_digit a 31,
  and_digit (a / 2) 15,
  and_digit (a / 2 / 2) 7,
  and_digit (a / 2 / 2 / 2) 3,
  and_digit (a / 2 / 2 / 2 / 2) 1,
  and_nothing (a / 2 / 2 / 2 / 2 / 2) (a / 2 / 2 / 2 / 2 / 2) (omega arith),
)

or_half : (a q b : ℕ) → a ≡ q * 2 → bit_or a b ≡ bit_or q (b / 2) * 2 + b % 2
or_half a q b e =
    let half : a / 2 ≡ q = omega arith in
    omega (arith, or_digit a b, ap (λ (k : ℕ). bit_or k (b / 2)) half)

or_nibble : (a q b c : ℕ) → a ≡ q * 16 → b / 16 ≡ c → bit_or a b ≡ bit_or q c * 16 + b % 16
or_nibble a q b c e h =
    let rest : b / 2 / 2 / 2 / 2 ≡ c = omega arith in
    omega (
      arith,
      or_half a (q * 8) b (omega arith),
      or_half (q * 8) (q * 4) (b / 2) (omega arith),
      or_half (q * 4) (q * 2) (b / 2 / 2) (omega arith),
      or_half (q * 2) q (b / 2 / 2 / 2) (omega arith),
      ap (bit_or q) rest,
    )

-- A byte below free bits is added.
pub or_byte : (q b : ℕ) → b < 256 → bit_or (q * 256) b ≡ q * 256 + b
or_byte q b h = omega (
  arith,
  or_nibble (q * 256) (q * 16) b (b / 16) (omega arith) refl,
  or_nibble (q * 16) q (b / 16) 0 (omega arith) (omega arith),
  or_nothing q q (omega arith),
)
