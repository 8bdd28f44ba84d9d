-- ===== src/Prelude/Xor.antt =====
-- The laws of the exclusive or that a checksum stands on.
use Prim.Native.Nat.{
  ℕ, zero, suc, ◌+◌, ◌-◌, ◌*◌, ◌/◌, ◌%◌, ◌^◌, ◌≤◌, ◌<◌, differ, bit_and, bit_xor, bit_xor-bitwise,
}
use native.Mathlib.Nat.{pow-suc, div-add-mod, div-div-eq-div-mul, mod-eq_of_lt, mod-lt, one-le-pow}
use mathlib.Core.Path.{◌≡◌, refl, ap, ap₂, ◌∙◌, sym}
use native.Mathlib.Omega.{arith}
use app_kaspa.Prelude.Binary.{enough_digits, and_digit, and_nothing}

differ_bits : (x y : ℕ) → x < 2 → y < 2 → differ x y ≡ (x + y) % 2
differ_bits zero y h k = omega arith
differ_bits (suc zero) zero h k = refl
differ_bits (suc zero) (suc zero) h k = refl
differ_bits (suc zero) (suc (suc y)) h k = absurd (omega arith)
differ_bits (suc (suc x)) y h k = absurd (omega arith)

-- One digit.
xor_digit : (a b : ℕ) → bit_xor a b ≡ bit_xor (a / 2) (b / 2) * 2 + (a + b) % 2
xor_digit zero b = omega (arith, bit_xor-bitwise 0 b, bit_xor-bitwise 0 (b / 2))
xor_digit (suc a) b =
    bit_xor-bitwise (suc a) b
    ∙ ap₂ (λ d e. d * 2 + e)
        (enough_digits (λ k. k) differ a (suc a / 2) (suc a / 2) (b / 2) (omega arith) (omega arith)
          ∙ sym (bit_xor-bitwise (suc a / 2) (b / 2)))
        (differ_bits (suc a % 2) (b % 2) (omega arith) (omega arith) ∙ omega arith)

pub xor_zero_left : (b : ℕ) → bit_xor 0 b ≡ b
xor_zero_left b = bit_xor-bitwise 0 b

comm_below : (n a b : ℕ) → a + b ≤ n → bit_xor a b ≡ bit_xor b a
comm_below zero zero zero h = refl
comm_below zero zero (suc b) h = absurd (omega arith)
comm_below zero (suc a) b h = absurd (omega arith)
comm_below (suc n) zero zero h = refl
comm_below (suc n) zero (suc b) h =
    omega
      (arith, xor_digit 0 (suc b), xor_digit (suc b) 0, comm_below n 0 (suc b / 2) (omega arith))
comm_below (suc n) (suc a) b h = omega (
  arith,
  xor_digit (suc a) b,
  xor_digit b (suc a),
  comm_below n (suc a / 2) (b / 2) (omega arith),
)

pub xor_comm : (a b : ℕ) → bit_xor a b ≡ bit_xor b a
xor_comm a b = comm_below (a + b) a b (omega arith)

pub xor_zero : (a : ℕ) → bit_xor a 0 ≡ a
xor_zero a = xor_comm a 0 ∙ xor_zero_left a

xor-half : (a b : ℕ) → bit_xor a b / 2 ≡ bit_xor (a / 2) (b / 2)
xor-half a b = omega (arith, xor_digit a b)

assoc_below : (n a b c : ℕ) → a + b + c ≤ n → bit_xor (bit_xor a b) c ≡ bit_xor a (bit_xor b c)
assoc_below zero a b c h =
    let none_left : a ≡ 0 = omega arith in
    let none_mid : b ≡ 0 = omega arith in
    let none_right : c ≡ 0 = omega arith in rw (none_left, none_mid, none_right) refl
assoc_below (suc n) a b c h = omega (
  arith,
  xor_digit (bit_xor a b) c,
  xor_digit a (bit_xor b c),
  xor_digit a b,
  xor_digit b c,
  ap (λ k. bit_xor k (c / 2)) (xor-half a b),
  ap (bit_xor (a / 2)) (xor-half b c),
  assoc_below n (a / 2) (b / 2) (c / 2) (omega arith),
)

pub xor_assoc : (a b c : ℕ) → bit_xor (bit_xor a b) c ≡ bit_xor a (bit_xor b c)
xor_assoc a b c = assoc_below (a + b + c) a b c (omega arith)

self_below : (n a : ℕ) → a ≤ n → bit_xor a a ≡ 0
self_below zero zero h = bit_xor-bitwise 0 0
self_below zero (suc a) h = absurd (omega arith)
self_below (suc n) zero h = bit_xor-bitwise 0 0
self_below (suc n) (suc a) h =
    omega (arith, xor_digit (suc a) (suc a), self_below n (suc a / 2) (omega arith))

pub xor_self : (a : ℕ) → bit_xor a a ≡ 0
xor_self a = self_below a a (omega arith)

-- One more binary digit.
div_more : (n a : ℕ) → a / 2 ^ suc n ≡ a / 2 / 2 ^ n
div_more n a =
    let e : 2 ^ suc n ≡ 2 * 2 ^ n = omega (arith, pow-suc 2 n) in
    ap (λ m. a / m) e ∙ sym (div-div-eq-div-mul a 2 (2 ^ n))

mod_more : (n a : ℕ) → a % 2 ^ suc n ≡ a / 2 % 2 ^ n * 2 + a % 2
mod_more n a = omega (
  arith,
  pow-suc 2 n,
  div_more n a,
  div-add-mod a (2 ^ suc n),
  div-add-mod (a / 2) (2 ^ n),
  ap (λ (m : ℕ). m * (a / 2 ^ suc n)) (pow-suc 2 n),
  ap (λ (q : ℕ). 2 ^ n * q) (div_more n a),
)

pub xor-div : (n a b : ℕ) → bit_xor a b / 2 ^ n ≡ bit_xor (a / 2 ^ n) (b / 2 ^ n)
xor-div zero a b =
    let e : a / 1 ≡ a = omega arith in let f : b / 1 ≡ b = omega arith in rw (e, f) (omega arith)
xor-div (suc n) a b =
    rw (div_more n (bit_xor a b), div_more n a, div_more n b, xor-half a b)
      (xor-div n (a / 2) (b / 2))

xor_bits :
    (x y d e : ℕ) → d < 2 → e < 2 → bit_xor (x * 2 + d) (y * 2 + e) ≡ bit_xor x y * 2 + (d + e) % 2
xor_bits x y d e h k =
    let half_x : (x * 2 + d) / 2 ≡ x = omega arith in
    let half_y : (y * 2 + e) / 2 ≡ y = omega arith in
    omega (arith, xor_digit (x * 2 + d) (y * 2 + e), ap₂ bit_xor half_x half_y)

pub xor-mod : (n a b : ℕ) → bit_xor a b % 2 ^ n ≡ bit_xor (a % 2 ^ n) (b % 2 ^ n)
xor-mod zero a b =
    let e : a % 1 ≡ 0 = omega arith in let f : b % 1 ≡ 0 = omega arith in rw (e, f) (omega arith)
xor-mod (suc n) a b =
    rw (mod_more n (bit_xor a b), mod_more n a, mod_more n b)
      (omega (
        arith,
        xor_digit a b,
        xor-mod n (a / 2) (b / 2),
        ap (λ k. k % 2 ^ n) (xor-half a b),
        xor_bits (a / 2 % 2 ^ n) (b / 2 % 2 ^ n) (a % 2) (b % 2) (omega arith) (omega arith),
      ))

pub xor-times : (n a b : ℕ) → bit_xor (a * 2 ^ n) (b * 2 ^ n) ≡ bit_xor a b * 2 ^ n
xor-times zero a b =
    let e : a * 1 ≡ a = omega arith in let f : b * 1 ≡ b = omega arith in rw (e, f) (omega arith)
xor-times (suc n) a b =
    let m = 2 ^ n in
    let e : a * 2 ^ suc n ≡ a * m * 2 + 0 = omega (arith, ap (λ (k : ℕ). a * k) (pow-suc 2 n)) in
    let f : b * 2 ^ suc n ≡ b * m * 2 + 0 = omega (arith, ap (λ (k : ℕ). b * k) (pow-suc 2 n)) in
    rw (e, f)
      (omega (
        arith,
        xor_bits (a * m) (b * m) 0 0 (omega arith) (omega arith),
        xor-times n a b,
        ap (λ (k : ℕ). bit_xor a b * k) (pow-suc 2 n),
      ))

-- Numbers of `n` binary digits.
pub xor-lt : (n a b : ℕ) → a < 2 ^ n → b < 2 ^ n → bit_xor a b < 2 ^ n
xor-lt n a b h k =
    let low = ap₂ bit_xor (mod-eq_of_lt h) (mod-eq_of_lt k) in
    omega (arith, xor-mod n a b, low, mod-lt (bit_xor a b) (one-le-pow n 2 (omega arith)))

-- Digits below free bits are added.
pub xor_add : (q d : ℕ) → d < 32 → bit_xor (q * 32) d ≡ q * 32 + d
xor_add q d h =
    let high : q * 32 / 32 ≡ q = omega arith in
    let none_high : d / 32 ≡ 0 = omega arith in
    let none_low : q * 32 % 32 ≡ 0 = omega arith in
    let low : d % 32 ≡ d = omega arith in
    omega (
      arith,
      xor-div 5 (q * 32) d,
      xor-mod 5 (q * 32) d,
      ap₂ bit_xor high none_high,
      ap₂ bit_xor none_low low,
      xor_zero q,
      xor_zero_left d,
    )

-- A mask of the low digits is a remainder.
pub and_mask : (n a : ℕ) → bit_and a (2 ^ n - 1) ≡ a % 2 ^ n
and_mask zero a = omega (arith, and_nothing a a (omega arith))
and_mask (suc n) a =
    let some_bit = one-le-pow n 2 (omega arith) in
    let half : (2 ^ suc n - 1) / 2 ≡ 2 ^ n - 1 = omega (arith, pow-suc 2 n) in
    let odd : (2 ^ suc n - 1) % 2 ≡ 1 = omega (arith, pow-suc 2 n) in
    omega (
      arith,
      and_digit a (2 ^ suc n - 1),
      ap (bit_and (a / 2)) half,
      odd,
      and_mask n (a / 2),
      mod_more n a,
    )
