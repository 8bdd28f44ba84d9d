-- ===== src/Cashaddr/Linear.antt =====
-- The step of the checksum in import/cashaddr.c as a linear map over the binary digits.
use app_kaspa.Prelude.{
  ℕ, ◌*◌, ◌/◌, ◌%◌, ◌^◌, ◌<◌, ◌≡◌, refl, sym, ap, ap₂, ◌∙◌, arith, bit_and, bit_xor,
}
use app_kaspa.Prelude.Xor.{
  xor_zero, xor_comm, xor_assoc, xor-div, xor-mod, xor-times, xor-lt, and_mask,
}
use app_kaspa.Cashaddr.{masked, cashaddr_polymod_step}

-- A term moves past another one.
slide : (a x m : ℕ) → bit_xor (bit_xor a x) m ≡ bit_xor (bit_xor a m) x
slide a x m = xor_assoc a x m ∙ ap (bit_xor a) (xor_comm x m) ∙ sym (xor_assoc a m x)

abbrev generators : ℕ → ℕ → ℕ
generators b s =
    bit_xor
      (bit_xor
        (bit_xor (bit_xor (bit_xor s (masked b 0 0x98f2bc8e61)) (masked b 1 0x79b76d99e2))
          (masked b 2 0xf33e5fb3c4))
        (masked b 3 0xae2eabe2a8))
      (masked b 4 0x1e4f43e470)

generators-slide : (b s x : ℕ) → generators b (bit_xor s x) ≡ bit_xor (generators b s) x
generators-slide b s x =
    rw
      (
        slide s x _,
        slide _ x (masked b 1 _),
        slide _ x (masked b 2 _),
        slide _ x (masked b 3 _),
        slide _ x (masked b 4 _),
      )
      refl

step-generators :
    (c : ℕ) → cashaddr_polymod_step c ≡ generators (c / 2 ^ 35 % 256) (c % 2 ^ 35 * 32)
unfolding cashaddr_polymod_step
step-generators c =
    let low : bit_and c 0x07ffffffff * 2 ^ 5 % 2 ^ 64 ≡ c % 2 ^ 35 * 32 =
      omega (arith, and_mask 35 c) in
    ap (generators (c / 2 ^ 35 % 256)) low

-- What is added below the 35th digit comes out five digits higher.
pub step-linear :
    (c x : ℕ)
    → x < 2 ^ 35
    → cashaddr_polymod_step (bit_xor c x) ≡ bit_xor (cashaddr_polymod_step c) (x * 32)
step-linear c x h =
    let none_high : x / 2 ^ 35 ≡ 0 = omega arith in
    let low : x % 2 ^ 35 ≡ x = omega arith in
    let high : bit_xor c x / 2 ^ 35 ≡ c / 2 ^ 35 =
      xor-div 35 c x ∙ ap (bit_xor (c / 2 ^ 35)) none_high ∙ xor_zero (c / 2 ^ 35) in
    let shifted : bit_xor c x % 2 ^ 35 * 32 ≡ bit_xor (c % 2 ^ 35 * 32) (x * 32) =
      ap (λ k. k * 32) (xor-mod 35 c x ∙ ap (bit_xor (c % 2 ^ 35)) low)
      ∙ sym (xor-times 5 (c % 2 ^ 35) x) in
    step-generators (bit_xor c x)
    ∙ ap₂ generators (ap (λ k. k % 256) high) shifted
    ∙ generators-slide (c / 2 ^ 35 % 256) (c % 2 ^ 35 * 32) (x * 32)
    ∙ ap (λ s. bit_xor s (x * 32)) (sym (step-generators c))

masked-lt : (b i g : ℕ) → g < 2 ^ 40 → masked b i g < 2 ^ 40
unfolding masked
masked-lt b i g h = ground arith

generators-lt : (b s : ℕ) → s < 2 ^ 40 → generators b s < 2 ^ 40
generators-lt b s h =
    let with_term = λ (t i g : ℕ) (k : t < 2 ^ 40) (l : g < 2 ^ 40).
      xor-lt 40 t (masked b i g) k (masked-lt b i g l) in
    with_term _ 4 _
      (with_term _ 3 _
        (with_term _ 2 _ (with_term _ 1 _ (with_term s 0 _ h (omega arith)) (omega arith))
          (omega arith))
        (omega arith))
      (omega arith)

pub step-lt : (c : ℕ) → cashaddr_polymod_step c < 2 ^ 40
step-lt c =
    rw (step-generators c) (generators-lt (c / 2 ^ 35 % 256) (c % 2 ^ 35 * 32) (omega arith))
