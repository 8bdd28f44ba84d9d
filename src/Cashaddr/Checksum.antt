-- ===== src/Cashaddr/Checksum.antt =====
-- The checksum of an address in import/cashaddr.c as its reader tests it.
use app_kaspa.Prelude.{
  ℕ, zero, suc, ◌+◌, ◌*◌, ◌/◌, ◌%◌, ◌^◌, ◌<◌, ◌≡◌, refl, sym, ap, ◌∙◌, arith, bit_and, bit_xor,
  List, [], ◌∷◌, ◌++◌,
}
use native.Mathlib.Nat.{pow-suc, div-div-eq-div-mul, div-le_self}
use app_kaspa.Prelude.Binary.{and_31}
use app_kaspa.Prelude.Xor.{xor_zero, xor_assoc, xor_self, xor_zero_left, xor_add, xor-lt}
use app_kaspa.Cashaddr.{
  prefix, cashaddr_polymod_step, absorb_prefix, absorb, absorb_zeros, poly_mod, groups,
  create_checksum,
}
use app_kaspa.Cashaddr.Linear.{step-linear, step-lt}

pub absorb-append : (a b : List ℕ) (c : ℕ) → absorb (a ++ b) c ≡ absorb b (absorb a c)
unfolding absorb
absorb-append [] b c = refl
absorb-append (d ∷ a) b c = absorb-append a b (bit_xor (cashaddr_polymod_step c) d)

-- The groups of a remainder, above the one at `n`.
pub div_group : (n m : ℕ) → m / 2 ^ (5 * suc n) ≡ m / 2 ^ (5 * n) / 32
div_group n m =
    let t : 5 * suc n ≡ suc (suc (suc (suc (suc (5 * n))))) = omega arith in
    let e : 2 ^ (5 * suc n) ≡ 2 ^ (5 * n) * 32 =
      ap (λ k. 2 ^ k) t
      ∙ omega (
        arith,
        pow-suc 2 (5 * n),
        pow-suc 2 (suc (5 * n)),
        pow-suc 2 (suc (suc (5 * n))),
        pow-suc 2 (suc (suc (suc (5 * n)))),
        pow-suc 2 (suc (suc (suc (suc (5 * n))))),
      ) in
    ap (λ k. m / k) e ∙ sym (div-div-eq-div-mul m (2 ^ (5 * n)) 32)

-- A digit below a remainder that has room for it.
pub absorb_digit :
    (s v d : ℕ)
    → v < 2 ^ 35
    → d < 32
    → bit_xor (cashaddr_polymod_step (bit_xor s v)) d
      ≡ bit_xor (cashaddr_polymod_step s) (v * 32 + d)
absorb_digit s v d h k =
    ap (λ c. bit_xor c d) (step-linear s v h)
    ∙ xor_assoc (cashaddr_polymod_step s) (v * 32) d
    ∙ ap (bit_xor (cashaddr_polymod_step s)) (xor_add v d k)

absorb-groups :
    (n m s : ℕ)
    → m < 2 ^ 40
    → absorb (groups n m) (bit_xor s (m / 2 ^ (5 * n))) ≡ bit_xor (absorb_zeros n s) m
unfolding absorb groups absorb_zeros
absorb-groups zero m s h = let e : m / 1 ≡ m = omega arith in ap (bit_xor s) e
absorb-groups (suc n) m s h =
    let q = m / 2 ^ (5 * n) in
    let d = bit_and q 0x1f in
    let digit : d ≡ q % 32 = and_31 q in
    let below : q / 32 < 2 ^ 35 = omega (arith, div-le_self m (2 ^ (5 * n))) in
    let whole : q / 32 * 32 + d ≡ q = omega arith in
    ap (λ v. absorb (groups n m) (bit_xor (cashaddr_polymod_step (bit_xor s v)) d)) (div_group n m)
    ∙ ap (absorb (groups n m)) (
        absorb_digit s (q / 32) d below (omega arith)
        ∙ ap (bit_xor (cashaddr_polymod_step s)) whole)
    ∙ absorb-groups n m (cashaddr_polymod_step s) h

absorb_zeros-lt : (n c : ℕ) → c < 2 ^ 40 → absorb_zeros n c < 2 ^ 40
unfolding absorb_zeros
absorb_zeros-lt zero c h = h
absorb_zeros-lt (suc n) c h = absorb_zeros-lt n (cashaddr_polymod_step c) (step-lt c)

-- What the reader of an address computes over all its digits: 0 for a valid one.
unfoldable pub syndrome : List ℕ → ℕ
syndrome digits = bit_xor (absorb digits (cashaddr_polymod_step (absorb_prefix prefix 1))) 1

absorb-checksum :
    (payload : List ℕ) (c : ℕ)
    → absorb
        (payload
          ++ groups 8 (bit_xor (absorb_zeros 8 (absorb payload (cashaddr_polymod_step c))) 1))
        (cashaddr_polymod_step c)
      ≡ 1
unfolding absorb_zeros
absorb-checksum payload c =
    let s = absorb payload (cashaddr_polymod_step c) in
    let zeros = absorb_zeros 8 s in
    let m = bit_xor zeros 1 in
    let bound : m < 2 ^ 40 =
      xor-lt 40 zeros 1 (absorb_zeros-lt 7 (cashaddr_polymod_step s) (step-lt s)) (omega arith) in
    let none_yet : m / 2 ^ 40 ≡ 0 = omega arith in
    absorb-append payload (groups 8 m) (cashaddr_polymod_step c)
    ∙ ap (absorb (groups 8 m)) (sym (xor_zero s) ∙ ap (bit_xor s) (sym none_yet))
    ∙ absorb-groups 8 m s bound
    ∙ sym (xor_assoc zeros zeros 1)
    ∙ ap (λ k. bit_xor k 1) (xor_self zeros)
    ∙ xor_zero_left 1

-- The eight digits that are written behind a payload make its address valid.
pub create_checksum-syndrome :
    (payload : List ℕ) → syndrome (payload ++ create_checksum payload) ≡ 0
unfolding syndrome create_checksum poly_mod
create_checksum-syndrome payload =
    ap (λ k. bit_xor k 1) (absorb-checksum payload (absorb_prefix prefix 1)) ∙ xor_self 1
