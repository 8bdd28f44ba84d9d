-- ===== src/Cashaddr/Unique.antt =====
-- The checksum of import/cashaddr.c is the only one that its reader accepts.
use app_kaspa.Prelude.{
  ℕ, ◌+◌, ◌*◌, ◌/◌, ◌^◌, ◌<◌, ◌≤◌, ◌≡◌, ◌↔◌, refl, sym, ap, ap₂, ◌∙◌, arith, bit_and, bit_xor, List,
  [], ◌∷◌, ◌++◌, All, length,
}
use app_kaspa.Prelude.Binary.{and_31}
use app_kaspa.Prelude.Xor.{xor_zero, xor_zero_left, xor_assoc, xor_self}
use app_kaspa.Cashaddr.{
  prefix, cashaddr_polymod_step, absorb_prefix, absorb, absorb_zeros, poly_mod, groups,
  create_checksum,
}
use app_kaspa.Cashaddr.Digits.{IsDigit, digits_value}
use app_kaspa.Cashaddr.Checksum.{
  div_group, absorb_digit, absorb-append, syndrome, create_checksum-syndrome,
}

-- The digits of a number, from above.
digits_value-div :
    (ds : List ℕ) (a : ℕ) → All IsDigit ds → digits_value 32 a ds / 2 ^ (5 * length ds) ≡ a
digits_value-div [] a h = omega arith
digits_value-div (d ∷ ds) a (h, hs) =
    div_group (length ds) (digits_value 32 (a * 32 + d) ds)
    ∙ ap (λ k. k / 32) (digits_value-div ds (a * 32 + d) hs)
    ∙ omega arith

groups-digits_value :
    (ds : List ℕ) (a : ℕ) → All IsDigit ds → groups (length ds) (digits_value 32 a ds) ≡ ds
unfolding groups
groups-digits_value [] a h = refl
groups-digits_value (d ∷ ds) a (h, hs) =
    let value = digits_value 32 (a * 32 + d) ds in
    let q = value / 2 ^ (5 * length ds) in
    let digit : bit_and q 0x1f ≡ d = omega (arith, and_31 q, digits_value-div ds (a * 32 + d) hs) in
    ap₂ ◌∷◌ digit (groups-digits_value ds (a * 32 + d) hs)

digits_value-ge : (ds : List ℕ) (a : ℕ) → a ≤ digits_value 32 a ds
digits_value-ge [] a = omega arith
digits_value-ge (d ∷ ds) a = omega (arith, digits_value-ge ds (a * 32 + d))

absorb-digits :
    (ds : List ℕ) (s a : ℕ)
    → All IsDigit ds
    → digits_value 32 a ds < 2 ^ 40
    → absorb ds (bit_xor s a) ≡ bit_xor (absorb_zeros (length ds) s) (digits_value 32 a ds)
unfolding absorb absorb_zeros
absorb-digits [] s a h small = refl
absorb-digits (d ∷ ds) s a (h, hs) small =
    let below : a < 2 ^ 35 = omega (arith, digits_value-ge ds (a * 32 + d)) in
    ap (absorb ds) (absorb_digit s a d below h)
    ∙ absorb-digits ds (cashaddr_polymod_step s) (a * 32 + d) hs small

-- Behind a state, eight digits that leave 1 are the groups of one number.
absorb_unique :
    (ds : List ℕ) (s : ℕ)
    → length ds ≡ 8
    → All IsDigit ds
    → absorb ds s ≡ 1
    → ds ≡ groups 8 (bit_xor (absorb_zeros 8 s) 1)
absorb_unique ds s l h one =
    let value = digits_value 32 0 ds in
    let top : value / 2 ^ 40 ≡ 0 =
      ap (λ n. value / 2 ^ (5 * n)) (sym l) ∙ digits_value-div ds 0 h in
    let zeros = absorb_zeros 8 s in
    let made : bit_xor zeros value ≡ 1 =
      sym (ap (λ n. bit_xor (absorb_zeros n s) value) l)
      ∙ sym (absorb-digits ds s 0 h (omega (arith, top)))
      ∙ ap (absorb ds) (xor_zero s)
      ∙ one in
    let same : value ≡ bit_xor zeros 1 =
      sym (xor_zero_left value)
      ∙ ap (λ k. bit_xor k value) (sym (xor_self zeros))
      ∙ xor_assoc zeros zeros value
      ∙ ap (bit_xor zeros) made in
    sym (groups-digits_value ds 0 h) ∙ ap₂ groups l same

unique :
    (payload ds : List ℕ)
    → length ds ≡ 8
    → All IsDigit ds
    → syndrome (payload ++ ds) ≡ 0
    → ds ≡ create_checksum payload
unfolding syndrome create_checksum poly_mod
unique payload ds l h valid =
    let start = cashaddr_polymod_step (absorb_prefix prefix 1) in
    let all = absorb (payload ++ ds) start in
    let one : all ≡ 1 =
      sym (xor_zero all)
      ∙ ap (bit_xor all) (sym (xor_self 1))
      ∙ sym (xor_assoc all 1 1)
      ∙ ap (λ k. bit_xor k 1) valid
      ∙ xor_zero_left 1 in
    absorb_unique ds (absorb payload start) l h (sym (absorb-append payload ds start) ∙ one)

-- Eight digits behind a payload make its address valid for a reader exactly when they are the
-- checksum that is written there.
pub create_checksum_unique :
    (payload ds : List ℕ)
    → length ds ≡ 8
    → All IsDigit ds
    → (syndrome (payload ++ ds) ≡ 0) ↔ (ds ≡ create_checksum payload)
create_checksum_unique payload ds l h = (
  unique payload ds l h,
  λ e. ap (λ (k : List ℕ). syndrome (payload ++ k)) e ∙ create_checksum-syndrome payload,
)
