-- ===== src/Cashaddr/Rounds.antt =====
-- The rounds of the inner loop of `convert_bits` in import/cashaddr.c.
use app_kaspa.Prelude.{
  ℕ, zero, suc, ◌+◌, ◌-◌, ◌*◌, ◌^◌, ◌/◌, ◌≤◌, ◌<◌, ◌≡◌, refl, ap, ◌∙◌, inl, inr, Bool-cases, true,
  false, sym, subst, arith, List, [], ◌∷◌, length, leb, bit_and,
}
use app_kaspa.Cashaddr.{emit}

emit_stops : (fuel outbits val bits : ℕ) → bits < outbits → emit fuel outbits val bits ≡ ([], bits)
unfolding emit
emit_stops zero outbits val bits h = refl
emit_stops (suc fuel) outbits val bits h =
    let stops : leb outbits bits ≡ false = ground arith in rw stops refl

emit_round :
    (fuel outbits val bits : ℕ)
    → outbits ≤ bits
    → let (out, left) = emit fuel outbits val (bits - outbits) in
      let digit = bit_and (val / 2 ^ (bits - outbits)) (2 ^ outbits - 1) in
      emit (suc fuel) outbits val bits ≡ (digit ∷ out, left)
unfolding emit
emit_round fuel outbits val bits h =
    let goes : leb outbits bits ≡ true = ground arith in rw goes refl

abbrev Ended : ℕ → ℕ → List ℕ × ℕ → Type 0
Ended outbits bits (out, left) = (left < outbits) × (length out * outbits + left ≡ bits)

emit_ends :
    (fuel outbits val bits : ℕ)
    → 1 ≤ outbits
    → bits ≤ fuel
    → Ended outbits bits (emit fuel outbits val bits)
emit_ends zero outbits val bits h enough =
    subst (Ended outbits bits) (sym (emit_stops 0 outbits val bits (omega arith)))
      (omega arith, omega arith)
emit_ends (suc fuel) outbits val bits h enough = elim (Bool-cases (leb outbits bits)) [
  | inl goes ↦
      let long : outbits ≤ bits = ground arith in
      let (short, taken) = emit_ends fuel outbits val (bits - outbits) h (omega arith) in
      subst (Ended outbits bits) (sym (emit_round fuel outbits val bits long)) (short, omega arith)
  | inr stops ↦
      let short : bits < outbits = ground arith in
      subst (Ended outbits bits) (sym (emit_stops (suc fuel) outbits val bits short))
        (short, omega arith)
]

-- More rounds change nothing.
emit_more :
    (fuel more outbits val bits : ℕ)
    → 1 ≤ outbits
    → bits ≤ fuel
    → fuel ≤ more
    → emit more outbits val bits ≡ emit fuel outbits val bits
emit_more zero more outbits val bits h enough e =
    emit_stops more outbits val bits (omega arith)
    ∙ sym (emit_stops zero outbits val bits (omega arith))
emit_more (suc fuel) zero outbits val bits h enough e = absurd (omega arith)
emit_more (suc fuel) (suc more) outbits val bits h enough e = elim (Bool-cases (leb outbits bits)) [
  | inl goes ↦
      let long : outbits ≤ bits = ground arith in
      let same = emit_more fuel more outbits val (bits - outbits) h (omega arith) (omega arith) in
      let digit = bit_and (val / 2 ^ (bits - outbits)) (2 ^ outbits - 1) in
      emit_round more outbits val bits long
      ∙ ap (λ (r : List ℕ × ℕ). (digit ∷ r.0, r.1)) same
      ∙ sym (emit_round fuel outbits val bits long)
  | inr stops ↦
      let short : bits < outbits = ground arith in
      emit_stops (suc more) outbits val bits short
      ∙ sym (emit_stops (suc fuel) outbits val bits short)
]

-- Where every digit has at least one bit, the inner loop ends within as many rounds as there are
-- bits: fewer bits are left than a digit takes, every round has taken the bits of one digit, and
-- more rounds would change nothing.
pub emit_terminates :
    (outbits val bits more : ℕ)
    → 1 ≤ outbits
    → bits ≤ more
    → let (out, left) = emit bits outbits val bits in
      (left < outbits)
      × (length out * outbits + left ≡ bits)
      × (emit more outbits val bits ≡ emit bits outbits val bits)
emit_terminates outbits val bits more h e =
    let (short, taken) = emit_ends bits outbits val bits h (omega arith) in
    (short, taken, emit_more bits more outbits val bits h (omega arith) e)
