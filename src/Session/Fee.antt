-- ===== src/Session/Fee.antt =====
-- The fee of a transaction, and the text of it that its review shows.
use app_kaspa.Prelude.{
  ℕ, suc, ◌-◌, ◌^◌, ◌≤◌, ◌≡◌, ◌⊎◌, inl, inr, sym, ap, ◌∙◌, some, List, [], ◌∷◌, arith, get_or,
}
use mathlib.Core.Option
use native.Mathlib.Decide.{dec_lt}
use app_kaspa.Sdk.Platform.{Platform}
use app_kaspa.Context.{GlobalCtx}
use app_kaspa.Transaction.{TransactionOutput, zero_output}
use app_kaspa.Transaction.Utils.Fees.{input_total, output_total, ValuesFit, calc_fees_exact}
use app_kaspa.Transaction.Validate.Accepts.{Valid}
use app_kaspa.Display.{kas, shown_fees}

-- A value that is no number of 64 bits.
abbrev pub OversizedValue : List TransactionOutput → Type 0
OversizedValue outs = (i : ℕ) × (2 ^ 64 ≤ (get_or outs i zero_output).value)

values_or : (outs : List TransactionOutput) → ValuesFit outs ⊎ OversizedValue outs
values_or [] = inl tt
values_or (o ∷ outs) = elim (dec_lt o.value (2 ^ 64)) [
  | no large ↦ inr (0, omega arith)
  | yes small ↦ elim (values_or outs) [
    | inl rest ↦ inl (small, rest)
    | inr (i, large) ↦ inr (suc i, large)
  ]
]

-- The text is that of the inputs' total less the outputs' total, where these and the values are
-- numbers of 64 bits.
abbrev pub ShowsFee : Platform → GlobalCtx → List ℕ → Type 0
ShowsFee p g fees =
    let tx = g.tx_info.transaction in
    let paid = input_total tx.tx_input_len tx.tx_inputs in
    let spent = output_total tx.tx_output_len tx.tx_outputs in
    (Option.map kas (p.format_fpu64_trimmed (paid - spent) 8) ≡ some fees)
    ⊎ (2 ^ 64 ≤ paid)
    ⊎ (2 ^ 64 ≤ spent)
    ⊎ OversizedValue tx.tx_outputs

pub shown_fees-ShowsFee :
    (p : Platform) (g : GlobalCtx) (path fees : List ℕ)
    → Valid p.crypto g.tx_info.transaction path
    → Option.map kas (p.format_fpu64_trimmed (shown_fees p g) 8) ≡ some fees
    → ShowsFee p g fees
shown_fees-ShowsFee p g path fees (some_input, covered, counts) shown =
    let tx = g.tx_info.transaction in
    let paid = input_total tx.tx_input_len tx.tx_inputs in
    let spent = output_total tx.tx_output_len tx.tx_outputs in
    elim (dec_lt paid (2 ^ 64)) [
      | no large ↦ inr (inl (omega arith))
      | yes small ↦ elim (dec_lt spent (2 ^ 64)) [
        | no large ↦ inr (inr (inl (omega arith)))
        | yes small' ↦ elim (values_or tx.tx_outputs) [
          | inr large ↦ inr (inr (inr large))
          | inl fit ↦
              let exact =
                calc_fees_exact tx.tx_inputs tx.tx_input_len tx.tx_outputs tx.tx_output_len fit
                  small (omega arith) in
              inl (ap (λ n. Option.map kas (p.format_fpu64_trimmed n 8)) (sym exact) ∙ shown)
        ]
      ]
    ]
