-- ===== src/Transaction/Utils/Fees.antt =====
-- The sums of values, and the fee, against the true sums.
use app_kaspa.Prelude.{
  ℕ, zero, suc, ◌+◌, ◌-◌, ◌%◌, ◌^◌, ◌≤◌, ◌<◌, ◌≡◌, ◌∙◌, List, [], ◌∷◌, arith, All,
}
use app_kaspa.Transaction.Types.{TransactionInput, TransactionOutput}
use app_kaspa.Transaction.Utils.{add_inputs, add_outputs, subtract_outputs, calc_fees}

-- The true sums.
abbrev pub input_total : ℕ → List TransactionInput → ℕ
input_total zero inputs = 0
input_total (suc n) [] = 0
input_total (suc n) (i ∷ inputs) = i.value + input_total n inputs

abbrev pub output_total : ℕ → List TransactionOutput → ℕ
output_total zero outputs = 0
output_total (suc n) [] = 0
output_total (suc n) (o ∷ outputs) = o.value + output_total n outputs

abbrev pub ValuesFit : List TransactionOutput → Type 0
ValuesFit = All λ o. o.value < 2 ^ 64

pub add_inputs-total :
    (n : ℕ) (inputs : List TransactionInput) (acc : ℕ)
    → acc < 2 ^ 64
    → add_inputs n inputs acc ≡ (acc + input_total n inputs) % 2 ^ 64
unfolding add_inputs
add_inputs-total zero inputs acc h = omega arith
add_inputs-total (suc n) [] acc h = omega arith
add_inputs-total (suc n) (i ∷ inputs) acc h =
    add_inputs-total n inputs ((acc + i.value) % 2 ^ 64) (omega arith) ∙ omega arith

pub add_outputs-total :
    (n : ℕ) (outputs : List TransactionOutput) (acc : ℕ)
    → acc < 2 ^ 64
    → add_outputs n outputs acc ≡ (acc + output_total n outputs) % 2 ^ 64
unfolding add_outputs
add_outputs-total zero outputs acc h = omega arith
add_outputs-total (suc n) [] acc h = omega arith
add_outputs-total (suc n) (o ∷ outputs) acc h =
    add_outputs-total n outputs ((acc + o.value) % 2 ^ 64) (omega arith) ∙ omega arith

-- What was subtracted comes back, modulo 2 ^ 64.
pub subtract_outputs-total :
    (n : ℕ) (outputs : List TransactionOutput) (acc : ℕ)
    → acc < 2 ^ 64
    → ValuesFit outputs
    → (subtract_outputs n outputs acc < 2 ^ 64)
      × ((subtract_outputs n outputs acc + output_total n outputs) % 2 ^ 64 ≡ acc)
unfolding subtract_outputs
subtract_outputs-total zero outputs acc h v = omega arith
subtract_outputs-total (suc n) [] acc h v = omega arith
subtract_outputs-total (suc n) (o ∷ outputs) acc h v =
    let (lt, e) =
      subtract_outputs-total n outputs ((acc + 2 ^ 64 - o.value) % 2 ^ 64) (omega arith) v.1 in
    (lt, omega arith)

-- For outputs with values below 2 ^ 64, the fee plus the outputs is the inputs, modulo 2 ^ 64,
-- whatever the totals are.
pub calc_fees_balances :
    (inputs : List TransactionInput) (n : ℕ) (outputs : List TransactionOutput) (m : ℕ)
    → ValuesFit outputs
    → (calc_fees inputs n outputs m + output_total m outputs) % 2 ^ 64
      ≡ input_total n inputs % 2 ^ 64
unfolding calc_fees
calc_fees_balances inputs n outputs m v =
    let e = add_inputs-total n inputs 0 (omega arith) in
    omega (arith, subtract_outputs-total m outputs (add_inputs n inputs 0) (omega arith) v)

-- For outputs with values below 2 ^ 64, where the inputs' total fits 64 bits and covers the
-- outputs, the fee is the difference.
pub calc_fees_exact :
    (inputs : List TransactionInput) (n : ℕ) (outputs : List TransactionOutput) (m : ℕ)
    → ValuesFit outputs
    → input_total n inputs < 2 ^ 64
    → output_total m outputs ≤ input_total n inputs
    → calc_fees inputs n outputs m ≡ input_total n inputs - output_total m outputs
unfolding calc_fees
calc_fees_exact inputs n outputs m v fits covers =
    let e = add_inputs-total n inputs 0 (omega arith) in
    omega (arith, subtract_outputs-total m outputs (add_inputs n inputs 0) (omega arith) v)
