-- ===== src/Transaction/Utils.antt =====
-- transaction/utils.c.
pub mod Fees
pub mod AddressOf
use app_kaspa.Prelude.{
  ℕ, zero, suc, ◌+◌, ◌-◌, ◌%◌, ◌^◌, Bool, true, false, not, ◌&&◌, List, [], ◌∷◌, ltb, ◌==◌,
  if◌then◌else◌, get_or, replicate, slice, splice,
}
use app_kaspa.Address.{AddressType, schnorr, ecdsa, p2sh, address_len, address_from_pubkey}
use app_kaspa.Transaction.Types.{TransactionInput, TransactionOutput}

-- The loop over the first `memo_len` bytes.
unfoldable pub transaction_utils_check_encoding : List ℕ → ℕ → Bool
transaction_utils_check_encoding memo zero = true
transaction_utils_check_encoding [] (suc n) = true
transaction_utils_check_encoding (b ∷ memo) (suc n) =
    if ltb 0x7f b then false else transaction_utils_check_encoding memo n

-- The 64-byte public key that stands for a script, and its type; `none` where the script is short.
unfoldable pub key_of_script : List ℕ → ℕ → Bool × List ℕ × AddressType
key_of_script script script_len =
    let key = replicate 64 0 in
    let first_byte = get_or script 0 0 in
    if first_byte == 0xaa
    then (not (ltb script_len 35), splice key 0 (slice script 2 32), p2sh)
    else if first_byte == 0x21
    then (
      not (ltb script_len 35),
      splice (splice key 0 (slice script 2 32)) 32 (replicate 32 (get_or script 1 0)),
      ecdsa,
    )
    else (not (ltb script_len 34), splice key 0 (slice script 1 32), schnorr)

unfoldable pub script_public_key_to_address : List ℕ → ℕ → List ℕ → ℕ → Bool × List ℕ
unfolding key_of_script
script_public_key_to_address out_address out_len script script_len =
    let (long, public_key, type) = key_of_script script script_len in
    if ltb script_len 32
    then (false, out_address)
    else if not long
    then (false, out_address)
    else if ltb out_len (address_len type)
    then (false, out_address)
    else address_from_pubkey public_key type out_address (address_len type)

-- The loops over the first elements of the arrays, in uint64_t arithmetic. They are for counts within
-- the arrays: past the end the C code reads on behind them, and the definitions stop.
unfoldable pub add_inputs : ℕ → List TransactionInput → ℕ → ℕ
add_inputs zero inputs acc = acc
add_inputs (suc n) [] acc = acc
add_inputs (suc n) (i ∷ inputs) acc = add_inputs n inputs ((acc + i.value) % 2 ^ 64)

unfoldable pub add_outputs : ℕ → List TransactionOutput → ℕ → ℕ
add_outputs zero outputs acc = acc
add_outputs (suc n) [] acc = acc
add_outputs (suc n) (o ∷ outputs) acc = add_outputs n outputs ((acc + o.value) % 2 ^ 64)

unfoldable pub subtract_outputs : ℕ → List TransactionOutput → ℕ → ℕ
subtract_outputs zero outputs acc = acc
subtract_outputs (suc n) [] acc = acc
subtract_outputs (suc n) (o ∷ outputs) acc =
    subtract_outputs n outputs ((acc + 2 ^ 64 - o.value) % 2 ^ 64)

unfoldable pub calc_fees : List TransactionInput → ℕ → List TransactionOutput → ℕ → ℕ
unfolding add_inputs subtract_outputs
calc_fees inputs input_len outputs output_len =
    subtract_outputs output_len outputs (add_inputs input_len inputs 0)
