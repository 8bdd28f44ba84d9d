-- ===== src/Sighash.antt =====
-- sighash.c. `none` is the result `false`; otherwise the result is the output array.
pub mod Preimage
pub mod Parts
pub mod Whole
use app_kaspa.Prelude.{
  ℕ, zero, suc, ◌+◌, ◌%◌, Bool, true, false, not, Option, none, some, List, [], ◌∷◌, ltb, ◌==◌,
  if◌then◌else◌, get_or, take, set, replicate, splice,
}
use app_kaspa.Sdk.Blake2b.{Blake2b}
use app_kaspa.Sdk.Write.{WriteApi}
use app_kaspa.Hashing.{◌>>=◌, guard, hash_init, hash_update, hash_finalize}
use app_kaspa.Transaction.{Transaction, TransactionInput, TransactionOutput, op_checksig}

-- "TransactionSigningHash"
abbrev pub signing_key : List ℕ
signing_key =
    b'T' ∷ b'r' ∷ b'a' ∷ b'n' ∷ b's' ∷ b'a' ∷ b'c' ∷ b't' ∷ b'i' ∷ b'o' ∷ b'n' ∷ b'S' ∷ b'i' ∷ b'g'
    ∷ b'n' ∷ b'i' ∷ b'n' ∷ b'g' ∷ b'H' ∷ b'a' ∷ b's' ∷ b'h' ∷ []

-- A buffer that `memset` has cleared.
abbrev pub zeros : ℕ → List ℕ
zeros n = replicate n 0

module _ (b : Blake2b) (w : WriteApi) where
  open b use {State}
  open w use {write_u16_le, write_u32_le, write_u64_le}

  -- The loops over the first inputs and outputs. Each round clears `inner_buffer` before it writes.
  prev_outputs_loop : ℕ → List TransactionInput → State → Option State
  prev_outputs_loop zero inputs hash = some hash
  prev_outputs_loop (suc n) [] hash = some hash
  prev_outputs_loop (suc n) (i ∷ inputs) hash = do
    hash₁ ← hash_update b hash i.tx_id 32
    hash₂ ← hash_update b hash₁ (write_u32_le (zeros 32) 0 i.index) 4
    prev_outputs_loop n inputs hash₂

  pub calc_prev_outputs_hash : Transaction → List ℕ → ℕ → Option (List ℕ)
  unfolding prev_outputs_loop
  calc_prev_outputs_hash tx out_hash out_len = do
    hash ← hash_init b 256 signing_key 22
    hash' ← prev_outputs_loop tx.tx_input_len tx.tx_inputs hash
    hash_finalize b hash' out_hash out_len

  sequences_loop : ℕ → List TransactionInput → State → Option State
  sequences_loop zero inputs hash = some hash
  sequences_loop (suc n) [] hash = some hash
  sequences_loop (suc n) (i ∷ inputs) hash = do
    hash₁ ← hash_update b hash (write_u64_le (zeros 32) 0 i.sequence) 8
    sequences_loop n inputs hash₁

  pub calc_sequences_hash : Transaction → List ℕ → ℕ → Option (List ℕ)
  unfolding sequences_loop
  calc_sequences_hash tx out_hash out_len = do
    hash ← hash_init b 256 signing_key 22
    hash' ← sequences_loop tx.tx_input_len tx.tx_inputs hash
    hash_finalize b hash' out_hash out_len

  sig_op_count_loop : ℕ → State → Option State
  sig_op_count_loop zero hash = some hash
  sig_op_count_loop (suc n) hash = do
    hash₁ ← hash_update b hash (set (zeros 32) 0 1) 1
    sig_op_count_loop n hash₁

  pub calc_sig_op_count_hash : Transaction → List ℕ → ℕ → Option (List ℕ)
  unfolding sig_op_count_loop
  calc_sig_op_count_hash tx out_hash out_len = do
    hash ← hash_init b 256 signing_key 22
    hash' ← sig_op_count_loop tx.tx_input_len hash
    hash_finalize b hash' out_hash out_len

  -- `uint8_t script_len`
  output_script_len : TransactionOutput → ℕ
  output_script_len o =
      let first = get_or o.script_public_key 0 0 in if first == 0xaa then 35 else (first + 2) % 256

  outputs_loop : ℕ → List TransactionOutput → State → Option State
  unfolding output_script_len
  outputs_loop zero outputs hash = some hash
  outputs_loop (suc n) [] hash = some hash
  outputs_loop (suc n) (o ∷ outputs) hash = do
    hash₁ ← hash_update b hash (write_u64_le (zeros 32) 0 o.value) 8
    hash₂ ← hash_update b hash₁ (zeros 32) 2
    hash₃ ← hash_update b hash₂ (write_u64_le (zeros 32) 0 (output_script_len o)) 8
    hash₄ ← hash_update b hash₃ o.script_public_key (output_script_len o)
    outputs_loop n outputs hash₄

  pub calc_outputs_hash : Transaction → List ℕ → ℕ → Option (List ℕ)
  unfolding outputs_loop
  calc_outputs_hash tx out_hash out_len = do
    hash ← hash_init b 256 signing_key 22
    hash' ← outputs_loop tx.tx_output_len tx.tx_outputs hash
    hash_finalize b hash' out_hash out_len

  pub calc_txin_script_public_key : List ℕ → List ℕ → ℕ → Option (List ℕ)
  calc_txin_script_public_key public_key out_hash out_len =
      if ltb out_len 34
      then none
      else some (set (splice (set out_hash 0 0x20) 1 (take 32 public_key)) 33 op_checksig)

  -- `outer_buffer` has 36 bytes and is cleared before each write.
  unfoldable pub calc_sighash :
      Transaction → TransactionInput → List ℕ → List ℕ → ℕ → Option (List ℕ)
  unfolding calc_prev_outputs_hash calc_sequences_hash calc_sig_op_count_hash calc_outputs_hash
      calc_txin_script_public_key
  calc_sighash tx txin public_key out_hash out_len = guard (not (ltb out_len 32)) (do
    h₀ ← hash_init b 256 signing_key 22
    h₁ ← hash_update b h₀ (write_u16_le (zeros 36) 0 tx.version) 2
    prev_outputs ← calc_prev_outputs_hash tx (zeros 36) 36
    h₂ ← hash_update b h₁ prev_outputs 32
    sequences ← calc_sequences_hash tx (zeros 36) 36
    h₃ ← hash_update b h₂ sequences 32
    sig_op_counts ← calc_sig_op_count_hash tx (zeros 36) 36
    h₄ ← hash_update b h₃ sig_op_counts 32
    h₅ ← hash_update b h₄ txin.tx_id 32
    h₆ ← hash_update b h₅ (write_u32_le (zeros 36) 0 txin.index) 4
    h₇ ← hash_update b h₆ (zeros 36) 2
    h₈ ← hash_update b h₇ (write_u64_le (zeros 36) 0 34) 8
    script ← calc_txin_script_public_key public_key (write_u64_le (zeros 36) 0 34) 36
    h₉ ← hash_update b h₈ script 34
    h₁₀ ← hash_update b h₉ (write_u64_le (zeros 36) 0 txin.value) 8
    h₁₁ ← hash_update b h₁₀ (write_u64_le (zeros 36) 0 txin.sequence) 8
    h₁₂ ← hash_update b h₁₁ (set (zeros 36) 0 0x01) 1
    outputs ← calc_outputs_hash tx (zeros 36) 36
    h₁₃ ← hash_update b h₁₂ outputs 32
    h₁₄ ← hash_update b h₁₃ (zeros 36) 8
    h₁₅ ← hash_update b h₁₄ (zeros 36) 20
    h₁₆ ← hash_update b h₁₅ (zeros 36) 8
    h₁₇ ← hash_update b h₁₆ (zeros 36) 32
    h₁₈ ← hash_update b h₁₇ (set (zeros 36) 0 0x01) 1
    hash_finalize b h₁₈ out_hash out_len)
