-- ===== src/Transaction/Validate.antt =====
-- transaction/tx_validate.c, with crypto_validate_public_key of crypto.c.
pub mod Accepts
use app_kaspa.Prelude.{
  ℕ, ◌+◌, Bool, true, false, not, ◌&&◌, ◌||◌, List, [], ◌∷◌, ltb, ◌==◌, if◌then◌else◌, get_or, take,
  drop, set, slice,
}
use app_kaspa.Sdk.Crypto.{CryptoApi}
use app_kaspa.Transaction.Types.{Transaction, TransactionOutput, zero_output}
use app_kaspa.Transaction.Utils.{add_inputs, add_outputs}

-- `memcmp(a, b, n) == 0` on lists of the same length.
abbrev pub memcmp_equal : List ℕ → List ℕ → Bool
memcmp_equal [] [] = true
memcmp_equal (a ∷ as') (b ∷ bs) = a == b && memcmp_equal as' bs
memcmp_equal _ _ = false

unfoldable pub crypto_validate_public_key : CryptoApi → List ℕ → List ℕ → Bool
crypto_validate_public_key crypto path compressed_public_key =
    let (error, raw_pubkey, chain_code) = crypto.bip32_derive_get_pubkey_256 path in
    error == 0 && memcmp_equal (slice raw_pubkey 1 32) compressed_public_key

-- The path of `G_context` with its first three levels forced.
abbrev pub force_path : List ℕ → ℕ → List ℕ
force_path path account = set (set (set path 0 0x8000002c) 1 0x8001b207) 2 account

-- The result, with the path and its length in `G_context`.
unfoldable pub tx_validate_parsed_transaction :
    CryptoApi → Transaction → List ℕ → ℕ → Bool × List ℕ × ℕ
unfolding crypto_validate_public_key
tx_validate_parsed_transaction crypto tx path path_len =
    let change = get_or tx.tx_outputs 1 zero_output in
    let forced = force_path path tx.account in
    let own =
      crypto_validate_public_key crypto (take 5 forced) (slice change.script_public_key 1 32) in
    let input_total = add_inputs tx.tx_input_len tx.tx_inputs 0 in
    let output_total = add_outputs tx.tx_output_len tx.tx_outputs 0 in
    let covered = not (ltb input_total output_total) in
    if ltb 2 tx.tx_output_len || ltb tx.tx_output_len 1
    then (false, path, path_len)
    else if ltb tx.tx_input_len 1
    then (false, path, path_len)
    else if not (tx.tx_output_len == 2)
    then (covered, path, path_len)
    else if not (get_or change.script_public_key 0 0 == 0x20)
    then (false, path, path_len)
    else (own && covered, forced, 5)
