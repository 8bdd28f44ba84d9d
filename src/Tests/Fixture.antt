-- ===== src/Tests/Fixture.antt =====
-- A platform, scripts, bytes and contexts for the runs.
use app_kaspa.Prelude.{ℕ, Option, some, List, [], ◌∷◌, ◌++◌, drop, replicate, be_bytes}
use app_kaspa.Sdk.Buffer.{plain_buffer}
use app_kaspa.Sdk.Write.{plain_write}
use app_kaspa.Sdk.Blake2b.{plain_blake2b}
use app_kaspa.Sdk.Crypto.{CryptoApi}
use app_kaspa.Sdk.Platform.{Platform}
use app_kaspa.Transaction.{
  Transaction, TransactionInput, TransactionOutput, zero_input, zero_output,
}
use app_kaspa.Context.{
  State, state_none, state_approved, confirm_transaction, GlobalCtx, zero_context,
}

abbrev pub raw_key : List ℕ
raw_key = 4 ∷ replicate 64 7

abbrev pub secret : List ℕ
secret = replicate 32 5

abbrev pub test_crypto : CryptoApi
test_crypto = record {
  bip32_derive_get_pubkey_256 = λ path. (0, raw_key, replicate 32 1);
  bip32_derive_init_privkey_256 = λ path. (0, secret);
  cx_ecfp_generate_pair_no_throw = λ key. (0, raw_key);
  cx_ecschnorr_sign_no_throw = λ random key hash. (0, hash ++ key);
  cx_ecschnorr_sign = λ key message buffer. message ++ drop 32 buffer;
}

-- An amount as its bytes.
unfoldable pub plain_amount : ℕ → ℕ → Option (List ℕ)
unfolding be_bytes
plain_amount value decimals = some (be_bytes 8 value)

-- The constants of the Nano S.
abbrev pub nano_s : Platform
nano_s = record {
  max_input_count = 15;
  max_message_len = 120;
  message_buffer_len = 126;
  app_name = b'K' ∷ b'a' ∷ b's' ∷ b'p' ∷ b'a' ∷ [];
  major_version = 1;
  minor_version = 0;
  patch_version = 0;
  buffer = plain_buffer;
  write = plain_write;
  blake2b = plain_blake2b;
  crypto = test_crypto;
  bip32_path_format = λ path. some (b'm' ∷ []);
  format_fpu64_trimmed = plain_amount;
}

abbrev pub schnorr_script : List ℕ
schnorr_script = 0x20 ∷ replicate 32 7 ++ 0xac ∷ replicate 6 0

abbrev pub three : TransactionOutput
three = record { value = 3; script_public_key = schnorr_script }

abbrev pub one_output : Transaction
one_output = record {
  version = 0;
  account = 0x80000000;
  tx_input_len = 1;
  tx_output_len = 1;
  tx_outputs = three ∷ zero_output ∷ [];
  tx_inputs = replicate 15 zero_input;
}

-- The bytes of an input of value 5.
abbrev pub five_bytes : List ℕ
five_bytes = replicate 7 0 ++ 5 ∷ replicate 32 9 ++ replicate 6 0

abbrev pub five : TransactionInput
five = record {
  address_type = 0;
  address_index = 0;
  sequence = 0;
  value = 5;
  tx_id = replicate 32 9;
  index = 0;
}

abbrev pub spends_five : Transaction
spends_five = record one_output { tx_inputs = five ∷ replicate 14 zero_input }

abbrev context_of : State → Transaction → GlobalCtx
context_of state tx =
    let zero = zero_context 15 in
    let info = record zero.tx_info { transaction = tx; parsing_output_index = 1 } in
    record zero { tx_info = info; req_type = confirm_transaction; state = state }

-- The output is parsed and the input is to come.
abbrev pub before_input : GlobalCtx
before_input = context_of state_none one_output

abbrev pub approved : GlobalCtx
approved = context_of state_approved spends_five

-- The message "hi" to sign.
abbrev pub signing_hi : GlobalCtx
signing_hi =
    let hi = record approved.msg_info {
      message_len = 2;
      message = b'h' ∷ b'i' ∷ replicate 126 0;
    } in
    record approved { msg_info = hi }
