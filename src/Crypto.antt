-- ===== src/Crypto.antt =====
-- crypto.c. An `int` result is kept as its 32 bits: 0 for success, and -1 as `minus_one`. The
-- random number that a signature takes is an argument.
pub mod Signs
use app_kaspa.Prelude.{
  ℕ, ◌+◌, ◌-◌, ◌^◌, not, Option, none, some, List, [], ◌∷◌, ◌++◌, ◌==◌, if◌then◌else◌, get_or, take,
  drop, replicate, set, splice,
}
use app_kaspa.Sdk.Platform.{Platform}
use app_kaspa.Transaction.{TransactionInput, zero_input}
use app_kaspa.Context.{GlobalCtx, TransactionCtx, MessageSignCtx}
use app_kaspa.Sighash.{calc_sighash}
use app_kaspa.PersonalMessage.{hash_personal_message}

abbrev pub minus_one : ℕ
minus_one = 2 ^ 32 - 1

-- The full path of an address of the application.
abbrev pub address_path : List ℕ → ℕ → ℕ → ℕ → List ℕ
address_path path account type index =
    set (set (set (set (set path 0 0x8000002c) 1 0x8001b207) 2 account) 3 type) 4 index

-- `tx_inputs[signing_input_index]`. The C code reads on behind the array where the index is past it; the
-- definition is for an index in the array, and its zeroed input there stands for no claim.
abbrev pub signing_input : GlobalCtx → TransactionInput
signing_input g = get_or g.tx_info.transaction.tx_inputs g.tx_info.signing_input_index zero_input

-- The bytes of `message` and of the two arrays behind it, which a long message runs into.
abbrev pub message_memory : MessageSignCtx → List ℕ
message_memory m = m.message ++ (m.message_hash ++ m.signature)

module _ (p : Platform) where
  open p use {crypto, blake2b, write}
  open crypto use {
    bip32_derive_init_privkey_256, cx_ecfp_generate_pair_no_throw, cx_ecschnorr_sign_no_throw,
  }

  -- With the private key: the block between TRY and FINALLY.
  sign_with_key : ℕ → List ℕ → GlobalCtx → ℕ × GlobalCtx
  sign_with_key random private_key g =
      let cleared = record g.tx_info { sighash = replicate 32 0; signature = replicate 64 0 } in
      let (error, public_key) = cx_ecfp_generate_pair_no_throw private_key in
      let hash : Option (List ℕ) =
        calc_sighash blake2b write g.tx_info.transaction (signing_input g) (drop 1 public_key)
          (replicate 32 0) 32 in
      let signed : ℕ × GlobalCtx = elim hash [
        | none ↦ (minus_one, record g { tx_info = cleared })
        | some sighash ↦
            let (error', signature) = cx_ecschnorr_sign_no_throw random private_key sighash in
            let tx_info' : TransactionCtx = record g.tx_info {
              sighash = sighash;
              signature = splice (replicate 64 0) 0 signature;
            } in
            (error', record g { tx_info = tx_info' })
      ] in
      if not (error == 0) then (error, record g { tx_info = cleared }) else signed

  unfoldable pub crypto_sign_transaction : ℕ → GlobalCtx → ℕ × GlobalCtx
  unfolding sign_with_key
  crypto_sign_transaction random g =
      let txin = signing_input g in
      let g' = record g {
        bip32_path =
            address_path g.bip32_path g.tx_info.transaction.account txin.address_type
              txin.address_index;
        bip32_path_len = 5;
      } in
      let (error, private_key) = bip32_derive_init_privkey_256 (take 5 g'.bip32_path) in
      if not (error == 0) then (error, g') else sign_with_key random private_key g'

  -- The error of the derivation is overwritten by that of the signature, as in the source.
  unfoldable pub crypto_sign_personal_message : ℕ → GlobalCtx → ℕ × GlobalCtx
  crypto_sign_personal_message random g =
      let m = g.msg_info in
      let hash : Option (List ℕ) =
        hash_personal_message blake2b (message_memory m) m.message_len m.message_hash 32 in
      elim hash [
        | none ↦ (minus_one, g)
        | some message_hash ↦
            let (_, private_key) =
              bip32_derive_init_privkey_256 (take g.bip32_path_len g.bip32_path) in
            let (error, signature) = cx_ecschnorr_sign_no_throw random private_key message_hash in
            let m' : MessageSignCtx = record m {
              message_hash = message_hash;
              signature = splice m.signature 0 signature;
            } in
            (error, record g { msg_info = m' })
      ]
