-- ===== src/Tests/Signing.antt =====
-- Runs of validation, fees, hashes and signatures.
use app_kaspa.Prelude.{
  ℕ, ◌+◌, ◌^◌, ◌≡◌, ◌↔◌, refl, inl, inr, true, some, List, [], ◌∷◌, ◌++◌, arith, drop, replicate,
  splice,
}
use app_kaspa.Sdk.Write.{plain_write, plain_write-WriteLaws}
use app_kaspa.Sdk.Blake2b.{plain_blake2b, plain_blake2b-Blake2bLaws}
use app_kaspa.Transaction.Validate.{tx_validate_parsed_transaction}
use app_kaspa.Transaction.Validate.Accepts.{Valid, tx_validate_accepts_iff}
use app_kaspa.Sighash.{signing_key, calc_sighash}
use app_kaspa.Sighash.Preimage.{preimage}
use app_kaspa.Sighash.Whole.{calc_sighash-preimage}
use app_kaspa.PersonalMessage.{message_signing_key}
use app_kaspa.Crypto.{crypto_sign_transaction, crypto_sign_personal_message}
use app_kaspa.Crypto.Signs.{
  protocol_sighash, crypto_sign_transaction-signs, crypto_sign_personal_message-signs,
}
use app_kaspa.Address.{ecdsa}
use app_kaspa.Address.Reads.{before_digits, script_public_key_to_address-reads}
use app_kaspa.Cashaddr.{cashaddr_encode}
use app_kaspa.Cashaddr.Reader.{read_address, cashaddr_encode-read_address}
use app_kaspa.Prelude.{slice}
use app_kaspa.Transaction.Utils.{script_public_key_to_address}
use app_kaspa.Cashaddr.{convert_bits}
use app_kaspa.Cashaddr.Digits.{IsDigit, digits_value, convert_bits-value}
use app_kaspa.Prelude.{◌*◌, ◌<◌, length, length-append, take, All, ap, ◌∙◌, ◌+◌}
use app_kaspa.Display.{review_transaction}
use app_kaspa.Actions.{decide}
use app_kaspa.Actions.Accept.{accepted_transaction_signs}
use app_kaspa.Tests.Fixture.{
  nano_s, test_crypto, raw_key, secret, five, spends_five, approved, signing_hi,
}

tx_validate_accepts_iff_example :
    ((tx_validate_parsed_transaction test_crypto spends_five (replicate 5 0) 0).0 ≡ true)
    ↔ Valid test_crypto spends_five (replicate 5 0)
tx_validate_accepts_iff_example =
    tx_validate_accepts_iff test_crypto spends_five (replicate 5 0) 0 (omega arith)

abbrev plain_digest : List ℕ → List ℕ → List ℕ
plain_digest key message = plain_blake2b-Blake2bLaws.digest 32 key message

calc_sighash-preimage_example :
    calc_sighash plain_blake2b plain_write spends_five five (drop 1 raw_key) (replicate 32 0) 32
    ≡ some (
        splice (replicate 32 0) 0 (
          plain_digest signing_key
            (preimage (plain_digest signing_key) spends_five five (drop 1 raw_key))))
calc_sighash-preimage_example =
    calc_sighash-preimage plain_blake2b plain_blake2b-Blake2bLaws plain_write plain_write-WriteLaws
      spends_five five (drop 1 raw_key) (replicate 32 0) 32 (ground arith) refl
      (inr (inl (refl, refl)), ground arith) (omega arith) (omega arith)

crypto_sign_transaction-signs_example :
    let sighash =
      protocol_sighash nano_s plain_blake2b-Blake2bLaws plain_write-WriteLaws approved
        (drop 1 raw_key) in
    let (error, g') = crypto_sign_transaction nano_s 0 approved in
    (error ≡ 0)
    × (g'.tx_info.sighash ≡ sighash)
    × (g'.tx_info.signature ≡ splice (replicate 64 0) 0 (sighash ++ secret))
    × (g'.tx_info.transaction ≡ spends_five)
    × (g'.bip32_path ≡ 0x8000002c ∷ 0x8001b207 ∷ 0x80000000 ∷ 0 ∷ 0 ∷ [])
crypto_sign_transaction-signs_example =
    crypto_sign_transaction-signs nano_s plain_blake2b-Blake2bLaws plain_write-WriteLaws 0 approved
      secret raw_key refl refl (omega arith) (ground arith) refl
      (inr (inl (refl, refl)), ground arith)

crypto_sign_personal_message-signs_example :
    let m = signing_hi.msg_info in
    let hash = plain_digest message_signing_key (b'h' ∷ b'i' ∷ []) in
    let (error, g') = crypto_sign_personal_message nano_s 0 signing_hi in
    (error ≡ 0)
    × (g'.msg_info.message_hash ≡ hash)
    × (g'.msg_info.signature ≡ splice m.signature 0 (hash ++ secret))
    × (g'.msg_info.message ≡ m.message)
crypto_sign_personal_message-signs_example =
    crypto_sign_personal_message-signs nano_s plain_blake2b-Blake2bLaws plain_write-WriteLaws 0
      signing_hi refl

-- An ECDSA script with parity 3.
abbrev ecdsa_script : List ℕ
ecdsa_script = 0x21 ∷ 3 ∷ replicate 32 7 ++ 0xab ∷ replicate 5 0

script_public_key_to_address-reads_example :
    let (done, address) = script_public_key_to_address (replicate 69 0) 69 ecdsa_script 40 in
    (done ≡ true)
    × (take 6 address ≡ before_digits)
    × (read_address (slice address 6 63) ≡ some (1 ∷ 3 ∷ replicate 32 7))
script_public_key_to_address-reads_example =
    script_public_key_to_address-reads (replicate 69 0) ecdsa_script (3 ∷ replicate 32 7) 69 ecdsa
      refl (omega arith) (omega arith) (ground arith) (refl, inr refl, refl)

cashaddr_encode-read_address_example :
    let (n, written) = cashaddr_encode (replicate 33 7) 32 (replicate 74 0) 67 0 in
    read_address (take n written) ≡ some (0 ∷ replicate 32 7)
cashaddr_encode-read_address_example =
    cashaddr_encode-read_address (replicate 33 7) 32 (replicate 74 0) 67 0 (inl refl) (ground arith)
      (omega arith) (omega arith) (omega arith)

-- The bits 00000 00111 11111 1 and four of padding.
convert_bits-value_example :
    (out : List ℕ) × (pad : ℕ) × (convert_bits 5 (1 ∷ 0xff ∷ []) 8 true ≡ some out)
    × (pad < 5)
    × All IsDigit out
    × (5 * length out ≡ 8 * 2 + pad)
    × (digits_value 32 0 out ≡ 0x1ff * 2 ^ pad)
convert_bits-value_example =
    convert_bits-value (1 ∷ 0xff ∷ []) (omega arith, (omega arith, ground arith))

signature_length :
    (key : List ℕ)
    → length (
        protocol_sighash nano_s plain_blake2b-Blake2bLaws plain_write-WriteLaws approved key
        ++ secret)
      ≡ 64
signature_length key =
    length-append
      (protocol_sighash nano_s plain_blake2b-Blake2bLaws plain_write-WriteLaws approved key) secret
    ∙ ap (λ n. n + 32) (plain_blake2b-Blake2bLaws.length-digest 32 signing_key _)

accepted_transaction_signs_example :
    let sighash =
      protocol_sighash nano_s plain_blake2b-Blake2bLaws plain_write-WriteLaws approved
        (drop 1 raw_key) in
    (decide nano_s 0 true (review_transaction [] [] []) approved).sent
    ≡ record { bytes = 0 ∷ 0 ∷ 64 ∷ ((sighash ++ secret) ++ 32 ∷ sighash); sw = 0x9000 } ∷ []
accepted_transaction_signs_example =
    accepted_transaction_signs nano_s plain_blake2b-Blake2bLaws plain_write-WriteLaws 0 approved
      secret raw_key
      (protocol_sighash nano_s plain_blake2b-Blake2bLaws plain_write-WriteLaws approved
          (drop 1 raw_key)
        ++ secret)
      [] [] [] refl refl refl (omega arith) (signature_length (drop 1 raw_key)) (ground arith) refl
      (inr (inl (refl, refl)), ground arith)
