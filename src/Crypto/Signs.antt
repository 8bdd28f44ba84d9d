-- ===== src/Crypto/Signs.antt =====
-- What crypto_sign_transaction signs.
use app_kaspa.Prelude.{
  ℕ, ◌≤◌, ◌≡◌, refl, sym, ap, ◌∙◌, List, arith, drop, length, length-drop, replicate, splice,
  splice-whole, take,
}
use app_kaspa.Sdk.Platform.{Platform}
use app_kaspa.Sdk.Blake2b.{Blake2bLaws}
use app_kaspa.Sdk.Write.{WriteLaws}
use app_kaspa.Context.{GlobalCtx}
use app_kaspa.Sighash.{signing_key}
use app_kaspa.Sighash.Preimage.{preimage, Ids, Scripts}
use app_kaspa.Sighash.Whole.{calc_sighash-preimage}
use app_kaspa.PersonalMessage.{message_signing_key}
use app_kaspa.PersonalMessage.Digest.{hash_personal_message_lem}
use app_kaspa.Crypto.{
  message_memory, crypto_sign_personal_message, address_path, signing_input, sign_with_key,
  crypto_sign_transaction,
}

module _ (p : Platform) (laws : Blake2bLaws p.blake2b) (wl : WriteLaws p.write) where
  abbrev pub signing_path : GlobalCtx → List ℕ
  signing_path g =
      let txin = signing_input g in
      address_path g.bip32_path g.tx_info.transaction.account txin.address_type txin.address_index

  -- The keyed hash of the protocol's message for the input under way.
  abbrev pub protocol_sighash : GlobalCtx → List ℕ → List ℕ
  protocol_sighash g public_key =
      let h = laws.digest 32 signing_key in
      h (preimage h g.tx_info.transaction (signing_input g) public_key)

  -- Where the keys are derived for the path of the input under way, with a public key of 33 bytes
  -- or more, the call's result is that of the signature of the protocol's hash with the private
  -- key of that path, and the hash, the signature and the path are in the context. The ids have 32
  -- bytes and the outputs one of the three scripts.
  pub crypto_sign_transaction-signs :
      (random : ℕ) (g : GlobalCtx) (private_key public_key : List ℕ)
      → p.crypto.bip32_derive_init_privkey_256 (take 5 (signing_path g)) ≡ (0, private_key)
      → p.crypto.cx_ecfp_generate_pair_no_throw private_key ≡ (0, public_key)
      → 33 ≤ length public_key
      → Ids g.tx_info.transaction.tx_inputs
      → length (signing_input g).tx_id ≡ 32
      → Scripts g.tx_info.transaction.tx_output_len g.tx_info.transaction.tx_outputs
      → let sighash = protocol_sighash g (drop 1 public_key) in
        let (error, signature) = p.crypto.cx_ecschnorr_sign_no_throw random private_key sighash in
        let (error', g') = crypto_sign_transaction p random g in
        (error' ≡ error)
        × (g'.tx_info.sighash ≡ sighash)
        × (g'.tx_info.signature ≡ splice (replicate 64 0) 0 signature)
        × (g'.tx_info.transaction ≡ g.tx_info.transaction)
        × (g'.bip32_path ≡ signing_path g)
  unfolding crypto_sign_transaction sign_with_key
  crypto_sign_transaction-signs random g private_key public_key derived paired long ids id scripts =
      let tx = g.tx_info.transaction in
      let hashed =
        calc_sighash-preimage p.blake2b laws p.write wl tx (signing_input g) (drop 1 public_key)
          (replicate 32 0) 32 ids id scripts (omega (arith, length-drop 1 public_key))
          (omega arith) in
      let whole =
        splice-whole (replicate 32 0) (protocol_sighash g (drop 1 public_key))
          (laws.length-digest 32 signing_key _) in
      let derived_key = ap (λ (r : ℕ × List ℕ). r.1) derived in
      rw (derived, paired, hashed, whole)
        (rw derived_key refl, refl, rw derived_key refl, refl, refl)

  -- A call without an error had none from the two functions on keys.
  pub crypto_sign_transaction-derived :
      (random : ℕ) (g : GlobalCtx)
      → (crypto_sign_transaction p random g).0 ≡ 0
      → let (error, private_key) =
          p.crypto.bip32_derive_init_privkey_256 (take 5 (signing_path g)) in
        (error ≡ 0) × ((p.crypto.cx_ecfp_generate_pair_no_throw private_key).0 ≡ 0)
  unfolding crypto_sign_transaction sign_with_key
  crypto_sign_transaction-derived random g done = ground arith

  -- A personal message is signed by the key of the context's path, under the keyed hash of the first
  -- `message_len` bytes at `message`, which replaces a hash of 32 bytes in the context. The result is
  -- that of the signature.
  pub crypto_sign_personal_message-signs :
      (random : ℕ) (g : GlobalCtx)
      → length g.msg_info.message_hash ≡ 32
      → let m = g.msg_info in
        let hash = laws.digest 32 message_signing_key (take m.message_len (message_memory m)) in
        let (_, private_key) =
          p.crypto.bip32_derive_init_privkey_256 (take g.bip32_path_len g.bip32_path) in
        let (error, signature) = p.crypto.cx_ecschnorr_sign_no_throw random private_key hash in
        let (error', g') = crypto_sign_personal_message p random g in
        (error' ≡ error)
        × (g'.msg_info.message_hash ≡ hash)
        × (g'.msg_info.signature ≡ splice m.signature 0 signature)
        × (g'.msg_info.message ≡ m.message)
  unfolding crypto_sign_personal_message
  crypto_sign_personal_message-signs random g h =
      let m = g.msg_info in
      let hash = laws.digest 32 message_signing_key (take m.message_len (message_memory m)) in
      let hashed =
        hash_personal_message_lem p.blake2b laws (message_memory m) m.message_len m.message_hash 32
          (omega arith) in
      let whole =
        splice-whole m.message_hash hash (laws.length-digest 32 message_signing_key _ ∙ sym h) in
      ground (arith, hashed, whole)
