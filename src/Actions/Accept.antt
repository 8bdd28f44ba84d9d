-- ===== src/Actions/Accept.antt =====
-- What leaves the device when the user accepts the review of a transaction.
use app_kaspa.Prelude.{
  ℕ, ◌+◌, ◌-◌, ◌%◌, ◌^◌, ◌≤◌, ◌≡◌, ap, ◌∙◌, true, List, [], ◌∷◌, ◌++◌, arith, drop, length,
  replicate, splice, splice-whole, take, take_all,
}
use app_kaspa.Sdk.Platform.{Platform}
use app_kaspa.Sdk.Blake2b.{Blake2bLaws}
use app_kaspa.Sdk.Write.{WriteLaws}
use app_kaspa.Context.{state_approved, GlobalCtx}
use app_kaspa.Sighash.{signing_key}
use app_kaspa.Sighash.Preimage.{Ids, Scripts}
use app_kaspa.Crypto.{signing_input, crypto_sign_transaction}
use app_kaspa.Crypto.Signs.{signing_path, protocol_sighash, crypto_sign_transaction-signs}
use app_kaspa.Response.{Response, sw_ok, helper_send_response_sig}
use app_kaspa.Display.{review_transaction}
use app_kaspa.Actions.{sign_input_and_send, decide}

-- The response of one signature: the inputs that are left, the index, the signature and the hash.
abbrev pub signature_response : GlobalCtx → List ℕ → List ℕ → Response
signature_response g signature sighash = record {
  bytes =
      ((g.tx_info.transaction.tx_input_len + 2 ^ 64 - g.tx_info.signing_input_index - 1) % 256)
      ∷ g.tx_info.signing_input_index
      ∷ 64
      ∷ (signature ++ 32 ∷ sighash);
  sw = sw_ok;
}

crypto_sign_transaction-index :
    (p : Platform) (random : ℕ) (g : GlobalCtx)
    → (crypto_sign_transaction p random g).1.tx_info.signing_input_index
      ≡ g.tx_info.signing_input_index
unfolding crypto_sign_transaction
crypto_sign_transaction-index p random g = ground arith

module _ (p : Platform) (laws : Blake2bLaws p.blake2b) (wl : WriteLaws p.write) where
  -- The context of a signature gives the response.
  abbrev pub Holds : ℕ → GlobalCtx → List ℕ → List ℕ → Type 0
  Holds random g signature sighash =
      let (error, g') = crypto_sign_transaction p random g in
      (error ≡ 0)
      × (g'.tx_info.sighash ≡ sighash)
      × (g'.tx_info.signature ≡ splice (replicate 64 0) 0 signature)
      × (g'.tx_info.transaction ≡ g.tx_info.transaction)

  pub held_response :
      (random : ℕ) (g : GlobalCtx) (signature sighash : List ℕ)
      → length signature ≡ 64
      → length sighash ≡ 32
      → Holds random g signature sighash
      → helper_send_response_sig (crypto_sign_transaction p random g).1
        ≡ signature_response g signature sighash
  unfolding helper_send_response_sig
  held_response random g signature sighash l k (done, hashed, signed, kept) =
      let index = crypto_sign_transaction-index p random g in
      let whole = splice-whole (replicate 64 0) signature (omega arith) in
      let all = take_all 64 signature (omega arith) in
      let all' = take_all 32 sighash (omega arith) in ground (arith, index, whole, all, all')

  pub sent_response :
      (random : ℕ) (g : GlobalCtx) (signature sighash : List ℕ)
      → length signature ≡ 64
      → length sighash ≡ 32
      → Holds random g signature sighash
      → (sign_input_and_send p random g).sent ≡ signature_response g signature sighash ∷ []
  unfolding sign_input_and_send
  sent_response random g signature sighash l k holds =
      let response = held_response random g signature sighash l k holds in ground arith

  -- When the user accepts the review of a transaction, one signature is sent: where the keys of
  -- the input under way are derived, with a public key of 33 bytes or more, and the device makes a
  -- signature of 64 bytes without an error, it is the signature of the protocol's hash with the
  -- key of the input's path, and the hash and the input's index go with it. The ids have 32 bytes
  -- and the outputs one of the three scripts.
  pub accepted_transaction_signs :
      (random : ℕ) (g : GlobalCtx) (private_key public_key signature amount fees address : List ℕ)
      → p.crypto.bip32_derive_init_privkey_256 (take 5 (signing_path p laws wl g))
        ≡ (0, private_key)
      → p.crypto.cx_ecfp_generate_pair_no_throw private_key ≡ (0, public_key)
      → p.crypto.cx_ecschnorr_sign_no_throw random private_key
          (protocol_sighash p laws wl g (drop 1 public_key))
        ≡ (0, signature)
      → 33 ≤ length public_key
      → length signature ≡ 64
      → Ids g.tx_info.transaction.tx_inputs
      → length (signing_input g).tx_id ≡ 32
      → Scripts g.tx_info.transaction.tx_output_len g.tx_info.transaction.tx_outputs
      → (decide p random true (review_transaction amount fees address) g).sent
        ≡ signature_response g signature (protocol_sighash p laws wl g (drop 1 public_key)) ∷ []
  unfolding decide
  accepted_transaction_signs random g private_key public_key signature amount fees address derived
        paired made long l ids id scripts =
      let approved = record g { state = state_approved } in
      let (error, hashed, signed, kept, path) =
        crypto_sign_transaction-signs p laws wl random approved private_key public_key derived
          paired long ids id scripts in
      let sighash = protocol_sighash p laws wl g (drop 1 public_key) in
      sent_response random approved signature sighash l (laws.length-digest 32 signing_key _) (
        error ∙ ap (λ (r : ℕ × List ℕ). r.0) made,
        hashed,
        signed ∙ ap (λ (r : ℕ × List ℕ). splice (replicate 64 0) 0 r.1) made,
        kept,
      )
