-- ===== src/Session/Signatures.antt =====
-- The signatures of an approved transaction, one for each exchange.
use app_kaspa.Prelude.{
  ℕ, suc, ◌+◌, ◌-◌, ◌%◌, ◌^◌, ◌<◌, ◌≤◌, ◌≡◌, refl, sym, subst, ap, ap₂, ◌∙◌, Bool, true, false,
  none, List, [], ◌∷◌, ◌++◌, arith, All-get_or, length, get_or, drop,
}
use app_kaspa.Sdk.Platform.{Platform}
use app_kaspa.Sdk.Buffer.{Buffer}
use app_kaspa.Sdk.Blake2b.{Blake2bLaws}
use app_kaspa.Sdk.Write.{WriteLaws}
use app_kaspa.Context.{state_approved, confirm_transaction, GlobalCtx}
use app_kaspa.Transaction.{Transaction, zero_input}
use app_kaspa.Sighash.{signing_key}
use app_kaspa.Sighash.Preimage.{preimage, Ids, Scripts}
use app_kaspa.Crypto.{address_path, signing_input, crypto_sign_transaction}
use app_kaspa.Crypto.Signs.{protocol_sighash, crypto_sign_transaction-signs}
use app_kaspa.Response.{Response, sw_ok}
use app_kaspa.Display.{Reply}
use app_kaspa.Actions.{sign_input_and_send}
use app_kaspa.Actions.Accept.{sent_response}
use app_kaspa.Dispatcher.{apdu_dispatcher}
use app_kaspa.Handlers.SignTx.{handler_sign_tx}
use app_kaspa.Handlers.Approved.{crypto_sign_transaction-keeps}
use app_kaspa.Session.{answer, conclude, exchange, app_main}
use app_kaspa.Session.Keys.{
  Reliable, input_path, address_path_five, length-address_path, next_signature, next_signatures,
}

module _ (p : Platform) (laws : Blake2bLaws p.blake2b) (wl : WriteLaws p.write) where
  open p use {crypto}
  open crypto use {
    bip32_derive_init_privkey_256, cx_ecfp_generate_pair_no_throw, cx_ecschnorr_sign_no_throw,
  }

  -- The response with the signature of the input at an index: how many are left, the index, the
  -- signature of the protocol's hash with the key of the input's path, and the hash.
  abbrev pub input_signature : Transaction → ℕ → ℕ → Response
  input_signature tx i random =
      let txin = get_or tx.tx_inputs i zero_input in
      let (_, private_key) = bip32_derive_init_privkey_256 (input_path tx txin) in
      let (_, public_key) = cx_ecfp_generate_pair_no_throw private_key in
      let h = laws.digest 32 signing_key in
      let sighash = h (preimage h tx txin (drop 1 public_key)) in
      let (_, signature) = cx_ecschnorr_sign_no_throw random private_key sighash in
      record {
        bytes = ((tx.tx_input_len + 2 ^ 64 - i - 1) % 256) ∷ i ∷ 64 ∷ (signature ++ 32 ∷ sighash);
        sw = sw_ok;
      }

  abbrev pub input_signatures : Transaction → ℕ → List ℕ → List Response
  input_signatures tx i [] = []
  input_signatures tx i (random ∷ randoms) =
      input_signature tx i random ∷ input_signatures tx (suc i) randoms

  -- A context in which the input at an index is to be signed.
  pub record Signing (tx : Transaction) (i : ℕ) (g : GlobalCtx) : Type 0 where
    pub same_transaction : g.tx_info.transaction ≡ tx
    pub at_index : g.tx_info.signing_input_index ≡ i
    pub is_approved : g.state ≡ state_approved
    pub wanted : g.req_type ≡ confirm_transaction
    pub five_levels : length g.bip32_path ≡ 5

  crypto_sign_transaction-path :
      (random : ℕ) (g : GlobalCtx)
      → (crypto_sign_transaction p random g).1.bip32_path
        ≡ address_path g.bip32_path g.tx_info.transaction.account
            (signing_input g).address_type
            (signing_input g).address_index
  unfolding crypto_sign_transaction
  crypto_sign_transaction-path random g = ground arith

  crypto_sign_transaction-request :
      (random : ℕ) (g : GlobalCtx) → (crypto_sign_transaction p random g).1.req_type ≡ g.req_type
  unfolding crypto_sign_transaction
  crypto_sign_transaction-request random g = ground arith

  signed_context :
      (random : ℕ) (tx : Transaction) (i : ℕ) (g : GlobalCtx)
      → (crypto_sign_transaction p random g).0 ≡ 0
      → i < 255
      → Signing tx i g
      → let r = sign_input_and_send p random g in Signing tx (suc i) r.context × (r.review ≡ none)
  unfolding sign_input_and_send
  signed_context random tx i g h few s =
      let (kept, state, index) = crypto_sign_transaction-keeps p random g in
      let path =
        ap length (crypto_sign_transaction-path random g)
        ∙ length-address_path g.bip32_path g.tx_info.transaction.account
            (signing_input g).address_type (signing_input g).address_index in
      rw h (
        record {
          same_transaction = kept ∙ s.same_transaction;
          at_index = ap (λ k. (k + 1) % 256) (index ∙ s.at_index) ∙ omega arith;
          is_approved = state ∙ s.is_approved;
          wanted = crypto_sign_transaction-request random g ∙ s.wanted;
          five_levels = path ∙ s.five_levels;
        },
        refl,
      )

  handled_next :
      (random : ℕ) (cdata : Buffer) (more : Bool) (tx : Transaction) (i : ℕ) (g : GlobalCtx)
      → Signing tx i g
      → handler_sign_tx p random cdata 3 more g ≡ sign_input_and_send p random g
  unfolding handler_sign_tx
  handled_next random cdata more tx i g s = rw (s.wanted, s.is_approved) refl

  next_signature-signs :
      (random : ℕ) (tx : Transaction) (i : ℕ) (g : GlobalCtx)
      → Signing tx i g
      → (sign_input_and_send p random g).review ≡ none
      → exchange p (next_signature random) g ≡ sign_input_and_send p random g
  unfolding exchange answer apdu_dispatcher conclude
  next_signature-signs random tx i g s ends =
      let r = sign_input_and_send p random g in
      ap (λ (r : Reply). conclude p random true r.review r)
        (handled_next random (record { ptr = []; size = 0; offset = 0 }) false tx i g s)
      ∙ ap (λ review. conclude p random true review r) ends

  module _ (ok : Reliable crypto) where
    sent_signature :
        (random : ℕ) (g : GlobalCtx)
        → Ids g.tx_info.transaction.tx_inputs
        → Scripts g.tx_info.transaction.tx_output_len g.tx_info.transaction.tx_outputs
        → length g.bip32_path ≡ 5
        → ((crypto_sign_transaction p random g).0 ≡ 0)
          × ((sign_input_and_send p random g).sent
              ≡ input_signature g.tx_info.transaction g.tx_info.signing_input_index random ∷ [])
    sent_signature random g ids scripts five =
        let tx = g.tx_info.transaction in
        let txin = signing_input g in
        let path = input_path tx txin in
        let private_key = (bip32_derive_init_privkey_256 path).1 in
        let public_key = (cx_ecfp_generate_pair_no_throw private_key).1 in
        let sighash = protocol_sighash p laws wl g (drop 1 public_key) in
        let signature = (cx_ecschnorr_sign_no_throw random private_key sighash).1 in
        let derived =
          ap bip32_derive_init_privkey_256
            (address_path_five g.bip32_path tx.account txin.address_type txin.address_index five)
          ∙ ap {B = ℕ × List ℕ} (λ error. (error, private_key)) (ok.derives path) in
        let paired = ap {B = ℕ × List ℕ} (λ error. (error, public_key)) (ok.pairs private_key) in
        let made = ok.signs random private_key sighash in
        let id =
          All-get_or (λ txin. length txin.tx_id ≡ 32) tx.tx_inputs g.tx_info.signing_input_index
            zero_input ids refl in
        let (error, hashed, signed, kept, _) =
          crypto_sign_transaction-signs p laws wl random g private_key public_key derived paired
            (ok.long_key private_key) ids id scripts in
        (
          error ∙ made,
          sent_response p laws wl random g signature sighash
              (ok.whole_signature random private_key sighash) (laws.length-digest 32 signing_key _)
              (error ∙ made, hashed, signed, kept),
        )

    -- One signature: the response is that of the input, and the next one comes up.
    pub sign_input_and_send-signs :
        (random : ℕ) (tx : Transaction) (i : ℕ) (g : GlobalCtx)
        → Ids tx.tx_inputs
        → Scripts tx.tx_output_len tx.tx_outputs
        → i < 255
        → Signing tx i g
        → let r = sign_input_and_send p random g in
          (r.sent ≡ input_signature tx i random ∷ [])
          × Signing tx (suc i) r.context
          × (r.review ≡ none)
    sign_input_and_send-signs random tx i g ids scripts few s =
        let tx_inputs = subst (λ t. Ids t.tx_inputs) (sym s.same_transaction) ids in
        let tx_outputs =
          subst (λ (t : Transaction). Scripts t.tx_output_len t.tx_outputs) (sym s.same_transaction)
            scripts in
        let (error, sent) = sent_signature random g tx_inputs tx_outputs s.five_levels in
        (
          sent ∙ ap₂ (λ t k. input_signature t k random ∷ []) s.same_transaction s.at_index,
          (signed_context random tx i g error few s).0,
          (signed_context random tx i g error few s).1,
        )

    -- However many signatures are asked for, up to the index 255, each exchange with P1 3 answers with
    -- that of the next input.
    pub signatures_in_order :
        (randoms : List ℕ) (tx : Transaction) (i : ℕ) (g : GlobalCtx)
        → Ids tx.tx_inputs
        → Scripts tx.tx_output_len tx.tx_outputs
        → i + length randoms ≤ 255
        → Signing tx i g
        → (app_main p (next_signatures randoms) g).1 ≡ input_signatures tx i randoms
    unfolding app_main
    signatures_in_order [] tx i g ids scripts few s = refl
    signatures_in_order (random ∷ randoms) tx i g ids scripts few s =
        let (sent, next, ends) =
          sign_input_and_send-signs random tx i g ids scripts (omega arith) s in
        let rest = next_signatures randoms in
        ap (λ (r : Reply). r.sent ++ (app_main p rest r.context).1)
          (next_signature-signs random tx i g s ends)
        ∙ ap₂ ◌++◌ sent (signatures_in_order randoms tx (suc i) _ ids scripts (omega arith) next)
