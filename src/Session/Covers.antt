-- ===== src/Session/Covers.antt =====
-- What the signatures of a session's inputs are made of.
use app_kaspa.Prelude.{ℕ, ◌≤◌, ◌≡◌, ◌⊎◌, List, [], ◌∷◌, ◌++◌, drop, take}
use app_kaspa.Sdk.Platform.{Platform}
use app_kaspa.Sdk.Blake2b.{Blake2bLaws}
use app_kaspa.Sdk.Write.{WriteLaws}
use app_kaspa.Context.{state_approved, confirm_transaction, GlobalCtx}
use app_kaspa.Response.{Response}
use app_kaspa.Crypto.Signs.{signing_path, protocol_sighash}
use app_kaspa.Actions.Accept.{signature_response}
use app_kaspa.Session.{Exchange, start_context}
use app_kaspa.Session.Follows.{Incomplete}
use app_kaspa.Session.Consent.{Consented}
use app_kaspa.Session.Recipient.{FirstScript}
use app_kaspa.Session.Scripted.{Scripted}

module _ (p : Platform) (laws : Blake2bLaws p.blake2b) (wl : WriteLaws p.write) where
  -- The response has the signature of the protocol's hash for the input under way of `g`, made
  -- with the private key that the device derives for the input's path.
  abbrev pub SignatureOf : ℕ → GlobalCtx → List Response → Type 0
  SignatureOf random g sent =
      (private_key : List ℕ) × (public_key : List ℕ) × (signature : List ℕ) × (let sighash =
          protocol_sighash p laws wl g (drop 1 public_key) in
        (p.crypto.bip32_derive_init_privkey_256 (take 5 (signing_path p laws wl g))
          ≡ (0, private_key))
        × (p.crypto.cx_ecfp_generate_pair_no_throw private_key ≡ (0, public_key))
        × (p.crypto.cx_ecschnorr_sign_no_throw random private_key sighash ≡ (0, signature))
        × (sent ≡ signature_response g signature sighash ∷ []))

  -- A declared part is missing, or the index is past the array of the inputs, where the device reads
  -- what lies behind; or the first output has one of the three scripts and the response is for the
  -- input under way.
  abbrev pub Signs : ℕ → GlobalCtx → List Response → Type 0
  Signs random g sent =
      Incomplete g.tx_info
      ⊎ (p.max_input_count ≤ g.tx_info.signing_input_index)
      ⊎ (FirstScript g × SignatureOf random g sent)

  -- What a session's next signature of an input is of, and where the consent comes from.
  abbrev pub Covers : List Exchange → Exchange → List Response → Type 0
  Covers es e sent =
      (g : GlobalCtx) × (g.state ≡ state_approved)
      × (g.req_type ≡ confirm_transaction)
      × Consented p (es ++ e ∷ []) (start_context p) g.tx_info
      × Signs e.random g sent
