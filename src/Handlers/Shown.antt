-- ===== src/Handlers/Shown.antt =====
-- The addresses that the reviews of SIGN_TX and GET_PUBLIC_KEY show.
use app_kaspa.Prelude.{
  ◌++◌, ℕ, ◌≤◌, ◌≡◌, inl, inr, refl, sym, subst, ap, Bool, true, none, some, List, [], ◌∷◌, arith,
  All, All-take, All-drop, IsByte, length, length-take, length-drop, drop, slice, get_or, take,
  replicate, splice, take-splice,
}
use app_kaspa.Sdk.Platform.{Platform}
use app_kaspa.Sdk.Buffer.{Buffer}
use app_kaspa.Context.{GlobalCtx}
use app_kaspa.Transaction.{zero_output}
use app_kaspa.Transaction.Utils.AddressOf.{
  Pays, script_public_key_to_address-Pays, address_from_pubkey-payload,
}
use app_kaspa.Address.{
  AddressType, schnorr, version, address_len, compress_public_key, address_from_pubkey,
  encode_address,
}
use app_kaspa.Address.Reads.{Pays-length}
use app_kaspa.Response.{sw_ok, helper_send_response_pubkey}
use app_kaspa.Display.{
  review_pubkey, review_transaction, shown_address, Reply, path_text, c_string, ui_display_address,
}
use app_kaspa.Display.Shown.{ReadsAs, encode_address-ReadsAs}
use app_kaspa.Actions.{decide}
use app_kaspa.Handlers.SignTx.{handler_sign_tx}
use app_kaspa.Handlers.PublicKey.{handler_get_public_key}
use app_kaspa.Handlers.Review.{handler_sign_tx-Reviews}
use app_kaspa.Handlers.Key.{OwnKey, handler_get_public_key-OwnKey}

-- The address that is shown for a first output of a script that pays a payload.
pub shown_address-ReadsAs :
    (p : Platform) (g : GlobalCtx) (payload : List ℕ) (kind : AddressType)
    → let script = (get_or g.tx_info.transaction.tx_outputs 0 zero_output).script_public_key in
      length script ≡ 40
      → All IsByte payload
      → Pays script kind payload
      → ReadsAs (shown_address p g) (version kind ∷ payload)
shown_address-ReadsAs p g payload kind room bytes pays =
    let script = (get_or g.tx_info.transaction.tx_outputs 0 zero_output).script_public_key in
    let written =
      script_public_key_to_address-Pays (replicate 69 0) script payload 69 kind room (omega arith)
        pays in
    let shown : shown_address p g
        ≡ c_string (
            splice (replicate 69 0) 0
              (take (address_len kind) (encode_address payload (length payload) kind))) =
      ap (λ (r : Bool × List ℕ). c_string r.1) written in
    rw shown (encode_address-ReadsAs payload kind (Pays-length script payload kind room pays) bytes)

module _ (p : Platform) where
  -- The address in a review of SIGN_TX is that of the first output: read back, it gives the version of
  -- the script's type and the hash or the key that the script pays. The script is in its array of 40
  -- bytes.
  pub review_shows_recipient :
      (random : ℕ) (cdata : Buffer) (type : ℕ) (more : Bool) (g : GlobalCtx)
      (amount fees address payload : List ℕ) (kind : AddressType)
      → let r = handler_sign_tx p random cdata type more g in
        let script =
          (get_or r.context.tx_info.transaction.tx_outputs 0 zero_output).script_public_key in
        r.review ≡ some (review_transaction amount fees address)
        → length script ≡ 40
        → All IsByte payload
        → Pays script kind payload
        → ReadsAs address (version kind ∷ payload)
  review_shows_recipient random cdata type more g amount fees address payload kind h room bytes
        pays =
      let r = handler_sign_tx p random cdata type more g in
      let (shows, state, valid) =
        handler_sign_tx-Reviews p random cdata type more g amount fees address h in
      rw shows.2 (shown_address-ReadsAs p r.context payload kind room bytes pays)

  schnorr_address :
      (key : List ℕ)
      → 32 ≤ length key
      → let payload = take 32 key in
        address_from_pubkey key schnorr (replicate 69 0) 69 ≡ (
          true,
          splice (replicate 69 0) 0 (take 67 (encode_address payload (length payload) schnorr)),
        )
  unfolding compress_public_key
  schnorr_address key long =
      let payload = take 32 key in
      let size : 32 ≡ length payload = omega (arith, length-take 32 key) in
      address_from_pubkey-payload key payload (splice (replicate 33 0) 0 payload) (replicate 69 0)
        69 schnorr 32 (omega arith) refl (omega arith) size
        (take-splice (replicate 33 0) payload 32 size (omega arith))

  ui_display_address-shows :
      (g : GlobalCtx) (path address : List ℕ)
      → (ui_display_address p g).review ≡ some (review_pubkey path address)
      → (path_text p g ≡ some path)
        × (address
            ≡ c_string (address_from_pubkey g.pk_info.raw_public_key schnorr (replicate 69 0) 69).1)
        × ((ui_display_address p g).context ≡ g)
  unfolding ui_display_address
  ui_display_address-shows g path address h = ground arith

  handler_get_public_key-by_end :
      (P : Reply → Type 0) (cdata : Buffer) (display : Bool) (g : GlobalCtx)
      → ((r : Reply) → r.review ≡ none → P r)
      → ((g' : GlobalCtx) → P (ui_display_address p g'))
      → P (handler_get_public_key p cdata display g)
  unfolding handler_get_public_key
  handler_get_public_key-by_end P cdata display g none_open at_end =
      grind (arith, none_open, at_end)

  -- The texts of a review of the key of a context.
  abbrev ShowsKey : Reply → Type 0
  ShowsKey r =
      (path address : List ℕ)
      → r.review ≡ some (review_pubkey path address)
      → (path_text p r.context ≡ some path)
        × (address
            ≡ c_string
                (address_from_pubkey r.context.pk_info.raw_public_key schnorr (replicate 69 0)
                  69).1)

  handler_get_public_key-ShowsKey :
      (cdata : Buffer) (display : Bool) (g : GlobalCtx)
      → ShowsKey (handler_get_public_key p cdata display g)
  handler_get_public_key-ShowsKey cdata display g =
      handler_get_public_key-by_end ShowsKey cdata display g
        (λ r shut path address h. absurd (ground arith))
        (λ g' path address h.
          let (shown, text, same) = ui_display_address-shows g' path address h in
          rw same (shown, text))

  key-ReadsAs :
      (key : List ℕ)
      → 32 ≤ length key
      → All IsByte (take 32 key)
      → ReadsAs (c_string (address_from_pubkey key schnorr (replicate 69 0) 69).1) (0 ∷ take 32 key)
  key-ReadsAs key long bytes =
      rw (schnorr_address key long)
        (encode_address-ReadsAs (take 32 key) schnorr (omega (arith, length-take 32 key)) bytes)

  -- When GET_PUBLIC_KEY has an address reviewed, the context has the key that the device derives for
  -- a path of the application, the path is shown, the address reads back as the version 0 and the
  -- first 32 bytes of the key, and if the user accepts, the response is 65, 4, this key, 32 and its
  -- chain code. The device's raw public keys are 65 bytes.
  pub reviewed_key_sent :
      (random : ℕ) (cdata : Buffer) (display : Bool) (g : GlobalCtx) (path address : List ℕ)
      → ((path' : List ℕ)
          → let raw_pubkey = (p.crypto.bip32_derive_get_pubkey_256 path').1 in
            (length raw_pubkey ≡ 65) × All IsByte raw_pubkey)
      → let r = handler_get_public_key p cdata display g in
        r.review ≡ some (review_pubkey path address)
        → OwnKey p r.context
          × (path_text p r.context ≡ some path)
          × ReadsAs address (0 ∷ take 32 r.context.pk_info.raw_public_key)
          × ((decide p random true (review_pubkey path address) r.context).sent
              ≡ record {
                bytes =
                    65
                    ∷ 0x04
                    ∷ (take 64 r.context.pk_info.raw_public_key
                        ++ 32 ∷ take 32 r.context.pk_info.chain_code);
                sw = sw_ok;
              }
                ∷ [])
  unfolding decide helper_send_response_pubkey
  reviewed_key_sent random cdata display g path address raw h =
      let r = handler_get_public_key p cdata display g in
      let (shown, text) = handler_get_public_key-ShowsKey cdata display g path address h in
      elim (handler_get_public_key-OwnKey p cdata display g) [
        | inl (shut, _) ↦ absurd (ground arith)
        | inr own ↦
            let at = take r.context.bip32_path_len r.context.bip32_path in
            let raw_pubkey = (p.crypto.bip32_derive_get_pubkey_256 at).1 in
            let (size, bytes) = raw at in
            let long : 32 ≤ length r.context.pk_info.raw_public_key = omega (
              arith,
              ap length own.5,
              length-take 64 (drop 1 raw_pubkey),
              length-drop 1 raw_pubkey,
            ) in
            let key_bytes : All IsByte (take 32 r.context.pk_info.raw_public_key) =
              subst (λ (key : List ℕ). All IsByte (take 32 key)) (sym own.5)
                (All-take IsByte 32 (slice raw_pubkey 1 64)
                  (All-take IsByte 64 (drop 1 raw_pubkey) (All-drop IsByte 1 raw_pubkey bytes))) in
            (
              own,
              shown,
              rw text (key-ReadsAs r.context.pk_info.raw_public_key long key_bytes),
              refl,
            )
      ]
