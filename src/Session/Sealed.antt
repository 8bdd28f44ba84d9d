-- ===== src/Session/Sealed.antt =====
-- The signature of an accepted message, as the host gets it.
use app_kaspa.Prelude.{
  ℕ, ◌≡◌, refl, sym, ap, ◌∙◌, true, Option, none, some, List, [], ◌∷◌, ◌++◌, arith, drop, length,
  length-take, length-drop, length-splice, splice, splice-whole, take,
}
use app_kaspa.Sdk.Platform.{Platform}
use app_kaspa.Sdk.Buffer.{Buffer, bytes_at}
use app_kaspa.Sdk.Blake2b.{Blake2bLaws}
use app_kaspa.Sdk.Write.{WriteLaws}
use app_kaspa.Context.{state_approved, confirm_message, GlobalCtx, MessageSignCtx, zero_context}
use app_kaspa.PersonalMessage.{message_signing_key}
use app_kaspa.Response.{Response, sw_ok}
use app_kaspa.Crypto.{message_memory, address_path, crypto_sign_personal_message}
use app_kaspa.Crypto.Signs.{crypto_sign_personal_message-signs}
use app_kaspa.Display.{review_message, Reply, reply_sw, ui_display_message}
use app_kaspa.Handlers.SignTx.{end_chunk}
use app_kaspa.Handlers.SignMsg.{copy_message, handler_sign_msg}
use app_kaspa.Handlers.Review.{handler_sign_tx-by_end}
use app_kaspa.Dispatcher.{Command}
use app_kaspa.Session.{Exchange, answer}
use app_kaspa.Session.Approval.{is_signing}
use app_kaspa.Session.Phases.{of_message}
use app_kaspa.Session.Keys.{KeySizes}
use app_kaspa.Session.Content.{SignsMessage, ShowsMessage, dispatched_signing, end_chunk-kind}
use app_kaspa.Session.Agreed.{AcceptedMessage}
use app_kaspa.Session.Message.{signature_sent}

-- The sizes of the arrays for the hash and the signature of a message.
abbrev pub MessageSizes : MessageSignCtx → Type 0
MessageSizes m = (length m.message_hash ≡ 32) × (length m.signature ≡ 64)

copy_message-MessageSizes :
    (m : MessageSignCtx) (bytes : List ℕ)
    → length (message_memory m) ≡ 224
    → MessageSizes (copy_message m bytes)
copy_message-MessageSizes m bytes whole =
    let memory = splice (message_memory m) 0 bytes in
    let size = length-splice (message_memory m) 0 bytes in
    (
      omega (arith, length-take 32 (drop 128 memory), length-drop 128 memory, size),
      omega (arith, length-drop 160 memory, size),
    )

module _ (p : Platform) where
  -- A review of a message finds its arrays in their sizes.
  abbrev Sized : Reply → Type 0
  Sized r =
      (path message : List ℕ)
      → r.review ≡ some (review_message path message)
      → MessageSizes r.context.msg_info

  not_message-Sized : (r : Reply) → of_message r.review ≡ of_message none → Sized r
  not_message-Sized r other path message shown =
      let kind = ap of_message shown in absurd (ground arith)

  ui_display_message-Sized :
      (g : GlobalCtx) → MessageSizes g.msg_info → Sized (ui_display_message p g)
  unfolding ui_display_message
  ui_display_message-Sized g sizes path message shown = ground arith

  handler_sign_msg-by_display :
      (P : Reply → Type 0) (cdata : Buffer) (g : GlobalCtx)
      → ((r : Reply) → r.review ≡ none → P r)
      → ((g' : GlobalCtx) → MessageSizes g'.msg_info → P (ui_display_message p g'))
      → P (handler_sign_msg p cdata g)
  unfolding handler_sign_msg
  handler_sign_msg-by_display P cdata g none_open at_end =
      let g₀ = record (zero_context p.max_input_count) { req_type = confirm_message } in
      let m₀ = g₀.msg_info in
      let (typed, address_type, buf₁) = p.buffer.buffer_read_u8 cdata 0 in
      let (placed, address_index, buf₂) = p.buffer.buffer_read_u32 buf₁ 0 in
      let (owned, account, buf₃) = p.buffer.buffer_read_u32 buf₂ 0 in
      let (sized, message_len, buf₄) = p.buffer.buffer_read_u8 buf₃ 0 in
      let m₄ = record m₀ {
        address_type = address_type;
        address_index = address_index;
        account = account;
        message_len = message_len;
      } in
      let g₆ = record g₀ {
        msg_info = copy_message m₄ (bytes_at buf₄ message_len);
        bip32_path = address_path g₀.bip32_path account address_type address_index;
        bip32_path_len = 5;
      } in
      let shown = at_end g₆ (copy_message-MessageSizes m₄ (bytes_at buf₄ message_len) refl) in
      grind (arith, none_open)

  answer-Sized :
      (random : ℕ) (command : Option Command) (g : GlobalCtx)
      → is_signing command ≡ true
      → Sized (answer p random command g)
  unfolding answer
  answer-Sized random none g signing = absurd (ground arith)
  answer-Sized random (some cmd) g signing =
      let closed =
        λ (r : Reply) (shut : r.review ≡ none). not_message-Sized r (ap of_message shut) in
      dispatched_signing p Sized random cmd g signing (λ sw. closed (reply_sw g sw) refl)
        (λ cdata type more.
          handler_sign_tx-by_end p Sized random cdata type more g closed
            (λ g' _. not_message-Sized (end_chunk p more g') (end_chunk-kind p more g')))
        (λ cdata. handler_sign_msg-by_display Sized cdata g closed ui_display_message-Sized)

  module _ (laws : Blake2bLaws p.blake2b) (wl : WriteLaws p.write) where
    -- The response has a signature of the keyed hash of the message of a context, by the key of its
    -- path, and the hash.
    abbrev pub MessageSignatureOf : ℕ → GlobalCtx → List Response → Type 0
    MessageSignatureOf random g sent =
        let m = g.msg_info in
        let hash = laws.digest 32 message_signing_key (take m.message_len (message_memory m)) in
        let (_, private_key) =
          p.crypto.bip32_derive_init_privkey_256 (take g.bip32_path_len g.bip32_path) in
        let (error, signature) = p.crypto.cx_ecschnorr_sign_no_throw random private_key hash in
        (error ≡ 0) × (sent ≡ record { bytes = 64 ∷ (signature ++ 32 ∷ hash); sw = sw_ok } ∷ [])

    SignsMessage-MessageSignatureOf :
        (random : ℕ) (g : GlobalCtx) (sent : List Response)
        → KeySizes p.crypto
        → MessageSizes g.msg_info
        → SignsMessage p random g sent
        → MessageSignatureOf random g sent
    SignsMessage-MessageSignatureOf random g sent sizes (hash_size, signature_size)
          (approved, done, one) =
        let m = g.msg_info in
        let hash = laws.digest 32 message_signing_key (take m.message_len (message_memory m)) in
        let private_key =
          (p.crypto.bip32_derive_init_privkey_256 (take g.bip32_path_len g.bip32_path)).1 in
        let signature = (p.crypto.cx_ecschnorr_sign_no_throw random private_key hash).1 in
        let l = sizes.whole_signature random private_key hash in
        let (error, hashed, signed, _) =
          crypto_sign_personal_message-signs p laws wl random g hash_size in
        let whole = signed ∙ splice-whole m.signature signature (l ∙ sym signature_size) in
        (
          sym error ∙ done,
          one
              ∙ ap (λ (r : Response). r ∷ [])
                  (signature_sent (crypto_sign_personal_message p random g).1 signature hash l
                    (laws.length-digest 32 message_signing_key _) whole hashed),
        )

    -- In the exchange the user accepted the review of the message whose signature is sent.
    abbrev pub MessageAgreed : Exchange → GlobalCtx → List Response → Type 0
    MessageAgreed e g sent =
        let r = answer p e.random e.command g in
        (e.choice ≡ true)
        × ((path : List ℕ) × (message : List ℕ) × (r.review ≡ some (review_message path message))
            × ShowsMessage p r.context path message
            × MessageSignatureOf e.random r.context sent)

    pub AcceptedMessage-MessageAgreed :
        (e : Exchange) (g : GlobalCtx) (sent : List Response)
        → KeySizes p.crypto
        → is_signing e.command ≡ true
        → AcceptedMessage p e g sent
        → MessageAgreed e g sent
    AcceptedMessage-MessageAgreed e g sent sizes signing
          (agreed, (path, message, shown, shows, signs)) =
        let r = answer p e.random e.command g in
        let sized = answer-Sized e.random e.command g signing path message shown in
        let g' = record r.context { state = state_approved } in
        (
          agreed,
          (
            path,
            message,
            shown,
            shows,
            SignsMessage-MessageSignatureOf e.random g' sent sizes sized signs,
          ),
        )
