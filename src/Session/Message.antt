-- ===== src/Session/Message.antt =====
-- A session of SIGN_MESSAGE: a message is sent, reviewed, accepted and signed.
use app_kaspa.Prelude.{
  ℕ, ◌≤◌, ◌≡◌, refl, sym, ap, ◌∙◌, true, some, List, [], ◌∷◌, ◌++◌, arith, length, length-splice,
  length-take, length-drop, take_all, drop, slice, splice, splice-whole, replicate,
}
use app_kaspa.Sdk.Platform.{Platform}
use app_kaspa.Sdk.Buffer.{BufferLaws}
use app_kaspa.Sdk.Blake2b.{Blake2bLaws}
use app_kaspa.Sdk.Write.{WriteLaws}
use app_kaspa.Context.{state_approved, zero_context, GlobalCtx}
use app_kaspa.PersonalMessage.{message_signing_key}
use app_kaspa.Crypto.{message_memory, crypto_sign_personal_message}
use app_kaspa.Crypto.Signs.{crypto_sign_personal_message-signs}
use app_kaspa.Format.{format_message_to_sign}
use app_kaspa.Response.{sw_ok, helper_send_response_personal_message_sig}
use app_kaspa.Display.{Reply, begin_review, review_message, c_string, path_text, ui_display_message}
use app_kaspa.Actions.{decide, validate_message}
use app_kaspa.Handlers.Message.{
  MessageLayout, message_type, message_index, message_account, length_field, message_context,
  handler_sign_msg-reviews,
}
use app_kaspa.Dispatcher.{apdu_dispatcher}
use app_kaspa.Session.{Exchange, answer, conclude, exchange}

-- SIGN_MESSAGE with its data; the user accepts the review.
abbrev pub sign_message : ℕ → List ℕ → Exchange
sign_message random bytes = record {
  command =
      some (record {
        cla = 0xe0;
        ins = 0x07;
        p1 = 0;
        p2 = 0;
        lc = length bytes;
        payload = some bytes;
      });
  choice = true;
  random = random;
}

pub signature_sent :
    (g : GlobalCtx) (signature hash : List ℕ)
    → length signature ≡ 64
    → length hash ≡ 32
    → g.msg_info.signature ≡ signature
    → g.msg_info.message_hash ≡ hash
    → helper_send_response_personal_message_sig g
      ≡ record { bytes = 64 ∷ (signature ++ 32 ∷ hash); sw = sw_ok }
unfolding helper_send_response_personal_message_sig
signature_sent g signature hash l k s h =
    rw (s, h, take_all 64 signature (omega arith), take_all 32 hash (omega arith)) refl

module _ (p : Platform) (laws : BufferLaws p.buffer) (blake : Blake2bLaws p.blake2b)
    (write : WriteLaws p.write) where
  open p use {crypto}

  -- The path 44'/111111'/account/type/index of the data.
  abbrev pub message_path : List ℕ → List ℕ
  message_path bytes =
      0x8000002c
      ∷ 0x8001b207
      ∷ message_account bytes
      ∷ message_type bytes
      ∷ message_index bytes
      ∷ []

  abbrev pub message_digest : List ℕ → List ℕ
  message_digest bytes = blake.digest 32 message_signing_key (slice bytes 10 (length_field bytes))

  -- The arrays of the context behind the message keep their sizes.
  context_sizes :
      (bytes : List ℕ)
      → let m = (message_context p laws bytes).msg_info in
        (length m.message_hash ≡ 32) × (length m.signature ≡ 64)
  context_sizes bytes =
      let memory =
        splice (message_memory (zero_context p.max_input_count).msg_info) 0
          (slice bytes 10 (length_field bytes)) in
      let size : length memory ≡ 224 =
        length-splice (message_memory (zero_context p.max_input_count).msg_info) 0 _ in
      (
        omega (arith, length-take 32 (drop 128 memory), length-drop 128 memory, size),
        omega (arith, length-drop 160 memory, size),
      )

  displayed :
      (bytes path : List ℕ)
      → let g = message_context p laws bytes in
        path_text p g ≡ some path
        → ui_display_message p g
          ≡ begin_review g (
              review_message path (
                c_string (
                  format_message_to_sign
                    (replicate p.message_buffer_len 0)
                    p.message_buffer_len
                    (message_memory g.msg_info)
                    g.msg_info.message_len)))
  unfolding ui_display_message
  displayed bytes path h = rw h refl

  accepted_message-sends :
      (random : ℕ) (g : GlobalCtx)
      → (crypto_sign_personal_message p random (record g { state = state_approved })).0 ≡ 0
      → (validate_message p random true g).sent
        ≡ helper_send_response_personal_message_sig
            (crypto_sign_personal_message p random (record g { state = state_approved })).1
          ∷ []
  unfolding validate_message
  accepted_message-sends random g h = rw h refl

  -- A message is sent in data of the layout that the device knows, and the user accepts its review.
  -- Whatever the context was, where MAX_MESSAGE_LEN is at most 224, the path has a text, and the
  -- device makes a signature of 64 bytes without an error, the one answer is the signature of the
  -- keyed hash of the text with the key of 44'/111111'/account/type/index, and the hash.
  pub message_session_signs :
      (random : ℕ) (bytes path signature : List ℕ) (g : GlobalCtx)
      → MessageLayout p.max_message_len bytes
      → p.max_message_len ≤ 224
      → path_text p (message_context p laws bytes) ≡ some path
      → (let (_, private_key) = crypto.bip32_derive_init_privkey_256 (message_path bytes) in
          crypto.cx_ecschnorr_sign_no_throw random private_key (message_digest bytes)
          ≡ (0, signature))
      → length signature ≡ 64
      → (exchange p (sign_message random bytes) g).sent
        ≡ record { bytes = 64 ∷ (signature ++ 32 ∷ message_digest bytes); sw = sw_ok } ∷ []
  unfolding exchange answer apdu_dispatcher conclude decide
  message_session_signs random bytes path signature g layout fits shown made l =
      let ctx = message_context p laws bytes in
      let approved = record ctx { state = state_approved } in
      let (reviewed, kept) = handler_sign_msg-reviews p laws bytes g layout fits in
      let (hash_size, signature_size) = context_sizes bytes in
      let (error, hashed, signed, _) =
        crypto_sign_personal_message-signs p blake write random approved hash_size in
      let digest = ap (blake.digest 32 message_signing_key) kept in
      let private_key = (crypto.bip32_derive_init_privkey_256 (message_path bytes)).1 in
      let result = ap (crypto.cx_ecschnorr_sign_no_throw random private_key) digest ∙ made in
      let done = error ∙ ap (λ (r : ℕ × List ℕ). r.0) result in
      let whole =
        signed
        ∙ ap (λ (r : ℕ × List ℕ). splice ctx.msg_info.signature 0 r.1) result
        ∙ splice-whole ctx.msg_info.signature signature (l ∙ sym signature_size) in
      ap (λ (r : Reply). (conclude p random true r.review r).sent)
        (reviewed ∙ displayed bytes path shown)
      ∙ accepted_message-sends random ctx done
      ∙ ap (λ r. r ∷ [])
          (signature_sent (crypto_sign_personal_message p random approved).1 signature
            (message_digest bytes) l (blake.length-digest 32 message_signing_key _) whole
            (hashed ∙ digest))
