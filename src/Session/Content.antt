-- ===== src/Session/Content.antt =====
-- What a signing command can send: status words, or a signature that the user has agreed to.
use app_kaspa.Prelude.{
  ℕ, ◌≡◌, ◌⊎◌, inl, refl, ap, Bool, true, false, Option, none, some, List, [], ◌∷◌, arith,
  replicate,
}
use app_kaspa.Sdk.Platform.{Platform}
use app_kaspa.Sdk.Buffer.{Buffer}
use app_kaspa.Context.{state_approved, confirm_transaction, GlobalCtx}
use app_kaspa.Response.{
  Response, helper_send_response_sig, helper_send_response_personal_message_sig,
}
use app_kaspa.Format.{format_message_to_sign}
use app_kaspa.Display.{
  Review, review_pubkey, review_message, Reply, reply_sw, ui_display_transaction,
  ui_display_message, path_text, c_string,
}
use app_kaspa.Actions.{sign_input_and_send}
use app_kaspa.Crypto.{crypto_sign_transaction, crypto_sign_personal_message, message_memory}
use app_kaspa.Handlers.SignTx.{end_chunk, handler_sign_tx}
use app_kaspa.Handlers.Review.{handler_sign_tx-by_end}
use app_kaspa.Handlers.SignMsg.{handler_sign_msg}
use app_kaspa.Dispatcher.{Command, apdu_dispatcher}
use app_kaspa.Session.{answer}
use app_kaspa.Session.Phases.{of_message}
use app_kaspa.Session.Approval.{Silent, is_signing}
use app_kaspa.Session.Silence.{
  start_transaction-Silent, parse_output-Silent, parse_input-Silent, handler_sign_msg-Silent,
}
use app_kaspa.Session.Loyal.{handler_sign_tx-by_type}

abbrev pub of_pubkey : Option Review → Bool
of_pubkey (some (review_pubkey path address)) = true
of_pubkey _ = false

module _ (p : Platform) where
  -- The one response has the signature of the input under way of `g`, which is approved.
  abbrev pub SignsInput : ℕ → GlobalCtx → List Response → Type 0
  SignsInput random g sent =
      let (error, g') = crypto_sign_transaction p random g in
      (g.state ≡ state_approved)
      × (g.req_type ≡ confirm_transaction)
      × (error ≡ 0)
      × (sent ≡ helper_send_response_sig g' ∷ [])

  -- The one response has the signature of the message of `g`.
  abbrev pub SignsMessage : ℕ → GlobalCtx → List Response → Type 0
  SignsMessage random g sent =
      let (error, g') = crypto_sign_personal_message p random g in
      (g.state ≡ state_approved)
      × (error ≡ 0)
      × (sent ≡ helper_send_response_personal_message_sig g' ∷ [])

  pub sign_input_and_send-content :
      (random : ℕ) (g : GlobalCtx)
      → g.state ≡ state_approved
      → g.req_type ≡ confirm_transaction
      → let sent = (sign_input_and_send p random g).sent in Silent sent ⊎ SignsInput random g sent
  unfolding sign_input_and_send
  sign_input_and_send-content random g approved wanted = ground arith

  -- What an answer sends before the user decides.
  abbrev pub Sends : ℕ → GlobalCtx → Reply → Type 0
  Sends random g r = Silent r.sent ⊎ SignsInput random g r.sent

  handler_sign_tx-Sends :
      (random : ℕ) (cdata : Buffer) (type : ℕ) (more : Bool) (g : GlobalCtx)
      → Sends random g (handler_sign_tx p random cdata type more g)
  handler_sign_tx-Sends random cdata type more g =
      handler_sign_tx-by_type p (Sends random g) random cdata type more g
        (inl (start_transaction-Silent p cdata g)) (inl (parse_output-Silent p cdata more g))
        (inl (parse_input-Silent p cdata more g))
        (λ wanted approved. sign_input_and_send-content random g approved wanted)
        (inl (ground arith)) (λ sw. inl (ground arith))

  -- What every status word has and the two handlers give, a signing command gives.
  pub dispatched_signing :
      (P : Reply → Type 0) (random : ℕ) (cmd : Command) (g : GlobalCtx)
      → is_signing (some cmd) ≡ true
      → ((sw : ℕ) → P (reply_sw g sw))
      → ((cdata : Buffer) (type : ℕ) (more : Bool) → P (handler_sign_tx p random cdata type more g))
      → ((cdata : Buffer) → P (handler_sign_msg p cdata g))
      → P (apdu_dispatcher p random cmd g)
  unfolding apdu_dispatcher
  dispatched_signing P random cmd g signing refusal tx msg = grind (arith, refusal, tx, msg)

  pub answer-Sends :
      (random : ℕ) (command : Option Command) (g : GlobalCtx)
      → is_signing command ≡ true
      → Sends random g (answer p random command g)
  unfolding answer
  answer-Sends random none g signing = inl (ground arith)
  answer-Sends random (some cmd) g signing =
      dispatched_signing (Sends random g) random cmd g signing (λ sw. inl (ground arith))
        (λ cdata type more. handler_sign_tx-Sends random cdata type more g)
        (λ cdata. inl (handler_sign_msg-Silent p cdata g))

  -- The texts of a review of the message of a context.
  abbrev pub ShowsMessage : GlobalCtx → List ℕ → List ℕ → Type 0
  ShowsMessage g path message =
      let room = p.message_buffer_len in
      let text =
        format_message_to_sign (replicate room 0) room (message_memory g.msg_info)
          g.msg_info.message_len in
      (path_text p g ≡ some path) × (message ≡ c_string text)

  abbrev pub CandidMessage : Reply → Type 0
  CandidMessage r =
      (path message : List ℕ)
      → r.review ≡ some (review_message path message)
      → ShowsMessage r.context path message

  not_message-CandidMessage : (r : Reply) → of_message r.review ≡ false → CandidMessage r
  not_message-CandidMessage r other path message shown =
      let kind = ap of_message shown in absurd (ground arith)

  ui_display_transaction-kind :
      (g : GlobalCtx) → of_message (ui_display_transaction p g).review ≡ false
  unfolding ui_display_transaction
  ui_display_transaction-kind g = ground arith

  pub end_chunk-kind :
      (more : Bool) (g : GlobalCtx) → of_message (end_chunk p more g).review ≡ false
  unfolding end_chunk
  end_chunk-kind more g = grind (arith, ui_display_transaction-kind)

  ui_display_message-CandidMessage : (g : GlobalCtx) → CandidMessage (ui_display_message p g)
  unfolding ui_display_message
  ui_display_message-CandidMessage g path message shown = ground arith

  handler_sign_msg-by_end :
      (P : Reply → Type 0) (cdata : Buffer) (g : GlobalCtx)
      → ((r : Reply) → r.review ≡ none → P r)
      → ((g' : GlobalCtx) → P (ui_display_message p g'))
      → P (handler_sign_msg p cdata g)
  unfolding handler_sign_msg
  handler_sign_msg-by_end P cdata g none_open at_end = grind (arith, none_open, at_end)

  pub answer-CandidMessage :
      (random : ℕ) (command : Option Command) (g : GlobalCtx)
      → is_signing command ≡ true
      → CandidMessage (answer p random command g)
  unfolding answer
  answer-CandidMessage random none g signing = absurd (ground arith)
  answer-CandidMessage random (some cmd) g signing =
      let closed =
        λ (r : Reply) (shut : r.review ≡ none). not_message-CandidMessage r (ap of_message shut) in
      dispatched_signing CandidMessage random cmd g signing (λ sw. closed (reply_sw g sw) refl)
        (λ cdata type more.
          handler_sign_tx-by_end p CandidMessage random cdata type more g closed
            (λ g' _. not_message-CandidMessage (end_chunk p more g') (end_chunk-kind more g')))
        (λ cdata.
          handler_sign_msg-by_end CandidMessage cdata g closed ui_display_message-CandidMessage)

  ui_display_transaction-no_key :
      (g : GlobalCtx) → of_pubkey (ui_display_transaction p g).review ≡ false
  unfolding ui_display_transaction
  ui_display_transaction-no_key g = ground arith

  end_chunk-no_key : (more : Bool) (g : GlobalCtx) → of_pubkey (end_chunk p more g).review ≡ false
  unfolding end_chunk
  end_chunk-no_key more g = grind (arith, ui_display_transaction-no_key)

  ui_display_message-no_key : (g : GlobalCtx) → of_pubkey (ui_display_message p g).review ≡ false
  unfolding ui_display_message
  ui_display_message-no_key g = ground arith

  -- A signing command never has a key reviewed.
  pub answer-no_key :
      (random : ℕ) (command : Option Command) (g : GlobalCtx)
      → is_signing command ≡ true
      → of_pubkey (answer p random command g).review ≡ false
  unfolding answer
  answer-no_key random none g signing = refl
  answer-no_key random (some cmd) g signing =
      let NoKey = λ (r : Reply). of_pubkey r.review ≡ false in
      let closed = λ (r : Reply) (shut : r.review ≡ none). ap of_pubkey shut in
      dispatched_signing NoKey random cmd g signing (λ sw. refl)
        (λ cdata type more.
          handler_sign_tx-by_end p NoKey random cdata type more g closed
            (λ g' _. end_chunk-no_key more g'))
        (λ cdata. handler_sign_msg-by_end NoKey cdata g closed ui_display_message-no_key)
