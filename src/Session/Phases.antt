-- ===== src/Session/Phases.antt =====
-- What an answer does to the request and the state of the global context.
use app_kaspa.Prelude.{ℕ, ◌≡◌, ◌⊎◌, Bool, true, false, Option, none, some, arith}
use app_kaspa.Sdk.Platform.{Platform}
use app_kaspa.Sdk.Buffer.{Buffer}
use app_kaspa.Context.{state_none, state_parsed, confirm_transaction, confirm_message, GlobalCtx}
use app_kaspa.Display.{
  Review, review_transaction, review_message, Reply, reply_sw, ui_display_address,
  ui_display_transaction, ui_display_message,
}
use app_kaspa.Actions.{sign_input_and_send}
use app_kaspa.Crypto.{crypto_sign_transaction}
use app_kaspa.Handlers.SignTx.{
  start_transaction, end_chunk, parse_output, parse_input, handler_sign_tx,
}
use app_kaspa.Handlers.SignMsg.{handler_sign_msg}
use app_kaspa.Handlers.PublicKey.{handler_get_public_key, handler_get_version, handler_get_app_name}
use app_kaspa.Dispatcher.{Command, apdu_dispatcher}
use app_kaspa.Session.{answer}

-- The edges of an answer, before the user decides.
abbrev pub Quiet : GlobalCtx → GlobalCtx → Type 0
Quiet g g' =
    ((g'.req_type ≡ g.req_type) × (g'.state ≡ g.state))
    ⊎ (g'.state ≡ state_none)
    ⊎ ((g.req_type ≡ confirm_transaction)
        × (g'.req_type ≡ confirm_transaction)
        × (g'.state ≡ state_parsed))

abbrev pub of_transaction : Option Review → Bool
of_transaction (some (review_transaction amount fees address)) = true
of_transaction _ = false

abbrev pub of_message : Option Review → Bool
of_message (some (review_message path message)) = true
of_message _ = false

-- A review is of what the context is about.
abbrev pub Apt : Reply → Type 0
Apt r =
    ((of_transaction r.review ≡ false)
      ⊎ ((r.context.req_type ≡ confirm_transaction) × (r.context.state ≡ state_parsed)))
    × ((of_message r.review ≡ false) ⊎ (r.context.req_type ≡ confirm_message))

abbrev pub Answers : GlobalCtx → Reply → Type 0
Answers g r = Quiet g r.context × Apt r

module _ (p : Platform) where
  ui_display_address-Answers : (g : GlobalCtx) → Answers g (ui_display_address p g)
  unfolding ui_display_address
  ui_display_address-Answers g = ground arith

  ui_display_transaction-Answers : (g : GlobalCtx) → Answers g (ui_display_transaction p g)
  unfolding ui_display_transaction
  ui_display_transaction-Answers g = ground arith

  ui_display_message-Answers : (g : GlobalCtx) → Answers g (ui_display_message p g)
  unfolding ui_display_message
  ui_display_message-Answers g = ground arith

  start_transaction-Answers :
      (cdata : Buffer) (g : GlobalCtx) → Answers g (start_transaction p cdata g)
  unfolding start_transaction
  start_transaction-Answers cdata g = ground arith

  end_chunk-Answers :
      (more : Bool) (g : GlobalCtx)
      → g.req_type ≡ confirm_transaction
      → Answers g (end_chunk p more g)
  unfolding end_chunk
  end_chunk-Answers more g h = grind (arith, ui_display_transaction-Answers)

  parse_output-Answers :
      (cdata : Buffer) (more : Bool) (g : GlobalCtx)
      → g.req_type ≡ confirm_transaction
      → Answers g (parse_output p cdata more g)
  unfolding parse_output
  parse_output-Answers cdata more g h = grind (arith, end_chunk-Answers)

  parse_input-Answers :
      (cdata : Buffer) (more : Bool) (g : GlobalCtx)
      → g.req_type ≡ confirm_transaction
      → Answers g (parse_input p cdata more g)
  unfolding parse_input
  parse_input-Answers cdata more g h = grind (arith, end_chunk-Answers)

  handler_sign_msg-Answers :
      (cdata : Buffer) (g : GlobalCtx) → Answers g (handler_sign_msg p cdata g)
  unfolding handler_sign_msg
  handler_sign_msg-Answers cdata g = grind (arith, ui_display_message-Answers)

  handler_get_public_key-Answers :
      (cdata : Buffer) (display : Bool) (g : GlobalCtx)
      → Answers g (handler_get_public_key p cdata display g)
  unfolding handler_get_public_key
  handler_get_public_key-Answers cdata display g = grind (arith, ui_display_address-Answers)

  crypto_sign_transaction-stays :
      (random : ℕ) (g : GlobalCtx)
      → let g' = (crypto_sign_transaction p random g).1 in
        (g'.req_type ≡ g.req_type) × (g'.state ≡ g.state)
  unfolding crypto_sign_transaction
  crypto_sign_transaction-stays random g = ground arith

  pub sign_input_and_send-Answers :
      (random : ℕ) (g : GlobalCtx)
      → let r = sign_input_and_send p random g in
        (r.review ≡ none)
        × (((r.context.req_type ≡ g.req_type) × (r.context.state ≡ g.state))
            ⊎ (r.context.state ≡ state_none))
  unfolding sign_input_and_send
  sign_input_and_send-Answers random g = ground (arith, crypto_sign_transaction-stays random g)

  handler_sign_tx-Answers :
      (random : ℕ) (cdata : Buffer) (type : ℕ) (more : Bool) (g : GlobalCtx)
      → Answers g (handler_sign_tx p random cdata type more g)
  unfolding handler_sign_tx
  handler_sign_tx-Answers random cdata type more g = ground (
    arith,
    start_transaction-Answers cdata g,
    parse_output-Answers cdata more g,
    parse_input-Answers cdata more g,
    sign_input_and_send-Answers random g,
  )

  -- What every status word has and the handlers give, the dispatcher gives.
  pub dispatched :
      (P : Reply → Type 0) (random : ℕ) (cmd : Command) (g : GlobalCtx)
      → ((sw : ℕ) → P (reply_sw g sw))
      → P (handler_get_version p g)
      → P (handler_get_app_name p g)
      → ((cdata : Buffer) (type : ℕ) (more : Bool) → P (handler_sign_tx p random cdata type more g))
      → ((cdata : Buffer) → P (handler_sign_msg p cdata g))
      → ((cdata : Buffer) (display : Bool) → P (handler_get_public_key p cdata display g))
      → P (apdu_dispatcher p random cmd g)
  unfolding apdu_dispatcher
  dispatched P random cmd g refusal version name tx msg key =
      grind (arith, refusal, version, name, tx, msg, key)

  apdu_dispatcher-Answers :
      (random : ℕ) (cmd : Command) (g : GlobalCtx) → Answers g (apdu_dispatcher p random cmd g)
  unfolding handler_get_version handler_get_app_name
  apdu_dispatcher-Answers random cmd g =
      dispatched (Answers g) random cmd g (λ sw. ground arith) (ground arith) (ground arith)
        (λ cdata type more. handler_sign_tx-Answers random cdata type more g)
        (λ cdata. handler_sign_msg-Answers cdata g)
        (λ cdata display. handler_get_public_key-Answers cdata display g)

  pub answer-Answers :
      (random : ℕ) (command : Option Command) (g : GlobalCtx)
      → Answers g (answer p random command g)
  unfolding answer
  answer-Answers random none g = ground arith
  answer-Answers random (some cmd) g = apdu_dispatcher-Answers random cmd g
