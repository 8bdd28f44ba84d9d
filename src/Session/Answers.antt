-- ===== src/Session/Answers.antt =====
-- Every command is answered once.
use app_kaspa.Prelude.{ℕ, ◌+◌, Bool, ◌≡◌, refl, Option, none, some, arith, length, length-append}
use app_kaspa.Sdk.Platform.{Platform}
use app_kaspa.Sdk.Buffer.{Buffer}
use app_kaspa.Context.{state_approved, GlobalCtx}
use app_kaspa.Display.{
  Review, review_pubkey, review_transaction, review_message, Reply, ui_display_address,
  ui_display_transaction, ui_display_message,
}
use app_kaspa.Actions.{sign_input_and_send, decide}
use app_kaspa.Handlers.SignTx.{
  start_transaction, end_chunk, parse_output, parse_input, handler_sign_tx,
}
use app_kaspa.Handlers.SignMsg.{handler_sign_msg}
use app_kaspa.Handlers.PublicKey.{handler_get_public_key, handler_get_version, handler_get_app_name}
use app_kaspa.Dispatcher.{Command, apdu_dispatcher}
use app_kaspa.Session.{Exchange, answer, conclude, exchange}

-- The responses that an open review still owes.
abbrev pub pending : Option Review → ℕ
pending none = 0
pending (some review) = 1

-- A response has been sent or a review begun, and not both.
abbrev Replies : Reply → Type 0
Replies r = length r.sent + pending r.review ≡ 1

module _ (p : Platform) where
  ui_display_transaction-Replies : (g : GlobalCtx) → Replies (ui_display_transaction p g)
  unfolding ui_display_transaction
  ui_display_transaction-Replies g = ground arith

  ui_display_address-Replies : (g : GlobalCtx) → Replies (ui_display_address p g)
  unfolding ui_display_address
  ui_display_address-Replies g = ground arith

  ui_display_message-Replies : (g : GlobalCtx) → Replies (ui_display_message p g)
  unfolding ui_display_message
  ui_display_message-Replies g = ground arith

  sign_input_and_send-sends :
      (random : ℕ) (g : GlobalCtx)
      → (length (sign_input_and_send p random g).sent ≡ 1)
        × ((sign_input_and_send p random g).review ≡ none)
  unfolding sign_input_and_send
  sign_input_and_send-sends random g = ground arith

  decide-sends :
      (random : ℕ) (choice : Bool) (review : Review) (g : GlobalCtx)
      → length (decide p random choice review g).sent ≡ 1
  unfolding decide
  decide-sends random choice (review_pubkey path address) g = ground arith
  decide-sends random choice (review_transaction amount fees address) g =
      ground (arith, sign_input_and_send-sends random (record g { state = state_approved }))
  decide-sends random choice (review_message path message) g = ground arith

  start_transaction-Replies :
      (cdata : Buffer) (g : GlobalCtx) → Replies (start_transaction p cdata g)
  unfolding start_transaction
  start_transaction-Replies cdata g = ground arith

  end_chunk-Replies : (more : Bool) (g : GlobalCtx) → Replies (end_chunk p more g)
  unfolding end_chunk
  end_chunk-Replies more g = grind (arith, ui_display_transaction-Replies)

  parse_output-Replies :
      (cdata : Buffer) (more : Bool) (g : GlobalCtx) → Replies (parse_output p cdata more g)
  unfolding parse_output
  parse_output-Replies cdata more g = grind (arith, end_chunk-Replies)

  parse_input-Replies :
      (cdata : Buffer) (more : Bool) (g : GlobalCtx) → Replies (parse_input p cdata more g)
  unfolding parse_input
  parse_input-Replies cdata more g = grind (arith, end_chunk-Replies)

  handler_sign_msg-Replies : (cdata : Buffer) (g : GlobalCtx) → Replies (handler_sign_msg p cdata g)
  unfolding handler_sign_msg
  handler_sign_msg-Replies cdata g = grind (arith, ui_display_message-Replies)

  handler_get_public_key-Replies :
      (cdata : Buffer) (display : Bool) (g : GlobalCtx)
      → Replies (handler_get_public_key p cdata display g)
  unfolding handler_get_public_key
  handler_get_public_key-Replies cdata display g = grind (arith, ui_display_address-Replies)

  handler_sign_tx-Replies :
      (random : ℕ) (cdata : Buffer) (type : ℕ) (more : Bool) (g : GlobalCtx)
      → Replies (handler_sign_tx p random cdata type more g)
  unfolding handler_sign_tx
  handler_sign_tx-Replies random cdata type more g = ground (
    arith,
    start_transaction-Replies cdata g,
    parse_output-Replies cdata more g,
    parse_input-Replies cdata more g,
    sign_input_and_send-sends random g,
  )

  apdu_dispatcher-Replies :
      (random : ℕ) (cmd : Command) (g : GlobalCtx) → Replies (apdu_dispatcher p random cmd g)
  unfolding apdu_dispatcher handler_get_version handler_get_app_name
  apdu_dispatcher-Replies random cmd g =
      grind
        (arith, handler_sign_tx-Replies, handler_sign_msg-Replies, handler_get_public_key-Replies)

  pub answer-Replies :
      (random : ℕ) (command : Option Command) (g : GlobalCtx) → Replies (answer p random command g)
  unfolding answer
  answer-Replies random none g = ground arith
  answer-Replies random (some cmd) g = apdu_dispatcher-Replies random cmd g

  conclude-sends :
      (random : ℕ) (choice : Bool) (o : Option Review) (r : Reply)
      → r.review ≡ o
      → Replies r
      → (length (conclude p random choice o r).sent ≡ 1)
        × ((conclude p random choice o r).review ≡ none)
  unfolding conclude
  conclude-sends random choice none r e h = ground arith
  conclude-sends random choice (some review) r e h = ground (
    arith,
    decide-sends random choice review r.context,
    length-append r.sent (decide p random choice review r.context).sent,
  )

  -- Every exchange, whatever the command and the decision, sends exactly one response, and leaves no
  -- review open.
  pub exchange_one_response :
      (e : Exchange) (g : GlobalCtx)
      → (length (exchange p e g).sent ≡ 1) × ((exchange p e g).review ≡ none)
  unfolding exchange
  exchange_one_response e g =
      conclude-sends e.random e.choice _ (answer p e.random e.command g) refl
        (answer-Replies e.random e.command g)
