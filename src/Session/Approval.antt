-- ===== src/Session/Approval.antt =====
-- No signature leaves the device before the user has accepted a review.
use app_kaspa.Prelude.{
  ℕ, Bool, true, false, ◌||◌, All-append, ◌==◌, ◌≡◌, refl, Option, none, some, List, [], ◌∷◌, arith,
  All,
}
use app_kaspa.Sdk.Platform.{Platform}
use app_kaspa.Sdk.Buffer.{Buffer}
use app_kaspa.Context.{state_approved, GlobalCtx}
use app_kaspa.Response.{Response}
use app_kaspa.Display.{
  Review, review_pubkey, review_transaction, review_message, Reply, is_state, ui_display_address,
  ui_display_transaction, ui_display_message,
}
use app_kaspa.Actions.{decide}
use app_kaspa.Handlers.SignTx.{
  start_transaction, end_chunk, parse_output, parse_input, handler_sign_tx,
}
use app_kaspa.Handlers.SignMsg.{handler_sign_msg}
use app_kaspa.Handlers.PublicKey.{handler_get_public_key, handler_get_version, handler_get_app_name}
use app_kaspa.Dispatcher.{Command, apdu_dispatcher}
use app_kaspa.Session.{Exchange, answer, conclude, exchange, app_main, start_context}

abbrev pub Unapproved : GlobalCtx → Type 0
Unapproved g = is_state g.state state_approved ≡ false

-- Status words only.
abbrev pub Silent : List Response → Type 0
Silent = All λ r. r.bytes ≡ []

abbrev pub is_signing : Option Command → Bool
is_signing none = false
is_signing (some cmd) = cmd.ins == 0x06 || cmd.ins == 0x07

-- A reply that neither approves nor sends data.
abbrev Holds : Reply → Type 0
Holds r = Unapproved r.context × Silent r.sent

module _ (p : Platform) where
  ui_display_address-Unapproved :
      (g : GlobalCtx) → Unapproved g → Unapproved (ui_display_address p g).context
  unfolding ui_display_address
  ui_display_address-Unapproved g u = ground arith

  ui_display_transaction-Holds : (g : GlobalCtx) → Unapproved g → Holds (ui_display_transaction p g)
  unfolding ui_display_transaction
  ui_display_transaction-Holds g u = ground arith

  ui_display_message-Holds : (g : GlobalCtx) → Unapproved g → Holds (ui_display_message p g)
  unfolding ui_display_message
  ui_display_message-Holds g u = ground arith

  start_transaction-Holds : (cdata : Buffer) (g : GlobalCtx) → Holds (start_transaction p cdata g)
  unfolding start_transaction
  start_transaction-Holds cdata g = ground arith

  end_chunk-Holds : (more : Bool) (g : GlobalCtx) → Unapproved g → Holds (end_chunk p more g)
  unfolding end_chunk
  end_chunk-Holds more g u = grind (arith, ui_display_transaction-Holds)

  parse_output-Holds :
      (cdata : Buffer) (more : Bool) (g : GlobalCtx)
      → Unapproved g
      → Holds (parse_output p cdata more g)
  unfolding parse_output
  parse_output-Holds cdata more g u = grind (arith, end_chunk-Holds)

  parse_input-Holds :
      (cdata : Buffer) (more : Bool) (g : GlobalCtx)
      → Unapproved g
      → Holds (parse_input p cdata more g)
  unfolding parse_input
  parse_input-Holds cdata more g u = grind (arith, end_chunk-Holds)

  handler_sign_tx-Holds :
      (random : ℕ) (cdata : Buffer) (type : ℕ) (more : Bool) (g : GlobalCtx)
      → Unapproved g
      → Holds (handler_sign_tx p random cdata type more g)
  unfolding handler_sign_tx
  handler_sign_tx-Holds random cdata type more g u = ground (
    arith,
    start_transaction-Holds cdata g,
    parse_output-Holds cdata more g u,
    parse_input-Holds cdata more g u,
  )

  pub handler_sign_msg-Holds : (cdata : Buffer) (g : GlobalCtx) → Holds (handler_sign_msg p cdata g)
  unfolding handler_sign_msg
  handler_sign_msg-Holds cdata g = grind (arith, ui_display_message-Holds)

  pub handler_get_public_key-Unapproved :
      (cdata : Buffer) (display : Bool) (g : GlobalCtx)
      → Unapproved (handler_get_public_key p cdata display g).context
  unfolding handler_get_public_key
  handler_get_public_key-Unapproved cdata display g = grind (arith, ui_display_address-Unapproved)

  apdu_dispatcher-Unapproved :
      (random : ℕ) (cmd : Command) (g : GlobalCtx)
      → Unapproved g
      → Unapproved (apdu_dispatcher p random cmd g).context
  unfolding apdu_dispatcher handler_get_version handler_get_app_name
  apdu_dispatcher-Unapproved random cmd g u =
      grind
        (arith, handler_sign_tx-Holds, handler_sign_msg-Holds, handler_get_public_key-Unapproved)

  apdu_dispatcher-Silent :
      (random : ℕ) (cmd : Command) (g : GlobalCtx)
      → Unapproved g
      → is_signing (some cmd) ≡ true
      → Silent (apdu_dispatcher p random cmd g).sent
  unfolding apdu_dispatcher
  apdu_dispatcher-Silent random cmd g u s =
      grind (arith, handler_sign_tx-Holds, handler_sign_msg-Holds)

  -- A refused review.
  refuse-Holds :
      (random : ℕ) (review : Review) (g : GlobalCtx)
      → Unapproved g
      → Holds (decide p random false review g)
  unfolding decide
  refuse-Holds random (review_pubkey path address) g u = ground arith
  refuse-Holds random (review_transaction amount fees address) g u = ground arith
  refuse-Holds random (review_message path message) g u = ground arith

  refuse-Unapproved :
      (random : ℕ) (o : Option Review) (r : Reply)
      → Unapproved r.context
      → Unapproved (conclude p random false o r).context
  unfolding conclude
  refuse-Unapproved random none r u = u
  refuse-Unapproved random (some review) r u = (refuse-Holds random review r.context u).0

  refuse-Silent :
      (random : ℕ) (o : Option Review) (r : Reply)
      → Unapproved r.context
      → Silent r.sent
      → Silent (conclude p random false o r).sent
  unfolding conclude
  refuse-Silent random none r u s = s
  refuse-Silent random (some review) r u s =
      All-append _ r.sent _ s (refuse-Holds random review r.context u).1

  answer-Unapproved :
      (random : ℕ) (command : Option Command) (g : GlobalCtx)
      → Unapproved g
      → Unapproved (answer p random command g).context
  unfolding answer
  answer-Unapproved random none g u = u
  answer-Unapproved random (some cmd) g u = apdu_dispatcher-Unapproved random cmd g u

  answer-Silent :
      (random : ℕ) (command : Option Command) (g : GlobalCtx)
      → Unapproved g
      → is_signing command ≡ true
      → Silent (answer p random command g).sent
  unfolding answer
  answer-Silent random none g u s = ground arith
  answer-Silent random (some cmd) g u s = apdu_dispatcher-Silent random cmd g u s

  refused-Unapproved :
      (e : Exchange) (g : GlobalCtx)
      → e.choice ≡ false
      → Unapproved g
      → Unapproved (exchange p e g).context
  unfolding exchange
  refused-Unapproved e g refused u = rw refused (
      refuse-Unapproved e.random _ (answer p e.random e.command g)
        (answer-Unapproved e.random e.command g u))

  refused-Silent :
      (e : Exchange) (g : GlobalCtx)
      → e.choice ≡ false
      → is_signing e.command ≡ true
      → Unapproved g
      → Silent (exchange p e g).sent
  unfolding exchange
  refused-Silent e g refused signing u = rw refused (
      refuse-Silent e.random _ (answer p e.random e.command g)
        (answer-Unapproved e.random e.command g u) (answer-Silent e.random e.command g u signing))

  run-Unapproved :
      (es : List Exchange) (g : GlobalCtx)
      → All (λ e. e.choice ≡ false) es
      → Unapproved g
      → Unapproved (app_main p es g).0
  unfolding app_main
  run-Unapproved [] g refused u = u
  run-Unapproved (e ∷ es) g (r, rs) u =
      run-Unapproved es (exchange p e g).context rs (refused-Unapproved e g r u)

  -- From the start, while the user refuses every review, whatever the host sends, a signing
  -- command (SIGN_TX or SIGN_MESSAGE) that follows and is refused too gets status words only.
  pub no_signature_without_approval :
      (es : List Exchange) (e : Exchange)
      → All (λ e'. e'.choice ≡ false) es
      → e.choice ≡ false
      → is_signing e.command ≡ true
      → Silent (exchange p e (app_main p es (start_context p)).0).sent
  no_signature_without_approval es e refused last signing =
      refused-Silent e _ last signing (run-Unapproved es (start_context p) refused refl)
