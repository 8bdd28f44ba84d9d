-- ===== src/Session/Bounds.antt =====
-- The arrays of the transaction context keep their sizes, and the parsing indices stay in them.
use app_kaspa.Prelude.{ℕ, Bool, Option, none, some, List, [], ◌∷◌, arith}
use app_kaspa.Sdk.Platform.{Platform}
use app_kaspa.Sdk.Buffer.{Buffer}
use app_kaspa.Context.{GlobalCtx}
use app_kaspa.Display.{Review, Reply}
use app_kaspa.Handlers.SignTx.{handler_sign_tx}
use app_kaspa.Handlers.SignMsg.{handler_sign_msg}
use app_kaspa.Handlers.PublicKey.{handler_get_public_key, handler_get_version, handler_get_app_name}
use app_kaspa.Dispatcher.{Command, command_buffer, apdu_dispatcher}
use app_kaspa.Session.{Exchange, answer, conclude, exchange, app_main, start_context}
use app_kaspa.Session.Sizes.{
  Bounded, zero_context-Bounded, Fits, handler_get_public_key-Kept, handler_sign_msg-Kept,
  sign_input_and_send-Fits, decide-Fits, start_transaction-Fits, parse_output-Fits,
  parse_input-Fits,
}

module _ (p : Platform) where
  handler_sign_tx-Fits :
      (random : ℕ) (cdata : Buffer) (type : ℕ) (more : Bool) (g : GlobalCtx)
      → Bounded p.max_input_count g.tx_info
      → Fits p (handler_sign_tx p random cdata type more g)
  unfolding handler_sign_tx
  handler_sign_tx-Fits random cdata type more g b =
      let a = start_transaction-Fits p cdata g in
      let o = parse_output-Fits p cdata more g b in
      let i = parse_input-Fits p cdata more g b in
      let s = sign_input_and_send-Fits p random g b in
      let z = zero_context-Bounded p.max_input_count in ground arith

  handler_sign_msg-Fits : (cdata : Buffer) (g : GlobalCtx) → Fits p (handler_sign_msg p cdata g)
  handler_sign_msg-Fits cdata g =
      rw (handler_sign_msg-Kept p cdata g) (zero_context-Bounded p.max_input_count)

  handler_get_public_key-Fits :
      (cdata : Buffer) (display : Bool) (g : GlobalCtx)
      → Fits p (handler_get_public_key p cdata display g)
  handler_get_public_key-Fits cdata display g =
      rw (handler_get_public_key-Kept p cdata display g) (zero_context-Bounded p.max_input_count)

  -- What the context has and the three handlers leave, the dispatcher leaves.
  pub apdu_dispatcher_keeps :
      (P : GlobalCtx → Type 0) (random : ℕ) (cmd : Command) (g : GlobalCtx)
      → P g
      → ((type : ℕ) (more : Bool)
          → P (handler_sign_tx p random (command_buffer cmd) type more g).context)
      → P (handler_sign_msg p (command_buffer cmd) g).context
      → ((display : Bool) → P (handler_get_public_key p (command_buffer cmd) display g).context)
      → P (apdu_dispatcher p random cmd g).context
  unfolding apdu_dispatcher handler_get_version handler_get_app_name
  apdu_dispatcher_keeps P random cmd g h tx msg key = grind (arith, tx, msg, key)

  apdu_dispatcher-Fits :
      (random : ℕ) (cmd : Command) (g : GlobalCtx)
      → Bounded p.max_input_count g.tx_info
      → Fits p (apdu_dispatcher p random cmd g)
  apdu_dispatcher-Fits random cmd g b =
      apdu_dispatcher_keeps (λ g'. Bounded p.max_input_count g'.tx_info) random cmd g b
        (λ type more. handler_sign_tx-Fits random (command_buffer cmd) type more g b)
        (handler_sign_msg-Fits (command_buffer cmd) g)
        (λ display. handler_get_public_key-Fits (command_buffer cmd) display g)

  pub answer-Fits :
      (random : ℕ) (command : Option Command) (g : GlobalCtx)
      → Bounded p.max_input_count g.tx_info
      → Fits p (answer p random command g)
  unfolding answer
  answer-Fits random none g b = b
  answer-Fits random (some cmd) g b = apdu_dispatcher-Fits random cmd g b

  conclude-Fits :
      (random : ℕ) (choice : Bool) (o : Option Review) (r : Reply)
      → Fits p r
      → Fits p (conclude p random choice o r)
  unfolding conclude
  conclude-Fits random choice none r b = b
  conclude-Fits random choice (some review) r b = decide-Fits p random choice review r.context b

  pub exchange-Bounded :
      (e : Exchange) (g : GlobalCtx)
      → Bounded p.max_input_count g.tx_info
      → Bounded p.max_input_count (exchange p e g).context.tx_info
  unfolding exchange
  exchange-Bounded e g b =
      let r = answer p e.random e.command g in
      conclude-Fits e.random e.choice r.review r (answer-Fits e.random e.command g b)

  run-Bounded :
      (es : List Exchange) (g : GlobalCtx)
      → Bounded p.max_input_count g.tx_info
      → Bounded p.max_input_count (app_main p es g).0.tx_info
  unfolding app_main
  run-Bounded [] g b = b
  run-Bounded (e ∷ es) g b = run-Bounded es (exchange p e g).context (exchange-Bounded e g b)

  -- After any exchanges from the start, the transaction context has two outputs with scripts of 40
  -- bytes and MAX_INPUT_COUNT inputs with ids of 32 bytes, and the two parsing indices are at most the
  -- numbers of the outputs and the inputs.
  pub app_main-Bounded :
      (es : List Exchange) → Bounded p.max_input_count (app_main p es (start_context p)).0.tx_info
  app_main-Bounded es = run-Bounded es (start_context p) (zero_context-Bounded p.max_input_count)
