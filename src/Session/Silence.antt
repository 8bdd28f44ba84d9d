-- ===== src/Session/Silence.antt =====
-- The commands that sign nothing yet: what the handlers of the parts of a transaction and of a message
-- send is a status word.
use app_kaspa.Prelude.{Bool, arith}
use app_kaspa.Sdk.Platform.{Platform}
use app_kaspa.Sdk.Buffer.{Buffer}
use app_kaspa.Context.{GlobalCtx}
use app_kaspa.Display.{ui_display_transaction, ui_display_message}
use app_kaspa.Handlers.SignTx.{start_transaction, end_chunk, parse_output, parse_input}
use app_kaspa.Handlers.SignMsg.{handler_sign_msg}
use app_kaspa.Session.Approval.{Silent}

module _ (p : Platform) where
  ui_display_transaction-Silent : (g : GlobalCtx) → Silent (ui_display_transaction p g).sent
  unfolding ui_display_transaction
  ui_display_transaction-Silent g = ground arith

  end_chunk-Silent : (more : Bool) (g : GlobalCtx) → Silent (end_chunk p more g).sent
  unfolding end_chunk
  end_chunk-Silent more g = grind (arith, ui_display_transaction-Silent)

  pub start_transaction-Silent :
      (cdata : Buffer) (g : GlobalCtx) → Silent (start_transaction p cdata g).sent
  unfolding start_transaction
  start_transaction-Silent cdata g = ground arith

  pub parse_output-Silent :
      (cdata : Buffer) (more : Bool) (g : GlobalCtx) → Silent (parse_output p cdata more g).sent
  unfolding parse_output
  parse_output-Silent cdata more g = grind (arith, end_chunk-Silent)

  pub parse_input-Silent :
      (cdata : Buffer) (more : Bool) (g : GlobalCtx) → Silent (parse_input p cdata more g).sent
  unfolding parse_input
  parse_input-Silent cdata more g = grind (arith, end_chunk-Silent)

  ui_display_message-Silent : (g : GlobalCtx) → Silent (ui_display_message p g).sent
  unfolding ui_display_message
  ui_display_message-Silent g = ground arith

  pub handler_sign_msg-Silent :
      (cdata : Buffer) (g : GlobalCtx) → Silent (handler_sign_msg p cdata g).sent
  unfolding handler_sign_msg
  handler_sign_msg-Silent cdata g = grind (arith, ui_display_message-Silent)
