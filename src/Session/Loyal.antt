-- ===== src/Session/Loyal.antt =====
-- What an answer leaves of an approval, and what its reviews are about.
use app_kaspa.Prelude.{ℕ, ◌≡◌, refl, ap, Bool, false, Option, none, some, List, arith}
use app_kaspa.Sdk.Platform.{Platform}
use app_kaspa.Sdk.Buffer.{Buffer}
use app_kaspa.Context.{state_approved, confirm_transaction, GlobalCtx, zero_context}
use app_kaspa.Display.{review_transaction, Reply, reply_sw, ui_display_address, ui_display_message}
use app_kaspa.Actions.{sign_input_and_send}
use app_kaspa.Handlers.SignTx.{start_transaction, parse_output, parse_input, handler_sign_tx}
use app_kaspa.Response.{sw_wrong_data_length, sw_bad_state, sw_wrong_p1p2}
use app_kaspa.Handlers.Approved.{start_transaction-state}
use app_kaspa.Handlers.Review.{Reviews, handler_sign_tx-Reviews}
use app_kaspa.Handlers.SignMsg.{handler_sign_msg}
use app_kaspa.Handlers.PublicKey.{handler_get_public_key, handler_get_version, handler_get_app_name}
use app_kaspa.Dispatcher.{Command}
use app_kaspa.Session.{answer}
use app_kaspa.Session.Phases.{dispatched, of_transaction}
use app_kaspa.Session.Approval.{handler_sign_msg-Holds, handler_get_public_key-Unapproved}
use app_kaspa.Session.Follows.{
  Follows, Follows-refl, parse_output-Follows, parse_input-Follows, sign_input_and_send-Follows,
}

module _ (p : Platform) where
  -- An approval that a reply still has is about the transaction that it was about.
  abbrev pub Loyal : GlobalCtx → Reply → Type 0
  Loyal g r = r.context.state ≡ state_approved → Follows g.tx_info r.context.tx_info

  -- What the parts of SIGN_TX and its two refusals have, the handler has.
  pub handler_sign_tx-by_type :
      (P : Reply → Type 0) (random : ℕ) (cdata : Buffer) (type : ℕ) (more : Bool) (g : GlobalCtx)
      → P (start_transaction p cdata g)
      → P (parse_output p cdata more g)
      → P (parse_input p cdata more g)
      → (g.req_type ≡ confirm_transaction
          → g.state ≡ state_approved
          → P (sign_input_and_send p random g))
      → P (reply_sw g sw_bad_state)
      → ((sw : ℕ) → P (reply_sw (zero_context p.max_input_count) sw))
      → P (handler_sign_tx p random cdata type more g)
  unfolding handler_sign_tx
  handler_sign_tx-by_type P random cdata type more g start output input sign refused cleared =
      let closed = cleared sw_bad_state in let wrong = cleared sw_wrong_p1p2 in ground arith

  handler_sign_tx-Loyal :
      (random : ℕ) (cdata : Buffer) (type : ℕ) (more : Bool) (g : GlobalCtx)
      → Loyal g (handler_sign_tx p random cdata type more g)
  handler_sign_tx-Loyal random cdata type more g =
      let start = start_transaction-state p cdata g in
      handler_sign_tx-by_type (Loyal g) random cdata type more g (λ a. absurd (ground arith))
        (λ _. parse_output-Follows p cdata more g) (λ _. parse_input-Follows p cdata more g)
        (λ _ _ _. sign_input_and_send-Follows p random g) (λ _. Follows-refl g.tx_info)
        (λ sw a. absurd (ground arith))

  handler_sign_msg-Loyal : (cdata : Buffer) (g : GlobalCtx) → Loyal g (handler_sign_msg p cdata g)
  handler_sign_msg-Loyal cdata g approved =
      let (held, _) = handler_sign_msg-Holds p cdata g in absurd (ground arith)

  handler_get_public_key-Loyal :
      (cdata : Buffer) (display : Bool) (g : GlobalCtx)
      → Loyal g (handler_get_public_key p cdata display g)
  handler_get_public_key-Loyal cdata display g approved =
      let held = handler_get_public_key-Unapproved p cdata display g in absurd (ground arith)

  pub answer-Loyal :
      (random : ℕ) (command : Option Command) (g : GlobalCtx) → Loyal g (answer p random command g)
  unfolding answer handler_get_version handler_get_app_name
  answer-Loyal random none g = λ a. Follows-refl g.tx_info
  answer-Loyal random (some cmd) g =
      dispatched p (Loyal g) random cmd g (λ sw a. Follows-refl g.tx_info)
        (λ a. Follows-refl g.tx_info) (λ a. Follows-refl g.tx_info)
        (λ cdata type more. handler_sign_tx-Loyal random cdata type more g)
        (λ cdata. handler_sign_msg-Loyal cdata g)
        (λ cdata display. handler_get_public_key-Loyal cdata display g)

  ui_display_address-kind : (g : GlobalCtx) → of_transaction (ui_display_address p g).review ≡ false
  unfolding ui_display_address
  ui_display_address-kind g = ground arith

  ui_display_message-kind : (g : GlobalCtx) → of_transaction (ui_display_message p g).review ≡ false
  unfolding ui_display_message
  ui_display_message-kind g = ground arith

  handler_get_public_key-kind :
      (cdata : Buffer) (display : Bool) (g : GlobalCtx)
      → of_transaction (handler_get_public_key p cdata display g).review ≡ false
  unfolding handler_get_public_key
  handler_get_public_key-kind cdata display g = grind (arith, ui_display_address-kind)

  handler_sign_msg-kind :
      (cdata : Buffer) (g : GlobalCtx) → of_transaction (handler_sign_msg p cdata g).review ≡ false
  unfolding handler_sign_msg
  handler_sign_msg-kind cdata g = grind (arith, ui_display_message-kind)

  -- The review of a transaction is that of the context's, which is valid.
  abbrev pub Candid : GlobalCtx → Reply → Type 0
  Candid g r =
      (amount fees address : List ℕ)
      → r.review ≡ some (review_transaction amount fees address)
      → Reviews p g r.context amount fees address

  not_transaction-Candid :
      (g : GlobalCtx) (r : Reply) → of_transaction r.review ≡ false → Candid g r
  not_transaction-Candid g r other amount fees address shown =
      let kind = ap of_transaction shown in absurd (ground arith)

  pub answer-Candid :
      (random : ℕ) (command : Option Command) (g : GlobalCtx) → Candid g (answer p random command g)
  unfolding answer handler_get_version handler_get_app_name
  answer-Candid random none g = not_transaction-Candid g (reply_sw g sw_wrong_data_length) refl
  answer-Candid random (some cmd) g =
      dispatched p (Candid g) random cmd g (λ sw. not_transaction-Candid g (reply_sw g sw) refl)
        (not_transaction-Candid g (handler_get_version p g) refl)
        (not_transaction-Candid g (handler_get_app_name p g) refl)
        (λ cdata type more. handler_sign_tx-Reviews p random cdata type more g)
        (λ cdata.
          not_transaction-Candid g (handler_sign_msg p cdata g) (handler_sign_msg-kind cdata g))
        (λ cdata display.
          not_transaction-Candid g (handler_get_public_key p cdata display g)
            (handler_get_public_key-kind cdata display g))
