-- ===== src/Session/Responses.antt =====
-- The sizes of the responses: the arrays of helper/send_reponse.c, and the limit of get_app_name.c.
use app_kaspa.Prelude.{
  ℕ, ◌<◌, ◌≤◌, ap, Bool, Option, none, some, List, [], ◌∷◌, ◌++◌, arith, All, All-append, length,
  length-append, length-take, take,
}
use app_kaspa.Sdk.Platform.{Platform}
use app_kaspa.Sdk.Buffer.{Buffer}
use app_kaspa.Context.{state_approved, GlobalCtx}
use app_kaspa.Response.{
  Response, helper_send_response_pubkey, helper_send_response_sig,
  helper_send_response_personal_message_sig,
}
use app_kaspa.Display.{
  Review, review_pubkey, review_transaction, review_message, Reply, ui_display_address,
}
use app_kaspa.Actions.{sign_input_and_send, decide}
use app_kaspa.Handlers.SignTx.{handler_sign_tx}
use app_kaspa.Handlers.PublicKey.{handler_get_public_key, handler_get_version, handler_get_app_name}
use app_kaspa.Dispatcher.{Command}
use app_kaspa.Session.{Exchange, answer, conclude, exchange}
use app_kaspa.Session.Phases.{dispatched}
use app_kaspa.Session.Approval.{Silent}
use app_kaspa.Session.Loyal.{handler_sign_tx-by_type}
use app_kaspa.Session.Silence.{
  start_transaction-Silent, parse_output-Silent, parse_input-Silent, handler_sign_msg-Silent,
}

-- At most 100 bytes of data.
abbrev pub Small : List Response → Type 0
Small = All λ r. length r.bytes ≤ 100

Silent-Small : (sent : List Response) → Silent sent → Small sent
Silent-Small [] h = tt
Silent-Small (r ∷ sent) (h, hs) = (omega (arith, ap length h), Silent-Small sent hs)

-- An item of at most 64 bytes and one of at most 32, with a length between them.
two_items : (first second : List ℕ) → length (take 64 first ++ 32 ∷ take 32 second) ≤ 97
two_items first second = omega (
  arith,
  length-append (take 64 first) (32 ∷ take 32 second),
  length-take 64 first,
  length-take 32 second,
)

pubkey_response : (g : GlobalCtx) → length (helper_send_response_pubkey g).bytes ≤ 99
unfolding helper_send_response_pubkey
pubkey_response g = omega (arith, two_items g.pk_info.raw_public_key g.pk_info.chain_code)

sig_response : (g : GlobalCtx) → length (helper_send_response_sig g).bytes ≤ 100
unfolding helper_send_response_sig
sig_response g = omega (arith, two_items g.tx_info.signature g.tx_info.sighash)

message_response : (g : GlobalCtx) → length (helper_send_response_personal_message_sig g).bytes ≤ 98
unfolding helper_send_response_personal_message_sig
message_response g = omega (arith, two_items g.msg_info.signature g.msg_info.message_hash)

module _ (p : Platform) (named : length p.app_name < 64) where
  sign_input_and_send-Small :
      (random : ℕ) (g : GlobalCtx) → Small (sign_input_and_send p random g).sent
  unfolding sign_input_and_send
  sign_input_and_send-Small random g = grind (arith, sig_response)

  decide-Small :
      (random : ℕ) (choice : Bool) (review : Review) (g : GlobalCtx)
      → Small (decide p random choice review g).sent
  unfolding decide
  decide-Small random choice (review_pubkey path address) g = ground (arith, pubkey_response g)
  decide-Small random choice (review_transaction amount fees address) g =
      ground (arith, sign_input_and_send-Small random (record g { state = state_approved }))
  decide-Small random choice (review_message path message) g = grind (arith, message_response)

  handler_sign_tx-Small :
      (random : ℕ) (cdata : Buffer) (type : ℕ) (more : Bool) (g : GlobalCtx)
      → Small (handler_sign_tx p random cdata type more g).sent
  handler_sign_tx-Small random cdata type more g =
      handler_sign_tx-by_type p (λ r. Small r.sent) random cdata type more g
        (Silent-Small _ (start_transaction-Silent p cdata g))
        (Silent-Small _ (parse_output-Silent p cdata more g))
        (Silent-Small _ (parse_input-Silent p cdata more g))
        (λ _ _. sign_input_and_send-Small random g) (ground arith) (λ sw. ground arith)

  ui_display_address-Silent : (g : GlobalCtx) → Silent (ui_display_address p g).sent
  unfolding ui_display_address
  ui_display_address-Silent g = ground arith

  handler_get_public_key-Small :
      (cdata : Buffer) (display : Bool) (g : GlobalCtx)
      → Small (handler_get_public_key p cdata display g).sent
  unfolding handler_get_public_key
  handler_get_public_key-Small cdata display g =
      grind (arith, pubkey_response, Silent-Small, ui_display_address-Silent)

  answer-Small :
      (random : ℕ) (command : Option Command) (g : GlobalCtx)
      → Small (answer p random command g).sent
  unfolding answer handler_get_version handler_get_app_name
  answer-Small random none g = ground arith
  answer-Small random (some cmd) g =
      dispatched p (λ r. Small r.sent) random cmd g (λ sw. ground arith) (ground arith)
        (ground arith) (λ cdata type more. handler_sign_tx-Small random cdata type more g)
        (λ cdata. Silent-Small _ (handler_sign_msg-Silent p cdata g))
        (λ cdata display. handler_get_public_key-Small cdata display g)

  conclude-Small :
      (random : ℕ) (choice : Bool) (o : Option Review) (r : Reply)
      → Small r.sent
      → Small (conclude p random choice o r).sent
  unfolding conclude
  conclude-Small random choice none r h = h
  conclude-Small random choice (some review) r h =
      All-append _ r.sent _ h (decide-Small random choice review r.context)

  -- Whatever the command, the context and the decision: each response of an exchange has at most 100
  -- bytes of data. The application's name has fewer than 64 bytes, as get_app_name.c asserts.
  pub exchange-Small : (e : Exchange) (g : GlobalCtx) → Small (exchange p e g).sent
  unfolding exchange
  exchange-Small e g =
      let r = answer p e.random e.command g in
      conclude-Small e.random e.choice r.review r (answer-Small e.random e.command g)
