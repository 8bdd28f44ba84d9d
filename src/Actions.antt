-- ===== src/Actions.antt =====
-- ui/action/validate.c: what happens when the user has decided, and the signature of one input that
-- it shares with handler/sign_tx.c. `random` is the random number that a signature takes.
pub mod Accept
use app_kaspa.Prelude.{ℕ, ◌+◌, ◌%◌, ◌^◌, Bool, not, none, [], ◌∷◌, ◌==◌, if◌then◌else◌}
use app_kaspa.Sdk.Platform.{Platform}
use app_kaspa.Context.{state_none, state_approved, GlobalCtx}
use app_kaspa.Response.{
  sw_deny, helper_send_response_pubkey, helper_send_response_sig,
  helper_send_response_personal_message_sig,
}
use app_kaspa.Display.{Review, review_pubkey, review_transaction, review_message, Reply, reply_sw}
use app_kaspa.Crypto.{crypto_sign_transaction, crypto_sign_personal_message}

-- `io_send_sw` of an `int` takes its low 16 bits.
abbrev pub reply_error : GlobalCtx → ℕ → Reply
reply_error g error = reply_sw (record g { state = state_none }) (error % 2 ^ 16)

module _ (p : Platform) where
  abbrev next_input : GlobalCtx → GlobalCtx
  next_input g =
      let tx_info' = record g.tx_info {
        signing_input_index = (g.tx_info.signing_input_index + 1) % 256;
      } in
      record g { tx_info = tx_info' }

  unfoldable pub sign_input_and_send : ℕ → GlobalCtx → Reply
  sign_input_and_send random g =
      let (error, g') = crypto_sign_transaction p random g in
      if not (error == 0) then reply_error g' error else record {
        context = next_input g';
        sent = helper_send_response_sig g' ∷ [];
        review = none;
      }

  unfoldable pub validate_pubkey : Bool → GlobalCtx → Reply
  validate_pubkey choice g =
      if choice
      then record { context = g; sent = helper_send_response_pubkey g ∷ []; review = none }
      else reply_sw g sw_deny

  unfoldable pub validate_transaction : ℕ → Bool → GlobalCtx → Reply
  validate_transaction random choice g =
      if choice
      then sign_input_and_send random (record g { state = state_approved })
      else reply_sw (record g { state = state_none }) sw_deny

  unfoldable pub validate_message : ℕ → Bool → GlobalCtx → Reply
  validate_message random choice g =
      let (error, g') =
        crypto_sign_personal_message p random (record g { state = state_approved }) in
      if not choice
      then reply_sw (record g { state = state_none }) sw_deny
      else if not (error == 0)
      then reply_error g' error
      else record {
        context = g';
        sent = helper_send_response_personal_message_sig g' ∷ [];
        review = none;
      }

  -- The callback that a review has stored.
  unfoldable pub decide : ℕ → Bool → Review → GlobalCtx → Reply
  unfolding validate_pubkey validate_transaction validate_message
  decide random choice (review_pubkey path address) g = validate_pubkey choice g
  decide random choice (review_transaction amount fees address) g =
      validate_transaction random choice g
  decide random choice (review_message path message) g = validate_message random choice g
