-- ===== src/Display/Nbgl.antt =====
-- ui/nbgl_display_address.c, nbgl_display_transaction.c and nbgl_display_message.c: the reviews of the
-- devices with a touch screen, the functions `ui_display_*` and `review_choice` there. The pages are
-- the SDK's use cases.
pub mod Touch
pub mod Alike
use app_kaspa.Prelude.{
  ℕ, Bool, ◌&&◌, Option, none, some, List, [], ◌∷◌, if◌then◌else◌, get_or, replicate,
}
use app_kaspa.Sdk.Platform.{Platform}
use app_kaspa.Context.{
  state_none, state_parsed, confirm_address, confirm_transaction, confirm_message, GlobalCtx,
}
use app_kaspa.Response.{
  Response, status, sw_bad_state, sw_display_bip32_path_fail, sw_display_address_fail,
  sw_display_amount_fail,
}
use app_kaspa.Address.{schnorr, schnorr_address_len, ecdsa_address_len, address_from_pubkey}
use app_kaspa.Transaction.{zero_output}
use app_kaspa.Transaction.Utils.{calc_fees, script_public_key_to_address}
use app_kaspa.Crypto.{message_memory}
use app_kaspa.Format.{format_message_to_sign}
use app_kaspa.Display.{Reply, c_string, is_state, is_request, kas, path_text}
use app_kaspa.Display.Flow.{
  Caption, bip32_path_caption, amount_caption, to_caption, fees_caption, message_caption,
}
use app_kaspa.Actions.{validate_pubkey, validate_transaction, validate_message}

-- `nbgl_layoutTagValue_t`
pub record TagValue : Type 0 where
  pub item : Caption
  pub value : List ℕ

-- An address with its pairs, or the pairs of a transaction or a message.
pub data UseCase : Type 0 where
  address_review : List ℕ → List TagValue → UseCase
  review_of_transaction : List TagValue → UseCase
  review_of_message : List TagValue → UseCase

pub data StatusType : Type 0 where
  status_type_address_verified status_type_address_rejected : StatusType
  status_type_transaction_signed status_type_transaction_rejected : StatusType
  status_type_message_signed status_type_message_rejected : StatusType

-- What a call leaves: the context, what it sent, and the use case that it began.
pub record NbglReply : Type 0 where
  pub context : GlobalCtx
  pub sent : List Response
  pub use_case : Option UseCase

abbrev nbgl_sw : GlobalCtx → ℕ → NbglReply
nbgl_sw g sw = record { context = g; sent = status sw ∷ []; use_case = none }

abbrev nbgl_review : GlobalCtx → UseCase → NbglReply
nbgl_review g u = record { context = g; sent = []; use_case = some u }

abbrev nbgl_bad_state : GlobalCtx → NbglReply
nbgl_bad_state g = nbgl_sw (record g { state = state_none }) sw_bad_state

abbrev pub pair : Caption → List ℕ → TagValue
pair item value = record { item = item; value = value }

module _ (p : Platform) where
  open p use {max_message_len, format_fpu64_trimmed}

  unfoldable pub nbgl_display_address : GlobalCtx → NbglReply
  nbgl_display_address g =
      let len = schnorr_address_len in
      let (done, address) =
        address_from_pubkey g.pk_info.raw_public_key schnorr (replicate len 0) len in
      let shown : NbglReply = elim (path_text p g) [
        | none ↦ nbgl_sw g sw_display_bip32_path_fail
        | some path ↦
            if done
            then nbgl_review g
                (address_review (c_string address) (pair bip32_path_caption path ∷ []))
            else nbgl_sw g sw_display_address_fail
      ] in
      if is_request g.req_type confirm_address && is_state g.state state_none
      then shown
      else nbgl_bad_state g

  unfoldable pub nbgl_display_transaction : GlobalCtx → NbglReply
  nbgl_display_transaction g =
      let tx = g.tx_info.transaction in
      let to = get_or tx.tx_outputs 0 zero_output in
      let len = ecdsa_address_len in
      let address =
        (script_public_key_to_address (replicate len 0) len to.script_public_key 40).1 in
      let fee = calc_fees tx.tx_inputs tx.tx_input_len tx.tx_outputs tx.tx_output_len in
      let shown : NbglReply = elim (format_fpu64_trimmed to.value 8) [
        | none ↦ nbgl_sw g sw_display_amount_fail
        | some amount ↦ elim (format_fpu64_trimmed fee 8) [
          | none ↦ nbgl_sw g sw_display_amount_fail
          | some fees ↦ nbgl_review g (
              review_of_transaction (
                pair amount_caption (kas amount)
                ∷ pair to_caption (c_string address)
                ∷ pair fees_caption (kas fees)
                ∷ []))
        ]
      ] in
      if is_request g.req_type confirm_transaction && is_state g.state state_parsed
      then shown
      else nbgl_bad_state g

  -- `g_message` has room for the longest message only.
  unfoldable pub nbgl_display_message : GlobalCtx → NbglReply
  nbgl_display_message g =
      let text =
        format_message_to_sign (replicate max_message_len 0) max_message_len
          (message_memory g.msg_info) g.msg_info.message_len in
      let shown : NbglReply = elim (path_text p g) [
        | none ↦ nbgl_sw g sw_display_bip32_path_fail
        | some path ↦ nbgl_review g (
            review_of_message
              (pair bip32_path_caption path ∷ pair message_caption (c_string text) ∷ []))
      ] in
      if is_request g.req_type confirm_message && is_state g.state state_none
      then shown
      else nbgl_bad_state g

  -- The three functions that a use case calls with the choice: the answer, and the page that tells
  -- what happened.
  abbrev review_address_choice : Bool → GlobalCtx → Reply × StatusType
  review_address_choice confirm g = (
    validate_pubkey p confirm g,
    if confirm then status_type_address_verified else status_type_address_rejected,
  )

  abbrev review_transaction_choice : ℕ → Bool → GlobalCtx → Reply × StatusType
  review_transaction_choice random confirm g = (
    validate_transaction p random confirm g,
    if confirm then status_type_transaction_signed else status_type_transaction_rejected,
  )

  abbrev review_message_choice : ℕ → Bool → GlobalCtx → Reply × StatusType
  review_message_choice random confirm g = (
    validate_message p random confirm g,
    if confirm then status_type_message_signed else status_type_message_rejected,
  )

  -- The function that the use case was given.
  unfoldable pub review_choice : ℕ → Bool → UseCase → GlobalCtx → Reply × StatusType
  review_choice random confirm (address_review address pairs) g = review_address_choice confirm g
  review_choice random confirm (review_of_transaction pairs) g =
      review_transaction_choice random confirm g
  review_choice random confirm (review_of_message pairs) g = review_message_choice random confirm g
