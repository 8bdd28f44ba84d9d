-- ===== src/Display.antt =====
-- ui/bagl_display.c and ui/nbgl_display_*.c: what a review shows, and when it is refused. The
-- screens themselves are the SDK's.
pub mod Flow
pub mod Nbgl
pub mod Shown
pub mod Menu
use app_kaspa.Prelude.{
  ℕ, Bool, true, false, ◌&&◌, Option, none, some, List, [], ◌∷◌, ◌==◌, if◌then◌else◌, get_or, take,
  replicate,
}
use app_kaspa.Sdk.Platform.{Platform}
use app_kaspa.Context.{
  State, state_none, state_parsed, state_approved, RequestType, confirm_address,
  confirm_transaction, confirm_message, GlobalCtx,
}
use app_kaspa.Response.{
  Response, status, sw_bad_state, sw_display_bip32_path_fail, sw_display_address_fail,
  sw_display_amount_fail,
}
use app_kaspa.Address.{schnorr, address_from_pubkey}
use app_kaspa.Transaction.{zero_output}
use app_kaspa.Transaction.Utils.{calc_fees, script_public_key_to_address}
use app_kaspa.Crypto.{message_memory}
use app_kaspa.Format.{format_message_to_sign}

-- The texts on the screens of a review; its callback is the function of ui/action/validate.c.
pub data Review : Type 0 where
  review_pubkey : List ℕ → List ℕ → Review
  review_transaction : List ℕ → List ℕ → List ℕ → Review
  review_message : List ℕ → List ℕ → Review

-- What a call leaves: the context, what it sent, and the review that it began.
pub record Reply : Type 0 where
  pub context : GlobalCtx
  pub sent : List Response
  pub review : Option Review

abbrev pub reply_sw : GlobalCtx → ℕ → Reply
reply_sw g sw = record { context = g; sent = status sw ∷ []; review = none }

abbrev pub begin_review : GlobalCtx → Review → Reply
begin_review g r = record { context = g; sent = []; review = some r }

-- The characters of an array up to the first zero.
abbrev pub c_string : List ℕ → List ℕ
c_string [] = []
c_string (c ∷ cs) = if c == 0 then [] else c ∷ c_string cs

abbrev pub is_state : State → State → Bool
is_state state_none state_none = true
is_state state_parsed state_parsed = true
is_state state_approved state_approved = true
is_state _ _ = false

abbrev pub is_request : RequestType → RequestType → Bool
is_request confirm_address confirm_address = true
is_request confirm_transaction confirm_transaction = true
is_request confirm_message confirm_message = true
is_request _ _ = false

-- "KAS " and an amount, cut to the 29 characters that `g_amount` and `g_fees` have room for.
abbrev pub kas : List ℕ → List ℕ
kas amount = take 29 (b'K' ∷ b'A' ∷ b'S' ∷ b' ' ∷ amount)

abbrev bad_state : GlobalCtx → Reply
bad_state g = reply_sw (record g { state = state_none }) sw_bad_state

module _ (p : Platform) where
  open p use {bip32_path_format, format_fpu64_trimmed}

  abbrev pub path_text : GlobalCtx → Option (List ℕ)
  path_text g = bip32_path_format (take g.bip32_path_len g.bip32_path)

  unfoldable pub ui_display_address : GlobalCtx → Reply
  ui_display_address g =
      let (done, address) =
        address_from_pubkey g.pk_info.raw_public_key schnorr (replicate 69 0) 69 in
      let shown : Reply = elim (path_text g) [
        | none ↦ reply_sw g sw_display_bip32_path_fail
        | some path ↦
            if done
            then begin_review g (review_pubkey path (c_string address))
            else reply_sw g sw_display_address_fail
      ] in
      if is_request g.req_type confirm_address && is_state g.state state_none
      then shown
      else bad_state g

  -- The address of the first output; the result of the conversion is not read.
  abbrev pub shown_address : GlobalCtx → List ℕ
  shown_address g =
      let to = get_or g.tx_info.transaction.tx_outputs 0 zero_output in
      c_string (script_public_key_to_address (replicate 69 0) 69 to.script_public_key 40).1

  abbrev pub shown_fees : GlobalCtx → ℕ
  shown_fees g =
      let tx = g.tx_info.transaction in
      calc_fees tx.tx_inputs tx.tx_input_len tx.tx_outputs tx.tx_output_len

  unfoldable pub ui_display_transaction : GlobalCtx → Reply
  ui_display_transaction g =
      let to = get_or g.tx_info.transaction.tx_outputs 0 zero_output in
      let shown : Reply = elim (format_fpu64_trimmed to.value 8) [
        | none ↦ reply_sw g sw_display_amount_fail
        | some amount ↦ elim (format_fpu64_trimmed (shown_fees g) 8) [
          | none ↦ reply_sw g sw_display_amount_fail
          | some fees ↦
              begin_review g (review_transaction (kas amount) (kas fees) (shown_address g))
        ]
      ] in
      if is_request g.req_type confirm_transaction && is_state g.state state_parsed
      then shown
      else bad_state g

  unfoldable pub ui_display_message : GlobalCtx → Reply
  ui_display_message g =
      let room = p.message_buffer_len in
      let text =
        format_message_to_sign (replicate room 0) room (message_memory g.msg_info)
          g.msg_info.message_len in
      let shown : Reply = elim (path_text g) [
        | none ↦ reply_sw g sw_display_bip32_path_fail
        | some path ↦ begin_review g (review_message path (c_string text))
      ] in
      if is_request g.req_type confirm_message && is_state g.state state_none
      then shown
      else bad_state g
