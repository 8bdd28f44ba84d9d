-- ===== src/Handlers/Refusals.antt =====
-- The status words of SIGN_MESSAGE, by the bytes of its data.
use app_kaspa.Prelude.{
  ℕ, ◌+◌, ◌≡◌, ◌||◌, Option, none, some, List, [], ◌∷◌, arith, length, ltb, ◌==◌, if◌then◌else◌,
}
use app_kaspa.Sdk.Buffer.{BufferLaws, buffer_of, advance}
use app_kaspa.Sdk.Platform.{Platform}
use app_kaspa.Context.{state_none, confirm_message, GlobalCtx}
use app_kaspa.Response.{
  status, sw_message_parsing_fail, sw_message_too_long, sw_message_too_short,
  sw_message_address_type_fail, sw_message_len_parsing_fail,
}
use app_kaspa.Display.{Reply, ui_display_message}
use app_kaspa.Handlers.SignMsg.{handler_sign_msg}
use app_kaspa.Handlers.Message.{message_type, message_account, length_field, message_context}

-- The status word for the first fault in the data of a message, by its length and its fields.
abbrev pub message_fault : ℕ → List ℕ → Option ℕ
message_fault max_message_len bytes =
    let n = length_field bytes in
    if ltb (length bytes) 9
      || (ltb 1 (message_type bytes) || ltb (message_account bytes) 0x80000000)
    then some sw_message_address_type_fail
    else if ltb (length bytes) 10
    then some sw_message_len_parsing_fail
    else if n == 0
    then some sw_message_too_short
    else if ltb max_message_len n
    then some sw_message_too_long
    else if ltb (length bytes) (10 + n)
    then some sw_message_parsing_fail
    else none

module _ (p : Platform) (laws : BufferLaws p.buffer) where
  -- The call refuses with a status word, and no message is under way.
  abbrev pub Refuses : Reply → ℕ → Type 0
  Refuses r sw =
      (r.sent ≡ status sw ∷ [])
      × (r.review ≡ none)
      × (r.context.state ≡ state_none)
      × (r.context.req_type ≡ confirm_message)

  -- Without a fault the call is the display function in the context of the message.
  unfoldable pub Verdict : List ℕ → Reply → Option ℕ → Type 0
  Verdict bytes r none = r ≡ ui_display_message p (message_context p laws bytes)
  Verdict bytes r (some sw) = Refuses r sw

  -- SIGN_MESSAGE by the bytes of its data, whatever the context was: without a fault it is the
  -- display function in the context of the message; otherwise the answer is the status word of the
  -- first fault, there is no review, and the state is STATE_NONE. SW_MESSAGE_UNEXPECTED is none of them.
  pub handler_sign_msg-Verdict :
      (bytes : List ℕ) (g : GlobalCtx)
      → Verdict bytes
          (handler_sign_msg p (buffer_of bytes) g)
          (message_fault p.max_message_len bytes)
  unfolding handler_sign_msg Verdict
  handler_sign_msg-Verdict bytes g =
      let buf = buffer_of bytes in
      let n = length_field bytes in
      ground (
        arith,
        laws.u8.done buf 0,
        laws.u8.refused buf 0,
        laws.u32.done (advance buf 1) 0,
        laws.u32.refused (advance buf 1) 0,
        laws.u32.done (advance buf 5) 0,
        laws.u32.refused (advance buf 5) 0,
        laws.u8.done (advance buf 9) 0,
        laws.u8.refused (advance buf 9) 0,
        laws.can_read (advance buf 10) n,
        laws.cannot_read (advance buf 10) n,
        laws.seek (advance buf 10) n,
      )
