-- ===== src/Handlers/SignMsg.antt =====
-- handler/sign_msg.c.
use app_kaspa.Prelude.{ℕ, not, ◌&&◌, List, ltb, ◌==◌, if◌then◌else◌, take, drop, splice}
use app_kaspa.Sdk.Buffer.{Buffer, bytes_at}
use app_kaspa.Sdk.Platform.{Platform}
use app_kaspa.Context.{confirm_message, GlobalCtx, MessageSignCtx, zero_context}
use app_kaspa.Response.{
  sw_message_parsing_fail, sw_message_too_long, sw_message_too_short, sw_message_address_type_fail,
  sw_message_len_parsing_fail, sw_message_unexpected,
}
use app_kaspa.Crypto.{message_memory, address_path}
use app_kaspa.Display.{Reply, reply_sw, ui_display_message}

-- `memcpy` to `message`: what does not fit its 128 bytes goes to the arrays behind it.
abbrev pub copy_message : MessageSignCtx → List ℕ → MessageSignCtx
copy_message m bytes =
    let memory = splice (message_memory m) 0 bytes in
    record m {
      message = take 128 memory;
      message_hash = take 32 (drop 128 memory);
      signature = drop 160 memory;
    }

abbrev with_message : GlobalCtx → MessageSignCtx → GlobalCtx
with_message g m = record g { msg_info = m }

module _ (p : Platform) where
  open p use {buffer, max_message_len}
  open buffer use {buffer_can_read, buffer_seek_cur, buffer_read_u8, buffer_read_u32}

  unfoldable pub handler_sign_msg : Buffer → GlobalCtx → Reply
  handler_sign_msg cdata g =
      let g₀ = record (zero_context p.max_input_count) { req_type = confirm_message } in
      let m₀ = g₀.msg_info in
      let (typed, address_type, buf₁) = buffer_read_u8 cdata m₀.address_type in
      let m₁ = record m₀ { address_type = address_type } in
      let (placed, address_index, buf₂) = buffer_read_u32 buf₁ m₀.address_index in
      let m₂ = record m₁ { address_index = address_index } in
      let (owned, account, buf₃) = buffer_read_u32 buf₂ m₀.account in
      let m₃ = record m₂ { account = account } in
      let (sized, message_len, buf₄) = buffer_read_u8 buf₃ 0 in
      let m₄ = record m₃ { message_len = message_len } in
      let m₅ = copy_message m₄ (bytes_at buf₄ message_len) in
      let (moved, buf₅) = buffer_seek_cur buf₄ message_len in
      let g₆ = record (with_message g₀ m₅) {
        bip32_path = address_path g₀.bip32_path account address_type address_index;
        bip32_path_len = 5;
      } in
      if not typed
      then reply_sw (with_message g₀ m₁) sw_message_address_type_fail
      else if not (address_type == 0) && not (address_type == 1)
      then reply_sw (with_message g₀ m₁) sw_message_address_type_fail
      else if not placed
      then reply_sw (with_message g₀ m₂) sw_message_address_type_fail
      else if not owned
      then reply_sw (with_message g₀ m₃) sw_message_address_type_fail
      else if ltb account 0x80000000
      then reply_sw (with_message g₀ m₃) sw_message_address_type_fail
      else if not sized
      then reply_sw (with_message g₀ m₃) sw_message_len_parsing_fail
      else if message_len == 0
      then reply_sw (with_message g₀ m₃) sw_message_too_short
      else if ltb max_message_len message_len
      then reply_sw (with_message g₀ m₃) sw_message_too_long
      else if not (buffer_can_read buf₄ message_len)
      then reply_sw (with_message g₀ m₄) sw_message_parsing_fail
      else if not moved
      then reply_sw (with_message g₀ m₅) sw_message_unexpected
      else ui_display_message p g₆
