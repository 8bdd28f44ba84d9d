-- ===== src/Response.antt =====
-- What leaves the device: sw.h, io.h of the SDK, and helper/send_reponse.c.
use app_kaspa.Prelude.{ℕ, ◌+◌, ◌-◌, ◌%◌, ◌^◌, List, [], ◌∷◌, ◌++◌, take}
use app_kaspa.Context.{GlobalCtx}

-- A response: its data and its status word. `io_send_sw` sends no data.
pub record Response : Type 0 where
  pub bytes : List ℕ
  pub sw : ℕ

abbrev pub status : ℕ → Response
status sw = record { bytes = []; sw = sw }

abbrev pub sw_ok : ℕ
sw_ok = 0x9000

abbrev pub sw_deny : ℕ
sw_deny = 0x6985

abbrev pub sw_wrong_p1p2 : ℕ
sw_wrong_p1p2 = 0x6a86

abbrev pub sw_wrong_data_length : ℕ
sw_wrong_data_length = 0x6a87

abbrev pub sw_ins_not_supported : ℕ
sw_ins_not_supported = 0x6d00

abbrev pub sw_cla_not_supported : ℕ
sw_cla_not_supported = 0x6e00

abbrev pub sw_display_bip32_path_fail : ℕ
sw_display_bip32_path_fail = 0xb001

abbrev pub sw_display_address_fail : ℕ
sw_display_address_fail = 0xb002

abbrev pub sw_display_amount_fail : ℕ
sw_display_amount_fail = 0xb003

abbrev pub sw_tx_parsing_fail : ℕ
sw_tx_parsing_fail = 0xb005

abbrev pub sw_bad_state : ℕ
sw_bad_state = 0xb007

abbrev pub sw_wrong_bip32_purpose : ℕ
sw_wrong_bip32_purpose = 0xb009

abbrev pub sw_wrong_bip32_coin_type : ℕ
sw_wrong_bip32_coin_type = 0xb00a

abbrev pub sw_wrong_bip32_path_len : ℕ
sw_wrong_bip32_path_len = 0xb00b

abbrev pub sw_message_parsing_fail : ℕ
sw_message_parsing_fail = 0xb010

abbrev pub sw_message_too_long : ℕ
sw_message_too_long = 0xb011

abbrev pub sw_message_too_short : ℕ
sw_message_too_short = 0xb012

abbrev pub sw_message_address_type_fail : ℕ
sw_message_address_type_fail = 0xb013

abbrev pub sw_message_len_parsing_fail : ℕ
sw_message_len_parsing_fail = 0xb015

abbrev pub sw_message_unexpected : ℕ
sw_message_unexpected = 0xb016

-- `resp` is a zeroed array, and the fields follow one another in it.
unfoldable pub helper_send_response_pubkey : GlobalCtx → Response
helper_send_response_pubkey g = record {
  bytes = 65 ∷ 0x04 ∷ (take 64 g.pk_info.raw_public_key ++ 32 ∷ take 32 g.pk_info.chain_code);
  sw = sw_ok;
}

-- The first byte is computed in `size_t` and cut to a byte.
unfoldable pub helper_send_response_sig : GlobalCtx → Response
helper_send_response_sig g = record {
  bytes =
      ((g.tx_info.transaction.tx_input_len + 2 ^ 64 - g.tx_info.signing_input_index - 1) % 256)
      ∷ g.tx_info.signing_input_index
      ∷ 64
      ∷ (take 64 g.tx_info.signature ++ 32 ∷ take 32 g.tx_info.sighash);
  sw = sw_ok;
}

unfoldable pub helper_send_response_personal_message_sig : GlobalCtx → Response
helper_send_response_personal_message_sig g = record {
  bytes = 64 ∷ (take 64 g.msg_info.signature ++ 32 ∷ take 32 g.msg_info.message_hash);
  sw = sw_ok;
}
