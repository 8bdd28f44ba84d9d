-- ===== src/Handlers/SignTx.antt =====
-- handler/sign_tx.c.
use app_kaspa.Prelude.{
  ℕ, ◌+◌, ◌-◌, ◌%◌, ◌^◌, Bool, true, false, not, ◌&&◌, ◌||◌, leb, ◌==◌, if◌then◌else◌, get_or, set,
}
use app_kaspa.Sdk.Buffer.{Buffer}
use app_kaspa.Sdk.Platform.{Platform}
use app_kaspa.Context.{state_parsed, state_approved, confirm_transaction, GlobalCtx, zero_context}
use app_kaspa.Response.{sw_ok, sw_tx_parsing_fail, sw_bad_state, sw_wrong_p1p2}
use app_kaspa.Display.{Reply, reply_sw, is_state, is_request, ui_display_transaction}
use app_kaspa.Actions.{sign_input_and_send}
use app_kaspa.Transaction.{
  ParserStatus, parsing_ok, version_parsing_error, outputs_length_parsing_error,
  inputs_length_parsing_error, header_parsing_error, input_parsing_error, input_value_parsing_error,
  input_tx_id_parsing_error, input_address_type_parsing_error, input_address_index_parsing_error,
  input_index_parsing_error, output_parsing_error, output_value_parsing_error,
  output_script_pubkey_parsing_error, max_output_count, Transaction, zero_input, zero_output,
}
use app_kaspa.Transaction.Deserialize.{
  transaction_deserialize, transaction_output_deserialize, transaction_input_deserialize,
}
use app_kaspa.Transaction.Validate.{tx_validate_parsed_transaction}

-- The constants of `parser_status_e`, as the `uint16_t` that `io_send_sw` takes.
unfoldable pub status_code : ParserStatus → ℕ
status_code parsing_ok = 1
status_code version_parsing_error = 2 ^ 16 - 1
status_code outputs_length_parsing_error = 2 ^ 16 - 2
status_code inputs_length_parsing_error = 2 ^ 16 - 3
status_code header_parsing_error = 2 ^ 16 - 4
status_code input_parsing_error = 2 ^ 16 - 20
status_code input_value_parsing_error = 2 ^ 16 - 21
status_code input_tx_id_parsing_error = 2 ^ 16 - 22
status_code input_address_type_parsing_error = 2 ^ 16 - 23
status_code input_address_index_parsing_error = 2 ^ 16 - 24
status_code input_index_parsing_error = 2 ^ 16 - 25
status_code output_parsing_error = 2 ^ 16 - 30
status_code output_value_parsing_error = 2 ^ 16 - 31
status_code output_script_pubkey_parsing_error = 2 ^ 16 - 32

abbrev pub is_ok : ParserStatus → Bool
is_ok parsing_ok = true
is_ok _ = false

abbrev with_transaction : GlobalCtx → Transaction → GlobalCtx
with_transaction g tx =
    let info = record g.tx_info { transaction = tx } in record g { tx_info = info }

module _ (p : Platform) where
  -- `type == 0`: the header.
  unfoldable pub start_transaction : Buffer → GlobalCtx → Reply
  start_transaction cdata g =
      let cleared = record (zero_context p.max_input_count) { req_type = confirm_transaction } in
      let (status, rest, tx, path) =
        transaction_deserialize p.buffer p.max_input_count cdata cleared.tx_info.transaction
          cleared.bip32_path in
      let g' = record (with_transaction cleared tx) { bip32_path = path } in
      if is_ok status then reply_sw g' sw_ok else reply_sw g' sw_tx_parsing_fail

  -- The end of a chunk: more is to come, or the transaction is validated and shown.
  unfoldable pub end_chunk : Bool → GlobalCtx → Reply
  end_chunk more g =
      let (valid, path, path_len) =
        tx_validate_parsed_transaction p.crypto g.tx_info.transaction g.bip32_path
          g.bip32_path_len in
      let g' = record g { bip32_path = path; bip32_path_len = path_len } in
      if more
      then reply_sw g sw_ok
      else if not valid
      then reply_sw g' sw_tx_parsing_fail
      else ui_display_transaction p (record g' { state = state_parsed })

  -- `type == P1_OUTPUTS`. A refused output stays where it was written.
  unfoldable pub parse_output : Buffer → Bool → GlobalCtx → Reply
  parse_output cdata more g =
      let tx = g.tx_info.transaction in
      let i = g.tx_info.parsing_output_index in
      let (err, rest, txout) =
        transaction_output_deserialize p.buffer cdata (get_or tx.tx_outputs i zero_output) in
      let g₁ = with_transaction g (record tx { tx_outputs = set tx.tx_outputs i txout }) in
      let info₂ = record g₁.tx_info { parsing_output_index = (i + 1) % 256 } in
      let g₂ = record g₁ { tx_info = info₂ } in
      if leb max_output_count i || leb (tx.tx_output_len % 256) i
      then reply_sw g sw_tx_parsing_fail
      else if not (is_ok err)
      then reply_sw g₁ (status_code err)
      else end_chunk more g₂

  -- `type == P1_INPUTS`.
  unfoldable pub parse_input : Buffer → Bool → GlobalCtx → Reply
  parse_input cdata more g =
      let tx = g.tx_info.transaction in
      let i = g.tx_info.parsing_input_index in
      let (err, rest, txin) =
        transaction_input_deserialize p.buffer cdata (get_or tx.tx_inputs i zero_input) in
      let g₁ = with_transaction g (record tx { tx_inputs = set tx.tx_inputs i txin }) in
      let info₂ = record g₁.tx_info { parsing_input_index = (i + 1) % 256 } in
      let g₂ = record g₁ { tx_info = info₂ } in
      if leb (p.max_input_count % 256) i || leb (tx.tx_input_len % 256) i
      then reply_sw g sw_tx_parsing_fail
      else if not (is_ok err)
      then reply_sw g₁ sw_tx_parsing_fail
      else end_chunk more g₂

  -- The branches by `type`, which is P1.
  unfoldable pub handler_sign_tx : ℕ → Buffer → ℕ → Bool → GlobalCtx → Reply
  handler_sign_tx random cdata type more g =
      let cleared = zero_context p.max_input_count in
      let wanted = is_request g.req_type confirm_transaction in
      if type == 0
      then start_transaction cdata g
      else if type == 1
      then (if wanted then parse_output cdata more g else reply_sw g sw_bad_state)
      else if type == 2
      then (if wanted then parse_input cdata more g else reply_sw g sw_bad_state)
      else if type == 3
      then (if wanted && is_state g.state state_approved
          then sign_input_and_send p random g
          else reply_sw cleared sw_bad_state)
      else reply_sw cleared sw_wrong_p1p2
