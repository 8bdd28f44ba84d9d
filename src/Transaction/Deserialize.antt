-- ===== src/Transaction/Deserialize.antt =====
-- transaction/deserialize.c. Each function returns its status with what it leaves behind its
-- pointers: the buffer, the structure and, for the header, the path.
pub mod Header
pub mod Input
pub mod Output
use app_kaspa.Prelude.{ℕ, ◌+◌, not, ◌&&◌, ◌||◌, List, ltb, ◌==◌, if◌then◌else◌, splice, set}
use app_kaspa.Sdk.Buffer.{Buffer, BufferApi, byte_at, bytes_at}
use app_kaspa.Transaction.Types.{
  ParserStatus, parsing_ok, version_parsing_error, outputs_length_parsing_error,
  inputs_length_parsing_error, header_parsing_error, input_parsing_error, input_value_parsing_error,
  input_tx_id_parsing_error, input_address_type_parsing_error, input_address_index_parsing_error,
  input_index_parsing_error, output_parsing_error, output_value_parsing_error,
  output_script_pubkey_parsing_error, op_checksig, op_checksigecdsa, op_blake2b, op_equal,
  Transaction, TransactionInput, TransactionOutput,
}

-- `buf->size - buf->offset == 0 ? PARSING_OK : error`
abbrev at_end : Buffer → ParserStatus → ParserStatus
at_end buf error = if buf.size == buf.offset then parsing_ok else error

module _ (api : BufferApi) where
  open api use {
    buffer_can_read, buffer_seek_cur, buffer_read_u8, buffer_read_u16, buffer_read_u32,
    buffer_read_u64,
  }

  -- `memcpy` of `n` bytes of the script, then the seek over them.
  copy_script : Buffer → TransactionOutput → ℕ → ParserStatus × Buffer × TransactionOutput
  copy_script buf txout n =
      let copied = record txout {
        script_public_key = splice txout.script_public_key 0 (bytes_at buf n);
      } in
      let (moved, rest) = buffer_seek_cur buf n in
      if moved
      then (at_end rest output_parsing_error, rest, copied)
      else (output_script_pubkey_parsing_error, rest, copied)

  -- The branch of a script that begins with OP_BLAKE2B.
  read_p2sh : Buffer → TransactionOutput → ParserStatus × Buffer × TransactionOutput
  unfolding copy_script
  read_p2sh buf txout =
      let refused : ParserStatus × Buffer × TransactionOutput =
        (output_script_pubkey_parsing_error, buf, txout) in
      let script_len = byte_at buf 1 in
      if not (buffer_can_read buf 2)
      then refused
      else if not (script_len == 0x20)
      then refused
      else if not (buffer_can_read buf (script_len + 3))
      then refused
      else if not (byte_at buf (script_len + 2) == op_equal)
      then refused
      else copy_script buf txout (script_len + 3)

  -- The branch of a script that begins with the length 32 or 33 of a key.
  read_p2pk : Buffer → TransactionOutput → ℕ → ParserStatus × Buffer × TransactionOutput
  unfolding copy_script
  read_p2pk buf txout script_len =
      let refused : ParserStatus × Buffer × TransactionOutput =
        (output_script_pubkey_parsing_error, buf, txout) in
      let sig_op_code = byte_at buf (script_len + 1) in
      if not (buffer_can_read buf (script_len + 2))
      then refused
      else if (script_len == 0x20 && not (sig_op_code == op_checksig))
          || (script_len == 0x21 && not (sig_op_code == op_checksigecdsa))
      then refused
      else copy_script buf txout (script_len + 2)

  unfoldable pub transaction_output_deserialize :
      Buffer → TransactionOutput → ParserStatus × Buffer × TransactionOutput
  unfolding read_p2sh read_p2pk
  transaction_output_deserialize buf txout =
      let (done, value, buf') = buffer_read_u64 buf txout.value in
      let txout' = record txout { value = value } in
      let script_len = byte_at buf' 0 in
      if not done
      then (output_value_parsing_error, buf', txout')
      else if not (buffer_can_read buf' 1)
      then (output_script_pubkey_parsing_error, buf', txout')
      else if script_len == op_blake2b
      then read_p2sh buf' txout'
      else if script_len == 0x20 || script_len == 0x21
      then read_p2pk buf' txout' script_len
      else (output_script_pubkey_parsing_error, buf', txout')

  unfoldable pub transaction_input_deserialize :
      Buffer → TransactionInput → ParserStatus × Buffer × TransactionInput
  transaction_input_deserialize buf txin =
      let (done, value, buf₁) = buffer_read_u64 buf txin.value in
      let txin₁ = record txin { value = value } in
      let txin₂ = record txin₁ { tx_id = splice txin.tx_id 0 (bytes_at buf₁ 32) } in
      let (moved, buf₂) = buffer_seek_cur buf₁ 32 in
      let (typed, address_type, buf₃) = buffer_read_u8 buf₂ txin.address_type in
      let txin₃ = record txin₂ { address_type = address_type } in
      let (placed, address_index, buf₄) = buffer_read_u32 buf₃ txin.address_index in
      let txin₄ = record txin₃ { address_index = address_index } in
      let (indexed, index, buf₅) = buffer_read_u8 buf₄ txin.index in
      let txin₅ = record txin₄ { index = index } in
      if not done
      then (input_value_parsing_error, buf₁, txin₁)
      else if not (buffer_can_read buf₁ 32)
      then (input_tx_id_parsing_error, buf₁, txin₁)
      else if not moved
      then (input_tx_id_parsing_error, buf₂, txin₂)
      else if not typed
      then (input_address_type_parsing_error, buf₃, txin₃)
      else if not placed
      then (input_address_index_parsing_error, buf₄, txin₄)
      else if not indexed
      then (input_index_parsing_error, buf₅, txin₅)
      else (at_end buf₅ input_parsing_error, buf₅, txin₅)

  -- The first test of the source, of a constant path length, never fails.
  unfoldable pub transaction_deserialize :
      ℕ → Buffer → Transaction → List ℕ → ParserStatus × Buffer × Transaction × List ℕ
  transaction_deserialize max_input_count buf tx path =
      let (versioned, version, buf₁) = buffer_read_u16 buf tx.version in
      let tx₁ = record tx { version = version } in
      let (outputs, n_output, buf₂) = buffer_read_u8 buf₁ 0 in
      let tx₂ = record tx₁ { tx_output_len = n_output } in
      let (inputs, n_input, buf₃) = buffer_read_u8 buf₂ 0 in
      let tx₃ = record tx₂ { tx_input_len = n_input } in
      let (typed, change_address_type, buf₄) = buffer_read_u8 buf₃ 0 in
      let (placed, change_address_index, buf₅) = buffer_read_u32 buf₄ 0 in
      let (owned, account, buf₆) = buffer_read_u32 buf₅ tx.account in
      let tx₄ = record tx₃ { account = account } in
      let path' =
        set (set (set (set (set path 0 0x8000002c) 1 0x8001b207) 2 account) 3 change_address_type) 4
          change_address_index in
      if not versioned
      then (version_parsing_error, buf₁, tx₁, path)
      else if not outputs
      then (outputs_length_parsing_error, buf₂, tx₁, path)
      else if ltb n_output 1 || ltb 2 n_output
      then (outputs_length_parsing_error, buf₂, tx₂, path)
      else if not inputs
      then (inputs_length_parsing_error, buf₃, tx₂, path)
      else if ltb n_input 1 || ltb max_input_count n_input
      then (inputs_length_parsing_error, buf₃, tx₃, path)
      else if not typed
      then (header_parsing_error, buf₄, tx₃, path)
      else if not (change_address_type == 0) && not (change_address_type == 1)
      then (header_parsing_error, buf₄, tx₃, path)
      else if not placed
      then (header_parsing_error, buf₅, tx₃, path)
      else if not owned
      then (header_parsing_error, buf₆, tx₄, path)
      else if ltb account 0x80000000
      then (header_parsing_error, buf₆, tx₄, path)
      else (at_end buf₆ header_parsing_error, buf₆, tx₄, path')
