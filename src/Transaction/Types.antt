-- ===== src/Transaction/Types.antt =====
-- transaction/types.h and constants.h.
use app_kaspa.Prelude.{ℕ, List, replicate}

pub data ParserStatus : Type 0 where
  parsing_ok : ParserStatus
  version_parsing_error outputs_length_parsing_error inputs_length_parsing_error : ParserStatus
  header_parsing_error input_parsing_error input_value_parsing_error : ParserStatus
  input_tx_id_parsing_error input_address_type_parsing_error : ParserStatus
  input_address_index_parsing_error input_index_parsing_error output_parsing_error : ParserStatus
  output_value_parsing_error output_script_pubkey_parsing_error : ParserStatus

abbrev pub op_checksig : ℕ
op_checksig = 0xac

abbrev pub op_checksigecdsa : ℕ
op_checksigecdsa = 0xab

abbrev pub op_blake2b : ℕ
op_blake2b = 0xaa

abbrev pub op_equal : ℕ
op_equal = 0x87

abbrev pub max_output_count : ℕ
max_output_count = 2

abbrev pub script_public_key_buffer_len : ℕ
script_public_key_buffer_len = 40

pub record TransactionInput : Type 0 where
  pub address_type : ℕ
  pub address_index : ℕ
  pub sequence : ℕ
  pub value : ℕ
  pub tx_id : List ℕ
  pub index : ℕ

pub record TransactionOutput : Type 0 where
  pub value : ℕ
  pub script_public_key : List ℕ

-- The arrays have their full length, also where fewer elements are in use.
pub record Transaction : Type 0 where
  pub version : ℕ
  pub account : ℕ
  pub tx_input_len : ℕ
  pub tx_output_len : ℕ
  pub tx_outputs : List TransactionOutput
  pub tx_inputs : List TransactionInput

-- What `explicit_bzero` leaves; `max_input_count` is a constant of the device's build.
abbrev pub zero_input : TransactionInput
zero_input = record {
  address_type = 0;
  address_index = 0;
  sequence = 0;
  value = 0;
  tx_id = replicate 32 0;
  index = 0;
}

abbrev pub zero_output : TransactionOutput
zero_output = record { value = 0; script_public_key = replicate script_public_key_buffer_len 0 }

abbrev pub zero_transaction : ℕ → Transaction
zero_transaction max_input_count = record {
  version = 0;
  account = 0;
  tx_input_len = 0;
  tx_output_len = 0;
  tx_outputs = replicate max_output_count zero_output;
  tx_inputs = replicate max_input_count zero_input;
}
