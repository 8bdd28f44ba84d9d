-- ===== src/Context.antt =====
-- types.h: the global context. The members of its union are fields side by side: every handler
-- clears the whole context before it uses its member, and `req_type` tells which member is in use.
use app_kaspa.Prelude.{ℕ, List, replicate}
use app_kaspa.Transaction.{Transaction, zero_transaction}

pub data State : Type 0 where
  state_none state_parsed state_approved : State

pub data RequestType : Type 0 where
  confirm_address confirm_transaction confirm_message : RequestType

pub record PubkeyCtx : Type 0 where
  pub raw_public_key : List ℕ
  pub chain_code : List ℕ

pub record TransactionCtx : Type 0 where
  pub transaction : Transaction
  pub signature : List ℕ
  pub signing_input_index : ℕ
  pub sighash : List ℕ
  pub parsing_input_index : ℕ
  pub parsing_output_index : ℕ

pub record MessageSignCtx : Type 0 where
  pub message_len : ℕ
  pub message : List ℕ
  pub message_hash : List ℕ
  pub signature : List ℕ
  pub account : ℕ
  pub address_type : ℕ
  pub address_index : ℕ

pub record GlobalCtx : Type 0 where
  pub state : State
  pub pk_info : PubkeyCtx
  pub tx_info : TransactionCtx
  pub msg_info : MessageSignCtx
  pub req_type : RequestType
  pub bip32_path : List ℕ
  pub bip32_path_len : ℕ

-- `explicit_bzero(&G_context, sizeof(G_context))`
abbrev pub zero_context : ℕ → GlobalCtx
zero_context max_input_count = record {
  state = state_none;
  pk_info = record { raw_public_key = replicate 64 0; chain_code = replicate 32 0 };
  tx_info = record {
    transaction = zero_transaction max_input_count;
    signature = replicate 64 0;
    signing_input_index = 0;
    sighash = replicate 32 0;
    parsing_input_index = 0;
    parsing_output_index = 0;
  };
  msg_info = record {
    message_len = 0;
    message = replicate 128 0;
    message_hash = replicate 32 0;
    signature = replicate 64 0;
    account = 0;
    address_type = 0;
    address_index = 0;
  };
  req_type = confirm_address;
  bip32_path = replicate 5 0;
  bip32_path_len = 0;
}
