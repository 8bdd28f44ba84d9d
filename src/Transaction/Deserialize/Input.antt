-- ===== src/Transaction/Deserialize/Input.antt =====
-- Which bytes `transaction_input_deserialize` accepts, and what it makes of them.
use app_kaspa.Prelude.{ℕ, ◌≡◌, ◌≢◌, ◌↔◌, List, arith, length, take, slice, splice, be_value}
use app_kaspa.Sdk.Buffer.{BufferApi, BufferLaws, advance, buffer_of}
use app_kaspa.Transaction.Types.{parsing_ok, TransactionInput}
use app_kaspa.Transaction.Deserialize.{transaction_input_deserialize}

-- The fields of an input at their offsets; the sequence number is not among them.
abbrev pub input_of : List ℕ → TransactionInput → TransactionInput
input_of bytes txin = record {
  address_type = be_value (slice bytes 40 1);
  address_index = be_value (slice bytes 41 4);
  sequence = txin.sequence;
  value = be_value (take 8 bytes);
  tx_id = splice txin.tx_id 0 (slice bytes 8 32);
  index = be_value (slice bytes 45 1);
}

module _ (api : BufferApi) (laws : BufferLaws api) where
  -- The 46 bytes of an input are the value, the id of the spent transaction, the address type, the
  -- address index and the output index, numbers big endian. The sequence number and the bytes of a
  -- longer id array stay as they were.
  pub input_accepted :
      (bytes : List ℕ) (txin : TransactionInput)
      → length bytes ≡ 46
      → transaction_input_deserialize api (buffer_of bytes) txin
        ≡ (parsing_ok, advance (buffer_of bytes) 46, input_of bytes txin)
  unfolding transaction_input_deserialize
  input_accepted bytes txin h =
      let buf = buffer_of bytes in
      ground (
        arith,
        laws.u64.done buf txin.value,
        laws.can_read (advance buf 8) 32,
        laws.seek (advance buf 8) 32,
        laws.u8.done (advance buf 40) txin.address_type,
        laws.u32.done (advance buf 41) txin.address_index,
        laws.u8.done (advance buf 45) txin.index,
      )

  input_refused :
      (bytes : List ℕ) (txin : TransactionInput)
      → length bytes ≢ 46
      → (transaction_input_deserialize api (buffer_of bytes) txin).0 ≢ parsing_ok
  unfolding transaction_input_deserialize
  input_refused bytes txin h =
      let buf = buffer_of bytes in
      ground (
        arith,
        laws.u64.done buf txin.value,
        laws.u64.refused buf txin.value,
        laws.can_read (advance buf 8) 32,
        laws.cannot_read (advance buf 8) 32,
        laws.seek (advance buf 8) 32,
        laws.u8.done (advance buf 40) txin.address_type,
        laws.u8.refused (advance buf 40) txin.address_type,
        laws.u32.done (advance buf 41) txin.address_index,
        laws.u32.refused (advance buf 41) txin.address_index,
        laws.u8.done (advance buf 45) txin.index,
        laws.u8.refused (advance buf 45) txin.index,
      )

  -- An input is accepted exactly when its data has 46 bytes.
  pub input_accepts_iff :
      (bytes : List ℕ) (txin : TransactionInput)
      → ((transaction_input_deserialize api (buffer_of bytes) txin).0 ≡ parsing_ok)
        ↔ (length bytes ≡ 46)
  input_accepts_iff bytes txin = grind (arith, input_accepted bytes txin, input_refused bytes txin)
