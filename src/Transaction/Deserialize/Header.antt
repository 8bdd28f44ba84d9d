-- ===== src/Transaction/Deserialize/Header.antt =====
-- Which bytes `transaction_deserialize` accepts, and what it makes of them.
use app_kaspa.Prelude.{ℕ, ◌≤◌, ◌≡◌, ap, ◌↔◌, List, arith, length, take, set, slice, be_value}
use app_kaspa.Sdk.Buffer.{Buffer, BufferApi, BufferLaws, advance, buffer_of}
use app_kaspa.Transaction.Types.{ParserStatus, parsing_ok, Transaction}
use app_kaspa.Transaction.Deserialize.{transaction_deserialize}

-- The fields of the header at their offsets.
abbrev pub n_outputs : List ℕ → ℕ
n_outputs bytes = be_value (slice bytes 2 1)

abbrev pub n_inputs : List ℕ → ℕ
n_inputs bytes = be_value (slice bytes 3 1)

abbrev pub change_type : List ℕ → ℕ
change_type bytes = be_value (slice bytes 4 1)

abbrev pub change_index : List ℕ → ℕ
change_index bytes = be_value (slice bytes 5 4)

abbrev pub account_of : List ℕ → ℕ
account_of bytes = be_value (slice bytes 9 4)

abbrev pub header_of : List ℕ → Transaction → Transaction
header_of bytes tx = record tx {
  version = be_value (take 2 bytes);
  account = account_of bytes;
  tx_output_len = n_outputs bytes;
  tx_input_len = n_inputs bytes;
}

abbrev pub change_path : List ℕ → List ℕ → List ℕ
change_path bytes path =
    set
      (set (set (set (set path 0 0x8000002c) 1 0x8001b207) 2 (account_of bytes)) 3
        (change_type bytes))
      4 (change_index bytes)

pub record HeaderLayout (max_input_count : ℕ) (bytes : List ℕ) : Type 0 where
  pub whole : length bytes ≡ 13
  pub some_outputs : 1 ≤ n_outputs bytes
  pub few_outputs : n_outputs bytes ≤ 2
  pub some_inputs : 1 ≤ n_inputs bytes
  pub few_inputs : n_inputs bytes ≤ max_input_count
  pub known_type : change_type bytes ≤ 1
  pub hardened : 0x80000000 ≤ account_of bytes

module _ (api : BufferApi) (laws : BufferLaws api) where
  -- A header of the layout is accepted: it sets the version, the account and the two counts, and
  -- the path of the change: 44'/111111'/account/type/index.
  pub header_accepted :
      (max_input_count : ℕ) (bytes : List ℕ) (tx : Transaction) (path : List ℕ)
      → HeaderLayout max_input_count bytes
      → transaction_deserialize api max_input_count (buffer_of bytes) tx path
        ≡ (parsing_ok, advance (buffer_of bytes) 13, header_of bytes tx, change_path bytes path)
  unfolding transaction_deserialize
  header_accepted m bytes tx path h =
      let buf = buffer_of bytes in
      ground (
        arith,
        laws.u16.done buf tx.version,
        laws.u8.done (advance buf 2) 0,
        laws.u8.done (advance buf 3) 0,
        laws.u8.done (advance buf 4) 0,
        laws.u32.done (advance buf 5) 0,
        laws.u32.done (advance buf 9) tx.account,
      )

  pub header_sound :
      (max_input_count : ℕ) (bytes : List ℕ) (tx : Transaction) (path : List ℕ)
      → (transaction_deserialize api max_input_count (buffer_of bytes) tx path).0 ≡ parsing_ok
      → HeaderLayout max_input_count bytes
  unfolding transaction_deserialize
  header_sound m bytes tx path h =
      let buf = buffer_of bytes in
      ground (
        arith,
        laws.u16.done buf tx.version,
        laws.u16.refused buf tx.version,
        laws.u8.done (advance buf 2) 0,
        laws.u8.refused (advance buf 2) 0,
        laws.u8.done (advance buf 3) 0,
        laws.u8.refused (advance buf 3) 0,
        laws.u8.done (advance buf 4) 0,
        laws.u8.refused (advance buf 4) 0,
        laws.u32.done (advance buf 5) 0,
        laws.u32.refused (advance buf 5) 0,
        laws.u32.done (advance buf 9) tx.account,
        laws.u32.refused (advance buf 9) tx.account,
      )

  -- A header is accepted exactly when it has 13 bytes, one or two outputs, from one input to the
  -- maximum, a change type of 0 or 1 and a hardened account.
  pub header_accepts_iff :
      (max_input_count : ℕ) (bytes : List ℕ) (tx : Transaction) (path : List ℕ)
      → ((transaction_deserialize api max_input_count (buffer_of bytes) tx path).0 ≡ parsing_ok)
        ↔ HeaderLayout max_input_count bytes
  header_accepts_iff m bytes tx path = (
    header_sound m bytes tx path,
    λ h.
        ap (λ (r : ParserStatus × Buffer × Transaction × List ℕ). r.0)
          (header_accepted m bytes tx path h),
  )
