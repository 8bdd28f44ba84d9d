-- ===== src/Transaction/Serialize.antt =====
-- transaction/serialize.c. A result is the number of bytes, or `none` for -1, with the array.
pub mod Layout
use app_kaspa.Prelude.{
  ℕ, ◌+◌, ◌%◌, Option, none, some, List, ltb, ◌==◌, if◌then◌else◌, get_or, take, set, splice,
}
use app_kaspa.Sdk.Write.{WriteApi}
use app_kaspa.Transaction.Types.{op_blake2b, Transaction, TransactionInput, TransactionOutput}

module _ (api : WriteApi) where
  open api use {write_u16_be, write_u32_be, write_u64_be}

  unfoldable pub transaction_serialize : Transaction → List ℕ → List ℕ → ℕ → Option ℕ × List ℕ
  transaction_serialize tx path out out_len =
      let versioned = write_u16_be out 0 tx.version in
      let counted = set (set versioned 2 (tx.tx_output_len % 256)) 3 (tx.tx_input_len % 256) in
      let typed = set counted 4 (get_or path 3 0 % 256) in
      let placed = write_u32_be typed 5 (get_or path 4 0) in
      let owned = write_u32_be placed 9 (get_or path 2 0) in
      if ltb out_len 9 then (none, out) else (some 13, owned)

  unfoldable pub transaction_input_serialize : TransactionInput → List ℕ → ℕ → Option ℕ × List ℕ
  transaction_input_serialize txin out out_len =
      let valued = write_u64_be out 0 txin.value in
      let named = splice valued 8 (take 32 txin.tx_id) in
      let typed = set named 40 txin.address_type in
      let placed = write_u32_be typed 41 txin.address_index in
      let indexed = set placed 45 txin.index in
      if ltb out_len 46 then (none, out) else (some 46, indexed)

  unfoldable pub transaction_output_serialize : TransactionOutput → List ℕ → ℕ → Option ℕ × List ℕ
  transaction_output_serialize txout out out_len =
      let script = txout.script_public_key in
      let valued = write_u64_be out 0 txout.value in
      let n =
        if get_or script 0 0 == op_blake2b then get_or script 1 0 + 3 else get_or script 0 0 + 2 in
      if ltb out_len 41 then (none, out) else (some (8 + n), splice valued 8 (take n script))
