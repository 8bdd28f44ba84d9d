-- ===== src/Handlers/Chunks.antt =====
-- Which parts of a transaction SIGN_TX takes.
use app_kaspa.Prelude.{ℕ, ◌%◌, ◌<◌, ◌≡◌, ◌↔◌, ◌⊎◌, ◌≢◌, true, List, [], ◌∷◌, arith, length, get_or}
use app_kaspa.Sdk.Buffer.{BufferLaws, buffer_of}
use app_kaspa.Sdk.Platform.{Platform}
use app_kaspa.Context.{confirm_transaction, GlobalCtx, zero_context}
use app_kaspa.Transaction.Deserialize.{transaction_output_deserialize}
use app_kaspa.Transaction.{ParserStatus, parsing_ok, zero_input, zero_output, max_output_count}
use app_kaspa.Transaction.Deserialize.Header.{HeaderLayout, header_accepts_iff}
use app_kaspa.Transaction.Deserialize.Output.{OutputLayout, output_accepts_iff}
use app_kaspa.Transaction.Deserialize.Input.{input_accepts_iff}
use app_kaspa.Response.{status, sw_ok}
use app_kaspa.Handlers.SignTx.{
  status_code, start_transaction, parse_output, parse_input, end_chunk, handler_sign_tx,
}

status_code-ne-ok : (err : ParserStatus) → status_code err ≢ sw_ok
unfolding status_code
status_code-ne-ok parsing_ok = omega arith
status_code-ne-ok err = omega arith

module _ (p : Platform) (laws : BufferLaws p.buffer) where
  -- A header of the layout; or, for a transaction under way, an output or an input that is still
  -- missing, for which there is room.
  abbrev pub Takes : ℕ → List ℕ → GlobalCtx → Type 0
  Takes type bytes g =
      let t = g.tx_info in
      ((type ≡ 0) × HeaderLayout p.max_input_count bytes)
      ⊎ ((type ≡ 1)
          × (g.req_type ≡ confirm_transaction)
          × (t.parsing_output_index < max_output_count)
          × (t.parsing_output_index < t.transaction.tx_output_len % 256)
          × OutputLayout bytes)
      ⊎ ((type ≡ 2)
          × (g.req_type ≡ confirm_transaction)
          × (t.parsing_input_index < p.max_input_count % 256)
          × (t.parsing_input_index < t.transaction.tx_input_len % 256)
          × (length bytes ≡ 46))

  start_transaction-ok :
      (bytes : List ℕ) (g : GlobalCtx)
      → ((start_transaction p (buffer_of bytes) g).sent ≡ status sw_ok ∷ [])
        ↔ HeaderLayout p.max_input_count bytes
  unfolding start_transaction
  start_transaction-ok bytes g =
      let cleared = zero_context p.max_input_count in
      let accepts =
        header_accepts_iff p.buffer laws p.max_input_count bytes cleared.tx_info.transaction
          cleared.bip32_path in
      ground arith

  parse_output-ok :
      (Layout : Type 0) (bytes : List ℕ) (g : GlobalCtx)
      → let t = g.tx_info in
        let old = get_or t.transaction.tx_outputs t.parsing_output_index zero_output in
        (((transaction_output_deserialize p.buffer (buffer_of bytes) old).0 ≡ parsing_ok) ↔ Layout)
        → ((parse_output p (buffer_of bytes) true g).sent ≡ status sw_ok ∷ []) ↔ (
            (t.parsing_output_index < max_output_count)
            × (t.parsing_output_index < t.transaction.tx_output_len % 256)
            × Layout)
  unfolding parse_output end_chunk
  parse_output-ok Layout bytes g accepts =
      let t = g.tx_info in
      let old = get_or t.transaction.tx_outputs t.parsing_output_index zero_output in
      let err = (transaction_output_deserialize p.buffer (buffer_of bytes) old).0 in
      ground (arith, status_code-ne-ok err)

  parse_input-ok :
      (bytes : List ℕ) (g : GlobalCtx)
      → ((parse_input p (buffer_of bytes) true g).sent ≡ status sw_ok ∷ []) ↔ (
          (g.tx_info.parsing_input_index < p.max_input_count % 256)
          × (g.tx_info.parsing_input_index < g.tx_info.transaction.tx_input_len % 256)
          × (length bytes ≡ 46))
  unfolding parse_input end_chunk
  parse_input-ok bytes g =
      let t = g.tx_info in
      let old = get_or t.transaction.tx_inputs t.parsing_input_index zero_input in
      let accepts = input_accepts_iff p.buffer laws bytes old in ground arith

  -- SIGN_TX with more to follow answers a part of a transaction with SW_OK exactly when the part is
  -- a header of the layout, or, for a transaction under way, an output of one of the three layouts or
  -- an input of 46 bytes that is declared and missing, and for which there is room.
  pub handler_sign_tx-Takes :
      (random : ℕ) (type : ℕ) (bytes : List ℕ) (g : GlobalCtx)
      → type < 3
      → ((handler_sign_tx p random (buffer_of bytes) type true g).sent ≡ status sw_ok ∷ [])
        ↔ Takes type bytes g
  unfolding handler_sign_tx
  handler_sign_tx-Takes random type bytes g part =
      let t = g.tx_info in
      let old = get_or t.transaction.tx_outputs t.parsing_output_index zero_output in
      let header = start_transaction-ok bytes g in
      let output =
        parse_output-ok (OutputLayout bytes) bytes g (output_accepts_iff p.buffer laws bytes old) in
      let input = parse_input-ok bytes g in ground arith
