-- ===== src/Session/Late.antt =====
-- An output that a host has kept back until after the user's consent, and the signatures behind it.
use app_kaspa.Prelude.{
  ℕ, suc, ◌+◌, ◌%◌, ◌<◌, ◌≤◌, ◌≡◌, refl, subst, ap, ◌∙◌, Bool, true, List, ◌∷◌, ◌++◌, arith, All,
  All-get_or, length, get_or, set, take, drop, splice, be_value,
}
use app_kaspa.Sdk.Platform.{Platform}
use app_kaspa.Sdk.Buffer.{BufferLaws, buffer_of}
use app_kaspa.Sdk.Blake2b.{Blake2bLaws}
use app_kaspa.Sdk.Write.{WriteLaws}
use app_kaspa.Context.{state_approved, confirm_transaction, GlobalCtx, TransactionCtx}
use app_kaspa.Transaction.{Transaction, TransactionOutput, zero_output}
use app_kaspa.Transaction.Deserialize.Output.{OutputLayout, output_accepted}
use app_kaspa.Sighash.Preimage.{Scripts}
use app_kaspa.Response.{status, sw_ok}
use app_kaspa.Display.{Reply, reply_sw}
use app_kaspa.Handlers.SignTx.{parse_output, end_chunk, handler_sign_tx}
use app_kaspa.Dispatcher.{apdu_dispatcher}
use app_kaspa.Session.{Exchange, answer, conclude, exchange, app_main, start_context}
use app_kaspa.Session.Sizes.{Bounded, ScriptLength}
use app_kaspa.Session.Bounds.{app_main-Bounded}
use app_kaspa.Session.Parsed.{layout-IsScript}
use app_kaspa.Session.Follows.{with_output}
use app_kaspa.Session.Honest.{sign_tx}
use app_kaspa.Session.Keys.{Reliable, next_signatures}
use app_kaspa.Session.Signatures.{Signing, input_signatures, signatures_in_order}
use app_kaspa.Session.Scripted.{Scripts-set_next}
use app_kaspa.Session.Scripted.Runs.{Framed, app_main-Scripted}

-- The output that the data of a command becomes, over the one that was in its place.
abbrev pub late_output : List ℕ → TransactionCtx → TransactionOutput
late_output bytes t =
    let old = get_or t.transaction.tx_outputs t.parsing_output_index zero_output in
    record {
      value = be_value (take 8 bytes);
      script_public_key = splice old.script_public_key 0 (drop 8 bytes);
    }

-- The transaction with that output at the place of the next one.
abbrev pub with_late : List ℕ → TransactionCtx → Transaction
with_late bytes t =
    let tx = t.transaction in
    record tx { tx_outputs = set tx.tx_outputs t.parsing_output_index (late_output bytes t) }

module _ (p : Platform) (buffers : BufferLaws p.buffer) where
  abbrev late_context : List ℕ → GlobalCtx → GlobalCtx
  late_context bytes g =
      let t = g.tx_info in
      record g { tx_info = with_output t (late_output bytes t) (t.parsing_output_index + 1) }

  late_output-handled :
      (random : ℕ) (bytes : List ℕ) (g : GlobalCtx)
      → g.req_type ≡ confirm_transaction
      → g.tx_info.parsing_output_index < g.tx_info.transaction.tx_output_len % 256
      → g.tx_info.parsing_output_index < 2
      → OutputLayout bytes
      → handler_sign_tx p random (buffer_of bytes) 1 true g ≡ reply_sw (late_context bytes g) sw_ok
  unfolding handler_sign_tx parse_output end_chunk
  late_output-handled random bytes g wanted declared room layout =
      let t = g.tx_info in
      let old = get_or t.transaction.tx_outputs t.parsing_output_index zero_output in
      let read = output_accepted p.buffer buffers bytes old layout in
      rw wanted (rw read (ground arith))

  late_output-answered :
      (choice : Bool) (random : ℕ) (bytes : List ℕ) (g : GlobalCtx)
      → g.req_type ≡ confirm_transaction
      → g.tx_info.parsing_output_index < g.tx_info.transaction.tx_output_len % 256
      → g.tx_info.parsing_output_index < 2
      → OutputLayout bytes
      → exchange p (sign_tx choice random 1 0x80 bytes) g ≡ reply_sw (late_context bytes g) sw_ok
  unfolding exchange answer apdu_dispatcher conclude
  late_output-answered choice random bytes g wanted declared room layout =
      ap (λ (r : Reply). conclude p random choice r.review r)
        (late_output-handled random bytes g wanted declared room layout)

  with_late-Scripts :
      (bytes : List ℕ) (t : TransactionCtx)
      → Bounded p.max_input_count t
      → Scripts t.parsing_output_index t.transaction.tx_outputs
      → OutputLayout bytes
      → t.parsing_output_index + 1 ≡ t.transaction.tx_output_len
      → Scripts t.transaction.tx_output_len (with_late bytes t).tx_outputs
  with_late-Scripts bytes t bounded scripted layout last =
      let i = t.parsing_output_index in
      let outs = t.transaction.tx_outputs in
      let old = get_or outs i zero_output in
      let room : ScriptLength old = All-get_or ScriptLength outs i zero_output bounded.1 refl in
      let all : suc i ≡ t.transaction.tx_output_len = omega (arith, last) in
      subst (λ n. Scripts n (with_late bytes t).tx_outputs) all
        (Scripts-set_next i outs (late_output bytes t)
          (layout-IsScript bytes old.script_public_key room layout) scripted)

  module _ (blake : Blake2bLaws p.blake2b) (write : WriteLaws p.write)
      (ok : Reliable p.crypto) where
    -- A session, from the start, that ends approved for a transaction whose last declared output is still
    -- to come. The host sends that output, in a command with more to follow, and asks for signatures.
    -- Whatever the user would decide, the answers are SW_OK and the signatures of the next inputs of
    -- the transaction with the late output. The `lc` of each command is the size of its data, the path
    -- has five elements, the output's data has one of the three layouts and its place is in the array,
    -- the declared and the signed inputs are in their array, which has less than 256, and the functions
    -- on keys do not fail and give public keys of 33 bytes or more and signatures of 64.
    pub late_output_signed :
        (es : List Exchange) (choice : Bool) (random : ℕ) (randoms bytes : List ℕ)
        → All (λ e. Framed e.command) es
        → let g = (app_main p es (start_context p)).0 in
          let t = g.tx_info in
          g.state ≡ state_approved
          → g.req_type ≡ confirm_transaction
          → length g.bip32_path ≡ 5
          → t.parsing_output_index + 1 ≡ t.transaction.tx_output_len
          → t.parsing_output_index < 2
          → OutputLayout bytes
          → t.signing_input_index + length randoms ≤ p.max_input_count
          → p.max_input_count < 256
          → t.transaction.tx_input_len ≤ p.max_input_count
          → (app_main p (sign_tx choice random 1 0x80 bytes ∷ next_signatures randoms) g).1
            ≡ status sw_ok
              ∷ input_signatures p blake write (with_late bytes t) t.signing_input_index randoms
    unfolding app_main
    late_output_signed es choice random randoms bytes framed approved wanted five last room layout
          few small declared =
        let g = (app_main p es (start_context p)).0 in
        let t = g.tx_info in
        let bounded = app_main-Bounded p es in
        let scripted = app_main-Scripted p buffers es framed in
        let late = late_context bytes g in
        let start : Signing p blake write (with_late bytes t) t.signing_input_index late = record {
          same_transaction = refl;
          at_index = refl;
          is_approved = approved;
          wanted = wanted;
          five_levels = five;
        } in
        ap (λ (r : Reply). r.sent ++ (app_main p (next_signatures randoms) r.context).1)
          (late_output-answered choice random bytes g wanted (omega arith) room layout)
        ∙ ap (λ sent. status sw_ok ∷ sent)
            (signatures_in_order p blake write ok randoms (with_late bytes t) t.signing_input_index
              late bounded.3 (with_late-Scripts bytes t bounded scripted layout last) (omega arith)
              start)
