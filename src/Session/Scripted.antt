-- ===== src/Session/Scripted.antt =====
-- The outputs that the context has parsed have scripts of the three forms.
pub mod Runs
use app_kaspa.Prelude.{
  ℕ, zero, suc, ◌≡◌, refl, subst, sym, ap, Bool, Option, none, some, List, [], ◌∷◌, arith, All,
  All-get_or, length, get_or, set,
}
use app_kaspa.Sdk.Platform.{Platform}
use app_kaspa.Sdk.Buffer.{Buffer, BufferLaws, buffer_of}
use app_kaspa.Context.{GlobalCtx, TransactionCtx}
use app_kaspa.Transaction.{parsing_ok, TransactionOutput, zero_output}
use app_kaspa.Transaction.RoundTrip.{IsScript}
use app_kaspa.Transaction.Deserialize.{transaction_output_deserialize}
use app_kaspa.Transaction.Deserialize.Output.{output_accepts_iff, output_accepted}
use app_kaspa.Sighash.Preimage.{Scripts}
use app_kaspa.Display.{Review, review_pubkey, review_transaction, review_message, Reply}
use app_kaspa.Actions.{sign_input_and_send, decide}
use app_kaspa.Crypto.{crypto_sign_transaction, crypto_sign_personal_message}
use app_kaspa.Handlers.SignTx.{start_transaction, parse_output, parse_input, handler_sign_tx}
use app_kaspa.Dispatcher.{Command, command_buffer, apdu_dispatcher}
use app_kaspa.Session.{Exchange, answer, conclude, exchange, app_main, start_context}
use app_kaspa.Session.Loyal.{handler_sign_tx-by_type}
use app_kaspa.Session.Parsed.{layout-IsScript}
use app_kaspa.Session.Sizes.{
  Bounded, ScriptLength, zero_context-Bounded, end_chunk-Kept, handler_get_public_key-Kept,
  handler_sign_msg-Kept,
}
use app_kaspa.Session.Bounds.{apdu_dispatcher_keeps, exchange-Bounded}
use app_kaspa.Session.Follows.{with_output}

abbrev pub Scripted : TransactionCtx → Type 0
Scripted t = Scripts t.parsing_output_index t.transaction.tx_outputs

Scripts-set_past :
    (i : ℕ) (outs : List TransactionOutput) (v : TransactionOutput)
    → Scripts i outs
    → Scripts i (set outs i v)
Scripts-set_past zero outs v h = tt
Scripts-set_past (suc i) [] v h = tt
Scripts-set_past (suc i) (o ∷ outs) v (h, hs) = (h, Scripts-set_past i outs v hs)

pub Scripts-set_next :
    (i : ℕ) (outs : List TransactionOutput) (v : TransactionOutput)
    → IsScript v.script_public_key
    → Scripts i outs
    → Scripts (suc i) (set outs i v)
Scripts-set_next zero [] v s h = tt
Scripts-set_next zero (o ∷ outs) v s h = (s, tt)
Scripts-set_next (suc i) [] v s h = tt
Scripts-set_next (suc i) (o ∷ outs) v s (h, hs) = (h, Scripts-set_next i outs v s hs)

module _ (p : Platform) (buffers : BufferLaws p.buffer) where
  read_output-IsScript :
      (bytes : List ℕ) (old : TransactionOutput)
      → ScriptLength old
      → (transaction_output_deserialize p.buffer (buffer_of bytes) old).0 ≡ parsing_ok
      → IsScript (transaction_output_deserialize p.buffer (buffer_of bytes) old).2.script_public_key
  read_output-IsScript bytes old room ok =
      let layout = (output_accepts_iff p.buffer buffers bytes old).0 ok in
      rw (output_accepted p.buffer buffers bytes old layout)
        (layout-IsScript bytes old.script_public_key room layout)

  -- What the context has, and has with a refused or an accepted output, it has after a chunk.
  parse_output-by_result :
      (P : TransactionCtx → Type 0) (cdata : Buffer) (more : Bool) (g : GlobalCtx)
      → let t = g.tx_info in
        let i = t.parsing_output_index in
        let (err, rest, txout) =
          transaction_output_deserialize p.buffer cdata
            (get_or t.transaction.tx_outputs i zero_output) in
        P t
        → P (with_output t txout i)
        → (err ≡ parsing_ok → P (with_output t txout (suc i)))
        → P (parse_output p cdata more g).context.tx_info
  unfolding parse_output
  parse_output-by_result P cdata more g same refused accepted = grind (arith, end_chunk-Kept)

  parse_output-Scripted :
      (bytes : List ℕ) (more : Bool) (g : GlobalCtx)
      → Bounded p.max_input_count g.tx_info
      → Scripted g.tx_info
      → Scripted (parse_output p (buffer_of bytes) more g).context.tx_info
  parse_output-Scripted bytes more g bounded h =
      let t = g.tx_info in
      let i = t.parsing_output_index in
      let old = get_or t.transaction.tx_outputs i zero_output in
      let room : ScriptLength old =
        All-get_or ScriptLength t.transaction.tx_outputs i zero_output bounded.1 refl in
      let txout = (transaction_output_deserialize p.buffer (buffer_of bytes) old).2 in
      parse_output-by_result Scripted (buffer_of bytes) more g h
        (Scripts-set_past i t.transaction.tx_outputs txout h)
        (λ ok.
          Scripts-set_next i t.transaction.tx_outputs txout (read_output-IsScript bytes old room ok)
            h)

  -- What has the same outputs is as good.
  abbrev pub SameOutputs : TransactionCtx → TransactionCtx → Type 0
  SameOutputs t t' =
      (t'.transaction.tx_outputs ≡ t.transaction.tx_outputs)
      × (t'.parsing_output_index ≡ t.parsing_output_index)

  pub SameOutputs-Scripted : (t t' : TransactionCtx) → SameOutputs t t' → Scripted t → Scripted t'
  SameOutputs-Scripted t t' (same, parsed) h = rw (same, parsed) h

  parse_input-SameOutputs :
      (cdata : Buffer) (more : Bool) (g : GlobalCtx)
      → SameOutputs g.tx_info (parse_input p cdata more g).context.tx_info
  unfolding parse_input
  parse_input-SameOutputs cdata more g = grind (arith, end_chunk-Kept)

  start_transaction-unparsed :
      (cdata : Buffer) (g : GlobalCtx)
      → (start_transaction p cdata g).context.tx_info.parsing_output_index ≡ 0
  unfolding start_transaction
  start_transaction-unparsed cdata g = ground arith

  unparsed-Scripted : (t : TransactionCtx) → t.parsing_output_index ≡ 0 → Scripted t
  unparsed-Scripted t e = rw e tt

  sign_input_and_send-SameOutputs :
      (random : ℕ) (g : GlobalCtx)
      → SameOutputs g.tx_info (sign_input_and_send p random g).context.tx_info
  unfolding sign_input_and_send crypto_sign_transaction
  sign_input_and_send-SameOutputs random g = ground arith

  pub decide-SameOutputs :
      (random : ℕ) (choice : Bool) (review : Review) (g : GlobalCtx)
      → SameOutputs g.tx_info (decide p random choice review g).context.tx_info
  unfolding decide crypto_sign_personal_message
  decide-SameOutputs random choice (review_pubkey path address) g = ground arith
  decide-SameOutputs random choice (review_transaction amount fees address) g =
      grind (arith, sign_input_and_send-SameOutputs)
  decide-SameOutputs random choice (review_message path message) g = ground arith

  pub handler_sign_tx-Scripted :
      (random : ℕ) (bytes : List ℕ) (type : ℕ) (more : Bool) (g : GlobalCtx)
      → Bounded p.max_input_count g.tx_info
      → Scripted g.tx_info
      → Scripted (handler_sign_tx p random (buffer_of bytes) type more g).context.tx_info
  handler_sign_tx-Scripted random bytes type more g bounded h =
      let cdata = buffer_of bytes in
      let started = (start_transaction p cdata g).context.tx_info in
      handler_sign_tx-by_type p (λ r. Scripted r.context.tx_info) random cdata type more g
        (unparsed-Scripted started (start_transaction-unparsed cdata g))
        (parse_output-Scripted bytes more g bounded h)
        (SameOutputs-Scripted g.tx_info (parse_input p cdata more g).context.tx_info
          (parse_input-SameOutputs cdata more g) h)
        (λ _ _.
          SameOutputs-Scripted g.tx_info (sign_input_and_send p random g).context.tx_info
            (sign_input_and_send-SameOutputs random g) h)
        h (λ sw. tt)
