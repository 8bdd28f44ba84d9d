-- ===== src/Session/Sizes.antt =====
-- The arrays of the transaction context keep their sizes through the handlers of chunks.
use app_kaspa.Prelude.{
  ℕ, ◌≤◌, ◌≡◌, refl, ◌∙◌, Bool, List, arith, All, All-set, All-get_or, All-replicate, length,
  length-set, length-replicate, length-splice, get_or,
}
use app_kaspa.Sdk.Platform.{Platform}
use app_kaspa.Sdk.Buffer.{Buffer, BufferApi, bytes_at}
use app_kaspa.Context.{GlobalCtx, TransactionCtx, zero_context}
use app_kaspa.Transaction.{
  Transaction, TransactionInput, TransactionOutput, zero_input, zero_output,
}
use app_kaspa.Transaction.Deserialize.{
  transaction_deserialize, transaction_output_deserialize, transaction_input_deserialize,
}
use app_kaspa.Display.{
  Review, review_pubkey, review_transaction, review_message, Reply, ui_display_address,
  ui_display_transaction, ui_display_message,
}
use app_kaspa.Crypto.{crypto_sign_transaction, crypto_sign_personal_message}
use app_kaspa.Actions.{sign_input_and_send, decide}
use app_kaspa.Handlers.SignTx.{start_transaction, end_chunk, parse_output, parse_input}
use app_kaspa.Handlers.SignMsg.{handler_sign_msg}
use app_kaspa.Handlers.PublicKey.{handler_get_public_key}

abbrev pub IdLength : TransactionInput → Type 0
IdLength i = length i.tx_id ≡ 32

abbrev pub ScriptLength : TransactionOutput → Type 0
ScriptLength o = length o.script_public_key ≡ 40

-- `max` is the build's MAX_INPUT_COUNT.
abbrev pub Bounded : ℕ → TransactionCtx → Type 0
Bounded max t =
    (length t.transaction.tx_outputs ≡ 2)
    × All ScriptLength t.transaction.tx_outputs
    × (length t.transaction.tx_inputs ≡ max)
    × All IdLength t.transaction.tx_inputs
    × (t.parsing_output_index ≤ 2)
    × (t.parsing_input_index ≤ max)

output_keeps_array :
    (api : BufferApi) (buf : Buffer) (txout : TransactionOutput)
    → length (transaction_output_deserialize api buf txout).2.script_public_key
      ≡ length txout.script_public_key
unfolding transaction_output_deserialize
output_keeps_array api buf txout = grind (arith, length-splice)

input_keeps_id :
    (api : BufferApi) (buf : Buffer) (txin : TransactionInput)
    → length (transaction_input_deserialize api buf txin).2.tx_id ≡ length txin.tx_id
unfolding transaction_input_deserialize
input_keeps_id api buf txin =
    let kept = length-splice txin.tx_id 0 (bytes_at (api.buffer_read_u64 buf txin.value).2 32) in
    ground arith

header_keeps_arrays :
    (api : BufferApi) (max : ℕ) (buf : Buffer) (tx : Transaction) (path : List ℕ)
    → let tx' = (transaction_deserialize api max buf tx path).2 in
      (tx'.tx_inputs ≡ tx.tx_inputs) × (tx'.tx_outputs ≡ tx.tx_outputs)
unfolding transaction_deserialize
header_keeps_arrays api max buf tx path = ground arith

pub zero_context-Bounded : (max : ℕ) → Bounded max (zero_context max).tx_info
zero_context-Bounded max = (
  refl,
  ground arith,
  length-replicate max zero_input,
  All-replicate IdLength max zero_input refl,
  omega arith,
  omega arith,
)

module _ (p : Platform) where
  abbrev pub Kept : Reply → GlobalCtx → Type 0
  Kept r g = r.context.tx_info ≡ g.tx_info

  abbrev pub Fits : Reply → Type 0
  Fits r = Bounded p.max_input_count r.context.tx_info

  ui_display_transaction-Kept : (g : GlobalCtx) → Kept (ui_display_transaction p g) g
  unfolding ui_display_transaction
  ui_display_transaction-Kept g = ground arith

  pub end_chunk-Kept : (more : Bool) (g : GlobalCtx) → Kept (end_chunk p more g) g
  unfolding end_chunk
  end_chunk-Kept more g = grind (arith, ui_display_transaction-Kept)

  ui_display_address-Kept : (g : GlobalCtx) → Kept (ui_display_address p g) g
  unfolding ui_display_address
  ui_display_address-Kept g = ground arith

  ui_display_message-Kept : (g : GlobalCtx) → Kept (ui_display_message p g) g
  unfolding ui_display_message
  ui_display_message-Kept g = ground arith

  pub handler_get_public_key-Kept :
      (cdata : Buffer) (display : Bool) (g : GlobalCtx)
      → (handler_get_public_key p cdata display g).context.tx_info
        ≡ (zero_context p.max_input_count).tx_info
  unfolding handler_get_public_key
  handler_get_public_key-Kept cdata display g = grind (arith, ui_display_address-Kept)

  pub handler_sign_msg-Kept :
      (cdata : Buffer) (g : GlobalCtx)
      → (handler_sign_msg p cdata g).context.tx_info ≡ (zero_context p.max_input_count).tx_info
  unfolding handler_sign_msg
  handler_sign_msg-Kept cdata g = grind (arith, ui_display_message-Kept)

  crypto_sign_transaction-Bounded :
      (random : ℕ) (g : GlobalCtx)
      → Bounded p.max_input_count g.tx_info
      → Bounded p.max_input_count (crypto_sign_transaction p random g).1.tx_info
  unfolding crypto_sign_transaction
  crypto_sign_transaction-Bounded random g b = ground arith

  pub sign_input_and_send-Fits :
      (random : ℕ) (g : GlobalCtx)
      → Bounded p.max_input_count g.tx_info
      → Fits (sign_input_and_send p random g)
  unfolding sign_input_and_send
  sign_input_and_send-Fits random g b = ground (arith, crypto_sign_transaction-Bounded random g b)

  pub decide-Fits :
      (random : ℕ) (choice : Bool) (review : Review) (g : GlobalCtx)
      → Bounded p.max_input_count g.tx_info
      → Fits (decide p random choice review g)
  unfolding decide crypto_sign_personal_message
  decide-Fits random choice (review_pubkey path address) g b = ground arith
  decide-Fits random choice (review_transaction amount fees address) g b =
      grind (arith, sign_input_and_send-Fits)
  decide-Fits random choice (review_message path message) g b = ground arith

  pub start_transaction-Fits : (cdata : Buffer) (g : GlobalCtx) → Fits (start_transaction p cdata g)
  unfolding start_transaction
  start_transaction-Fits cdata g =
      let cleared = zero_context p.max_input_count in
      let (ins, outs) =
        header_keeps_arrays p.buffer p.max_input_count cdata cleared.tx_info.transaction
          cleared.bip32_path in
      let (a, s, l, i, o, n) = zero_context-Bounded p.max_input_count in ground arith

  -- After a chunk, the transaction context is the old one, or the one with the chunk's element.
  pub parse_output-Fits :
      (cdata : Buffer) (more : Bool) (g : GlobalCtx)
      → Bounded p.max_input_count g.tx_info
      → Fits (parse_output p cdata more g)
  unfolding parse_output
  parse_output-Fits cdata more g (l, s, k, ids, o, n) =
      let tx = g.tx_info.transaction in
      let i = g.tx_info.parsing_output_index in
      let old = get_or tx.tx_outputs i zero_output in
      let txout = (transaction_output_deserialize p.buffer cdata old).2 in
      let old-size : ScriptLength old =
        All-get_or ScriptLength tx.tx_outputs i zero_output s refl in
      let size : ScriptLength txout = output_keeps_array p.buffer cdata old ∙ old-size in
      let sizes = All-set ScriptLength tx.tx_outputs i txout s size in
      let kept = length-set tx.tx_outputs i txout in grind (arith, end_chunk-Kept)

  pub parse_input-Fits :
      (cdata : Buffer) (more : Bool) (g : GlobalCtx)
      → Bounded p.max_input_count g.tx_info
      → Fits (parse_input p cdata more g)
  unfolding parse_input
  parse_input-Fits cdata more g (l, s, k, ids, o, n) =
      let tx = g.tx_info.transaction in
      let i = g.tx_info.parsing_input_index in
      let old = get_or tx.tx_inputs i zero_input in
      let txin = (transaction_input_deserialize p.buffer cdata old).2 in
      let old-size : IdLength old = All-get_or IdLength tx.tx_inputs i zero_input ids refl in
      let size : IdLength txin = input_keeps_id p.buffer cdata old ∙ old-size in
      let sizes = All-set IdLength tx.tx_inputs i txin ids size in
      let kept = length-set tx.tx_inputs i txin in grind (arith, end_chunk-Kept)
