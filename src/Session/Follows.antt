-- ===== src/Session/Follows.antt =====
-- What SIGN_TX may still change in a transaction context: neither the header nor a parsed part.
use app_kaspa.Prelude.{
  take-set, take_shorter, ℕ, ◌+◌, ◌%◌, ◌<◌, ◌≤◌, ◌≡◌, ◌⊎◌, inl, inr, refl, Bool, arith, get_or, set,
  take,
}
use app_kaspa.Sdk.Platform.{Platform}
use app_kaspa.Sdk.Buffer.{Buffer}
use app_kaspa.Context.{GlobalCtx, TransactionCtx}
use app_kaspa.Transaction.{TransactionInput, TransactionOutput, zero_input, zero_output}
use app_kaspa.Transaction.Deserialize.{
  transaction_output_deserialize, transaction_input_deserialize,
}
use app_kaspa.Actions.{sign_input_and_send}
use app_kaspa.Crypto.{crypto_sign_transaction}
use app_kaspa.Session.Sizes.{end_chunk-Kept}
use app_kaspa.Handlers.SignTx.{parse_output, parse_input}

-- An output or an input that was declared is not parsed yet.
abbrev pub Incomplete : TransactionCtx → Type 0
Incomplete t =
    (t.parsing_output_index < t.transaction.tx_output_len % 256)
    ⊎ (t.parsing_input_index < t.transaction.tx_input_len % 256)

-- The header is the same, and so are the outputs and the inputs that `t` has parsed.
abbrev pub Keeps : TransactionCtx → TransactionCtx → Type 0
Keeps t t' =
    (t'.transaction.version ≡ t.transaction.version)
    × (t'.transaction.account ≡ t.transaction.account)
    × (t'.transaction.tx_input_len ≡ t.transaction.tx_input_len)
    × (t'.transaction.tx_output_len ≡ t.transaction.tx_output_len)
    × (t.parsing_output_index ≤ t'.parsing_output_index)
    × (t.parsing_input_index ≤ t'.parsing_input_index)
    × (take t.parsing_output_index t'.transaction.tx_outputs
        ≡ take t.parsing_output_index t.transaction.tx_outputs)
    × (take t.parsing_input_index t'.transaction.tx_inputs
        ≡ take t.parsing_input_index t.transaction.tx_inputs)

-- A complete transaction is the same as a whole.
abbrev pub Follows : TransactionCtx → TransactionCtx → Type 0
Follows t t' = Keeps t t' × (Incomplete t ⊎ (t'.transaction ≡ t.transaction))

pub Follows-refl : (t : TransactionCtx) → Follows t t
Follows-refl t = (ground arith, inr refl)

Keeps-trans : (t u v : TransactionCtx) → Keeps t u → Keeps u v → Keeps t v
Keeps-trans t u v h k =
    let outputs =
      take_shorter t.parsing_output_index u.parsing_output_index v.transaction.tx_outputs
        u.transaction.tx_outputs (omega arith) (ground arith) in
    let inputs =
      take_shorter t.parsing_input_index u.parsing_input_index v.transaction.tx_inputs
        u.transaction.tx_inputs (omega arith) (ground arith) in
    ground arith

pub Follows-trans : (t u v : TransactionCtx) → Follows t u → Follows u v → Follows t v
Follows-trans t u v (h, first) (k, second) = (Keeps-trans t u v h k, ground arith)

-- One more output or input, where one is missing.
abbrev pub with_output : TransactionCtx → TransactionOutput → ℕ → TransactionCtx
with_output t txout n =
    let tx = t.transaction in
    record t {
      transaction = record tx { tx_outputs = set tx.tx_outputs t.parsing_output_index txout };
      parsing_output_index = n;
    }

abbrev with_input : TransactionCtx → TransactionInput → ℕ → TransactionCtx
with_input t txin n =
    let tx = t.transaction in
    record t {
      transaction = record tx { tx_inputs = set tx.tx_inputs t.parsing_input_index txin };
      parsing_input_index = n;
    }

with_output-Follows :
    (t : TransactionCtx) (txout : TransactionOutput) (n : ℕ)
    → t.parsing_output_index < t.transaction.tx_output_len % 256
    → t.parsing_output_index ≤ n
    → Follows t (with_output t txout n)
with_output-Follows t txout n missing grows =
    let kept =
      take-set t.parsing_output_index t.transaction.tx_outputs t.parsing_output_index txout
        (omega arith) in
    (ground arith, inl (inl missing))

with_input-Follows :
    (t : TransactionCtx) (txin : TransactionInput) (n : ℕ)
    → t.parsing_input_index < t.transaction.tx_input_len % 256
    → t.parsing_input_index ≤ n
    → Follows t (with_input t txin n)
with_input-Follows t txin n missing grows =
    let kept =
      take-set t.parsing_input_index t.transaction.tx_inputs t.parsing_input_index txin
        (omega arith) in
    (ground arith, inl (inr missing))

module _ (p : Platform) where
  -- What the context has, and has with one more output, it has after a chunk of an output.
  parse_output-by_parts :
      (P : TransactionCtx → Type 0) (cdata : Buffer) (more : Bool) (g : GlobalCtx)
      → P g.tx_info
      → ((txout : TransactionOutput) (n : ℕ)
          → g.tx_info.parsing_output_index < g.tx_info.transaction.tx_output_len % 256
          → g.tx_info.parsing_output_index ≤ n
          → P (with_output g.tx_info txout n))
      → P (parse_output p cdata more g).context.tx_info
  unfolding parse_output
  parse_output-by_parts P cdata more g same stored =
      let t = g.tx_info in
      let txout =
        (transaction_output_deserialize p.buffer cdata
          (get_or t.transaction.tx_outputs t.parsing_output_index zero_output)).2 in
      let at = stored txout t.parsing_output_index in
      let next = stored txout ((t.parsing_output_index + 1) % 256) in grind (arith, end_chunk-Kept)

  parse_input-by_parts :
      (P : TransactionCtx → Type 0) (cdata : Buffer) (more : Bool) (g : GlobalCtx)
      → P g.tx_info
      → ((txin : TransactionInput) (n : ℕ)
          → g.tx_info.parsing_input_index < g.tx_info.transaction.tx_input_len % 256
          → g.tx_info.parsing_input_index ≤ n
          → P (with_input g.tx_info txin n))
      → P (parse_input p cdata more g).context.tx_info
  unfolding parse_input
  parse_input-by_parts P cdata more g same stored =
      let t = g.tx_info in
      let txin =
        (transaction_input_deserialize p.buffer cdata
          (get_or t.transaction.tx_inputs t.parsing_input_index zero_input)).2 in
      let at = stored txin t.parsing_input_index in
      let next = stored txin ((t.parsing_input_index + 1) % 256) in grind (arith, end_chunk-Kept)

  pub parse_output-Follows :
      (cdata : Buffer) (more : Bool) (g : GlobalCtx)
      → Follows g.tx_info (parse_output p cdata more g).context.tx_info
  parse_output-Follows cdata more g =
      parse_output-by_parts (Follows g.tx_info) cdata more g (Follows-refl g.tx_info)
        (with_output-Follows g.tx_info)

  pub parse_input-Follows :
      (cdata : Buffer) (more : Bool) (g : GlobalCtx)
      → Follows g.tx_info (parse_input p cdata more g).context.tx_info
  parse_input-Follows cdata more g =
      parse_input-by_parts (Follows g.tx_info) cdata more g (Follows-refl g.tx_info)
        (with_input-Follows g.tx_info)

  pub sign_input_and_send-Follows :
      (random : ℕ) (g : GlobalCtx)
      → Follows g.tx_info (sign_input_and_send p random g).context.tx_info
  unfolding sign_input_and_send crypto_sign_transaction
  sign_input_and_send-Follows random g = ground arith
