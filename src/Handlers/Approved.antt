-- ===== src/Handlers/Approved.antt =====
-- SIGN_TX in an approved context.
use app_kaspa.Prelude.{
  ◌-◌, ◌^◌, ◌++◌, [], ◌∷◌, take, ℕ, ◌+◌, ◌%◌, ◌<◌, ◌≤◌, ◌≡◌, ◌⊎◌, Bool, true, List, arith, length,
  get_or, set,
}
use app_kaspa.Sdk.Buffer.{Buffer, BufferLaws, buffer_of}
use app_kaspa.Sdk.Platform.{Platform}
use app_kaspa.Context.{state_none, state_approved, confirm_transaction, GlobalCtx, zero_context}
use app_kaspa.Transaction.{zero_input}
use app_kaspa.Transaction.Deserialize.Input.{input_of, input_accepted}
use app_kaspa.Response.{status, sw_ok, sw_bad_state, helper_send_response_sig}
use app_kaspa.Crypto.{crypto_sign_transaction}
use app_kaspa.Display.{Reply, reply_sw}
use app_kaspa.Actions.{sign_input_and_send}
use app_kaspa.Handlers.SignTx.{
  start_transaction, parse_output, parse_input, end_chunk, handler_sign_tx,
}

module _ (p : Platform) where
  -- A signature leaves all but the index, or closes the context.
  abbrev pub Next : GlobalCtx → GlobalCtx → Type 0
  Next g g' =
      (g'.tx_info.transaction ≡ g.tx_info.transaction)
      × (((g'.state ≡ g.state)
            × (g'.tx_info.signing_input_index ≡ (g.tx_info.signing_input_index + 1) % 256))
          ⊎ ((g'.state ≡ state_none)
              × (g'.tx_info.signing_input_index ≡ g.tx_info.signing_input_index)))

  pub crypto_sign_transaction-keeps :
      (random : ℕ) (g : GlobalCtx)
      → let g' = (crypto_sign_transaction p random g).1 in
        (g'.tx_info.transaction ≡ g.tx_info.transaction)
        × (g'.state ≡ g.state)
        × (g'.tx_info.signing_input_index ≡ g.tx_info.signing_input_index)
  unfolding crypto_sign_transaction
  crypto_sign_transaction-keeps random g = ground arith

  sign_input_and_send-Next :
      (random : ℕ) (g : GlobalCtx) → Next g (sign_input_and_send p random g).context
  unfolding sign_input_and_send
  sign_input_and_send-Next random g = ground (arith, crypto_sign_transaction-keeps random g)

  -- The reply to a request for a signature, by the result of `crypto_sign_transaction`.
  abbrev pub Signed : ℕ → GlobalCtx → Reply → Type 0
  Signed random g r =
      let (error, g') = crypto_sign_transaction p random g in
      let i = g.tx_info.signing_input_index in
      (r.context.tx_info.transaction ≡ g.tx_info.transaction)
      × (((error ≡ 0)
            × (r.context.state ≡ state_approved)
            × (r.context.tx_info.signing_input_index ≡ (i + 1) % 256)
            × (r.sent
                ≡ record {
                  bytes =
                      ((g.tx_info.transaction.tx_input_len + 2 ^ 64 - i - 1) % 256)
                      ∷ i
                      ∷ 64
                      ∷ (take 64 g'.tx_info.signature ++ 32 ∷ take 32 g'.tx_info.sighash);
                  sw = sw_ok;
                }
                  ∷ []))
          ⊎ ((0 < error)
              × (r.context.state ≡ state_none)
              × (r.context.tx_info.signing_input_index ≡ i)
              × (r.sent ≡ status (error % 2 ^ 16) ∷ [])))

  sign_input_and_send-Signed :
      (random : ℕ) (g : GlobalCtx)
      → g.state ≡ state_approved
      → Signed random g (sign_input_and_send p random g)
  unfolding sign_input_and_send helper_send_response_sig
  sign_input_and_send-Signed random g approved =
      ground (arith, crypto_sign_transaction-keeps random g)

  -- SIGN_TX with P1 3, at an input in the array. Either the context was approved for a transaction and
  -- keeps it: without an error of `crypto_sign_transaction` it stays approved, steps to the next
  -- input, counting modulo 256, and the response has the number of inputs left, the index, and the
  -- signature and the hash of that call; with an error it loses the approval and keeps the index, and
  -- the error is the status word. Or the context is cleared and the answer is SW_BAD_STATE.
  pub handler_sign_tx-Next :
      (random : ℕ) (cdata : Buffer) (more : Bool) (g : GlobalCtx)
      → g.tx_info.signing_input_index < length g.tx_info.transaction.tx_inputs
      → ((g.req_type ≡ confirm_transaction)
          × (g.state ≡ state_approved)
          × Signed random g (handler_sign_tx p random cdata 3 more g))
        ⊎ (handler_sign_tx p random cdata 3 more g
            ≡ reply_sw (zero_context p.max_input_count) sw_bad_state)
  unfolding handler_sign_tx
  handler_sign_tx-Next random cdata more g inside =
      ground (arith, sign_input_and_send-Signed random g)

  -- An approved context with inputs still to come takes another one: the 46 bytes of P1 2 with more to
  -- follow are answered with SW_OK, the input is stored, and the approval stays.
  pub approved_takes_input :
      (random : ℕ) (bytes : List ℕ) (g : GlobalCtx)
      → BufferLaws p.buffer
      → g.state ≡ state_approved
      → g.req_type ≡ confirm_transaction
      → g.tx_info.parsing_input_index < g.tx_info.transaction.tx_input_len % 256
      → g.tx_info.parsing_input_index < p.max_input_count % 256
      → length bytes ≡ 46
      → let r = handler_sign_tx p random (buffer_of bytes) 2 true g in
        let i = g.tx_info.parsing_input_index in
        let inputs = g.tx_info.transaction.tx_inputs in
        (r.sent ≡ (reply_sw g sw_ok).sent)
        × (r.context.state ≡ state_approved)
        × (r.context.tx_info.transaction.tx_inputs
            ≡ set inputs i (input_of bytes (get_or inputs i zero_input)))
        × (r.context.tx_info.parsing_input_index ≡ i + 1)
  unfolding handler_sign_tx parse_input end_chunk
  approved_takes_input random bytes g laws approved wanted declared built whole =
      let i = g.tx_info.parsing_input_index in
      let read =
        input_accepted p.buffer laws bytes (get_or g.tx_info.transaction.tx_inputs i zero_input)
          whole in
      ground (arith, read)

  pub start_transaction-state :
      (cdata : Buffer) (g : GlobalCtx) → (start_transaction p cdata g).context.state ≡ state_none
  unfolding start_transaction
  start_transaction-state cdata g = ground arith

  -- Once as many inputs and outputs are parsed as were declared, SIGN_TX with any P1 leaves the
  -- transaction as it is or takes the context out of the approved state.
  pub parsed_transaction_frozen :
      (random : ℕ) (cdata : Buffer) (type : ℕ) (more : Bool) (g : GlobalCtx)
      → g.tx_info.transaction.tx_output_len % 256 ≤ g.tx_info.parsing_output_index
      → g.tx_info.transaction.tx_input_len % 256 ≤ g.tx_info.parsing_input_index
      → let g' = (handler_sign_tx p random cdata type more g).context in
        (g'.tx_info.transaction ≡ g.tx_info.transaction) ⊎ (g'.state ≡ state_none)
  unfolding handler_sign_tx parse_output parse_input
  parsed_transaction_frozen random cdata type more g outputs inputs =
      let (kept, _) = sign_input_and_send-Next random g in
      ground (arith, start_transaction-state cdata g)
