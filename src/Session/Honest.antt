-- ===== src/Session/Honest.antt =====
-- A host that sends a whole transaction: the header, the outputs and the inputs, each in a command.
use app_kaspa.Prelude.{
  ℕ, suc, ◌+◌, ◌≤◌, ◌<◌, ◌≡◌, sym, ap, ◌∙◌, Bool, true, some, List, [], ◌∷◌, ◌++◌, append-nil,
  append_assoc, arith, All, length, length-append,
}
use app_kaspa.Sdk.Platform.{Platform}
use app_kaspa.Sdk.Buffer.{BufferLaws}
use app_kaspa.Context.{GlobalCtx}
use app_kaspa.Transaction.Deserialize.Header.{HeaderLayout, n_inputs, n_outputs}
use app_kaspa.Transaction.Deserialize.Output.{OutputLayout}
use app_kaspa.Response.{Response, status, sw_ok}
use app_kaspa.Display.{Reply, reply_sw}
use app_kaspa.Handlers.SignTx.{end_chunk}
use app_kaspa.Dispatcher.{apdu_dispatcher}
use app_kaspa.Session.{Exchange, answer, conclude, exchange, app_main}
use app_kaspa.Session.Runs.{accepted, replicate-append, app_main-chain, app_main-next}
use app_kaspa.Session.Chunks.{parsed, context_of, handled_header, handled_output, handled_input}

-- SIGN_TX with its parameters and data, what the user would decide and a random number.
abbrev pub sign_tx : Bool → ℕ → ℕ → ℕ → List ℕ → Exchange
sign_tx choice random p1 p2 bytes = record {
  command = some (record {
    cla = 0xe0;
    ins = 0x06;
    p1 = p1;
    p2 = p2;
    lc = length bytes;
    payload = some bytes;
  });
  choice = choice;
  random = random;
}

module _ (p : Platform) where
  module _ (laws : BufferLaws p.buffer) (choice : Bool) (random : ℕ) where
    open p use {max_input_count}

    header_answered :
        (header : List ℕ) (g : GlobalCtx)
        → HeaderLayout max_input_count header
        → exchange p (sign_tx choice random 0 0x80 header) g
          ≡ reply_sw (context_of max_input_count header [] []) sw_ok
    unfolding exchange answer apdu_dispatcher conclude
    header_answered header g layout =
        ap (λ (r : Reply). conclude p random choice r.review r)
          (handled_header p laws random header true g layout)

    output_answered :
        (header : List ℕ) (outputs : List (List ℕ)) (bytes : List ℕ)
        → length outputs < n_outputs header
        → n_outputs header ≤ 2
        → OutputLayout bytes
        → exchange p
            (sign_tx choice random 1 0x80 bytes)
            (context_of max_input_count header outputs [])
          ≡ reply_sw (context_of max_input_count header (outputs ++ bytes ∷ []) []) sw_ok
    unfolding exchange answer apdu_dispatcher conclude end_chunk
    output_answered header outputs bytes h few layout =
        ap (λ (r : Reply). conclude p random choice r.review r)
          (handled_output p laws random header outputs [] bytes true h few layout)

    input_answered :
        (header : List ℕ) (outputs inputs : List (List ℕ)) (bytes : List ℕ)
        → length inputs < n_inputs header
        → n_inputs header ≤ max_input_count
        → max_input_count < 256
        → length bytes ≡ 46
        → exchange p
            (sign_tx choice random 2 0x80 bytes)
            (context_of max_input_count header outputs inputs)
          ≡ reply_sw (context_of max_input_count header outputs (inputs ++ bytes ∷ [])) sw_ok
    unfolding exchange answer apdu_dispatcher conclude end_chunk
    input_answered header outputs inputs bytes h few small whole =
        ap (λ (r : Reply). conclude p random choice r.review r)
          (handled_input p laws random header outputs inputs bytes true h few small whole)

    outputs_answered :
        (header : List ℕ) (done outputs : List (List ℕ))
        → length done + length outputs ≤ n_outputs header
        → n_outputs header ≤ 2
        → All OutputLayout outputs
        → app_main p
            (parsed (sign_tx choice random 1 0x80) outputs)
            (context_of max_input_count header done [])
          ≡ (context_of max_input_count header (done ++ outputs) [], accepted (length outputs))
    unfolding app_main
    outputs_answered header done [] h few layouts =
        ap {B = GlobalCtx × List Response}
          (λ outputs. (context_of max_input_count header outputs [], [])) (sym (append-nil done))
    outputs_answered header done (bytes ∷ outputs) h few (layout, layouts) =
        let count = length-append done (bytes ∷ []) in
        app_main-next p (sign_tx choice random 1 0x80 bytes)
          (parsed (sign_tx choice random 1 0x80) outputs)
          (context_of max_input_count header done []) _ _ (length outputs)
          (output_answered header done bytes (omega arith) few layout)
          (outputs_answered header (done ++ bytes ∷ []) outputs (omega (arith, count)) few layouts
            ∙ ap {B = GlobalCtx × List Response}
                (λ all. (context_of max_input_count header all [], accepted (length outputs)))
                (append_assoc done (bytes ∷ []) outputs))

    inputs_answered :
        (header : List ℕ) (outputs done inputs : List (List ℕ))
        → length done + length inputs ≤ n_inputs header
        → n_inputs header ≤ max_input_count
        → max_input_count < 256
        → All (λ bytes. length bytes ≡ 46) inputs
        → app_main p
            (parsed (sign_tx choice random 2 0x80) inputs)
            (context_of max_input_count header outputs done)
          ≡ (context_of max_input_count header outputs (done ++ inputs), accepted (length inputs))
    unfolding app_main
    inputs_answered header outputs done [] h few small whole =
        ap {B = GlobalCtx × List Response}
          (λ inputs. (context_of max_input_count header outputs inputs, [])) (sym (append-nil done))
    inputs_answered header outputs done (bytes ∷ inputs) h few small (whole, rest) =
        let count = length-append done (bytes ∷ []) in
        app_main-next p (sign_tx choice random 2 0x80 bytes)
          (parsed (sign_tx choice random 2 0x80) inputs)
          (context_of max_input_count header outputs done) _ _ (length inputs)
          (input_answered header outputs done bytes (omega arith) few small whole)
          (inputs_answered header outputs (done ++ bytes ∷ []) inputs (omega (arith, count)) few
              small rest
            ∙ ap {B = GlobalCtx × List Response}
                (λ all. (context_of max_input_count header outputs all, accepted (length inputs)))
                (append_assoc done (bytes ∷ []) inputs))

    -- All commands of a transaction but the last.
    abbrev pub first_commands : List ℕ → List (List ℕ) → List (List ℕ) → List Exchange
    first_commands header outputs inputs =
        sign_tx choice random 0 0x80 header ∷ parsed (sign_tx choice random 1 0x80) outputs
        ++ parsed (sign_tx choice random 2 0x80) inputs

    pub first_commands-answered :
        (header : List ℕ) (outputs inputs : List (List ℕ)) (g : GlobalCtx)
        → HeaderLayout max_input_count header
        → max_input_count < 256
        → length outputs ≤ n_outputs header
        → length inputs ≤ n_inputs header
        → All OutputLayout outputs
        → All (λ bytes. length bytes ≡ 46) inputs
        → app_main p (first_commands header outputs inputs) g ≡ (
          context_of max_input_count header outputs inputs,
          accepted (suc (length outputs + length inputs)),
        )
    first_commands-answered header outputs inputs g layout small few_out few_in outs ins =
        let few = layout.few_inputs in
        let begun =
          app_main-chain p (parsed (sign_tx choice random 1 0x80) outputs)
            (parsed (sign_tx choice random 2 0x80) inputs) _ _ _ _ _
            (outputs_answered header [] outputs (omega arith) layout.few_outputs outs)
            (inputs_answered header outputs [] inputs (omega arith) few small ins) in
        app_main-next p (sign_tx choice random 0 0x80 header) _ g _ _
          (length outputs + length inputs) (header_answered header g layout)
          (begun
            ∙ ap {B = GlobalCtx × List Response}
                (λ sent. (context_of max_input_count header outputs inputs, sent))
                (replicate-append (length outputs) (length inputs) (status sw_ok)))
