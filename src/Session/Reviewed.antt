-- ===== src/Session/Reviewed.antt =====
-- What the user sees when a host has sent a whole transaction.
use app_kaspa.Prelude.{
  ℕ, suc, ◌+◌, ◌<◌, ◌≡◌, refl, ap, ◌∙◌, Bool, false, some, List, [], ◌∷◌, ◌++◌, arith, All, length,
  get_or,
}
use app_kaspa.Sdk.Platform.{Platform}
use app_kaspa.Sdk.Buffer.{BufferLaws}
use app_kaspa.Context.{state_parsed, confirm_transaction, GlobalCtx}
use app_kaspa.Transaction.{zero_output}
use app_kaspa.Transaction.Deserialize.Header.{HeaderLayout, n_inputs, n_outputs}
use app_kaspa.Transaction.Deserialize.Output.{OutputLayout}
use app_kaspa.Transaction.Validate.{tx_validate_parsed_transaction}
use app_kaspa.Transaction.Validate.Accepts.{Valid, validated_iff}
use app_kaspa.Response.{Response}
use app_kaspa.Display.{
  review_transaction, begin_review, kas, shown_address, shown_fees, ui_display_transaction,
}
use app_kaspa.Handlers.SignTx.{end_chunk}
use app_kaspa.Dispatcher.{apdu_dispatcher}
use app_kaspa.Session.{answer, app_main}
use app_kaspa.Session.Chunks.{context_of, handled_input}
use app_kaspa.Session.Honest.{sign_tx, first_commands, first_commands-answered}
use app_kaspa.Session.Runs.{accepted}

-- The data of the commands of a transaction: a header, as many outputs and inputs as it declares,
-- each of a layout that the device knows. The last input is apart.
pub record Sendable (max_input_count : ℕ) (header : List ℕ) (outputs inputs : List (List ℕ))
    (last : List ℕ) : Type 0 where
  pub layout : HeaderLayout max_input_count header
  pub small : max_input_count < 256
  pub all_outputs : length outputs ≡ n_outputs header
  pub all_inputs : suc (length inputs) ≡ n_inputs header
  pub output_layouts : All OutputLayout outputs
  pub input_lengths : All (λ bytes. length bytes ≡ 46) inputs
  pub last_length : length last ≡ 46

module _ (p : Platform) (laws : BufferLaws p.buffer) where
  open p use {max_input_count, format_fpu64_trimmed}

  -- The context at the review of a context whose transaction is parsed.
  abbrev pub at_review : GlobalCtx → GlobalCtx
  at_review g =
      let (valid, path, path_len) =
        tx_validate_parsed_transaction p.crypto g.tx_info.transaction g.bip32_path
          g.bip32_path_len in
      record g { bip32_path = path; bip32_path_len = path_len; state = state_parsed }

  -- The transaction is valid, and its amount and fee are the two texts.
  abbrev pub Showable : GlobalCtx → List ℕ → List ℕ → Type 0
  Showable g amount fees =
      let tx = g.tx_info.transaction in
      Valid p.crypto tx g.bip32_path
      × (format_fpu64_trimmed (get_or tx.tx_outputs 0 zero_output).value 8 ≡ some amount)
      × (format_fpu64_trimmed (shown_fees p g) 8 ≡ some fees)

  pub end_chunk-Showable :
      (g : GlobalCtx) (amount fees : List ℕ)
      → g.req_type ≡ confirm_transaction
      → Showable g amount fees
      → end_chunk p false g
        ≡ begin_review
            (at_review g)
            (review_transaction (kas amount) (kas fees) (shown_address p g))
  unfolding end_chunk ui_display_transaction
  end_chunk-Showable g amount fees wanted (valid, shows_amount, shows_fees) =
      let (_, complete) =
        validated_iff p.crypto g.tx_info.transaction g.bip32_path g.bip32_path_len in
      rw (complete valid, wanted, shows_amount, shows_fees)
        (ap
          (λ request.
            begin_review (record (at_review g) { req_type = request })
              (review_transaction (kas amount) (kas fees) (shown_address p g)))
          wanted)

  -- A host sends a transaction: the header, the outputs and the inputs, in one command each, of the
  -- layouts that the device knows and as many as the header declares, and marks the last input, where
  -- fewer than 256 inputs have room. Whatever the context was, each command before the last is
  -- answered with SW_OK, and if the transaction of those bytes is valid and its amount and fee have
  -- texts, the last command sends nothing yet and begins the review of that transaction.
  pub transaction_reviewed :
      (choice : Bool) (random : ℕ) (header : List ℕ) (outputs inputs : List (List ℕ))
      (last amount fees : List ℕ) (g : GlobalCtx)
      → Sendable max_input_count header outputs inputs last
      → let built = context_of max_input_count header outputs (inputs ++ last ∷ []) in
        Showable built amount fees
        → let (g', sent) =
            app_main p (first_commands p laws choice random header outputs inputs) g in
          let r = answer p random (sign_tx choice random 2 0 last).command g' in
          (sent ≡ accepted (suc (length outputs + length inputs)))
          × (r
              ≡ begin_review
                  (at_review built)
                  (review_transaction (kas amount) (kas fees) (shown_address p built)))
  unfolding answer apdu_dispatcher
  transaction_reviewed choice random header outputs inputs last amount fees g ready shows =
      let before =
        first_commands-answered p laws choice random header outputs inputs g ready.layout
          ready.small (omega (arith, ready.all_outputs)) (omega (arith, ready.all_inputs))
          ready.output_layouts ready.input_lengths in
      let built = context_of max_input_count header outputs (inputs ++ last ∷ []) in
      (
        ap (λ (r : GlobalCtx × List Response). r.1) before,
        ap
              (λ (r : GlobalCtx × List Response).
                answer p random (sign_tx choice random 2 0 last).command r.0)
              before
            ∙ handled_input p laws random header outputs inputs last false
                (omega (arith, ready.all_inputs)) ready.layout.few_inputs ready.small
                ready.last_length
            ∙ end_chunk-Showable built amount fees refl shows,
      )
