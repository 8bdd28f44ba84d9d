-- ===== src/Handlers/Review.antt =====
-- What a transaction review shows, and that only a valid transaction gets one.
use app_kaspa.Prelude.{
  ℕ, ◌-◌, ◌^◌, ◌<◌, ◌≡◌, refl, subst, sym, ap, ◌∙◌, inl, inr, Bool-cases, Bool, true, none, some,
  List, arith, get_or,
}
use mathlib.Core.Option
use app_kaspa.Sdk.Platform.{Platform}
use app_kaspa.Sdk.Buffer.{Buffer}
use app_kaspa.Context.{state_parsed, GlobalCtx}
use app_kaspa.Transaction.{zero_output}
use app_kaspa.Transaction.Validate.{tx_validate_parsed_transaction}
use app_kaspa.Transaction.Validate.Accepts.{Valid, validated_iff}
use app_kaspa.Transaction.Utils.Fees.{ValuesFit, input_total, output_total, calc_fees_exact}
use app_kaspa.Display.{
  Review, review_transaction, Reply, ui_display_transaction, kas, shown_fees, shown_address,
}
use app_kaspa.Actions.{sign_input_and_send}
use app_kaspa.Handlers.SignTx.{
  start_transaction, end_chunk, parse_output, parse_input, handler_sign_tx,
}

module _ (p : Platform) where
  -- The texts of a review of the transaction of a context.
  abbrev pub Shows : GlobalCtx → List ℕ → List ℕ → List ℕ → Type 0
  Shows g amount fees address =
      let to = get_or g.tx_info.transaction.tx_outputs 0 zero_output in
      (Option.map kas (p.format_fpu64_trimmed to.value 8) ≡ some amount)
      × (Option.map kas (p.format_fpu64_trimmed (shown_fees p g) 8) ≡ some fees)
      × (address ≡ shown_address p g)

  ui_display_transaction-Shows :
      (g : GlobalCtx) (amount fees address : List ℕ)
      → (ui_display_transaction p g).review ≡ some (review_transaction amount fees address)
      → Shows g amount fees address
        × (g.state ≡ state_parsed)
        × ((ui_display_transaction p g).context ≡ g)
  unfolding ui_display_transaction
  ui_display_transaction-Shows g amount fees address h = ground arith

  abbrev parsed : GlobalCtx → GlobalCtx
  parsed g =
      let (valid, path, path_len) =
        tx_validate_parsed_transaction p.crypto g.tx_info.transaction g.bip32_path
          g.bip32_path_len in
      record g { bip32_path = path; bip32_path_len = path_len; state = state_parsed }

  end_chunk-validates :
      (more : Bool) (g : GlobalCtx) (review : Review)
      → (end_chunk p more g).review ≡ some review
      → (end_chunk p more g ≡ ui_display_transaction p (parsed g))
        × ((tx_validate_parsed_transaction p.crypto g.tx_info.transaction g.bip32_path
              g.bip32_path_len).0
            ≡ true)
  unfolding end_chunk
  end_chunk-validates more g review h = elim (Bool-cases more) [
    | inl m ↦ absurd (ground arith)
    | inr m ↦
        let valid =
          (tx_validate_parsed_transaction p.crypto g.tx_info.transaction g.bip32_path
            g.bip32_path_len).0 in
        elim (Bool-cases valid) [ inl v ↦ (rw (m, v) refl, v) | inr v ↦ absurd (ground arith) ]
  ]

  end_chunk-reviews :
      (more : Bool) (g : GlobalCtx) (amount fees address : List ℕ)
      → (end_chunk p more g).review ≡ some (review_transaction amount fees address)
      → let g' = (end_chunk p more g).context in
        Shows g' amount fees address
        × (g'.state ≡ state_parsed)
        × (g'.tx_info ≡ g.tx_info)
        × Valid p.crypto g'.tx_info.transaction g.bip32_path
  end_chunk-reviews more g amount fees address h =
      let (displayed, valid) = end_chunk-validates more g _ h in
      let (shows, state, same) =
        ui_display_transaction-Shows (parsed g) amount fees address
          (sym (ap (λ (r : Reply). r.review) displayed) ∙ h) in
      rw (displayed, same)
        (
          shows,
          state,
          refl,
          (validated_iff p.crypto g.tx_info.transaction g.bip32_path g.bip32_path_len).0 valid,
        )

  -- `g` is the context before the command.
  abbrev pub Reviews : GlobalCtx → GlobalCtx → List ℕ → List ℕ → List ℕ → Type 0
  Reviews g g' amount fees address =
      Shows g' amount fees address
      × (g'.state ≡ state_parsed)
      × Valid p.crypto g'.tx_info.transaction g.bip32_path

  -- What holds of every reply without a review, and of the end of a chunk, holds of a chunk's reply.
  parse_output-by_end :
      (P : Reply → Type 0) (cdata : Buffer) (more : Bool) (g : GlobalCtx)
      → ((r : Reply) → r.review ≡ none → P r)
      → ((g' : GlobalCtx) → g'.bip32_path ≡ g.bip32_path → P (end_chunk p more g'))
      → P (parse_output p cdata more g)
  unfolding parse_output
  parse_output-by_end P cdata more g none_open at_end = grind (arith, none_open, at_end)

  parse_input-by_end :
      (P : Reply → Type 0) (cdata : Buffer) (more : Bool) (g : GlobalCtx)
      → ((r : Reply) → r.review ≡ none → P r)
      → ((g' : GlobalCtx) → g'.bip32_path ≡ g.bip32_path → P (end_chunk p more g'))
      → P (parse_input p cdata more g)
  unfolding parse_input
  parse_input-by_end P cdata more g none_open at_end = grind (arith, none_open, at_end)

  start_transaction-no_review :
      (cdata : Buffer) (g : GlobalCtx) → (start_transaction p cdata g).review ≡ none
  unfolding start_transaction
  start_transaction-no_review cdata g = ground arith

  sign_input_and_send-no_review :
      (random : ℕ) (g : GlobalCtx) → (sign_input_and_send p random g).review ≡ none
  unfolding sign_input_and_send
  sign_input_and_send-no_review random g = ground arith

  pub handler_sign_tx-by_end :
      (P : Reply → Type 0) (random : ℕ) (cdata : Buffer) (type : ℕ) (more : Bool) (g : GlobalCtx)
      → ((r : Reply) → r.review ≡ none → P r)
      → ((g' : GlobalCtx) → g'.bip32_path ≡ g.bip32_path → P (end_chunk p more g'))
      → P (handler_sign_tx p random cdata type more g)
  unfolding handler_sign_tx
  handler_sign_tx-by_end P random cdata type more g none_open at_end =
      let output = parse_output-by_end P cdata more g none_open at_end in
      let input = parse_input-by_end P cdata more g none_open at_end in
      grind (arith, none_open, start_transaction-no_review, sign_input_and_send-no_review)

  -- SIGN_TX begins a review of a transaction only if the transaction is valid for the change path
  -- that the context had. The review shows the value of the first output and the fee, if both have a
  -- text, and the address of the first output, and the context is in the state PARSED.
  pub handler_sign_tx-Reviews :
      (random : ℕ) (cdata : Buffer) (type : ℕ) (more : Bool) (g : GlobalCtx)
      (amount fees address : List ℕ)
      → (handler_sign_tx p random cdata type more g).review
        ≡ some (review_transaction amount fees address)
      → Reviews g (handler_sign_tx p random cdata type more g).context amount fees address
  handler_sign_tx-Reviews random cdata type more g amount fees address =
      handler_sign_tx-by_end
        (λ r.
          r.review ≡ some (review_transaction amount fees address)
          → Reviews g r.context amount fees address)
        random cdata type more g (λ r e h. absurd (ground arith))
        (λ g' e h.
          let (shows, state, same, valid) = end_chunk-reviews more g' amount fees address h in
          (
            shows,
            state,
            subst (λ path. Valid p.crypto (end_chunk p more g').context.tx_info.transaction path) e
                valid,
          ))

  -- Where the values of the outputs fit 64 bits and the totals of inputs and outputs do, the fee
  -- that a review of SIGN_TX shows is the inputs' total less the outputs' total.
  pub review_shows_fee :
      (random : ℕ) (cdata : Buffer) (type : ℕ) (more : Bool) (g : GlobalCtx)
      (amount fees address : List ℕ)
      → (handler_sign_tx p random cdata type more g).review
        ≡ some (review_transaction amount fees address)
      → let tx = (handler_sign_tx p random cdata type more g).context.tx_info.transaction in
        ValuesFit tx.tx_outputs
        → input_total tx.tx_input_len tx.tx_inputs < 2 ^ 64
        → output_total tx.tx_output_len tx.tx_outputs < 2 ^ 64
        → Option.map kas (
            p.format_fpu64_trimmed
              (input_total tx.tx_input_len tx.tx_inputs
                - output_total tx.tx_output_len tx.tx_outputs)
              8)
          ≡ some fees
  review_shows_fee random cdata type more g amount fees address h fit ins outs =
      let tx = (handler_sign_tx p random cdata type more g).context.tx_info.transaction in
      let (shows, state, valid) =
        handler_sign_tx-Reviews random cdata type more g amount fees address h in
      let exact =
        calc_fees_exact tx.tx_inputs tx.tx_input_len tx.tx_outputs tx.tx_output_len fit ins
          (let covered = valid.1 in omega arith) in
      rw (sym exact) shows.1
