-- ===== src/Session/Whole.antt =====
-- A whole session of SIGN_TX: a transaction is sent, reviewed, accepted and signed.
use app_kaspa.Prelude.{
  ℕ, suc, ◌+◌, ◌-◌, ◌≡◌, refl, ap, ap₂, ◌∙◌, true, false, none, List, [], ◌∷◌, ◌++◌, arith, length,
}
use app_kaspa.Sdk.Platform.{Platform}
use app_kaspa.Sdk.Buffer.{BufferLaws}
use app_kaspa.Sdk.Blake2b.{Blake2bLaws}
use app_kaspa.Sdk.Write.{WriteLaws}
use app_kaspa.Context.{state_approved, GlobalCtx}
use app_kaspa.Response.{Response}
use app_kaspa.Session.{exchange, app_main}
use app_kaspa.Display.{Reply}
use app_kaspa.Actions.{sign_input_and_send, decide}
use app_kaspa.Dispatcher.{apdu_dispatcher}
use app_kaspa.Session.{answer, conclude}
use app_kaspa.Session.Honest.{sign_tx, first_commands, first_commands-answered}
use app_kaspa.Session.Runs.{accepted, app_main-append}
use app_kaspa.Session.Reviewed.{Sendable, at_review, Showable, end_chunk-Showable}
use app_kaspa.Session.Keys.{Reliable, next_signatures}
use app_kaspa.Session.Signatures.{
  Signing, input_signatures, sign_input_and_send-signs, signatures_in_order,
}
use app_kaspa.Session.Chunks.{handled_input, input_from, parsed, context_of}
use app_kaspa.Session.Parsed.{parsed-Scripts, parsed-Ids, validate-path}

module _ (p : Platform) (blake : Blake2bLaws p.blake2b) (write : WriteLaws p.write)
    (laws : BufferLaws p.buffer) (ok : Reliable p.crypto) (random : ℕ) where
  open p use {max_input_count}

  abbrev approved_context : GlobalCtx → GlobalCtx
  approved_context g = record (at_review p laws g) { state = state_approved }

  -- The last input and the user's consent: the first signature.
  consented :
      (header : List ℕ) (outputs inputs : List (List ℕ)) (last amount fees : List ℕ)
      → Sendable max_input_count header outputs inputs last
      → let built = context_of max_input_count header outputs (inputs ++ last ∷ []) in
        Showable p laws built amount fees
        → exchange p
            (sign_tx true random 2 0 last)
            (context_of max_input_count header outputs inputs)
          ≡ (let r = sign_input_and_send p random (approved_context built) in
              record { context = r.context; sent = r.sent; review = none })
  unfolding exchange answer apdu_dispatcher conclude decide
  consented header outputs inputs last amount fees ready shows =
      let built = context_of max_input_count header outputs (inputs ++ last ∷ []) in
      ap (λ (r : Reply). conclude p random true r.review r)
        (handled_input p laws random header outputs inputs last false
            (omega (arith, ready.all_inputs)) ready.layout.few_inputs ready.small ready.last_length
          ∙ end_chunk-Showable p laws built amount fees refl shows)
      ∙ refl

  final_signatures :
      (header : List ℕ) (outputs inputs : List (List ℕ)) (last amount fees randoms : List ℕ)
      → Sendable max_input_count header outputs inputs last
      → let built = context_of max_input_count header outputs (inputs ++ last ∷ []) in
        Showable p laws built amount fees
        → length randoms ≡ length inputs
        → (app_main p
            (sign_tx true random 2 0 last ∷ next_signatures randoms)
            (context_of max_input_count header outputs inputs)).1
          ≡ input_signatures p blake write built.tx_info.transaction 0 (random ∷ randoms)
  unfolding app_main
  final_signatures header outputs inputs last amount fees randoms ready shows each =
      let all = inputs ++ last ∷ [] in
      let built = context_of max_input_count header outputs all in
      let tx = built.tx_info.transaction in
      let rest = next_signatures randoms in
      let ids = parsed-Ids (max_input_count - length (parsed input_from all)) all in
      let scripts =
        parsed-Scripts tx.tx_output_len outputs _ (omega (arith, ready.all_outputs))
          ready.output_layouts in
      let path = validate-path p.crypto tx built.bip32_path built.bip32_path_len in
      let start : Signing p blake write tx 0 (approved_context built) = record {
        same_transaction = refl;
        at_index = refl;
        is_approved = refl;
        wanted = refl;
        five_levels = path;
      } in
      let (sent, next, ends) =
        sign_input_and_send-signs p blake write ok random tx 0 (approved_context built) ids scripts
          (omega arith) start in
      let few = ready.layout.few_inputs in
      ap (λ (r : Reply). r.sent ++ (app_main p rest r.context).1)
        (consented header outputs inputs last amount fees ready shows)
      ∙ ap₂ ◌++◌ sent (
          signatures_in_order p blake write ok randoms tx 1 _ ids scripts
            (omega (arith, ready.all_inputs, ready.small, few)) next)

  -- A host sends a transaction in the commands of its parts, each of a layout that the device knows and
  -- as many as the header declares, the user accepts its review, and the host asks for the other
  -- signatures. Whatever the context was, if the transaction of those bytes is valid and its amount
  -- and fee have texts, fewer than 256 inputs have room, and the functions on keys do not fail and
  -- give public keys of 33 bytes or more and signatures of 64, then the answers are SW_OK for each
  -- command but the last one, and then the signature of each input, in their order.
  pub session_signs :
      (header : List ℕ) (outputs inputs : List (List ℕ)) (last amount fees : List ℕ)
      (randoms : List ℕ) (g : GlobalCtx)
      → Sendable max_input_count header outputs inputs last
      → let built = context_of max_input_count header outputs (inputs ++ last ∷ []) in
        Showable p laws built amount fees
        → length randoms ≡ length inputs
        → (app_main p
            (first_commands p laws true random header outputs inputs
              ++ sign_tx true random 2 0 last ∷ next_signatures randoms)
            g).1
          ≡ accepted (suc (length outputs + length inputs))
            ++ input_signatures p blake write built.tx_info.transaction 0 (random ∷ randoms)
  session_signs header outputs inputs last amount fees randoms g ready shows each =
      let before =
        first_commands-answered p laws true random header outputs inputs g ready.layout ready.small
          (omega (arith, ready.all_outputs)) (omega (arith, ready.all_inputs)) ready.output_layouts
          ready.input_lengths in
      let final = sign_tx true random 2 0 last ∷ next_signatures randoms in
      ap (λ (r : GlobalCtx × List Response). r.1)
        (app_main-append p (first_commands p laws true random header outputs inputs) final g)
      ∙ ap (λ (r : GlobalCtx × List Response). r.1 ++ (app_main p final r.0).1) before
      ∙ ap (◌++◌ (accepted (suc (length outputs + length inputs))))
          (final_signatures header outputs inputs last amount fees randoms ready shows each)
