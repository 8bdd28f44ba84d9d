-- ===== src/Session/Consent.antt =====
-- Where the approval of a transaction comes from: a review that the user accepted.
use app_kaspa.Prelude.{
  ℕ, ◌≡◌, ◌⊎◌, inl, inr, refl, subst, sym, ap, Bool, true, false, Option, none, some, List, [], ◌∷◌,
  ◌++◌, arith,
}
use app_kaspa.Sdk.Platform.{Platform}
use app_kaspa.Context.{state_approved, confirm_transaction, GlobalCtx, TransactionCtx}
use app_kaspa.Display.{Review, review_pubkey, review_transaction, review_message}
use app_kaspa.Actions.{decide}
use app_kaspa.Crypto.{crypto_sign_personal_message}
use app_kaspa.Handlers.Review.{Reviews}
use app_kaspa.Session.{Exchange, answer, conclude, exchange, app_main, start_context}
use app_kaspa.Session.Phases.{answer-Answers, of_message}
use app_kaspa.Session.Follows.{Follows, Follows-refl, Follows-trans, sign_input_and_send-Follows}
use app_kaspa.Session.Loyal.{answer-Loyal, answer-Candid}

module _ (p : Platform) where
  -- In the exchange the user accepted the review of a valid transaction, which `t` follows.
  abbrev pub Accepted : Exchange → GlobalCtx → TransactionCtx → Type 0
  Accepted e g t =
      let r = answer p e.random e.command g in
      (e.choice ≡ true)
      × ((amount : List ℕ) × (fees : List ℕ) × (address : List ℕ) × (r.review
            ≡ some (review_transaction amount fees address))
          × Reviews p g r.context amount fees address
          × Follows r.context.tx_info t)

  -- What a decision leaves: of an address the context, of a message the request.
  decide-pubkey-context :
      (random : ℕ) (choice : Bool) (path address : List ℕ) (g : GlobalCtx)
      → (decide p random choice (review_pubkey path address) g).context ≡ g
  unfolding decide
  decide-pubkey-context random choice path address g = ground arith

  decide-message-request :
      (random : ℕ) (choice : Bool) (path message : List ℕ) (g : GlobalCtx)
      → (decide p random choice (review_message path message) g).context.req_type ≡ g.req_type
  unfolding decide crypto_sign_personal_message
  decide-message-request random choice path message g = ground arith

  decide-transaction-approves :
      (random : ℕ) (choice : Bool) (amount fees address : List ℕ) (g : GlobalCtx)
      → let g' = (decide p random choice (review_transaction amount fees address) g).context in
        g'.state ≡ state_approved → (choice ≡ true) × Follows g.tx_info g'.tx_info
  unfolding decide
  decide-transaction-approves random true amount fees address g approved =
      (refl, sign_input_and_send-Follows p random (record g { state = state_approved }))
  decide-transaction-approves random false amount fees address g approved = absurd (ground arith)

  -- An approval for a transaction is an old one, or comes from this exchange.
  abbrev Origin : Exchange → GlobalCtx → GlobalCtx → Type 0
  Origin e g g' =
      g'.state ≡ state_approved
      → g'.req_type ≡ confirm_transaction
      → ((g.state ≡ state_approved)
          × (g.req_type ≡ confirm_transaction)
          × Follows g.tx_info g'.tx_info)
        ⊎ Accepted e g g'.tx_info

  kept-Origin : (e : Exchange) (g : GlobalCtx) → Origin e g (answer p e.random e.command g).context
  kept-Origin e g approved wanted =
      let (quiet, apt) = answer-Answers p e.random e.command g in
      inl (ground arith, ground arith, answer-Loyal p e.random e.command g approved)

  decide-Origin :
      (e : Exchange) (g : GlobalCtx) (review : Review)
      → (answer p e.random e.command g).review ≡ some review
      → Origin e g
          (decide p e.random e.choice review (answer p e.random e.command g).context).context
  decide-Origin e g (review_pubkey path address) shown approved wanted =
      let same =
        decide-pubkey-context e.random e.choice path address
          (answer p e.random e.command g).context in
      subst (Origin e g) (sym same) (kept-Origin e g) approved wanted
  decide-Origin e g (review_transaction amount fees address) shown approved wanted =
      let r = answer p e.random e.command g in
      let (agreed, follows) =
        decide-transaction-approves e.random e.choice amount fees address r.context approved in
      let candid = answer-Candid p e.random e.command g amount fees address shown in
      inr (agreed, (amount, fees, address, shown, candid, follows))
  decide-Origin e g (review_message path message) shown approved wanted =
      let r = answer p e.random e.command g in
      let request = decide-message-request e.random e.choice path message r.context in
      let kind = ap of_message shown in
      let (quiet, apt) = answer-Answers p e.random e.command g in absurd (ground arith)

  conclude-Origin :
      (e : Exchange) (g : GlobalCtx) (o : Option Review)
      → (answer p e.random e.command g).review ≡ o
      → Origin e g (conclude p e.random e.choice o (answer p e.random e.command g)).context
  unfolding conclude
  conclude-Origin e g none shown = kept-Origin e g
  conclude-Origin e g (some review) shown = decide-Origin e g review shown

  pub exchange-Origin : (e : Exchange) (g : GlobalCtx) → Origin e g (exchange p e g).context
  unfolding exchange
  exchange-Origin e g = conclude-Origin e g (answer p e.random e.command g).review refl

  -- Among the exchanges from `g` there is one in which the user accepted the review of a valid
  -- transaction, which `t` follows.
  abbrev pub Consented : List Exchange → GlobalCtx → TransactionCtx → Type 0
  Consented es g t =
      (before : List Exchange) × (e : Exchange) × (after : List Exchange) × (es
        ≡ before ++ e ∷ after)
      × Accepted e (app_main p before g).0 t

  pub Consented-Follows :
      (es : List Exchange) (g : GlobalCtx) (t u : TransactionCtx)
      → Follows t u
      → Consented es g t
      → Consented es g u
  Consented-Follows es g t u h
        (before, e, after, split, (agreed, (amount, fees, address, shown, reviews, follows))) =
      let r = answer p e.random e.command (app_main p before g).0 in
      let follows' = Follows-trans r.context.tx_info t u follows h in
      (before, e, after, split, (agreed, (amount, fees, address, shown, reviews, follows')))

  pub Consented-later :
      (e : Exchange) (es : List Exchange) (g : GlobalCtx) (t : TransactionCtx)
      → Consented es (exchange p e g).context t
      → Consented (e ∷ es) g t
  unfolding app_main
  Consented-later e es g t (before, e', after, split, accepted) =
      (e ∷ before, e', after, ap (◌∷◌ e) split, accepted)

  -- The approval that a run ends with was there before it, or was given in it.
  pub run-Origin :
      (es : List Exchange) (g : GlobalCtx)
      → let g' = (app_main p es g).0 in
        g'.state ≡ state_approved
        → g'.req_type ≡ confirm_transaction
        → ((g.state ≡ state_approved)
            × (g.req_type ≡ confirm_transaction)
            × Follows g.tx_info g'.tx_info)
          ⊎ Consented es g g'.tx_info
  unfolding app_main
  run-Origin [] g approved wanted = inl (approved, wanted, Follows-refl g.tx_info)
  run-Origin (e ∷ es) g approved wanted =
      let g₁ = (exchange p e g).context in
      let t' = (app_main p es g₁).0.tx_info in
      elim (run-Origin es g₁ approved wanted) [
        | inr given ↦ inr (Consented-later e es g t' given)
        | inl (approved₁, wanted₁, follows) ↦ elim (exchange-Origin e g approved₁ wanted₁) [
          | inl (approved₀, wanted₀, follows₀) ↦
              inl (approved₀, wanted₀, Follows-trans g.tx_info g₁.tx_info t' follows₀ follows)
          | inr accepted ↦
              inr (Consented-Follows (e ∷ es) g g₁.tx_info t' follows ([], e, es, refl, accepted))
        ]
      ]

  pub approval-Consented :
      (es : List Exchange)
      → let g = (app_main p es (start_context p)).0 in
        g.state ≡ state_approved
        → g.req_type ≡ confirm_transaction
        → Consented es (start_context p) g.tx_info
  approval-Consented es approved wanted = elim (run-Origin es (start_context p) approved wanted) [
    | inl (before, _, _) ↦ absurd (ground arith)
    | inr given ↦ given
  ]
