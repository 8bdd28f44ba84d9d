-- ===== src/Session/Agreed.antt =====
-- Every signature that a signing command sends is one that the user has agreed to.
use app_kaspa.Prelude.{
  ℕ, ◌+◌, ◌≡◌, ◌⊎◌, inl, inr, refl, subst, sym, ap, ◌∙◌, Bool, true, false, Option, none, some,
  List, [], ◌∷◌, ◌++◌, append_assoc, arith, length,
}
use app_kaspa.Sdk.Platform.{Platform}
use app_kaspa.Context.{state_approved, confirm_transaction, GlobalCtx, TransactionCtx}
use app_kaspa.Response.{Response}
use app_kaspa.Display.{Review, review_pubkey, review_transaction, review_message}
use app_kaspa.Actions.{decide}
use app_kaspa.Session.{Exchange, answer, conclude, exchange, app_main, start_context}
use app_kaspa.Session.Answers.{answer-Replies, pending}
use app_kaspa.Session.Phases.{answer-Answers, of_transaction}
use app_kaspa.Session.Approval.{Silent, is_signing}
use app_kaspa.Session.Follows.{Follows-refl}
use app_kaspa.Session.Consent.{Accepted, Consented, approval-Consented}
use app_kaspa.Session.Loyal.{answer-Candid}
use app_kaspa.Session.Content.{
  SignsInput, SignsMessage, ShowsMessage, of_pubkey, sign_input_and_send-content, answer-Sends,
  answer-CandidMessage, answer-no_key,
}

module _ (p : Platform) where
  -- In the exchange the user accepted the review of the message that is signed.
  abbrev pub AcceptedMessage : Exchange → GlobalCtx → List Response → Type 0
  AcceptedMessage e g sent =
      let r = answer p e.random e.command g in
      (e.choice ≡ true)
      × ((path : List ℕ) × (message : List ℕ) × (r.review ≡ some (review_message path message))
          × ShowsMessage p r.context path message
          × SignsMessage p e.random (record r.context { state = state_approved }) sent)

  -- The signed context is that before the exchange, or its review was accepted in it.
  abbrev pub Sources : Exchange → GlobalCtx → List Response → Type 0
  Sources e g sent =
      Silent sent
      ⊎ SignsInput p e.random g sent
      ⊎ (let g' = (answer p e.random e.command g).context in
          SignsInput p e.random (record g' { state = state_approved }) sent
          × Accepted p e g g'.tx_info)
      ⊎ AcceptedMessage e g sent

  decide-transaction-sends :
      (random : ℕ) (choice : Bool) (amount fees address : List ℕ) (g : GlobalCtx)
      → g.req_type ≡ confirm_transaction
      → let sent = (decide p random choice (review_transaction amount fees address) g).sent in
        Silent sent
        ⊎ ((choice ≡ true) × SignsInput p random (record g { state = state_approved }) sent)
  unfolding decide
  decide-transaction-sends random false amount fees address g wanted = inl (ground arith)
  decide-transaction-sends random true amount fees address g wanted =
      elim (sign_input_and_send-content p random (record g { state = state_approved }) refl
        wanted) [ inl silent ↦ inl silent | inr signs ↦ inr (refl, signs) ]

  decide-message-sends :
      (random : ℕ) (choice : Bool) (path message : List ℕ) (g : GlobalCtx)
      → let sent = (decide p random choice (review_message path message) g).sent in
        Silent sent
        ⊎ ((choice ≡ true) × SignsMessage p random (record g { state = state_approved }) sent)
  unfolding decide
  decide-message-sends random choice path message g = ground arith

  decide-Sources :
      (e : Exchange) (g : GlobalCtx) (review : Review)
      → is_signing e.command ≡ true
      → (answer p e.random e.command g).review ≡ some review
      → Sources e g (decide p e.random e.choice review (answer p e.random e.command g).context).sent
  decide-Sources e g (review_pubkey path address) signing shown =
      let none_shown = answer-no_key p e.random e.command g signing in
      let kind = ap of_pubkey shown in absurd (ground arith)
  decide-Sources e g (review_transaction amount fees address) signing shown =
      let r = answer p e.random e.command g in
      let kind = ap of_transaction shown in
      let (quiet, apt) = answer-Answers p e.random e.command g in
      elim (decide-transaction-sends e.random e.choice amount fees address r.context
        (ground arith)) [
          | inl silent ↦ inl silent
          | inr (agreed, signs) ↦
              let candid = answer-Candid p e.random e.command g amount fees address shown in
              let same = Follows-refl r.context.tx_info in
              inr (inr (inl (signs, (agreed, (amount, fees, address, shown, candid, same)))))
        ]
  decide-Sources e g (review_message path message) signing shown =
      let r = answer p e.random e.command g in
      elim (decide-message-sends e.random e.choice path message r.context) [
        | inl silent ↦ inl silent
        | inr (agreed, signs) ↦
            let candid = answer-CandidMessage p e.random e.command g signing path message shown in
            inr (inr (inr (agreed, (path, message, shown, candid, signs))))
      ]

  owes_response :
      (sent : List Response) (o : Option Review) (review : Review)
      → o ≡ some review
      → length sent + pending o ≡ 1
      → sent ≡ []
  owes_response [] o review shown one = refl
  owes_response (s ∷ sent) o review shown one = let owed = ap pending shown in absurd (omega arith)

  conclude-Sources :
      (e : Exchange) (g : GlobalCtx) (o : Option Review)
      → is_signing e.command ≡ true
      → (answer p e.random e.command g).review ≡ o
      → Sources e g (conclude p e.random e.choice o (answer p e.random e.command g)).sent
  unfolding conclude
  conclude-Sources e g none signing shown = elim (answer-Sends p e.random e.command g signing) [
    | inl silent ↦ inl silent
    | inr signs ↦ inr (inl signs)
  ]
  conclude-Sources e g (some review) signing shown =
      let r = answer p e.random e.command g in
      let empty =
        owes_response r.sent r.review review shown (answer-Replies p e.random e.command g) in
      let r' = decide p e.random e.choice review r.context in
      subst (λ (sent : List Response). Sources e g (sent ++ r'.sent)) (sym empty)
        (decide-Sources e g review signing shown)

  pub exchange-Sources :
      (e : Exchange) (g : GlobalCtx)
      → is_signing e.command ≡ true
      → Sources e g (exchange p e g).sent
  unfolding exchange
  exchange-Sources e g signing =
      conclude-Sources e g (answer p e.random e.command g).review signing refl

  pub Consented-before :
      (es : List Exchange) (e : Exchange) (g : GlobalCtx) (t : TransactionCtx)
      → Consented p es g t
      → Consented p (es ++ e ∷ []) g t
  Consented-before es e g t (before, e', after, split, accepted) =
      let split' =
        ap (λ (l : List Exchange). l ++ e ∷ []) split ∙ append_assoc before (e' ∷ after) (e ∷ []) in
      (before, e', after ++ e ∷ [], split', accepted)

  -- From the start, whatever the host sends and the user decides, SIGN_TX or SIGN_MESSAGE sends a
  -- status word only, or one of two signatures. One is of an input of a transaction: then the user
  -- accepted the review of a valid transaction, in this or an earlier exchange, and of what was
  -- reviewed the header and the outputs and inputs parsed till then are those of the transaction that
  -- is signed, all of it where the reviewed one was complete. The other is of the message whose review
  -- the user accepts in this exchange.
  pub signed_as_agreed :
      (es : List Exchange) (e : Exchange)
      → is_signing e.command ≡ true
      → let g = (app_main p es (start_context p)).0 in
        let sent = (exchange p e g).sent in
        Silent sent
        ⊎ ((g' : GlobalCtx) × SignsInput p e.random g' sent
            × Consented p (es ++ e ∷ []) (start_context p) g'.tx_info)
        ⊎ AcceptedMessage e g sent
  signed_as_agreed es e signing =
      let g₀ = start_context p in
      let g = (app_main p es g₀).0 in
      elim (exchange-Sources e g signing) [
        | inl silent ↦ inl silent
        | inr (inl signs) ↦
            let given = approval-Consented p es signs.0 signs.1 in
            inr (inl (g, signs, Consented-before es e g₀ g.tx_info given))
        | inr (inr (inl (signs, accepted))) ↦
            let reviewed = (answer p e.random e.command g).context in
            let g' = record reviewed { state = state_approved } in
            inr (inl (g', signs, (es, e, [], refl, accepted)))
        | inr (inr (inr accepted)) ↦ inr (inr accepted)
      ]
