-- ===== src/Session/Edges.antt =====
-- The phases of the global context, and the edges that an exchange can take between them.
use app_kaspa.Prelude.{
  ℕ, ◌≡◌, ◌⊎◌, inl, inr, refl, ap, Bool, true, Option, none, some, List, [], ◌∷◌, arith,
}
use app_kaspa.Sdk.Platform.{Platform}
use app_kaspa.Context.{
  State, state_none, state_parsed, state_approved, RequestType, confirm_address,
  confirm_transaction, confirm_message, GlobalCtx,
}
use app_kaspa.Display.{Review, review_pubkey, review_transaction, review_message, Reply}
use app_kaspa.Actions.{decide}
use app_kaspa.Crypto.{crypto_sign_personal_message}
use app_kaspa.Session.{Exchange, answer, conclude, exchange, app_main, start_context}
use app_kaspa.Session.Phases.{
  Quiet, of_transaction, of_message, Answers, sign_input_and_send-Answers, answer-Answers,
}

-- From one request and state to another; `consent` is the user's decision in the exchange.
pub data Edge (consent : Bool) : RequestType → State → RequestType → State → Type 0 where
  stays : (r : RequestType) (s : State) → Edge consent r s r s
  closes : (r r' : RequestType) (s : State) → Edge consent r s r' state_none
  is_parsed : (s : State) → Edge consent confirm_transaction s confirm_transaction state_parsed
  accepts_transaction :
      (s : State)
      → consent ≡ true
      → Edge consent confirm_transaction s confirm_transaction state_approved
  accepts_message :
      (r : RequestType) (s : State)
      → consent ≡ true
      → Edge consent r s confirm_message state_approved

-- The phases in which the application can be: a review of a message or an address leaves nothing
-- parsed, and an address is never approved.
pub data Reachable : RequestType → State → Type 0 where
  at_rest : (r : RequestType) → Reachable r state_none
  in_transaction : (s : State) → Reachable confirm_transaction s
  approved_message : Reachable confirm_message state_approved

Edge-Reachable :
    (consent : Bool) (r r' : RequestType) (s s' : State)
    → Edge consent r s r' s'
    → Reachable r s
    → Reachable r' s'
Edge-Reachable consent _ _ _ _ (stays r s) h = h
Edge-Reachable consent _ _ _ _ (closes r r' s) h = at_rest r'
Edge-Reachable consent _ _ _ _ (is_parsed s) h = in_transaction state_parsed
Edge-Reachable consent _ _ _ _ (accepts_transaction s agreed) h = in_transaction state_approved
Edge-Reachable consent _ _ _ _ (accepts_message r s agreed) h = approved_message

-- The edges of an exchange, as a sum.
abbrev Moves : Bool → GlobalCtx → GlobalCtx → Type 0
Moves consent g g' =
    Quiet g g'
    ⊎ ((consent ≡ true)
        × (g'.state ≡ state_approved)
        × (g'.req_type ≡ confirm_transaction)
        × (g.req_type ≡ confirm_transaction))
    ⊎ ((consent ≡ true) × (g'.state ≡ state_approved) × (g'.req_type ≡ confirm_message))

Moves-Edge :
    (consent : Bool) (g g' : GlobalCtx)
    → Moves consent g g'
    → Edge consent g.req_type g.state g'.req_type g'.state
Moves-Edge consent g g' (inl (inl (r, s))) = rw (r, s) (stays g.req_type g.state)
Moves-Edge consent g g' (inl (inr (inl s))) = rw s (closes g.req_type g'.req_type g.state)
Moves-Edge consent g g' (inl (inr (inr (r, r', s)))) = rw (r, r', s) (is_parsed g.state)
Moves-Edge consent g g' (inr (inl (agreed, s, r', r))) =
    rw (s, r', r) (accepts_transaction g.state agreed)
Moves-Edge consent g g' (inr (inr (agreed, s, r'))) =
    rw (s, r') (accepts_message g.req_type g.state agreed)

module _ (p : Platform) where
  conclude-Moves :
      (random : ℕ) (consent : Bool) (o : Option Review) (r : Reply) (g : GlobalCtx)
      → r.review ≡ o
      → Answers g r
      → Moves consent g (conclude p random consent o r).context
  unfolding conclude decide crypto_sign_personal_message
  conclude-Moves random consent none r g e (quiet, apt) = inl quiet
  conclude-Moves random consent (some (review_pubkey path address)) r g e (quiet, apt) =
      ground arith
  conclude-Moves random consent (some (review_transaction amount fees address)) r g e (quiet, apt) =
      let signed =
        sign_input_and_send-Answers p random (record r.context { state = state_approved }) in
      let kind = ap of_transaction e in ground (arith, signed)
  conclude-Moves random consent (some (review_message path message)) r g e (quiet, apt) =
      let kind = ap of_message e in ground arith

  exchange-Edge :
      (e : Exchange) (g : GlobalCtx)
      → let g' = (exchange p e g).context in Edge e.choice g.req_type g.state g'.req_type g'.state
  unfolding exchange
  exchange-Edge e g =
      let r = answer p e.random e.command g in
      Moves-Edge e.choice g (conclude p e.random e.choice r.review r).context
        (conclude-Moves e.random e.choice r.review r g refl (answer-Answers p e.random e.command g))

  run-Reachable :
      (es : List Exchange) (g : GlobalCtx)
      → Reachable g.req_type g.state
      → let g' = (app_main p es g).0 in Reachable g'.req_type g'.state
  unfolding app_main
  run-Reachable [] g h = h
  run-Reachable (e ∷ es) g h =
      let g' = (exchange p e g).context in
      run-Reachable es g'
        (Edge-Reachable e.choice g.req_type g'.req_type g.state g'.state (exchange-Edge e g) h)

  -- After any exchanges from the start, the request and the state are a phase of the state machine,
  -- and every exchange takes one of its edges: both stay, or the state becomes STATE_NONE, or a
  -- transaction under way is parsed, or the state becomes STATE_APPROVED by the user's consent, for a
  -- message or for the transaction under way.
  pub exchanges_follow_edges :
      (es : List Exchange) (e : Exchange)
      → let g = (app_main p es (start_context p)).0 in
        let g' = (exchange p e g).context in
        Reachable g.req_type g.state × Edge e.choice g.req_type g.state g'.req_type g'.state
  exchanges_follow_edges es e =
      let g = (app_main p es (start_context p)).0 in
      (run-Reachable es (start_context p) (at_rest confirm_address), exchange-Edge e g)
