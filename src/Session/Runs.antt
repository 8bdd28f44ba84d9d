-- ===== src/Session/Runs.antt =====
-- Runs of the loop one after another, and runs in which every command is answered with SW_OK.
use app_kaspa.Prelude.{
  ℕ, zero, suc, ◌+◌, ◌≡◌, refl, sym, ap, ◌∙◌, List, [], ◌∷◌, ◌++◌, append_assoc, arith, replicate,
}
use app_kaspa.Sdk.Platform.{Platform}
use app_kaspa.Context.{GlobalCtx}
use app_kaspa.Response.{Response, status, sw_ok}
use app_kaspa.Display.{Reply, reply_sw}
use app_kaspa.Session.{Exchange, exchange, app_main}

abbrev pub accepted : ℕ → List Response
accepted n = replicate n (status sw_ok)

pub replicate-append :
    (m n : ℕ) (r : Response) → replicate m r ++ replicate n r ≡ replicate (m + n) r
replicate-append zero n r = ap (λ k. replicate k r) (omega arith)
replicate-append (suc m) n r =
    let e : suc (m + n) ≡ suc m + n = omega arith in
    ap (◌∷◌ r) (replicate-append m n r) ∙ ap (λ k. replicate k r) e

module _ (p : Platform) where
  pub app_main-append :
      (a b : List Exchange) (g : GlobalCtx)
      → app_main p (a ++ b) g ≡ (
        (app_main p b (app_main p a g).0).0,
        (app_main p a g).1 ++ (app_main p b (app_main p a g).0).1,
      )
  unfolding app_main
  app_main-append [] b g = refl
  app_main-append (e ∷ a) b g =
      let r = exchange p e g in
      ap {B = GlobalCtx × List Response} (λ (s : GlobalCtx × List Response). (s.0, r.sent ++ s.1))
        (app_main-append a b r.context)
      ∙ ap {B = GlobalCtx × List Response}
          (λ rest. ((app_main p b (app_main p a r.context).0).0, rest))
          (sym (append_assoc r.sent _ _))

  pub app_main-chain :
      (a b : List Exchange) (g g' g'' : GlobalCtx) (sent sent' : List Response)
      → app_main p a g ≡ (g', sent)
      → app_main p b g' ≡ (g'', sent')
      → app_main p (a ++ b) g ≡ (g'', sent ++ sent')
  app_main-chain a b g g' g'' sent sent' first second =
      app_main-append a b g
      ∙ ap {B = GlobalCtx × List Response}
          (λ (r : GlobalCtx × List Response). ((app_main p b r.0).0, r.1 ++ (app_main p b r.0).1))
          first
      ∙ ap {B = GlobalCtx × List Response} (λ (r : GlobalCtx × List Response). (r.0, sent ++ r.1))
          second

  -- A command that is answered with SW_OK, and those behind it.
  pub app_main-next :
      (e : Exchange) (es : List Exchange) (g g' g'' : GlobalCtx) (n : ℕ)
      → exchange p e g ≡ reply_sw g' sw_ok
      → app_main p es g' ≡ (g'', accepted n)
      → app_main p (e ∷ es) g ≡ (g'', accepted (suc n))
  unfolding app_main
  app_main-next e es g g' g'' n first rest =
      ap {B = GlobalCtx × List Response}
        (λ (r : Reply). let (context, sent) = app_main p es r.context in (context, r.sent ++ sent))
        first
      ∙ ap {B = GlobalCtx × List Response}
          (λ (s : GlobalCtx × List Response). (s.0, status sw_ok ∷ s.1)) rest
