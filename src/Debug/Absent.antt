-- ===== src/Debug/Absent.antt =====
-- A build with the debug command against one without it.
use app_kaspa.Prelude.{
  ℕ, ◌≡◌, refl, sym, ap, ◌∙◌, Bool, true, false, inl, inr, Bool-cases, Option, none, some, List, [],
  ◌∷◌, arith, if◌then◌else◌,
}
use app_kaspa.Sdk.Platform.{Platform}
use app_kaspa.Context.{GlobalCtx}
use app_kaspa.Display.{Reply}
use app_kaspa.Dispatcher.{Command}
use app_kaspa.Session.{Exchange, answer, conclude, exchange, app_main}
use app_kaspa.Debug.{
  is_debug, handler_debug, debug_dispatcher, debug_answer, debug_exchange, debug_main,
}

abbrev pub asks_debug : Exchange → Bool
asks_debug e = elim e.command [ none ↦ false | some cmd ↦ is_debug cmd ]

-- A sequence without its debug commands.
unfoldable pub without_debug : List Exchange → List Exchange
without_debug [] = []
without_debug (e ∷ es) = if asks_debug e then without_debug es else e ∷ without_debug es

without_debug-asks :
    (e : Exchange) (es : List Exchange)
    → asks_debug e ≡ true
    → without_debug (e ∷ es) ≡ without_debug es
unfolding without_debug
without_debug-asks e es h = rw h refl

without_debug-other :
    (e : Exchange) (es : List Exchange)
    → asks_debug e ≡ false
    → without_debug (e ∷ es) ≡ e ∷ without_debug es
unfolding without_debug
without_debug-other e es h = rw h refl

module _ (p : Platform) where
  debug_answer-release :
      (random : ℕ) (command : Option Command) (g : GlobalCtx)
      → (elim command [ none ↦ false | some cmd ↦ is_debug cmd ]) ≡ false
      → debug_answer p random command g ≡ answer p random command g
  unfolding debug_answer debug_dispatcher answer
  debug_answer-release random none g h = refl
  debug_answer-release random (some cmd) g h = rw h refl

  debug_exchange-release :
      (e : Exchange) (g : GlobalCtx) → asks_debug e ≡ false → debug_exchange p e g ≡ exchange p e g
  unfolding debug_exchange exchange
  debug_exchange-release e g h =
      ap (λ (r : Reply). conclude p e.random e.choice r.review r)
        (debug_answer-release e.random e.command g h)

  debug_answer-keeps :
      (random : ℕ) (command : Option Command) (g : GlobalCtx)
      → (elim command [ none ↦ false | some cmd ↦ is_debug cmd ]) ≡ true
      → let r = debug_answer p random command g in (r.context ≡ g) × (r.review ≡ none)
  unfolding debug_answer debug_dispatcher handler_debug
  debug_answer-keeps random none g h = absurd (ground arith)
  debug_answer-keeps random (some cmd) g h = rw h (refl, refl)

  conclude-keeps :
      (random : ℕ) (choice : Bool) (r : Reply) (g : GlobalCtx)
      → (r.context ≡ g) × (r.review ≡ none)
      → (conclude p random choice r.review r).context ≡ g
  unfolding conclude
  conclude-keeps random choice r g (same, ends) = rw ends same

  debug_exchange-keeps :
      (e : Exchange) (g : GlobalCtx) → asks_debug e ≡ true → (debug_exchange p e g).context ≡ g
  unfolding debug_exchange
  debug_exchange-keeps e g h =
      conclude-keeps e.random e.choice _ g (debug_answer-keeps e.random e.command g h)

  debug_main-release :
      (es : List Exchange) (g : GlobalCtx)
      → (debug_main p es g).0 ≡ (app_main p (without_debug es) g).0
  unfolding debug_main app_main without_debug
  debug_main-release [] g = refl
  debug_main-release (e ∷ es) g =
      let rest = debug_main-release es in
      let kept = debug_exchange-keeps e g in
      let same = debug_exchange-release e g in
      elim (Bool-cases (asks_debug e)) [
        | inl asks ↦
            ap (λ g'. (debug_main p es g').0) (kept asks)
            ∙ rest g
            ∙ ap (λ es'. (app_main p es' g).0) (sym (without_debug-asks e es asks))
        | inr other ↦
            ap (λ (r : Reply). (debug_main p es r.context).0) (same other)
            ∙ rest (exchange p e g).context
            ∙ ap (λ es'. (app_main p es' g).0) (sym (without_debug-other e es other))
      ]

  -- Whatever debug commands stand among the exchanges of a session, the next exchange that is none
  -- is the one of a build without the command.
  pub debug_command_unseen :
      (es : List Exchange) (e : Exchange) (g : GlobalCtx)
      → asks_debug e ≡ false
      → debug_exchange p e (debug_main p es g).0 ≡ exchange p e (app_main p (without_debug es) g).0
  debug_command_unseen es e g h =
      debug_exchange-release e _ h ∙ ap (λ g'. exchange p e g') (debug_main-release es g)
