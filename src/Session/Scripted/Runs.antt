-- ===== src/Session/Scripted/Runs.antt =====
-- The loop keeps the scripts of the parsed outputs of the three forms.
use app_kaspa.Prelude.{ℕ, ◌≡◌, subst, sym, ap, Bool, Option, none, some, List, [], ◌∷◌, All, length}
use app_kaspa.Sdk.Platform.{Platform}
use app_kaspa.Sdk.Buffer.{Buffer, BufferLaws, buffer_of}
use app_kaspa.Context.{GlobalCtx}
use app_kaspa.Display.{Review, Reply}
use app_kaspa.Actions.{decide}
use app_kaspa.Handlers.SignTx.{handler_sign_tx}
use app_kaspa.Dispatcher.{Command, command_buffer, apdu_dispatcher}
use app_kaspa.Session.{Exchange, answer, conclude, exchange, app_main, start_context}
use app_kaspa.Session.Sizes.{
  Bounded, zero_context-Bounded, handler_get_public_key-Kept, handler_sign_msg-Kept,
}
use app_kaspa.Session.Bounds.{apdu_dispatcher_keeps, exchange-Bounded}
use app_kaspa.Session.Scripted.{
  Scripted, SameOutputs-Scripted, decide-SameOutputs, handler_sign_tx-Scripted,
}

-- `lc` is the size of the data, as the SDK's parser has it.
abbrev pub Framed : Option Command → Type 0
Framed none = Unit {0}
Framed (some cmd) = cmd.lc ≡ length (command_buffer cmd).ptr

module _ (p : Platform) (buffers : BufferLaws p.buffer) where
  apdu_dispatcher-Scripted :
      (random : ℕ) (cmd : Command) (g : GlobalCtx)
      → Framed (some cmd)
      → Bounded p.max_input_count g.tx_info
      → Scripted g.tx_info
      → Scripted (apdu_dispatcher p random cmd g).context.tx_info
  apdu_dispatcher-Scripted random cmd g framed bounded h =
      let cdata = command_buffer cmd in
      let whole : cdata ≡ buffer_of cdata.ptr =
        ap (λ (n : ℕ). record { ptr = cdata.ptr; size = n; offset = 0 }) framed in
      apdu_dispatcher_keeps p (λ g'. Scripted g'.tx_info) random cmd g h
        (λ type more.
          subst (λ (b : Buffer). Scripted (handler_sign_tx p random b type more g).context.tx_info)
            (sym whole) (handler_sign_tx-Scripted p buffers random cdata.ptr type more g bounded h))
        (rw (handler_sign_msg-Kept p cdata g) tt)
        (λ display. rw (handler_get_public_key-Kept p cdata display g) tt)

  pub answer-Scripted :
      (random : ℕ) (command : Option Command) (g : GlobalCtx)
      → Framed command
      → Bounded p.max_input_count g.tx_info
      → Scripted g.tx_info
      → Scripted (answer p random command g).context.tx_info
  unfolding answer
  answer-Scripted random none g framed bounded h = h
  answer-Scripted random (some cmd) g framed bounded h =
      apdu_dispatcher-Scripted random cmd g framed bounded h

  conclude-Scripted :
      (random : ℕ) (choice : Bool) (o : Option Review) (r : Reply)
      → Scripted r.context.tx_info
      → Scripted (conclude p random choice o r).context.tx_info
  unfolding conclude
  conclude-Scripted random choice none r h = h
  conclude-Scripted random choice (some review) r h =
      SameOutputs-Scripted p buffers r.context.tx_info
        (decide p random choice review r.context).context.tx_info
        (decide-SameOutputs p buffers random choice review r.context) h

  exchange-Scripted :
      (e : Exchange) (g : GlobalCtx)
      → Framed e.command
      → Bounded p.max_input_count g.tx_info
      → Scripted g.tx_info
      → Scripted (exchange p e g).context.tx_info
  unfolding exchange
  exchange-Scripted e g framed bounded h =
      let r = answer p e.random e.command g in
      conclude-Scripted e.random e.choice r.review r
        (answer-Scripted e.random e.command g framed bounded h)

  run-Scripted :
      (es : List Exchange) (g : GlobalCtx)
      → All (λ e. Framed e.command) es
      → Bounded p.max_input_count g.tx_info
      → Scripted g.tx_info
      → Scripted (app_main p es g).0.tx_info
  unfolding app_main
  run-Scripted [] g framed bounded h = h
  run-Scripted (e ∷ es) g (f, fs) bounded h =
      run-Scripted es (exchange p e g).context fs (exchange-Bounded p e g bounded)
        (exchange-Scripted e g f bounded h)

  -- From the start, every parsed output has a script of one of the three forms.
  pub app_main-Scripted :
      (es : List Exchange)
      → All (λ e. Framed e.command) es
      → Scripted (app_main p es (start_context p)).0.tx_info
  app_main-Scripted es framed =
      run-Scripted es (start_context p) framed (zero_context-Bounded p.max_input_count) tt
