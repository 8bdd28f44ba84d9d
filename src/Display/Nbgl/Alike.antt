-- ===== src/Display/Nbgl/Alike.antt =====
-- The reviews of the two kinds of devices against each other: texts, answers and choices.
use app_kaspa.Prelude.{
  ℕ, ◌≡◌, refl, sym, subst, Bool, true, false, Option, none, some, List, [], ◌∷◌, if◌then◌else◌,
}
use mathlib.Core.Option
use mathlib.Core.List.{Perm}
use mathlib.Core.List.Perm
use app_kaspa.Sdk.Platform.{Platform}
use app_kaspa.Context.{GlobalCtx}
use app_kaspa.Display.{
  Review, review_pubkey, review_transaction, review_message, Reply, ui_display_address,
  ui_display_transaction, ui_display_message,
}
use app_kaspa.Display.Flow.{
  flow_of, flow_texts, Step, ux_display_approve_step, ux_display_reject_step, validate_callback,
  press,
}
use app_kaspa.Display.Nbgl.{
  TagValue, UseCase, address_review, review_of_transaction, review_of_message, NbglReply,
  nbgl_display_address, nbgl_display_transaction, nbgl_display_message, review_choice,
}
use app_kaspa.Display.Nbgl.Touch.{
  use_case_of, touch, nbgl_display_address-touch, nbgl_display_transaction-touch,
  nbgl_display_message-touch,
}

pair_texts : List TagValue → List (List ℕ)
pair_texts [] = []
pair_texts (shown ∷ pairs) = shown.value ∷ pair_texts pairs

-- The texts on the pages of a use case, and those on the steps of a review.
use_case_texts : Option UseCase → List (List ℕ)
unfolding pair_texts
use_case_texts none = []
use_case_texts (some (address_review address pairs)) = address ∷ pair_texts pairs
use_case_texts (some (review_of_transaction pairs)) = pair_texts pairs
use_case_texts (some (review_of_message pairs)) = pair_texts pairs

review_texts : Option Review → List (List ℕ)
review_texts none = []
review_texts (some review) = flow_texts (flow_of review)

touch_texts :
    (review : Option Review)
    → Perm (use_case_texts (Option.map use_case_of review)) (review_texts review)
unfolding use_case_texts review_texts
touch_texts none = Perm.refl _
touch_texts (some (review_pubkey path address)) = Perm.swap _ _ _
touch_texts (some (review_transaction amount fees address)) = Perm.swap _ _ _
touch_texts (some (review_message path message)) = Perm.refl _

module _ (p : Platform) where
  -- The answer to a choice, where there is a review.
  abbrev touched : ℕ → Bool → Option UseCase → GlobalCtx → Option Reply
  touched random confirm use_case g =
      Option.map (λ u. (review_choice p random confirm u g).0) use_case

  abbrev button : Bool → Step
  button confirm = if confirm then ux_display_approve_step else ux_display_reject_step

  abbrev pressed : ℕ → Bool → Option Review → GlobalCtx → Option Reply
  pressed random confirm none g = none
  pressed random confirm (some review) g = press p random (button confirm) review g

  press-button :
      (random : ℕ) (confirm : Bool) (review : Review) (g : GlobalCtx)
      → press p random (button confirm) review g
        ≡ some (validate_callback p random review confirm g)
  unfolding press
  press-button random true review g = refl
  press-button random false review g = refl

  touch_choice :
      (review : Option Review) (random : ℕ) (confirm : Bool) (g : GlobalCtx)
      → touched random confirm (Option.map use_case_of review) g ≡ pressed random confirm review g
  unfolding review_choice press
  touch_choice none random confirm g = refl
  touch_choice (some (review_pubkey path address)) random confirm g =
      sym (press-button random confirm _ g)
  touch_choice (some (review_transaction amount fees address)) random confirm g =
      sym (press-button random confirm _ g)
  touch_choice (some (review_message path message)) random confirm g =
      sym (press-button random confirm _ g)

  -- One interface against the other: the same context and answer, the same texts up to their order,
  -- and the same effect of a choice.
  pub Alike : NbglReply → Reply → Type 0
  Alike n b =
      (n.context ≡ b.context)
      × (n.sent ≡ b.sent)
      × Perm (use_case_texts n.use_case) (review_texts b.review)
      × ((random : ℕ) (confirm : Bool) (g : GlobalCtx)
          → touched random confirm n.use_case g ≡ pressed random confirm b.review g)

  touch-Alike : (n : NbglReply) (b : Reply) → n ≡ touch b → Alike n b
  unfolding Alike
  touch-Alike n b e =
      subst (λ r. Alike r b) (sym e) (refl, refl, touch_texts b.review, touch_choice b.review)

  -- Where the buffer of a message has MAX_MESSAGE_LEN bytes, as on the devices with a touch screen,
  -- each of their three display functions leaves the context of the one of the devices with buttons,
  -- sends the same, and shows the same texts up to their order; and a choice does there what the
  -- button does here.
  pub nbgl_reviews-Alike :
      (g : GlobalCtx)
      → p.message_buffer_len ≡ p.max_message_len
      → Alike (nbgl_display_address p g) (ui_display_address p g)
        × Alike (nbgl_display_transaction p g) (ui_display_transaction p g)
        × Alike (nbgl_display_message p g) (ui_display_message p g)
  nbgl_reviews-Alike g e = (
    touch-Alike _ _ (nbgl_display_address-touch p g),
    touch-Alike _ _ (nbgl_display_transaction-touch p g),
    touch-Alike _ _ (nbgl_display_message-touch p g e),
  )
