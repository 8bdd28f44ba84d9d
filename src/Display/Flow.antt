-- ===== src/Display/Flow.antt =====
-- ui/bagl_display.c: the steps of a review on the devices with buttons.
use app_kaspa.Prelude.{ℕ, Bool, true, false, Option, none, some, List, [], ◌∷◌}
use app_kaspa.Sdk.Platform.{Platform}
use app_kaspa.Context.{GlobalCtx}
use app_kaspa.Display.{Review, review_pubkey, review_transaction, review_message, Reply}
use app_kaspa.Actions.{validate_pubkey, validate_transaction, validate_message}

-- The words on the screens.
pub data Caption : Type 0 where
  confirm_address_caption review_transaction_caption review_message_caption : Caption
  path_caption address_caption amount_caption fees_caption message_caption : Caption
  bip32_path_caption to_caption : Caption
  approve_caption reject_caption : Caption

-- A step is an icon with its caption, a caption with a text to page through, or a button.
pub data Step : Type 0 where
  icon_step : Caption → Step
  paging_step : Caption → List ℕ → Step
  button_step : Caption → Bool → Step

abbrev pub ux_display_approve_step : Step
ux_display_approve_step = button_step approve_caption true

abbrev pub ux_display_reject_step : Step
ux_display_reject_step = button_step reject_caption false

abbrev pub ux_display_pubkey_flow : List ℕ → List ℕ → List Step
ux_display_pubkey_flow path address =
    icon_step confirm_address_caption
    ∷ paging_step path_caption path
    ∷ paging_step address_caption address
    ∷ ux_display_approve_step
    ∷ ux_display_reject_step
    ∷ []

abbrev pub ux_display_transaction_flow : List ℕ → List ℕ → List ℕ → List Step
ux_display_transaction_flow amount fees address =
    icon_step review_transaction_caption
    ∷ paging_step address_caption address
    ∷ paging_step amount_caption amount
    ∷ paging_step fees_caption fees
    ∷ ux_display_approve_step
    ∷ ux_display_reject_step
    ∷ []

abbrev pub ux_display_message_flow : List ℕ → List ℕ → List Step
ux_display_message_flow path message =
    icon_step review_message_caption
    ∷ paging_step path_caption path
    ∷ paging_step message_caption message
    ∷ ux_display_approve_step
    ∷ ux_display_reject_step
    ∷ []

-- The flow that `ux_flow_init` gets.
abbrev pub flow_of : Review → List Step
flow_of (review_pubkey path address) = ux_display_pubkey_flow path address
flow_of (review_transaction amount fees address) = ux_display_transaction_flow amount fees address
flow_of (review_message path message) = ux_display_message_flow path message

abbrev pub flow_texts : List Step → List (List ℕ)
flow_texts [] = []
flow_texts (paging_step _ text ∷ steps) = text ∷ flow_texts steps
flow_texts (icon_step _ ∷ steps) = flow_texts steps
flow_texts (button_step _ choice ∷ steps) = flow_texts steps

module _ (p : Platform) where
  -- The functions that `g_validate_callback` points to; the menu that they return to is in Menu.
  abbrev ui_action_validate_pubkey : Bool → GlobalCtx → Reply
  ui_action_validate_pubkey choice g = validate_pubkey p choice g

  abbrev ui_action_validate_transaction : ℕ → Bool → GlobalCtx → Reply
  ui_action_validate_transaction random choice g = validate_transaction p random choice g

  abbrev ui_action_validate_message : ℕ → Bool → GlobalCtx → Reply
  ui_action_validate_message random choice g = validate_message p random choice g

  abbrev pub validate_callback : ℕ → Review → Bool → GlobalCtx → Reply
  validate_callback random (review_pubkey path address) choice g =
      ui_action_validate_pubkey choice g
  validate_callback random (review_transaction amount fees address) choice g =
      ui_action_validate_transaction random choice g
  validate_callback random (review_message path message) choice g =
      ui_action_validate_message random choice g

  -- What both buttons do on a step: the callback, for the two last steps.
  unfoldable pub press : ℕ → Step → Review → GlobalCtx → Option Reply
  press random (button_step _ choice) review g = some (validate_callback random review choice g)
  press random (icon_step _) review g = none
  press random (paging_step _ text) review g = none
