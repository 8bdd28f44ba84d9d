-- ===== src/Display/Menu.antt =====
-- ui/menu_bagl.c and ui/menu_nbgl.c: the menus.
pub mod Quit
use app_kaspa.Prelude.{
  ℕ, ◌+◌, ◌-◌, ◌%◌, ◌<◌, ◌≡◌, Bool, true, false, List, [], ◌∷◌, length, get_or, ◌==◌, if◌then◌else◌,
}

-- The steps of both flows.
pub data MenuStep : Type 0 where
  ux_menu_ready_step ux_menu_version_step ux_menu_about_step ux_menu_exit_step : MenuStep
  ux_menu_info_step ux_menu_back_step : MenuStep

abbrev pub ux_menu_main_flow : List MenuStep
ux_menu_main_flow =
    ux_menu_ready_step ∷ ux_menu_version_step ∷ ux_menu_about_step ∷ ux_menu_exit_step ∷ []

abbrev pub ux_menu_about_flow : List MenuStep
ux_menu_about_flow = ux_menu_info_step ∷ ux_menu_back_step ∷ []

-- `G_ux` as far as the menus use it: the depth of its stack, the flow and the step that is shown; and
-- whether `os_sched_exit` has been called.
pub record Ux : Type 0 where
  pub stack_count : ℕ
  pub flow : List MenuStep
  pub position : ℕ
  pub exited : Bool

abbrev pub ux_flow_init : List MenuStep → Ux → Ux
ux_flow_init flow ux = record ux { flow = flow; position = 0 }

unfoldable pub ui_menu_main : Ux → Ux
ui_menu_main ux =
    let pushed = if ux.stack_count == 0 then 1 else ux.stack_count in
    ux_flow_init ux_menu_main_flow (record ux { stack_count = pushed })

unfoldable pub ui_menu_about : Ux → Ux
ui_menu_about ux = ux_flow_init ux_menu_about_flow ux

-- What both buttons do on a step.
unfoldable pub menu_callback : MenuStep → Ux → Ux
unfolding ui_menu_main ui_menu_about
menu_callback ux_menu_about_step ux = ui_menu_about ux
menu_callback ux_menu_back_step ux = ui_menu_main ux
menu_callback ux_menu_exit_step ux = record ux { exited = true }
menu_callback _ ux = ux

pub data Button : Type 0 where
  left right both : Button

-- The paging of a flow with FLOW_LOOP is the SDK's: `move forward n i` is the step after, or before,
-- the one at `i` of `n`.
abbrev pub Paging : Type 0
Paging = Bool → ℕ → ℕ → ℕ

pub record FlowLoop (move : Paging) : Type 0 where
  pub next : (n i : ℕ) → i < n → move true n i ≡ (i + 1) % n
  pub previous : (n i : ℕ) → i < n → move false n i ≡ (i + n - 1) % n

module _ (move : Paging) where
  -- After the exit nothing happens.
  unfoldable pub press_menu : Button → Ux → Ux
  unfolding menu_callback
  press_menu b ux =
      let n = length ux.flow in
      let pressed : Ux = elim b [
        | left ↦ record ux { position = move false n ux.position }
        | right ↦ record ux { position = move true n ux.position }
        | both ↦ menu_callback (get_or ux.flow ux.position ux_menu_ready_step) ux
      ] in
      if ux.exited then ux else pressed

  unfoldable pub press_all : List Button → Ux → Ux
  press_all [] ux = ux
  press_all (b ∷ bs) ux = press_all bs (press_menu b ux)

-- The home page of the devices with a touch screen: the application's name and the rows of `infoList`.
pub data InfoType : Type 0 where
  version_info developer_info : InfoType

pub record HomePage : Type 0 where
  pub app_name : List ℕ
  pub info_types : List InfoType
  pub info_contents : List (List ℕ)

-- "coderofstuff"
abbrev developer : List ℕ
developer = b'c' ∷ b'o' ∷ b'd' ∷ b'e' ∷ b'r' ∷ b'o' ∷ b'f' ∷ b's' ∷ b't' ∷ b'u' ∷ b'f' ∷ b'f' ∷ []

abbrev nbgl_menu_main : List ℕ → List ℕ → HomePage
nbgl_menu_main app_name app_version = record {
  app_name = app_name;
  info_types = version_info ∷ developer_info ∷ [];
  info_contents = app_version ∷ developer ∷ [];
}

abbrev app_quit : Ux → Ux
app_quit ux = record ux { exited = true }
