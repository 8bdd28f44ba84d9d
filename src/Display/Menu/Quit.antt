-- ===== src/Display/Menu/Quit.antt =====
-- From the menu the application can be left.
use app_kaspa.Prelude.{
  ℕ, zero, suc, ◌<◌, ◌≤◌, ◌≡◌, ◌⊎◌, inl, inr, refl, subst, sym, Bool, true, false, List, [], ◌∷◌,
  arith, length,
}
use app_kaspa.Display.Menu.{
  MenuStep, Ux, ux_menu_main_flow, ux_menu_about_flow, ui_menu_main, Button, right, both, Paging,
  FlowLoop, press_menu, press_all,
}

abbrev shown : ℕ → Bool → List MenuStep → ℕ → Ux
shown count exited flow i = record {
  stack_count = count;
  flow = flow;
  position = i;
  exited = exited;
}

-- A step of the main flow or of the submenu is shown.
abbrev pub InMenu : Ux → Type 0
InMenu ux =
    ((ux.flow ≡ ux_menu_main_flow) × (ux.position < 4))
    ⊎ ((ux.flow ≡ ux_menu_about_flow) × (ux.position < 2))

module _ (move : Paging) (loop : FlowLoop move) where
  main-InMenu :
      (b : Button) (i count : ℕ) (exited : Bool)
      → i < 4
      → InMenu (press_menu move b (shown count exited ux_menu_main_flow i))
  unfolding press_menu
  main-InMenu b zero count exited h = ground (arith, loop.next 4 0, loop.previous 4 0)
  main-InMenu b (suc zero) count exited h = ground (arith, loop.next 4 1, loop.previous 4 1)
  main-InMenu b (suc (suc zero)) count exited h = ground (arith, loop.next 4 2, loop.previous 4 2)
  main-InMenu b (suc (suc (suc zero))) count exited h =
      ground (arith, loop.next 4 3, loop.previous 4 3)
  main-InMenu b (suc (suc (suc (suc i)))) count exited h = absurd (omega arith)

  about-InMenu :
      (b : Button) (i count : ℕ) (exited : Bool)
      → i < 2
      → InMenu (press_menu move b (shown count exited ux_menu_about_flow i))
  unfolding press_menu
  about-InMenu b zero count exited h = ground (arith, loop.next 2 0, loop.previous 2 0)
  about-InMenu b (suc zero) count exited h = ground (arith, loop.next 2 1, loop.previous 2 1)
  about-InMenu b (suc (suc i)) count exited h = absurd (omega arith)

  press_menu-InMenu : (b : Button) (ux : Ux) → InMenu ux → InMenu (press_menu move b ux)
  press_menu-InMenu b ux (inl (flow, inside)) =
      subst (λ f. InMenu (press_menu move b (shown ux.stack_count ux.exited f ux.position)))
        (sym flow) (main-InMenu b ux.position ux.stack_count ux.exited inside)
  press_menu-InMenu b ux (inr (flow, inside)) =
      subst (λ f. InMenu (press_menu move b (shown ux.stack_count ux.exited f ux.position)))
        (sym flow) (about-InMenu b ux.position ux.stack_count ux.exited inside)

  press_all-InMenu : (bs : List Button) (ux : Ux) → InMenu ux → InMenu (press_all move bs ux)
  unfolding press_all
  press_all-InMenu [] ux h = h
  press_all-InMenu (b ∷ bs) ux h =
      press_all-InMenu bs (press_menu move b ux) (press_menu-InMenu b ux h)

  -- Some buttons, at most six, leave the application.
  abbrev pub CanQuit : Ux → Type 0
  CanQuit ux =
      (buttons : List Button) × (length buttons ≤ 6) × ((press_all move buttons ux).exited ≡ true)

  at_exit : (count : ℕ) → CanQuit (shown count false ux_menu_main_flow 3)
  unfolding press_menu press_all
  at_exit count = (both ∷ [], omega arith, refl)

  main-CanQuit :
      (i count : ℕ) (exited : Bool) → i < 4 → CanQuit (shown count exited ux_menu_main_flow i)
  unfolding press_menu press_all
  main-CanQuit i count true h = ([], omega arith, refl)
  main-CanQuit zero count false h = (
    right ∷ right ∷ right ∷ both ∷ [],
    omega arith,
    rw (loop.next 4 0 (omega arith), loop.next 4 1 (omega arith), loop.next 4 2 (omega arith)) refl,
  )
  main-CanQuit (suc zero) count false h = (
    right ∷ right ∷ both ∷ [],
    omega arith,
    rw (loop.next 4 1 (omega arith), loop.next 4 2 (omega arith)) refl,
  )
  main-CanQuit (suc (suc zero)) count false h =
      (right ∷ both ∷ [], omega arith, rw (loop.next 4 2 (omega arith)) refl)
  main-CanQuit (suc (suc (suc zero))) count false h = at_exit count
  main-CanQuit (suc (suc (suc (suc i)))) count false h = absurd (omega arith)

  -- Back to the main flow, and to its last step.
  about-CanQuit :
      (i count : ℕ) (exited : Bool) → i < 2 → CanQuit (shown count exited ux_menu_about_flow i)
  unfolding press_menu press_all
  about-CanQuit i count true h = ([], omega arith, refl)
  about-CanQuit zero count false h = (
    right ∷ both ∷ right ∷ right ∷ right ∷ both ∷ [],
    omega arith,
    rw
        (
          loop.next 2 0 (omega arith),
          loop.next 4 0 (omega arith),
          loop.next 4 1 (omega arith),
          loop.next 4 2 (omega arith),
        )
        refl,
  )
  about-CanQuit (suc zero) count false h = (
    both ∷ right ∷ right ∷ right ∷ both ∷ [],
    omega arith,
    rw (loop.next 4 0 (omega arith), loop.next 4 1 (omega arith), loop.next 4 2 (omega arith)) refl,
  )
  about-CanQuit (suc (suc i)) count false h = absurd (omega arith)

  InMenu-CanQuit : (ux : Ux) → InMenu ux → CanQuit ux
  InMenu-CanQuit ux (inl (flow, inside)) =
      subst (λ f. CanQuit (shown ux.stack_count ux.exited f ux.position)) (sym flow)
        (main-CanQuit ux.position ux.stack_count ux.exited inside)
  InMenu-CanQuit ux (inr (flow, inside)) =
      subst (λ f. CanQuit (shown ux.stack_count ux.exited f ux.position)) (sym flow)
        (about-CanQuit ux.position ux.stack_count ux.exited inside)

  -- After the main menu is opened, whatever buttons are pressed, a step of the main flow or of the
  -- submenu is shown, and at most six more buttons leave the application, if the SDK pages through a
  -- flow in a loop.
  pub ui_menu_main-CanQuit :
      (ux : Ux) (buttons : List Button)
      → let ux' = press_all move buttons (ui_menu_main ux) in InMenu ux' × CanQuit ux'
  unfolding ui_menu_main
  ui_menu_main-CanQuit ux buttons =
      let h = press_all-InMenu buttons (ui_menu_main ux) (inl (refl, omega arith)) in
      (h, InMenu-CanQuit (press_all move buttons (ui_menu_main ux)) h)
