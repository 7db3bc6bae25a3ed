-- ===== src/AppMain/Aborts.antt =====
-- The restart counter through the full initialisation, which may abort.
use esp32_band_decoder.AppMain.Restarts.{remembered}
use mathlib.Core.Path.{subst}
use esp32_band_decoder.AntennaSwitch.{get_config, set_config}
use esp32_band_decoder.CatParser
use esp32_band_decoder.CatParser.{System, start_uart, error_check, with_uart}
use esp32_band_decoder.SystemInitializer.Full.{
  connected, initialize_full-elim, initialize_full-aborts,
}
use esp32_band_decoder.SystemInitializer.Parsing.{
  loaded, resaved, fixed, init_positive, init-fixed, init_unsaved,
}
use esp32_band_decoder.Base.{
  ℕ, ◌≡◌, refl, sym, ◌∙◌, pos, ltb_ℤ, none, Option, some, Bool-cases, inl, inr,
}
use esp32_band_decoder.Config.{Config}
use esp32_band_decoder.Err.{Err, is_ok}
use esp32_band_decoder.Storage.{KeepsCount}
use esp32_band_decoder.SystemInitializer.{
  Platform, Device, call, initialize_full, Booted, hand_over,
}
use esp32_band_decoder.WifiManager.Untouched.{Keeps}
use esp32_band_decoder.AppMain.Quiet.{IsQuiet, connect_controller-kept}

module _ {W S C : Type 0} (platform : Platform W S C) (keeps : KeepsCount platform.storage) where
  -- A call of the UART driver fails, on flash with this counter.
  abbrev pub Refused : Option ℕ → Type 0
  Refused n = (c : Config) × (w : W) × (start_uart platform.uart c w ≡ none) × (keeps.count w ≡ n)

  -- The counter of what is left, if anything is.
  abbrev IsKept : Option ℕ → Option W → Type 0
  IsKept n none = Unit {0}
  IsKept n (some w) = keeps.count w ≡ n

  abbrev IsDone : Option ℕ → Option (Err × W × System S C) → Type 0
  IsDone n none = Unit {0}
  IsDone n (some (e, w, s)) = keeps.count w ≡ n

  module _ (quiet : IsQuiet platform keeps) where
    error_check-IsKept :
        (call : W → Err × W) (n : Option ℕ) (o : Option W)
        → Keeps keeps.count call
        → IsKept n o
        → IsKept n (error_check call o)
    unfolding error_check
    error_check-IsKept call n none h k = tt
    error_check-IsKept call n (some w) h k = elim (Bool-cases (is_ok (call w).0)) [
      | inl good ↦ rw good (h w ∙ k)
      | inr bad ↦ rw bad tt
    ]

    start_uart-IsKept : (c : Config) (w : W) → IsKept (keeps.count w) (start_uart platform.uart c w)
    unfolding start_uart
    start_uart-IsKept c w =
        let n = keeps.count w in
        let config = platform.uart.uart_param_config in
        let plain = error_check (config c.uart_baud_rate 0 1 0) (some w) in
        let wired = error_check platform.uart.uart_set_pin plain in
        let full = config c.uart_baud_rate c.uart_parity c.uart_stop_bits c.uart_flow_ctrl in
        let plain_kept =
          error_check-IsKept (config c.uart_baud_rate 0 1 0) n (some w)
            (quiet.uart_param_config c.uart_baud_rate 0 1 0) refl in
        let wired_kept =
          error_check-IsKept platform.uart.uart_set_pin n plain quiet.uart_set_pin plain_kept in
        let full_kept =
          error_check-IsKept full n wired
            (quiet.uart_param_config c.uart_baud_rate c.uart_parity c.uart_stop_bits
              c.uart_flow_ctrl)
            wired_kept in
        error_check-IsKept platform.uart.uart_driver_install n (error_check full wired)
          quiet.uart_driver_install full_kept

    with_uart-IsDone :
        (n : Option ℕ) (s : System S C) (o : Option W)
        → IsKept n o
        → IsDone n (with_uart platform.uart s o)
    unfolding with_uart
    with_uart-IsDone n s none h = tt
    with_uart-IsDone n s (some w) h = quiet.task_create w ∙ h

    init-IsDone :
        (w : W) (s : System S C)
        → IsDone (keeps.count w) (CatParser.init platform.nvs platform.uart w s)
    init-IsDone w s = elim (Bool-cases (ltb_ℤ (pos 0) (get_config s.switch).uart_baud_rate)) [
      | inl positive ↦
          subst (IsDone (keeps.count w)) (sym (init_positive platform platform.uart w s positive)) (
            with_uart-IsDone (keeps.count w) (loaded platform (get_config s.switch) s)
              (start_uart platform.uart (get_config s.switch) w)
              (start_uart-IsKept (get_config s.switch) w))
      | inr other ↦
          elim (Bool-cases (is_ok (set_config platform.nvs (some (fixed platform s)) s.switch).0)) [
            | inl saved ↦
                subst (IsDone (keeps.count w))
                  (sym (init-fixed platform platform.uart w s other saved))
                  (with_uart-IsDone (keeps.count w) (resaved platform s)
                    (start_uart platform.uart (fixed platform s) w)
                    (start_uart-IsKept (fixed platform s) w))
            | inr lost ↦
                subst (IsDone (keeps.count w))
                  (sym (init_unsaved platform platform.uart w s other lost)) refl
          ]
    ]

    connected-kept :
        (d : Device W S C)
        → remembered platform keeps (connected platform d).0 ≡ remembered platform keeps d
    connected-kept d = connect_controller-kept platform keeps quiet _ _

    pub initialize_full-kept :
        (d : Device W S C) (b : Booted platform)
        → initialize_full platform d ≡ some b
        → remembered platform keeps b.device ≡ remembered platform keeps d
    unfolding hand_over
    initialize_full-kept d =
        initialize_full-elim platform d
          (λ b. remembered platform keeps b.device ≡ remembered platform keeps d) (λ e bad. refl)
          (λ e w s p.
            let kept : keeps.count w ≡ keeps.count ((connected platform d).0).wifi.world =
              subst (IsDone (keeps.count ((connected platform d).0).wifi.world)) p (
                init-IsDone ((connected platform d).0).wifi.world
                  ((connected platform d).0).system) in
            elim (Bool-cases (is_ok e)) [
              | inl good ↦ rw good (kept ∙ connected-kept d)
              | inr bad ↦ rw bad (kept ∙ connected-kept d)
            ])

    -- An abort of the full initialisation finds the counter as it was, when a call of the UART driver
    -- fails.
    pub initialize_full-aborts-kept :
        (d : Device W S C)
        → initialize_full platform d ≡ none
        → Refused (remembered platform keeps d)
    initialize_full-aborts-kept d h =
        let (c, refused) = initialize_full-aborts platform d h in
        (c, ((connected platform d).0).wifi.world, refused, connected-kept d)
