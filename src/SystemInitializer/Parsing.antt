-- ===== src/SystemInitializer/Parsing.antt =====
-- What `CatParser::init` has done when it returns, and why it aborts.
use mathlib.Core.Path.{subst}
use esp32_band_decoder.AntennaSwitch
use esp32_band_decoder.AntennaSwitch.{get_config, set_config}
use esp32_band_decoder.Base.{
  ◌≡◌, inl, inr, refl, sym, ap, ◌∙◌, true, false, Option, none, some, arith, Bool-cases,
  some-injective, if◌then◌else◌, pos, ltb_ℤ,
}
use esp32_band_decoder.CatParser
use esp32_band_decoder.CatParser.{System, Uart, start_uart, with_uart}
use esp32_band_decoder.Config.{Config}
use esp32_band_decoder.ConfigManager
use esp32_band_decoder.Err.{Err, ok, fail, is_ok}
use esp32_band_decoder.SystemInitializer.{Platform}

module _ {W S C : Type 0} (platform : Platform W S C) where
  pub with_uart-system :
      (uart : Uart W) (s : System S C) (o : Option W) {e : Err} {w : W} {t : System S C}
      → with_uart uart s o ≡ some (e, w, t)
      → t ≡ s
  unfolding with_uart
  with_uart-system uart s none h = absurd (cc)
  with_uart-system uart s (some w) h =
      ap (λ (x : Err × W × System S C). x.2) (sym (some-injective h))

  with_uart-none :
      (uart : Uart W) (s : System S C) (o : Option W) → with_uart uart s o ≡ none → o ≡ none
  unfolding with_uart
  with_uart-none uart s none h = refl
  with_uart-none uart s (some w) h = absurd (cc)

  -- The copy of the configuration is the stored one, with a positive baud rate.
  abbrev pub Agrees : System S C → Type 0
  Agrees s =
      (s.cat.current_config ≡ get_config s.switch)
      × (ltb_ℤ (pos 0) (get_config s.switch).uart_baud_rate ≡ true)

  abbrev pub loaded : Config → System S C → System S C
  loaded c s = record s { cat = record (s.cat) { current_config = c } }

  abbrev pub fixed : System S C → Config
  fixed s = record (get_config s.switch) { uart_baud_rate = pos 9600 }

  abbrev pub resaved : System S C → System S C
  resaved s = record (loaded (fixed s) s) {
    switch = (set_config platform.nvs (some (fixed s)) s.switch).1;
  }

  resaved-Agrees :
      (s : System S C)
      → is_ok (set_config platform.nvs (some (fixed s)) s.switch).0 ≡ true
      → Agrees (resaved s)
  unfolding get_config AntennaSwitch.set_config ConfigManager.update_config
      ConfigManager.save_to_nvs
  resaved-Agrees s h = (ground arith, ground arith)

  module _ (uart : Uart W) (w : W) (s : System S C) where
    pub init_positive :
        ltb_ℤ (pos 0) (get_config s.switch).uart_baud_rate ≡ true
        → CatParser.init platform.nvs uart w s
          ≡ with_uart uart
              (loaded (get_config s.switch) s)
              (start_uart uart (get_config s.switch) w)
    unfolding CatParser.init
    init_positive h = rw h refl

    pub init-fixed :
        ltb_ℤ (pos 0) (get_config s.switch).uart_baud_rate ≡ false
        → is_ok (set_config platform.nvs (some (fixed s)) s.switch).0 ≡ true
        → CatParser.init platform.nvs uart w s
          ≡ with_uart uart (resaved s) (start_uart uart (fixed s) w)
    unfolding CatParser.init
    init-fixed h saved = rw (h, saved) refl

    pub init_unsaved :
        ltb_ℤ (pos 0) (get_config s.switch).uart_baud_rate ≡ false
        → is_ok (set_config platform.nvs (some (fixed s)) s.switch).0 ≡ false
        → CatParser.init platform.nvs uart w s
          ≡ some ((set_config platform.nvs (some (fixed s)) s.switch).0, w, resaved s)
    unfolding CatParser.init
    init_unsaved h saved = rw (h, saved) refl

    pub parser-Agrees :
        {e : Err} {w' : W} {t : System S C}
        → CatParser.init platform.nvs uart w s ≡ some (e, w', t)
        → is_ok e ≡ true
        → Agrees t
    unfolding get_config
    parser-Agrees h good = elim (Bool-cases (ltb_ℤ (pos 0) (get_config s.switch).uart_baud_rate)) [
      | inl positive ↦
          subst Agrees (sym (with_uart-system uart _ _ (sym (init_positive positive) ∙ h)))
            (refl, positive)
      | inr other ↦
          elim (Bool-cases (is_ok (set_config platform.nvs (some (fixed s)) s.switch).0)) [
            | inl saved ↦
                subst Agrees (sym (with_uart-system uart _ _ (sym (init-fixed other saved) ∙ h)))
                  (resaved-Agrees s saved)
            | inr lost ↦
                let same =
                  ap (λ (x : Err × W × System S C). is_ok x.0)
                    (some-injective (sym (init_unsaved other lost) ∙ h)) in
                absurd (cc (lost, good, same))
          ]
    ]

    -- It aborts only on a call of the UART driver.
    pub init_aborts :
        CatParser.init platform.nvs uart w s ≡ none → (c : Config) × (start_uart uart c w ≡ none)
    init_aborts h = elim (Bool-cases (ltb_ℤ (pos 0) (get_config s.switch).uart_baud_rate)) [
      | inl positive ↦
          (get_config s.switch, with_uart-none uart _ _ (sym (init_positive positive) ∙ h))
      | inr other ↦
          elim (Bool-cases (is_ok (set_config platform.nvs (some (fixed s)) s.switch).0)) [
            | inl saved ↦ (fixed s, with_uart-none uart _ _ (sym (init-fixed other saved) ∙ h))
            | inr lost ↦ absurd (cc (sym (init_unsaved other lost) ∙ h))
          ]
    ]

  with_uart-failed :
      (uart : Uart W) (s : System S C) (o : Option W) {e : Err} {w : W} {t : System S C}
      → ((v : W) → (uart.task_create v).0 ≡ false)
      → with_uart uart s o ≡ some (e, w, t)
      → e ≡ fail
  unfolding with_uart
  with_uart-failed uart s none never h = absurd (cc)
  with_uart-failed uart s (some w) never h =
      ap (λ (x : Err × W × System S C). x.0) (sym (some-injective h))
      ∙ ap (λ b. if b then ok else fail) (never w)

  pub not_created :
      (uart : Uart W) (v : W) (s : System S C) {e : Err} {w : W} {t : System S C}
      → ((u : W) → (uart.task_create u).0 ≡ false)
      → CatParser.init platform.nvs uart v s ≡ some (e, w, t)
      → is_ok e ≡ false
  not_created uart v s never h =
      elim (Bool-cases (ltb_ℤ (pos 0) (get_config s.switch).uart_baud_rate)) [
        | inl positive ↦
            ap is_ok (with_uart-failed uart _ _ never (sym (init_positive uart v s positive) ∙ h))
        | inr other ↦
            elim (Bool-cases (is_ok (set_config platform.nvs (some (fixed s)) s.switch).0)) [
              | inl saved ↦
                  ap is_ok
                    (with_uart-failed uart _ _ never (sym (init-fixed uart v s other saved) ∙ h))
              | inr lost ↦
                  ap (λ (x : Err × W × System S C). is_ok x.0)
                    (some-injective (sym h ∙ init_unsaved uart v s other lost))
                  ∙ lost
            ]
      ]
