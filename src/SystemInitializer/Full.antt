-- ===== src/SystemInitializer/Full.antt =====
-- What `initialize_full` has done when it returns, with and without an error, and why it aborts.
use mathlib.Core.Path.{subst}
use esp32_band_decoder.AntennaSwitch
use esp32_band_decoder.AntennaSwitch.{get_config, set_config}
use esp32_band_decoder.Base.{
  ◌≡◌, ◌≢◌, inl, inr, refl, sym, ◌∙◌, true, false, Option, none, some, arith, Bool-cases,
  Option-cases, some-injective, pos, ltb_ℤ,
}
use esp32_band_decoder.CatParser
use esp32_band_decoder.CatParser.{System, Uart, start_uart, with_uart}
use esp32_band_decoder.Config.{Config}
use esp32_band_decoder.Err.{Err, ok, is_ok}
use esp32_band_decoder.Relay.{Relay}
use esp32_band_decoder.SystemInitializer.{
  Platform, Device, Booted, with_world, hand_over, initialize_full, connect_controller,
}
use esp32_band_decoder.SystemInitializer.Parsing.{parser-Agrees, init_aborts, not_created}

module _ {W S C : Type 0} (platform : Platform W S C) where
  -- The device with its configuration loaded, and with the controller of the boot.
  abbrev configured : Device W S C → Device W S C
  configured d = record d {
    system = record (d.system) { switch = (AntennaSwitch.init platform.nvs d.system.switch).1 };
  }

  abbrev pub connected : Device W S C → Device W S C × Relay C
  connected d =
      connect_controller platform (get_config (AntennaSwitch.init platform.nvs d.system.switch).1)
        (configured d)

  abbrev pub parsing : Device W S C → Option (Err × W × System S C)
  parsing d =
      CatParser.init platform.nvs platform.uart ((connected d).0).wifi.world
        ((connected d).0).system

  abbrev unstarted : Err → Device W S C → Booted platform
  unstarted e d = record { result = e; device = d; destroyed = none; relay_controller_out = none }

  abbrev parsed : Device W S C → W → System S C → Device W S C
  parsed d w s = record (with_world platform w d) { system = s }

  module _ (d : Device W S C) where
    full_unstarted :
        is_ok (AntennaSwitch.init platform.nvs d.system.switch).0 ≡ false
        → initialize_full platform d
          ≡ some (unstarted (AntennaSwitch.init platform.nvs d.system.switch).0 (configured d))
    unfolding initialize_full
    full_unstarted h = rw h refl

    full_parsed :
        {e : Err} {w : W} {s : System S C}
        → is_ok (AntennaSwitch.init platform.nvs d.system.switch).0 ≡ true
        → parsing d ≡ some (e, w, s)
        → initialize_full platform d
          ≡ some (hand_over platform (connected d).1 e (parsed (connected d).0 w s))
    unfolding initialize_full
    full_parsed h p = rw (h, p) refl

    full_aborted :
        is_ok (AntennaSwitch.init platform.nvs d.system.switch).0 ≡ true
        → parsing d ≡ none
        → initialize_full platform d ≡ none
    unfolding initialize_full
    full_aborted h p = rw (h, p) refl

    -- What holds of every boot that does not abort, if it holds of these two.
    pub initialize_full-elim :
        (P : Booted platform → Type 0)
        → ((e : Err) → is_ok e ≡ false → P (unstarted e (configured d)))
        → ((e : Err) (w : W) (s : System S C)
            → parsing d ≡ some (e, w, s)
            → P (hand_over platform (connected d).1 e (parsed (connected d).0 w s)))
        → (b : Booted platform) → initialize_full platform d ≡ some b
        → P b
    initialize_full-elim P failed handed b h =
        elim (Bool-cases (is_ok (AntennaSwitch.init platform.nvs d.system.switch).0)) [
          | inr bad ↦ subst P (some-injective (sym (full_unstarted bad) ∙ h)) (failed _ bad)
          | inl good ↦ elim (Option-cases (parsing d)) [
            | inl gone ↦ absurd (cc (sym (full_aborted good gone) ∙ h))
            | inr (x, p) ↦
                subst P (some-injective (sym (full_parsed good p) ∙ h)) (handed x.0 x.1 x.2 p)
          ]
        ]

    -- An abort is one of a call of the UART driver.
    pub initialize_full-aborts :
        initialize_full platform d ≡ none
        → (c : Config) × (start_uart platform.uart c ((connected d).0).wifi.world ≡ none)
    initialize_full-aborts h =
        elim (Bool-cases (is_ok (AntennaSwitch.init platform.nvs d.system.switch).0)) [
          | inr bad ↦ absurd (cc (sym (full_unstarted bad) ∙ h))
          | inl good ↦ elim (Option-cases (parsing d)) [
            | inl gone ↦
                init_aborts platform platform.uart ((connected d).0).wifi.world
                  ((connected d).0).system gone
            | inr (x, p) ↦ absurd (cc (sym (full_parsed good p) ∙ h))
          ]
        ]

    -- An error returns before the caller's pointer is set.
    pub relay_controller_out-result :
        (b : Booted platform)
        → initialize_full platform d ≡ some b
        → is_ok b.result ≡ false
        → b.relay_controller_out ≡ none
    unfolding hand_over
    relay_controller_out-result =
        initialize_full-elim (λ b. is_ok b.result ≡ false → b.relay_controller_out ≡ none)
          (λ e bad h. refl) (λ e w s p h. ground arith)

    -- When the full initialisation returns with success, the caller's pointer is to the controller
    -- that this boot has made, the antenna switch owns that controller, and the CAT parser's copy of
    -- the configuration is the stored one, with a positive baud rate. When it returns an error, the
    -- caller has no pointer.
    pub initialize_full_cases :
        (b : Booted platform)
        → initialize_full platform d ≡ some b
        → let s = b.device.system in
          (b.result ≡ ok
            → (b.relay_controller_out ≡ some (connected d).1)
              × (s.switch.relay_controller ≡ some (connected d).1)
              × (s.cat.current_config ≡ get_config s.switch)
              × (ltb_ℤ (pos 0) (get_config s.switch).uart_baud_rate ≡ true))
          × (b.result ≢ ok → b.relay_controller_out ≡ none)
    unfolding hand_over get_config AntennaSwitch.set_relay_controller
    initialize_full_cases =
        initialize_full-elim
          (λ b.
            let s = b.device.system in
            (b.result ≡ ok
              → (b.relay_controller_out ≡ some (connected d).1)
                × (s.switch.relay_controller ≡ some (connected d).1)
                × (s.cat.current_config ≡ get_config s.switch)
                × (ltb_ℤ (pos 0) (get_config s.switch).uart_baud_rate ≡ true))
            × (b.result ≢ ok → b.relay_controller_out ≡ none))
          (λ e bad. ((λ good. absurd (ground arith)), λ h. refl))
          (λ e w s p. elim (Bool-cases (is_ok e)) [
            | inl good ↦
                let (same, positive) = parser-Agrees platform platform.uart _ _ p good in
                rw good ((λ h. (refl, refl, same, positive)), λ h. absurd (h refl))
            | inr bad ↦ rw bad ((λ h. absurd (ground arith)), λ h. refl)
          ])

  -- If the network part of the initialisation has started the controller, its TCP task runs; if then
  -- FreeRTOS cannot create the task of the CAT parser, and the initialisation returns, it fails, and
  -- the controller on which that task runs is destroyed.
  pub destroyed_with_task :
      (d : Device W S C) (b : Booted platform)
      → initialize_full platform d ≡ some b
      → is_ok (AntennaSwitch.init platform.nvs d.system.switch).0 ≡ true
      → (connected d).1.tcp_tasks ≡ 1
      → ((w : W) → (platform.uart.task_create w).0 ≡ false)
      → (is_ok b.result ≡ false) × ((r : Relay C) × (b.destroyed ≡ some r) × (r.tcp_tasks ≡ 1))
  unfolding hand_over
  destroyed_with_task d b h started task_runs never = elim (Option-cases (parsing d)) [
    | inl gone ↦ absurd (cc (sym (full_aborted d started gone) ∙ h))
    | inr (x, p) ↦
        let lost = not_created platform platform.uart _ _ never p in
        subst
          (λ (t : Booted platform).
            (is_ok t.result ≡ false) × ((r : Relay C) × (t.destroyed ≡ some r) × (r.tcp_tasks ≡ 1)))
          (some-injective (sym (full_parsed d started p) ∙ h))
          (rw lost (lost, ((connected d).1, refl, task_runs)))
  ]
