-- ===== src/AppMain/Quiet.antt =====
-- The restart counter through the steps of a boot that have nothing to do with it.
use esp32_band_decoder.AppMain.Restarts.{remembered, IsUndisturbed}
use esp32_band_decoder.AppMain.{wait_for_wifi}
use esp32_band_decoder.Base.{
  ℕ, zero, suc, ◌≡◌, refl, ◌∙◌, ℤ, true, false, some, ◌||◌, arith, Bool-cases, inl, inr,
}
use esp32_band_decoder.Config.{Config}
use esp32_band_decoder.Err.{Err, ok, is_ok, is_invalid_state, is_nvs_unusable}
use esp32_band_decoder.Relay
use esp32_band_decoder.Relay.{Relay}
use esp32_band_decoder.Storage.{KeepsCount}
use esp32_band_decoder.SystemInitializer.{
  Platform, Device, Action, ◌>>◌, with_world, call, wait, init_nvs, init_task_watchdog, init_wifi,
  initialize_basic, connect_controller, sleep, wait_for_ip,
}
use esp32_band_decoder.WifiManager.Untouched.{Keeps, LeavesAlone, init-kept}
use esp32_band_decoder.WifiManager.{WifiManager}

module _ {D : Type 0} (a b : Action D) (d : D) {e : Err} {d' : D} where
  seq_ok : a d ≡ some (e, d') → is_ok e ≡ true → (a >> b) d ≡ b d'
  unfolding ◌>>◌
  seq_ok done good = ground (arith, done, good)

  seq_error : a d ≡ some (e, d') → is_ok e ≡ false → (a >> b) d ≡ some (e, d')
  unfolding ◌>>◌
  seq_error done bad = ground (arith, done, bad)

module _ {W S C : Type 0} (platform : Platform W S C) (keeps : KeepsCount platform.storage) where
  open platform use {storage, radio, driver}

  -- The drivers and the other tasks leave the counter alone, and the flash need not be erased.
  pub record IsQuiet : Type 0 where
    pub undisturbed : IsUndisturbed platform keeps
    pub events : (m : WifiManager W) → keeps.count (platform.events m).world ≡ keeps.count m.world
    pub drivers : LeavesAlone keeps.count storage radio driver
    pub usable : (w : W) → is_nvs_unusable (platform.nvs_flash_init w).0 ≡ false
    pub nvs_flash_init : Keeps keeps.count platform.nvs_flash_init
    pub task_wdt_deinit : Keeps keeps.count platform.task_wdt_deinit
    pub task_wdt_init : Keeps keeps.count platform.task_wdt_init
    pub task_wdt_add : Keeps keeps.count platform.task_wdt_add
    pub uart_param_config :
        (baud_rate : ℤ) (parity stop_bits flow_ctrl : ℕ)
        → Keeps keeps.count (platform.uart.uart_param_config baud_rate parity stop_bits flow_ctrl)
    pub uart_set_pin : Keeps keeps.count platform.uart.uart_set_pin
    pub uart_driver_install : Keeps keeps.count platform.uart.uart_driver_install
    pub task_create : (w : W) → keeps.count (platform.uart.task_create w).1 ≡ keeps.count w

  -- A step that does not abort, and keeps the counter.
  pub record KeepsCounter (a : Action (Device W S C)) : Type 0 where
    pub kept :
        (d : Device W S C)
        → (e : Err) × (d' : Device W S C) × (a d ≡ some (e, d'))
          × (remembered platform keeps d' ≡ remembered platform keeps d)

  seq : {a b : Action (Device W S C)} → KeepsCounter a → KeepsCounter b → KeepsCounter (a >> b)
  seq {a} {b} h k = record {
    kept = λ d.
        let (e, d', done, same) = h.kept d in
        let (e', d'', done', same') = k.kept d' in
        elim (Bool-cases (is_ok e)) [
          | inl good ↦ (e', d'', seq_ok a b d done good ∙ done', same' ∙ same)
          | inr bad ↦ (e, d', seq_error a b d done bad, same)
        ];
  }

  module _ (quiet : IsQuiet) where
    waited : (ms : ℕ) → KeepsCounter (wait platform ms)
    unfolding wait
    waited ms = record { kept = λ d. (ok, platform.others ms d, refl, quiet.undisturbed ms d) }

    called : (f : W → Err × W) → Keeps keeps.count f → KeepsCounter (call platform f)
    unfolding call
    called f h = record {
      kept = λ d.
          let done = f d.wifi.world in (done.0, with_world platform done.1 d, refl, h d.wifi.world);
    }

    init_nvs-KeepsCounter : KeepsCounter (init_nvs platform)
    unfolding init_nvs
    init_nvs-KeepsCounter = record {
      kept = λ d.
          let w = d.wifi.world in
          let started = platform.nvs_flash_init w in
          rw (quiet.usable w)
            (started.0, with_world platform started.1 d, refl, quiet.nvs_flash_init w);
    }

    init_wifi-KeepsCounter : KeepsCounter (init_wifi platform)
    unfolding init_wifi
    init_wifi-KeepsCounter = record {
      kept = λ d. (
        _,
        _,
        refl,
        init-kept keeps.count storage radio driver quiet.drivers platform.events quiet.events
            d.wifi,
      );
    }

    init_task_watchdog-KeepsCounter : KeepsCounter (init_task_watchdog platform)
    unfolding init_task_watchdog
    init_task_watchdog-KeepsCounter = record {
      kept = λ d.
          let stopped = platform.task_wdt_deinit d.wifi.world in
          let d1 = platform.others 100 (with_world platform stopped.1 d) in
          let made = platform.task_wdt_init d1.wifi.world in
          let d2 = platform.others 100 (with_world platform made.1 d1) in
          let added = platform.task_wdt_add d2.wifi.world in
          let same =
            quiet.task_wdt_init d1.wifi.world
            ∙ quiet.undisturbed 100 (with_world platform stopped.1 d)
            ∙ quiet.task_wdt_deinit d.wifi.world in
          elim (Bool-cases (is_ok made.0 || is_invalid_state made.0)) [
            | inl good ↦ rw good (
              added.0,
              with_world platform added.1 d2,
              refl,
              quiet.task_wdt_add d2.wifi.world
                  ∙ quiet.undisturbed 100 (with_world platform made.1 d1)
                  ∙ same,
            )
            | inr bad ↦ rw bad (made.0, with_world platform made.1 d1, refl, same)
          ];
    }

    pub initialize_basic-KeepsCounter : KeepsCounter (initialize_basic platform)
    unfolding initialize_basic
    initialize_basic-KeepsCounter = seq init_nvs-KeepsCounter (
        seq (waited 100) (
          seq (called _ quiet.drivers.event_loop_create_default) (
            seq (waited 100)
              (seq init_wifi-KeepsCounter (seq (waited 100) init_task_watchdog-KeepsCounter)))))

    wait_for_ip-kept :
        (left : ℕ) (d : Device W S C) (r : Relay C)
        → remembered platform keeps (wait_for_ip platform left (d, r)).0
          ≡ remembered platform keeps d
    unfolding wait_for_ip
    wait_for_ip-kept zero d r = refl
    wait_for_ip-kept (suc left) d r =
        let (d', r') = sleep platform 500 (d, r) in
        ground (arith, wait_for_ip-kept left d' r', quiet.undisturbed 500 d)

    pub connect_controller-kept :
        (c : Config) (d : Device W S C)
        → remembered platform keeps (connect_controller platform c d).0
          ≡ remembered platform keeps d
    unfolding connect_controller
    connect_controller-kept c d =
        let client = platform.new_tcp_client d.wifi.world in
        let made = Relay.new client (platform.channel.now client) in
        let told = Relay.set_tcp_port c.tcp_port (Relay.set_tcp_host c.tcp_host made) in
        let (d', r') = wait_for_ip platform 60 (d, told) in
        let same = wait_for_ip-kept 60 d told in ground (arith, same, quiet.undisturbed 2000 d')

    pub wait_for_wifi-kept :
        (left : ℕ) (d : Device W S C)
        → remembered platform keeps (wait_for_wifi platform left d) ≡ remembered platform keeps d
    unfolding wait_for_wifi
    wait_for_wifi-kept zero d = refl
    wait_for_wifi-kept (suc left) d =
        ground (arith, wait_for_wifi-kept left (platform.others 100 d), quiet.undisturbed 100 d)
