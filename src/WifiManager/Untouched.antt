-- ===== src/WifiManager/Untouched.antt =====
-- What `WifiManager::init` leaves as it was: whatever of the world (`view`) the driver and the
-- event handlers leave alone.
use esp32_band_decoder.Base.{ℕ, take, ◌≡◌, ◌∙◌, true, arith, Bool-cases, inl, inr}
use esp32_band_decoder.Err.{Err, is_ok}
use esp32_band_decoder.Storage.{Storage, read_only}
use esp32_band_decoder.Text.{Bytes, c_str}
use esp32_band_decoder.WifiManager.Setup.{
  Driver, Registration, wifi_events, ip_events, smartconfig_events, Action, ◌>>◌, call, pause,
  create_event_group, create_event_loop, create_sta_netif, init_radio, connect_or_smartconfig, init,
}
use esp32_band_decoder.WifiManager.{
  Radio, WifiManager, connect_sta, load_credentials, start_smartconfig,
  try_connect_with_saved_credentials,
}

module _ {W V : Type 0} (view : W → V) where
  abbrev pub Keeps : {R : Type 0} → (W → R × W) → Type 0
  Keeps f = (w : W) → view (f w).1 ≡ view w

  pub record KeepsWifi (a : Action W) : Type 0 where
    pub kept : (m : WifiManager W) → view (a m).1.world ≡ view m.world

  pub record LeavesAlone (storage : Storage W) (radio : Radio W) (driver : Driver W) : Type 0 where
    pub nvs_open : Keeps (storage.nvs_open read_only)
    pub delay : (ms : ℕ) (w : W) → view (radio.delay ms w) ≡ view w
    pub wifi_connect : Keeps radio.wifi_connect
    pub wifi_set_config : (s p : Bytes) → Keeps (radio.wifi_set_config s p)
    pub event_group_create : Keeps driver.event_group_create
    pub netif_init : Keeps driver.netif_init
    pub event_loop_create_default : Keeps driver.event_loop_create_default
    pub netif_create_default_wifi_sta : Keeps driver.netif_create_default_wifi_sta
    pub wifi_init : Keeps driver.wifi_init
    pub wifi_set_storage : Keeps driver.wifi_set_storage
    pub wifi_set_mode : Keeps driver.wifi_set_mode
    pub handler_register : (r : Registration) → Keeps (driver.handler_register r)
    pub wifi_start : Keeps driver.wifi_start

  seq : {a b : Action W} → KeepsWifi a → KeepsWifi b → KeepsWifi (a >> b)
  unfolding ◌>>◌
  seq {a} {b} h k = record { kept = λ m. ground (arith, h.kept m, k.kept (a m).1) }

module _ {W V : Type 0} (view : W → V) (storage : Storage W) (radio : Radio W) (driver : Driver W)
    (alone : LeavesAlone view storage radio driver) where
  create_event_group-KeepsWifi : KeepsWifi view (create_event_group storage radio driver)
  unfolding create_event_group
  create_event_group-KeepsWifi = record {
    kept = λ m. ground (arith, alone.event_group_create m.world);
  }

  create_event_loop-KeepsWifi : KeepsWifi view (create_event_loop storage radio driver)
  unfolding create_event_loop
  create_event_loop-KeepsWifi = record {
    kept = λ m. ground (arith, alone.event_loop_create_default m.world);
  }

  create_sta_netif-KeepsWifi : KeepsWifi view (create_sta_netif storage radio driver)
  unfolding create_sta_netif
  create_sta_netif-KeepsWifi = record { kept = λ m. alone.netif_create_default_wifi_sta m.world }

  paused : (ms : ℕ) → KeepsWifi view (pause storage radio driver ms)
  unfolding pause
  paused ms = record { kept = λ m. alone.delay ms m.world }

  called : (f : W → Err × W) → Keeps view f → KeepsWifi view (call f)
  unfolding call
  called f h = record { kept = λ m. h m.world }

  init_radio-KeepsWifi : KeepsWifi view (init_radio storage radio driver)
  unfolding init_radio
  init_radio-KeepsWifi = seq view create_event_group-KeepsWifi (
      seq view (called _ alone.netif_init) (
        seq view (paused 100) (
          seq view create_event_loop-KeepsWifi (
            seq view (paused 100) (
              seq view create_sta_netif-KeepsWifi (
                seq view (paused 100) (
                  seq view (called _ alone.wifi_init) (
                    seq view (paused 100) (
                      seq view (called _ alone.wifi_set_storage) (
                        seq view (called _ alone.wifi_set_mode) (
                          seq view (called _ (alone.handler_register wifi_events)) (
                            seq view (called _ (alone.handler_register ip_events)) (
                              seq view (called _ (alone.handler_register smartconfig_events)) (
                                seq view (paused 100)
                                  (seq view (called _ alone.wifi_start) (paused 200))))))))))))))))

  load_credentials-Keeps : (m n : ℕ) → Keeps view (load_credentials storage m n)
  unfolding load_credentials
  load_credentials-Keeps m n w = ground (arith, alone.nvs_open w)

  connect_sta-kept :
      (s p : Bytes) (m : WifiManager W)
      → view (connect_sta storage radio s p m).1.world ≡ view m.world
  unfolding connect_sta
  connect_sta-kept s p m =
      let s' = take 31 (c_str s) in
      let p' = take 63 (c_str p) in
      ground (
        arith,
        alone.wifi_set_config s' p' m.world,
        alone.wifi_connect (radio.wifi_set_config s' p' m.world).1,
      )

  try_connect_with_saved_credentials-kept :
      (m : WifiManager W)
      → view (try_connect_with_saved_credentials storage radio m).1.world ≡ view m.world
  unfolding try_connect_with_saved_credentials
  try_connect_with_saved_credentials-kept m =
      let loaded = load_credentials storage 33 65 m.world in
      let kept = load_credentials-Keeps 33 65 m.world in
      elim (Bool-cases (is_ok (loaded.0).0)) [
        | inl found ↦ rw found (
            connect_sta-kept (loaded.0).1 (loaded.0).2
              (record m { world = loaded.1; using_saved_credentials = true })
            ∙ kept)
        | inr missing ↦ rw missing kept
      ]

  -- `init` leaves alone what the driver leaves alone, if the event handlers do.
  pub init-kept :
      (meanwhile : WifiManager W → WifiManager W)
      → ((m : WifiManager W) → view (meanwhile m).world ≡ view m.world)
      → (m : WifiManager W) → view (init storage radio driver meanwhile m).1.world ≡ view m.world
  unfolding init connect_or_smartconfig start_smartconfig
  init-kept meanwhile h m =
      let started = init_radio storage radio driver m in
      let later = meanwhile started.1 in
      ground (
        arith,
        init_radio-KeepsWifi.kept m,
        h started.1,
        try_connect_with_saved_credentials-kept later,
      )
