-- ===== src/WifiManager/Setup.antt =====
-- `WifiManager::init` and the addresses that it reports. What the driver, the event loop and the
-- network interface do is the parameter `Driver`; the handlers run in other tasks, and what they do
-- while `init` waits after it has started the radio is its argument `meanwhile`.
use esp32_band_decoder.Base.{
  ℕ, ◌+◌, ◌-◌, ◌/◌, ◌%◌, Bool, false, ◌||◌, [], ◌∷◌, none, some, ltb, if◌then◌else◌, List,
}
use esp32_band_decoder.Err.{Err, ok, fail, no_mem, invalid_arg, is_ok, is_invalid_state}
use esp32_band_decoder.Storage.{Storage}
use esp32_band_decoder.Text.{Bytes, to_string}
use esp32_band_decoder.WifiManager.{
  Radio, WifiManager, start_smartconfig, try_connect_with_saved_credentials,
}

pub data Registration : Type 0 where
  wifi_events ip_events smartconfig_events : Registration

pub record Driver (W : Type 0) : Type 0 where
  pub event_group_create : W → Bool × W
  pub netif_init : W → Err × W
  pub event_loop_create_default : W → Err × W
  pub netif_create_default_wifi_sta : W → Bool × W
  pub wifi_init : W → Err × W
  pub wifi_set_storage : W → Err × W
  pub wifi_set_mode : W → Err × W
  pub handler_register : Registration → W → Err × W
  pub wifi_start : W → Err × W
  -- The four numbers of the address, and the six of the hardware address.
  pub netif_get_ip_info : W → Err × (ℕ × ℕ × ℕ × ℕ)
  pub wifi_get_mac : W → Err × List ℕ

-- A step of `init`; a chain of steps ends at the first that fails.
abbrev pub Action : Type 0 → Type 0
Action W = WifiManager W → Err × WifiManager W

infixr 5 ◌>>◌
unfoldable pub ◌>>◌ : {W : Type 0} → Action W → Action W → Action W
◌>>◌ first next m = let done = first m in if is_ok done.0 then next done.1 else done

unfoldable pub call : {W : Type 0} → (W → Err × W) → Action W
call f m = let done = f m.world in (done.0, record m { world = done.1 })

module _ {W : Type 0} (storage : Storage W) (radio : Radio W) (driver : Driver W) where
  open driver use {
    event_group_create, netif_init, event_loop_create_default, netif_create_default_wifi_sta,
    wifi_init, wifi_set_storage, wifi_set_mode, handler_register, wifi_start, netif_get_ip_info,
    wifi_get_mac,
  }

  unfoldable pub pause : ℕ → Action W
  pause ms m = (ok, record m { world = radio.delay ms m.world })

  -- An event group that is there is deleted first.
  unfoldable pub create_event_group : Action W
  create_event_group m =
      let made = event_group_create m.world in
      if made.0
      then (
        ok,
        record m {
          world = made.1;
          wifi_event_group = some (record { connected = false; failed = false; done = false });
        },
      )
      else (no_mem, record m { world = made.1; wifi_event_group = none })

  -- ESP_ERR_INVALID_STATE is a loop that exists.
  unfoldable pub create_event_loop : Action W
  create_event_loop m =
      let made = event_loop_create_default m.world in
      let m' = record m { world = made.1 } in
      if is_ok made.0 || is_invalid_state made.0 then (ok, m') else (made.0, m')

  unfoldable pub create_sta_netif : Action W
  create_sta_netif m =
      let made = netif_create_default_wifi_sta m.world in
      (if made.0 then ok else fail, record m { world = made.1; sta_netif = made.0 })

  -- `init` down to the start of the radio.
  unfoldable pub init_radio : Action W
  init_radio = do
    create_event_group
    call netif_init
    pause 100
    create_event_loop
    pause 100
    create_sta_netif
    pause 100
    call wifi_init
    pause 100
    call wifi_set_storage
    call wifi_set_mode
    call (handler_register wifi_events)
    call (handler_register ip_events)
    call (handler_register smartconfig_events)
    pause 100
    call wifi_start
    pause 200

  -- What `init` does once the radio has been started: saved credentials, or else SmartConfig.
  unfoldable pub connect_or_smartconfig : Action W
  connect_or_smartconfig m =
      let tried = try_connect_with_saved_credentials storage radio m in
      if is_ok tried.0 then (ok, tried.1) else start_smartconfig tried.1

  unfoldable pub init : (WifiManager W → WifiManager W) → Action W
  init meanwhile m =
      let started = init_radio m in
      if is_ok started.0 then connect_or_smartconfig (meanwhile started.1) else started

  -- The format "%d.%d.%d.%d".
  unfoldable pub ip_text : ℕ × ℕ × ℕ × ℕ → Bytes
  unfolding to_string
  ip_text (a, b, c, d) =
      to_string a (b'.' ∷ to_string b (b'.' ∷ to_string c (b'.' ∷ to_string d [])))

  -- `snprintf` writes the text into a buffer that holds it: sixteen bytes are asked for.
  unfoldable pub get_ip_info : ℕ → WifiManager W → Err × Bytes
  get_ip_info size m =
      let got = netif_get_ip_info m.world in
      if ltb size 16
      then (invalid_arg, [])
      else if is_ok got.0
      then (ok, ip_text got.1)
      else (got.0, [])

  -- One digit of "%02X".
  abbrev pub hex_digit : ℕ → ℕ
  hex_digit n = if ltb n 10 then b'0' + n else b'A' + n - 10

  unfoldable pub mac_text : List ℕ → Bytes
  mac_text [] = []
  mac_text (n ∷ []) = hex_digit (n / 16) ∷ hex_digit (n % 16) ∷ []
  mac_text (n ∷ m ∷ ms) = hex_digit (n / 16) ∷ hex_digit (n % 16) ∷ b':' ∷ mac_text (m ∷ ms)

  unfoldable pub get_mac_address : ℕ → WifiManager W → Err × Bytes
  get_mac_address size m =
      let got = wifi_get_mac m.world in
      if ltb size 18
      then (invalid_arg, [])
      else if is_ok got.0
      then (ok, mac_text got.1)
      else (got.0, [])
