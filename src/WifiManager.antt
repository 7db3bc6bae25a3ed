-- ===== src/WifiManager.antt =====
-- main/wifi_manager.hpp and wifi_manager.cpp: the station, its events, and the stored credentials.
-- The Wi-Fi driver, FreeRTOS and the SmartConfig library are the parameter `Radio`, and the flash is
-- `Storage`; both work on a world `W`. The web server that the event handler starts is a function
-- of the interface, which WebServer gives.
pub mod Setup
pub mod Credentials
pub mod Reachable
pub mod Untouched
use esp32_band_decoder.Base.{
  ℕ, ◌+◌, Bool, true, false, not, ◌||◌, [], ◌∷◌, ◌++◌, Option, none, some, ltb, if◌then◌else◌, take,
}
use esp32_band_decoder.Err.{
  Err, ok, fail, invalid_state, timeout, nvs_invalid_length, is_ok, is_nvs_not_found,
}
use esp32_band_decoder.Storage.{Storage, read_only, read_write, wifi_ssid, wifi_password}
use esp32_band_decoder.Text.{Bytes, c_str}

pub record Radio (W : Type 0) : Type 0 where
  pub wifi_connect : W → Err × W
  pub wifi_disconnect : W → Err × W
  -- The name and the password of the network.
  pub wifi_set_config : Bytes → Bytes → W → Err × W
  pub smartconfig_stop : W → W
  pub smartconfig_set_type : W → Err × W
  pub smartconfig_start : W → Err × W
  pub webserver_start : W → Err × W
  pub delay : ℕ → W → W

-- WIFI_CONNECTED_BIT, WIFI_FAIL_BIT and ESPTOUCH_DONE_BIT, which is SMARTCONFIG_DONE_BIT too.
pub record EventBits : Type 0 where
  pub connected : Bool
  pub failed : Bool
  pub done : Bool

pub record WifiManager (W : Type 0) : Type 0 where
  pub world : W
  -- `none` is the null handle.
  pub wifi_event_group : Option EventBits
  pub sta_netif : Bool
  pub wifi_connected : Bool
  pub ip_obtained : Bool
  pub using_saved_credentials : Bool
  -- How many SmartConfig tasks have been started.
  pub smartconfig_tasks : ℕ

pub data Event : Type 0 where
  sta_start sta_disconnected sta_connected got_ip : Event
  scan_done found_channel send_ack_done : Event
  -- The 32 bytes and the 64 bytes that SmartConfig received.
  got_ssid_pswd : Bytes → Bytes → Event
  other_event : Event

abbrev pub map_bits : (EventBits → EventBits) → Option EventBits → Option EventBits
map_bits f none = none
map_bits f (some bits) = some (f bits)

abbrev pub is_connected_bit : Option EventBits → Bool
is_connected_bit none = false
is_connected_bit (some b) = b.connected

module _ {W : Type 0} where
  unfoldable pub is_connected : WifiManager W → Bool
  is_connected m = m.wifi_connected

  unfoldable pub is_in_smartconfig_mode : WifiManager W → Bool
  is_in_smartconfig_mode m = not m.using_saved_credentials

  -- The event handler starts the task when the station starts, not this function.
  unfoldable pub start_smartconfig : WifiManager W → Err × WifiManager W
  start_smartconfig m = (ok, record m { using_saved_credentials = false })

  -- The argument is the manager as it is when `xEventGroupWaitBits` returns: at once when a bit is
  -- set, and at the latest when the time is up.
  unfoldable pub wait_for_connection : WifiManager W → Err
  wait_for_connection m = elim m.wifi_event_group [
    | none ↦ invalid_state
    | some bits ↦ if bits.connected then ok else if bits.failed then fail else timeout
  ]

-- `err != ESP_OK && err != ESP_ERR_NVS_NOT_FOUND`.
abbrev pub erase_failed : Err → Bool
erase_failed e = not (is_ok e || is_nvs_not_found e)

module _ {W : Type 0} (storage : Storage W) where
  open storage use {nvs_open, nvs_set_str, nvs_str_size, nvs_get_str, nvs_erase_key, nvs_commit}

  unfoldable pub save_credentials : Bytes → Bytes → W → Err × W
  save_credentials ssid password w =
      let opened = nvs_open read_write w in
      let named = nvs_set_str wifi_ssid ssid opened.1 in
      let set = nvs_set_str wifi_password password named.1 in
      if is_ok opened.0
      then (if is_ok named.0 then (if is_ok set.0 then nvs_commit set.1 else set) else named)
      else opened

  -- One of the two reads of `load_credentials`, into a zeroed buffer of `size` bytes.
  abbrev pub read_str : Bool → ℕ → W → Err × Bytes
  read_str ssid size w =
      let key = if ssid then wifi_ssid else wifi_password in
      let required = nvs_str_size key w in
      if is_ok required.0
      then (if ltb size required.1 then (nvs_invalid_length, []) else nvs_get_str key [] size w)
      else (required.0, [])

  unfoldable pub load_credentials : ℕ → ℕ → W → (Err × Bytes × Bytes) × W
  load_credentials ssid_size password_size w =
      let opened = nvs_open read_only w in
      let ssid = read_str true ssid_size opened.1 in
      let password = read_str false password_size opened.1 in
      if is_ok opened.0
      then (if is_ok ssid.0
          then ((password.0, ssid.1, password.1), opened.1)
          else ((ssid.0, ssid.1, []), opened.1))
      else ((opened.0, [], []), opened.1)

  unfoldable pub clear_credentials : W → Err × W
  clear_credentials w =
      let opened = nvs_open read_write w in
      let named = nvs_erase_key wifi_ssid opened.1 in
      let erased = nvs_erase_key wifi_password named.1 in
      if is_ok opened.0
      then (if erase_failed named.0
          then named
          else if erase_failed erased.0
          then erased
          else nvs_commit erased.1)
      else opened

-- `reinterpret_cast<const char *>(wifi_config.sta.ssid)`: the password stands behind the name, and
-- the rest of the zeroed structure behind that.
abbrev pub sta_ssid : Bytes → Bytes → Bytes
sta_ssid ssid password = c_str (ssid ++ (password ++ 0 ∷ []))

abbrev pub sta_password : Bytes → Bytes
sta_password password = c_str (password ++ 0 ∷ [])

module _ {W : Type 0} (storage : Storage W) (radio : Radio W) where
  open radio use {
    wifi_connect, wifi_disconnect, wifi_set_config, smartconfig_stop, smartconfig_set_type,
    smartconfig_start, webserver_start, delay,
  }

  unfoldable pub connect_sta : Bytes → Bytes → WifiManager W → Err × WifiManager W
  connect_sta ssid password m =
      let set = wifi_set_config (take 31 (c_str ssid)) (take 63 (c_str password)) m.world in
      let asked = wifi_connect set.1 in
      if is_ok set.0
      then (asked.0, record m { world = asked.1 })
      else (set.0, record m { world = set.1 })

  unfoldable pub disconnect : WifiManager W → Err × WifiManager W
  disconnect m = let left = wifi_disconnect m.world in (left.0, record m { world = left.1 })

  -- SmartConfig has the name and the password: they are saved, and the station connects anew. The
  -- driver calls are checked: `none` is an abort. What the check of the saved name finds is logged.
  unfoldable pub provision : Bytes → Bytes → WifiManager W → Option (WifiManager W)
  provision ssid password m =
      let saved =
        save_credentials storage (sta_ssid ssid password) (sta_password password) m.world in
      let w = if is_ok saved.0 then (load_credentials storage 33 65 saved.1).1 else saved.1 in
      let left = wifi_disconnect w in
      let set = wifi_set_config ssid password left.1 in
      let asked = wifi_connect set.1 in
      if is_ok left.0
      then (if is_ok set.0
          then (if is_ok asked.0 then some (record m { world = asked.1 }) else none)
          else none)
      else none

  unfoldable pub event_handler : Event → WifiManager W → Option (WifiManager W)
  event_handler sta_start m =
      if not m.using_saved_credentials
      then some (record m { smartconfig_tasks = m.smartconfig_tasks + 1 })
      else some m
  event_handler sta_disconnected m = some (record m {
    using_saved_credentials = false;
    wifi_connected = false;
    ip_obtained = false;
    world = (wifi_connect m.world).1;
    wifi_event_group =
        map_bits (λ b. record b { connected = false; failed = true }) m.wifi_event_group;
  })
  event_handler sta_connected m = some (record m { wifi_connected = true })
  event_handler got_ip m = some (record m {
    ip_obtained = true;
    wifi_connected = true;
    wifi_event_group =
        map_bits (λ b. record b { failed = false; connected = true }) m.wifi_event_group;
    using_saved_credentials = true;
    world = (webserver_start (delay 100 (smartconfig_stop m.world))).1;
  })
  event_handler (got_ssid_pswd ssid password) m = provision ssid password m
  event_handler send_ack_done m =
      some (record m {
        wifi_event_group = map_bits (λ b. record b { done = true }) m.wifi_event_group;
      })
  event_handler scan_done m = some m
  event_handler found_channel m = some m
  event_handler other_event m = some m

  -- `smartconfig_task` after its first wait, down to its loop: whether it goes on to the loop.
  unfoldable pub smartconfig_begin : WifiManager W → Bool × WifiManager W
  smartconfig_begin m =
      let set = smartconfig_set_type (delay 100 (smartconfig_stop m.world)) in
      let started = smartconfig_start set.1 in
      if is_connected_bit m.wifi_event_group
      then (false, m)
      else if is_ok set.0
      then (is_ok started.0, record m { world = started.1 })
      else (false, record m { world = set.1 })

  -- One round of its loop: a bit that ends the wait is cleared. Whether the loop goes on.
  unfoldable pub smartconfig_poll : WifiManager W → Bool × WifiManager W
  smartconfig_poll m = elim m.wifi_event_group [
    | none ↦ (true, m)
    | some b ↦
        if b.connected || b.done
        then (
          false,
          record m {
            wifi_event_group = some (record b { connected = false; done = false });
            world = smartconfig_stop (smartconfig_stop m.world);
          },
        )
        else (true, m)
  ]

  unfoldable pub try_connect_with_saved_credentials : WifiManager W → Err × WifiManager W
  try_connect_with_saved_credentials m =
      let loaded = load_credentials storage 33 65 m.world in
      let m1 = record m { world = loaded.1; using_saved_credentials = true } in
      if is_ok (loaded.0).0
      then connect_sta (loaded.0).1 (loaded.0).2 m1
      else ((loaded.0).0, record m { world = loaded.1 })
