-- ===== src/SystemInitializer.antt =====
-- main/system_initializer.cpp: the steps of a boot. What the firmware runs on is one record,
-- `Platform`: the libraries that the components use, and what happens while a task waits.
pub mod Full
pub mod Parsing
use esp32_band_decoder.AntennaSwitch
use esp32_band_decoder.AntennaSwitch.{Switch}
use esp32_band_decoder.Base.{
  ℕ, zero, suc, ◌+◌, Bool, true, false, not, ◌&&◌, ◌||◌, Option, none, some, ◌==◌, length,
  if◌then◌else◌,
}
use esp32_band_decoder.CatParser
use esp32_band_decoder.CatParser.{System, Uart}
use esp32_band_decoder.Config.{Config}
use esp32_band_decoder.ConfigManager.{Nvs}
use esp32_band_decoder.Err.{Err, ok, is_ok, is_invalid_state, is_nvs_not_found, is_nvs_unusable}
use esp32_band_decoder.Relay.Command
use esp32_band_decoder.Relay
use esp32_band_decoder.Relay.{Relay, Channel}
use esp32_band_decoder.Storage.{Storage}
use esp32_band_decoder.WifiManager.Setup
use esp32_band_decoder.WifiManager.Setup.{Driver}
use esp32_band_decoder.WifiManager.{Radio, WifiManager}

-- The singletons of the firmware.
pub record Device (W S C : Type 0) : Type 0 where
  pub wifi : WifiManager W
  pub system : System S C

pub record Platform (W S C : Type 0) : Type 0 where
  pub nvs : Nvs S
  pub channel : Channel C
  pub storage : Storage W
  pub radio : Radio W
  pub driver : Driver W
  pub nvs_flash_init : W → Err × W
  pub nvs_flash_erase : W → Err × W
  pub task_wdt_deinit : W → Err × W
  pub task_wdt_init : W → Err × W
  pub task_wdt_add : W → Err × W
  pub uart : Uart W
  -- A TCP client as it is constructed.
  pub new_tcp_client : W → C
  -- What the other tasks and the network do in so many milliseconds.
  pub others : ℕ → Device W S C → Device W S C
  -- What the event handlers do while `WifiManager::init` waits.
  pub events : WifiManager W → WifiManager W

-- A step of the boot; `none` is an abort. `ESP_RETURN_ON_ERROR` ends a chain at the first error.
abbrev pub Action : Type 0 → Type 0
Action D = D → Option (Err × D)

infixr 5 ◌>>◌
unfoldable pub ◌>>◌ : {D : Type 0} → Action D → Action D → Action D
◌>>◌ first second d = elim (first d) [
  | none ↦ none
  | some (e, d') ↦ if is_ok e then second d' else some (e, d')
]

module _ {W S C : Type 0} (platform : Platform W S C) where
  open platform use {
    nvs, channel, storage, radio, driver, nvs_flash_init, nvs_flash_erase, task_wdt_deinit,
    task_wdt_init, task_wdt_add, uart, new_tcp_client, others, events,
  }

  abbrev pub with_world : W → Device W S C → Device W S C
  with_world w d = record d { wifi = record (d.wifi) { world = w } }

  unfoldable pub call : (W → Err × W) → Action (Device W S C)
  call f d = let done = f d.wifi.world in some (done.0, with_world done.1 d)

  unfoldable pub wait : ℕ → Action (Device W S C)
  wait ms d = some (ok, others ms d)

  unfoldable pub is_valid_ip : Device W S C → Bool
  is_valid_ip d =
      let got = driver.netif_get_ip_info d.wifi.world in
      let (a, b, c, e) = got.1 in is_ok got.0 && not (a == 0 && b == 0 && c == 0 && e == 0)

  -- A failing erase aborts.
  unfoldable pub init_nvs : Action (Device W S C)
  init_nvs d =
      let started = nvs_flash_init d.wifi.world in
      let erased = nvs_flash_erase started.1 in
      let again = nvs_flash_init erased.1 in
      if is_nvs_unusable started.0
      then (if is_ok erased.0 then some (again.0, with_world again.1 d) else none)
      else some (started.0, with_world started.1 d)

  -- A watchdog that runs already is ESP_ERR_INVALID_STATE; what the stop of an old one returns is
  -- not looked at.
  unfoldable pub init_task_watchdog : Action (Device W S C)
  init_task_watchdog d =
      let d1 = others 100 (with_world (task_wdt_deinit d.wifi.world).1 d) in
      let made = task_wdt_init d1.wifi.world in
      let d2 = others 100 (with_world made.1 d1) in
      let added = task_wdt_add d2.wifi.world in
      if is_ok made.0 || is_invalid_state made.0
      then some (added.0, with_world added.1 d2)
      else some (made.0, with_world made.1 d1)

  -- ESP_ERR_NVS_NOT_FOUND is not an error here.
  unfoldable pub init_wifi : Action (Device W S C)
  init_wifi d =
      let started = Setup.init storage radio driver events d.wifi in
      some (if is_nvs_not_found started.0 then ok else started.0, record d { wifi = started.1 })

  unfoldable pub initialize_basic : Action (Device W S C)
  initialize_basic = do
    init_nvs
    wait 100
    call driver.event_loop_create_default
    wait 100
    init_wifi
    wait 100
    init_task_watchdog

  -- The controller belongs to the boot until it is handed over, so waiting is for both.
  abbrev pub sleep : ℕ → Device W S C × Relay C → Device W S C × Relay C
  sleep ms (d, r) = (others ms d, record r { tcp_client = channel.delay ms r.tcp_client })

  -- `while (!is_valid_ip() && waited_ms < MAX_IP_WAIT_MS)`: `left` rounds of half a second remain.
  unfoldable pub wait_for_ip : ℕ → Device W S C × Relay C → Device W S C × Relay C
  wait_for_ip zero (d, r) = (d, r)
  wait_for_ip (suc left) (d, r) =
      let waited = wait_for_ip left (sleep 500 (d, r)) in if is_valid_ip d then (d, r) else waited

  -- The network part of `initialize_full`. What the controller's `init` returns is only logged.
  unfoldable pub connect_controller : Config → Device W S C → Device W S C × Relay C
  connect_controller config d =
      let client = new_tcp_client d.wifi.world in
      let made = Relay.new client (channel.now client) in
      let told = Relay.set_tcp_port config.tcp_port (Relay.set_tcp_host config.tcp_host made) in
      let waited = wait_for_ip 60 (d, told) in
      let settled = sleep 2000 waited in
      if length config.tcp_host == 0
      then (d, made)
      else if is_valid_ip waited.0
      then (settled.0, (Command.init channel settled.1).1)
      else waited

  -- The result, the device, and the controller while `unique_ptr` still owns it: that is when an
  -- error returns, and it is destroyed then.
  pub record Booted : Type 0 where
    pub result : Err
    pub device : Device W S C
    pub destroyed : Option (Relay C)
    -- The object that the caller's pointer points to, if it has been set.
    pub relay_controller_out : Option (Relay C)

  -- What follows `cat_parser_init`.
  unfoldable pub hand_over : Relay C → Err → Device W S C → Booted
  hand_over controller e d =
      if is_ok e
      then record {
        result = ok;
        device = record d {
          system = record (d.system) {
            switch = AntennaSwitch.set_relay_controller controller d.system.switch;
          };
        };
        destroyed = none;
        relay_controller_out = some controller;
      }
      else record {
        result = e;
        device = d;
        destroyed = some controller;
        relay_controller_out = none;
      }

  -- `none` is an abort of `CatParser::init`.
  unfoldable pub initialize_full : Device W S C → Option Booted
  unfolding hand_over
  initialize_full d =
      let started = AntennaSwitch.init nvs d.system.switch in
      let d1 : Device W S C = record d { system = record (d.system) { switch = started.1 } } in
      let (d2, controller) = connect_controller (AntennaSwitch.get_config started.1) d1 in
      if is_ok started.0
      then elim (CatParser.init nvs uart d2.wifi.world d2.system) [
        | none ↦ none
        | some (e, w, s) ↦ some (hand_over controller e (record (with_world w d2) { system = s }))
      ]
      else some (record {
        result = started.0;
        device = d1;
        destroyed = none;
        relay_controller_out = none;
      })
