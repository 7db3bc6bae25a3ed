-- ===== src/Tests/Boot.antt =====
-- Boots of a device whose flash works, and of one whose flash cannot be initialised.
use esp32_band_decoder.AntennaSwitch
use esp32_band_decoder.AntennaSwitch.{get_config}
use esp32_band_decoder.AppMain
use esp32_band_decoder.AppMain.Boots.{IsAllowed, app_main-IsAllowed, restarts_bounded}
use esp32_band_decoder.AppMain.Quiet.{IsQuiet}
use esp32_band_decoder.AppMain.Restarts.{IsProvisioned}
use esp32_band_decoder.AppMain.{app_main, restarting}
use esp32_band_decoder.Base.{ℕ, ◌≡◌, ◌⊎◌, refl, true, Option, some, arith, pos, ltb_ℤ}
use esp32_band_decoder.CatParser
use esp32_band_decoder.CatParser.{System}
use esp32_band_decoder.Config.{Config}
use esp32_band_decoder.ConfigManager
use esp32_band_decoder.Err.{ok, fail}
use esp32_band_decoder.RestartManager
use esp32_band_decoder.SystemInitializer
use esp32_band_decoder.SystemInitializer.Full.{connected, initialize_full_cases}
use esp32_band_decoder.SystemInitializer.{
  Platform, Device, Booted, with_world, hand_over, initialize_full, connect_controller,
}
use esp32_band_decoder.Tests.Network.{Flash, flash, flash-KeepsCount, radio, driver, blank}
use esp32_band_decoder.Tests.{ram, board, system}
use esp32_band_decoder.WifiManager
use esp32_band_decoder.WifiManager.Reachable.{constructed}
use esp32_band_decoder.WifiManager.{WifiManager, is_connected}

-- Nothing happens while a task waits.
abbrev pub platform : Platform Flash (Option Config) ℕ
platform = record {
  nvs = ram;
  channel = board;
  storage = flash;
  radio = radio;
  driver = driver;
  nvs_flash_init = λ w. (ok, w);
  nvs_flash_erase = λ w. (ok, w);
  task_wdt_deinit = λ w. (ok, w);
  task_wdt_init = λ w. (ok, w);
  task_wdt_add = λ w. (ok, w);
  uart = record {
    uart_param_config = λ b p s f w. (ok, w);
    uart_set_pin = λ w. (ok, w);
    uart_driver_install = λ w. (ok, w);
    task_create = λ w. (true, w);
  };
  new_tcp_client = λ w. 0;
  others = λ ms d. d;
  events = λ m. m;
}

abbrev broken : Platform Flash (Option Config) ℕ
broken = record platform { nvs_flash_init = λ w. (fail, w) }

-- A device whose station is connected.
abbrev pub device : ℕ → Device Flash (Option Config) ℕ
device n = record {
  wifi = record (constructed (record blank { restarts = some n })) { wifi_connected = true };
  system = system;
}

broken-IsQuiet : IsQuiet broken flash-KeepsCount
broken-IsQuiet = record {
  undisturbed = λ ms d. refl;
  events = λ m. refl;
  drivers = record {
    nvs_open = λ w. refl;
    delay = λ ms w. refl;
    wifi_connect = λ w. refl;
    wifi_set_config = λ s p w. refl;
    event_group_create = λ w. refl;
    netif_init = λ w. refl;
    event_loop_create_default = λ w. refl;
    netif_create_default_wifi_sta = λ w. refl;
    wifi_init = λ w. refl;
    wifi_set_storage = λ w. refl;
    wifi_set_mode = λ w. refl;
    handler_register = λ r w. refl;
    wifi_start = λ w. refl;
  };
  usable = λ w. refl;
  nvs_flash_init = λ w. refl;
  task_wdt_deinit = λ w. refl;
  task_wdt_init = λ w. refl;
  task_wdt_add = λ w. refl;
  uart_param_config = λ b p s f w. refl;
  uart_set_pin = λ w. refl;
  uart_driver_install = λ w. refl;
  task_create = λ w. refl;
}

-- Two failing boots restart, and after the third the device was connected and the counter cleared.
boot_one : app_main broken 1 (device 0) ≡ restarting (device 1)
unfolding app_main SystemInitializer.initialize_basic SystemInitializer.◌>>◌
    SystemInitializer.init_nvs AppMain.error_handler RestartManager.check_restart_count
    RestartManager.store_error_state
boot_one = refl

boot_two : app_main broken 1 (device 1) ≡ restarting (device 2)
unfolding app_main SystemInitializer.initialize_basic SystemInitializer.◌>>◌
    SystemInitializer.init_nvs AppMain.error_handler RestartManager.check_restart_count
    RestartManager.store_error_state
boot_two = refl

boot_three : app_main broken 1 (device 2) ≡ restarting (device 0)
unfolding app_main SystemInitializer.initialize_basic SystemInitializer.◌>>◌
    SystemInitializer.init_nvs AppMain.error_handler AppMain.smartconfig_loop is_connected
    RestartManager.check_restart_count RestartManager.clear_restart_count
    RestartManager.store_error_state WifiManager.start_smartconfig
boot_three = refl

app_main-IsAllowed_example :
    IsAllowed broken flash-KeepsCount (device 1) (app_main broken 1 (device 1))
app_main-IsAllowed_example =
    app_main-IsAllowed broken flash-KeepsCount broken-IsQuiet (device 1) 1 (omega arith)

restarts_bounded_example :
    IsProvisioned broken flash-KeepsCount (device 1)
    ⊎ (IsProvisioned broken flash-KeepsCount (device 2)
        ⊎ IsProvisioned broken flash-KeepsCount (device 0))
restarts_bounded_example =
    restarts_bounded broken flash-KeepsCount broken-IsQuiet 1 1 1 (device 0) (device 1) (device 2)
      (device 1) (device 2) (device 0) (omega arith) boot_one refl boot_two refl boot_three

-- What the full initialisation leaves, when the configuration has a good baud rate.
abbrev parsed : Device Flash (Option Config) ℕ → System (Option Config) ℕ
parsed d =
    let s = (connected platform d).0.system in
    record s { cat = record (s.cat) { current_config = get_config s.switch } }

abbrev pub booted : Device Flash (Option Config) ℕ → Booted platform
booted d =
    hand_over platform (connected platform d).1 ok
      (record ((connected platform d).0) { system = parsed d })

-- On flash without a configuration, with an address at once.
device_boots : initialize_full platform (device 0) ≡ some (booted (device 0))
unfolding initialize_full AntennaSwitch.init AntennaSwitch.set_config ConfigManager.init
    ConfigManager.load_from_nvs ConfigManager.save_to_nvs ConfigManager.validate_host
    ConfigManager.update_config CatParser.init CatParser.with_uart CatParser.start_uart
    CatParser.error_check get_config connect_controller SystemInitializer.is_valid_ip
    SystemInitializer.wait_for_ip
device_boots = refl

device_started : (booted (device 0)).result ≡ ok
unfolding hand_over
device_started = refl

initialize_full_cases_example :
    let b = booted (device 0) in
    let s = b.device.system in
    (b.relay_controller_out ≡ some (connected platform (device 0)).1)
    × (s.switch.relay_controller ≡ some (connected platform (device 0)).1)
    × (s.cat.current_config ≡ get_config s.switch)
    × (ltb_ℤ (pos 0) (get_config s.switch).uart_baud_rate ≡ true)
initialize_full_cases_example =
    (initialize_full_cases platform (device 0) (booted (device 0)) device_boots).0 device_started
