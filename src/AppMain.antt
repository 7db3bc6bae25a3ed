-- ===== src/AppMain.antt =====
-- main/main.cpp: `app_main`, from the first step of the boot to its main loop or to a restart. The
-- main loop only feeds the watchdog, so it is an outcome; the loops that wait for SmartConfig run
-- for a number of rounds that is an argument.
pub mod Restarts
pub mod Quiet
pub mod Aborts
pub mod Boots
use esp32_band_decoder.Base.{ℕ, zero, suc, Bool, true, false, Option, none, some, if◌then◌else◌}
use esp32_band_decoder.Err.{Err, fail, timeout, is_ok, is_fail}
use esp32_band_decoder.Relay.{Relay}
use esp32_band_decoder.RestartManager.{check_restart_count, clear_restart_count, store_error_state}
use esp32_band_decoder.SystemInitializer.{
  Platform, Device, with_world, initialize_basic, initialize_full,
}
use esp32_band_decoder.WifiManager.{is_connected, is_in_smartconfig_mode, start_smartconfig}

-- How far `app_main` has come. After `dangling` the antenna switch owns a deleted controller.
pub data Outcome (D : Type 0) : Type 0 where
  aborted : Outcome D
  dangling running waiting restarting : D → Outcome D

abbrev is_set : {A : Type 0} → Option A → Bool
is_set none = false
is_set (some x) = true

module _ {W S C : Type 0} (platform : Platform W S C) where
  open platform use {storage, others}

  -- `while (true)` until the station is connected, with this delay between the looks.
  unfoldable pub smartconfig_loop : ℕ → ℕ → Device W S C → Outcome (Device W S C)
  smartconfig_loop ms zero d = waiting d
  smartconfig_loop ms (suc rounds) d =
      let later = smartconfig_loop ms rounds (others ms d) in
      if is_connected d.wifi
      then restarting
          (others 1000 (with_world platform (clear_restart_count storage d.wifi.world) d))
      else later

  abbrev pub with_smartconfig : Device W S C → Device W S C
  with_smartconfig d = record d { wifi = (start_smartconfig d.wifi).1 }

  unfoldable pub smartconfig_handler : ℕ → Device W S C → Outcome (Device W S C)
  smartconfig_handler rounds d = smartconfig_loop 100 rounds (with_smartconfig d)

  -- `relay_controller` is deleted if it has been set.
  unfoldable pub error_handler : ℕ → Err → Option (Relay C) → Device W S C → Outcome (Device W S C)
  error_handler rounds ret relay_controller d =
      let d1 = with_world platform (store_error_state storage ret d.wifi.world) d in
      let checked = check_restart_count storage d1.wifi.world in
      let d2 = with_world platform checked.1 d1 in
      if is_set relay_controller
      then dangling d1
      else if is_fail checked.0
      then smartconfig_loop 1000 rounds (with_smartconfig d2)
      else restarting (others 5000 d2)

  -- `while (elapsed_ms < MAX_WIFI_WAIT_MS)`: `left` rounds of 100 milliseconds remain.
  unfoldable pub wait_for_wifi : ℕ → Device W S C → Device W S C
  wait_for_wifi zero d = d
  wait_for_wifi (suc left) d =
      let later = wait_for_wifi left (others 100 d) in if is_connected d.wifi then d else later

  unfoldable pub start_full : ℕ → Device W S C → Outcome (Device W S C)
  start_full rounds d = elim (initialize_full platform d) [
    | none ↦ aborted
    | some booted ↦
        if is_ok booted.result
        then running booted.device
        else error_handler rounds booted.result booted.relay_controller_out booted.device
  ]

  -- What follows `initialize_basic`.
  unfoldable pub start_network : ℕ → Device W S C → Outcome (Device W S C)
  start_network rounds d =
      let waited = wait_for_wifi 300 d in
      if is_connected d.wifi
      then start_full rounds d
      else if is_in_smartconfig_mode d.wifi
      then smartconfig_handler rounds d
      else if is_connected waited.wifi
      then start_full rounds waited
      else error_handler rounds timeout none waited

  unfoldable pub app_main : ℕ → Device W S C → Outcome (Device W S C)
  app_main rounds d = elim (initialize_basic platform d) [
    | none ↦ aborted
    | some (ret, d') ↦
        if is_ok ret then start_network rounds d' else error_handler rounds ret none d'
  ]
