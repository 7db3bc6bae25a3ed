-- ===== src/AntennaSwitch/Settings.antt =====
-- What the setters of the antenna switch lead to: no switching out of automatic mode, and what a
-- change of the host does to the controller and its task.
use esp32_band_decoder.AntennaSwitch.Selection.{set_frequency_quiet}
use esp32_band_decoder.AntennaSwitch.{Switch, set_frequency, set_auto_mode, set_tcp_host, reconnect}
use esp32_band_decoder.Base.{ℕ, ◌+◌, ◌≡◌, ◌≢◌, ap, false, some, arith, inl}
use esp32_band_decoder.Config.{Config, IsValid}
use esp32_band_decoder.ConfigManager.Update.{update_config_cases}
use esp32_band_decoder.ConfigManager.{Nvs}
use esp32_band_decoder.Err.{ok}
use esp32_band_decoder.Relay
use esp32_band_decoder.Relay.Command.Tasks.{init-tasks}
use esp32_band_decoder.Relay.{Relay, Channel}
use esp32_band_decoder.Text.{Bytes, c_str}

module _ {C : Type 0} (channel : Channel C) where
  reconnect-tasks :
      (host : Bytes) (r : Relay C)
      → (reconnect channel host r).0 ≡ ok
      → (reconnect channel host r).1.tcp_tasks ≡ r.tcp_tasks + 1
  unfolding reconnect Relay.set_tcp_host
  reconnect-tasks host r h =
      let told = Relay.set_tcp_host host r in
      init-tasks channel (record told { tcp_client = channel.delay 100 told.tcp_client }) h

module _ {S C : Type 0} (nvs : Nvs S) (channel : Channel C) (sw : Switch S C) where
  -- With a relay controller that can connect again, a host change adds one to the TCP tasks that
  -- run on it. With one that cannot, its error is the result and the configuration manager is as
  -- it was.
  pub set_tcp_host_cases :
      (host : Bytes) (r : Relay C)
      → sw.relay_controller ≡ some r
      → let again = reconnect channel (c_str host) r in
        let done = set_tcp_host nvs channel (some host) sw in
        (again.0 ≡ ok
          → (t : Relay C) × (done.1.relay_controller ≡ some t) × (t.tcp_tasks ≡ r.tcp_tasks + 1))
        × (again.0 ≢ ok → (done.0 ≡ again.0) × (done.1.manager ≡ sw.manager))
  unfolding set_tcp_host
  set_tcp_host_cases host r set =
      let again = reconnect channel (c_str host) r in
      ((λ h. (again.1, ground arith, reconnect-tasks channel (c_str host) r h)), λ h. ground arith)

module _ {S C : Type 0} (nvs : Nvs S) (sw : Switch S C) where
  -- Once automatic mode is switched off on a valid configuration, no frequency leads to a request
  -- or changes anything, also when saving the configuration failed.
  pub set_auto_mode-set_frequency :
      (freq : ℕ)
      → IsValid sw.manager.current_config
      → let off = (set_auto_mode nvs false sw).1 in set_frequency freq off ≡ some (ok, off)
  unfolding set_auto_mode
  set_auto_mode-set_frequency freq v =
      let config : Config = record (sw.manager.current_config) { auto_mode = false } in
      let valid : IsValid config = record {
        some_bands = v.some_bands;
        bands_fit = v.bands_fit;
        some_ports = v.some_ports;
        ports_fit = v.ports_fit;
      } in
      let stored = (update_config_cases nvs config sw.manager).1 valid in
      set_frequency_quiet (set_auto_mode nvs false sw).1 freq (inl (ap (λ c. c.auto_mode) stored))
