-- ===== src/AntennaSwitch.antt =====
-- main/antenna_switch.cpp: the functions that the CAT parser and the web server call. They work on
-- the configuration manager and on the relay controller, which is a pointer that may be null.
pub mod Selection
pub mod Settings
use esp32_band_decoder.Base.{ℕ, ◌+◌, Bool, Option, none, some, if◌then◌else◌, ℤ, pos, take}
use esp32_band_decoder.Config.{Config, band_of, port_of}
use esp32_band_decoder.ConfigManager
use esp32_band_decoder.ConfigManager.{ConfigManager, Nvs}
use esp32_band_decoder.Err.{Err, ok, invalid_arg, is_ok}
use esp32_band_decoder.Relay.Command
use esp32_band_decoder.Relay
use esp32_band_decoder.Relay.{Relay, Channel}
use esp32_band_decoder.Text.{Bytes, c_str}

pub record Switch (S C : Type 0) : Type 0 where
  pub manager : ConfigManager S
  pub relay_controller : Option (Relay C)

-- A call through a null `relay_controller` is `none`.
abbrev pub on_relay :
    {S C : Type 0} → (Relay C → Err × Relay C) → Switch S C → Option (Err × Switch S C)
on_relay f sw = elim sw.relay_controller [
  | none ↦ none
  | some r ↦ some ((f r).0, record sw { relay_controller = some (f r).1 })
]

module _ {S C : Type 0} where
  unfoldable pub set_relay_controller : Relay C → Switch S C → Switch S C
  set_relay_controller controller sw = record sw { relay_controller = some controller }

  unfoldable pub get_config : Switch S C → Config
  get_config sw = sw.manager.current_config

  unfoldable pub set_frequency : ℕ → Switch S C → Option (Err × Switch S C)
  set_frequency frequency sw =
      let config = sw.manager.current_config in
      if config.auto_mode
      then elim (band_of config frequency) [
        | none ↦ some (ok, sw)
        | some (i, band) ↦ elim (port_of config band) [
          | none ↦ some (ok, sw)
          | some j ↦ on_relay (Relay.set_relay_for_antenna (pos (j + 1)) (pos i)) sw
        ]
      ]
      else some (ok, sw)

  unfoldable pub set_relay : ℤ → Bool → Switch S C → Option (Err × Switch S C)
  set_relay relay_id state sw = on_relay (Relay.set_relay relay_id state) sw

  -- `none` for a null controller and for the exception that an unknown relay raises.
  unfoldable pub get_relay_state : ℤ → Switch S C → Option Bool
  get_relay_state relay_id sw = elim sw.relay_controller [
    | none ↦ none
    | some r ↦ Relay.get_relay_state relay_id r
  ]

module _ {S C : Type 0} (nvs : Nvs S) where
  abbrev save : Config → Switch S C → Err × Switch S C
  save config sw =
      let saved = ConfigManager.update_config nvs config sw.manager in
      (saved.0, record sw { manager = saved.1 })

  unfoldable pub init : Switch S C → Err × Switch S C
  init sw =
      let started = ConfigManager.init nvs sw.manager in
      (started.0, record sw { manager = started.1 })

  -- `restart` up to `esp_restart`.
  unfoldable pub restart : Switch S C → Switch S C
  restart sw =
      let opened = nvs.nvs_open sw.manager.flash in
      let flash = if is_ok opened.0 then (nvs.nvs_commit opened.1).1 else opened.1 in
      record sw { manager = record (sw.manager) { flash = flash } }

  -- A null pointer is `none`.
  unfoldable pub set_config : Option Config → Switch S C → Err × Switch S C
  set_config none sw = (invalid_arg, sw)
  set_config (some config) sw = save config sw

  unfoldable pub set_auto_mode : Bool → Switch S C → Err × Switch S C
  set_auto_mode auto_mode sw =
      save (record (sw.manager.current_config) { auto_mode = auto_mode }) sw

  unfoldable pub set_tcp_port : ℕ → Switch S C → Err × Switch S C
  set_tcp_port port sw =
      let config = record (sw.manager.current_config) { tcp_port = port } in
      save config (elim sw.relay_controller [
        | none ↦ sw
        | some r ↦ record sw { relay_controller = some (Relay.set_tcp_port port r) }
      ])

module _ {C : Type 0} (channel : Channel C) where
  -- The host change of the controller: it is told, waits, and connects again.
  unfoldable pub reconnect : Bytes → Relay C → Err × Relay C
  reconnect host r =
      let told = Relay.set_tcp_host host r in
      Command.init channel (record told { tcp_client = channel.delay 100 told.tcp_client })

module _ {S C : Type 0} (nvs : Nvs S) (channel : Channel C) where
  -- `tcp_host` of the configuration holds 15 bytes and a NUL.
  unfoldable pub set_tcp_host : Option Bytes → Switch S C → Err × Switch S C
  set_tcp_host none sw = (invalid_arg, sw)
  set_tcp_host (some host) sw =
      let config = record (sw.manager.current_config) { tcp_host = take 15 (c_str host) } in
      elim sw.relay_controller [
        | none ↦ save nvs config sw
        | some r ↦
            let again = reconnect channel (c_str host) r in
            let sw' : Switch S C = record sw { relay_controller = some again.1 } in
            if is_ok again.0 then save nvs config sw' else (again.0, sw')
      ]
