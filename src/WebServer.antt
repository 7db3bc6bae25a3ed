-- ===== src/WebServer.antt =====
-- main/webserver.cpp: the pages and the actions of the web server. A handler is a function from the request and the device to what it returns
-- and replies. cJSON and the HTTP server are parameters, of ConfigPost and of Lifecycle.
-- A page is the text that HtmlContent generates.
pub mod ConfigPost
pub mod Lifecycle
pub mod Status
pub mod Actions
use esp32_band_decoder.AntennaSwitch
use esp32_band_decoder.AntennaSwitch.{get_config, set_config}
use esp32_band_decoder.Base.{
  ℕ, zero, suc, ◌+◌, Bool, true, false, not, List, [], ◌∷◌, Option, none, some, if◌then◌else◌, pos,
  ltb, ◌==◌, length,
}
use esp32_band_decoder.CatParser.{System}
use esp32_band_decoder.Config.{BandConfig, Config, band_of, port_of, max_antenna_ports}
use esp32_band_decoder.ConfigManager.{bad_bands}
use esp32_band_decoder.Err.{Err, ok, fail, is_ok}
use esp32_band_decoder.HtmlContent.{generate_config_html, generate_root_html}
use esp32_band_decoder.SystemInitializer.{Platform, Device}
use esp32_band_decoder.Text.{Bytes, codes}
use esp32_band_decoder.WifiManager.Setup.{get_ip_info, get_mac_address}
use esp32_band_decoder.WifiManager.{clear_credentials}

pub data Reply : Type 0 where
  bad_request server_error : Bytes → Reply
  -- 303, with the location.
  see_other : Bytes → Reply
  root_page config_page : Bytes → Reply
  -- The frequency, and the number of the antenna or 0.
  status_json : ℕ → ℕ → Reply
  restarting updated : Reply

-- What a handler returns, its reply, and the device after it. The blocks are those that it has
-- taken from the heap and not given back, and the flag is whether it restarts the device.
pub record Done (D : Type 0) : Type 0 where
  pub result : Err
  pub reply : Reply
  pub device : D
  pub blocks : ℕ
  pub restarts : Bool

abbrev pub done : {D : Type 0} → Reply → D → Done D
done reply d = record { result = ok; reply = reply; device = d; blocks = 0; restarts = false }

abbrev pub refused : {D : Type 0} → ℕ → Reply → D → Done D
refused blocks reply d = record {
  result = fail;
  reply = reply;
  device = d;
  blocks = blocks;
  restarts = false;
}

-- The antenna of the first band that holds the frequency, or 0.
unfoldable pub find_active_port : ℕ → Config → ℕ
find_active_port current_freq config = elim (band_of config current_freq) [
  | none ↦ 0
  | some (i, band) ↦ elim (port_of config band) [ none ↦ 0 | some j ↦ j + 1 ]
]

abbrev default_band : Bytes → ℕ → ℕ → BandConfig
default_band name start_freq end_freq = record {
  description = name;
  start_freq = start_freq;
  end_freq = end_freq;
  antenna_ports = true ∷ false ∷ false ∷ false ∷ false ∷ false ∷ false ∷ false ∷ [];
}

-- The `default_config` of `reset_config_handler`.
abbrev pub default_config : Config
default_config = record {
  auto_mode = true;
  num_bands = 10;
  num_antenna_ports = 1;
  bands =
      default_band (codes "160m") 1800000 2000000
      ∷ default_band (codes "80m") 3500000 4000000
      ∷ default_band (codes "40m") 7000000 7300000
      ∷ default_band (codes "30m") 10100000 10150000
      ∷ default_band (codes "20m") 14000000 14350000
      ∷ default_band (codes "17m") 18068000 18168000
      ∷ default_band (codes "15m") 21000000 21450000
      ∷ default_band (codes "12m") 24890000 24990000
      ∷ default_band (codes "10m") 28000000 29700000
      ∷ default_band (codes "6m") 50000000 54000000
      ∷ [];
  tcp_host = [];
  tcp_port = 0;
  uart_baud_rate = pos 9600;
  uart_parity = 0;
  uart_stop_bits = 1;
  uart_flow_ctrl = 0;
}

abbrev pub text_or_unknown : Err × Bytes → Bytes
text_or_unknown (e, text) = if is_ok e then text else codes "Unknown"

-- What the configuration page shows: no ports are shown as one.
abbrev pub shown_config : Config → Config
shown_config config =
    if config.num_antenna_ports == 0 then record config { num_antenna_ports = 1 } else config

module _ {W S C : Type 0} (platform : Platform W S C) where
  open platform use {nvs, storage, radio, driver, others}

  unfoldable pub root_get_handler : Device W S C → Done (Device W S C)
  root_get_handler d =
      let ip_addr = text_or_unknown (get_ip_info storage radio driver 16 d.wifi) in
      let mac_addr = text_or_unknown (get_mac_address storage radio driver 18 d.wifi) in
      done (root_page (generate_root_html (get_config d.system.switch) ip_addr mac_addr)) d

  unfoldable pub status_get_handler : Device W S C → Done (Device W S C)
  status_get_handler d =
      let current_freq = d.system.cat.current_frequency in
      done (status_json current_freq (find_active_port current_freq (get_config d.system.switch))) d

  -- `antenna_switch_set_config` on the whole device.
  unfoldable pub store : Config → Device W S C → Err × Device W S C
  store config d =
      let saved = set_config nvs (some config) d.system.switch in
      (saved.0, record d { system = record (d.system) { switch = saved.1 } })

  -- The page, when the number of bands is in range.
  abbrev pub show_config : Config → Device W S C → Done (Device W S C)
  show_config config d =
      let shown = shown_config config in
      let resp_str = generate_config_html shown in
      if ltb max_antenna_ports shown.num_antenna_ports
      then refused 0
          (server_error (codes "Invalid configuration: number of antenna ports out of range")) d
      else if length resp_str == 0
      then refused 0 (server_error (codes "Failed to generate HTML")) d
      else done (config_page resp_str) d

  -- A number of bands out of range is corrected to 1 and saved. Sending the page is assumed to
  -- succeed.
  unfoldable pub config_get_handler : Device W S C → Done (Device W S C)
  config_get_handler d =
      let config = get_config d.system.switch in
      let corrected = record config { num_bands = 1 } in
      let saved = store corrected d in
      if bad_bands config
      then (if is_ok saved.0
          then show_config corrected saved.1
          else refused 0 (server_error (codes "Failed to save corrected configuration")) saved.1)
      else show_config config d

  unfoldable pub toggle_auto_mode_handler : Device W S C → Done (Device W S C)
  toggle_auto_mode_handler d =
      let config = get_config d.system.switch in
      let saved = store (record config { auto_mode = not config.auto_mode }) d in
      if is_ok saved.0
      then done (see_other (codes "/")) saved.1
      else refused 0 (server_error (codes "Failed to set configuration")) saved.1

  unfoldable pub reset_config_handler : Device W S C → Done (Device W S C)
  reset_config_handler d =
      let saved = store default_config d in
      if is_ok saved.0
      then done (see_other (codes "/config")) saved.1
      else refused 0 (server_error (codes "Failed to reset configuration")) saved.1

  -- The reply is sent before the device restarts.
  unfoldable pub restart_handler : Device W S C → Done (Device W S C)
  restart_handler d =
      let later = others 500 d in
      let committed : Device W S C = record later {
        system = record (later.system) { switch = AntennaSwitch.restart nvs later.system.switch };
      } in
      record (done restarting (others 1000 committed)) { restarts = true }

  unfoldable pub reset_wifi_handler : Device W S C → Done (Device W S C)
  reset_wifi_handler d =
      let cleared = clear_credentials storage d.wifi.world in
      let d' : Device W S C = record d { wifi = record (d.wifi) { world = cleared.1 } } in
      if is_ok cleared.0
      then done (see_other (codes "/")) d'
      else refused 0 (server_error (codes "Failed to clear WiFi credentials")) d'
