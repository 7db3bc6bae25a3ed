-- ===== src/Tests/Page.antt =====
-- The configuration page of a station with one band, opened and submitted.
use esp32_band_decoder.AntennaSwitch
use esp32_band_decoder.Base.{
  ℕ, ◌≡◌, inl, refl, Bool, true, false, List, [], ◌∷◌, Option, none, some, arith, pos, ℤ,
  if◌then◌else◌,
}
use esp32_band_decoder.Config.{BandConfig, Config}
use esp32_band_decoder.ConfigManager
use esp32_band_decoder.ConfigManager.{ConfigManager}
use esp32_band_decoder.Err.{ok}
use esp32_band_decoder.HtmlContent.Form.{
  Entry, entries, submit_config, form_get, piece_entries, chosen, last_selected,
}
use esp32_band_decoder.HtmlContent.Rows.{IsListed}
use esp32_band_decoder.HtmlContent.Unchanged.{IsEditable, posted_config, submit_config-entries}
use esp32_band_decoder.HtmlContent.{
  config_form, generate_config_html, band_name, band_row, band_choices,
}
use esp32_band_decoder.HtmlContent.Unlisted.{unlisted_band_replaced}
use esp32_band_decoder.SystemInitializer.{Device}
use esp32_band_decoder.Tests.Boot.{platform, device}
use esp32_band_decoder.Tests.Network.{Flash}
use esp32_band_decoder.Tests.{station, switch, system, eighty}
use esp32_band_decoder.Text
use esp32_band_decoder.Text.{Bytes, codes, eq_bytes}
use esp32_band_decoder.WebServer
use esp32_band_decoder.WebServer.Actions.{stored}
use esp32_band_decoder.WebServer.ConfigPost.Posted.{IsSubmittable, Carries}
use esp32_band_decoder.WebServer.ConfigPost.Resubmit.{config_post_handler_unchanged}
use esp32_band_decoder.WebServer.ConfigPost.{
  Json, Request, no_band, content, config_post_handler, field, read_band,
}
use esp32_band_decoder.WebServer.{config_page, store, config_get_handler}

abbrev pub twenty : BandConfig
twenty = record {
  description = codes "20m";
  start_freq = 14000000;
  end_freq = 14350000;
  antenna_ports = false ∷ true ∷ false ∷ false ∷ false ∷ false ∷ false ∷ false ∷ [];
}

abbrev pub home : Config
home = record station {
  num_bands = 1;
  num_antenna_ports = 2;
  bands =
      twenty ∷ no_band ∷ no_band ∷ no_band ∷ no_band ∷ no_band ∷ no_band ∷ no_band ∷ no_band
      ∷ no_band ∷ [];
}

twenty-IsListed : IsListed twenty
twenty-IsListed = record { index = 5; entry = refl; all_ports = refl }

pub home-IsEditable : IsEditable home
home-IsEditable = record {
  valid = record {
    some_bands = omega arith;
    bands_fit = omega arith;
    some_ports = omega arith;
    ports_fit = omega arith;
  };
  port_fits = omega arith;
  rate = 9600;
  rate_index = 3;
  is_rate = refl;
  baud = refl;
  parity = inl refl;
  some_stop_bits = omega arith;
  stop_bits_fit = omega arith;
  flow_ctrl_fits = omega arith;
  listed = (twenty-IsListed, tt);
}

submit_config-entries_example : submit_config (entries (config_form home)) ≡ posted_config home
submit_config-entries_example = submit_config-entries home home-IsEditable

pub home-IsSubmittable : IsSubmittable home
home-IsSubmittable = record {
  editable = home-IsEditable;
  some_port = omega arith;
  host_fits = omega arith;
  all_bands = refl;
  tidy = (
    (refl, (refl, (refl, (refl, (refl, (refl, tt)))))),
    (refl, (refl, (refl, (refl, (refl, (refl, (refl, (refl, (refl, tt))))))))),
  );
}

abbrev pub home_device : Device Flash (Option Config) ℕ
home_device = record (device 0) {
  system = record system {
    switch = record switch {
      manager = record { current_config = home; observers = []; notified = []; flash = none };
    };
  };
}

-- The items of the posted document.
pub data Item : Type 0 where
  document band_item ten_item band_list port_list : Item
  flag_item : Bool → Item
  number : ℤ → Item
  text : Bytes → Item

abbrev member : Item → Bytes → Option Item
member document name =
    if eq_bytes name (codes "auto_mode")
    then some (flag_item true)
    else if eq_bytes name (codes "num_bands")
    then some (number (pos 1))
    else if eq_bytes name (codes "num_antenna_ports")
    then some (number (pos 2))
    else if eq_bytes name (codes "tcp_host")
    then some (text (codes "10.0.0.2"))
    else if eq_bytes name (codes "tcp_port")
    then some (number (pos 12090))
    else if eq_bytes name (codes "uart_baud_rate")
    then some (number (pos 9600))
    else if eq_bytes name (codes "uart_stop_bits")
    then some (number (pos 1))
    else if eq_bytes name (codes "bands")
    then some band_list
    else some (number (pos 0))
member band_item name =
    if eq_bytes name (codes "description") then some (text (codes "20m")) else some port_list
member ten_item name =
    if eq_bytes name (codes "description") then some (text (codes "10m")) else none
member _ name = none

abbrev is_yes : Item → Bool
is_yes (flag_item b) = b
is_yes _ = false

abbrev is_band : Item → Bool
is_band band_item = true
is_band ten_item = true
is_band _ = false

abbrev int_of : Item → Option ℤ
int_of (number n) = some n
int_of _ = none

abbrev string_of : Item → Option Bytes
string_of (text s) = some s
string_of _ = none

abbrev items_of : Item → Option (List Item)
items_of band_list = some (band_item ∷ [])
items_of port_list = some (flag_item false ∷ flag_item true ∷ [])
items_of _ = none

abbrev pub json : Json Item
json = record {
  parse = λ s. some document;
  get_object_item = member;
  is_true = is_yes;
  is_object = is_band;
  value_int = int_of;
  value_string = string_of;
  array_items = items_of;
}

pub carried : Carries json document (posted_config home)
unfolding eq_bytes
carried = record {
  auto_mode = refl;
  num_bands = refl;
  num_antenna_ports = refl;
  tcp_host = refl;
  tcp_port = refl;
  uart_baud_rate = refl;
  uart_parity = refl;
  uart_stop_bits = refl;
  uart_flow_ctrl = refl;
  items = band_item ∷ [];
  bands = refl;
  all_bands = (
    record {
      is_band = refl;
      description = refl;
      ports = flag_item false ∷ flag_item true ∷ [];
      antenna_ports = refl;
      enabled = refl;
    },
    tt,
  );
}

-- A browser that knows one page.
abbrev browser : Bytes → List Entry
browser page = entries (config_form home)

abbrev pub request : Request
request = record { content_len = 2; memory = some (7 ∷ 7 ∷ 7 ∷ []); received = codes "{}" }

pub tree : json.parse (content 2 (7 ∷ 7 ∷ 7 ∷ []) (codes "{}")) ≡ some document
unfolding Text.c_str
tree = refl

saves : (store platform home home_device).0 ≡ ok
unfolding WebServer.store AntennaSwitch.set_config ConfigManager.update_config
    ConfigManager.save_to_nvs
saves = refl

home-stored : stored home_device ≡ home
unfolding AntennaSwitch.get_config
home-stored = refl

config_post_handler_unchanged_example :
    let posted = config_post_handler platform json request home_device in
    ((config_get_handler platform home_device).reply
      ≡ config_page (generate_config_html (stored home_device)))
    × (posted.result ≡ ok)
    × (stored posted.device ≡ stored home_device)
    × (posted.device.system.cat.current_config ≡ stored home_device)
unfolding AntennaSwitch.get_config
config_post_handler_unchanged_example =
    config_post_handler_unchanged platform json home_device browser request (7 ∷ 7 ∷ 7 ∷ [])
      document home-IsSubmittable refl refl (omega arith) (omega arith) tree
      (rw (submit_config-entries home home-IsEditable) carried) saves

shows_ten :
    field json json.value_string (codes "description") ten_item
    ≡ form_get (band_name 2) (entries (band_row 3 2 eighty))
unfolding eq_bytes form_get entries piece_entries band_row band_choices chosen last_selected
    Text.to_decimal
shows_ten = refl

-- Eighty metres up to 3.8 MHz only.
unlisted_band_replaced_example :
    let read = read_band json ten_item in
    (read.description ≡ codes "10m") × (read.start_freq ≡ 28000000) × (read.end_freq ≡ 29700000)
unlisted_band_replaced_example =
    unlisted_band_replaced json ten_item 3 2 eighty (omega arith)
      (refl, (refl, (refl, (refl, (refl, (refl, (refl, (refl, (refl, (refl, tt)))))))))) refl
      shows_ten
