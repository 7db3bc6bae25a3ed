-- ===== src/Tests/Web.antt =====
-- Requests to the web server, with JSON items that are only what the examples need.
use esp32_band_decoder.AntennaSwitch
use esp32_band_decoder.AntennaSwitch.Selection.{request_for}
use esp32_band_decoder.AntennaSwitch.{Switch, set_frequency, get_config}
use esp32_band_decoder.Base.{
  ℕ, ◌+◌, ◌≡◌, ◌≢◌, inl, refl, Bool, true, false, List, [], ◌∷◌, Option, none, some, ltb, arith,
  pos, ℤ, if◌then◌else◌, length,
}
use esp32_band_decoder.Config
use esp32_band_decoder.Config.{Config, IsValid}
use esp32_band_decoder.ConfigManager
use esp32_band_decoder.Err.{ok}
use esp32_band_decoder.Tests.Settings.{station-IsValid}
use esp32_band_decoder.Tests.{station, switch, controller}
use esp32_band_decoder.Tests.Boot.{platform, device}
use esp32_band_decoder.Text
use esp32_band_decoder.Text.{Bytes, codes, eq_bytes}
use esp32_band_decoder.WebServer
use esp32_band_decoder.WebServer.Actions.{stored, serve-IsValid}
use esp32_band_decoder.WebServer.ConfigPost
use esp32_band_decoder.WebServer.ConfigPost.Valid.{IsParsed, config_post_handler-ok}
use esp32_band_decoder.WebServer.ConfigPost.{Json, Request, config_post_handler}
use esp32_band_decoder.WebServer.Lifecycle
use esp32_band_decoder.WebServer.Lifecycle.{
  Uri, toggle_auto_mode, serve, Httpd, Web, all_uris, webserver_start, webserver_restart,
}
use esp32_band_decoder.WebServer.Lifecycle.Complete.{webserver_start-IsComplete}
use esp32_band_decoder.WebServer.Status.{find_active_port-set_frequency}
use esp32_band_decoder.WebServer.{find_active_port}

data Item : Type 0 where
  document : Bool → Item
  band_item yes band_list port_list : Item
  number : ℤ → Item
  text : Bytes → Item

-- The members of the posted document; the flag is whether it has a TCP port.
abbrev member : Item → Bytes → Option Item
member (document complete) name =
    if eq_bytes name (codes "tcp_port")
    then (if complete then some (number (pos 12090)) else none)
    else if eq_bytes name (codes "uart_baud_rate")
    then some (number (pos 4800))
    else if eq_bytes name (codes "uart_parity")
    then some (number (pos 0))
    else if eq_bytes name (codes "uart_stop_bits")
    then some (number (pos 1))
    else if eq_bytes name (codes "uart_flow_ctrl")
    then some (number (pos 0))
    else if eq_bytes name (codes "num_bands")
    then some (number (pos 5))
    else if eq_bytes name (codes "num_antenna_ports")
    then some (number (pos 2))
    else if eq_bytes name (codes "bands")
    then some band_list
    else none
member band_item name =
    if eq_bytes name (codes "description")
    then some (text (codes "20m"))
    else if eq_bytes name (codes "antenna_ports")
    then some port_list
    else none
member _ name = none

abbrev is_yes : Item → Bool
is_yes yes = true
is_yes _ = false

abbrev is_band : Item → Bool
is_band band_item = true
is_band _ = false

abbrev int_of : Item → Option ℤ
int_of (number n) = some n
int_of _ = none

abbrev string_of : Item → Option Bytes
string_of (text s) = some s
string_of _ = none

abbrev items_of : Item → Option (List Item)
items_of band_list = some (band_item ∷ band_item ∷ [])
items_of port_list = some (yes ∷ [])
items_of _ = none

-- A text of one byte is the document without a TCP port.
abbrev json : Json Item
json = record {
  parse = λ s. some (document (ltb 1 (length s)));
  get_object_item = member;
  is_true = is_yes;
  is_object = is_band;
  value_int = int_of;
  value_string = string_of;
  array_items = items_of;
}

abbrev request : Request
request = record { content_len = 2; memory = some (7 ∷ 7 ∷ 7 ∷ []); received = codes "{}" }

posted : (config_post_handler platform json request (device 0)).result ≡ ok
unfolding config_post_handler ConfigPost.parse_config ConfigPost.◌>>=◌ eq_bytes Text.c_str
    ConfigPost.apply_config WebServer.store AntennaSwitch.set_config ConfigManager.update_config
posted = refl

config_post_handler-ok_example :
    let done = config_post_handler platform json request (device 0) in
    let s = done.device.system in
    (s.cat.current_config ≡ get_config s.switch)
    × IsValid (get_config s.switch)
    × IsParsed (get_config s.switch)
    × (done.blocks ≡ 0)
config_post_handler-ok_example = config_post_handler-ok platform json request (device 0) posted

serve-IsValid_example :
    IsValid (stored (serve platform json toggle_auto_mode request (device 0)).device)
unfolding get_config
serve-IsValid_example =
    serve-IsValid platform json toggle_auto_mode request (device 0) (λ ms e v. v) station-IsValid

forty_shown : find_active_port 7100000 station ≢ 0
unfolding find_active_port Config.band_of Config.port_of Config.find_band Config.first_port
forty_shown h = omega (arith, h)

find_active_port-set_frequency_example :
    (i : ℕ) × (j : ℕ) × (find_active_port 7100000 station ≡ j + 1)
    × (set_frequency 7100000 switch
        ≡ some (
          ok,
          record switch {
            relay_controller = some (record controller { latest_request = request_for i j });
          },
        ))
find_active_port-set_frequency_example =
    (find_active_port-set_frequency switch 7100000 controller refl station-IsValid refl).1
      forty_shown

-- A server on which every call succeeds.
abbrev httpd : Httpd ℕ
httpd = record {
  httpd_start = λ w. (ok, w);
  httpd_register_uri_handler = λ uri w. (ok, w);
  httpd_stop = λ w. w;
}

abbrev down : Web ℕ
down = record { world = 0; server = none }

server_started : (webserver_start httpd ok down).0 ≡ ok
unfolding webserver_start Lifecycle.webserver_init Lifecycle.register_all
server_started = refl

webserver_start-IsComplete_example : (webserver_start httpd ok down).1.server ≡ some all_uris
webserver_start-IsComplete_example =
    ((webserver_start-IsComplete httpd ok down (inl refl)).0).0 server_started
