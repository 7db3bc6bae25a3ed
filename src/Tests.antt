-- ===== src/Tests.antt =====
-- Concrete surroundings for the examples: a flash, a relay board, sockets, and a configuration.
mod Settings
mod Board
mod Cat
mod Sockets
mod Network
mod Boot
mod Web
mod Page
mod Table
mod Whole
use esp32_band_decoder.AntennaSwitch.{Switch}
use esp32_band_decoder.Base.{
  ℕ, ◌+◌, ◌/◌, true, false, List, [], ◌∷◌, Option, none, some, ℤ, pos, minus_one,
}
use esp32_band_decoder.CatParser.{CatParser, System}
use esp32_band_decoder.Config.{BandConfig, Config}
use esp32_band_decoder.ConfigManager.{Nvs, ConfigManager}
use esp32_band_decoder.Err.{ok, nvs_not_found}
use esp32_band_decoder.Relay.{Channel, Relay, no_request}
use esp32_band_decoder.Text.{Bytes, codes}

-- Twenty metres on port 2, forty metres on port 1, eighty metres on no port.
abbrev pub twenty : BandConfig
twenty = record {
  description = codes "20m";
  start_freq = 14000000;
  end_freq = 14350000;
  antenna_ports = false ∷ true ∷ false ∷ [];
}

abbrev pub forty : BandConfig
forty = record {
  description = codes "40m";
  start_freq = 7000000;
  end_freq = 7300000;
  antenna_ports = true ∷ false ∷ false ∷ [];
}

abbrev pub eighty : BandConfig
eighty = record {
  description = codes "80m";
  start_freq = 3500000;
  end_freq = 3800000;
  antenna_ports = false ∷ false ∷ false ∷ [];
}

abbrev pub station : Config
station = record {
  auto_mode = true;
  num_bands = 3;
  num_antenna_ports = 3;
  bands = forty ∷ twenty ∷ eighty ∷ [];
  tcp_host = codes "10.0.0.2";
  tcp_port = 12090;
  uart_baud_rate = pos 9600;
  uart_parity = 0;
  uart_stop_bits = 1;
  uart_flow_ctrl = 0;
}

-- A flash that holds one blob.
abbrev pub ram : Nvs (Option Config)
ram = record {
  nvs_open = λ s. (ok, s);
  nvs_set_blob = λ c s. (ok, some c);
  nvs_commit = λ s. (ok, s);
  nvs_get_blob = λ old s. elim s [ none ↦ (nvs_not_found, old) | some c ↦ (ok, c) ];
}

abbrev pub manager : ConfigManager (Option Config)
manager = record { current_config = station; observers = 1 ∷ 2 ∷ []; notified = []; flash = none }

abbrev pub relay_two_on : Bytes
relay_two_on = codes "RELAY-SET_ALL-255,0,2,OK"

-- A board that confirms every command with relay 2 on; its state is the clock.
abbrev pub board : Channel ℕ
board = record {
  connect = λ host port c. (ok, c);
  ensure_connected = λ c. (ok, c);
  check_connection_status = λ c. (true, c);
  close = λ c. c;
  send_message = λ message c. (ok, c);
  receive_message = λ buffer size ms c. (ok, relay_two_on, c + 3);
  delay = λ ms c. c + ms;
  now = λ c. c;
  ticks = λ c. c / 10;
}

-- A controller with relay 1 selected.
abbrev pub controller : Relay ℕ
controller = record {
  tcp_client = 1000;
  relay_states = λ i. none;
  last_selected_relay_for_band = λ b. none;
  currently_selected_relay = pos 1;
  last_band_change_time = 990;
  tcp_host = codes "10.0.0.2";
  tcp_port = 12090;
  last_command = [];
  relay_state_bitfield = 1;
  latest_request = no_request;
  response = [];
  tcp_tasks = 1;
}

abbrev pub switch : Switch (Option Config) ℕ
switch = record { manager = manager; relay_controller = some controller }

abbrev pub parser : CatParser
parser = record {
  current_config = station;
  current_frequency = 0;
  current_band_index = minus_one;
  transmitting = false;
  rit_on = false;
  xit_on = false;
  split_on = false;
  current_mode = [];
  rit_offset = pos 0;
}

abbrev pub system : System (Option Config) ℕ
system = record { cat = parser; switch = switch }
