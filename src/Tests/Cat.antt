-- ===== src/Tests/Cat.antt =====
-- The CAT parser: streams, commands and frequencies.
use esp32_band_decoder.Base.{
  ℕ, length, take, drop, ◌++◌, ◌≡◌, ◌≢◌, refl, true, false, List, [], ◌∷◌, Option, some, arith, pos,
  minus_one, min, inl,
}
use esp32_band_decoder.AntennaSwitch.{set_frequency}
use esp32_band_decoder.AntennaSwitch
use esp32_band_decoder.Relay
use esp32_band_decoder.Config
use esp32_band_decoder.CatParser.Bands.{
  IsCoherent, handle_frequency_change-IsCoherent, handle_frequency_change_cases,
}
use esp32_band_decoder.CatParser.Bridge.{Uart, IsFifo, uart_data, bridge_event, bridge_event-data}
use esp32_band_decoder.CatParser.Commands.{commands, run_commands, process_command-commands}
use esp32_band_decoder.CatParser.Numbers.{value_from, read_ulong-digits, process_fa_command-nil}
use esp32_band_decoder.CatParser.Stream.{uart_reads, uart_reads-joined}
use esp32_band_decoder.CatParser.{
  System, search_band, get_band_index, remember, read_ulong, handle_frequency_change,
  process_fa_command, process_if_command, process_command, update_config,
}
use esp32_band_decoder.Config.{Config, IsValid}
use esp32_band_decoder.CatParser
use esp32_band_decoder.CatParser.Validity.{process_command-IsValid}
use esp32_band_decoder.ConfigManager
use esp32_band_decoder.Text
use esp32_band_decoder.Err.{ok}
use esp32_band_decoder.Tests.Settings.{station-IsValid}
use esp32_band_decoder.Tests.{station, ram, controller, manager, switch, parser, system}
use esp32_band_decoder.Text.{Bytes, codes, c_str, ulong_max}

-- Two answers in three reads, and the same bytes in one.
abbrev three_reads : List Bytes
three_reads = codes "FA000140" ∷ codes "74000;FA0000" ∷ codes "7074000;" ∷ []

abbrev one_read : List Bytes
one_read = codes "FA00014074000;FA00007074000;" ∷ []

uart_reads-joined_example : uart_reads three_reads [] system ≡ uart_reads one_read [] system
uart_reads-joined_example =
    uart_reads-joined three_reads one_read [] system tt (ground arith) (ground arith) refl

process_command-commands_example :
    process_command ram (some (codes "FA00014074000;AP4")) system
    ≡ run_commands ram (commands (c_str (codes "FA00014074000;AP4"))) system
process_command-commands_example = process_command-commands ram (codes "FA00014074000;AP4") system

read_ulong-digits_example :
    read_ulong (codes "00014074000") ≡ some (min (value_from 0 (codes "00014074000")) ulong_max)
read_ulong-digits_example = read_ulong-digits (codes "00014074000") (ground arith)

process_fa_command-nil_example : process_fa_command [] system ≡ handle_frequency_change 0 system
process_fa_command-nil_example = process_fa_command-nil system

abbrev if_rest : Bytes
if_rest = codes "     +00000000001200000 "

fresh-IsCoherent : IsCoherent parser
fresh-IsCoherent = inl refl

-- The system after a first frequency on twenty metres.
abbrev tuned : System (Option Config) ℕ
tuned = record system {
  cat = remember 14074000 (pos 1) parser;
  switch = record switch {
    relay_controller =
        some
          (record controller { latest_request = record { relay_id = pos 2; band_number = pos 1 } });
  };
}

tunes : handle_frequency_change 14074000 system ≡ some (ok, tuned)
unfolding handle_frequency_change get_band_index search_band Config.band_of Config.find_band
    set_frequency Config.port_of Config.first_port Relay.set_relay_for_antenna
tunes = refl

handle_frequency_change-IsCoherent_example :
    IsCoherent tuned.cat × ((tuned.cat).current_config ≡ station)
handle_frequency_change-IsCoherent_example =
    handle_frequency_change-IsCoherent 14074000 system fresh-IsCoherent tunes

unsearched : minus_one ≢ search_band station 14074000
unfolding search_band Config.band_of Config.find_band
unsearched h = cc

handle_frequency_change_cases_example : set_frequency 14074000 switch ≡ some (ok, tuned.switch)
handle_frequency_change_cases_example =
    (handle_frequency_change_cases 14074000 system fresh-IsCoherent (λ h. ground arith) tunes).1
      unsearched

-- Two ports instead of three.
abbrev two_ports : Config
two_ports = record station { num_antenna_ports = 2 }

abbrev after_ap : System (Option Config) ℕ
after_ap = record system {
  switch = record switch {
    manager = record manager {
      current_config = two_ports;
      notified = (1, two_ports) ∷ (2, two_ports) ∷ [];
      flash = some two_ports;
    };
  };
}

ap_saved : process_command ram (some (codes "AP2;")) system ≡ some (ok, after_ap)
unfolding process_command CatParser.process_loop CatParser.cut CatParser.process_one
    CatParser.dispatch CatParser.process_ap_command read_ulong AntennaSwitch.set_config
    AntennaSwitch.get_config ConfigManager.update_config ConfigManager.save_to_nvs c_str
    Text.strtoul Text.read_number Text.skip_space Text.read_sign Text.read_digits
ap_saved = refl

process_command-IsValid_example : IsValid two_ports
process_command-IsValid_example =
    process_command-IsValid ram (codes "AP2;") system station-IsValid ap_saved

-- Two queues: what waits to be read, and what was written.
abbrev queues : Uart (Bytes × Bytes)
queues = record {
  buffered_data_len = λ w. (ok, length w.0);
  read_bytes = λ n w. (take n w.0, (drop n w.0, w.1));
  write_bytes = λ bs w. (true, (w.0, w.1 ++ bs));
  flush_input = λ w. ([], w.1);
  queue_reset = λ w. w;
  shutdown_requested = λ w. false;
}

abbrev queues-IsFifo : IsFifo queues
queues-IsFifo = record {
  input = λ w. w.0;
  output = λ w. w.1;
  waiting = λ w. refl;
  read = λ n w. refl;
  read_rest = λ n w. refl;
  read_output = λ n w. refl;
  write = λ bs w. refl;
  write_output = λ bs w. refl;
  write_input = λ bs w. refl;
  running = λ w. refl;
}

bridge_event-data_example :
    let w' = bridge_event queues 9 uart_data (codes "FA;IF;", codes "ID;") in
    (w'.1 ≡ codes "ID;" ++ codes "FA;IF;") × (w'.0 ≡ [])
bridge_event-data_example =
    bridge_event-data queues queues-IsFifo 9 (codes "FA;IF;", codes "ID;") (omega arith)
