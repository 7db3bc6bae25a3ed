-- ===== src/Tests/Whole.antt =====
-- 14.074 MHz at the station, from the answer of the transceiver to the relay.
use esp32_band_decoder.AntennaSwitch
use esp32_band_decoder.AntennaSwitch.Selection.{request_for}
use esp32_band_decoder.Base.{ℕ, ◌≡◌, inl, refl, [], some, pos, arith, Option}
use esp32_band_decoder.CatParser
use esp32_band_decoder.Config.{Config}
use esp32_band_decoder.ConfigManager
use esp32_band_decoder.CatParser.Numbers
use esp32_band_decoder.CatParser.Numbers.{AllDigits}
use esp32_band_decoder.CatParser.{uart_data}
use esp32_band_decoder.Err.{ok}
use esp32_band_decoder.Relay.Command
use esp32_band_decoder.Relay.Command.Safety.{Exclusive}
use esp32_band_decoder.Relay.Command.{turn_off_all_relays_except}
use esp32_band_decoder.Relay.Response
use esp32_band_decoder.Relay.Task.{Loop, cool_down, request_round}
use esp32_band_decoder.Relay.{Relay, no_request}
use esp32_band_decoder.SystemInitializer
use esp32_band_decoder.SystemInitializer.{Device}
use esp32_band_decoder.Tests.Boot.{device}
use esp32_band_decoder.Tests.Network.{Flash}
use esp32_band_decoder.Tests.Settings.{station-IsValid, twenty-Chosen}
use esp32_band_decoder.Tests.{board, controller, station, system, switch, manager}
use esp32_band_decoder.Text
use esp32_band_decoder.Text.{Bytes, codes}
use esp32_band_decoder.Tuning.{frequency_of, answer, tuned_system, answer_switches}

abbrev digits : Bytes
digits = codes "00014074000"

digits-value : frequency_of digits ≡ 14074000
unfolding Numbers.value_from
digits-value = refl

digits-AllDigits : AllDigits digits
digits-AllDigits =
    (refl, (refl, (refl, (refl, (refl, (refl, (refl, (refl, (refl, (refl, (refl, tt)))))))))))

abbrev loop : Loop
loop = record { last_processed = no_request; last_connection_check = 0 }

abbrev wish : Relay ℕ
wish = record controller { latest_request = request_for 1 1 }

confirmed : (turn_off_all_relays_except board (pos 2) (cool_down board wish)).0 ≡ ok
unfolding cool_down turn_off_all_relays_except Command.send_command Command.exchange
    Command.process_response Response.parse_relay_state_response Text.contains
    Command.set_all_command Text.c_str
confirmed = refl

answer_switches_example :
    let t = request_round board (loop, wish) in
    (uart_data (answer digits) [] system
      ≡ some ([], tuned_system (frequency_of digits) 1 1 controller system))
    × Exclusive (pos 2) t.1
    × ((t.1).last_selected_relay_for_band (pos 1) ≡ some (pos 2))
    × ((t.0).last_processed ≡ request_for 1 1)
unfolding Numbers.value_from
answer_switches_example =
    answer_switches board digits system controller loop 1 1 digits-AllDigits refl refl refl
      station-IsValid (inl refl) twenty-Chosen (omega arith) (λ h. ground arith) refl
      (λ h. ground arith) confirmed

-- A device whose flash holds the station.
abbrev kept_device : Device Flash (Option Config) ℕ
kept_device = record (device 0) {
  system = record system {
    switch = record switch { manager = record manager { flash = some station } };
  };
}
