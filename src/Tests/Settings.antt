-- ===== src/Tests/Settings.antt =====
-- The configuration: refused, saved and found again, and searched for a frequency.
use esp32_band_decoder.AntennaSwitch.Selection.{Chosen, request_for, set_frequency_selects}
use esp32_band_decoder.AntennaSwitch.{set_frequency}
use esp32_band_decoder.Base.{
  ℕ, ◌<◌, ◌≡◌, refl, Bool, true, false, [], ◌∷◌, Option, none, some, arith, get_elem?,
}
use esp32_band_decoder.Config.Search.{FirstOf}
use esp32_band_decoder.Config.{BandConfig, Config, IsValid, in_band}
use esp32_band_decoder.ConfigManager
use esp32_band_decoder.ConfigManager.Persist.{IsDurable, reboot, init-update_config}
use esp32_band_decoder.ConfigManager.Update.{update_config_cases}
use esp32_band_decoder.ConfigManager.{ConfigManager, notify, update_config}
use esp32_band_decoder.Err.{ok, invalid_arg}
use esp32_band_decoder.Tests.{twenty, forty, eighty, station, ram, manager, switch, controller}

pub station-IsValid : IsValid station
station-IsValid = record {
  some_bands = omega arith;
  bands_fit = omega arith;
  some_ports = omega arith;
  ports_fit = omega arith;
}

ram-IsDurable : IsDurable ram
ram-IsDurable = record { read_back = λ c old s a b d. refl }

abbrev no_bands : Config
no_bands = record station { num_bands = 0 }

no_bands-refused : ¬ IsValid no_bands
no_bands-refused v = omega (arith, v.some_bands)

update_config_cases_example : update_config ram no_bands manager ≡ (invalid_arg, manager)
update_config_cases_example = (update_config_cases ram no_bands manager).0 no_bands-refused

saved_ok : (update_config ram station manager).0 ≡ ok
unfolding update_config ConfigManager.save_to_nvs
saved_ok = refl

init-update_config_example :
    ((ConfigManager.init ram (reboot no_bands (update_config ram station manager).1)).0 ≡ ok)
    × ((ConfigManager.init ram
          (reboot no_bands (update_config ram station manager).1)).1.current_config
        ≡ station)
init-update_config_example =
    init-update_config ram ram-IsDurable manager station no_bands station-IsValid (omega arith)
      saved_ok refl

twenty-first : FirstOf (in_band 14074000) 3 (forty ∷ twenty ∷ eighty ∷ []) (some (1, twenty))
twenty-first = (omega arith, refl, refl, before)
  where
    before :
        (k : ℕ) (x : BandConfig)
        → k < 1
        → ◌≡◌ {A = Option BandConfig} (get_elem? (forty ∷ twenty ∷ eighty ∷ []) k) (some x)
        → in_band 14074000 x ≡ false
    before k x lt e = ground arith

second_port : FirstOf (λ p. p) 3 (twenty.antenna_ports) (some (1, true))
second_port = (omega arith, refl, refl, before)
  where
    before :
        (k : ℕ) (p : Bool)
        → k < 1
        → ◌≡◌ {A = Option Bool} (get_elem? (twenty.antenna_ports) k) (some p)
        → p ≡ false
    before k p lt e = ground arith

pub twenty-Chosen : Chosen station 14074000 1 1
twenty-Chosen = record { band = twenty; first_band = twenty-first; first_port = second_port }

set_frequency_selects_example :
    set_frequency 14074000 switch
    ≡ some (
      ok,
      record switch {
        relay_controller = some (record controller { latest_request = request_for 1 1 });
      },
    )
set_frequency_selects_example =
    set_frequency_selects switch 14074000 1 1 controller refl station-IsValid twenty-Chosen refl

eighty-first : FirstOf (in_band 3573000) 3 (forty ∷ twenty ∷ eighty ∷ []) (some (2, eighty))
eighty-first = (omega arith, refl, refl, before)
  where
    before :
        (k : ℕ) (x : BandConfig)
        → k < 2
        → ◌≡◌ {A = Option BandConfig} (get_elem? (forty ∷ twenty ∷ eighty ∷ []) k) (some x)
        → in_band 3573000 x ≡ false
    before k x lt e = ground arith

no_port : FirstOf (λ p. p) 3 (eighty.antenna_ports) none
no_port k p lt e = ground arith
