-- ===== src/AntennaSwitch/Selection.antt =====
-- Which relay a frequency asks for.
use esp32_band_decoder.AntennaSwitch.{Switch, set_frequency}
use esp32_band_decoder.Base.{
  ℕ, ◌+◌, ◌<◌, ◌≡◌, ◌⊎◌, inl, inr, refl, List, Bool, true, false, Option, none, some, pos, arith,
}
use esp32_band_decoder.Config.Search.{FirstOf, enabled, band_of-FirstOf, port_of-FirstOf}
use esp32_band_decoder.Config.{Config, BandConfig, IsValid, in_band, band_of, port_of}
use esp32_band_decoder.Err.{ok}
use esp32_band_decoder.Relay.{Relay, RelayChangeRequest, set_relay_for_antenna}

-- The band and the port that a configuration gives to a frequency, by the words of the manual: the
-- first configured band that holds it, and in that the first port that is enabled.
pub record Chosen (c : Config) (freq i j : ℕ) : Type 0 where
  pub band : BandConfig
  pub first_band : FirstOf (in_band freq) c.num_bands c.bands (some (i, band))
  pub first_port : FirstOf (λ p. p) c.num_antenna_ports band.antenna_ports (some (j, true))

order_cases : (a b : ℕ) → ((a < b) ⊎ (b < a)) ⊎ (a ≡ b)
order_cases a b = grind arith

module _ {A : Type 0} (test : A → Bool) where
  -- There is at most one first element.
  FirstOf-unique :
      (n : ℕ) (xs : List A) (r : Option (ℕ × A)) (i : ℕ) (a : A)
      → FirstOf test n xs r
      → FirstOf test n xs (some (i, a))
      → r ≡ some (i, a)
  FirstOf-unique n xs none i a miss (lt, at, hit, before) = cc (miss i a lt at)
  FirstOf-unique n xs (some (k, b)) i a (lt, at, hit, before) (lt', at', hit', before') =
      elim (order_cases k i) [
        | inl (inl below) ↦ cc (before' k b below at)
        | inl (inr above) ↦ cc (before i a above at')
        | inr equal ↦ cc
      ]

  FirstOf-none :
      (n : ℕ) (xs : List A) (r : Option (ℕ × A))
      → FirstOf test n xs r
      → FirstOf test n xs none
      → r ≡ none
  FirstOf-none n xs none h miss = refl
  FirstOf-none n xs (some (k, b)) (lt, at, hit, before) miss = cc (miss k b lt at)

module _ {c : Config} {freq i j : ℕ} (chosen : Chosen c freq i j) where
  pub band_of-Chosen : band_of c freq ≡ some (i, chosen.band)
  band_of-Chosen =
      FirstOf-unique (in_band freq) c.num_bands c.bands (band_of c freq) i chosen.band
        (band_of-FirstOf c freq) chosen.first_band

  port_of-Chosen : port_of c chosen.band ≡ some j
  port_of-Chosen = un_enabled (port_of c chosen.band) (
      FirstOf-unique (λ p. p) c.num_antenna_ports chosen.band.antenna_ports
        (enabled (port_of c chosen.band)) j true (port_of-FirstOf c chosen.band) chosen.first_port)
    where
      un_enabled : (o : Option ℕ) → enabled o ≡ some (j, true) → o ≡ some j
      un_enabled none h = cc
      un_enabled (some k) h = cc

  port-lt : j < c.num_antenna_ports
  port-lt = chosen.first_port.0

abbrev pub request_for : ℕ → ℕ → RelayChangeRequest
request_for i j = record { relay_id = pos (j + 1); band_number = pos i }

pub set_relay_for_antenna_valid :
    {C : Type 0} (i j : ℕ) (r : Relay C)
    → j < 16
    → set_relay_for_antenna (pos (j + 1)) (pos i) r
      ≡ (ok, record r { latest_request = request_for i j })
unfolding set_relay_for_antenna
set_relay_for_antenna_valid i j r lt = ground arith

module _ {S C : Type 0} (sw : Switch S C) (freq i j : ℕ) where
  -- In automatic mode, with a valid configuration and a relay controller, a frequency in a
  -- configured band that has an enabled port leads to a request for the relay of the first such
  -- port of the first such band. The request is all that changes.
  pub set_frequency_selects :
      (r : Relay C)
      → sw.manager.current_config.auto_mode ≡ true
      → IsValid sw.manager.current_config
      → Chosen sw.manager.current_config freq i j
      → sw.relay_controller ≡ some r
      → set_frequency freq sw
        ≡ some (
          ok,
          record sw { relay_controller = some (record r { latest_request = request_for i j }) },
        )
  unfolding set_frequency
  set_frequency_selects r auto v chosen here =
      let fits : j < 16 = omega (arith, port-lt chosen) in
      ground (
        arith,
        band_of-Chosen chosen,
        port_of-Chosen chosen,
        set_relay_for_antenna_valid i j r fits,
      )

  -- In automatic mode and without a relay controller, a frequency in a configured band that has an
  -- enabled port is a call through a null pointer.
  pub set_frequency_null :
      sw.manager.current_config.auto_mode ≡ true
      → Chosen sw.manager.current_config freq i j
      → sw.relay_controller ≡ none
      → set_frequency freq sw ≡ none
  unfolding set_frequency
  set_frequency_null auto chosen missing =
      ground (arith, band_of-Chosen chosen, port_of-Chosen chosen)

-- Out of automatic mode, for a frequency that no configured band holds, and for a band with no
-- enabled port, the call reports success and changes nothing.
pub set_frequency_quiet :
    {S C : Type 0} (sw : Switch S C) (freq : ℕ)
    → let c = sw.manager.current_config in
      (c.auto_mode ≡ false)
        ⊎ (FirstOf (in_band freq) c.num_bands c.bands none
            ⊎ ((i : ℕ) × (b : BandConfig) × FirstOf (in_band freq) c.num_bands c.bands (some (i, b))
                × FirstOf (λ p. p) c.num_antenna_ports b.antenna_ports none))
      → set_frequency freq sw ≡ some (ok, sw)
unfolding set_frequency
set_frequency_quiet sw freq (inl off) = ground arith
set_frequency_quiet sw freq (inr (inl none_holds)) =
    let c = sw.manager.current_config in
    ground (
      arith,
      FirstOf-none (in_band freq) c.num_bands c.bands (band_of c freq) (band_of-FirstOf c freq)
          none_holds,
    )
set_frequency_quiet sw freq (inr (inr (i, b, holds, no_port))) =
    let c = sw.manager.current_config in
    ground (
      arith,
      FirstOf-unique (in_band freq) c.num_bands c.bands (band_of c freq) i b
          (band_of-FirstOf c freq) holds,
      un_none (port_of c b) (
          FirstOf-none (λ p. p) c.num_antenna_ports b.antenna_ports (enabled (port_of c b))
            (port_of-FirstOf c b) no_port),
    )
  where
    un_none : (o : Option ℕ) → enabled o ≡ none → o ≡ none
    un_none none h = refl
    un_none (some k) h = cc
