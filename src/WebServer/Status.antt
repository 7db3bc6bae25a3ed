-- ===== src/WebServer/Status.antt =====
-- The antenna that the status page shows, and the antenna that the switch asks for.
use mathlib.Core.Path.{subst}
use esp32_band_decoder.AntennaSwitch.Selection.{request_for, set_relay_for_antenna_valid}
use esp32_band_decoder.AntennaSwitch.{Switch, set_frequency}
use esp32_band_decoder.Base.{ℕ, ◌+◌, ◌<◌, ◌≡◌, ◌≢◌, inl, inr, some, arith, Option-cases, true}
use esp32_band_decoder.Config.Search.{FirstOf, enabled, port_of-FirstOf}
use esp32_band_decoder.Config.{Config, BandConfig, IsValid, band_of, port_of}
use esp32_band_decoder.Err.{ok}
use esp32_band_decoder.Relay.{Relay}
use esp32_band_decoder.WebServer.{find_active_port}

port_of-lt : (c : Config) (b : BandConfig) (j : ℕ) → port_of c b ≡ some j → j < c.num_antenna_ports
port_of-lt c b j e =
    (subst (λ o. FirstOf (λ p. p) c.num_antenna_ports b.antenna_ports (enabled o)) e
      (port_of-FirstOf c b)).0

module _ {S C : Type 0} (sw : Switch S C) (freq : ℕ) where
  -- In automatic mode, with a valid configuration and a relay controller: the number that the status
  -- page shows for a frequency is the relay that the antenna switch asks for on that frequency, and
  -- when the page shows no antenna the switch changes nothing.
  pub find_active_port-set_frequency :
      (r : Relay C)
      → sw.manager.current_config.auto_mode ≡ true
      → IsValid sw.manager.current_config
      → sw.relay_controller ≡ some r
      → let shown = find_active_port freq sw.manager.current_config in
        (shown ≡ 0 → set_frequency freq sw ≡ some (ok, sw))
        × (shown ≢ 0
            → (i : ℕ) × (j : ℕ) × (shown ≡ j + 1)
              × (set_frequency freq sw
                  ≡ some (
                    ok,
                    record sw {
                      relay_controller = some (record r { latest_request = request_for i j });
                    },
                  )))
  unfolding find_active_port set_frequency
  find_active_port-set_frequency r auto v here =
      let c = sw.manager.current_config in
      elim (Option-cases (band_of c freq)) [
        | inl outside ↦ (λ h. ground arith, λ h. absurd (ground arith))
        | inr ((i, b), inside) ↦ elim (Option-cases (port_of c b)) [
          | inl closed ↦ (λ h. ground arith, λ h. absurd (ground arith))
          | inr (j, open_port) ↦
              let fits : j < 16 = omega (arith, port_of-lt c b j open_port, v.ports_fit) in
              (
                λ h. absurd (ground arith),
                λ h. (i, j, ground arith, ground (arith, set_relay_for_antenna_valid i j r fits)),
              )
        ]
      ]
