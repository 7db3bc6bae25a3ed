-- ===== src/ConfigManager/Update.antt =====
-- What `update_config` does on every branch.
use esp32_band_decoder.Base.{◌≡◌, ◌≢◌, ◌++◌, inl, inr, arith, Bool-cases}
use esp32_band_decoder.Config.{Config, IsValid}
use esp32_band_decoder.ConfigManager.{
  Nvs, ConfigManager, notify, bad_bands, bad_ports, update_config,
}
use esp32_band_decoder.Err.{ok, invalid_arg}

module _ {S : Type 0} (nvs : Nvs S) (c : Config) (m : ConfigManager S) where
  -- If the configuration in memory is valid it is so after `update_config`, whatever is asked for
  -- and whatever NVS answers.
  pub update_config-IsValid :
      IsValid m.current_config → IsValid (update_config nvs c m).1.current_config
  unfolding update_config
  update_config-IsValid v = ground arith

  refused : ¬ IsValid c → update_config nvs c m ≡ (invalid_arg, m)
  unfolding update_config
  refused bad = elim (Bool-cases (bad_bands c)) [
    | inl b ↦ rw (b, update_config)
    | inr b ↦ elim (Bool-cases (bad_ports c)) [
      | inl p ↦ rw (b, p, update_config)
      | inr p ↦ absurd (bad (ground arith))
    ]
  ]

  -- A configuration that is not valid is refused with ESP_ERR_INVALID_ARG and changes nothing,
  -- flash and observers included; a valid one is in memory afterwards, also when saving it failed.
  pub update_config_cases :
      (¬ IsValid c → update_config nvs c m ≡ (invalid_arg, m))
      × (IsValid c → (update_config nvs c m).1.current_config ≡ c)
  unfolding update_config
  update_config_cases = (refused, λ v. ground arith)

  -- A valid configuration is told to every observer once and in order if it was saved, and to none
  -- if saving failed.
  pub update_config_notifies :
      IsValid c
      → ((update_config nvs c m).0 ≡ ok
          → (update_config nvs c m).1.notified ≡ m.notified ++ notify c m.observers)
        × ((update_config nvs c m).0 ≢ ok → (update_config nvs c m).1.notified ≡ m.notified)
  unfolding update_config
  update_config_notifies v = (λ h. ground arith, λ h. ground arith)
