-- ===== src/ConfigManager/Persist.antt =====
-- A saved configuration is the one that the next boot loads.
use esp32_band_decoder.Base.{◌≡◌, ◌<◌, [], arith, length}
use esp32_band_decoder.Config.{Config, IsValid}
use esp32_band_decoder.ConfigManager.{
  Nvs, ConfigManager, save_to_nvs, load_from_nvs, update_config, validate_host, init,
}
use esp32_band_decoder.Err.{ok}

-- What NVS documents: a blob that was set and committed is what a later open and read return.
pub record IsDurable {S : Type 0} (nvs : Nvs S) : Type 0 where
  pub read_back :
      (c old : Config) (s : S)
      → (nvs.nvs_set_blob c s).0 ≡ ok
      → (nvs.nvs_commit (nvs.nvs_set_blob c s).1).0 ≡ ok
      → (nvs.nvs_open (nvs.nvs_commit (nvs.nvs_set_blob c s).1).1).0 ≡ ok
      → nvs.nvs_get_blob old (nvs.nvs_open (nvs.nvs_commit (nvs.nvs_set_blob c s).1).1).1 ≡ (ok, c)

-- A manager after a reboot: a blank configuration over the flash that was left.
abbrev pub reboot : {S : Type 0} → Config → ConfigManager S → ConfigManager S
reboot blank m = record { current_config = blank; observers = []; notified = []; flash = m.flash }

module _ {S : Type 0} (nvs : Nvs S) (d : IsDurable nvs) (m : ConfigManager S) where
  pub load-save :
      (blank : Config)
      → (save_to_nvs nvs m).0 ≡ ok
      → (nvs.nvs_open (save_to_nvs nvs m).1.flash).0 ≡ ok
      → ((load_from_nvs nvs (reboot blank (save_to_nvs nvs m).1)).0 ≡ ok)
        × ((load_from_nvs nvs (reboot blank (save_to_nvs nvs m).1)).1.current_config
            ≡ m.current_config)
  unfolding save_to_nvs load_from_nvs
  load-save blank saved opened =
      ground (arith, d.read_back m.current_config blank (nvs.nvs_open m.flash).1)

  -- `init` on flash whose blob is `c`, which has a host.
  init_loaded :
      (c : Config)
      → 0 < length c.tcp_host
      → (load_from_nvs nvs m).0 ≡ ok
      → (load_from_nvs nvs m).1.current_config ≡ c
      → ((init nvs m).0 ≡ ok) × ((init nvs m).1.current_config ≡ c)
  unfolding init validate_host
  init_loaded c host loaded same = ground arith

module _ {S : Type 0} (nvs : Nvs S) (d : IsDurable nvs) (m : ConfigManager S)
    (c blank : Config) where
  saves :
      IsValid c
      → (update_config nvs c m).0 ≡ ok
      → ((save_to_nvs nvs (record m { current_config = c })).0 ≡ ok)
        × ((update_config nvs c m).1.flash
            ≡ (save_to_nvs nvs (record m { current_config = c })).1.flash)
  unfolding update_config
  saves v h = ground arith

  -- On flash that keeps what was committed: a valid configuration that names a host and that
  -- `update_config` reported as saved is what `init` has in memory after a reboot, if NVS can be
  -- opened then.
  pub init-update_config :
      IsValid c
      → 0 < length c.tcp_host
      → (update_config nvs c m).0 ≡ ok
      → (nvs.nvs_open (update_config nvs c m).1.flash).0 ≡ ok
      → ((init nvs (reboot blank (update_config nvs c m).1)).0 ≡ ok)
        × ((init nvs (reboot blank (update_config nvs c m).1)).1.current_config ≡ c)
  init-update_config v host updated opened =
      let m1 : ConfigManager S = record m { current_config = c } in
      let (saved, kept) = saves v updated in
      let (l, e) = load-save nvs d m1 blank saved (rw kept at opened) in
      rw kept (init_loaded nvs d (reboot blank (save_to_nvs nvs m1).1) c host l e)
