-- ===== src/ConfigManager.antt =====
-- main/config_manager.cpp: the singleton that owns the configuration, saves it and notifies
-- observers. The NVS library of ESP-IDF is the parameter `Nvs`.
pub mod Update
pub mod Persist
use esp32_band_decoder.Base.{
  ℕ, ◌≡◌, Bool, true, ◌||◌, List, [], ◌∷◌, ◌++◌, Option, none, some, ltb, ◌==◌, if◌then◌else◌,
  length, pos,
}
use esp32_band_decoder.Config.{Config, max_bands, max_antenna_ports}
use esp32_band_decoder.Err.{Err, ok, invalid_arg, is_ok, is_nvs_not_found}
use esp32_band_decoder.Text.{Bytes, codes}

-- The NVS calls on the namespace "antenna_switch" and the key "config". A read is given the old
-- contents of the buffer and returns the new ones.
pub record Nvs (S : Type 0) : Type 0 where
  pub nvs_open : S → Err × S
  pub nvs_set_blob : Config → S → Err × S
  pub nvs_commit : S → Err × S
  pub nvs_get_blob : Config → S → Err × Config

-- An observer is named by a number, and what it has been told is kept in order.
pub record ConfigManager (S : Type 0) : Type 0 where
  pub current_config : Config
  pub observers : List ℕ
  pub notified : List (ℕ × Config)
  pub flash : S

abbrev pub notify : Config → List ℕ → List (ℕ × Config)
notify c [] = []
notify c (o ∷ os) = (o, c) ∷ notify c os

abbrev pub default_host : Bytes
default_host = codes "192.168.1.100"

-- Boolean form of the two range checks of `update_config`.
abbrev pub bad_bands : Config → Bool
bad_bands c = (c.num_bands == 0) || ltb max_bands c.num_bands

abbrev pub bad_ports : Config → Bool
bad_ports c = (c.num_antenna_ports == 0) || ltb max_antenna_ports c.num_antenna_ports

-- The default configuration keeps the bands that the loaded object has.
abbrev pub with_defaults : Config → Config
with_defaults c = record c {
  num_bands = 10;
  auto_mode = true;
  num_antenna_ports = 6;
  tcp_host = default_host;
  tcp_port = 12090;
  uart_baud_rate = pos 9600;
  uart_parity = 0;
  uart_stop_bits = 1;
  uart_flow_ctrl = 0;
}

module _ {S : Type 0} (nvs : Nvs S) where
  open nvs use {nvs_open, nvs_set_blob, nvs_commit, nvs_get_blob}

  unfoldable pub save_to_nvs : ConfigManager S → Err × ConfigManager S
  save_to_nvs m =
      let opened = nvs_open m.flash in
      let set = nvs_set_blob m.current_config opened.1 in
      let committed = nvs_commit set.1 in
      if is_ok opened.0
      then (if is_ok set.0
          then (committed.0, record m { flash = committed.1 })
          else (set.0, record m { flash = set.1 }))
      else (opened.0, record m { flash = opened.1 })

  unfoldable pub load_from_nvs : ConfigManager S → Err × ConfigManager S
  load_from_nvs m =
      let opened = nvs_open m.flash in
      let got = nvs_get_blob m.current_config opened.1 in
      if is_ok opened.0
      then (got.0, record m { flash = opened.1; current_config = got.1 })
      else (opened.0, record m { flash = opened.1 })

  unfoldable pub update_config : Config → ConfigManager S → Err × ConfigManager S
  unfolding save_to_nvs
  update_config new_config m =
      let saved = save_to_nvs (record m { current_config = new_config }) in
      let m' = saved.1 in
      if bad_bands new_config
      then (invalid_arg, m)
      else if bad_ports new_config
      then (invalid_arg, m)
      else if is_ok saved.0
      then (ok, record m' { notified = m'.notified ++ notify m'.current_config m'.observers })
      else (saved.0, m')

  unfoldable pub add_observer : ℕ → ConfigManager S → ConfigManager S
  add_observer o m = record m {
    observers = m.observers ++ o ∷ [];
    notified = m.notified ++ (o, m.current_config) ∷ [];
  }

  -- The last part of `init`: an empty host is replaced, and saved.
  unfoldable pub validate_host : ConfigManager S → Err × ConfigManager S
  unfolding save_to_nvs
  validate_host m =
      let c = m.current_config in
      if length c.tcp_host == 0
      then save_to_nvs (record m { current_config = record c { tcp_host = default_host } })
      else (ok, m)

  unfoldable pub init : ConfigManager S → Err × ConfigManager S
  init m =
      let loaded = load_from_nvs m in
      let m1 = loaded.1 in
      let saved = save_to_nvs (record m1 { current_config = with_defaults m1.current_config }) in
      if is_nvs_not_found loaded.0
      then (if is_ok saved.0 then validate_host saved.1 else saved)
      else if is_ok loaded.0
      then validate_host m1
      else loaded
