-- ===== src/RestartManager.antt =====
-- main/restart_manager.h and restart_manager.cpp: the count of failed boots and the last error.
pub mod Counter
use esp32_band_decoder.Base.{ℕ, ◌+◌, ◌%◌, leb, if◌then◌else◌}
use esp32_band_decoder.Err.{Err, ok, fail, is_ok, is_nvs_not_found}
use esp32_band_decoder.Storage.{Storage, read_write, restart_cnt, last_error}

abbrev pub max_restart_attempts : ℕ
max_restart_attempts = 3

module _ {W : Type 0} (storage : Storage W) where
  open storage use {nvs_open, nvs_get_u8, nvs_set_u8, nvs_set_i32, nvs_commit}

  -- The counter is a uint8_t, and a read that fails leaves it 0.
  unfoldable pub check_restart_count : W → Err × W
  check_restart_count w =
      let opened = nvs_open read_write w in
      let got = nvs_get_u8 restart_cnt 0 opened.1 in
      let restart_count = ((if is_nvs_not_found got.0 then 0 else got.1) + 1) % 256 in
      let set = nvs_set_u8 restart_cnt restart_count opened.1 in
      let stored = if is_ok set.0 then (nvs_commit set.1).1 else set.1 in
      if is_ok opened.0
      then (if leb max_restart_attempts restart_count then (fail, stored) else (ok, stored))
      else (opened.0, opened.1)

  unfoldable pub clear_restart_count : W → W
  clear_restart_count w =
      let opened = nvs_open read_write w in
      if is_ok opened.0 then (nvs_commit (nvs_set_u8 restart_cnt 0 opened.1).1).1 else opened.1

  unfoldable pub store_error_state : Err → W → W
  store_error_state error w =
      let opened = nvs_open read_write w in
      if is_ok opened.0 then (nvs_commit (nvs_set_i32 last_error error opened.1).1).1 else opened.1
