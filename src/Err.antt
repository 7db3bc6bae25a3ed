-- ===== src/Err.antt =====
-- `esp_err_t`: the codes that main/ returns or tests, and `other` for any other code of ESP-IDF.
use esp32_band_decoder.Base.{ℕ, Bool, true, false}

pub data Err : Type 0 where
  ok fail no_mem invalid_arg invalid_state not_found timeout nvs_not_found : Err
  nvs_invalid_length nvs_no_free_pages nvs_new_version_found : Err
  other : ℕ → Err

-- `ret == ESP_OK`.
abbrev pub is_ok : Err → Bool
is_ok ok = true
is_ok _ = false

-- `ret == ESP_ERR_TIMEOUT || ret == ESP_ERR_INVALID_STATE`.
abbrev pub is_connection_issue : Err → Bool
is_connection_issue timeout = true
is_connection_issue invalid_state = true
is_connection_issue _ = false

-- `ret == ESP_ERR_NVS_NOT_FOUND`.
abbrev pub is_nvs_not_found : Err → Bool
is_nvs_not_found nvs_not_found = true
is_nvs_not_found _ = false

-- `ret == ESP_ERR_INVALID_STATE`.
abbrev pub is_invalid_state : Err → Bool
is_invalid_state invalid_state = true
is_invalid_state _ = false

-- `ret == ESP_ERR_NVS_NO_FREE_PAGES || ret == ESP_ERR_NVS_NEW_VERSION_FOUND`.
abbrev pub is_nvs_unusable : Err → Bool
is_nvs_unusable nvs_no_free_pages = true
is_nvs_unusable nvs_new_version_found = true
is_nvs_unusable _ = false

-- `ret == ESP_FAIL`.
abbrev pub is_fail : Err → Bool
is_fail fail = true
is_fail _ = false
