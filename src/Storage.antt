-- ===== src/Storage.antt =====
-- The part of the NVS library of ESP-IDF that restart_manager.cpp and wifi_manager.cpp call, on the
-- namespace "storage". A handle is not modelled, since every function opens and closes its own.
use esp32_band_decoder.Base.{ℕ, suc, ◌<◌, ◌≡◌, ◌≢◌, ◌⊎◌, Option, none, some, length}
use esp32_band_decoder.Err.{Err, ok, nvs_not_found}
use esp32_band_decoder.Text.{Bytes, c_str}

pub data Mode : Type 0 where
  read_only read_write : Mode

pub data Key : Type 0 where
  wifi_ssid wifi_password restart_cnt last_error : Key

-- A read is given the old contents of its buffer and returns the new ones.
pub record Storage (W : Type 0) : Type 0 where
  pub nvs_open : Mode → W → Err × W
  pub nvs_set_str : Key → Bytes → W → Err × W
  -- `nvs_get_str` without a buffer, which gives the size that is needed.
  pub nvs_str_size : Key → W → Err × ℕ
  pub nvs_get_str : Key → Bytes → ℕ → W → Err × Bytes
  pub nvs_erase_key : Key → W → Err × W
  pub nvs_get_u8 : Key → ℕ → W → Err × ℕ
  pub nvs_set_u8 : Key → ℕ → W → Err × W
  pub nvs_set_i32 : Key → Err → W → Err × W
  pub nvs_commit : W → Err × W

-- What a read of a counter gives, by what is stored.
abbrev pub stored_u8 : ℕ → Option ℕ → Err × ℕ
stored_u8 old none = (nvs_not_found, old)
stored_u8 old (some n) = (ok, n)

-- The size that a text needs, with its NUL.
abbrev pub stored_size : Option Bytes → Err × ℕ
stored_size none = (nvs_not_found, 0)
stored_size (some text) = (ok, suc (length text))

-- What NVS documents of texts: what a successful call stored or erased is what the calls after it
-- see, opening and committing keep it, and other keys are not touched.
pub record KeepsText {W : Type 0} (storage : Storage W) : Type 0 where
  pub text : Key → W → Option Bytes
  pub opened : (k : Key) (m : Mode) (w : W) → text k (storage.nvs_open m w).1 ≡ text k w
  pub committed : (k : Key) (w : W) → text k (storage.nvs_commit w).1 ≡ text k w
  pub set :
      (k : Key) (v : Bytes) (w : W)
      → (storage.nvs_set_str k v w).0 ≡ ok
      → text k (storage.nvs_set_str k v w).1 ≡ some (c_str v)
  pub set_other :
      (k j : Key) (v : Bytes) (w : W) → k ≢ j → text j (storage.nvs_set_str k v w).1 ≡ text j w
  pub erased :
      (k : Key) (w : W)
      → ((storage.nvs_erase_key k w).0 ≡ ok) ⊎ ((storage.nvs_erase_key k w).0 ≡ nvs_not_found)
      → text k (storage.nvs_erase_key k w).1 ≡ none
  pub erased_other : (k j : Key) (w : W) → k ≢ j → text j (storage.nvs_erase_key k w).1 ≡ text j w
  pub size : (k : Key) (w : W) → storage.nvs_str_size k w ≡ stored_size (text k w)
  pub get :
      (k : Key) (old v : Bytes) (n : ℕ) (w : W)
      → text k w ≡ some v
      → length v < n
      → storage.nvs_get_str k old n w ≡ (ok, v)

-- The same of the restart counter, for flash on which no call fails.
pub record KeepsCount {W : Type 0} (storage : Storage W) : Type 0 where
  pub count : W → Option ℕ
  pub opens : (m : Mode) (w : W) → (storage.nvs_open m w).0 ≡ ok
  pub opened : (m : Mode) (w : W) → count (storage.nvs_open m w).1 ≡ count w
  pub committed : (w : W) → count (storage.nvs_commit w).1 ≡ count w
  pub get : (old : ℕ) (w : W) → storage.nvs_get_u8 restart_cnt old w ≡ stored_u8 old (count w)
  pub sets : (n : ℕ) (w : W) → (storage.nvs_set_u8 restart_cnt n w).0 ≡ ok
  pub set : (n : ℕ) (w : W) → count (storage.nvs_set_u8 restart_cnt n w).1 ≡ some n
  pub set_error :
      (k : Key) (e : Err) (w : W) → k ≢ restart_cnt → count (storage.nvs_set_i32 k e w).1 ≡ count w
