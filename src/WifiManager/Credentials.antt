-- ===== src/WifiManager/Credentials.antt =====
-- The stored name and password of the network.
use esp32_band_decoder.Base.{
  ℕ, ◌<◌, ◌≤◌, ◌≡◌, ◌≢◌, ◌⊎◌, inl, inr, refl, ap, ◌∙◌, Bool, true, false, [], ◌∷◌, ◌++◌, none, some,
  length, length-append, arith, if◌then◌else◌, Bool-cases,
}
use esp32_band_decoder.Err.{Err, ok, nvs_not_found, nvs_invalid_length}
use esp32_band_decoder.Storage.{
  Storage, read_only, read_write, wifi_ssid, wifi_password, KeepsText, stored_size,
}
use esp32_band_decoder.Text.CStrings.{NoNul, c_str-append, c_str-c_str}
use esp32_band_decoder.Text.{Bytes, c_str}
use esp32_band_decoder.WifiManager.{
  save_credentials, load_credentials, clear_credentials, read_str, erase_failed, sta_ssid,
  sta_password,
}

ssid-ne-password : wifi_ssid ≢ wifi_password
ssid-ne-password h = cc

password-ne-ssid : wifi_password ≢ wifi_ssid
password-ne-ssid h = cc

erased_cases : (e : Err) → erase_failed e ≡ false → (e ≡ ok) ⊎ (e ≡ nvs_not_found)
erased_cases e h = ground arith

length_positive : (s : Bytes) → s ≢ [] → 1 ≤ length s
length_positive [] h = absurd (h refl)
length_positive (c ∷ cs) h = omega arith

full_name_long :
    (ssid password : Bytes)
    → NoNul ssid
    → length ssid ≡ 32
    → sta_password password ≢ []
    → 33 ≤ length (c_str (sta_ssid ssid password))
full_name_long ssid password n full some_password =
    rw
      (
        c_str-c_str (ssid ++ (password ++ 0 ∷ [])),
        c_str-append ssid (password ++ 0 ∷ []) n,
        length-append ssid (sta_password password),
      )
      (omega (arith, full, length_positive (sta_password password) some_password))

module _ {W : Type 0} (storage : Storage W) (keeps : KeepsText storage) where
  open keeps use {text}

  saved_texts :
      (ssid password : Bytes) (w : W)
      → (save_credentials storage ssid password w).0 ≡ ok
      → let w' = (save_credentials storage ssid password w).1 in
        (text wifi_ssid w' ≡ some (c_str ssid)) × (text wifi_password w' ≡ some (c_str password))
  unfolding save_credentials
  saved_texts ssid password w h =
      let opened = (storage.nvs_open read_write w).1 in
      let named = storage.nvs_set_str wifi_ssid ssid opened in
      let set = storage.nvs_set_str wifi_password password named.1 in
      ground (
        arith,
        keeps.set wifi_ssid ssid opened,
        keeps.set wifi_password password named.1,
        keeps.set_other wifi_password wifi_ssid password named.1 password-ne-ssid,
        keeps.committed wifi_ssid set.1,
        keeps.committed wifi_password set.1,
      )

  -- A text that fits is read whole, and one that does not is refused.
  read_str_cases :
      (ssid : Bool) (v : Bytes) (size : ℕ) (w : W)
      → text (if ssid then wifi_ssid else wifi_password) w ≡ some v
      → (length v < size → read_str storage ssid size w ≡ (ok, v))
        × (size ≤ length v → read_str storage ssid size w ≡ (nvs_invalid_length, []))
  read_str_cases ssid v size w h =
      let key = if ssid then wifi_ssid else wifi_password in
      let needs = keeps.size key w ∙ ap stored_size h in
      (
        (λ fits. rw needs (ground (arith, keeps.get key [] v size w h fits))),
        λ long. rw needs (ground arith),
      )

  cleared_texts :
      (w : W)
      → (clear_credentials storage w).0 ≡ ok
      → text wifi_ssid (clear_credentials storage w).1 ≡ none
  unfolding clear_credentials
  cleared_texts w h =
      let opened = (storage.nvs_open read_write w).1 in
      let named = storage.nvs_erase_key wifi_ssid opened in
      let erased = storage.nvs_erase_key wifi_password named.1 in
      elim (Bool-cases (erase_failed named.0)) [
        | inl bad ↦ ground arith
        | inr good ↦ ground (
          arith,
          keeps.erased wifi_ssid opened (erased_cases named.0 good),
          keeps.erased_other wifi_password wifi_ssid named.1 password-ne-ssid,
          keeps.committed wifi_ssid erased.1,
        )
      ]

  module _ (ssid password : Bytes) (w : W) where
    abbrev saved : Err × W
    saved = save_credentials storage ssid password w

    -- On flash that keeps what was stored, when it can be opened for reading: credentials that were
    -- reported as saved are loaded again, up to the first NUL of each, if they fit the buffers. A
    -- name that does not fit makes the load fail with ESP_ERR_NVS_INVALID_LENGTH.
    pub load_credentials-save_credentials :
        (m n : ℕ)
        → saved.0 ≡ ok
        → (storage.nvs_open read_only saved.1).0 ≡ ok
        → (length (c_str ssid) < m
            → length (c_str password) < n
            → (load_credentials storage m n saved.1).0 ≡ (ok, c_str ssid, c_str password))
          × (m ≤ length (c_str ssid)
              → (load_credentials storage m n saved.1).0 ≡ (nvs_invalid_length, [], []))
    unfolding load_credentials
    load_credentials-save_credentials m n h opens =
        let opened = (storage.nvs_open read_only saved.1).1 in
        let (s, p) = saved_texts ssid password w h in
        let named = keeps.opened wifi_ssid read_only saved.1 ∙ s in
        let set = keeps.opened wifi_password read_only saved.1 ∙ p in
        let (fits, long) = read_str_cases true (c_str ssid) m opened named in
        let (fits', long') = read_str_cases false (c_str password) n opened set in
        ((λ a b. rw (opens, fits a, fits' b) refl), λ a. rw (opens, long a) refl)

  -- A name that fills its 32 bytes has no NUL in the structure, so it is saved with the password
  -- behind it: unless the password is empty, the load at the next start fails.
  pub full_name_lost :
      (ssid password : Bytes) (w : W)
      → NoNul ssid
      → length ssid ≡ 32
      → sta_password password ≢ []
      → let saved = save_credentials storage (sta_ssid ssid password) (sta_password password) w in
        saved.0 ≡ ok
        → (storage.nvs_open read_only saved.1).0 ≡ ok
        → (load_credentials storage 33 65 saved.1).0 ≡ (nvs_invalid_length, [], [])
  full_name_lost ssid password w n full some_password h opens =
      (load_credentials-save_credentials (sta_ssid ssid password) (sta_password password) w 33 65 h
          opens).1
        (full_name_long ssid password n full some_password)

  -- Once credentials are reported as cleared, a load finds none.
  pub load_credentials-clear_credentials :
      (m n : ℕ) (w : W)
      → let cleared = clear_credentials storage w in
        cleared.0 ≡ ok
        → (storage.nvs_open read_only cleared.1).0 ≡ ok
        → (load_credentials storage m n cleared.1).0 ≡ (nvs_not_found, [], [])
  unfolding load_credentials
  load_credentials-clear_credentials m n w h opens =
      let cleared = clear_credentials storage w in
      let opened = (storage.nvs_open read_only cleared.1).1 in
      let none_left = keeps.opened wifi_ssid read_only cleared.1 ∙ cleared_texts w h in
      let needs = keeps.size wifi_ssid opened ∙ ap stored_size none_left in rw (opens, needs) refl
