-- ===== src/CatParser/Bands.antt =====
-- The cached band index: when it is right, and what the frequency handler does with it.
use esp32_band_decoder.AntennaSwitch.{get_config, set_frequency}
use esp32_band_decoder.Base.{ℕ, ◌≡◌, ◌≢◌, ◌⊎◌, some, minus_one, arith}
use esp32_band_decoder.CatParser.{
  CatParser, System, search_band, get_band_index, remember, handle_frequency_change, update_config,
}
use esp32_band_decoder.Err.{Err, ok}

-- The cached index is -1 or the band of the cached frequency.
abbrev pub IsCoherent : CatParser → Type 0
IsCoherent c =
    (c.current_band_index ≡ minus_one)
    ⊎ (c.current_band_index ≡ search_band c.current_config c.current_frequency)

-- If the cached band is right, `get_band_index` returns what the search of the bands gives.
pub get_band_index-search :
    (c : CatParser) (freq : ℕ)
    → IsCoherent c
    → get_band_index c freq ≡ search_band c.current_config freq
unfolding get_band_index
get_band_index-search c freq h = ground arith

module _ {S C : Type 0} where
  -- When `handle_frequency_change` returns, a band cache that was right still is, and the
  -- configuration that the parser holds is the same.
  pub handle_frequency_change-IsCoherent :
      (freq : ℕ) (s : System S C) {e : Err} {s' : System S C}
      → IsCoherent s.cat
      → handle_frequency_change freq s ≡ some (e, s')
      → IsCoherent s'.cat × ((s'.cat).current_config ≡ (s.cat).current_config)
  unfolding handle_frequency_change
  handle_frequency_change-IsCoherent freq s h eq =
      ground (arith, get_band_index-search s.cat freq h)

  -- For a new frequency and a right cache, when the call returns: in the cached band nothing is
  -- asked of the switch and the result is ESP_OK; in another band the switch is asked, and its error
  -- is the result. ESP_OK leaves the frequency and its band cached, an error leaves the parser as it
  -- was.
  pub handle_frequency_change_cases :
      (freq : ℕ) (s : System S C) {e : Err} {s' : System S C}
      → IsCoherent s.cat
      → freq ≢ s.cat.current_frequency
      → handle_frequency_change freq s ≡ some (e, s')
      → let band = search_band s.cat.current_config freq in
        (s.cat.current_band_index ≡ band → (e ≡ ok) × (s'.switch ≡ s.switch))
        × (s.cat.current_band_index ≢ band → set_frequency freq s.switch ≡ some (e, s'.switch))
        × (e ≡ ok → (s'.cat.current_frequency ≡ freq) × (s'.cat.current_band_index ≡ band))
        × (e ≢ ok → s'.cat ≡ s.cat)
  unfolding handle_frequency_change
  handle_frequency_change_cases freq s h new eq =
      let found = get_band_index-search s.cat freq h in
      ((λ x. ground arith), (λ x. ground arith), (λ x. ground arith), (λ x. ground arith))

  -- After `update_config`, a new frequency that the new configuration puts in the band with the
  -- cached number is only remembered: the antenna switch is not asked, whatever antenna the new
  -- configuration gives to that band.
  pub update_config_stale :
      (freq : ℕ) (s : System S C)
      → freq ≢ s.cat.current_frequency
      → s.cat.current_band_index ≡ search_band (get_config s.switch) freq
      → let s1 = (update_config s).1 in
        handle_frequency_change freq s1
        ≡ some (ok, record s1 { cat = remember freq s.cat.current_band_index s1.cat })
  unfolding update_config handle_frequency_change get_band_index
  update_config_stale freq s new same = ground arith
