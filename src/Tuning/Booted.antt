-- ===== src/Tuning/Booted.antt =====
-- The first frequency after a boot.
use esp32_band_decoder.Base.{◌≡◌, minus_one}
use esp32_band_decoder.CatParser
use esp32_band_decoder.CatParser.{CatParser}
use esp32_band_decoder.Config.{Config}
use esp32_band_decoder.Err.{Err}
use esp32_band_decoder.Relay
use esp32_band_decoder.Relay.{Relay}

-- The parser has not seen a frequency.
abbrev pub IsBlank : CatParser → Type 0
IsBlank c = (c.current_band_index ≡ minus_one) × (c.current_frequency ≡ 0)
