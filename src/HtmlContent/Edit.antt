-- ===== src/HtmlContent/Edit.antt =====
-- The functions of the script that change the configuration page in the browser:
-- `updateFrequencies`, `updateAntennaPorts` and `updateBandRows`. An exception is none.
pub mod Choices
pub mod Posted
pub mod Settled
pub mod Table
pub mod Twice
use mathlib.Core.List.{map}
use esp32_band_decoder.Base.{
  ℕ, zero, suc, ◌+◌, ◌%◌, Bool, false, List, [], ◌∷◌, Option, none, some, if◌then◌else◌, length,
  ◌==◌, get_elem?,
}
use esp32_band_decoder.HtmlContent.Pieces.{BandInfo, band_info, find}
use esp32_band_decoder.Text.{Bytes}

-- A row of the table: the value of its list, its two cells, and its boxes.
pub record Row : Type 0 where
  pub band : Bytes
  pub start_freq : ℕ
  pub end_freq : ℕ
  pub ports : List Bool

-- So many boxes, each checked as the box in its place was.
unfoldable pub resize : ℕ → List Bool → List Bool
resize zero ports = []
resize (suc n) [] = false ∷ resize n []
resize (suc n) (p ∷ ports) = p ∷ resize n ports

-- A row whose cells show the entry of `bandFrequencies` that is selected.
abbrev pub with_frequencies : Bytes → List Bool → Option BandInfo → Option Row
with_frequencies band ports none = none
with_frequencies band ports (some frequencies) = some (record {
  band = band;
  start_freq = frequencies.start_freq;
  end_freq = frequencies.end_freq;
  ports = ports;
})

unfoldable pub update_frequencies : Row → Option Row
update_frequencies row = with_frequencies row.band row.ports (find row.band band_info)

unfoldable pub update_antenna_ports : ℕ → List Row → List Row
unfolding resize
update_antenna_ports num_ports rows =
    map (λ (row : Row). record row { ports = resize num_ports row.ports }) rows

abbrev pub name_or_empty : Option BandInfo → Bytes
name_or_empty none = []
name_or_empty (some b) = b.name

-- `Object.entries(bandFrequencies)[i % length]`.
abbrev pub default_name : ℕ → Bytes
default_name i = name_or_empty (get_elem? band_info (i % length band_info))

-- The band and the boxes of the row that was in this place.
abbrev pub existing_band : ℕ → List Row → Bytes
existing_band i [] = default_name i
existing_band i (row ∷ rows) = if length row.band == 0 then default_name i else row.band

abbrev pub existing_ports : List Row → List Bool
existing_ports [] = []
existing_ports (row ∷ rows) = row.ports

unfoldable pub new_row : ℕ → ℕ → List Row → Option Row
unfolding resize
new_row num_ports i rows =
    let band = existing_band i rows in
    with_frequencies band (resize num_ports (existing_ports rows)) (find band band_info)

abbrev pub behind : List Row → List Row
behind [] = []
behind (row ∷ rows) = rows

abbrev pub both : Option Row → Option (List Row) → Option (List Row)
both none rest = none
both (some row) none = none
both (some row) (some rows) = some (row ∷ rows)

-- The loop over the rows: `left` rounds remain, from row `i`.
unfoldable pub update_band_rows : ℕ → ℕ → ℕ → List Row → Option (List Row)
unfolding new_row
update_band_rows num_ports zero i rows = some []
update_band_rows num_ports (suc left) i rows =
    both (new_row num_ports i rows) (update_band_rows num_ports left (i + 1) (behind rows))
