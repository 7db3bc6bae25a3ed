-- ===== src/HtmlContent/Edit/Settled.antt =====
-- The rows that `updateBandRows` makes: their cells are those of their bands, and rows that were
-- there keep their bands.
use esp32_band_decoder.Base.{
  ℕ, zero, suc, ◌+◌, ◌%◌, ◌≡◌, refl, sym, ap, ◌∙◌, true, false, Bool, List, [], ◌∷◌, Option, none,
  some, arith, length, if◌then◌else◌, ◌==◌, get_elem?, every_below, every_below-at,
}
use esp32_band_decoder.HtmlContent.Edit.{
  Row, resize, new_row, update_band_rows, with_frequencies, existing_band, existing_ports,
  default_name, name_or_empty, behind, both,
}
use esp32_band_decoder.HtmlContent.Pieces.{BandInfo, band_info, find}
use esp32_band_decoder.Text.{Bytes, eq_bytes}

resize_twice : (n : ℕ) (ports : List Bool) → resize n (resize n ports) ≡ resize n ports
unfolding resize
resize_twice zero ports = refl
resize_twice (suc n) [] = ap (λ t. false ∷ t) (resize_twice n [])
resize_twice (suc n) (p ∷ ports) = ap (λ t. p ∷ t) (resize_twice n ports)

-- The row shows a band of the table.
abbrev pub IsKnown : Row → Type 0
IsKnown row = (b : BandInfo) × (find row.band band_info ≡ some b)

abbrev pub AreKnown : List Row → Type 0
AreKnown [] = Unit {0}
AreKnown (row ∷ rows) = IsKnown row × AreKnown rows

known_test : Option BandInfo → Bool
known_test none = false
known_test (some b) = true

known_test-some : (o : Option BandInfo) → known_test o ≡ true → (b : BandInfo) × (o ≡ some b)
unfolding known_test
known_test-some none h = absurd (cc)
known_test-some (some b) h = (b, refl)

name_at : ℕ → Bytes
name_at k = name_or_empty (get_elem? band_info k)

names_table : every_below (λ k. known_test (find (name_at k) band_info)) 10 ≡ true
unfolding every_below known_test find eq_bytes name_at
names_table = refl

default-IsKnown : (i : ℕ) → (b : BandInfo) × (find (default_name i) band_info ≡ some b)
unfolding name_at
default-IsKnown i = known_test-some (find (default_name i) band_info) (
    every_below-at (λ k. known_test (find (name_at k) band_info)) 10 {k = i % 10} names_table
      (omega arith))

empty_unknown : find [] band_info ≡ none
unfolding find eq_bytes
empty_unknown = refl

-- The cells of the row are those of its band, and it has this number of boxes.
pub record IsSettled (num_ports : ℕ) (row : Row) : Type 0 where
  pub info : BandInfo
  pub listed : find row.band band_info ≡ some info
  pub starts : row.start_freq ≡ info.start_freq
  pub ends : row.end_freq ≡ info.end_freq
  pub boxes : resize num_ports row.ports ≡ row.ports

abbrev pub AreSettled : ℕ → List Row → Type 0
AreSettled num_ports [] = Unit {0}
AreSettled num_ports (row ∷ rows) = IsSettled num_ports row × AreSettled num_ports rows

-- A row that was in this place keeps its band, and its boxes as far as there are ports.
abbrev pub Keeps : ℕ → List Row → List Row → Type 0
Keeps num_ports [] rows' = Unit {0}
Keeps num_ports (row ∷ rows) [] = Unit {0}
Keeps num_ports (row ∷ rows) (r ∷ rows') =
    (r.band ≡ row.band) × (r.ports ≡ resize num_ports row.ports) × Keeps num_ports rows rows'

Keeps-none : (num_ports : ℕ) (rows : List Row) → Keeps num_ports rows []
Keeps-none num_ports [] = tt
Keeps-none num_ports (row ∷ rows) = tt

abbrev pub filled : ℕ → ℕ → List Row → BandInfo → Row
unfolding resize
filled num_ports i rows b = record {
  band = existing_band i rows;
  start_freq = b.start_freq;
  end_freq = b.end_freq;
  ports = resize num_ports (existing_ports rows);
}

pub new_row-filled :
    (num_ports i : ℕ) (rows : List Row) (b : BandInfo)
    → find (existing_band i rows) band_info ≡ some b
    → new_row num_ports i rows ≡ some (filled num_ports i rows b)
unfolding new_row
new_row-filled num_ports i rows b h =
    ap (λ o. with_frequencies (existing_band i rows) (resize num_ports (existing_ports rows)) o) h

find_named :
    (band : Bytes) (b : BandInfo) → find band band_info ≡ some b → (length band == 0) ≡ false
find_named [] b h = absurd (cc (empty_unknown))
find_named (c ∷ band) b h = ground arith

pub existing-known :
    (i : ℕ) (row : Row) (rows : List Row) (b : BandInfo)
    → find row.band band_info ≡ some b
    → existing_band i (row ∷ rows) ≡ row.band
existing-known i row rows b h =
    ap (λ t. if t then default_name i else row.band) (find_named row.band b h)

existing-IsKnown :
    (i : ℕ) (rows : List Row)
    → AreKnown rows
    → (b : BandInfo) × (find (existing_band i rows) band_info ≡ some b)
existing-IsKnown i [] h = default-IsKnown i
existing-IsKnown i (row ∷ rows) h =
    (h.0.0, ap (λ t. find t band_info) (existing-known i row rows h.0.0 h.0.1) ∙ h.0.1)

behind-AreKnown : (rows : List Row) → AreKnown rows → AreKnown (behind rows)
behind-AreKnown [] h = tt
behind-AreKnown (row ∷ rows) h = h.1

filled-Keeps :
    (num_ports i : ℕ) (rows rows' : List Row)
    (known : (b : BandInfo) × (find (existing_band i rows) band_info ≡ some b))
    → AreKnown rows
    → Keeps num_ports (behind rows) rows'
    → Keeps num_ports rows (filled num_ports i rows known.0 ∷ rows')
unfolding filled
filled-Keeps num_ports i [] rows' known h kept = tt
filled-Keeps num_ports i (row ∷ rows) rows' known h kept =
    (existing-known i row rows h.0.0 h.0.1, refl, kept)

pub update_band_rows-AreSettled :
    (num_ports num_bands i : ℕ) (rows : List Row)
    → AreKnown rows
    → (rows' : List Row) × (update_band_rows num_ports num_bands i rows ≡ some rows')
      × (length rows' ≡ num_bands)
      × AreSettled num_ports rows'
      × Keeps num_ports rows rows'
unfolding update_band_rows
update_band_rows-AreSettled num_ports zero i rows h =
    ([], refl, refl, tt, Keeps-none num_ports rows)
update_band_rows-AreSettled num_ports (suc left) i rows h =
    let known = existing-IsKnown i rows h in
    let row = filled num_ports i rows known.0 in
    let rest =
      update_band_rows-AreSettled num_ports left (i + 1) (behind rows) (behind-AreKnown rows h) in
    let settled : IsSettled num_ports (filled num_ports i rows known.0) = record {
      info = known.0;
      listed = known.1;
      starts = refl;
      ends = refl;
      boxes = resize_twice num_ports (existing_ports rows);
    } in
    (
      row ∷ rest.0,
      ap (λ o. both o (update_band_rows num_ports left (i + 1) (behind rows)))
            (new_row-filled num_ports i rows known.0 known.1)
          ∙ ap (λ o. both (some row) o) rest.1,
      ap (λ t. suc t) rest.2,
      (settled, rest.3),
      filled-Keeps num_ports i rows rest.0 known h rest.4,
    )

pub new_row-settled :
    (num_ports i : ℕ) (row : Row) (rows : List Row)
    → IsSettled num_ports row
    → new_row num_ports i (row ∷ rows) ≡ some row
unfolding filled
new_row-settled num_ports i row rows h =
    let band = existing-known i row rows h.info h.listed in
    new_row-filled num_ports i (row ∷ rows) h.info (ap (λ t. find t band_info) band ∙ h.listed)
    ∙ (λ k. some (record {
      band = band k;
      start_freq = sym h.starts k;
      end_freq = sym h.ends k;
      ports = h.boxes k;
    }))
