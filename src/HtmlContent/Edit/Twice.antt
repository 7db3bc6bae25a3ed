-- ===== src/HtmlContent/Edit/Twice.antt =====
-- The script registers the handler of each of the two numbers twice, in the attribute `onchange` and
-- with `addEventListener`: what the second run does, and which rows a run leaves as they are.
use mathlib.Core.Path.{subst}
use esp32_band_decoder.Base.{
  ℕ, zero, suc, ◌+◌, ◌≡◌, refl, sym, ap, ◌∙◌, List, [], ◌∷◌, some, length, get_elem?,
  some-injective,
}
use esp32_band_decoder.HtmlContent.Edit.{
  Row, update_antenna_ports, update_frequencies, update_band_rows, with_frequencies, both,
}
use esp32_band_decoder.HtmlContent.Edit.Settled.{
  new_row-settled, AreKnown, IsSettled, AreSettled, Keeps, update_band_rows-AreSettled,
}

pub update_band_rows-settled :
    (num_ports i : ℕ) (rows : List Row)
    → AreSettled num_ports rows
    → update_band_rows num_ports (length rows) i rows ≡ some rows
unfolding update_band_rows
update_band_rows-settled num_ports i [] h = refl
update_band_rows-settled num_ports i (row ∷ rows) h =
    ap (λ o. both o (update_band_rows num_ports (length rows) (i + 1) rows))
      (new_row-settled num_ports i row rows h.0)
    ∙ ap (λ o. both (some row) o) (update_band_rows-settled num_ports (i + 1) rows h.1)

pub update_antenna_ports-settled :
    (num_ports : ℕ) (rows : List Row)
    → AreSettled num_ports rows
    → update_antenna_ports num_ports rows ≡ rows
unfolding update_antenna_ports
update_antenna_ports-settled num_ports [] h = refl
update_antenna_ports-settled num_ports (row ∷ rows) h =
    ap (λ t. record row { ports = t } ∷ update_antenna_ports num_ports rows) h.0.boxes
    ∙ ap (λ t. row ∷ t) (update_antenna_ports-settled num_ports rows h.1)

update_frequencies-settled :
    (num_ports : ℕ) (row : Row) → IsSettled num_ports row → update_frequencies row ≡ some row
unfolding update_frequencies
update_frequencies-settled num_ports row h =
    ap (λ o. with_frequencies row.band row.ports o) h.listed
    ∙ (λ k. some (record row { start_freq = sym h.starts k; end_freq = sym h.ends k }))

AreSettled-at :
    (num_ports : ℕ) (rows : List Row)
    → AreSettled num_ports rows
    → (k : ℕ) (row : Row) → get_elem? rows k ≡ some row
    → IsSettled num_ports row
AreSettled-at num_ports [] h k row at = absurd (cc)
AreSettled-at num_ports (r ∷ rows) h zero row at =
    subst (IsSettled num_ports) (some-injective at) h.0
AreSettled-at num_ports (r ∷ rows) h (suc k) row at = AreSettled-at num_ports rows h.1 k row at

-- A run of `updateBandRows` on rows that show known bands makes as many rows as are asked for, of
-- which those that were there keep their bands and their boxes as far as there are ports. The cells
-- of the rows show the frequencies of their bands, and each row has a box for each port. After the
-- run no handler changes a row: `updateBandRows` and `updateAntennaPorts` may run again, and
-- `updateFrequencies` on any of the rows.
pub update_band_rows_twice :
    (num_ports num_bands : ℕ) (rows : List Row)
    → AreKnown rows
    → (rows' : List Row) × (update_band_rows num_ports num_bands 0 rows ≡ some rows')
      × (length rows' ≡ num_bands)
      × Keeps num_ports rows rows'
      × AreSettled num_ports rows'
      × (update_band_rows num_ports num_bands 0 rows' ≡ some rows')
      × (update_antenna_ports num_ports rows' ≡ rows')
      × ((k : ℕ) (row : Row) → get_elem? rows' k ≡ some row → update_frequencies row ≡ some row)
update_band_rows_twice num_ports num_bands rows h =
    let run = update_band_rows-AreSettled num_ports num_bands 0 rows h in
    let rows' = run.0 in
    (
      rows',
      run.1,
      run.2,
      run.4,
      run.3,
      subst (λ n. update_band_rows num_ports n 0 rows' ≡ some rows') run.2
          (update_band_rows-settled num_ports 0 rows' run.3),
      update_antenna_ports-settled num_ports rows' run.3,
      λ k row at.
          update_frequencies-settled num_ports row (AreSettled-at num_ports rows' run.3 k row at),
    )
