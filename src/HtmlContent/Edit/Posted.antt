-- ===== src/HtmlContent/Edit/Posted.antt =====
-- What the form posts after its numbers are changed and the script has made the rows anew.
use mathlib.Core.List.{map}
use esp32_band_decoder.Base.{
  ℕ, zero, suc, ◌+◌, ◌≤◌, ◌≡◌, refl, sym, ap, ◌∙◌, Bool, List, [], ◌∷◌, ◌++◌, some, length, take,
}
use esp32_band_decoder.Config.{BandConfig, Config, max_antenna_ports, max_bands}
use esp32_band_decoder.HtmlContent.Edit.{Row, resize}
use esp32_band_decoder.HtmlContent.Edit.Table.{
  value_or_empty, shown_row, shown_rows, edited_row, edited_rows, edited_form,
}
use esp32_band_decoder.HtmlContent.Edit.Settled.{IsSettled, AreSettled, IsKnown, AreKnown}
use esp32_band_decoder.HtmlContent.Form.{entries, submit_config}
use esp32_band_decoder.HtmlContent.Pieces.{Piece, band_info, find}
use esp32_band_decoder.HtmlContent.Rows.{
  IsListed, AreListed, selects, info_of, entries-append, row_entries,
}
use esp32_band_decoder.HtmlContent.Unchanged.{IsEditable, posted_config, submit_config-entries}
use esp32_band_decoder.HtmlContent.{
  band_name, port_boxes, band_row, band_rows, server_boxes, uart_boxes, mode_box, config_form,
}
use esp32_band_decoder.HtmlContent.Edit.Choices.{
  band_of, find-Found, entries-edited_row, port_boxes-resize,
}

pub length-resize : (n : ℕ) (ports : List Bool) → length (resize n ports) ≡ n
unfolding resize
length-resize zero ports = refl
length-resize (suc n) [] = ap (λ t. suc t) (length-resize n [])
length-resize (suc n) (p ∷ ports) = ap (λ t. suc t) (length-resize n ports)

band_of-IsListed : (n : ℕ) (row : Row) → IsSettled n row → IsListed (band_of row)
band_of-IsListed n row h =
    let found = find-Found row.band band_info h.info h.listed in
    record {
      index = found.1.0;
      entry = found.1.1 ∙ (λ k.
          some (record { name = found.0 k; start_freq = sym h.starts k; end_freq = sym h.ends k }));
      all_ports = length-resize max_antenna_ports row.ports;
    }

band_of-AreListed :
    (n : ℕ) (rows : List Row) (rest : List BandConfig)
    → AreSettled n rows
    → AreListed (length rows) (map band_of rows ++ rest)
band_of-AreListed n [] rest h = tt
band_of-AreListed n (row ∷ rows) rest h =
    (band_of-IsListed n row h.0, band_of-AreListed n rows rest h.1)

-- The controls of the rows that the script made post what those of the page for their bands do.
edited_row-band_row :
    (n i : ℕ) (row : Row)
    → n ≤ max_antenna_ports
    → IsSettled n row
    → entries (edited_row i row) ≡ entries (band_row n i (band_of row))
edited_row-band_row n i row few h =
    let size : length row.ports ≡ n = ap length (sym h.boxes) ∙ length-resize n row.ports in
    let boxes : port_boxes i n 0 (resize max_antenna_ports row.ports) ≡ port_boxes i n 0 row.ports =
      port_boxes-resize i 0 n max_antenna_ports row.ports few ∙ ap (port_boxes i n 0) h.boxes in
    entries-edited_row i row h.info h.listed
    ∙ ap (λ t. (band_name i, row.band) ∷ entries t)
        (ap (λ t. port_boxes i t 0 row.ports) size ∙ sym boxes)
    ∙ sym (row_entries n i (band_of row) (band_of-IsListed n row h))

edited_rows-band_rows :
    (n i : ℕ) (rows : List Row) (rest : List BandConfig)
    → n ≤ max_antenna_ports
    → AreSettled n rows
    → entries (edited_rows i rows)
      ≡ entries (band_rows n (length rows) i (map band_of rows ++ rest))
unfolding edited_rows band_rows
edited_rows-band_rows n i [] rest few h = refl
edited_rows-band_rows n i (row ∷ rows) rest few h =
    entries-append (edited_row i row) (edited_rows (i + 1) rows)
    ∙ ap (λ t. t ++ entries (edited_rows (i + 1) rows)) (edited_row-band_row n i row few h.0)
    ∙ ap (λ t. entries (band_row n i (band_of row)) ++ t)
        (edited_rows-band_rows n (i + 1) rows rest few h.1)
    ∙ sym (
        entries-append (band_row n i (band_of row))
          (band_rows n (length rows) (i + 1) (map band_of rows ++ rest)))

-- The configuration with other numbers and the bands of the rows, before further bands.
abbrev pub edited : Config → ℕ → List Row → List BandConfig → Config
edited c num_ports rows rest = record c {
  num_bands = length rows;
  num_antenna_ports = num_ports;
  bands = map band_of rows ++ rest;
}

entries_within :
    (us vs xs ys ds : List Piece)
    → entries xs ≡ entries ys
    → entries (us ++ (vs ++ (xs ++ ds))) ≡ entries (us ++ (vs ++ (ys ++ ds)))
entries_within us vs xs ys ds h = simp (entries-append, h) refl

edited_form-config_form :
    (c : Config) (n : ℕ) (rows : List Row) (rest : List BandConfig)
    → n ≤ max_antenna_ports
    → AreSettled n rows
    → entries (edited_form c (length rows) n rows) ≡ entries (config_form (edited c n rows rest))
unfolding edited_form config_form uart_boxes mode_box server_boxes
edited_form-config_form c n rows rest few h =
    entries_within (server_boxes (edited c n rows rest)) (uart_boxes c) (edited_rows 0 rows)
      (band_rows n (length rows) 0 (map band_of rows ++ rest)) (mode_box c)
      (edited_rows-band_rows n 0 rows rest few h)

-- The numbers of the form are in range, and its rows are settled.
pub record IsComposed (num_ports : ℕ) (rows : List Row) : Type 0 where
  pub some_bands : 1 ≤ length rows
  pub bands_fit : length rows ≤ max_bands
  pub some_ports : 1 ≤ num_ports
  pub ports_fit : num_ports ≤ max_antenna_ports
  pub settled : AreSettled num_ports rows

pub edited-IsEditable :
    (c : Config) (n : ℕ) (rows : List Row) (rest : List BandConfig)
    → IsEditable c
    → IsComposed n rows
    → IsEditable (edited c n rows rest)
edited-IsEditable c n rows rest h new = record {
  valid = record {
    some_bands = new.some_bands;
    bands_fit = new.bands_fit;
    some_ports = new.some_ports;
    ports_fit = new.ports_fit;
  };
  port_fits = h.port_fits;
  rate = h.rate;
  rate_index = h.rate_index;
  is_rate = h.is_rate;
  baud = h.baud;
  parity = h.parity;
  some_stop_bits = h.some_stop_bits;
  stop_bits_fit = h.stop_bits_fit;
  flow_ctrl_fits = h.flow_ctrl_fits;
  listed = band_of-AreListed n rows rest new.settled;
}

-- `submitConfig` posts the numbers and the rows as they are on the page, with the other settings of
-- the configuration.
pub submit_config-edited :
    (c : Config) (n : ℕ) (rows : List Row) (rest : List BandConfig)
    → IsEditable c
    → IsComposed n rows
    → submit_config (entries (edited_form c (length rows) n rows))
      ≡ posted_config (edited c n rows rest)
submit_config-edited c n rows rest h new =
    ap submit_config (edited_form-config_form c n rows rest new.ports_fit new.settled)
    ∙ submit_config-entries (edited c n rows rest) (edited-IsEditable c n rows rest h new)

shown_row-IsKnown : (n : ℕ) (b : BandConfig) → IsListed b → IsKnown (shown_row n b)
shown_row-IsKnown n b h =
    (info_of b, ap (λ o. find (value_or_empty o) band_info) (selects b h).1 ∙ (selects b h).0)

rows_shown :
    (n left : ℕ) (bands : List BandConfig)
    → AreListed left bands
    → AreKnown (map (shown_row n) (take left bands))
rows_shown n zero bands h = tt
rows_shown n (suc left) [] h = absurd h
rows_shown n (suc left) (b ∷ bands) h = (shown_row-IsKnown n b h.0, rows_shown n left bands h.1)

-- The rows of the page as it is opened show bands of the table.
pub shown_rows-AreKnown : (c : Config) → IsEditable c → AreKnown (shown_rows c)
shown_rows-AreKnown c h = rows_shown c.num_antenna_ports c.num_bands c.bands h.listed
