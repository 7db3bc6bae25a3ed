-- ===== src/HtmlContent/Edit/Table.antt =====
-- The table of bands as controls of the form: the rows that the browser reads in the page, and the
-- controls of the rows that the script has made.
use mathlib.Core.List.{map}
use esp32_band_decoder.Base.{ℕ, ◌+◌, List, [], ◌∷◌, ◌++◌, Option, none, some, take, length}
use esp32_band_decoder.Config.{BandConfig, Config}
use esp32_band_decoder.HtmlContent.Edit.{Row}
use esp32_band_decoder.HtmlContent.Form.{chosen}
use esp32_band_decoder.HtmlContent.Pieces.{BandInfo, Choice, Piece, band_info, markup, select_box}
use esp32_band_decoder.HtmlContent.{
  band_name, band_choices, port_boxes, server_boxes, uart_boxes, mode_box,
}
use esp32_band_decoder.Text.{Bytes, codes, to_decimal, eq_bytes}

-- The value of a list without options is the empty text.
abbrev pub value_or_empty : Option Bytes → Bytes
value_or_empty none = []
value_or_empty (some value) = value

-- A row of the page as it is opened.
abbrev pub shown_row : ℕ → BandConfig → Row
shown_row num_ports b = record {
  band = value_or_empty (chosen (band_choices b.start_freq b.end_freq band_info));
  start_freq = b.start_freq;
  end_freq = b.end_freq;
  ports = take num_ports b.antenna_ports;
}

abbrev pub shown_rows : Config → List Row
shown_rows c = map (shown_row c.num_antenna_ports) (take c.num_bands c.bands)

-- The options of a list whose `value` was set.
unfoldable pub row_choices : Bytes → List BandInfo → List Choice
unfolding eq_bytes
row_choices band [] = []
row_choices band (i ∷ is) =
    record { value = i.name; is_selected = eq_bytes band i.name; label = i.name }
    ∷ row_choices band is

unfoldable pub edited_row : ℕ → Row → List Piece
unfolding row_choices port_boxes
edited_row i row =
    select_box [] (band_name i)
      (codes " onchange='updateFrequencies(this, " ++ to_decimal i (codes ")'"))
      (row_choices row.band band_info)
    ∷ markup (to_decimal row.start_freq [])
    ∷ markup (to_decimal row.end_freq [])
    ∷ port_boxes i (length row.ports) 0 row.ports

unfoldable pub edited_rows : ℕ → List Row → List Piece
unfolding edited_row
edited_rows i [] = []
edited_rows i (row ∷ rows) = edited_row i row ++ edited_rows (i + 1) rows

-- The form with other numbers in its two boxes and other rows in its table.
unfoldable pub edited_form : Config → ℕ → ℕ → List Row → List Piece
unfolding server_boxes uart_boxes edited_rows mode_box
edited_form c num_bands num_ports rows =
    server_boxes (record c { num_bands = num_bands; num_antenna_ports = num_ports })
    ++ (uart_boxes c ++ (edited_rows 0 rows ++ mode_box c))
