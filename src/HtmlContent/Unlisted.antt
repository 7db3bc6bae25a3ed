-- ===== src/HtmlContent/Unlisted.antt =====
-- Bands that the list of the configuration page does not have.
use esp32_band_decoder.Base.{
  ℕ, ◌<◌, ◌≡◌, refl, ◌∙◌, true, false, ◌&&◌, List, [], ◌∷◌, ◌++◌, none, some, arith, ◌==◌,
}
use esp32_band_decoder.Config.{BandConfig}
use esp32_band_decoder.HtmlContent.Form.{chosen, last_selected, entries, piece_entries, form_get}
use esp32_band_decoder.HtmlContent.Numbers.{band_name-same}
use esp32_band_decoder.HtmlContent.Pieces.{BandInfo, band_info, find, markup}
use esp32_band_decoder.HtmlContent.Rows.{get_present}
use esp32_band_decoder.HtmlContent.{band_choices, band_name, port_boxes, band_row}
use esp32_band_decoder.Text.{codes, eq_bytes}
use esp32_band_decoder.WebServer.ConfigPost.{Json, field, read_band}

-- No band of the list has both frequencies.
abbrev pub IsUnlisted : ℕ → ℕ → List BandInfo → Type 0
IsUnlisted start_freq end_freq [] = Unit {0}
IsUnlisted start_freq end_freq (i ∷ is) =
    (((start_freq == i.start_freq) && (end_freq == i.end_freq)) ≡ false)
    × IsUnlisted start_freq end_freq is

none_selected :
    (start_freq end_freq : ℕ) (is : List BandInfo)
    → IsUnlisted start_freq end_freq is
    → last_selected (band_choices start_freq end_freq is) ≡ none
unfolding last_selected band_choices
none_selected start_freq end_freq [] h = refl
none_selected start_freq end_freq (i ∷ is) (h, hs) =
    rw (none_selected start_freq end_freq is hs, h) refl

chosen_first :
    (start_freq end_freq : ℕ) (i : BandInfo) (is : List BandInfo)
    → IsUnlisted start_freq end_freq (i ∷ is)
    → chosen (band_choices start_freq end_freq (i ∷ is)) ≡ some i.name
unfolding chosen band_choices
chosen_first start_freq end_freq i is h =
    rw (none_selected start_freq end_freq (i ∷ is) h, chosen) refl

row_posts :
    (n i : ℕ) (b : BandConfig)
    → i < 10
    → IsUnlisted b.start_freq b.end_freq band_info
    → form_get (band_name i) (entries (band_row n i b)) ≡ some (codes "10m")
unfolding band_row entries piece_entries
row_posts n i b hi h =
    let first : chosen (band_choices b.start_freq b.end_freq band_info) ≡ some (codes "10m") =
      chosen_first b.start_freq b.end_freq _ _ h in
    rw first (
      get_present (band_name i) (band_name i) (codes "10m")
        (entries (port_boxes i n 0 b.antenna_ports ++ markup (codes "</td></tr>") ∷ []))
        (band_name-same i i hi hi ∙ ground arith))

-- The row of a band that the list does not have shows the first band of the list, and the handler
-- reads what the row posts as the ten metre band, whatever frequencies the band had.
pub unlisted_band_replaced :
    {J : Type 0} (json : Json J) (item : J) (n i : ℕ) (b : BandConfig)
    → i < 10
    → IsUnlisted b.start_freq b.end_freq band_info
    → json.is_object item ≡ true
    → field json json.value_string (codes "description") item
      ≡ form_get (band_name i) (entries (band_row n i b))
    → let read = read_band json item in
      (read.description ≡ codes "10m") × (read.start_freq ≡ 28000000) × (read.end_freq ≡ 29700000)
unfolding read_band find eq_bytes
unlisted_band_replaced json item n i b hi h object carried =
    let posted : field json json.value_string (codes "description") item ≡ some (codes "10m") =
      carried ∙ row_posts n i b hi h in
    rw (object, posted) (refl, refl, refl)
