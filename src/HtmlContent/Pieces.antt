-- ===== src/HtmlContent/Pieces.antt =====
-- The pieces of a page of main/html_content.cpp and the text that the `<<` of their parts gives, and
-- the table of bands.
use esp32_band_decoder.Base.{ℕ, Bool, List, [], ◌∷◌, ◌++◌, Option, none, some, if◌then◌else◌}
use esp32_band_decoder.Text.{Bytes, codes, eq_bytes}

pub record BandInfo : Type 0 where
  pub name : Bytes
  pub start_freq : ℕ
  pub end_freq : ℕ

abbrev band : Bytes → ℕ → ℕ → BandInfo
band name start_freq end_freq = record { name = name; start_freq = start_freq; end_freq = end_freq }

-- `band_info` in the order of a `std::map`. Each key is the name of its band.
abbrev pub band_info : List BandInfo
band_info =
    band (codes "10m") 28000000 29700000
    ∷ band (codes "12m") 24890000 24990000
    ∷ band (codes "15m") 21000000 21450000
    ∷ band (codes "160m") 1800000 2000000
    ∷ band (codes "17m") 18068000 18168000
    ∷ band (codes "20m") 14000000 14350000
    ∷ band (codes "30m") 10100000 10150000
    ∷ band (codes "40m") 7000000 7300000
    ∷ band (codes "6m") 50000000 54000000
    ∷ band (codes "80m") 3500000 4000000
    ∷ []

-- `find` of the map.
unfoldable pub find : Bytes → List BandInfo → Option BandInfo
find key [] = none
find key (b ∷ bs) = if eq_bytes key b.name then some b else find key bs

-- `<option value='…' selected>…</option>`.
pub record Choice : Type 0 where
  pub value : Bytes
  pub is_selected : Bool
  pub label : Bytes

-- Text without a control, or a control: its name, what it holds, and the attributes around them.
pub data Piece : Type 0 where
  markup : Bytes → Piece
  -- The type, the name, which is the identifier too, the value, and what follows it.
  input_box : (kind name value attributes : Bytes) → Piece
  -- What stands before the name and behind it.
  select_box : (before name attributes : Bytes) → List Choice → Piece
  -- A box may have a value attribute.
  check_box : (name : Bytes) → Option Bytes → Bool → Piece

abbrev word : Bool → Bytes → Bytes
word b text = if b then text else []

unfoldable pub render_choices : List Choice → Bytes
render_choices [] = []
render_choices (c ∷ cs) =
    codes "<option value='"
    ++ (c.value
        ++ (codes "' "
            ++ (word c.is_selected (codes "selected")
                ++ (codes ">" ++ (c.label ++ (codes "</option>" ++ render_choices cs))))))

abbrev value_attribute : Option Bytes → Bytes
value_attribute none = []
value_attribute (some value) = codes "value='" ++ (value ++ codes "' ")

unfoldable pub render_piece : Piece → Bytes
unfolding render_choices
render_piece (markup text) = text
render_piece (input_box kind name value attributes) =
    codes "<input type='"
    ++ (kind
        ++ (codes "' id='"
            ++ (name
                ++ (codes "' name='"
                    ++ (name
                        ++ (codes "' value='"
                            ++ (value ++ (codes "'" ++ (attributes ++ codes ">")))))))))
render_piece (select_box before name attributes choices) =
    codes "<select "
    ++ (before
        ++ (codes "name='"
            ++ (name
                ++ (codes "'"
                    ++ (attributes
                        ++ (codes ">" ++ (render_choices choices ++ codes "</select>")))))))
render_piece (check_box name value is_checked) =
    codes "<input type='checkbox' name='"
    ++ (name
        ++ (codes "' "
            ++ (value_attribute value ++ (word is_checked (codes "checked") ++ codes ">"))))

unfoldable pub render : List Piece → Bytes
unfolding render_piece
render [] = []
render (p ∷ ps) = render_piece p ++ render ps
