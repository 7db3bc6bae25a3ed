-- ===== src/HtmlContent/Form.antt =====
-- The form of the configuration page: what a browser submits for its controls, and `submitConfig`
-- of the script, which makes an object of that. A `NaN` or `null` is none.
use esp32_band_decoder.Base.{
  ℕ, zero, suc, ◌+◌, Bool, true, false, List, [], ◌∷◌, ◌++◌, Option, none, some, if◌then◌else◌, ℤ,
  pos, negsuc, pos_part, ◌-◌, ◌==◌,
}
use esp32_band_decoder.HtmlContent.Pieces.{Choice, Piece, markup, input_box, select_box, check_box}
use esp32_band_decoder.HtmlContent.{band_name, port_name}
use esp32_band_decoder.Text.{Bytes, codes, eq_bytes, read_number}

-- A name and a value.
abbrev pub Entry : Type 0
Entry = Bytes × Bytes

-- The value of a list: of the last option that is selected, else of the first.
unfoldable pub last_selected : List Choice → Option Bytes
last_selected [] = none
last_selected (c ∷ cs) = elim (last_selected cs) [
  | some value ↦ some value
  | none ↦ if c.is_selected then some c.value else none
]

unfoldable pub chosen : List Choice → Option Bytes
unfolding last_selected
chosen [] = none
chosen (c ∷ cs) = elim (last_selected (c ∷ cs)) [ some value ↦ some value | none ↦ some c.value ]

-- The value of a box that has no value attribute.
abbrev box_value : Option Bytes → Bytes
box_value none = codes "on"
box_value (some value) = value

abbrev entry_of : Bytes → Option Bytes → List Entry
entry_of name none = []
entry_of name (some value) = (name, value) ∷ []

-- The entry list of a form, by the rules of HTML.
unfoldable pub piece_entries : Piece → List Entry
unfolding chosen
piece_entries (markup text) = []
piece_entries (input_box kind name value attributes) = (name, value) ∷ []
piece_entries (select_box before name attributes choices) = entry_of name (chosen choices)
piece_entries (check_box name value is_checked) =
    if is_checked then (name, box_value value) ∷ [] else []

unfoldable pub entries : List Piece → List Entry
unfolding piece_entries
entries [] = []
entries (p ∷ ps) = piece_entries p ++ entries ps

-- `formData.get`.
unfoldable pub form_get : Bytes → List Entry → Option Bytes
form_get name [] = none
form_get name ((key, value) ∷ es) = if eq_bytes name key then some value else form_get name es

abbrev pub signed : Bool → ℕ → ℤ
signed false n = pos n
signed true n = if n == 0 then pos 0 else negsuc (n - 1)

-- `parseInt` of a text that does not begin with 0x.
unfoldable pub parse_int : Option Bytes → Option ℤ
unfolding read_number
parse_int none = none
parse_int (some s) = elim (read_number s) [
  | none ↦ none
  | some (minus, n, rest) ↦ some (signed minus n)
]

pub record PostedBand : Type 0 where
  pub description : Option Bytes
  pub antenna_ports : List Bool

-- The object that is posted.
pub record PostedConfig : Type 0 where
  pub auto_mode : Bool
  pub num_bands : Option ℤ
  pub num_antenna_ports : Option ℤ
  pub tcp_host : Option Bytes
  pub tcp_port : Option ℤ
  pub uart_baud_rate : Option ℤ
  pub uart_parity : Option ℤ
  pub uart_stop_bits : Option ℤ
  pub uart_flow_ctrl : Option ℤ
  pub bands : List PostedBand

abbrev pub is_text : Bytes → Option Bytes → Bool
is_text s none = false
is_text s (some t) = eq_bytes t s

-- The rounds of a loop that counts from 0 to the number.
abbrev pub rounds : Option ℤ → ℕ
rounds none = 0
rounds (some n) = pos_part n

-- The ports of band `i`: `left` rounds remain, from port `j`.
unfoldable pub submit_ports : List Entry → ℕ → ℕ → ℕ → List Bool
unfolding form_get eq_bytes
submit_ports form i zero j = []
submit_ports form i (suc left) j =
    is_text (codes "1") (form_get (port_name i j) form) ∷ submit_ports form i left (j + 1)

-- The bands: `left` rounds remain, from band `i`.
unfoldable pub submit_bands : List Entry → ℕ → ℕ → ℕ → List PostedBand
unfolding form_get submit_ports
submit_bands form num_ports zero i = []
submit_bands form num_ports (suc left) i =
    record {
      description = form_get (band_name i) form;
      antenna_ports = submit_ports form i num_ports 0;
    }
    ∷ submit_bands form num_ports left (i + 1)

unfoldable pub submit_config : List Entry → PostedConfig
unfolding form_get parse_int submit_bands eq_bytes
submit_config form =
    let num_bands = parse_int (form_get (codes "num_bands") form) in
    let num_ports = parse_int (form_get (codes "num_antenna_ports") form) in
    record {
      auto_mode = is_text (codes "on") (form_get (codes "auto_mode") form);
      num_bands = num_bands;
      num_antenna_ports = num_ports;
      tcp_host = form_get (codes "tcp_host") form;
      tcp_port = parse_int (form_get (codes "tcp_port") form);
      uart_baud_rate = parse_int (form_get (codes "uart_baud_rate") form);
      uart_parity = parse_int (form_get (codes "uart_parity") form);
      uart_stop_bits = parse_int (form_get (codes "uart_stop_bits") form);
      uart_flow_ctrl = parse_int (form_get (codes "uart_flow_ctrl") form);
      bands = submit_bands form (rounds num_ports) (rounds num_bands) 0;
    }
