-- ===== src/HtmlContent.antt =====
-- main/html_content.cpp: the pages of the web server, byte for byte. A page is the rendering of its
-- pieces, and the pieces that are controls of the form are what a browser submits
-- (HtmlContent/Form).
pub mod Lines
pub mod Pieces
pub mod Style
pub mod Root
pub mod Scripts
pub mod Form
pub mod Numbers
pub mod Rows
pub mod Submitted
pub mod Unchanged
pub mod Unlisted
pub mod Edit
use esp32_band_decoder.Base.{
  ℕ, zero, suc, ◌+◌, Bool, ◌&&◌, ◌||◌, List, [], ◌∷◌, ◌++◌, none, some, ltb, ◌==◌, if◌then◌else◌, ℤ,
  pos, eq_ℤ,
}
use esp32_band_decoder.Config.{BandConfig, Config, max_bands, max_antenna_ports}
use esp32_band_decoder.HtmlContent.Lines.{texts}
use esp32_band_decoder.HtmlContent.Pieces.{
  BandInfo, band_info, Choice, Piece, markup, input_box, select_box, check_box, render,
}
use esp32_band_decoder.HtmlContent.Root.{before_ip_addr, before_mac_addr, behind_mac_addr}
use esp32_band_decoder.HtmlContent.Scripts.{before_frequencies, behind_frequencies}
use esp32_band_decoder.HtmlContent.Style.{html_header, html_footer}
use esp32_band_decoder.Text.{Bytes, codes, to_decimal}

abbrev pub decimal : ℕ → Bytes
decimal n = to_decimal n []

-- The options of the four lists of the UART.
unfoldable pub baud_choices : ℤ → List ℕ → List Choice
baud_choices baud [] = []
baud_choices baud (rate ∷ rates) =
    record { value = decimal rate; is_selected = eq_ℤ baud (pos rate); label = decimal rate }
    ∷ baud_choices baud rates

abbrev pub baud_rates : List ℕ
baud_rates = 1200 ∷ 2400 ∷ 4800 ∷ 9600 ∷ 19200 ∷ 38400 ∷ 57600 ∷ 115200 ∷ []

abbrev choice : ℕ → ℕ → Bytes → Choice
choice current n label = record { value = decimal n; is_selected = current == n; label = label }

abbrev pub parity_choices : ℕ → List Choice
parity_choices parity =
    choice parity 0 (codes "None")
    ∷ choice parity 2 (codes "Even")
    ∷ choice parity 3 (codes "Odd")
    ∷ []

abbrev pub stop_bits_choices : ℕ → List Choice
stop_bits_choices stop_bits =
    choice stop_bits 1 (codes "1")
    ∷ choice stop_bits 2 (codes "1.5")
    ∷ choice stop_bits 3 (codes "2")
    ∷ []

abbrev pub flow_ctrl_choices : ℕ → List Choice
flow_ctrl_choices flow_ctrl =
    choice flow_ctrl 0 (codes "None")
    ∷ choice flow_ctrl 1 (codes "RTS")
    ∷ choice flow_ctrl 2 (codes "CTS")
    ∷ choice flow_ctrl 3 (codes "CTS/RTS")
    ∷ []

abbrev pub uart_select : Bytes → List Choice → Piece
uart_select name choices = select_box (codes "id='" ++ (name ++ codes "' ")) name [] choices

-- The options for two frequencies: the entry of the table that has them is selected.
unfoldable pub band_choices : ℕ → ℕ → List BandInfo → List Choice
band_choices start_freq end_freq [] = []
band_choices start_freq end_freq (i ∷ is) =
    record {
      value = i.name;
      is_selected = (start_freq == i.start_freq) && (end_freq == i.end_freq);
      label = i.name;
    }
    ∷ band_choices start_freq end_freq is

abbrev pub band_name : ℕ → Bytes
band_name i = codes "band_" ++ decimal i

abbrev pub port_name : ℕ → ℕ → Bytes
port_name i j = codes "a" ++ to_decimal i (b'_' ∷ decimal j)

-- The boxes of the ports of band `i`: `left` rounds remain and the list starts at port `j`.
unfoldable pub port_boxes : ℕ → ℕ → ℕ → List Bool → List Piece
port_boxes i zero j ports = []
port_boxes i (suc left) j [] = []
port_boxes i (suc left) j (p ∷ ports) =
    check_box (port_name i j) (some (codes "1")) p
    ∷ markup (to_decimal (j + 1) (codes " "))
    ∷ port_boxes i left (j + 1) ports

unfoldable pub band_row : ℕ → ℕ → BandConfig → List Piece
unfolding port_boxes
band_row num_ports i b =
    markup (codes "<tr><td>")
    ∷ select_box [] (band_name i)
        (codes " onchange='updateFrequencies(this, " ++ to_decimal i (codes ")'"))
        (band_choices b.start_freq b.end_freq band_info)
    ∷ markup (
        codes "</td><td>"
        ++ to_decimal b.start_freq (codes "</td><td>" ++ to_decimal b.end_freq (codes "</td><td>")))
    ∷ (port_boxes i num_ports 0 b.antenna_ports ++ markup (codes "</td></tr>") ∷ [])

-- The rows of the table: `left` rounds remain and the list starts at band `i`.
unfoldable pub band_rows : ℕ → ℕ → ℕ → List BandConfig → List Piece
unfolding band_row
band_rows num_ports zero i bands = []
band_rows num_ports (suc left) i [] = []
band_rows num_ports (suc left) i (b ∷ bands) =
    band_row num_ports i b ++ band_rows num_ports left (i + 1) bands

-- The form up to the table, in three groups: the numbers and the server, and the UART.
unfoldable pub server_boxes : Config → List Piece
unfolding texts
server_boxes c =
    markup (
      texts (
        "<h2>Relay Configuration</h2>"
        ∷ "<form id='configForm' class='config-form' onsubmit='submitConfig(event)'>"
        ∷ "<div class='form-group'><label for='num_bands'>Number of bands:</label>" ∷ []))
    ∷ input_box (codes "number") (codes "num_bands") (decimal c.num_bands)
        (codes " min='1' max='" ++ to_decimal max_bands (codes "' onchange='updateBandRows()'"))
    ∷ markup (
        texts (
          "</div><div class='form-group'><h3>Switch Configuration</h3>"
          ∷ "<label for='num_antenna_ports'>Number of outputs:</label>" ∷ []))
    ∷ input_box (codes "number") (codes "num_antenna_ports") (decimal c.num_antenna_ports) (
        codes " min='1' max='"
        ++ to_decimal max_antenna_ports (codes "' onchange='updateAntennaPorts()'"))
    ∷ markup (
        texts (
          "</div><div class='form-group'><h3>TCP Configuration</h3>"
          ∷ "<label for='tcp_host'>TCP Host:</label>" ∷ []))
    ∷ input_box (codes "text") (codes "tcp_host") c.tcp_host []
    ∷ markup
        (texts ("</div><div class='form-group'>" ∷ "<label for='tcp_port'>TCP Port:</label>" ∷ []))
    ∷ input_box (codes "number") (codes "tcp_port") (decimal c.tcp_port)
        (codes " min='1' max='65535'")
    ∷ markup (texts ("</div><h3>UART Configuration</h3>" ∷ []))
    ∷ []

unfoldable pub uart_boxes : Config → List Piece
unfolding texts baud_choices
uart_boxes c =
    markup
      (texts ("<div class='form-group'>" ∷ "<label for='uart_baud_rate'>Baud Rate:</label>" ∷ []))
    ∷ uart_select (codes "uart_baud_rate") (baud_choices c.uart_baud_rate baud_rates)
    ∷ markup
        (texts ("</div><div class='form-group'>" ∷ "<label for='uart_parity'>Parity:</label>" ∷ []))
    ∷ uart_select (codes "uart_parity") (parity_choices c.uart_parity)
    ∷ markup (
        texts (
          "</div><div class='form-group'>" ∷ "<label for='uart_stop_bits'>Stop Bits:</label>" ∷ []))
    ∷ uart_select (codes "uart_stop_bits") (stop_bits_choices c.uart_stop_bits)
    ∷ markup (
        texts (
          "</div><div class='form-group'>" ∷ "<label for='uart_flow_ctrl'>Flow Control:</label>"
          ∷ []))
    ∷ uart_select (codes "uart_flow_ctrl") (flow_ctrl_choices c.uart_flow_ctrl)
    ∷ markup (
        texts (
          "</div><table><thead><tr><th>Band</th><th>Start Freq</th><th>End Freq</th>"
          ∷ "<th>Antenna Ports</th></tr></thead><tbody>" ∷ []))
    ∷ []

-- What follows the table, up to the end of the form.
unfoldable pub mode_box : Config → List Piece
unfolding texts
mode_box c =
    markup
      (texts ("</tbody></table><div class='auto-mode-container'><h2>Auto Mode</h2><label>" ∷ []))
    ∷ check_box (codes "auto_mode") none c.auto_mode
    ∷ markup (
        texts (
          " Enable Automatic band selection</label></div><div class='button-container'>"
          ∷ "<input type='submit' value='Update Configuration'></div></form>" ∷ []))
    ∷ []

unfoldable pub config_form : Config → List Piece
unfolding server_boxes uart_boxes band_rows mode_box
config_form c =
    server_boxes c
    ++ (uart_boxes c ++ (band_rows c.num_antenna_ports c.num_bands 0 c.bands ++ mode_box c))

-- The table of bands in the script.
unfoldable pub band_frequencies : List BandInfo → Bytes
band_frequencies [] = []
band_frequencies (b ∷ bs) =
    codes "'"
    ++ (b.name
        ++ (codes "': {start: "
            ++ to_decimal b.start_freq
                (codes ", end: " ++ to_decimal b.end_freq (codes "},\n" ++ band_frequencies bs))))

unfoldable pub behind_form : Bytes
unfolding texts
behind_form = texts (
    "<div class='button-container'>"
    ∷ "<a href='/' class='button' style='background-color: var(--primary-color);'>Back to Home</a>"
    ∷ "<form action='/reset-config' method='post' style='display: inline;'>"
    ∷ "<input type='submit' value='Reset Configuration' class='button' "
    ∷ "style='background-color: #e74c3c;' onclick='return confirm(\"Are you sure you want to reset "
    ∷ "the configuration?\");'></form></div>" ∷ [])

-- The empty text when a number is out of range.
unfoldable pub generate_config_html : Config → Bytes
unfolding render config_form band_frequencies
generate_config_html c =
    if (c.num_bands == 0) || ltb max_bands c.num_bands
    then []
    else if (c.num_antenna_ports == 0) || ltb max_antenna_ports c.num_antenna_ports
    then []
    else html_header
      ++ (render (config_form c)
          ++ (before_frequencies
              ++ (band_frequencies band_info
                  ++ (behind_frequencies ++ (behind_form ++ html_footer)))))

-- The configuration is not shown.
unfoldable pub generate_root_html : Config → Bytes → Bytes → Bytes
generate_root_html c ip_addr mac_addr =
    html_header
    ++ (before_ip_addr
        ++ (ip_addr ++ (before_mac_addr ++ (mac_addr ++ (behind_mac_addr ++ html_footer)))))
