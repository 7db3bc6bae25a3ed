-- ===== src/CatParser.antt =====
-- main/cat_parser.h and cat_parser.cpp: the parser of the transceiver's CAT protocol. Its handlers
-- change the parser and the antenna switch, so they work on both, `System`.
-- Every result is an `Option`: `none` is a call through a null relay controller.
pub mod Bands
pub mod Numbers
pub mod Commands
pub mod Stream
pub mod Validity
pub mod Bridge
use esp32_band_decoder.AntennaSwitch.{Switch, set_frequency, set_config, get_config}
use esp32_band_decoder.Base.{
  ℕ, zero, suc, ◌+◌, ◌*◌, ◌%◌, Bool, true, false, not, ◌&&◌, List, [], ◌∷◌, ◌++◌, Option, none,
  some, ltb, leb, ◌==◌, if◌then◌else◌, ℤ, pos, negsuc, minus_one, eq_ℤ, ltb_ℤ, length, get_or, take,
  drop,
}
use esp32_band_decoder.Config.{Config, band_of}
use esp32_band_decoder.ConfigManager.{Nvs}
use esp32_band_decoder.Err.{Err, ok, fail, invalid_arg, is_ok}
use esp32_band_decoder.Text.{Bytes, codes, c_str, eq_bytes, strtoul}

pub record CatParser : Type 0 where
  pub current_config : Config
  pub current_frequency : ℕ
  pub current_band_index : ℤ
  pub transmitting : Bool
  pub rit_on : Bool
  pub xit_on : Bool
  pub split_on : Bool
  pub current_mode : Bytes
  pub rit_offset : ℤ

pub record System (S C : Type 0) : Type 0 where
  pub cat : CatParser
  pub switch : Switch S C

-- The index of the first band of the parser's own configuration that holds the frequency, or -1.
unfoldable pub search_band : Config → ℕ → ℤ
search_band config freq = elim (band_of config freq) [ none ↦ minus_one | some (i, b) ↦ pos i ]

unfoldable pub get_band_index : CatParser → ℕ → ℤ
get_band_index c freq =
    if (freq == c.current_frequency) && not (eq_ℤ c.current_band_index minus_one)
    then c.current_band_index
    else search_band c.current_config freq

unfoldable pub is_same_band : CatParser → ℕ → ℕ → Bool
is_same_band c freq1 freq2 =
    let band1 = get_band_index c freq1 in
    let band2 = get_band_index c freq2 in not (eq_ℤ band1 minus_one) && eq_ℤ band1 band2

-- The name of the mode character of an IF answer.
unfoldable pub mode_name : ℕ → Bytes
mode_name c =
    if c == b'1'
    then codes "LSB"
    else if c == b'2'
    then codes "USB"
    else if c == b'3'
    then codes "CW-U"
    else if c == b'4'
    then codes "FM"
    else if c == b'5'
    then codes "AM"
    else if c == b'6'
    then codes "DIG-L"
    else if c == b'7'
    then codes "CW-L"
    else if c == b'9'
    then codes "DIG-U"
    else codes "UNKNOWN"

-- The whole text is a number: its value, as `strtoul` and the test of `*endptr` have it.
unfoldable pub read_ulong : Bytes → Option ℕ
read_ulong s = let read = strtoul (c_str s) in if length read.1 == 0 then some read.0 else none

-- `(cmd_view[0] << 8) | cmd_view[1]` of two unsigned chars, as a uint16_t.
abbrev pub cmd_code : Bytes → ℕ
cmd_code cmd = (get_or cmd 0 0 * 256 + get_or cmd 1 0) % 65536

-- The two cached values.
abbrev pub remember : ℕ → ℤ → CatParser → CatParser
remember freq band c = record c { current_frequency = freq; current_band_index = band }

-- The calls of the UART driver and of FreeRTOS that `init` makes, on the state W of the drivers.
pub record Uart (W : Type 0) : Type 0 where
  -- The baud rate, the parity, the stop bits and the flow control of UART2.
  pub uart_param_config : ℤ → ℕ → ℕ → ℕ → W → Err × W
  pub uart_set_pin : W → Err × W
  pub uart_driver_install : W → Err × W
  -- Whether the UART task could be created.
  pub task_create : W → Bool × W

-- `ESP_ERROR_CHECK`: a call that returns an error aborts.
unfoldable pub error_check : {W : Type 0} → (W → Err × W) → Option W → Option W
error_check call none = none
error_check call (some w) = let done = call w in if is_ok done.0 then some done.1 else none

-- The four checked calls: first without parity, with one stop bit and no flow control.
unfoldable pub start_uart : {W : Type 0} → Uart W → Config → W → Option W
unfolding error_check
start_uart uart c w = error_check uart.uart_driver_install (
    error_check
      (uart.uart_param_config c.uart_baud_rate c.uart_parity c.uart_stop_bits c.uart_flow_ctrl)
      (error_check uart.uart_set_pin
        (error_check (uart.uart_param_config c.uart_baud_rate 0 1 0) (some w))))

-- The end of `init`: the UART task.
unfoldable pub with_uart :
    {W S C : Type 0} → Uart W → System S C → Option W → Option (Err × W × System S C)
with_uart uart s none = none
with_uart uart s (some w) =
    let created = uart.task_create w in some (if created.0 then ok else fail, created.1, s)

module _ {S C : Type 0} where
  unfoldable pub handle_frequency_change : ℕ → System S C → Option (Err × System S C)
  handle_frequency_change frequency s =
      let new_band_index = get_band_index s.cat frequency in
      let cat' = remember frequency new_band_index s.cat in
      if frequency == s.cat.current_frequency
      then some (ok, s)
      else if eq_ℤ s.cat.current_band_index new_band_index
      then some (ok, record s { cat = cat' })
      else elim (set_frequency frequency s.switch) [
        | none ↦ none
        | some (e, sw) ↦ some (e, record s { switch = sw; cat = if is_ok e then cat' else s.cat })
      ]

  unfoldable pub process_fa_command : Bytes → System S C → Option (Err × System S C)
  process_fa_command command s = elim (read_ulong command) [
    | none ↦ some (ok, s)
    | some frequency ↦ handle_frequency_change frequency s
  ]

  unfoldable pub process_if_command : Bytes → System S C → Option (Err × System S C)
  process_if_command command s =
      if ltb (length command) 35 then some (ok, s) else elim (read_ulong (take 11 command)) [
        | none ↦ some (ok, s)
        | some frequency ↦ handle_frequency_change frequency (record s {
          cat = record (s.cat) {
            transmitting = get_or command 26 0 == b'1';
            current_mode = mode_name (get_or command 27 0);
          };
        })
      ]

  -- `update_config` reads the configuration again; the cached band index stays.
  unfoldable pub update_config : System S C → Err × System S C
  update_config s = (ok, record s { cat = record (s.cat) { current_config = get_config s.switch } })

  -- The UART task: only FA and IF, and their results are ignored.
  unfoldable pub uart_dispatch : Bytes → System S C → Option (System S C)
  uart_dispatch cmd s =
      let after : Option (Err × System S C) → Option (System S C) = elim [
        | none ↦ none
        | some (e, s') ↦ some s'
      ] in
      if leb 2 (length cmd)
      then (if eq_bytes (take 2 cmd) (codes "FA")
          then after (process_fa_command (drop 2 cmd) s)
          else if eq_bytes (take 2 cmd) (codes "IF")
          then after (process_if_command (drop 2 cmd) s)
          else some s)
      else some s

-- The text before the first semicolon and the text behind it.
unfoldable pub cut : Bytes → Option (Bytes × Bytes)
cut [] = none
cut (c ∷ cs) =
    if c == b';'
    then some ([], cs)
    else elim (cut cs) [ none ↦ none | some (a, b) ↦ some (c ∷ a, b) ]

module _ {S C : Type 0} where
  -- `while ((pos = command_accumulator.find(';')) != npos)`, on fuel: each round takes a semicolon
  -- off, so the length of the text is enough.
  unfoldable pub drain : ℕ → Bytes → System S C → Option (Bytes × System S C)
  drain zero acc s = some (acc, s)
  drain (suc fuel) acc s = elim (cut acc) [
    | none ↦ some (acc, s)
    | some (cmd, rest) ↦ elim (uart_dispatch cmd s) [ none ↦ none | some s' ↦ drain fuel rest s' ]
  ]

  -- UART_DATA: what was read is appended to the accumulator up to its first NUL.
  unfoldable pub uart_data : Bytes → Bytes → System S C → Option (Bytes × System S C)
  uart_data buffer acc s = let acc' = acc ++ c_str buffer in drain (length acc') acc' s

  -- UART_FIFO_OVF and UART_BUFFER_FULL.
  unfoldable pub uart_overflow : Bytes → System S C → Bytes × System S C
  uart_overflow acc s = ([], s)

-- The first command and what is left: at the end of the text the command is all of it.
abbrev pub next_command : Bytes → Bytes × Bytes
next_command text = elim (cut text) [ none ↦ (text, []) | some (cmd, rest) ↦ (cmd, rest) ]

module _ {S C : Type 0} (nvs : Nvs S) where
  unfoldable pub process_ap_command : Bytes → System S C → Option (Err × System S C)
  process_ap_command command s = elim (read_ulong command) [
    | none ↦ some (invalid_arg, s)
    | some ports ↦
        let config = record (get_config s.switch) { num_antenna_ports = ports % 256 } in
        let saved = set_config nvs (some config) s.switch in
        some (saved.0, record s { switch = saved.1 })
  ]

  -- The table of handlers, by the code of the first two characters.
  unfoldable pub dispatch : Bytes → System S C → Option (Err × System S C)
  dispatch cmd s =
      if cmd_code cmd == b'F' * 256 + b'A'
      then process_fa_command (drop 2 cmd) s
      else if cmd_code cmd == b'A' * 256 + b'P'
      then process_ap_command (drop 2 cmd) s
      else if cmd_code cmd == b'I' * 256 + b'F'
      then process_if_command (drop 2 cmd) s
      else some (ok, s)

  -- One command of `process_command`; those shorter than two characters are skipped.
  unfoldable pub process_one : Bytes → System S C → Option (Err × System S C)
  process_one cmd s = if leb 2 (length cmd) then dispatch cmd s else some (ok, s)

  -- `while (start < cmd_str.length())`, on fuel; the length of the text is enough.
  unfoldable pub process_loop : ℕ → Bytes → System S C → Option (Err × System S C)
  process_loop zero text s = some (ok, s)
  process_loop (suc fuel) [] s = some (ok, s)
  process_loop (suc fuel) (c ∷ cs) s =
      let next = next_command (c ∷ cs) in
      elim (process_one next.0 s) [
        | none ↦ none
        | some (e, s') ↦
            let rest = process_loop fuel next.1 s' in if is_ok e then rest else some (e, s')
      ]

  -- A null pointer is `none`.
  unfoldable pub process_command : Option Bytes → System S C → Option (Err × System S C)
  process_command none s = some (invalid_arg, s)
  process_command (some command) s = let text = c_str command in process_loop (length text) text s

  -- `init`: the configuration is read, and a baud rate that is not positive is replaced and saved.
  -- Then the UART is set up, and `none` is an abort. The pauses between its calls are left out.
  unfoldable pub init : {W : Type 0} → Uart W → W → System S C → Option (Err × W × System S C)
  init uart w s =
      let config = get_config s.switch in
      let fixed = record config { uart_baud_rate = pos 9600 } in
      let saved = set_config nvs (some fixed) s.switch in
      let loaded = λ (c : Config). record (s.cat) { current_config = c } in
      if ltb_ℤ (pos 0) config.uart_baud_rate
      then with_uart uart (record s { cat = loaded config }) (start_uart uart config w)
      else if is_ok saved.0
      then with_uart uart (record s { cat = loaded fixed; switch = saved.1 })
          (start_uart uart fixed w)
      else some (saved.0, w, record s { cat = loaded fixed; switch = saved.1 })
