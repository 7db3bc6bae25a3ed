-- ===== src/Config.antt =====
-- main/antenna_switch.h: the configuration, and the search for a band and a port that
-- antenna_switch.cpp, cat_parser.cpp and webserver.cpp each write as a pair of loops.
pub mod Search
use esp32_band_decoder.Base.{
  ℕ, zero, suc, ◌+◌, ◌≤◌, ◌≡◌, Bool, true, ◌&&◌, List, [], ◌∷◌, Option, none, some, leb, ℤ,
  if◌then◌else◌,
}
use esp32_band_decoder.Text.{Bytes}

abbrev pub max_bands : ℕ
max_bands = 10

abbrev pub max_antenna_ports : ℕ
max_antenna_ports = 8

pub record BandConfig : Type 0 where
  pub description : Bytes
  pub start_freq : ℕ
  pub end_freq : ℕ
  pub antenna_ports : List Bool

pub record Config : Type 0 where
  pub auto_mode : Bool
  pub num_bands : ℕ
  pub num_antenna_ports : ℕ
  pub bands : List BandConfig
  pub tcp_host : Bytes
  pub tcp_port : ℕ
  pub uart_baud_rate : ℤ
  pub uart_parity : ℕ
  pub uart_stop_bits : ℕ
  pub uart_flow_ctrl : ℕ

-- The two counts are from 1 to the declared sizes of their arrays.
pub record IsValid (c : Config) : Type 0 where
  pub some_bands : 1 ≤ c.num_bands
  pub bands_fit : c.num_bands ≤ max_bands
  pub some_ports : 1 ≤ c.num_antenna_ports
  pub ports_fit : c.num_antenna_ports ≤ max_antenna_ports

abbrev pub in_band : ℕ → BandConfig → Bool
in_band freq b = leb b.start_freq freq && leb freq b.end_freq

-- The loop over `bands`: `left` rounds remain and the list starts at index `i`.
unfoldable pub find_band : ℕ → ℕ → ℕ → List BandConfig → Option (ℕ × BandConfig)
find_band freq zero i bands = none
find_band freq (suc left) i [] = none
find_band freq (suc left) i (b ∷ bands) =
    if in_band freq b then some (i, b) else find_band freq left (i + 1) bands

-- The loop over `antenna_ports`: the index of the first port that is enabled.
unfoldable pub first_port : ℕ → ℕ → List Bool → Option ℕ
first_port zero j ports = none
first_port (suc left) j [] = none
first_port (suc left) j (p ∷ ports) = if p then some j else first_port left (j + 1) ports

-- The band of a frequency, and the port that its band selects.
unfoldable pub band_of : Config → ℕ → Option (ℕ × BandConfig)
unfolding find_band
band_of c freq = find_band freq c.num_bands 0 c.bands

unfoldable pub port_of : Config → BandConfig → Option ℕ
unfolding first_port
port_of c b = first_port c.num_antenna_ports 0 b.antenna_ports
