-- ===== src/HtmlContent/Unchanged.antt =====
-- The configuration page that is submitted as it was opened.
use mathlib.Core.Path.{subst}
use esp32_band_decoder.Base.{
  ℕ, zero, suc, ◌≤◌, ◌<◌, ◌≡◌, ◌⊎◌, inl, inr, refl, ap, ◌∙◌, List, ◌∷◌, ◌++◌, none, some, arith,
  some-injective, Bool-cases, get_elem?, pos,
}
use esp32_band_decoder.Config.{Config, IsValid}
use esp32_band_decoder.HtmlContent.Form.{
  Entry, PostedConfig, is_text, last_selected, chosen, entries, piece_entries, form_get,
  submit_bands, submit_config,
}
use esp32_band_decoder.HtmlContent.Numbers.{
  parse_int-decimal, auto_mode-band_name, auto_mode-port_name, port_name-auto_mode,
}
use esp32_band_decoder.HtmlContent.Rows.{AreListed, rows_absent, entries-append}
use esp32_band_decoder.HtmlContent.Submitted.{posted_bands, bands_posted}
use esp32_band_decoder.HtmlContent.{
  decimal, band_name, port_name, band_rows, baud_rates, baud_choices, parity_choices,
  stop_bits_choices, flow_ctrl_choices, server_boxes, uart_boxes, mode_box, config_form,
}
use esp32_band_decoder.Text.{codes, eq_bytes}

-- A configuration that the page can show: its numbers are in range, its UART settings are options of
-- their lists, and its bands are bands of the table.
pub record IsEditable (c : Config) : Type 0 where
  pub valid : IsValid c
  pub port_fits : c.tcp_port < 65536
  pub rate : ℕ
  pub rate_index : ℕ
  pub is_rate : get_elem? baud_rates rate_index ≡ some rate
  pub baud : c.uart_baud_rate ≡ pos rate
  pub parity : (c.uart_parity ≡ 0) ⊎ ((c.uart_parity ≡ 2) ⊎ (c.uart_parity ≡ 3))
  pub some_stop_bits : 1 ≤ c.uart_stop_bits
  pub stop_bits_fit : c.uart_stop_bits ≤ 3
  pub flow_ctrl_fits : c.uart_flow_ctrl ≤ 3
  pub listed : AreListed c.num_bands c.bands

-- What is posted for a configuration.
abbrev pub posted_config : Config → PostedConfig
posted_config c = record {
  auto_mode = c.auto_mode;
  num_bands = some (pos c.num_bands);
  num_antenna_ports = some (pos c.num_antenna_ports);
  tcp_host = some c.tcp_host;
  tcp_port = some (pos c.tcp_port);
  uart_baud_rate = some c.uart_baud_rate;
  uart_parity = some (pos c.uart_parity);
  uart_stop_bits = some (pos c.uart_stop_bits);
  uart_flow_ctrl = some (pos c.uart_flow_ctrl);
  bands = posted_bands c.num_antenna_ports c.num_bands c.bands;
}

abbrev pub IsChosen : ℕ → Type 0
IsChosen rate =
    (chosen (baud_choices (pos rate) baud_rates) ≡ some (decimal rate))
    × (1200 ≤ rate)
    × (rate ≤ 115200)

pub baud_at : (k rate : ℕ) → get_elem? baud_rates k ≡ some rate → IsChosen rate
unfolding chosen last_selected baud_choices
baud_at zero rate h = subst IsChosen (some-injective h) (refl, omega arith, omega arith)
baud_at (suc zero) rate h = subst IsChosen (some-injective h) (refl, omega arith, omega arith)
baud_at (suc (suc zero)) rate h = subst IsChosen (some-injective h) (refl, omega arith, omega arith)
baud_at (suc (suc (suc zero))) rate h =
    subst IsChosen (some-injective h) (refl, omega arith, omega arith)
baud_at (suc (suc (suc (suc zero)))) rate h =
    subst IsChosen (some-injective h) (refl, omega arith, omega arith)
baud_at (suc (suc (suc (suc (suc zero))))) rate h =
    subst IsChosen (some-injective h) (refl, omega arith, omega arith)
baud_at (suc (suc (suc (suc (suc (suc zero)))))) rate h =
    subst IsChosen (some-injective h) (refl, omega arith, omega arith)
baud_at (suc (suc (suc (suc (suc (suc (suc zero))))))) rate h =
    subst IsChosen (some-injective h) (refl, omega arith, omega arith)
baud_at (suc (suc (suc (suc (suc (suc (suc (suc k)))))))) rate h = absurd (cc)

parity_chosen :
    (p : ℕ) → (p ≡ 0) ⊎ ((p ≡ 2) ⊎ (p ≡ 3)) → chosen (parity_choices p) ≡ some (decimal p)
unfolding chosen last_selected
parity_chosen p (inl e) = rw e refl
parity_chosen p (inr (inl e)) = rw e refl
parity_chosen p (inr (inr e)) = rw e refl

stop_bits_chosen : (s : ℕ) → 1 ≤ s → s ≤ 3 → chosen (stop_bits_choices s) ≡ some (decimal s)
unfolding chosen last_selected
stop_bits_chosen zero low high = absurd (omega arith)
stop_bits_chosen (suc zero) low high = refl
stop_bits_chosen (suc (suc zero)) low high = refl
stop_bits_chosen (suc (suc (suc zero))) low high = refl
stop_bits_chosen (suc (suc (suc (suc s)))) low high = absurd (omega arith)

flow_ctrl_chosen : (f : ℕ) → f ≤ 3 → chosen (flow_ctrl_choices f) ≡ some (decimal f)
unfolding chosen last_selected
flow_ctrl_chosen zero high = refl
flow_ctrl_chosen (suc zero) high = refl
flow_ctrl_chosen (suc (suc zero)) high = refl
flow_ctrl_chosen (suc (suc (suc zero))) high = refl
flow_ctrl_chosen (suc (suc (suc (suc s)))) high = absurd (omega arith)

-- The entries of the rows and of what follows them.
abbrev table_entries : Config → List Entry
table_entries c =
    entries (band_rows c.num_antenna_ports c.num_bands 0 c.bands) ++ entries (mode_box c)

abbrev form_entries : Config → ℕ → List Entry
form_entries c rate =
    (codes "num_bands", decimal c.num_bands)
    ∷ (codes "num_antenna_ports", decimal c.num_antenna_ports)
    ∷ (codes "tcp_host", c.tcp_host)
    ∷ (codes "tcp_port", decimal c.tcp_port)
    ∷ (codes "uart_baud_rate", decimal rate)
    ∷ (codes "uart_parity", decimal c.uart_parity)
    ∷ (codes "uart_stop_bits", decimal c.uart_stop_bits)
    ∷ (codes "uart_flow_ctrl", decimal c.uart_flow_ctrl)
    ∷ table_entries c

pub parity_bound : {p : ℕ} → (p ≡ 0) ⊎ ((p ≡ 2) ⊎ (p ≡ 3)) → p < 256
parity_bound h = ground arith

module _ (c : Config) (h : IsEditable c) where
  entries_of_form : entries (config_form c) ≡ form_entries c h.rate
  unfolding entries piece_entries config_form server_boxes uart_boxes
  entries_of_form =
      rw
        (
          h.baud,
          (baud_at h.rate_index h.rate h.is_rate).0,
          parity_chosen c.uart_parity h.parity,
          stop_bits_chosen c.uart_stop_bits h.some_stop_bits h.stop_bits_fit,
          flow_ctrl_chosen c.uart_flow_ctrl h.flow_ctrl_fits,
          entries-append (band_rows c.num_antenna_ports c.num_bands 0 c.bands) (mode_box c),
        )
        refl

  static-band :
      (k : ℕ)
      → form_get (band_name k) (form_entries c h.rate) ≡ form_get (band_name k) (table_entries c)
  unfolding form_get eq_bytes
  static-band k = refl

  static-port :
      (k l : ℕ)
      → form_get (port_name k l) (form_entries c h.rate)
        ≡ form_get (port_name k l) (table_entries c)
  unfolding form_get eq_bytes
  static-port k l = refl

  mode-port : (k l : ℕ) → k < 10 → form_get (port_name k l) (entries (mode_box c)) ≡ none
  unfolding form_get entries piece_entries mode_box
  mode-port k l lt =
      let other = port_name-auto_mode k l lt in
      elim (Bool-cases c.auto_mode) [ inl e ↦ ground (arith, other) | inr e ↦ ground arith ]

  auto_mode_posted :
      is_text (codes "on") (form_get (codes "auto_mode") (form_entries c h.rate)) ≡ c.auto_mode
  unfolding form_get eq_bytes entries piece_entries mode_box
  auto_mode_posted =
      let v = h.valid in
      let skipped =
        rows_absent (codes "auto_mode") c.num_antenna_ports c.num_bands 0 c.bands
          (entries (mode_box c)) c.num_bands (omega arith) h.listed
          (λ k _ lt. auto_mode-band_name k)
          (λ k _ lt l _ _. auto_mode-port_name k l (omega (arith, v.bands_fit))) in
      ap (λ o. is_text (codes "on") o) skipped
      ∙ elim (Bool-cases c.auto_mode) [ inl e ↦ rw e refl | inr e ↦ rw e refl ]

  table_posted :
      submit_bands (form_entries c h.rate) c.num_antenna_ports c.num_bands 0
      ≡ posted_bands c.num_antenna_ports c.num_bands c.bands
  table_posted =
      let v = h.valid in
      bands_posted (form_entries c h.rate) (entries (mode_box c)) c.num_antenna_ports c.num_bands 0
        c.bands c.num_bands h.listed (omega arith) (v.bands_fit) (v.ports_fit)
        (λ k _ _. static-band k) (λ k l _ _ _. static-port k l)
        (λ k l lt _. mode-port k l (omega (arith, v.bands_fit)))

  -- The script posts the configuration that the page shows, when nothing on the page is changed.
  pub submit_config-entries : submit_config (entries (config_form c)) ≡ posted_config c
  unfolding submit_config form_get eq_bytes
  submit_config-entries =
      let v = h.valid in
      let bands = parse_int-decimal c.num_bands (omega (arith, v.bands_fit)) in
      let ports = parse_int-decimal c.num_antenna_ports (omega (arith, v.ports_fit)) in
      let port = parse_int-decimal c.tcp_port (omega (arith, h.port_fits)) in
      let rate =
        parse_int-decimal h.rate (omega (arith, (baud_at h.rate_index h.rate h.is_rate).2)) in
      let parity = parse_int-decimal c.uart_parity (omega (arith, parity_bound h.parity)) in
      let stop = parse_int-decimal c.uart_stop_bits (omega (arith, h.stop_bits_fit)) in
      let flow = parse_int-decimal c.uart_flow_ctrl (omega (arith, h.flow_ctrl_fits)) in
      rw
        (
          entries_of_form, bands, ports, port, rate, parity, stop, flow, auto_mode_posted,
          table_posted,
        )
        (rw h.baud refl)
