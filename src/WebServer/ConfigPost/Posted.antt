-- ===== src/WebServer/ConfigPost/Posted.antt =====
-- What `config_post_handler` reads of the JSON text that the script of the configuration page makes.
use mathlib.Core.List.{map}
use esp32_band_decoder.Base.{
  ℕ, zero, suc, ◌%◌, ◌≤◌, ◌<◌, ◌≡◌, refl, sym, ap, ◌∙◌, Bool, true, false, List, [], ◌∷◌, some,
  arith, length, take, take_all, pos, ℤ, ltb_ℤ,
}
use esp32_band_decoder.Config.{BandConfig, Config, max_bands, max_antenna_ports}
use esp32_band_decoder.HtmlContent.Form.{PostedBand, PostedConfig}
use esp32_band_decoder.HtmlContent.Pieces.{find, band_info}
use esp32_band_decoder.HtmlContent.Rows.{IsListed, AreListed, info_of, selects}
use esp32_band_decoder.HtmlContent.Submitted.{posted_band, posted_bands}
use esp32_band_decoder.HtmlContent.Unchanged.{IsEditable, posted_config, baud_at, parity_bound}
use esp32_band_decoder.Text.{Bytes, codes}
use esp32_band_decoder.WebServer.ConfigPost.{
  Json, Parsed, good, ◌>>=◌, field, flag, number, out_of, read_ports, read_band, read_bands,
  no_band, known_band, to_uint8, host_of, parse_config,
}

-- No port from the given one on is enabled.
abbrev pub AreOff : ℕ → List Bool → Type 0
AreOff n [] = Unit {0}
AreOff zero (p ∷ ports) = (p ≡ false) × AreOff zero ports
AreOff (suc n) (p ∷ ports) = AreOff n ports

-- The used bands have no port on behind the last that is used, and the others are blank.
abbrev pub AreTidy : ℕ → ℕ → List BandConfig → Type 0
AreTidy num_ports n [] = Unit {0}
AreTidy num_ports zero (b ∷ bands) = (b ≡ no_band) × AreTidy num_ports zero bands
AreTidy num_ports (suc n) (b ∷ bands) = AreOff num_ports b.antenna_ports × AreTidy num_ports n bands

-- What the handler accepts of the configurations that the page can show.
pub record IsSubmittable (c : Config) : Type 0 where
  pub editable : IsEditable c
  pub some_port : 1 ≤ c.tcp_port
  pub host_fits : length c.tcp_host ≤ 15
  pub all_bands : length c.bands ≡ max_bands
  pub tidy : AreTidy c.num_antenna_ports c.num_bands c.bands

module _ {J : Type 0} (json : Json J) where
  open json use {get_object_item, is_true, is_object, value_int, value_string, array_items}

  -- What cJSON gives for the text that `JSON.stringify` makes of a band, of bands, and of the whole
  -- object.
  pub record CarriesBand (item : J) (b : PostedBand) : Type 0 where
    pub is_band : is_object item ≡ true
    pub description : field json value_string (codes "description") item ≡ b.description
    pub ports : List J
    pub antenna_ports : field json array_items (codes "antenna_ports") item ≡ some ports
    pub enabled : map is_true ports ≡ b.antenna_ports

  abbrev pub CarriesBands : List J → List PostedBand → Type 0
  CarriesBands [] [] = Unit {0}
  CarriesBands [] (b ∷ bs) = ⊥
  CarriesBands (item ∷ items) [] = ⊥
  CarriesBands (item ∷ items) (b ∷ bs) = CarriesBand item b × CarriesBands items bs

  pub record Carries (root : J) (p : PostedConfig) : Type 0 where
    pub auto_mode : flag json (get_object_item root (codes "auto_mode")) ≡ p.auto_mode
    pub num_bands : field json value_int (codes "num_bands") root ≡ p.num_bands
    pub num_antenna_ports :
        field json value_int (codes "num_antenna_ports") root ≡ p.num_antenna_ports
    pub tcp_host : field json value_string (codes "tcp_host") root ≡ p.tcp_host
    pub tcp_port : field json value_int (codes "tcp_port") root ≡ p.tcp_port
    pub uart_baud_rate : field json value_int (codes "uart_baud_rate") root ≡ p.uart_baud_rate
    pub uart_parity : field json value_int (codes "uart_parity") root ≡ p.uart_parity
    pub uart_stop_bits : field json value_int (codes "uart_stop_bits") root ≡ p.uart_stop_bits
    pub uart_flow_ctrl : field json value_int (codes "uart_flow_ctrl") root ≡ p.uart_flow_ctrl
    pub items : List J
    pub bands : field json array_items (codes "bands") root ≡ some items
    pub all_bands : CarriesBands items p.bands

  read_ports-off : (ports : List Bool) → AreOff 0 ports → read_ports json (length ports) [] ≡ ports
  unfolding read_ports
  read_ports-off [] h = refl
  read_ports-off (p ∷ ports) (e, h) = cc (e, read_ports-off ports h)

  read_ports-posted :
      (n : ℕ) (ports : List Bool) (items : List J)
      → AreOff n ports
      → map is_true items ≡ take n ports
      → read_ports json (length ports) items ≡ ports
  unfolding read_ports
  read_ports-posted zero ports [] h e = read_ports-off ports h
  read_ports-posted zero ports (j ∷ items) h e = absurd (cc)
  read_ports-posted (suc n) [] items h e = refl
  read_ports-posted (suc n) (p ∷ ports) [] h e = absurd (cc)
  read_ports-posted (suc n) (p ∷ ports) (j ∷ items) h e =
      cc (e, read_ports-posted n ports items h (cc))

  read_band-posted :
      (n : ℕ) (b : BandConfig) (item : J)
      → IsListed b
      → AreOff n b.antenna_ports
      → CarriesBand item (posted_band n b)
      → read_band json item ≡ b
  unfolding read_band
  read_band-posted n b item listed off h =
      let found : find b.description band_info ≡ some (info_of b) = (selects b listed).0 in
      let read : read_ports json max_antenna_ports h.ports ≡ b.antenna_ports =
        ap (λ k. read_ports json k h.ports) (sym listed.all_ports)
        ∙ read_ports-posted n b.antenna_ports h.ports off h.enabled in
      let known : known_band (some b.description) ≡ (b.description, b.start_freq, b.end_freq) =
        rw (found, known_band) refl in
      rw (h.is_band, h.description, h.antenna_ports, known, read) refl

  read_bands-blank :
      (n : ℕ) (bands : List BandConfig) (k : ℕ)
      → length bands ≡ k
      → AreTidy n 0 bands
      → read_bands json k [] ≡ bands
  unfolding read_bands
  read_bands-blank n [] zero e h = refl
  read_bands-blank n [] (suc k) e h = absurd (omega arith)
  read_bands-blank n (b ∷ bands) zero e h = absurd (omega arith)
  read_bands-blank n (b ∷ bands) (suc k) e (blank, h) =
      cc (blank, read_bands-blank n bands k (omega arith) h)

  read_bands-posted :
      (n used : ℕ) (bands : List BandConfig) (k : ℕ) (items : List J)
      → length bands ≡ k
      → AreListed used bands
      → AreTidy n used bands
      → CarriesBands items (posted_bands n used bands)
      → (read_bands json k items ≡ bands) × (length items ≡ used)
  unfolding read_bands
  read_bands-posted n zero bands k [] e listed tidy h = (read_bands-blank n bands k e tidy, refl)
  read_bands-posted n zero bands k (item ∷ items) e listed tidy h = absurd h
  read_bands-posted n (suc used) [] k items e listed tidy h = absurd listed
  read_bands-posted n (suc used) (b ∷ bands) zero items e listed tidy h = absurd (omega arith)
  read_bands-posted n (suc used) (b ∷ bands) (suc k) [] e listed tidy h = absurd h
  read_bands-posted n (suc used) (b ∷ bands) (suc k) (item ∷ items) e (l, ls) (off, tidy) (h, hs) =
      let (rest, count) = read_bands-posted n used bands k items (omega arith) ls tidy hs in
      (cc (read_band-posted n b item l off h, rest), omega (arith, count))

bind-good :
    {A B : Type 0} {x : Parsed A} (a : A) (f : A → Parsed B) {y : Parsed B}
    → x ≡ good a
    → f a ≡ y
    → (x >>= f) ≡ y
unfolding ◌>>=◌
bind-good a f e h = rw e h

in_range : (limit n : ℕ) → 1 ≤ n → n ≤ limit → out_of limit (pos n) ≡ false
in_range limit n low high = ground arith

is_byte : (n : ℕ) → n < 256 → to_uint8 (pos n) ≡ n
is_byte n lt = omega arith

module _ {J : Type 0} (json : Json J) (c : Config) (h : IsSubmittable c) (root : J)
    (carried : Carries json root (posted_config c)) where
  number-good :
      (name : Bytes) (is_bad : ℤ → Bool) (freed : Bool) (missing invalid : Bytes) (n : ℤ)
      → field json json.value_int name root ≡ some n
      → is_bad n ≡ false
      → number json name is_bad freed missing invalid root ≡ good n
  number-good name is_bad freed missing invalid n e ok = rw (e, number) (rw ok refl)

  -- The handler reads what the script posts for a configuration as that configuration.
  pub parse_config-posted : parse_config json root ≡ good c
  unfolding parse_config
  parse_config-posted =
      let ed = h.editable in
      let v = ed.valid in
      let baud_ok : ltb_ℤ c.uart_baud_rate (pos 1) ≡ false =
        rw ed.baud (ground (arith, (baud_at ed.rate_index ed.rate ed.is_rate).1)) in
      let (bands, count) =
        read_bands-posted json c.num_antenna_ports c.num_bands c.bands max_bands carried.items
          h.all_bands ed.listed h.tidy carried.all_bands in
      let host : host_of (some c.tcp_host) ≡ c.tcp_host = take_all 15 c.tcp_host h.host_fits in
      let used : length carried.items % 256 ≡ c.num_bands = omega (arith, count, v.bands_fit) in
      let parity : to_uint8 (pos c.uart_parity) ≡ c.uart_parity =
        is_byte c.uart_parity (parity_bound ed.parity) in
      let stop_bits : to_uint8 (pos c.uart_stop_bits) ≡ c.uart_stop_bits =
        is_byte c.uart_stop_bits (omega (arith, ed.stop_bits_fit)) in
      let flow_ctrl : to_uint8 (pos c.uart_flow_ctrl) ≡ c.uart_flow_ctrl =
        is_byte c.uart_flow_ctrl (omega (arith, ed.flow_ctrl_fits)) in
      bind-good (pos c.tcp_port) _
        (number-good _ _ _ _ _ _ carried.tcp_port
          (in_range 65535 c.tcp_port h.some_port (omega (arith, ed.port_fits))))
        (bind-good c.uart_baud_rate _ (number-good _ _ _ _ _ _ carried.uart_baud_rate baud_ok) (
          bind-good (pos c.uart_parity) _
            (number-good _ (λ n. false) _ _ [] _ carried.uart_parity refl)
            (bind-good (pos c.uart_stop_bits) _
              (number-good _ (λ n. false) _ _ [] _ carried.uart_stop_bits refl)
              (bind-good (pos c.uart_flow_ctrl) _
                (number-good _ (λ n. false) _ _ [] _ carried.uart_flow_ctrl refl)
                (bind-good (pos c.num_bands) _
                  (number-good _ _ _ _ _ _ carried.num_bands
                    (in_range max_bands c.num_bands v.some_bands v.bands_fit))
                  (bind-good (pos c.num_antenna_ports) _
                    (number-good _ _ _ _ _ _ carried.num_antenna_ports
                      (in_range max_antenna_ports c.num_antenna_ports v.some_ports v.ports_fit))
                    (rw
                      (
                        carried.auto_mode, carried.bands, carried.tcp_host, bands, host, used,
                        parity, stop_bits, flow_ctrl,
                      )
                      refl)))))))
