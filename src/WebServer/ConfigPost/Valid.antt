-- ===== src/WebServer/ConfigPost/Valid.antt =====
-- What the handler of a posted configuration stores, and what it does when it refuses one.
use mathlib.Core.Path.{subst}
use esp32_band_decoder.AntennaSwitch
use esp32_band_decoder.AntennaSwitch.{get_config}
use esp32_band_decoder.Base.{
  ℕ, zero, suc, ◌≤◌, ◌<◌, ◌≡◌, ◌≢◌, ◌⊎◌, inl, inr, refl, sym, ap, ◌∙◌, Bool, true, false, List, [],
  ◌∷◌, some, ltb, ltb_ℤ, leb, length, pos, negsuc, pos_part, arith, Bool-cases, Option-cases, ℤ,
}
use esp32_band_decoder.CatParser
use esp32_band_decoder.Config.{Config, IsValid, max_bands, max_antenna_ports}
use esp32_band_decoder.ConfigManager
use esp32_band_decoder.Err.{ok, fail, is_ok}
use esp32_band_decoder.SystemInitializer.{Platform, Device}
use esp32_band_decoder.Text.{Bytes}
use esp32_band_decoder.WebServer.ConfigPost.{
  Json, Request, Parsed, bad, good, ◌>>=◌, read_bands, parse_config, apply_config,
  config_post_handler, content, max_post_size, number, field, out_of,
}
use esp32_band_decoder.WebServer.{bad_request, store}

-- What the checks of the parser and the fixed arrays ensure.
pub record IsParsed (c : Config) : Type 0 where
  pub some_port : 1 ≤ c.tcp_port
  pub port_fits : c.tcp_port < 65536
  pub some_baud : ltb_ℤ (pos 0) c.uart_baud_rate ≡ true
  pub some_ports : 1 ≤ c.num_antenna_ports
  pub ports_fit : c.num_antenna_ports ≤ max_antenna_ports
  pub all_bands : length c.bands ≡ max_bands

-- Every result of the parser has the property.
pub record Ensures {A : Type 0} (P : A → Type 0) (x : Parsed A) : Type 0 where
  pub ensures : (a : A) → x ≡ good a → P a

pub good-Ensures : {A : Type 0} {P : A → Type 0} {a : A} → P a → Ensures P (good a)
good-Ensures {A} {P} {a} p = record { ensures = λ b e. subst P (ground arith) p }

pub bind-Ensures :
    {A B : Type 0} {P : A → Type 0} {Q : B → Type 0} {x : Parsed A} {f : A → Parsed B}
    → Ensures P x
    → ((a : A) → P a → Ensures Q (f a))
    → Ensures Q (x >>= f)
unfolding ◌>>=◌
bind-Ensures {x = bad message freed} h k = record { ensures = λ b e. absurd (ground arith) }
bind-Ensures {x = good a} h k = k a (h.ensures a refl)

in_range : (limit : ℕ) (n : ℤ) → out_of limit n ≡ false → (1 ≤ pos_part n) × (pos_part n ≤ limit)
in_range limit (pos n) h = ground arith
in_range limit (negsuc n) h = ground arith

is_positive : (n : ℤ) → ltb_ℤ n (pos 1) ≡ false → ltb_ℤ (pos 0) n ≡ true
is_positive (pos n) h = ground arith
is_positive (negsuc n) h = ground arith

module _ {J : Type 0} (json : Json J) where
  length-read_bands : (n : ℕ) (items : List J) → length (read_bands json n items) ≡ n
  unfolding read_bands
  length-read_bands zero items = refl
  length-read_bands (suc n) [] = ground (arith, length-read_bands n [])
  length-read_bands (suc n) (item ∷ items) = ground (arith, length-read_bands n items)

  pub number-Ensures :
      (name : Bytes) (is_bad : ℤ → Bool) (freed : Bool) (missing invalid : Bytes) (j : J)
      → Ensures (λ n. is_bad n ≡ false) (number json name is_bad freed missing invalid j)
  number-Ensures name is_bad freed missing invalid j = record {
    ensures = λ n h. elim (Option-cases (field json json.value_int name j)) [
      | inl e ↦ ground arith
      | inr (m, e) ↦ ground arith
    ];
  }

  parse_config-Ensures : (root : J) → Ensures IsParsed (parse_config json root)
  unfolding parse_config
  parse_config-Ensures root = bind-Ensures (number-Ensures _ _ _ _ _ root) (λ tcp_port h.
      bind-Ensures (number-Ensures _ _ _ _ _ root) (λ baud h1.
        bind-Ensures (number-Ensures _ (λ n. false) _ _ [] root) (λ parity h2.
          bind-Ensures (number-Ensures _ (λ n. false) _ _ [] root) (λ stop_bits h3.
            bind-Ensures (number-Ensures _ (λ n. false) _ _ [] root) (λ flow_ctrl h4.
              bind-Ensures (number-Ensures _ _ _ _ _ root) (λ num_bands h5.
                bind-Ensures (number-Ensures _ _ _ _ _ root) (λ num_ports h6. good-Ensures (record {
                  some_port = (in_range 65535 tcp_port h).0;
                  port_fits = omega (arith, (in_range 65535 tcp_port h).1);
                  some_baud = is_positive baud h1;
                  some_ports = (in_range max_antenna_ports num_ports h6).0;
                  ports_fit = (in_range max_antenna_ports num_ports h6).1;
                  all_bands = length-read_bands max_bands _;
                }))))))))

module _ {W S C : Type 0} (platform : Platform W S C) where
  pub store-ok :
      (c : Config) (d : Device W S C)
      → let stored = store platform c d in
        stored.0 ≡ ok → (get_config (stored.1).system.switch ≡ c) × IsValid c
  unfolding store AntennaSwitch.set_config ConfigManager.update_config ConfigManager.save_to_nvs
      get_config
  store-ok c d h = ground arith

pub Parsed-cases :
    {A : Type 0} (x : Parsed A)
    → ((m : Bytes) × (freed : Bool) × (x ≡ bad m freed)) ⊎ ((a : A) × (x ≡ good a))
Parsed-cases (bad m freed) = inl (m, freed, refl)
Parsed-cases (good a) = inr (a, refl)

module _ {W S C J : Type 0} (platform : Platform W S C) (json : Json J) where
  pub apply_config-ok :
      (c : Config) (d : Device W S C)
      → let applied = apply_config platform json c d in
        let s = applied.device.system in
        applied.result ≡ ok
        → (get_config s.switch ≡ c) × (s.cat.current_config ≡ c) × IsValid c × (applied.blocks ≡ 0)
  unfolding apply_config CatParser.update_config
  apply_config-ok c d h = elim (Bool-cases (is_ok (store platform c d).0)) [
    | inl saved ↦
        let (same, valid) = store-ok platform c d (ground arith) in
        (ground (arith, same), ground (arith, same), valid, ground arith)
    | inr lost ↦ absurd (ground arith)
  ]

  apply_config-not-bad :
      (c : Config) (d : Device W S C) (message : Bytes)
      → (apply_config platform json c d).reply ≢ bad_request message
  unfolding apply_config
  apply_config-not-bad c d message h = ground arith

  -- The handler either refuses and leaves the device as it is, or goes on with what it parsed.
  pub post-cases :
      (req : Request) (d : Device W S C)
      → let posted = config_post_handler platform json req d in
        ((posted.result ≡ fail) × (posted.device ≡ d) × (posted.blocks ≤ 2))
        ⊎ ((memory : Bytes) × (root : J) × (c : Config) × (req.memory ≡ some memory)
            × (json.parse (content req.content_len memory req.received) ≡ some root)
            × (parse_config json root ≡ good c)
            × (posted ≡ apply_config platform json c d))
  unfolding config_post_handler
  post-cases req d = elim (Bool-cases (ltb max_post_size req.content_len)) [
    | inl large ↦ inl (ground arith, ground arith, ground arith)
    | inr fits ↦ elim (Option-cases req.memory) [
      | inl null ↦ inl (ground arith, ground arith, ground arith)
      | inr (memory, block) ↦ elim (Bool-cases (leb (length req.received) 0)) [
        | inl failed ↦ inl (ground arith, ground arith, ground arith)
        | inr read ↦
            let text = content req.content_len memory req.received in
            elim (Option-cases (json.parse text)) [
              | inl broken ↦ inl (ground arith, ground arith, ground arith)
              | inr (root, tree) ↦ elim (Parsed-cases (parse_config json root)) [
                | inl (m, freed, e) ↦ inl (ground arith, ground arith, ground arith)
                | inr (c, e) ↦ inr (memory, root, c, block, tree, e, ground arith)
              ]
            ]
      ]
    ]
  ]

  -- When a posted configuration is reported as updated, it is the one that the device has stored and
  -- that the CAT parser works with: its numbers of bands and ports are in range, it has all ten
  -- entries for bands, its TCP port is from 1 to 65535 and its baud rate positive. The handler has
  -- given back the memory that it took.
  pub config_post_handler-ok :
      (req : Request) (d : Device W S C)
      → let posted = config_post_handler platform json req d in
        let s = posted.device.system in
        posted.result ≡ ok
        → (s.cat.current_config ≡ get_config s.switch)
          × IsValid (get_config s.switch)
          × IsParsed (get_config s.switch)
          × (posted.blocks ≡ 0)
  config_post_handler-ok req d h = elim (post-cases req d) [
    | inl (refusal, same, few) ↦ absurd (ground arith)
    | inr (memory, root, c, block, tree, parsed, e) ↦
        let (stored, told, valid, freed) = apply_config-ok c d (ground arith) in
        let p = (parse_config-Ensures json root).ensures c parsed in
        rw e (
          told ∙ sym stored,
          subst IsValid (sym stored) valid,
          subst IsParsed (sym stored) p,
          freed,
        )
  ]

  -- A request that is answered with 400 leaves the whole device as it was.
  pub config_post_handler_bad_request :
      (req : Request) (d : Device W S C) (message : Bytes)
      → (config_post_handler platform json req d).reply ≡ bad_request message
      → (config_post_handler platform json req d).device ≡ d
  config_post_handler_bad_request req d message h = elim (post-cases req d) [
    | inl (refusal, same, few) ↦ same
    | inr (memory, root, c, block, tree, parsed, e) ↦
        absurd (apply_config-not-bad c d message (ap (λ p. p.reply) (sym e) ∙ h))
  ]
