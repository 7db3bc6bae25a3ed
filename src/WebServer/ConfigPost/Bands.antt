-- ===== src/WebServer/ConfigPost/Bands.antt =====
-- The number of bands of a posted configuration, and the memory of requests that are refused.
use esp32_band_decoder.AntennaSwitch.{get_config}
use esp32_band_decoder.Base.{
  ◌%◌, ◌≤◌, ◌≡◌, inl, inr, refl, sym, ap, ◌∙◌, false, List, [], Option, none, some, length, arith,
}
use esp32_band_decoder.Err.{ok, fail}
use esp32_band_decoder.SystemInitializer.{Platform, Device}
use esp32_band_decoder.Text.{Bytes, codes}
use esp32_band_decoder.WebServer.ConfigPost.Valid.{
  Ensures, good-Ensures, bind-Ensures, number-Ensures, post-cases, apply_config-ok,
}
use esp32_band_decoder.WebServer.ConfigPost.{
  Json, Request, ◌>>=◌, parse_config, config_post_handler, content, max_post_size, field,
}

module _ {J : Type 0} (json : Json J) (root : J) where
  -- The items of the array `bands`.
  abbrev pub posted_bands : Option (List J)
  posted_bands = field json json.array_items (codes "bands") root

  parse_config-count :
      (items : List J)
      → posted_bands ≡ some items
      → Ensures (λ c. c.num_bands ≡ length items % 256) (parse_config json root)
  unfolding parse_config
  parse_config-count items h = bind-Ensures (number-Ensures json _ _ _ _ _ root) (λ tcp_port _.
      bind-Ensures (number-Ensures json _ _ _ _ _ root) (λ baud _.
        bind-Ensures (number-Ensures json _ (λ n. false) _ _ [] root) (λ parity _.
          bind-Ensures (number-Ensures json _ (λ n. false) _ _ [] root) (λ stop_bits _.
            bind-Ensures (number-Ensures json _ (λ n. false) _ _ [] root) (λ flow_ctrl _.
              bind-Ensures (number-Ensures json _ _ _ _ _ root) (λ num_bands _.
                bind-Ensures (number-Ensures json _ _ _ _ _ root)
                  (λ num_ports _. good-Ensures (rw h refl))))))))

module _ {W S C J : Type 0} (platform : Platform W S C) (json : Json J) where
  -- Whatever number of bands the client states, the stored number is the length of the array of
  -- bands, modulo 256.
  pub config_post_handler-bands :
      (req : Request) (d : Device W S C) (memory : Bytes) (root : J) (items : List J)
      → req.memory ≡ some memory
      → json.parse (content req.content_len memory req.received) ≡ some root
      → posted_bands json root ≡ some items
      → let posted = config_post_handler platform json req d in
        posted.result ≡ ok → (get_config posted.device.system.switch).num_bands ≡ length items % 256
  config_post_handler-bands req d memory root items block tree array h =
      elim (post-cases platform json req d) [
        | inl (refusal, same, few) ↦ absurd (ground arith)
        | inr (memory', root', c, block', tree', parsed, e) ↦
            let (stored, told, valid, freed) = apply_config-ok platform json c d (ground arith) in
            let same_memory : memory' ≡ memory = ground arith in
            let again =
              sym tree'
              ∙ ap (λ m. json.parse (content req.content_len m req.received)) same_memory
              ∙ tree in
            let same_root : root' ≡ root = ground (arith, again) in
            let counted =
              (parse_config-count json root' items (rw same_root array)).ensures c parsed in
            rw e (rw stored counted)
      ]

  -- A request that fits and is JSON, but has no number as its TCP port, is refused with two blocks
  -- of memory that are not given back: the text and the parsed tree.
  pub config_post_handler_leaks :
      (req : Request) (d : Device W S C) (memory : Bytes) (root : J)
      → req.content_len ≤ max_post_size
      → req.memory ≡ some memory
      → 1 ≤ length req.received
      → json.parse (content req.content_len memory req.received) ≡ some root
      → field json json.value_int (codes "tcp_port") root ≡ none
      → let posted = config_post_handler platform json req d in
        (posted.result ≡ fail) × (posted.blocks ≡ 2)
  unfolding config_post_handler parse_config ◌>>=◌
  config_post_handler_leaks req d memory root fits block some_data tree no_port = ground arith
