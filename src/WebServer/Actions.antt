-- ===== src/WebServer/Actions.antt =====
-- The actions that change the stored configuration, and what every request keeps.
use mathlib.Core.Path.{subst}
use esp32_band_decoder.AntennaSwitch
use esp32_band_decoder.AntennaSwitch.{get_config}
use esp32_band_decoder.Base.{
  ℕ, ◌≡◌, inl, inr, refl, sym, ap, ◌∙◌, true, false, not, arith, length, ◌==◌, Bool-cases,
}
use esp32_band_decoder.CatParser
use esp32_band_decoder.Config.{Config, IsValid}
use esp32_band_decoder.ConfigManager.Update.{update_config-IsValid}
use esp32_band_decoder.ConfigManager.{bad_bands, bad_ports}
use esp32_band_decoder.Err.{ok, is_ok}
use esp32_band_decoder.HtmlContent.{generate_config_html}
use esp32_band_decoder.SystemInitializer.{Platform, Device}
use esp32_band_decoder.Text.{Bytes}
use esp32_band_decoder.WebServer.ConfigPost.Valid.{store-ok, post-cases}
use esp32_band_decoder.WebServer.ConfigPost.{Json, Request, apply_config}
use esp32_band_decoder.WebServer.Lifecycle.{
  Uri, serve, root, config_get, config_post, status, toggle_auto_mode, reset_config, restart,
  reset_wifi,
}
use esp32_band_decoder.WebServer.{
  config_page, default_config, store, show_config, shown_config, config_get_handler,
  toggle_auto_mode_handler, reset_config_handler, root_get_handler, status_get_handler,
  restart_handler, reset_wifi_handler,
}

module _ {W S C : Type 0} where
  abbrev pub stored : Device W S C → Config
  stored d = get_config d.system.switch

-- A page that is not empty shows a configuration whose numbers are in range.
html-IsValid : (c : Config) → (length (generate_config_html c) == 0) ≡ false → IsValid c
unfolding generate_config_html
html-IsValid c h = elim (Bool-cases (bad_bands c)) [
  | inl bad ↦ let e : true ≡ false = rw bad at h in cc
  | inr bands ↦ elim (Bool-cases (bad_ports c)) [
    | inl bad ↦ let e : true ≡ false = rw (bands, bad) at h in cc
    | inr ports ↦ ground (arith, bands, ports)
  ]
]

-- The other mode, and nothing else changed.
abbrev pub flip : Config → Config
flip c = record c { auto_mode = not c.auto_mode }

flip-flip : (c : Config) → flip (flip c) ≡ c
flip-flip c = elim (Bool-cases c.auto_mode) [ inl h ↦ ground arith | inr h ↦ ground arith ]

module _ {W S C : Type 0} (platform : Platform W S C) where
  store-cat : (c : Config) (d : Device W S C) → (store platform c d).1.system.cat ≡ d.system.cat
  unfolding store
  store-cat c d = refl

  show_config-page :
      (c : Config) (d : Device W S C) (html : Bytes)
      → (show_config platform c d).reply ≡ config_page html
      → IsValid (shown_config c) × (html ≡ generate_config_html (shown_config c))
  show_config-page c d html h =
      let empty = length (generate_config_html (shown_config c)) == 0 in
      elim (Bool-cases empty) [
        | inl none ↦ absurd (ground arith)
        | inr some ↦ (html-IsValid (shown_config c) some, ground arith)
      ]

  toggle_auto_mode_handler-ok :
      (d : Device W S C)
      → (toggle_auto_mode_handler platform d).result ≡ ok
      → stored (toggle_auto_mode_handler platform d).device ≡ flip (stored d)
  unfolding toggle_auto_mode_handler
  toggle_auto_mode_handler-ok d h =
      elim (Bool-cases (is_ok (store platform (flip (stored d)) d).0)) [
        | inl good ↦
            let (same, valid) = store-ok platform (flip (stored d)) d (ground arith) in rw good same
        | inr bad ↦ absurd (ground arith)
      ]

  -- Toggling automatic mode twice, both times reported as done, restores the stored configuration;
  -- once changes the mode and nothing else of it.
  pub toggle_auto_mode_handler-twice :
      (d : Device W S C)
      → let once = toggle_auto_mode_handler platform d in
        let twice = toggle_auto_mode_handler platform once.device in
        once.result ≡ ok
        → (stored once.device ≡ flip (stored d))
          × (twice.result ≡ ok → stored twice.device ≡ stored d)
  toggle_auto_mode_handler-twice d h =
      let once = toggle_auto_mode_handler platform d in
      let first = toggle_auto_mode_handler-ok d h in
      (first, λ k. toggle_auto_mode_handler-ok once.device k ∙ ap flip first ∙ flip-flip (stored d))

  -- A reset that is reported as done has stored the default configuration, which is valid; the CAT
  -- parser keeps working with its copy of the configuration before the reset.
  pub reset_config_handler-ok :
      (d : Device W S C)
      → let reset = reset_config_handler platform d in
        reset.result ≡ ok
        → (stored reset.device ≡ default_config)
          × IsValid (stored reset.device)
          × (reset.device.system.cat ≡ d.system.cat)
  unfolding reset_config_handler
  reset_config_handler-ok d h = elim (Bool-cases (is_ok (store platform default_config d).0)) [
    | inl good ↦
        let (same, valid) = store-ok platform default_config d (ground arith) in
        rw good (same, subst IsValid (sym same) valid, store-cat default_config d)
    | inr bad ↦ absurd (ground arith)
  ]

  -- A configuration page is the page of a configuration whose numbers are in range.
  pub config_get_handler-page :
      (d : Device W S C) (html : Bytes)
      → (config_get_handler platform d).reply ≡ config_page html
      → (c : Config) × IsValid c × (html ≡ generate_config_html c)
  unfolding config_get_handler
  config_get_handler-page d html h =
      let config = get_config d.system.switch in
      let corrected = record config { num_bands = 1 } in
      let saved = store platform corrected d in
      elim (Bool-cases (bad_bands config)) [
        | inl wrong ↦ elim (Bool-cases (is_ok saved.0)) [
          | inl good ↦
              let (v, e) = show_config-page corrected saved.1 html (ground arith) in
              (shown_config corrected, v, e)
          | inr bad ↦ absurd (ground arith)
        ]
        | inr right ↦
            let (v, e) = show_config-page config d html (ground arith) in
            (shown_config config, v, e)
      ]

  store-IsValid :
      (c : Config) (d : Device W S C) → IsValid (stored d) → IsValid (stored (store platform c d).1)
  unfolding store AntennaSwitch.set_config get_config
  store-IsValid c d v = update_config-IsValid platform.nvs c d.system.switch.manager v

  show_config-device : (c : Config) (d : Device W S C) → (show_config platform c d).device ≡ d
  show_config-device c d = ground arith

  config_get_handler-IsValid :
      (d : Device W S C)
      → IsValid (stored d)
      → IsValid (stored (config_get_handler platform d).device)
  unfolding config_get_handler
  config_get_handler-IsValid d v =
      let config = get_config d.system.switch in
      let corrected = record config { num_bands = 1 } in
      let saved = store platform corrected d in
      elim (Bool-cases (bad_bands config)) [
        | inl wrong ↦ elim (Bool-cases (is_ok saved.0)) [
          | inl good ↦
              rw (wrong, good)
                (rw (show_config-device corrected saved.1) (store-IsValid corrected d v))
          | inr bad ↦ rw (wrong, bad) (store-IsValid corrected d v)
        ]
        | inr right ↦ rw right (rw (show_config-device config d) v)
      ]

  toggle_auto_mode_handler-IsValid :
      (d : Device W S C)
      → IsValid (stored d)
      → IsValid (stored (toggle_auto_mode_handler platform d).device)
  unfolding toggle_auto_mode_handler
  toggle_auto_mode_handler-IsValid d v =
      elim (Bool-cases (is_ok (store platform (flip (stored d)) d).0)) [
        | inl good ↦ rw good (store-IsValid (flip (stored d)) d v)
        | inr bad ↦ rw bad (store-IsValid (flip (stored d)) d v)
      ]

  reset_config_handler-IsValid :
      (d : Device W S C)
      → IsValid (stored d)
      → IsValid (stored (reset_config_handler platform d).device)
  unfolding reset_config_handler
  reset_config_handler-IsValid d v = elim (Bool-cases (is_ok (store platform default_config d).0)) [
    | inl good ↦ rw good (store-IsValid default_config d v)
    | inr bad ↦ rw bad (store-IsValid default_config d v)
  ]

  restart-stored :
      (d : Device W S C)
      → get_config (AntennaSwitch.restart platform.nvs d.system.switch) ≡ stored d
  unfolding AntennaSwitch.restart get_config
  restart-stored d = refl

  restart_handler-IsValid :
      (d : Device W S C)
      → ((ms : ℕ) (e : Device W S C) → IsValid (stored e) → IsValid (stored (platform.others ms e)))
      → IsValid (stored d)
      → IsValid (stored (restart_handler platform d).device)
  unfolding restart_handler
  restart_handler-IsValid d quiet v =
      let later = platform.others 500 d in
      let switch = AntennaSwitch.restart platform.nvs later.system.switch in
      let committed : Device W S C = record later {
        system = record (later.system) { switch = switch };
      } in
      quiet 1000 committed (rw (restart-stored later) (quiet 500 d v))

  reset_wifi_handler-stored :
      (d : Device W S C) → stored (reset_wifi_handler platform d).device ≡ stored d
  unfolding reset_wifi_handler
  reset_wifi_handler-stored d = ground arith

module _ {W S C J : Type 0} (platform : Platform W S C) (json : Json J) where
  apply_config-IsValid :
      (c : Config) (d : Device W S C)
      → IsValid (stored d)
      → IsValid (stored (apply_config platform json c d).device)
  unfolding apply_config CatParser.update_config
  apply_config-IsValid c d v = elim (Bool-cases (is_ok (store platform c d).0)) [
    | inl good ↦ rw good (store-IsValid platform c d v)
    | inr bad ↦ rw bad (store-IsValid platform c d v)
  ]

  -- Whatever is requested from the web server, a valid stored configuration stays valid, as long as
  -- the other tasks keep it so.
  pub serve-IsValid :
      (uri : Uri) (req : Request) (d : Device W S C)
      → ((ms : ℕ) (e : Device W S C) → IsValid (stored e) → IsValid (stored (platform.others ms e)))
      → IsValid (stored d)
      → IsValid (stored (serve platform json uri req d).device)
  unfolding serve root_get_handler status_get_handler
  serve-IsValid root req d quiet v = v
  serve-IsValid config_get req d quiet v = config_get_handler-IsValid platform d v
  serve-IsValid config_post req d quiet v = elim (post-cases platform json req d) [
    | inl (refusal, same, few) ↦ rw same v
    | inr (memory, tree, c, block, is_tree, parsed, e) ↦ rw e (apply_config-IsValid c d v)
  ]
  serve-IsValid status req d quiet v = v
  serve-IsValid toggle_auto_mode req d quiet v = toggle_auto_mode_handler-IsValid platform d v
  serve-IsValid reset_config req d quiet v = reset_config_handler-IsValid platform d v
  serve-IsValid restart req d quiet v = restart_handler-IsValid platform d quiet v
  serve-IsValid reset_wifi req d quiet v = rw (reset_wifi_handler-stored platform d) v
