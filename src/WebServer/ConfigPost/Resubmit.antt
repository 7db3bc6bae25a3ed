-- ===== src/WebServer/ConfigPost/Resubmit.antt =====
-- The configuration page that is opened and submitted as it is, from the request for the page to the
-- stored configuration.
use mathlib.Core.Path.{subst}
use esp32_band_decoder.Base.{
  ◌<◌, ◌≤◌, ◌≡◌, ap, ◌∙◌, false, List, some, arith, length, length-append, ◌==◌, ◌++◌,
}
use esp32_band_decoder.Config.{Config, IsValid}
use esp32_band_decoder.ConfigManager.{bad_bands, bad_ports}
use esp32_band_decoder.Err.{ok}
use esp32_band_decoder.HtmlContent.Form.{Entry, entries, submit_config}
use esp32_band_decoder.HtmlContent.Lines.{lines_of}
use esp32_band_decoder.HtmlContent.Style.{html_header}
use esp32_band_decoder.HtmlContent.Unchanged.{posted_config, submit_config-entries}
use esp32_band_decoder.HtmlContent.{config_form, generate_config_html}
use esp32_band_decoder.SystemInitializer.{Platform, Device}
use esp32_band_decoder.Text.{Bytes}
use esp32_band_decoder.WebServer.Actions.{stored}
use esp32_band_decoder.WebServer.ConfigPost.Posted.{IsSubmittable, Carries, parse_config-posted}
use esp32_band_decoder.WebServer.ConfigPost.Valid.{apply_config-ok}
use esp32_band_decoder.WebServer.ConfigPost.{
  Json, Request, good, parse_config, apply_config, config_post_handler, content, max_post_size,
}
use esp32_band_decoder.WebServer.{config_page, store, config_get_handler}

header_some : 0 < length html_header
unfolding html_header lines_of
header_some = omega arith

header_shown : (rest : Bytes) → (length (html_header ++ rest) == 0) ≡ false
header_shown rest = ground (arith, header_some, length-append html_header rest)

in_range : (c : Config) → IsValid c → (bad_bands c ≡ false) × (bad_ports c ≡ false)
in_range c v = (ground arith, ground arith)

page_some : (c : Config) → IsValid c → (length (generate_config_html c) == 0) ≡ false
unfolding generate_config_html
page_some c v = let (bands, ports) = in_range c v in rw (bands, ports) (header_shown _)

module _ {W S C J : Type 0} (platform : Platform W S C) (json : Json J) (d : Device W S C) where
  page_given :
      IsValid (stored d)
      → ((config_get_handler platform d).reply ≡ config_page (generate_config_html (stored d)))
        × ((config_get_handler platform d).device ≡ d)
  unfolding config_get_handler
  page_given v =
      let (bands, ports) = in_range (stored d) v in
      let some_page = page_some (stored d) v in
      ground (arith, bands, some_page, v.some_ports, v.ports_fit)

  -- A configuration that is saved is applied.
  pub applied_ok :
      (c : Config) → (store platform c d).0 ≡ ok → (apply_config platform json c d).result ≡ ok
  unfolding apply_config
  applied_ok c saved = ground arith

  pub posted_whole :
      (req : Request) (memory : Bytes) (root : J) (c : Config)
      → req.memory ≡ some memory
      → req.content_len ≤ max_post_size
      → 1 ≤ length req.received
      → json.parse (content req.content_len memory req.received) ≡ some root
      → parse_config json root ≡ good c
      → config_post_handler platform json req d ≡ apply_config platform json c d
  unfolding config_post_handler
  posted_whole req memory root c block fits some_data tree parsed = ground arith

  -- Opening the configuration page and submitting it unchanged keeps the stored configuration. This
  -- holds for a configuration that the page can show and the handler accepts, when the browser takes
  -- from the page what its controls hold, the request arrives whole, cJSON reads what was posted,
  -- and the configuration can be saved. The handler reports success, and the CAT parser works with
  -- the stored configuration.
  pub config_post_handler_unchanged :
      (form_data : Bytes → List Entry) (req : Request) (memory : Bytes) (root : J)
      → IsSubmittable (stored d)
      → form_data (generate_config_html (stored d)) ≡ entries (config_form (stored d))
      → req.memory ≡ some memory
      → req.content_len ≤ max_post_size
      → 1 ≤ length req.received
      → json.parse (content req.content_len memory req.received) ≡ some root
      → Carries json root (submit_config (form_data (generate_config_html (stored d))))
      → (store platform (stored d) d).0 ≡ ok
      → let posted = config_post_handler platform json req d in
        ((config_get_handler platform d).reply ≡ config_page (generate_config_html (stored d)))
        × (posted.result ≡ ok)
        × (stored posted.device ≡ stored d)
        × (posted.device.system.cat.current_config ≡ stored d)
  config_post_handler_unchanged form_data req memory root h reads block fits some_data tree carried
        saved =
      let shown = page_given h.editable.valid in
      let same : submit_config (form_data (generate_config_html (stored d)))
          ≡ posted_config (stored d) =
        ap submit_config reads ∙ submit_config-entries (stored d) h.editable in
      let parsed =
        parse_config-posted json (stored d) h root (subst (Carries json root) same carried) in
      let e = posted_whole req memory root (stored d) block fits some_data tree parsed in
      let done = applied_ok (stored d) saved in
      let (kept, told, valid, freed) = apply_config-ok platform json (stored d) d done in
      rw e (shown.0, done, kept, told)
