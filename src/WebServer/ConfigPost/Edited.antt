-- ===== src/WebServer/ConfigPost/Edited.antt =====
-- The configuration page with its numbers and its table changed, from the form to the stored
-- configuration.
use mathlib.Core.List.{map}
use mathlib.Core.Path.{subst}
use esp32_band_decoder.Base.{
  ℕ, zero, suc, ◌-◌, ◌≤◌, ◌≡◌, refl, sym, ap, ◌∙◌, Bool, List, [], ◌∷◌, some, arith, length,
  length-append, ◌++◌,
}
use esp32_band_decoder.Config.{BandConfig, Config, max_bands, max_antenna_ports}
use esp32_band_decoder.Err.{ok}
use esp32_band_decoder.HtmlContent.Edit.{Row, resize}
use esp32_band_decoder.HtmlContent.Edit.Choices.{band_of}
use esp32_band_decoder.HtmlContent.Edit.Posted.{
  IsComposed, edited, edited-IsEditable, submit_config-edited, length-resize,
}
use esp32_band_decoder.HtmlContent.Edit.Table.{edited_form}
use esp32_band_decoder.HtmlContent.Edit.Settled.{AreSettled}
use esp32_band_decoder.HtmlContent.Form.{entries, submit_config}
use esp32_band_decoder.SystemInitializer.{Platform, Device}
use esp32_band_decoder.Text.{Bytes}
use esp32_band_decoder.WebServer.Actions.{stored}
use esp32_band_decoder.WebServer.ConfigPost.Posted.{
  AreOff, AreTidy, IsSubmittable, Carries, parse_config-posted,
}
use esp32_band_decoder.WebServer.ConfigPost.Resubmit.{applied_ok, posted_whole}
use esp32_band_decoder.WebServer.ConfigPost.Valid.{apply_config-ok}
use esp32_band_decoder.WebServer.ConfigPost.{
  Json, Request, no_band, config_post_handler, content, max_post_size,
}
use esp32_band_decoder.WebServer.{store}

-- So many blank bands.
abbrev pub blanks : ℕ → List BandConfig
blanks zero = []
blanks (suc n) = no_band ∷ blanks n

length-blanks : (n : ℕ) → length (blanks n) ≡ n
length-blanks zero = refl
length-blanks (suc n) = ap (λ t. suc t) (length-blanks n)

length-bands : (rows : List Row) → length (map band_of rows) ≡ length rows
length-bands [] = refl
length-bands (row ∷ rows) = ap (λ t. suc t) (length-bands rows)

resize-AreOff : (m : ℕ) (ports : List Bool) → AreOff (length ports) (resize m ports)
unfolding resize
resize-AreOff zero ports = tt
resize-AreOff (suc m) [] = (refl, resize-AreOff m [])
resize-AreOff (suc m) (p ∷ ports) = resize-AreOff m ports

row-AreOff : (n m : ℕ) (ports : List Bool) → resize n ports ≡ ports → AreOff n (resize m ports)
row-AreOff n m ports h =
    subst (λ k. AreOff k (resize m ports)) (ap length (sym h) ∙ length-resize n ports)
      (resize-AreOff m ports)

blanks-AreTidy : (n k : ℕ) → AreTidy n 0 (blanks k)
blanks-AreTidy n zero = tt
blanks-AreTidy n (suc k) = (refl, blanks-AreTidy n k)

rows-AreTidy :
    (n k : ℕ) (rows : List Row)
    → AreSettled n rows
    → AreTidy n (length rows) (map band_of rows ++ blanks k)
rows-AreTidy n k [] h = blanks-AreTidy n k
rows-AreTidy n k (row ∷ rows) h =
    (row-AreOff n max_antenna_ports row.ports h.0.boxes, rows-AreTidy n k rows h.1)

-- The configuration with the numbers and the rows of the page.
abbrev pub composed : Config → ℕ → List Row → Config
composed c num_ports rows = edited c num_ports rows (blanks (max_bands - length rows))

composed-IsSubmittable :
    (c : Config) (n : ℕ) (rows : List Row)
    → IsSubmittable c
    → IsComposed n rows
    → IsSubmittable (composed c n rows)
composed-IsSubmittable c n rows h new =
    let rest = max_bands - length rows in
    record {
      editable = edited-IsEditable c n rows (blanks rest) h.editable new;
      some_port = h.some_port;
      host_fits = h.host_fits;
      all_bands = omega (
        arith,
        length-append (map band_of rows) (blanks rest),
        length-bands rows,
        length-blanks rest,
        new.bands_fit,
      );
      tidy = rows-AreTidy n rest rows new.settled;
    }

module _ {W S C J : Type 0} (platform : Platform W S C) (json : Json J) (d : Device W S C) where
  -- What the table of the configuration page holds is stored. This is for a stored configuration
  -- that the page can show and the handler accepts, numbers in range and rows whose cells are those
  -- of their bands. If the request arrives whole, cJSON reads what was posted, and the configuration
  -- can be saved, the handler reports success and the stored configuration has the numbers and the
  -- bands of the page, blank bands behind them, and its other settings as they were. The CAT parser
  -- works with it.
  pub config_post_handler-composed :
      (num_ports : ℕ) (rows : List Row) (req : Request) (memory : Bytes) (root : J)
      → IsSubmittable (stored d)
      → IsComposed num_ports rows
      → req.memory ≡ some memory
      → req.content_len ≤ max_post_size
      → 1 ≤ length req.received
      → json.parse (content req.content_len memory req.received) ≡ some root
      → Carries json root
          (submit_config (entries (edited_form (stored d) (length rows) num_ports rows)))
      → (store platform (composed (stored d) num_ports rows) d).0 ≡ ok
      → let posted = config_post_handler platform json req d in
        (posted.result ≡ ok)
        × (stored posted.device ≡ composed (stored d) num_ports rows)
        × (posted.device.system.cat.current_config ≡ composed (stored d) num_ports rows)
  config_post_handler-composed num_ports rows req memory root h new block fits some_data tree
        carried saved =
      let c = composed (stored d) num_ports rows in
      let submitted =
        submit_config-edited (stored d) num_ports rows (blanks (max_bands - length rows)) h.editable
          new in
      let parsed =
        parse_config-posted json c (composed-IsSubmittable (stored d) num_ports rows h new) root
          (subst (Carries json root) submitted carried) in
      let e = posted_whole platform json d req memory root c block fits some_data tree parsed in
      let done = applied_ok platform json d c saved in
      let (kept, told, valid, freed) = apply_config-ok platform json c d done in
      rw e (done, kept, told)
