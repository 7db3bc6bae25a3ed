-- ===== src/Tests/Table.antt =====
-- The table of the configuration page, changed and submitted.
use mathlib.Core.Path.{subst}
use esp32_band_decoder.AntennaSwitch
use esp32_band_decoder.Base.{
  ℕ, ◌≡◌, inl, refl, sym, ap, ◌∙◌, true, false, List, [], ◌∷◌, Option, none, some, arith, length,
  get_elem?,
}
use esp32_band_decoder.Config.{Config}
use esp32_band_decoder.ConfigManager
use esp32_band_decoder.Err.{ok}
use esp32_band_decoder.HtmlContent.Edit.Posted.{IsComposed, submit_config-edited}
use esp32_band_decoder.HtmlContent.Edit.Settled.{AreSettled, Keeps}
use esp32_band_decoder.HtmlContent.Edit.Twice.{update_band_rows_twice}
use esp32_band_decoder.HtmlContent.Edit.{
  Row, resize, update_antenna_ports, update_band_rows, update_frequencies,
}
use esp32_band_decoder.HtmlContent.Pieces.{BandInfo, band_info, find}
use esp32_band_decoder.HtmlContent.Unchanged.{posted_config}
use esp32_band_decoder.SystemInitializer.{Device}
use esp32_band_decoder.Tests.Boot.{platform, device}
use esp32_band_decoder.Tests.Network.{Flash}
use esp32_band_decoder.Tests.Page.{document, twenty, home, json, carried, request, tree}
use esp32_band_decoder.Tests.{switch, system}
use esp32_band_decoder.Text.{codes, eq_bytes}
use esp32_band_decoder.WebServer
use esp32_band_decoder.WebServer.Actions.{stored}
use esp32_band_decoder.WebServer.ConfigPost.Edited.{composed, blanks, config_post_handler-composed}
use esp32_band_decoder.WebServer.ConfigPost.Posted.{IsSubmittable, Carries}
use esp32_band_decoder.WebServer.ConfigPost.{no_band, config_post_handler}
use esp32_band_decoder.WebServer.{store}

-- The table of the page of `home`, which the user asks for a second band and a third port.
abbrev home_rows : List Row
home_rows =
    record {
      band = codes "20m";
      start_freq = 14000000;
      end_freq = 14350000;
      ports = false ∷ true ∷ [];
    }
    ∷ []

abbrev home_info : BandInfo
home_info = record { name = codes "20m"; start_freq = 14000000; end_freq = 14350000 }

twenty-known : find (codes "20m") band_info ≡ some home_info
unfolding find eq_bytes
twenty-known = refl

update_band_rows_twice_example :
    (rows' : List Row) × (update_band_rows 3 2 0 home_rows ≡ some rows')
    × (length rows' ≡ 2)
    × Keeps 3 home_rows rows'
    × AreSettled 3 rows'
    × (update_band_rows 3 2 0 rows' ≡ some rows')
    × (update_antenna_ports 3 rows' ≡ rows')
    × ((k : ℕ) (row : Row) → get_elem? rows' k ≡ some row → update_frequencies row ≡ some row)
update_band_rows_twice_example =
    update_band_rows_twice 3 2 home_rows ((home_info, twenty-known), tt)

-- The page of a station that had one port: the user asks for two and checks the second box only.
abbrev narrow : Config
narrow = record home {
  num_antenna_ports = 1;
  bands =
      record twenty {
        antenna_ports = true ∷ false ∷ false ∷ false ∷ false ∷ false ∷ false ∷ false ∷ [];
      }
      ∷ no_band
      ∷ no_band
      ∷ no_band
      ∷ no_band
      ∷ no_band
      ∷ no_band
      ∷ no_band
      ∷ no_band
      ∷ no_band
      ∷ [];
}

abbrev narrow_device : Device Flash (Option Config) ℕ
narrow_device = record (device 0) {
  system = record system {
    switch = record switch {
      manager = record { current_config = narrow; observers = []; notified = []; flash = none };
    };
  };
}

narrow-IsSubmittable : IsSubmittable narrow
narrow-IsSubmittable = record {
  editable = record {
    valid = record {
      some_bands = omega arith;
      bands_fit = omega arith;
      some_ports = omega arith;
      ports_fit = omega arith;
    };
    port_fits = omega arith;
    rate = 9600;
    rate_index = 3;
    is_rate = refl;
    baud = refl;
    parity = inl refl;
    some_stop_bits = omega arith;
    stop_bits_fit = omega arith;
    flow_ctrl_fits = omega arith;
    listed = (record { index = 5; entry = refl; all_ports = refl }, tt);
  };
  some_port = omega arith;
  host_fits = omega arith;
  all_bands = refl;
  tidy = (
    (refl, (refl, (refl, (refl, (refl, (refl, (refl, tt))))))),
    (refl, (refl, (refl, (refl, (refl, (refl, (refl, (refl, (refl, tt))))))))),
  );
}

home_rows-IsComposed : IsComposed 2 home_rows
unfolding resize
home_rows-IsComposed = record {
  some_bands = omega arith;
  bands_fit = omega arith;
  some_ports = omega arith;
  ports_fit = omega arith;
  settled = (
    record { info = home_info; listed = twenty-known; starts = refl; ends = refl; boxes = refl },
    tt,
  );
}

composed-home : composed narrow 2 home_rows ≡ home
unfolding resize
composed-home = refl

composed_saves : (store platform (composed narrow 2 home_rows) narrow_device).0 ≡ ok
unfolding WebServer.store AntennaSwitch.set_config ConfigManager.update_config
    ConfigManager.save_to_nvs
composed_saves = refl

config_post_handler-composed_example :
    let posted = config_post_handler platform json request narrow_device in
    (posted.result ≡ ok)
    × (stored posted.device ≡ composed narrow 2 home_rows)
    × (posted.device.system.cat.current_config ≡ composed narrow 2 home_rows)
unfolding AntennaSwitch.get_config
config_post_handler-composed_example =
    config_post_handler-composed platform json narrow_device 2 home_rows request (7 ∷ 7 ∷ 7 ∷ [])
      document narrow-IsSubmittable home_rows-IsComposed refl (omega arith) (omega arith) tree
      (subst (Carries json document)
        (sym (
          submit_config-edited narrow 2 home_rows (blanks 9) (narrow-IsSubmittable.editable)
            home_rows-IsComposed
          ∙ ap posted_config composed-home))
        carried)
      composed_saves
