-- ===== src/WebServer/Lifecycle.antt =====
-- Starting and stopping the web server, and which handler serves which request: the end of
-- main/webserver.cpp. The HTTP server of ESP-IDF is the parameter `Httpd`.
pub mod Complete
use esp32_band_decoder.Base.{
  Bool, true, false, List, [], ◌∷◌, ◌++◌, Option, none, some, if◌then◌else◌,
}
use esp32_band_decoder.Err.{Err, ok, is_ok}
use esp32_band_decoder.SystemInitializer.{Platform, Device}
use esp32_band_decoder.Text.{Bytes, codes}
use esp32_band_decoder.WebServer.ConfigPost.{Json, Request, config_post_handler}
use esp32_band_decoder.WebServer.{
  Done, root_get_handler, config_get_handler, status_get_handler, toggle_auto_mode_handler,
  reset_config_handler, restart_handler, reset_wifi_handler,
}

-- The registered `httpd_uri_t` structures.
pub data Uri : Type 0 where
  root config_get config_post status toggle_auto_mode reset_config restart reset_wifi : Uri

pub record Httpd (W : Type 0) : Type 0 where
  pub httpd_start : W → Err × W
  pub httpd_register_uri_handler : Uri → W → Err × W
  pub httpd_stop : W → W

-- `server`, with what is registered on it; `none` is null.
pub record Web (W : Type 0) : Type 0 where
  pub world : W
  pub server : Option (List Uri)

-- The path, and whether the method is POST.
unfoldable pub uri_of : Uri → Bytes × Bool
uri_of root = (codes "/", false)
uri_of config_get = (codes "/config", false)
uri_of config_post = (codes "/config", true)
uri_of status = (codes "/status", false)
uri_of toggle_auto_mode = (codes "/toggle-auto-mode", true)
uri_of reset_config = (codes "/reset-config", true)
uri_of restart = (codes "/restart", true)
uri_of reset_wifi = (codes "/reset-wifi", true)

-- The handlers in the order in which `webserver_init` registers them.
abbrev pub all_uris : List Uri
all_uris =
    root ∷ config_get ∷ config_post ∷ status ∷ toggle_auto_mode ∷ reset_config ∷ restart
    ∷ reset_wifi ∷ []

module _ {W : Type 0} (httpd : Httpd W) where
  open httpd use {httpd_start, httpd_register_uri_handler, httpd_stop}

  unfoldable pub webserver_stop : Web W → Err × Web W
  webserver_stop web = elim web.server [
    | none ↦ (ok, web)
    | some uris ↦ (ok, record { world = httpd_stop web.world; server = none })
  ]

  -- The first handler that cannot be registered ends the registration.
  unfoldable pub register_all : List Uri → Web W → Err × Web W
  register_all [] web = (ok, web)
  register_all (uri ∷ uris) web =
      let registered = httpd_register_uri_handler uri web.world in
      let next : Web W = record {
        world = registered.1;
        server = elim web.server [ none ↦ none | some done ↦ some (done ++ uri ∷ []) ];
      } in
      let rest = register_all uris next in
      if is_ok registered.0 then rest else (registered.0, record web { world = registered.1 })

  -- The argument is what `get_ip_info` gives.
  unfoldable pub webserver_init : Err → Web W → Err × Web W
  webserver_init address web =
      let started = httpd_start web.world in
      let registered = register_all all_uris (record { world = started.1; server = some [] }) in
      if is_ok address
      then (if is_ok started.0
          then (if is_ok registered.0
              then registered
              else (registered.0, (webserver_stop registered.1).1))
          else (started.0, record web { world = started.1 }))
      else (address, web)

  unfoldable pub webserver_start : Err → Web W → Err × Web W
  webserver_start address web = elim web.server [
    | none ↦ webserver_init address web
    | some uris ↦ (ok, web)
  ]

  unfoldable pub webserver_restart : Err → Web W → Err × Web W
  webserver_restart address web = webserver_start address (webserver_stop web).1

module _ {W S C J : Type 0} (platform : Platform W S C) (json : Json J) where
  -- The handler of each registered structure.
  unfoldable pub serve : Uri → Request → Device W S C → Done (Device W S C)
  serve root req d = root_get_handler platform d
  serve config_get req d = config_get_handler platform d
  serve config_post req d = config_post_handler platform json req d
  serve status req d = status_get_handler platform d
  serve toggle_auto_mode req d = toggle_auto_mode_handler platform d
  serve reset_config req d = reset_config_handler platform d
  serve restart req d = restart_handler platform d
  serve reset_wifi req d = reset_wifi_handler platform d
