-- ===== src/WebServer/Lifecycle/Complete.antt =====
-- The web server is either down, or up with every handler.
use esp32_band_decoder.Base.{
  ◌≡◌, ◌≢◌, ◌⊎◌, inl, inr, refl, sym, ap, ◌∙◌, List, [], ◌∷◌, ◌++◌, none, some, arith, Bool-cases,
  Option-cases,
}
use esp32_band_decoder.Err.{Err, ok, is_ok}
use esp32_band_decoder.WebServer.Lifecycle.{
  Uri, Httpd, Web, all_uris, webserver_stop, register_all, webserver_init, webserver_start,
  webserver_restart,
}

abbrev pub IsComplete : {W : Type 0} → Web W → Type 0
IsComplete web = (web.server ≡ none) ⊎ (web.server ≡ some all_uris)

module _ {W : Type 0} (httpd : Httpd W) where
  append_nil : (a : List Uri) → a ++ [] ≡ a
  append_nil [] = refl
  append_nil (x ∷ a) = ground (arith, append_nil a)

  append_assoc : (a : List Uri) (u : Uri) (us : List Uri) → (a ++ u ∷ []) ++ us ≡ a ++ u ∷ us
  append_assoc [] u us = refl
  append_assoc (x ∷ a) u us = ground (arith, append_assoc a u us)

  register_all-server :
      (uris before : List Uri) (web : Web W)
      → web.server ≡ some before
      → (register_all httpd uris web).0 ≡ ok
      → (register_all httpd uris web).1.server ≡ some (before ++ uris)
  unfolding register_all
  register_all-server [] before web up h = up ∙ ap some (sym (append_nil before))
  register_all-server (uri ∷ uris) before web up h =
      let registered = httpd.httpd_register_uri_handler uri web.world in
      let next : Web W = record { world = registered.1; server = some (before ++ uri ∷ []) } in
      elim (Bool-cases (is_ok registered.0)) [
        | inl good ↦
            rw (good, up, register_all)
              (register_all-server uris (before ++ uri ∷ []) next refl (ground (arith, up))
                ∙ ap some (append_assoc before uri uris))
        | inr bad ↦ absurd (ground arith)
      ]

  webserver_init-server :
      (address : Err) (web : Web W)
      → web.server ≡ none
      → let started = webserver_init httpd address web in
        (started.0 ≡ ok → started.1.server ≡ some all_uris)
        × (started.0 ≢ ok → started.1.server ≡ none)
  unfolding webserver_init webserver_stop
  webserver_init-server address web down =
      let started = httpd.httpd_start web.world in
      let fresh : Web W = record { world = started.1; server = some [] } in
      let registered = register_all httpd all_uris fresh in
      elim (Option-cases (registered.1).server) [
        | inl missing ↦
            (λ h. ground (arith, register_all-server all_uris [] fresh refl), λ h. ground arith)
        | inr (uris, there) ↦
            (λ h. ground (arith, register_all-server all_uris [] fresh refl), λ h. ground arith)
      ]

  -- From a server that is down or has every handler, a start or a restart that succeeds leaves one
  -- with every handler; after a start or a restart that fails it is down.
  pub webserver_start-IsComplete :
      (address : Err) (web : Web W)
      → IsComplete web
      → let started = webserver_start httpd address web in
        let again = webserver_restart httpd address web in
        ((started.0 ≡ ok → started.1.server ≡ some all_uris)
          × (started.0 ≢ ok → started.1.server ≡ none))
        × (again.0 ≡ ok → again.1.server ≡ some all_uris)
        × (again.0 ≢ ok → again.1.server ≡ none)
  unfolding webserver_start webserver_restart webserver_stop
  webserver_start-IsComplete address web c = elim c [
    | inl down ↦ ground (arith, webserver_init-server address web down)
    | inr up ↦
        let down : Web W = record { world = httpd.httpd_stop web.world; server = none } in
        ground (arith, webserver_init-server address down refl)
  ]
