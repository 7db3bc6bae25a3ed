-- ===== src/Tests/Network.antt =====
-- A flash that keeps texts and a counter, a radio and drivers on which every call succeeds, and the
-- Wi-Fi manager on them.
use esp32_band_decoder.Base.{
  ℕ, ◌≡◌, ◌≢◌, ◌<◌, refl, true, false, [], ◌∷◌, Option, none, some, ◌==◌, length, if◌then◌else◌,
  arith,
}
use esp32_band_decoder.Err.{Err, ok, nvs_not_found}
use esp32_band_decoder.Storage.{
  Storage, Key, wifi_ssid, wifi_password, restart_cnt, last_error, KeepsText, KeepsCount,
  stored_size, stored_u8,
}
use esp32_band_decoder.Text.CStrings.{NoNul}
use esp32_band_decoder.Text.{Bytes, codes, c_str}
use esp32_band_decoder.WifiManager
use esp32_band_decoder.WifiManager.Credentials.{load_credentials-save_credentials}
use esp32_band_decoder.WifiManager.Reachable.{constructed}
use esp32_band_decoder.WifiManager.Setup
use esp32_band_decoder.WifiManager.Setup.{Driver}
use esp32_band_decoder.WifiManager.{
  Radio, WifiManager, load_credentials, save_credentials, sta_ssid, sta_password,
}

pub record Flash : Type 0 where
  pub texts : Key → Option Bytes
  pub restarts : Option ℕ

abbrev key_code : Key → ℕ
key_code wifi_ssid = 0
key_code wifi_password = 1
key_code restart_cnt = 2
key_code last_error = 3

abbrev put : Key → Option Bytes → Flash → Flash
put k v w = record w { texts = λ j. if key_code k == key_code j then v else w.texts j }

abbrev or_not_found : Bytes → Option Bytes → Err × Bytes
or_not_found old none = (nvs_not_found, old)
or_not_found old (some v) = (ok, v)

abbrev pub flash : Storage Flash
flash = record {
  nvs_open = λ m w. (ok, w);
  nvs_set_str = λ k v w. (ok, put k (some (c_str v)) w);
  nvs_str_size = λ k w. stored_size (w.texts k);
  nvs_get_str = λ k old n w. or_not_found old (w.texts k);
  nvs_erase_key = λ k w. (ok, put k none w);
  nvs_get_u8 = λ k old w. stored_u8 old w.restarts;
  nvs_set_u8 = λ k n w. (ok, record w { restarts = some n });
  nvs_set_i32 = λ k e w. (ok, w);
  nvs_commit = λ w. (ok, w);
}

same_code : (k : Key) → (key_code k == key_code k) ≡ true
same_code k = ground arith

other_code : (k j : Key) → k ≢ j → (key_code k == key_code j) ≡ false
other_code k j h = ground arith

flash-KeepsText : KeepsText flash
flash-KeepsText = record {
  text = λ k w. w.texts k;
  opened = λ k m w. refl;
  committed = λ k w. refl;
  set = λ k v w h. rw (same_code k) refl;
  set_other = λ k j v w h. rw (other_code k j h) refl;
  erased = λ k w h. rw (same_code k) refl;
  erased_other = λ k j w h. rw (other_code k j h) refl;
  size = λ k w. refl;
  get = λ k old v n w h fits. ground arith;
}

abbrev pub flash-KeepsCount : KeepsCount flash
flash-KeepsCount = record {
  count = λ w. w.restarts;
  opens = λ m w. refl;
  opened = λ m w. refl;
  committed = λ w. refl;
  get = λ old w. refl;
  sets = λ n w. refl;
  set = λ n w. refl;
  set_error = λ k e w h. refl;
}

abbrev pub radio : Radio Flash
radio = record {
  wifi_connect = λ w. (ok, w);
  wifi_disconnect = λ w. (ok, w);
  wifi_set_config = λ s p w. (ok, w);
  smartconfig_stop = λ w. w;
  smartconfig_set_type = λ w. (ok, w);
  smartconfig_start = λ w. (ok, w);
  webserver_start = λ w. (ok, w);
  delay = λ ms w. w;
}

abbrev pub driver : Driver Flash
driver = record {
  event_group_create = λ w. (true, w);
  netif_init = λ w. (ok, w);
  event_loop_create_default = λ w. (ok, w);
  netif_create_default_wifi_sta = λ w. (true, w);
  wifi_init = λ w. (ok, w);
  wifi_set_storage = λ w. (ok, w);
  wifi_set_mode = λ w. (ok, w);
  handler_register = λ r w. (ok, w);
  wifi_start = λ w. (ok, w);
  netif_get_ip_info = λ w. (ok, (10, 0, 0, 7));
  wifi_get_mac = λ w. (ok, 2 ∷ 0 ∷ 94 ∷ 16 ∷ 0 ∷ 255 ∷ []);
}

abbrev pub blank : Flash
blank = record { texts = λ k. none; restarts = none }

saved_ok : (save_credentials flash (codes "shack") (codes "73de") blank).0 ≡ ok
unfolding save_credentials
saved_ok = refl

name_fits : length (c_str (codes "shack")) < 33
unfolding c_str
name_fits = omega arith

password_fits : length (c_str (codes "73de")) < 65
unfolding c_str
password_fits = omega arith

load_credentials-save_credentials_example :
    (load_credentials flash 33 65 (save_credentials flash (codes "shack") (codes "73de") blank).1).0
    ≡ (ok, c_str (codes "shack"), c_str (codes "73de"))
load_credentials-save_credentials_example =
    (load_credentials-save_credentials flash flash-KeepsText (codes "shack") (codes "73de") blank 33
        65 saved_ok refl).0
      name_fits password_fits

-- A name of 32 bytes.
abbrev full_name : Bytes
full_name = codes "amateur-radio-club-station-10ghz"

full_NoNul : NoNul full_name
full_NoNul = ground arith

full_saved :
    (save_credentials flash
      (sta_ssid full_name (codes "73de"))
      (sta_password (codes "73de"))
      blank).0
    ≡ ok
unfolding save_credentials
full_saved = refl

some_password : sta_password (codes "73de") ≢ []
unfolding c_str
some_password h = cc

-- The manager after its event group was created, and after it was given an address.
abbrev created : WifiManager Flash
created = record (constructed blank) {
  wifi_event_group = some (record { connected = false; failed = false; done = false });
}

abbrev joined : WifiManager Flash
joined = record created {
  wifi_event_group = some (record { connected = true; failed = false; done = false });
  wifi_connected = true;
  ip_obtained = true;
  using_saved_credentials = true;
}
