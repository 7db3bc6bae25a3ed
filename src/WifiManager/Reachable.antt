-- ===== src/WifiManager/Reachable.antt =====
-- What holds in every state of the station that the tasks of main/wifi_manager.cpp can bring about:
-- the event handler, the SmartConfig task, and the calls of other tasks, in any order.
use esp32_band_decoder.Base.{
  ◌≡◌, ◌≢◌, Bool, true, false, Option, none, some, arith, Option-cases, inl, inr,
}
use esp32_band_decoder.Err.{ok}
use esp32_band_decoder.Storage.{Storage}
use esp32_band_decoder.Text.{Bytes}
use esp32_band_decoder.WifiManager.{
  Radio, EventBits, WifiManager, Event, is_connected_bit, is_connected, start_smartconfig,
  wait_for_connection, connect_sta, disconnect, event_handler, smartconfig_begin, smartconfig_poll,
  try_connect_with_saved_credentials,
}
use esp32_band_decoder.WifiManager.Setup.{Driver, create_event_group}

abbrev is_failed_bit : Option EventBits → Bool
is_failed_bit none = false
is_failed_bit (some b) = b.failed

module _ {W : Type 0} where
  -- An address belongs to a station that is connected, and the bits say what the flags say.
  abbrev pub IsConsistent : WifiManager W → Type 0
  IsConsistent m =
      (m.ip_obtained ≡ true → m.wifi_connected ≡ true)
      × (is_connected_bit m.wifi_event_group ≡ true → m.ip_obtained ≡ true)
      × (is_connected_bit m.wifi_event_group ≡ true → is_failed_bit m.wifi_event_group ≡ false)

  -- The constructed manager.
  abbrev pub constructed : W → WifiManager W
  constructed w = record {
    world = w;
    wifi_event_group = none;
    sta_netif = false;
    wifi_connected = false;
    ip_obtained = false;
    using_saved_credentials = false;
    smartconfig_tasks = 0;
  }

module _ {W : Type 0} (storage : Storage W) (radio : Radio W) (driver : Driver W) where
  -- One handler, one call or one round of a task; the world may also change by itself.
  pub data Step (m m' : WifiManager W) : Type 0 where
    elapse : (w : W) → m' ≡ record m { world = w } → Step m m'
    create : m' ≡ (create_event_group storage radio driver m).1 → Step m m'
    handle : (e : Event) → event_handler storage radio e m ≡ some m' → Step m m'
    begin : m' ≡ (smartconfig_begin storage radio m).1 → Step m m'
    poll : m' ≡ (smartconfig_poll storage radio m).1 → Step m m'
    ask : m' ≡ (start_smartconfig m).1 → Step m m'
    connect :
        (ssid password : Bytes) → m' ≡ (connect_sta storage radio ssid password m).1 → Step m m'
    leave : m' ≡ (disconnect storage radio m).1 → Step m m'
    recall : m' ≡ (try_connect_with_saved_credentials storage radio m).1 → Step m m'

  pub data Reach (m : WifiManager W) : WifiManager W → Type 0 where
    here : Reach m m
    next : {n o : WifiManager W} → Reach m n → Step n o → Reach m o

  -- When the SmartConfig task sees that the station is connected or has been told how, it clears the
  -- bit: the station is as it was, but `wait_for_connection` no longer reports success.
  pub wait_for_connection-smartconfig_poll :
      (m : WifiManager W)
      → (smartconfig_poll storage radio m).0 ≡ false
      → let m' = (smartconfig_poll storage radio m).1 in
        (is_connected m' ≡ is_connected m)
        × (m'.ip_obtained ≡ m.ip_obtained)
        × (wait_for_connection m' ≢ ok)
  unfolding wait_for_connection is_connected smartconfig_poll
  wait_for_connection-smartconfig_poll m h = elim (Option-cases m.wifi_event_group) [
    | inl o ↦ ground arith
    | inr (b, o) ↦ ground arith
  ]
