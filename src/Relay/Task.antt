-- ===== src/Relay/Task.antt =====
-- `execute_relay_change` and one round of the loop of `tcp_task`. The watchdog is not modelled:
-- feeding it changes no state of the program.
pub mod Exclusive
pub mod Rounds
pub mod Shown
pub mod Reachable
pub mod Machine
pub mod Reports
pub mod Refines
pub mod Interleaved
use esp32_band_decoder.Base.{
  ℕ, ◌+◌, ◌-◌, ◌%◌, ◌^◌, Bool, true, false, not, ◌&&◌, Option, none, some, ltb, leb, if◌then◌else◌,
  ℤ, pos, ltb_ℤ, eq_ℤ,
}
use esp32_band_decoder.Err.{Err, ok, fail, is_ok, is_connection_issue}
use esp32_band_decoder.Relay.Command.{turn_off_all_relays_except}
use esp32_band_decoder.Relay.{
  Channel, Relay, RelayChangeRequest, eq_request, no_request, update_ℤ, ms_to_ticks,
}

abbrev pub cooldown_period_ms : ℕ
cooldown_period_ms = 50

-- The loop's own variables.
pub record Loop : Type 0 where
  pub last_processed : RelayChangeRequest
  pub last_connection_check : ℕ

module _ {C : Type 0} (channel : Channel C) where
  open channel use {ensure_connected, close, delay, now, ticks}

  abbrev pub should_delay : Relay C → Bool
  should_delay r = ltb (now r.tcp_client - r.last_band_change_time) cooldown_period_ms

  -- `Apply cooldown if needed`.
  unfoldable pub cool_down : Relay C → Relay C
  cool_down r =
      if not (eq_ℤ r.currently_selected_relay (pos 0)) && should_delay r
      then record r { tcp_client = delay cooldown_period_ms r.tcp_client }
      else r

  -- What follows the answer to the switch command.
  unfoldable pub finish_change : ℤ → ℤ → Err × Relay C → Err × Relay C
  finish_change relay_id band_number (e, r) =
      if is_ok e
      then (if eq_ℤ r.currently_selected_relay relay_id
          then (
            ok,
            record r {
              last_selected_relay_for_band =
                  update_ℤ r.last_selected_relay_for_band band_number (some relay_id);
              last_band_change_time = now r.tcp_client;
            },
          )
          else (fail, r))
      else (e, r)

  unfoldable pub execute_relay_change : ℤ → ℤ → Relay C → Err × Relay C
  execute_relay_change relay_id band_number r =
      let switched = turn_off_all_relays_except channel relay_id (cool_down r) in
      if eq_ℤ relay_id r.currently_selected_relay
      then (
        ok,
        record r {
          last_selected_relay_for_band =
              update_ℤ r.last_selected_relay_for_band band_number (some relay_id);
        },
      )
      else finish_change relay_id band_number switched

  -- Ask for the connection, and once more after a pause if it is not there.
  abbrev pub check_connection : C → C
  check_connection c =
      let asked = ensure_connected c in
      if is_ok asked.0 then asked.1 else (ensure_connected (delay 1000 (close asked.1))).1

  -- The reaction to a relay change that failed.
  abbrev pub recover : Err → C → C
  recover e c = if is_connection_issue e then (ensure_connected (delay 1000 (close c))).1 else c

  -- The check that is due every five seconds; the tick counter has 32 bits.
  unfoldable pub connection_round : Loop × Relay C → Loop × Relay C
  connection_round (l, r) =
      let current_tick = ticks r.tcp_client in
      if leb (ms_to_ticks 5000) ((current_tick + 2 ^ 32 - l.last_connection_check) % 2 ^ 32)
      then (
        record l { last_connection_check = current_tick },
        record r { tcp_client = check_connection r.tcp_client },
      )
      else (l, r)

  unfoldable pub request_round : Loop × Relay C → Loop × Relay C
  request_round (l, r) =
      let current = r.latest_request in
      let executed = execute_relay_change current.relay_id current.band_number r in
      let r' = executed.1 in
      if eq_request current l.last_processed
      then (l, r)
      else if ltb_ℤ (pos 0) current.relay_id
      then (if is_ok executed.0
          then (record l { last_processed = current }, r')
          else (l, record r' { tcp_client = recover executed.0 r'.tcp_client }))
      else (l, r)

  unfoldable pub tcp_task_round : Loop × Relay C → Loop × Relay C
  tcp_task_round s =
      let s' = request_round (connection_round s) in
      (s'.0, record s'.1 { tcp_client = delay 20 (s'.1).tcp_client })
