-- ===== src/Relay/Task/Interleaved.antt =====
-- A request that arrives while the TCP task is at work on another one. The request is an atomic
-- variable of its own, which the task loads at the start of its round.
use esp32_band_decoder.Base.{
  ◌≡◌, inl, inr, refl, ℤ, pos, ltb_ℤ, arith, Option-cases, if◌then◌else◌, max, ℕ, pos_part,
}
use esp32_band_decoder.Err.{Err, is_ok}
use esp32_band_decoder.Relay.Command.{
  process_response, exchange, send_command, turn_off_all_relays_except, set_all_cmd,
  set_all_command, set_all_suffix,
}
use esp32_band_decoder.Relay.Response.{parse_relay_state_response, parse_state, apply_state}
use esp32_band_decoder.Relay.Task.{
  Loop, cool_down, finish_change, execute_relay_change, request_round, recover,
}
use esp32_band_decoder.Relay.{Channel, Relay, RelayChangeRequest, eq_request}
use esp32_band_decoder.Text.{Bytes, contains}

module _ {C : Type 0} where
  abbrev pub ask : RelayChangeRequest → Relay C → Relay C
  ask wish r = record r { latest_request = wish }

  abbrev pub ask_too : RelayChangeRequest → Err × Relay C → Err × Relay C
  ask_too wish (e, r) = (e, ask wish r)

module _ {C : Type 0} (channel : Channel C) (wish : RelayChangeRequest) where
  -- The round of `request_round`, in which a client stores `wish` behind the load.
  unfoldable pub request_round_during : Loop × Relay C → Loop × Relay C
  request_round_during (l, r) =
      let current = r.latest_request in
      let executed =
        execute_relay_change channel current.relay_id current.band_number (ask wish r) in
      let r' = executed.1 in
      if eq_request current l.last_processed
      then (l, ask wish r)
      else if ltb_ℤ (pos 0) current.relay_id
      then (if is_ok executed.0
          then (record l { last_processed = current }, r')
          else (l, record r' { tcp_client = recover channel executed.0 r'.tcp_client }))
      else (l, ask wish r)

  parse-ask :
      (s : Bytes) (r : Relay C)
      → parse_relay_state_response s (ask wish r) ≡ ask_too wish (parse_relay_state_response s r)
  unfolding parse_relay_state_response apply_state
  parse-ask s r = elim (Option-cases (parse_state s)) [
    | inl none ↦ rw (none, parse_relay_state_response) refl
    | inr ((d1, d0), read) ↦ rw (read, parse_relay_state_response) refl
  ]

  process_response-ask :
      (command expected : Bytes) (r : Relay C)
      → process_response channel command expected (ask wish r)
        ≡ ask_too wish (process_response channel command expected r)
  unfolding process_response
  process_response-ask command expected r = ground (arith, parse-ask r.response r)

  exchange-ask :
      (command : Bytes) (timeout : ℕ) (r : Relay C)
      → exchange channel command timeout (ask wish r)
        ≡ ask_too wish (exchange channel command timeout r)
  unfolding exchange
  exchange-ask command timeout r = ground arith

  send_command-ask :
      (command expected : Bytes) (ms : ℕ) (r : Relay C)
      → send_command channel command expected ms (ask wish r)
        ≡ ask_too wish (send_command channel command expected ms r)
  unfolding send_command
  send_command-ask command expected ms r =
      let t = if contains set_all_cmd command then max ms 1000 else ms in
      let answer = exchange channel command t r in
      let later = process_response-ask command expected answer.1 in
      rw (exchange-ask command t r) (ground (arith, later))

  turn_off-ask :
      (id : ℤ) (r : Relay C)
      → turn_off_all_relays_except channel id (ask wish r)
        ≡ ask_too wish (turn_off_all_relays_except channel id r)
  unfolding turn_off_all_relays_except
  turn_off-ask id r =
      let sent =
        send_command-ask (set_all_command (pos_part id)) (set_all_suffix (pos_part id)) 500 r in
      rw sent (ground arith)

  cool_down-ask : (r : Relay C) → cool_down channel (ask wish r) ≡ ask wish (cool_down channel r)
  unfolding cool_down
  cool_down-ask r = ground arith

  finish_change-ask :
      (id band : ℤ) (a : Err × Relay C)
      → finish_change channel id band (ask_too wish a)
        ≡ ask_too wish (finish_change channel id band a)
  unfolding finish_change
  finish_change-ask id band (e, r) = ground arith

  execute-ask :
      (id band : ℤ) (r : Relay C)
      → execute_relay_change channel id band (ask wish r)
        ≡ ask_too wish (execute_relay_change channel id band r)
  unfolding execute_relay_change
  execute-ask id band r =
      let r1 = cool_down channel r in
      rw
        (
          cool_down-ask r,
          turn_off-ask id r1,
          finish_change-ask id band (turn_off_all_relays_except channel id r1),
        )
        (ground arith)

  -- A request that arrives right behind the load of a round of the TCP task has the effect of one that
  -- arrives just behind the round: the round works on the request that it loaded, and the new
  -- request is not lost.
  pub request_round_during-ask :
      (l : Loop) (r : Relay C)
      → let s = request_round channel (l, r) in request_round_during (l, r) ≡ (s.0, ask wish s.1)
  unfolding request_round_during request_round
  request_round_during-ask l r =
      let current = r.latest_request in
      rw (execute-ask current.relay_id current.band_number r) (ground arith)
