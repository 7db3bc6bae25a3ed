-- ===== src/Relay/Task/Rounds.antt =====
-- The loop of the TCP task: a request is retried until it succeeds, and then left alone.
use esp32_band_decoder.Base.{
  ℕ, ◌-◌, ◌≤◌, ◌≡◌, ◌≢◌, inl, inr, refl, sym, ap, ◌∙◌, true, false, ℤ, pos, ltb_ℤ, arith,
  Bool-cases, pos_part,
}
use esp32_band_decoder.Err.{ok, is_ok}
use esp32_band_decoder.Relay.Command.{
  process_response, exchange, send_command, turn_off_all_relays_except, set_all_command,
  set_all_suffix,
}
use esp32_band_decoder.Relay.Response.{parse_relay_state_response, apply_state}
use esp32_band_decoder.Relay.Task.Exclusive.{execute_relay_change_selected}
use esp32_band_decoder.Relay.Task.{
  Loop, connection_round, tcp_task_round, execute_relay_change, request_round, cool_down,
  finish_change,
}
use esp32_band_decoder.Relay.{
  Channel, Relay, RelayChangeRequest, eq_request, num_relays, bit, set_relay,
}
use esp32_band_decoder.Text.{Bytes}

module _ {C : Type 0} (channel : Channel C) where
  -- No command touches the request.
  parse-request :
      (s : Bytes) (r : Relay C)
      → (parse_relay_state_response s r).1.latest_request ≡ r.latest_request
  unfolding parse_relay_state_response apply_state
  parse-request s r = ground arith

  process_response-request :
      (command expected : Bytes) (r : Relay C)
      → (process_response channel command expected r).1.latest_request ≡ r.latest_request
  unfolding process_response
  process_response-request command expected r = ground (arith, parse-request r.response r)

  exchange-request :
      (command : Bytes) (timeout : ℕ) (r : Relay C)
      → (exchange channel command timeout r).1.latest_request ≡ r.latest_request
  unfolding exchange
  exchange-request command timeout r = ground arith

  send_command-request :
      (command expected : Bytes) (timeout : ℕ) (r : Relay C)
      → (send_command channel command expected timeout r).1.latest_request ≡ r.latest_request
  unfolding send_command
  send_command-request command expected timeout r =
      grind (arith, process_response-request, exchange-request)

  turn_off-request :
      (id : ℤ) (r : Relay C)
      → (turn_off_all_relays_except channel id r).1.latest_request ≡ r.latest_request
  unfolding turn_off_all_relays_except
  turn_off-request id r = ground (
    arith,
    send_command-request (set_all_command (pos_part id)) (set_all_suffix (pos_part id)) 500 r,
  )

  cool_down-request : (r : Relay C) → (cool_down channel r).latest_request ≡ r.latest_request
  unfolding cool_down
  cool_down-request r = ground arith

  pub execute-request :
      (id band : ℤ) (r : Relay C)
      → (execute_relay_change channel id band r).1.latest_request ≡ r.latest_request
  unfolding execute_relay_change finish_change
  execute-request id band r =
      ground (arith, turn_off-request id (cool_down channel r), cool_down-request r)

  request_round-request :
      (l : Loop) (r : Relay C) → (request_round channel (l, r)).1.latest_request ≡ r.latest_request
  unfolding request_round
  request_round-request l r =
      ground (arith, execute-request r.latest_request.relay_id r.latest_request.band_number r)

  eq_request_refl : (a : RelayChangeRequest) → eq_request a a ≡ true
  eq_request_refl a = ground arith

  settled :
      (l : Loop) (r : Relay C)
      → l.last_processed ≡ r.latest_request
      → request_round channel (l, r) ≡ (l, r)
  unfolding request_round
  settled l r e = rw (e, eq_request_refl)

  pub request_round_cases :
      (l : Loop) (r : Relay C)
      → eq_request r.latest_request l.last_processed ≡ false
      → ltb_ℤ (pos 0) r.latest_request.relay_id ≡ true
      → let executed =
          execute_relay_change channel r.latest_request.relay_id r.latest_request.band_number r in
        let s = request_round channel (l, r) in
        (executed.0 ≡ ok
          → ((s.0).last_processed ≡ r.latest_request)
            × (s.1 ≡ executed.1)
            × (request_round channel s ≡ s))
        × (executed.0 ≢ ok
            → (s.0 ≡ l) × (eq_request (s.1).latest_request (s.0).last_processed ≡ false))
  unfolding request_round
  request_round_cases l r pending real =
      let current = r.latest_request in
      let executed = execute_relay_change channel current.relay_id current.band_number r in
      let kept = execute-request current.relay_id current.band_number r in
      elim (Bool-cases (is_ok executed.0)) [
        | inl got ↦
            rw (pending, real, got, request_round)
              (
                (λ h. (
                  refl,
                  refl,
                  settled (record l { last_processed = current }) executed.1 (sym kept),
                )),
                λ h. absurd (h (ground arith)),
              )
        | inr lost ↦
            rw (pending, real, lost, request_round)
              ((λ h. ground arith), λ h. (refl, rw (kept, pending)))
      ]

  request_round_selected :
      (l : Loop) (r : Relay C)
      → r.latest_request.relay_id ≡ r.currently_selected_relay
      → let s = request_round channel (l, r) in
        ((s.1).relay_states ≡ r.relay_states)
        × ((s.1).tcp_client ≡ r.tcp_client)
        × ((s.1).currently_selected_relay ≡ r.currently_selected_relay)
  unfolding request_round
  request_round_selected l r same =
      let current = r.latest_request in
      ground
        (arith, execute_relay_change_selected channel current.relay_id current.band_number r same)

  abbrev off_request : ℕ → Relay C → Relay C
  off_request k r = record r { latest_request = record { relay_id = pos k; band_number = pos 0 } }

  set_relay_off :
      (k : ℕ) (r : Relay C)
      → 1 ≤ k
      → k ≤ num_relays
      → bit r.relay_state_bitfield (k - 1) ≡ true
      → set_relay (pos k) false r ≡ (ok, off_request k r)
  unfolding set_relay
  set_relay_off k r lo hi hot = rw (hot, set_relay) (ground arith)

  connection_round_cases :
      (l : Loop) (r : Relay C)
      → let c = connection_round channel (l, r) in
        ((c.1).latest_request ≡ r.latest_request)
        × ((c.1).currently_selected_relay ≡ r.currently_selected_relay)
        × ((c.1).relay_states ≡ r.relay_states)
  unfolding connection_round
  connection_round_cases l r = (ground arith, ground arith, ground arith)

  tcp_task_round_selected :
      (l : Loop) (r : Relay C)
      → r.latest_request.relay_id ≡ r.currently_selected_relay
      → let s = tcp_task_round channel (l, r) in
        ((s.1).relay_states ≡ r.relay_states)
        × ((s.1).currently_selected_relay ≡ r.currently_selected_relay)
        × ((s.1).tcp_client ≡ channel.delay 20 (connection_round channel (l, r)).1.tcp_client)
  unfolding tcp_task_round
  tcp_task_round_selected l r same =
      let c = connection_round channel (l, r) in
      let (wish, shown, states) = connection_round_cases l r in
      let (kept, quiet, still) =
        request_round_selected c.0 c.1
          (ap (λ (q : RelayChangeRequest). q.relay_id) wish ∙ same ∙ sym shown) in
      (kept ∙ states, still ∙ shown, ap (channel.delay 20) quiet)

  -- After `set_relay(id, false)` on the relay that is selected and on, which succeeds, a round of the
  -- TCP task leaves the relay map and the selected relay as they were. All that it does on the
  -- connection is the check that may be due and the pause of 20 milliseconds: no command is sent.
  pub set_relay_off_keeps_on :
      (l : Loop) (k : ℕ) (r : Relay C)
      → 1 ≤ k
      → k ≤ num_relays
      → r.currently_selected_relay ≡ pos k
      → bit r.relay_state_bitfield (k - 1) ≡ true
      → let asked = set_relay (pos k) false r in
        let s = tcp_task_round channel (l, asked.1) in
        (asked.0 ≡ ok)
        × ((s.1).relay_states ≡ r.relay_states)
        × ((s.1).currently_selected_relay ≡ pos k)
        × ((s.1).tcp_client ≡ channel.delay 20 (connection_round channel (l, asked.1)).1.tcp_client)
  set_relay_off_keeps_on l k r lo hi sel hot =
      let (same, still, quiet) = tcp_task_round_selected l (off_request k r) (sym sel) in
      rw (set_relay_off k r lo hi hot) (refl, same, still ∙ sel, quiet)
