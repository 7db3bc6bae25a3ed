-- ===== src/Relay/Command/Safety.antt =====
-- What the commands do to the cached state, on success and on failure.
use esp32_band_decoder.Base.{
  ℕ, max, ◌≤◌, ◌≡◌, ◌≢◌, refl, false, some, ◌==◌, ℤ, pos_part, arith, Bool-cases, inl, inr,
  if◌then◌else◌,
}
use esp32_band_decoder.Err.{ok, is_ok}
use esp32_band_decoder.Relay.Bits.{assign_up_to_hit}
use esp32_band_decoder.Relay.Command.{
  process_response, exchange, send_command, set_all_cmd, turn_off_all_relays_except,
  set_all_command, set_all_suffix,
}
use esp32_band_decoder.Relay.Response.{parse_relay_state_response}
use esp32_band_decoder.Relay.{Channel, Relay, num_relays, bad_relay}
use esp32_band_decoder.Text.{Bytes, contains}

-- Two controllers that agree on everything but the connection, the last command and the buffer.
pub record SameRelays {C : Type 0} (r r' : Relay C) : Type 0 where
  pub states : r'.relay_states ≡ r.relay_states
  pub selected : r'.currently_selected_relay ≡ r.currently_selected_relay
  pub word : r'.relay_state_bitfield ≡ r.relay_state_bitfield
  pub last_relays : r'.last_selected_relay_for_band ≡ r.last_selected_relay_for_band
  pub change_time : r'.last_band_change_time ≡ r.last_band_change_time
  pub request : r'.latest_request ≡ r.latest_request

-- Exactly the relay `id` is on, and it is the selected one.
pub record Exclusive {C : Type 0} (id : ℤ) (r : Relay C) : Type 0 where
  pub selected : r.currently_selected_relay ≡ id
  pub only : (i : ℕ) → 1 ≤ i → i ≤ num_relays → r.relay_states i ≡ some (i == pos_part id)

module _ {C : Type 0} (channel : Channel C) where
  parse_failed :
      (s : Bytes) (r : Relay C)
      → (parse_relay_state_response s r).0 ≢ ok
      → (parse_relay_state_response s r).1 ≡ r
  unfolding parse_relay_state_response
  parse_failed s r h = ground arith

  process_response_failed :
      (command expected : Bytes) (r : Relay C)
      → (process_response channel command expected r).0 ≢ ok
      → (process_response channel command expected r).1 ≡ r
  unfolding process_response
  process_response_failed command expected r h = ground (arith, parse_failed r.response r)

  pub exchange-SameRelays :
      (command : Bytes) (timeout : ℕ) (r : Relay C)
      → SameRelays r (exchange channel command timeout r).1
  unfolding exchange
  exchange-SameRelays command timeout r = ground arith

  SameRelays-eq : (r s t : Relay C) → s ≡ t → SameRelays r t → SameRelays r s
  SameRelays-eq r s t e h = rw e h

  -- A command that fails changes nothing that the controller believes about the relays.
  pub send_command_failed :
      (command expected : Bytes) (timeout : ℕ) (r : Relay C)
      → (send_command channel command expected timeout r).0 ≢ ok
      → SameRelays r (send_command channel command expected timeout r).1
  unfolding send_command
  send_command_failed command expected timeout r h =
      let t = if contains set_all_cmd command then max timeout 1000 else timeout in
      let answer = exchange channel command t r in
      let same = exchange-SameRelays command t r in
      elim (Bool-cases (is_ok answer.0)) [
        | inl got ↦
            rw (got, send_command)
              (SameRelays-eq r _ answer.1
                (process_response_failed command expected answer.1 (rw (got, send_command) at h))
                same)
        | inr lost ↦ rw (lost, send_command) same
      ]

  -- A switch that reports success names a relay of the board and leaves exactly that one on in the
  -- cached state; any other outcome leaves the cached relays as they were.
  pub turn_off_all_relays_except_cases :
      (id : ℤ) (r : Relay C)
      → ((turn_off_all_relays_except channel id r).0 ≡ ok
          → (bad_relay id ≡ false) × Exclusive id (turn_off_all_relays_except channel id r).1)
        × ((turn_off_all_relays_except channel id r).0 ≢ ok
            → SameRelays r (turn_off_all_relays_except channel id r).1)
  unfolding turn_off_all_relays_except
  turn_off_all_relays_except_cases id r =
      let send =
        send_command channel (set_all_command (pos_part id)) (set_all_suffix (pos_part id)) 500 r in
      elim (Bool-cases (bad_relay id)) [
        | inl bad ↦ rw (bad, turn_off_all_relays_except) ((λ h. cc), λ h. ground arith)
        | inr good ↦ elim (Bool-cases (is_ok send.0)) [
          | inl sent ↦
              rw (good, sent, turn_off_all_relays_except)
                (
                  (λ h. (
                    refl,
                    record {
                      selected = refl;
                      only =
                          assign_up_to_hit num_relays (λ j. j == pos_part id) send.1.relay_states;
                    },
                  )),
                  λ h. absurd (h refl),
                )
          | inr lost ↦
              rw (good, lost, turn_off_all_relays_except)
                ((λ h. ground arith), send_command_failed _ _ 500 r)
        ]
      ]
