-- ===== src/Relay/Task/Shown.antt =====
-- What every operation keeps: the selected relay is one that the cached map shows as on.
use esp32_band_decoder.Base.{
  ℕ, zero, suc, ◌-◌, ◌≤◌, ◌≡◌, ◌⊎◌, inl, inr, refl, ap, ◌∙◌, true, false, some, ℤ, pos, negsuc,
  arith, if◌then◌else◌, Bool-cases, max,
}
use esp32_band_decoder.Err.{is_ok}
use esp32_band_decoder.Relay.Bits.{assign_up_to_hit}
use esp32_band_decoder.Relay.Command.Safety.{
  Exclusive, exchange-SameRelays, turn_off_all_relays_except_cases,
}
use esp32_band_decoder.Relay.Command.{
  process_response, exchange, send_command, update_all_relay_states, update_relay_states,
  turn_off_all_relays, turn_off_all_relays_except, set_all_cmd, state_cmd,
}
use esp32_band_decoder.Relay.Response.Sound.{
  IsConsistent, Selects, parse_relay_state_response-IsConsistent,
}
use esp32_band_decoder.Relay.Response.{parse_relay_state_response}
use esp32_band_decoder.Relay.Task.Exclusive.{is_ok→ok}
use esp32_band_decoder.Relay.Task.{
  Loop, cool_down, finish_change, execute_relay_change, connection_round, request_round,
  tcp_task_round,
}
use esp32_band_decoder.Relay.{
  Channel, Relay, RelayStates, num_relays, bad_relay, assign_up_to, value_or_false,
}
use esp32_band_decoder.Text.{Bytes, contains, codes}

-- No relay is selected, or the selected one is a relay of the board that the map shows as on.
abbrev pub Shown : RelayStates → ℤ → Type 0
Shown states id =
    (id ≡ pos 0) ⊎ ((k : ℕ) × (1 ≤ k) × (k ≤ num_relays) × (id ≡ pos k) × (states k ≡ some true))

abbrev pub IsShown : {C : Type 0} → Relay C → Type 0
IsShown r = Shown r.relay_states r.currently_selected_relay

pred-suc : (k : ℕ) → suc k - 1 ≡ k
pred-suc k = omega arith

module _ {C : Type 0} where
  pub IsShown-keep :
      (r t : Relay C)
      → t.relay_states ≡ r.relay_states
      → t.currently_selected_relay ≡ r.currently_selected_relay
      → IsShown r
      → IsShown t
  IsShown-keep r t e f h = rw (e, f) h

  IsConsistent-IsShown : (r : Relay C) → IsConsistent r → IsShown r
  IsConsistent-IsShown r c = shown c.selected.0 c.selected.1 c.selected.2
    where
      shown :
          (k : ℕ)
          → r.currently_selected_relay ≡ pos k
          → Selects r.relay_state_bitfield k
          → IsShown r
      shown zero e word = inl e
      shown (suc k) e (fits, low) = inr (
        suc k,
        omega arith,
        omega arith,
        e,
        c.states (suc k) (omega arith) (omega arith) ∙ rw (pred-suc k) (ap some low.0),
      )

  Exclusive-IsShown : (id : ℤ) (r : Relay C) → bad_relay id ≡ false → Exclusive id r → IsShown r
  Exclusive-IsShown (pos k) r good x =
      inr (k, ground arith, ground arith, x.selected, ground (arith, x.only k))
  Exclusive-IsShown (negsuc k) r good x = absurd (ground arith)

  parse-IsShown : (s : Bytes) (r : Relay C) → IsShown r → IsShown (parse_relay_state_response s r).1
  parse-IsShown s r h =
      let (read, refused) = parse_relay_state_response-IsConsistent s r in
      elim (Bool-cases (is_ok (parse_relay_state_response s r).0)) [
        | inl good ↦ IsConsistent-IsShown _ (read (is_ok→ok _ good))
        | inr bad ↦ rw (refused (λ e. ground arith)) h
      ]

module _ {C : Type 0} (channel : Channel C) where
  pub response_cases :
      (command expected : Bytes) (r : Relay C)
      → ((process_response channel command expected r).1 ≡ r)
        ⊎ ((process_response channel command expected r).1
            ≡ (parse_relay_state_response r.response r).1)
  unfolding process_response
  response_cases command expected r = ground arith

  pub send_command-IsShown :
      (command expected : Bytes) (ms : ℕ) (r : Relay C)
      → IsShown r
      → IsShown (send_command channel command expected ms r).1
  unfolding send_command
  send_command-IsShown command expected ms r h =
      let t = if contains set_all_cmd command then max ms 1000 else ms in
      let answer = exchange channel command t r in
      let same = exchange-SameRelays channel command t r in
      let shown : IsShown answer.1 = IsShown-keep r answer.1 same.states same.selected h in
      elim (Bool-cases (is_ok answer.0)) [
        | inr lost ↦ rw (lost, send_command) shown
        | inl got ↦
            rw (got, send_command)
              (elim (response_cases command expected answer.1) [
                | inl e ↦ rw e shown
                | inr e ↦ rw e (parse-IsShown answer.1.response answer.1 shown)
              ])
      ]

  turn_off_all_relays_except-IsShown :
      (id : ℤ) (r : Relay C) → IsShown r → IsShown (turn_off_all_relays_except channel id r).1
  turn_off_all_relays_except-IsShown id r h =
      let (won, lost) = turn_off_all_relays_except_cases channel id r in
      elim (Bool-cases (is_ok (turn_off_all_relays_except channel id r).0)) [
        | inl good ↦ let (fits, x) = won (is_ok→ok _ good) in Exclusive-IsShown id _ fits x
        | inr bad ↦
            let same = lost (λ e. ground arith) in
            IsShown-keep r (turn_off_all_relays_except channel id r).1 same.states same.selected h
      ]

  execute_cases :
      (id band : ℤ) (r : Relay C)
      → let done = (execute_relay_change channel id band r).1 in
        let switched = (turn_off_all_relays_except channel id (cool_down channel r)).1 in
        ((done.relay_states ≡ r.relay_states)
          × (done.currently_selected_relay ≡ r.currently_selected_relay))
        ⊎ ((done.relay_states ≡ switched.relay_states)
            × (done.currently_selected_relay ≡ switched.currently_selected_relay))
  unfolding execute_relay_change finish_change
  execute_cases id band r = ground arith

  cool_down-IsShown : (r : Relay C) → IsShown r → IsShown (cool_down channel r)
  unfolding cool_down
  cool_down-IsShown r h = IsShown-keep r (cool_down channel r) (ground arith) (ground arith) h

  execute_relay_change-IsShown :
      (id band : ℤ) (r : Relay C) → IsShown r → IsShown (execute_relay_change channel id band r).1
  execute_relay_change-IsShown id band r h = elim (execute_cases id band r) [
    | inl (e, f) ↦ IsShown-keep r (execute_relay_change channel id band r).1 e f h
    | inr (e, f) ↦
        IsShown-keep (turn_off_all_relays_except channel id (cool_down channel r)).1
          (execute_relay_change channel id band r).1 e f
          (turn_off_all_relays_except-IsShown id (cool_down channel r) (cool_down-IsShown r h))
  ]

  round_cases :
      (s : Loop × Relay C)
      → let r = s.1 in
        let t = (tcp_task_round channel s).1 in
        let c = (connection_round channel s).1 in
        let x =
          (execute_relay_change channel c.latest_request.relay_id c.latest_request.band_number
            c).1 in
        ((t.relay_states ≡ c.relay_states)
          × (t.currently_selected_relay ≡ c.currently_selected_relay))
        ⊎ ((t.relay_states ≡ x.relay_states)
            × (t.currently_selected_relay ≡ x.currently_selected_relay))
  unfolding tcp_task_round request_round
  round_cases s = ground arith

  connection_round-IsShown :
      (s : Loop × Relay C) → IsShown s.1 → IsShown (connection_round channel s).1
  unfolding connection_round
  connection_round-IsShown (l, r) h =
      IsShown-keep r (connection_round channel (l, r)).1 (ground arith) (ground arith) h

  pub tcp_task_round-IsShown :
      (s : Loop × Relay C) → IsShown s.1 → IsShown (tcp_task_round channel s).1
  tcp_task_round-IsShown s h =
      let c = (connection_round channel s).1 in
      let shown = connection_round-IsShown s h in
      elim (round_cases s) [
        | inl (e, f) ↦ IsShown-keep c (tcp_task_round channel s).1 e f shown
        | inr (e, f) ↦
            IsShown-keep
              (execute_relay_change channel c.latest_request.relay_id c.latest_request.band_number
                c).1
              (tcp_task_round channel s).1 e f
              (execute_relay_change-IsShown c.latest_request.relay_id c.latest_request.band_number c
                shown)
      ]

  logged-Shown :
      (states : RelayStates) (id : ℤ)
      → Shown states id
      → Shown (assign_up_to num_relays (λ i. value_or_false (states i)) states) id
  logged-Shown states id (inl e) = inl e
  logged-Shown states id (inr (k, lo, hi, e, on)) = inr (
    k,
    lo,
    hi,
    e,
    rw (assign_up_to_hit num_relays (λ i. value_or_false (states i)) states k lo hi)
        (ap (λ b. some (value_or_false b)) on),
  )

  pub update_relay_states-IsShown :
      (r : Relay C) → IsShown r → IsShown (update_relay_states channel r).1
  unfolding update_relay_states update_all_relay_states
  update_relay_states-IsShown r h =
      let answer = send_command channel state_cmd (codes "OK") 500 r in
      let shown = send_command-IsShown state_cmd (codes "OK") 500 r h in
      elim (Bool-cases (is_ok answer.0)) [
        | inl good ↦ rw (good, update_all_relay_states) (logged-Shown _ _ shown)
        | inr bad ↦ rw (bad, update_all_relay_states) shown
      ]

  pub turn_off_all_relays-IsShown :
      (r : Relay C) → IsShown r → IsShown (turn_off_all_relays channel r).1
  unfolding turn_off_all_relays
  turn_off_all_relays-IsShown r h =
      let answer = send_command channel (codes "RELAY-AOF-255,1,1") (codes "255,1,1,OK") 500 r in
      let shown = send_command-IsShown (codes "RELAY-AOF-255,1,1") (codes "255,1,1,OK") 500 r h in
      elim (Bool-cases (is_ok answer.0)) [
        | inl good ↦ rw (good, turn_off_all_relays) (inl refl)
        | inr bad ↦ rw (bad, turn_off_all_relays) shown
      ]
