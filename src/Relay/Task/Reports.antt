-- ===== src/Relay/Task/Reports.antt =====
-- What the commands leave of the view of the machine: they change at most which relay is shown.
use esp32_band_decoder.Base.{
  ℕ, zero, suc, ◌+◌, ◌*◌, ◌≤◌, ◌≡◌, ◌⊎◌, inl, inr, refl, ap, ◌∙◌, ℤ, pos, arith, Bool-cases, max,
  List, length, ◌==◌, if◌then◌else◌, pos_part,
}
use esp32_band_decoder.Err.{Err, is_ok}
use esp32_band_decoder.Relay.Command.{
  process_response, exchange, send_command, update_all_relay_states, turn_off_all_relays,
  turn_off_all_relays_except, retry_states, init, set_all_cmd, state_cmd, set_all_command,
  set_all_suffix,
}
use esp32_band_decoder.Relay.Response.Sound.{Selects, parse_relay_state_response-IsConsistent}
use esp32_band_decoder.Relay.Response.{parse_relay_state_response, apply_state}
use esp32_band_decoder.Relay.Task.Exclusive.{is_ok→ok}
use esp32_band_decoder.Relay.Task.{Loop}
use esp32_band_decoder.Relay.{Channel, Relay, num_relays}
use esp32_band_decoder.Relay.Command.Safety.{exchange-SameRelays}
use esp32_band_decoder.Relay.Task.Shown.{response_cases}
use esp32_band_decoder.Relay.Task.Machine.{Moves, none_made, moved, reported, view, Moves-eq}
use esp32_band_decoder.Text.{Bytes, codes, contains}

-- A command leaves the wish and the memory alone, and shows what it showed or what the board has.
pub record Reports {C : Type 0} (r t : Relay C) : Type 0 where
  pub wish : t.latest_request ≡ r.latest_request
  pub memory : t.last_selected_relay_for_band ≡ r.last_selected_relay_for_band
  pub showing :
      (t.currently_selected_relay ≡ r.currently_selected_relay)
      ⊎ ((k : ℕ) × (k ≤ num_relays) × (t.currently_selected_relay ≡ pos k))

Selects-fits : (word k : ℕ) → Selects word k → k ≤ num_relays
Selects-fits word zero h = omega arith
Selects-fits word (suc k) h = omega (arith, h.0)

module _ {C : Type 0} where
  pub Reports-Moves :
      (l : List Loop) (r t : Relay C) → Reports r t → Moves (view (l, r)) (view (l, t))
  Reports-Moves l r t h = elim h.showing [
    | inl same ↦ Moves-eq (ground (arith, h.wish, h.memory)) (none_made (view (l, r)))
    | inr (k, fits, e) ↦
        Moves-eq (ground (arith, h.wish, h.memory))
          (moved (none_made (view (l, r))) (reported (view (l, r)) k fits))
  ]

  pub Reports-trans : (r s t : Relay C) → Reports r s → Reports s t → Reports r t
  Reports-trans r s t h k = record {
    wish = k.wish ∙ h.wish;
    memory = k.memory ∙ h.memory;
    showing = elim k.showing [
      | inl same ↦ elim h.showing [
        | inl e ↦ inl (same ∙ e)
        | inr (n, fits, e) ↦ inr (n, fits, same ∙ e)
      ]
      | inr found ↦ inr found
    ];
  }

  pub Reports-refl : (r : Relay C) → Reports r r
  Reports-refl r = record { wish = refl; memory = refl; showing = inl refl }

  Reports-eq : (r s t : Relay C) → t ≡ s → Reports r s → Reports r t
  Reports-eq r s t e h = rw e h

  parse-Reports : (s : Bytes) (r : Relay C) → Reports r (parse_relay_state_response s r).1
  unfolding parse_relay_state_response apply_state
  parse-Reports s r =
      let t = (parse_relay_state_response s r).1 in
      let (read, refused) = parse_relay_state_response-IsConsistent s r in
      record {
        wish = ground arith;
        memory = ground arith;
        showing = elim (Bool-cases (is_ok (parse_relay_state_response s r).0)) [
          | inl good ↦
              let c = read (is_ok→ok _ good) in
              inr (
                c.selected.0,
                Selects-fits t.relay_state_bitfield c.selected.0 c.selected.2,
                c.selected.1,
              )
          | inr bad ↦ inl (
              ap (λ (q : Err × Relay C). (q.1).currently_selected_relay)
                (refused (λ e. ground arith)))
        ];
      }

module _ {C : Type 0} (channel : Channel C) where
  process_response-Reports :
      (command expected : Bytes) (r : Relay C)
      → Reports r (process_response channel command expected r).1
  process_response-Reports command expected r = elim (response_cases channel command expected r) [
    | inl e ↦ Reports-eq r r (process_response channel command expected r).1 e (Reports-refl r)
    | inr e ↦
        Reports-eq r (parse_relay_state_response r.response r).1
          (process_response channel command expected r).1 e (parse-Reports r.response r)
  ]

  exchange-Reports :
      (command : Bytes) (timeout : ℕ) (r : Relay C)
      → Reports r (exchange channel command timeout r).1
  exchange-Reports command timeout r =
      let same = exchange-SameRelays channel command timeout r in
      record { wish = same.request; memory = same.last_relays; showing = inl same.selected }

  send_command-Reports :
      (command expected : Bytes) (ms : ℕ) (r : Relay C)
      → Reports r (send_command channel command expected ms r).1
  unfolding send_command
  send_command-Reports command expected ms r =
      let t = if contains set_all_cmd command then max ms 1000 else ms in
      let answer = exchange channel command t r in
      let first = exchange-Reports command t r in
      elim (Bool-cases (is_ok answer.0)) [
        | inl got ↦
            rw (got, send_command)
              (Reports-trans r answer.1 (process_response channel command expected answer.1).1 first
                (process_response-Reports command expected answer.1))
        | inr lost ↦ rw (lost, send_command) first
      ]

  pub turn_off-memory :
      (id : ℤ) (r : Relay C)
      → (turn_off_all_relays_except channel id r).1.last_selected_relay_for_band
        ≡ r.last_selected_relay_for_band
  unfolding turn_off_all_relays_except
  turn_off-memory id r =
      let sent =
        send_command-Reports (set_all_command (pos_part id)) (set_all_suffix (pos_part id)) 500 r in
      ground (arith, sent.memory)

  pub update_all-Reports : (r : Relay C) → Reports r (update_all_relay_states channel r).1
  unfolding update_all_relay_states
  update_all-Reports r =
      let answer = send_command channel state_cmd (codes "OK") 500 r in
      let h = send_command-Reports state_cmd (codes "OK") 500 r in
      elim (Bool-cases (is_ok answer.0)) [
        | inl got ↦
            rw (got, update_all_relay_states)
              (record { wish = h.wish; memory = h.memory; showing = h.showing })
        | inr lost ↦ rw (lost, update_all_relay_states) h
      ]

  pub turn_off_all-Reports : (r : Relay C) → Reports r (turn_off_all_relays channel r).1
  unfolding turn_off_all_relays
  turn_off_all-Reports r =
      let answer = send_command channel (codes "RELAY-AOF-255,1,1") (codes "255,1,1,OK") 500 r in
      let h = send_command-Reports (codes "RELAY-AOF-255,1,1") (codes "255,1,1,OK") 500 r in
      elim (Bool-cases (is_ok answer.0)) [
        | inl got ↦
            rw (got, turn_off_all_relays)
              (record { wish = h.wish; memory = h.memory; showing = inr (0, omega arith, refl) })
        | inr lost ↦ rw (lost, turn_off_all_relays) h
      ]

  retry-Reports : (left i : ℕ) (r : Relay C) → Reports r (retry_states channel left i r)
  unfolding retry_states
  retry-Reports zero i r = Reports-refl r
  retry-Reports (suc left) i r =
      let asked = update_all_relay_states channel r in
      let first = update_all-Reports r in
      let waited : Relay C = record (asked.1) {
        tcp_client = channel.delay (100 * (i + 1)) (asked.1).tcp_client;
      } in
      let again = retry-Reports left (i + 1) waited in
      elim (Bool-cases (is_ok asked.0)) [
        | inl good ↦ rw (good, retry_states) first
        | inr bad ↦
            rw (bad, retry_states)
              (Reports-trans r asked.1 (retry_states channel left (i + 1) waited) first
                (record { wish = again.wish; memory = again.memory; showing = again.showing }))
      ]

  pub init-Reports : (r : Relay C) → Reports r (init channel r).1
  unfolding init
  init-Reports r =
      let connected = channel.connect r.tcp_host r.tcp_port r.tcp_client in
      let r1 : Relay C = record r { tcp_client = connected.1 } in
      let h = retry-Reports 3 0 r1 in
      elim (Bool-cases (length r.tcp_host == 0)) [
        | inl empty ↦ rw (empty, init) (Reports-refl r)
        | inr host ↦ elim (Bool-cases (is_ok connected.0)) [
          | inl good ↦
              rw (host, good, init)
                (record { wish = h.wish; memory = h.memory; showing = h.showing })
          | inr bad ↦
              rw (host, bad, init) (record { wish = refl; memory = refl; showing = inl refl })
        ]
      ]
