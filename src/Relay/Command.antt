-- ===== src/Relay/Command.antt =====
-- `send_command` and the operations that send a command to the relay board.
pub mod Encoding
pub mod Safety
pub mod Stale
pub mod Tasks
use esp32_band_decoder.Base.{
  ℕ, zero, suc, ◌+◌, ◌-◌, ◌*◌, ◌/◌, ◌%◌, ◌^◌, Bool, true, false, not, ◌&&◌, ◌||◌, List, [], ◌∷◌,
  ◌++◌, leb, ◌==◌, if◌then◌else◌, ℤ, pos, pos_part, eq_ℤ, length, take, min, max,
}
use esp32_band_decoder.Err.{Err, ok, fail, invalid_arg, invalid_state, is_ok}
use esp32_band_decoder.Relay.Response.{parse_relay_state_response}
use esp32_band_decoder.Relay.{Channel, Relay, num_relays, bad_relay, assign_up_to, value_or_false}
use esp32_band_decoder.Text.{Bytes, codes, c_str, eq_bytes, contains, to_string}

abbrev pub response_buffer_size : ℕ
response_buffer_size = 256

abbrev pub set_all_cmd : Bytes
set_all_cmd = codes "RELAY-SET_ALL"

abbrev pub state_cmd : Bytes
state_cmd = codes "RELAY-STATE-255"

-- The command with its newline, in a buffer of 128 bytes.
abbrev pub cmd_buffer : Bytes → Bytes
cmd_buffer command = take (min (length command) 126) command ++ b'\n' ∷ []

-- The state bytes that leave one relay on.
abbrev pub d1_of : ℕ → ℕ
d1_of relay = if leb relay 8 then 0 else 2 ^ (relay - 9)

abbrev pub d0_of : ℕ → ℕ
d0_of relay = if leb relay 8 then 2 ^ (relay - 1) else 0

unfoldable pub set_all_command : ℕ → Bytes
unfolding to_string
set_all_command relay =
    codes "RELAY-SET_ALL-255," ++ to_string (d1_of relay) (b',' ∷ to_string (d0_of relay) [])

unfoldable pub set_all_suffix : ℕ → Bytes
unfolding to_string
set_all_suffix relay = to_string (d1_of relay) (b',' ∷ to_string (d0_of relay) (codes ",OK"))

module _ {C : Type 0} (channel : Channel C) where
  open channel use {
    connect, ensure_connected, check_connection_status, close, send_message, receive_message, delay,
  }

  -- What `send_command` makes of the text in its buffer, by the type of the command.
  unfoldable pub process_response : Bytes → Bytes → Relay C → Err × Relay C
  process_response command expected r =
      let parsed = parse_relay_state_response r.response r in
      if contains set_all_cmd command
      then (if contains (codes ",OK") r.response then (ok, parsed.1) else (fail, r))
      else if contains state_cmd command
      then parsed
      else if length expected == 0
      then (fail, r)
      else if contains expected r.response
      then (ok, r)
      else (fail, r)

  -- The first part of `send_command`: connect, send, and receive into the static buffer.
  unfoldable pub exchange : Bytes → ℕ → Relay C → Err × Relay C
  exchange command timeout r =
      let connected = ensure_connected r.tcp_client in
      let r1 : Relay C = record r { last_command = command; tcp_client = connected.1 } in
      let sent = send_message (cmd_buffer command) r1.tcp_client in
      let r2 : Relay C = record r1 { tcp_client = sent.1 } in
      let received = receive_message r2.response response_buffer_size timeout r2.tcp_client in
      let r3 : Relay C = record r2 { tcp_client = received.2; response = c_str received.1 } in
      if is_ok connected.0
      then (if is_ok sent.0 then (received.0, r3) else (sent.0, r2))
      else (connected.0, r1)

  unfoldable pub send_command : Bytes → Bytes → ℕ → Relay C → Err × Relay C
  send_command command expected timeout_ms r =
      let timeout = if contains set_all_cmd command then max timeout_ms 1000 else timeout_ms in
      let answer = exchange command timeout r in
      if is_ok answer.0 then process_response command expected answer.1 else answer

  unfoldable pub update_all_relay_states : Relay C → Err × Relay C
  update_all_relay_states r =
      let answer = send_command state_cmd (codes "OK") 500 r in
      let r' = answer.1 in
      -- The log line reads `relay_states_[i]`, which inserts a missing key.
      let logged : Relay C = record r' {
        relay_states =
            assign_up_to num_relays (λ i. value_or_false (r'.relay_states i)) r'.relay_states;
      } in
      if is_ok answer.0 then (ok, logged) else answer

  -- `update_relay_states` only logs and passes the result on.
  unfoldable pub update_relay_states : Relay C → Err × Relay C
  update_relay_states r = update_all_relay_states r

  unfoldable pub turn_off_all_relays : Relay C → Err × Relay C
  turn_off_all_relays r =
      let answer = send_command (codes "RELAY-AOF-255,1,1") (codes "255,1,1,OK") 500 r in
      let r' = answer.1 in
      if is_ok answer.0
      then (
        ok,
        record r' {
          relay_states = assign_up_to num_relays (λ i. false) r'.relay_states;
          currently_selected_relay = pos 0;
        },
      )
      else answer

  unfoldable pub turn_off_all_relays_except : ℤ → Relay C → Err × Relay C
  turn_off_all_relays_except relay_to_keep_on r =
      let relay = pos_part relay_to_keep_on in
      let answer = send_command (set_all_command relay) (set_all_suffix relay) 500 r in
      let r' = answer.1 in
      if bad_relay relay_to_keep_on
      then (invalid_arg, r)
      else if is_ok answer.0
      then (
        ok,
        record r' {
          relay_states = assign_up_to num_relays (λ i. i == relay) r'.relay_states;
          currently_selected_relay = relay_to_keep_on;
        },
      )
      else answer

  unfoldable pub update_tcp_settings : Bytes → ℕ → Relay C → Err × Relay C
  update_tcp_settings host port r =
      let checked = check_connection_status r.tcp_client in
      let closed = if checked.0 then close checked.1 else checked.1 in
      let connected = ensure_connected closed in
      let r1 : Relay C = record r { tcp_host = host; tcp_port = port; tcp_client = connected.1 } in
      if eq_bytes host r.tcp_host && (port == r.tcp_port)
      then (ok, r)
      else if is_ok connected.0
      then (ok, (update_all_relay_states r1).1)
      else (connected.0, r1)

  -- The initial states are asked for up to three times, with a growing pause.
  unfoldable pub retry_states : ℕ → ℕ → Relay C → Relay C
  retry_states zero i r = r
  retry_states (suc left) i r =
      let asked = update_all_relay_states r in
      let r' = asked.1 in
      let rest =
        retry_states left (i + 1)
          (record r' { tcp_client = delay (100 * (i + 1)) r'.tcp_client }) in
      if is_ok asked.0 then r' else rest

  -- The socket options that `init` sets, and only logs about, are left out.
  unfoldable pub init : Relay C → Err × Relay C
  init r =
      let connected = connect r.tcp_host r.tcp_port r.tcp_client in
      let r1 : Relay C = record r { tcp_client = connected.1 } in
      let r2 = retry_states 3 0 r1 in
      if length r.tcp_host == 0
      then (invalid_state, r)
      else if is_ok connected.0
      then (ok, record r2 { tcp_tasks = r2.tcp_tasks + 1 })
      else (connected.0, r1)
