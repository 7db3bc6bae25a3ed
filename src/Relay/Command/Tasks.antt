-- ===== src/Relay/Command/Tasks.antt =====
-- How many tasks run on the controller: `init` starts one, and no command changes the number.
use esp32_band_decoder.Base.{ℕ, zero, suc, ◌+◌, ◌*◌, ◌≡◌, refl, arith}
use esp32_band_decoder.Err.{ok}
use esp32_band_decoder.Relay.Command.{
  process_response, exchange, send_command, update_all_relay_states, retry_states, init, state_cmd,
}
use esp32_band_decoder.Relay.Response.{parse_relay_state_response, apply_state}
use esp32_band_decoder.Relay.{Relay, Channel}
use esp32_band_decoder.Text.{Bytes, codes}

module _ {C : Type 0} (channel : Channel C) where
  parse-tasks :
      (s : Bytes) (r : Relay C) → (parse_relay_state_response s r).1.tcp_tasks ≡ r.tcp_tasks
  unfolding parse_relay_state_response apply_state
  parse-tasks s r = ground arith

  process_response-tasks :
      (command expected : Bytes) (r : Relay C)
      → (process_response channel command expected r).1.tcp_tasks ≡ r.tcp_tasks
  unfolding process_response
  process_response-tasks command expected r = ground (arith, parse-tasks r.response r)

  exchange-tasks :
      (command : Bytes) (ms : ℕ) (r : Relay C)
      → (exchange channel command ms r).1.tcp_tasks ≡ r.tcp_tasks
  unfolding exchange
  exchange-tasks command ms r = ground arith

  send_command-tasks :
      (command expected : Bytes) (ms : ℕ) (r : Relay C)
      → (send_command channel command expected ms r).1.tcp_tasks ≡ r.tcp_tasks
  unfolding send_command
  send_command-tasks command expected ms r = grind (arith, process_response-tasks, exchange-tasks)

  update_all_relay_states-tasks :
      (r : Relay C) → (update_all_relay_states channel r).1.tcp_tasks ≡ r.tcp_tasks
  unfolding update_all_relay_states
  update_all_relay_states-tasks r = ground (arith, send_command-tasks state_cmd (codes "OK") 500 r)

  retry_states-tasks :
      (left i : ℕ) (r : Relay C) → (retry_states channel left i r).tcp_tasks ≡ r.tcp_tasks
  unfolding retry_states
  retry_states-tasks zero i r = refl
  retry_states-tasks (suc left) i r =
      let asked = update_all_relay_states channel r in
      let waited : Relay C = record (asked.1) {
        tcp_client = channel.delay (100 * (i + 1)) (asked.1).tcp_client;
      } in
      ground (arith, update_all_relay_states-tasks r, retry_states-tasks left (i + 1) waited)

  -- A start that succeeds adds one task.
  pub init-tasks :
      (r : Relay C) → (init channel r).0 ≡ ok → (init channel r).1.tcp_tasks ≡ r.tcp_tasks + 1
  unfolding init
  init-tasks r h =
      let connected = channel.connect r.tcp_host r.tcp_port r.tcp_client in
      let r1 : Relay C = record r { tcp_client = connected.1 } in
      ground (arith, retry_states-tasks 3 0 r1)
