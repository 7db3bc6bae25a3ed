-- ===== src/Relay/Command/Stale.antt =====
-- A reply is not told from what an earlier command left in the static buffer.
use esp32_band_decoder.Base.{ℕ, ◌≡◌, refl, true, false, ℤ, pos_part, arith}
use esp32_band_decoder.Err.{ok}
use esp32_band_decoder.Relay.Command.{
  process_response, exchange, send_command, turn_off_all_relays_except, set_all_command,
  set_all_cmd, cmd_buffer, response_buffer_size,
}
use esp32_band_decoder.Relay.{Channel, Relay, bad_relay}
use esp32_band_decoder.Text.{codes, c_str, contains}

set_all_command-contains : (relay : ℕ) → contains set_all_cmd (set_all_command relay) ≡ true
unfolding contains set_all_command
set_all_command-contains relay = refl

-- If the buffer still holds an earlier ",OK", the command is sent, and the client then reports
-- success without having received anything, the switch is reported as done.
pub stale_reply_confirms :
    {C : Type 0} (channel : Channel C) (id : ℤ) (r : Relay C)
    → let connected = channel.ensure_connected r.tcp_client in
      let sent = channel.send_message (cmd_buffer (set_all_command (pos_part id))) connected.1 in
      let received = channel.receive_message r.response response_buffer_size 1000 sent.1 in
      bad_relay id ≡ false
      → connected.0 ≡ ok
      → sent.0 ≡ ok
      → received.0 ≡ ok
      → received.1 ≡ r.response
      → contains (codes ",OK") (c_str r.response) ≡ true
      → (turn_off_all_relays_except channel id r).0 ≡ ok
unfolding turn_off_all_relays_except send_command exchange process_response
stale_reply_confirms channel id r good e1 e2 e3 e4 e5 =
    ground (arith, set_all_command-contains (pos_part id))
