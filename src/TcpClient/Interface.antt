-- ===== src/TcpClient/Interface.antt =====
-- The TCP client as the interface that the relay controller uses, and what follows for the two
-- together.
use esp32_band_decoder.Base.{ℕ, Option, none, ◌≡◌, true, false, ℤ, pos_part, arith}
use esp32_band_decoder.Err.{ok}
use esp32_band_decoder.Relay.Command.Stale.{stale_reply_confirms}
use esp32_band_decoder.Relay.Command.{
  turn_off_all_relays_except, set_all_command, cmd_buffer, response_buffer_size,
}
use esp32_band_decoder.Relay.Verify.{verify_relay_state, verify_relay_state_never}
use esp32_band_decoder.Relay.{Channel, Relay, bad_relay}
use esp32_band_decoder.TcpClient.Receiving.{receive_message_idle}
use esp32_band_decoder.TcpClient.{
  Net, TcpClient, idle, init, ensure_connected, check_connection_status, close, send_message,
  receive_message, pause,
}
use esp32_band_decoder.Text.{Bytes, codes, c_str, contains}

abbrev pub tcp_channel : {W : Type 0} → Net W → Channel (TcpClient W)
tcp_channel net = record {
  connect = init net;
  ensure_connected = ensure_connected net;
  check_connection_status = check_connection_status net;
  close = close net;
  send_message = send_message net;
  receive_message = receive_message net;
  delay = pause net;
  now = λ c. net.time_ms c.world;
  ticks = λ c. net.ticks c.world;
}

-- If the connection is up, the switch command for a relay of the board is sent, nothing arrives
-- within a quarter of a second, and the buffer still holds the confirmation of an earlier command,
-- the switch is reported as done.
pub silent_board_confirms :
    {W : Type 0} (net : Net W) (id : ℤ) (r : Relay (TcpClient W))
    → let connected = ensure_connected net r.tcp_client in
      let sent = send_message net (cmd_buffer (set_all_command (pos_part id))) connected.1 in
      bad_relay id ≡ false
      → connected.0 ≡ ok
      → sent.0 ≡ ok
      → (net.select_read (sent.1).sock 250 (sent.1).world).0 ≡ idle
      → contains (codes ",OK") (c_str r.response) ≡ true
      → (turn_off_all_relays_except (tcp_channel net) id r).0 ≡ ok
silent_board_confirms net id r good e1 e2 quiet old =
    let connected = ensure_connected net r.tcp_client in
    let sent = send_message net (cmd_buffer (set_all_command (pos_part id))) connected.1 in
    let (done, kept) =
      receive_message_idle net r.response response_buffer_size 1000 sent.1 (omega arith)
        (omega arith) quiet in
    stale_reply_confirms (tcp_channel net) id r good e1 e2 done kept old

-- On a connection on which nothing ever arrives, the verification of the
-- relay state does not end: however much fuel there is for reading old replies, it runs out.
pub verify_relay_state_idle :
    {W : Type 0} (net : Net W) (fuel : ℕ) (buffer : Bytes) (expected : ℤ) (r : Relay (TcpClient W))
    → ((sock : Option ℕ) (w : W) → (net.select_read sock 250 w).0 ≡ idle)
    → verify_relay_state (tcp_channel net) fuel buffer expected r ≡ none
verify_relay_state_idle net fuel buffer expected r quiet =
    verify_relay_state_never (tcp_channel net) fuel buffer expected r (λ b c.
      (receive_message_idle net b 128 300 c (omega arith) (omega arith) (quiet c.sock c.world)).0)
