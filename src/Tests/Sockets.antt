-- ===== src/Tests/Sockets.antt =====
-- The TCP client on sockets that connect at once and then stay quiet.
use esp32_band_decoder.Base.{
  ap, suc, ◌++◌, take, ℕ, ◌+◌, ◌/◌, ◌<◌, ◌≡◌, refl, true, false, [], some, none, arith, pos, length,
}
use esp32_band_decoder.Err.{ok}
use esp32_band_decoder.Relay.Command.{turn_off_all_relays_except, set_all_command}
use esp32_band_decoder.Relay.{Relay, no_request}
use esp32_band_decoder.TcpClient
use esp32_band_decoder.TcpClient.Connection.{HasSocket, Attempt, ensure_connected-Attempt}
use esp32_band_decoder.TcpClient.Interface.{tcp_channel, silent_board_confirms}
use esp32_band_decoder.TcpClient.Sending.{Wire, send_message-sent, send_message_enough}
use esp32_band_decoder.TcpClient.Receiving.{
  receive_message-fits, receive_message_idle, receive_message_enough,
}
use esp32_band_decoder.TcpClient.{
  Net, TcpClient, connected, ready, idle, accepted, received, ensure_connected, send_message,
  receive_loop, receive_message, send_loop,
}
use esp32_band_decoder.Text
use esp32_band_decoder.Text.{Bytes, codes}

-- The world is the clock in milliseconds.
abbrev quiet_net : Net ℕ
quiet_net = record {
  socket = λ w. (some 3, w);
  connect = λ s host port w. (connected, w + 10);
  select_write = λ s w. (ready, w);
  has_error = λ s w. (false, w);
  send = λ s text w. (accepted 255, w + 1);
  select_read = λ s ms w. (idle, w + ms);
  recv = λ s room w. (received (codes "RELAY-STATE-255,0,1,OK"), w);
  close_socket = λ s w. w;
  delay = λ ms w. w + ms;
  ticks = λ w. w / 10;
  time_ms = λ w. w;
  was_reset = λ w. false;
}

-- The same sockets with a board that answers.
abbrev answering_net : Net ℕ
answering_net = record quiet_net { select_read = λ s ms w. (ready, w + 5) }

abbrev offline : TcpClient ℕ
offline = record {
  world = 60000;
  sock = none;
  host = codes "10.0.0.2";
  port = 12090;
  is_connected = false;
  last_reconnect_attempt = 0;
  connect_timeout_sec = 5;
  keepalive_idle = 5;
  keepalive_interval = 3;
  keepalive_count = 3;
}

abbrev online : TcpClient ℕ
online = record offline { sock = some 3; is_connected = true }

offline-HasSocket : HasSocket offline
offline-HasSocket h = cc

ensure_connected-Attempt_example : Attempt offline (ensure_connected quiet_net offline)
ensure_connected-Attempt_example = ensure_connected-Attempt quiet_net offline offline-HasSocket

abbrev just_tried : TcpClient ℕ
just_tried = record offline { last_reconnect_attempt = 5900 }

receive_message-fits_example :
    length (receive_message answering_net (codes "old") 16 500 online).1 < 16
receive_message-fits_example =
    receive_message-fits answering_net (codes "old") 16 500 online (omega arith)

receive_message_idle_example :
    ((receive_message quiet_net (codes "old,OK") 256 500 online).0 ≡ ok)
    × ((receive_message quiet_net (codes "old,OK") 256 500 online).1 ≡ codes "old,OK")
receive_message_idle_example =
    receive_message_idle quiet_net (codes "old,OK") 256 500 online (omega arith) (omega arith) refl

receive_message_enough_example :
    receive_loop answering_net (7 + 16) 60000 16 500 [] (codes "old") online
    ≡ receive_message answering_net (codes "old") 16 500 online
receive_message_enough_example =
    receive_message_enough answering_net 7 (codes "old") 16 500 online (omega arith) (omega arith)

-- A controller whose buffer holds the confirmation of an earlier command.
abbrev confirmed : Relay (TcpClient ℕ)
confirmed = record {
  tcp_client = online;
  relay_states = λ i. none;
  last_selected_relay_for_band = λ b. none;
  currently_selected_relay = pos 0;
  last_band_change_time = 0;
  tcp_host = codes "10.0.0.2";
  tcp_port = 12090;
  last_command = [];
  relay_state_bitfield = 0;
  latest_request = no_request;
  response = codes "RELAY-SET_ALL-255,0,2,OK";
  tcp_tasks = 1;
}

silent_board_confirms_example :
    (turn_off_all_relays_except (tcp_channel quiet_net) (pos 5) confirmed).0 ≡ ok
unfolding ensure_connected TcpClient.check_connection_status send_message TcpClient.send_loop
    set_all_command Text.contains Text.c_str
silent_board_confirms_example =
    silent_board_confirms quiet_net (pos 5) confirmed refl refl refl refl refl

-- Sockets that take four bytes at a time; the world is what has been sent.
abbrev slow_net : Net Bytes
slow_net = record {
  socket = λ w. (some 3, w);
  connect = λ s host port w. (connected, w);
  select_write = λ s w. (ready, w);
  has_error = λ s w. (false, w);
  send = λ s text w. (accepted 3, w ++ take 4 text);
  select_read = λ s ms w. (idle, w);
  recv = λ s room w. (received (codes "OK"), w);
  close_socket = λ s w. w;
  delay = λ ms w. w;
  ticks = λ w. 0;
  time_ms = λ w. 0;
  was_reset = λ w. false;
}

four_each : (n : ℕ) → accepted 3 ≡ accepted n → 3 ≡ n
four_each n e = cc

abbrev slow_net-Wire : Wire slow_net
slow_net-Wire = record {
  sent = λ w. w;
  accepts = λ s text w n e. ap (λ k. w ++ take (suc k) text) (four_each n e);
  blocks = λ s text w e. cc;
  waits = λ ms w. refl;
}

abbrev slow_client : TcpClient Bytes
slow_client = record {
  world = codes "RELAY-STATE-255";
  sock = some 3;
  host = codes "10.0.0.2";
  port = 12090;
  is_connected = true;
  last_reconnect_attempt = 0;
  connect_timeout_sec = 5;
  keepalive_idle = 5;
  keepalive_interval = 3;
  keepalive_count = 3;
}

slow_send_ok : (send_message slow_net (codes "RELAY-SET_ALL-255,0,1") slow_client).0 ≡ ok
unfolding send_message TcpClient.send_loop
slow_send_ok = refl

send_message-sent_example :
    (send_message slow_net (codes "RELAY-SET_ALL-255,0,1") slow_client).1.world
    ≡ codes "RELAY-STATE-255" ++ codes "RELAY-SET_ALL-255,0,1"
send_message-sent_example =
    send_message-sent slow_net slow_net-Wire (codes "RELAY-SET_ALL-255,0,1") slow_client refl
      slow_send_ok

send_message_enough_example :
    send_loop slow_net
      (9 + (length (codes "RELAY-SET_ALL-255,0,1") + 2))
      0
      (codes "RELAY-SET_ALL-255,0,1")
      slow_client
    ≡ send_message slow_net (codes "RELAY-SET_ALL-255,0,1") slow_client
send_message_enough_example =
    send_message_enough slow_net 9 (codes "RELAY-SET_ALL-255,0,1") slow_client refl
