-- ===== src/TcpClient.antt =====
-- main/tcp_client.h and tcp_client.cpp: the connection to the relay board. The sockets of lwip and
-- the clock are the parameter `Net`; options that the code sets on a socket and does not depend on
-- are left out, and so is the watchdog.
pub mod Connection
pub mod Receiving
pub mod Sending
pub mod Interface
use esp32_band_decoder.Base.{
  ℕ, zero, suc, ◌+◌, ◌-◌, ◌*◌, ◌%◌, ◌^◌, Bool, true, false, not, ◌&&◌, ◌||◌, List, [], ◌∷◌, ◌++◌,
  Option, none, some, ltb, leb, ◌==◌, if◌then◌else◌, length, take, drop, min,
}
use esp32_band_decoder.Err.{Err, ok, fail, no_mem, invalid_arg, invalid_state, timeout, is_ok}
use esp32_band_decoder.Relay.{ms_to_ticks}
use esp32_band_decoder.Text.{Bytes, codes, c_str, contains}

pub data ConnectResult : Type 0 where
  connected in_progress refused : ConnectResult

pub data SelectResult : Type 0 where
  ready idle select_failed : SelectResult

-- `accepted n` stands for n + 1 bytes: a blocking send of some bytes takes at least one of them.
pub data SendResult : Type 0 where
  accepted : ℕ → SendResult
  would_block send_failed : SendResult

-- `received []` is a connection that the peer closed.
pub data RecvResult : Type 0 where
  received : Bytes → RecvResult
  recv_failed : RecvResult

-- The calls of lwip and FreeRTOS that the client makes, on a world `W`. A socket is `none` for -1.
pub record Net (W : Type 0) : Type 0 where
  pub socket : W → Option ℕ × W
  pub connect : Option ℕ → Bytes → ℕ → W → ConnectResult × W
  pub select_write : Option ℕ → W → SelectResult × W
  -- Whether `getsockopt(SO_ERROR)` failed or gave an error.
  pub has_error : Option ℕ → W → Bool × W
  pub send : Option ℕ → Bytes → W → SendResult × W
  pub select_read : Option ℕ → ℕ → W → SelectResult × W
  -- At most so many bytes.
  pub recv : Option ℕ → ℕ → W → RecvResult × W
  pub close_socket : ℕ → W → W
  pub delay : ℕ → W → W
  pub ticks : W → ℕ
  pub time_ms : W → ℕ
  -- `errno == ECONNRESET`.
  pub was_reset : W → Bool

pub record TcpClient (W : Type 0) : Type 0 where
  pub world : W
  pub sock : Option ℕ
  pub host : Bytes
  pub port : ℕ
  pub is_connected : Bool
  pub last_reconnect_attempt : ℕ
  pub connect_timeout_sec : ℕ
  pub keepalive_idle : ℕ
  pub keepalive_interval : ℕ
  pub keepalive_count : ℕ

abbrev pub verify_cmd : Bytes
verify_cmd = codes "RELAY-STATE-255"

-- What `receive_message` takes for a whole message.
unfoldable pub is_complete : Bytes → Bool
is_complete msg =
    contains (codes ",OK") msg
    || (contains (codes "RELAY-STATE-255") msg && contains (codes ",") msg)
    || (contains (codes "RELAY-SET_ALL-255") msg && contains (codes ",") msg)

-- How a round of the receive loop ends.
pub data Round (W : Type 0) : Type 0 where
  returns : Err → Bytes → TcpClient W → Round W
  again : Bytes → TcpClient W → Round W

module _ {W : Type 0} where
  -- What a round does with the bytes that `recv` gave; none means that the peer has closed.
  unfoldable pub take_in : ℕ → Bytes → Bytes → Bytes → TcpClient W → Round W
  take_in size got buffer [] c = returns fail buffer (record c { is_connected = false })
  take_in size got buffer (b ∷ more) c =
      let got' = got ++ b ∷ more in
      if is_complete got'
      then returns ok got' c
      else if leb (size - 1) (length got')
      then returns no_mem got' c
      else again got' c

  unfoldable pub new : W → TcpClient W
  new w = record {
    world = w;
    sock = none;
    host = [];
    port = 0;
    is_connected = false;
    last_reconnect_attempt = 0;
    connect_timeout_sec = 5;
    keepalive_idle = 5;
    keepalive_interval = 3;
    keepalive_count = 3;
  }

  unfoldable pub set_timeouts : ℕ → ℕ → ℕ → ℕ → TcpClient W → TcpClient W
  set_timeouts connect_timeout idle_sec interval count c = record c {
    connect_timeout_sec = connect_timeout;
    keepalive_idle = idle_sec;
    keepalive_interval = interval;
    keepalive_count = count;
  }

-- The tick counter has 32 bits.
abbrev pub cooling_down : ℕ → ℕ → Bool
cooling_down now last = ltb ((now + 2 ^ 32 - last) % 2 ^ 32) (ms_to_ticks 5000)

module _ {W : Type 0} (net : Net W) where
  unfoldable pub close : TcpClient W → TcpClient W
  close c = elim c.sock [
    | none ↦ record c { is_connected = false }
    | some s ↦ record c { world = net.close_socket s c.world; sock = none; is_connected = false }
  ]

  -- Wait; only the world changes.
  abbrev pub pause : ℕ → TcpClient W → TcpClient W
  pause ms c = record c { world = net.delay ms c.world }

  -- The answer to the verification command.
  unfoldable pub check_answer : RecvResult → TcpClient W → Err × TcpClient W
  check_answer recv_failed c = (fail, close c)
  check_answer (received bs) c =
      if contains (codes "OK") (c_str bs) then (ok, c) else (fail, close c)

  unfoldable pub verify_connection : TcpClient W → Err × TcpClient W
  verify_connection c =
      let sent = net.send c.sock verify_cmd c.world in
      let c1 : TcpClient W = record c { world = sent.1 } in
      let c2 = pause 100 c1 in
      let answer = net.recv c2.sock 127 c2.world in
      let checked = check_answer answer.0 (record c2 { world = answer.1 }) in
      if not c.is_connected then (fail, c) else elim sent.0 [
        | send_failed ↦ (fail, close c1)
        | would_block ↦ (fail, close c1)
        | accepted n ↦ checked
      ]

  -- The connection is made: mark it and verify it.
  unfoldable pub established : TcpClient W → Err × TcpClient W
  established c = verify_connection (record c { is_connected = true })

  -- Wait until the socket is writable, then look for an error.
  unfoldable pub await_connection : TcpClient W → Err × TcpClient W
  await_connection c =
      let writable = net.select_write c.sock c.world in
      let c1 : TcpClient W = record c { world = writable.1 } in
      let error = net.has_error c1.sock c1.world in
      let c2 : TcpClient W = record c1 { world = error.1 } in
      elim writable.0 [
        | ready ↦ if error.0 then (fail, close c2) else established c2
        | idle ↦ (timeout, close c1)
        | select_failed ↦ (fail, close c1)
      ]

  unfoldable pub connect_to_server : TcpClient W → Err × TcpClient W
  connect_to_server c =
      let opened = net.socket c.world in
      let c1 : TcpClient W = record c { world = opened.1; sock = opened.0 } in
      let answer = net.connect c1.sock c1.host c1.port c1.world in
      let c2 : TcpClient W = record c1 { world = answer.1 } in
      elim opened.0 [
        | none ↦ (fail, c1)
        | some s ↦ elim answer.0 [
          | connected ↦ established c2
          | refused ↦ (fail, close c2)
          | in_progress ↦ await_connection c2
        ]
      ]

  -- `for (retry = 0; retry < MAX_INIT_RETRIES; retry++)`, with `left` rounds to go.
  unfoldable pub init_loop : ℕ → ℕ → TcpClient W → Err × TcpClient W
  init_loop zero retry c = (fail, c)
  init_loop (suc left) retry c =
      let waited = if retry == 0 then c else pause (200 * 2 ^ retry) c in
      let tried = connect_to_server waited in
      let next = if net.was_reset (tried.1).world then tried.1 else close tried.1 in
      let rest = init_loop left (retry + 1) next in if is_ok tried.0 then (ok, tried.1) else rest

  unfoldable pub init : Bytes → ℕ → TcpClient W → Err × TcpClient W
  init host port c =
      let c1 : TcpClient W = elim c.sock [ none ↦ c | some s ↦ close c ] in
      init_loop 3 0 (record c1 { host = host; port = port })

  unfoldable pub check_connection_status : TcpClient W → Bool × TcpClient W
  check_connection_status c =
      let error = net.has_error c.sock c.world in
      let c1 : TcpClient W = record c { world = error.1 } in
      if c.is_connected
      then elim c.sock [
        | none ↦ (false, c)
        | some s ↦ if error.0 then (false, record c1 { is_connected = false }) else (true, c1)
      ]
      else (false, c)

  -- `for (i = 0; i < MAX_RETRIES; i++)` with exponential backoff.
  unfoldable pub reconnect_loop : ℕ → ℕ → TcpClient W → Err × TcpClient W
  reconnect_loop zero i c = (fail, c)
  reconnect_loop (suc left) i c =
      let waited = if i == 0 then c else pause (1000 * 2 ^ i) c in
      let tried = connect_to_server waited in
      let rest = reconnect_loop left (i + 1) tried.1 in
      if is_ok tried.0 then (ok, tried.1) else rest

  unfoldable pub reconnect : TcpClient W → Err × TcpClient W
  reconnect c =
      let now = net.ticks c.world in
      let closed = close c in
      if cooling_down now c.last_reconnect_attempt
      then (invalid_state, c)
      else reconnect_loop 3 0 (record closed { last_reconnect_attempt = now })

  -- `!is_connected || !check_connection_status()`: the check is not made when it is not connected.
  unfoldable pub ensure_connected : TcpClient W → Err × TcpClient W
  ensure_connected c =
      let checked = check_connection_status c in
      if c.is_connected
      then (if checked.0 then (ok, checked.1) else reconnect checked.1)
      else reconnect c

  -- The loop of `send_message`: `rest` is still to be sent. A round sends a byte or counts as a
  -- retry, of which there are two, so two more rounds than bytes are enough.
  unfoldable pub send_loop : ℕ → ℕ → Bytes → TcpClient W → Err × TcpClient W
  send_loop fuel retries [] c = (ok, pause 50 c)
  send_loop zero retries (b ∷ bs) c = (fail, c)
  send_loop (suc fuel) retries (b ∷ bs) c =
      let written = net.send c.sock (b ∷ bs) c.world in
      let c1 : TcpClient W = record c { world = written.1 } in
      if ltb retries 2
      then elim written.0 [
        | accepted n ↦
            let left = drop n bs in
            send_loop fuel retries left (if length left == 0 then c1 else pause 50 c1)
        | would_block ↦ send_loop fuel (retries + 1) (b ∷ bs) (pause 100 c1)
        | send_failed ↦ (fail, record c1 { is_connected = false })
      ]
      else (fail, c)

  unfoldable pub send_message : Bytes → TcpClient W → Err × TcpClient W
  send_message message c =
      let again = ensure_connected c in
      let fuel = length message + 2 in
      if c.is_connected
      then send_loop fuel 0 message c
      else if is_ok again.0
      then send_loop fuel 0 message (pause 100 again.1)
      else again

  -- One round of the loop of `receive_message`. `got` has been received and is what the buffer
  -- holds; before anything is received the buffer keeps its old text.
  unfoldable pub receive_round : ℕ → ℕ → ℕ → Bytes → Bytes → TcpClient W → Round W
  receive_round start size timeout_ms got buffer c =
      let elapsed = net.time_ms c.world - start in
      let selected = net.select_read c.sock (min (timeout_ms - elapsed) 250) c.world in
      let c1 : TcpClient W = record c { world = selected.1 } in
      let room = size - length got - 1 in
      let answer = net.recv c1.sock room c1.world in
      let c2 : TcpClient W = record c1 { world = answer.1 } in
      if leb timeout_ms elapsed then returns timeout buffer c else elim selected.0 [
        | ready ↦ elim answer.0 [
          | recv_failed ↦ returns fail buffer c2
          | received bs ↦ take_in size got buffer (take room bs) c2
        ]
        | idle ↦ returns ok buffer c1
        | select_failed ↦ returns fail buffer c1
      ]

  -- Every round but the last receives at least one byte, so the size of the buffer is enough fuel.
  unfoldable pub receive_loop :
      ℕ → ℕ → ℕ → ℕ → Bytes → Bytes → TcpClient W → Err × Bytes × TcpClient W
  receive_loop zero start size timeout_ms got buffer c = (fail, buffer, c)
  receive_loop (suc fuel) start size timeout_ms got buffer c =
      elim (receive_round start size timeout_ms got buffer c) [
        | returns e text c' ↦ (e, text, c')
        | again got' c' ↦ receive_loop fuel start size timeout_ms got' got' c'
      ]

  unfoldable pub receive_message : Bytes → ℕ → ℕ → TcpClient W → Err × Bytes × TcpClient W
  receive_message buffer size timeout_ms c =
      if leb size 1
      then (invalid_arg, buffer, c)
      else receive_loop size (net.time_ms c.world) size timeout_ms [] buffer c
