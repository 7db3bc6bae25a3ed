-- ===== src/TcpClient/Connection.antt =====
-- When the client may believe that it is connected, and how often it tries to connect.
use esp32_band_decoder.Base.{
  ℕ, zero, suc, ◌+◌, ◌*◌, ◌^◌, ◌≡◌, ◌≢◌, refl, ◌∙◌, ◌⊎◌, true, false, none, some, arith,
  if◌then◌else◌, Option-cases, Bool-cases, inl, inr, ◌==◌,
}
use esp32_band_decoder.Err.{Err, ok, fail, timeout, invalid_state, is_ok}
use esp32_band_decoder.TcpClient.{
  Net, TcpClient, SendResult, SelectResult, RecvResult, ConnectResult, accepted, would_block,
  send_failed, ready, idle, select_failed, received, recv_failed, connected, in_progress, refused,
  close, pause, check_answer, verify_connection, established, await_connection, connect_to_server,
  check_connection_status, reconnect_loop, reconnect, ensure_connected, cooling_down, verify_cmd,
}
use esp32_band_decoder.Text.{codes, c_str, contains}

-- A client that believes it is connected has a socket.
abbrev pub HasSocket : {W : Type 0} → TcpClient W → Type 0
HasSocket c = c.is_connected ≡ true → (s : ℕ) × (c.sock ≡ some s)

-- The result of an attempt to connect: on success there is a live socket, on failure the client
-- does not believe that it is connected; the target stays.
pub record Attempt {W : Type 0} (c : TcpClient W) (r : Err × TcpClient W) : Type 0 where
  pub won : r.0 ≡ ok → ((r.1).is_connected ≡ true) × ((s : ℕ) × ((r.1).sock ≡ some s))
  pub lost : r.0 ≢ ok → (r.1).is_connected ≡ false
  pub host : (r.1).host ≡ c.host
  pub port : (r.1).port ≡ c.port

pub send_cases :
    (r : SendResult) → ((n : ℕ) × (r ≡ accepted n)) ⊎ ((r ≡ would_block) ⊎ (r ≡ send_failed))
send_cases (accepted n) = inl (n, refl)
send_cases would_block = inr (inl refl)
send_cases send_failed = inr (inr refl)

select_cases : (r : SelectResult) → (r ≡ ready) ⊎ ((r ≡ idle) ⊎ (r ≡ select_failed))
select_cases ready = inl refl
select_cases idle = inr (inl refl)
select_cases select_failed = inr (inr refl)

connect_cases : (r : ConnectResult) → (r ≡ connected) ⊎ ((r ≡ in_progress) ⊎ (r ≡ refused))
connect_cases connected = inl refl
connect_cases in_progress = inr (inl refl)
connect_cases refused = inr (inr refl)

is_ok→ok : (e : Err) → is_ok e ≡ true → e ≡ ok
is_ok→ok e h = ground arith

is_ok-ne : (e : Err) → is_ok e ≡ false → e ≢ ok
is_ok-ne e h p = ground arith

module _ {W : Type 0} (net : Net W) where
  close-off :
      (c : TcpClient W)
      → ((close net c).is_connected ≡ false)
        × ((close net c).host ≡ c.host)
        × ((close net c).port ≡ c.port)
        × ((close net c).sock ≡ none)
  unfolding close
  close-off c = ground arith

  -- A failure that closes the socket.
  given_up :
      (c c' : TcpClient W) (e : Err)
      → e ≢ ok
      → c'.host ≡ c.host
      → c'.port ≡ c.port
      → Attempt c (e, close net c')
  given_up c c' e bad h p =
      let (off, h', p', _) = close-off c' in
      record { won = λ x. absurd (bad x); lost = λ x. off; host = h' ∙ h; port = p' ∙ p }

  fail-ne-ok : fail ≢ ok
  fail-ne-ok h = cc

  timeout-ne-ok : timeout ≢ ok
  timeout-ne-ok h = cc

  check_answer-Attempt :
      (c c' : TcpClient W) (s : ℕ) (a : RecvResult)
      → c'.sock ≡ some s
      → c'.is_connected ≡ true
      → c'.host ≡ c.host
      → c'.port ≡ c.port
      → Attempt c (check_answer net a c')
  unfolding check_answer
  check_answer-Attempt c c' s recv_failed here on h p = given_up c c' fail fail-ne-ok h p
  check_answer-Attempt c c' s (received bs) here on h p =
      elim (Bool-cases (contains (codes "OK") (c_str bs))) [
        | inl good ↦
            rw good (record {
              won = λ x. (on, (s, here));
              lost = λ x. absurd (x refl);
              host = h;
              port = p;
            })
        | inr bad ↦ rw bad (given_up c c' fail fail-ne-ok h p)
      ]

  verify_connection-Attempt :
      (c c' : TcpClient W) (s : ℕ)
      → c'.sock ≡ some s
      → c'.is_connected ≡ true
      → c'.host ≡ c.host
      → c'.port ≡ c.port
      → Attempt c (verify_connection net c')
  unfolding verify_connection
  verify_connection-Attempt c c' s here on h p =
      elim (send_cases (net.send c'.sock verify_cmd c'.world).0) [
        | inl (n, e) ↦ rw (on, e, verify_connection) (check_answer-Attempt c _ s _ here on h p)
        | inr (inl e) ↦ rw (on, e, verify_connection) (given_up c _ fail fail-ne-ok h p)
        | inr (inr e) ↦ rw (on, e, verify_connection) (given_up c _ fail fail-ne-ok h p)
      ]

  established-Attempt :
      (c c' : TcpClient W) (s : ℕ)
      → c'.sock ≡ some s
      → c'.host ≡ c.host
      → c'.port ≡ c.port
      → Attempt c (established net c')
  unfolding established
  established-Attempt c c' s here h p =
      verify_connection-Attempt c (record c' { is_connected = true }) s here refl h p

  await_connection-Attempt :
      (c c' : TcpClient W) (s : ℕ)
      → c'.sock ≡ some s
      → c'.host ≡ c.host
      → c'.port ≡ c.port
      → Attempt c (await_connection net c')
  unfolding await_connection
  await_connection-Attempt c c' s here h p =
      let writable = net.select_write c'.sock c'.world in
      elim (select_cases writable.0) [
        | inl e ↦ elim (Bool-cases (net.has_error c'.sock writable.1).0) [
          | inl bad ↦ rw (e, await_connection) (rw bad (given_up c _ fail fail-ne-ok h p))
          | inr good ↦ rw (e, await_connection) (rw good (established-Attempt c _ s here h p))
        ]
        | inr (inl e) ↦ rw (e, await_connection) (given_up c _ timeout timeout-ne-ok h p)
        | inr (inr e) ↦ rw (e, await_connection) (given_up c _ fail fail-ne-ok h p)
      ]

  connect_to_server-Attempt :
      (c : TcpClient W) → c.is_connected ≡ false → Attempt c (connect_to_server net c)
  unfolding connect_to_server
  connect_to_server-Attempt c off = elim (Option-cases (net.socket c.world).0) [
    | inl no_socket ↦
        rw (no_socket, connect_to_server)
          (record { won = λ x. absurd (fail-ne-ok x); lost = λ x. off; host = refl; port = refl })
    | inr (s, here) ↦
        rw (here, connect_to_server)
          (elim (connect_cases
            (net.connect (net.socket c.world).0 c.host c.port (net.socket c.world).1).0) [
              | inl e ↦ rw (e, connect_to_server) (established-Attempt c _ s here refl refl)
              | inr (inl e) ↦
                  rw (e, connect_to_server) (await_connection-Attempt c _ s here refl refl)
              | inr (inr e) ↦ rw (e, connect_to_server) (given_up c _ fail fail-ne-ok refl refl)
            ])
  ]

  -- An attempt may go on from a client with the same target.
  Attempt-from :
      (c c' : TcpClient W) (r : Err × TcpClient W)
      → c'.host ≡ c.host
      → c'.port ≡ c.port
      → Attempt c' r
      → Attempt c r
  Attempt-from c c' r h p a = record {
    won = a.won;
    lost = a.lost;
    host = a.host ∙ h;
    port = a.port ∙ p;
  }

  waited-same :
      (ms i : ℕ) (c : TcpClient W)
      → let w : TcpClient W = if i == 0 then c else pause net ms c in
        (w.is_connected ≡ c.is_connected) × (w.host ≡ c.host) × (w.port ≡ c.port)
  waited-same ms i c = ground arith

  reconnect_loop-Attempt :
      (left i : ℕ) (c : TcpClient W)
      → c.is_connected ≡ false
      → Attempt c (reconnect_loop net left i c)
  unfolding reconnect_loop
  reconnect_loop-Attempt zero i c off = record {
    won = λ x. absurd (fail-ne-ok x);
    lost = λ x. off;
    host = refl;
    port = refl;
  }
  reconnect_loop-Attempt (suc left) i c off =
      let w : TcpClient W = if i == 0 then c else pause net (1000 * 2 ^ i) c in
      let (same, h, p) = waited-same (1000 * 2 ^ i) i c in
      let tried = connect_to_server net w in
      let a = connect_to_server-Attempt w (same ∙ off) in
      elim (Bool-cases (is_ok tried.0)) [
        | inl good ↦
            let done : tried.0 ≡ ok = is_ok→ok tried.0 good in
            rw (good, reconnect_loop)
              (record {
                won = λ x. a.won done;
                lost = λ x. absurd (x refl);
                host = a.host ∙ h;
                port = a.port ∙ p;
              })
        | inr bad ↦
            rw (bad, reconnect_loop)
              (Attempt-from c tried.1 _ (a.host ∙ h) (a.port ∙ p) (
                reconnect_loop-Attempt left (i + 1) tried.1 (a.lost (λ e. is_ok-ne tried.0 bad e))))
      ]

  reconnect-Attempt : (c : TcpClient W) → c.is_connected ≡ false → Attempt c (reconnect net c)
  unfolding reconnect
  reconnect-Attempt c off =
      let (closed, h, p, _) = close-off c in
      elim (Bool-cases (cooling_down (net.ticks c.world) c.last_reconnect_attempt)) [
        | inl early ↦
            rw (early, reconnect)
              (record { won = λ x. cc; lost = λ x. off; host = refl; port = refl })
        | inr late ↦
            rw (late, reconnect) (Attempt-from c _ _ h p (reconnect_loop-Attempt 3 0 _ closed))
      ]

  check_cases :
      (c : TcpClient W)
      → HasSocket c
      → let r = check_connection_status net c in
        (r.0 ≡ true → ((r.1).is_connected ≡ true) × ((s : ℕ) × ((r.1).sock ≡ some s)))
        × (r.0 ≡ false → (r.1).is_connected ≡ false)
        × ((r.1).host ≡ c.host)
        × ((r.1).port ≡ c.port)
  unfolding check_connection_status
  check_cases c h = elim (Bool-cases c.is_connected) [
    | inl on ↦
        let (s, here) = h on in
        ((λ x. (ground arith, (s, ground arith))), (λ x. ground arith), ground arith, ground arith)
    | inr off ↦ ((λ x. ground arith), (λ x. ground arith), ground arith, ground arith)
  ]

  ensure_connected_cases :
      (c : TcpClient W)
      → ((c.is_connected ≡ false) × (ensure_connected net c ≡ reconnect net c))
        ⊎ (((check_connection_status net c).0 ≡ true)
              × (ensure_connected net c ≡ (ok, (check_connection_status net c).1))
            ⊎ ((check_connection_status net c).0 ≡ false)
              × (ensure_connected net c ≡ reconnect net (check_connection_status net c).1))
  unfolding ensure_connected
  ensure_connected_cases c = elim (Bool-cases c.is_connected) [
    | inr off ↦ inl (off, ground arith)
    | inl on ↦ elim (Bool-cases (check_connection_status net c).0) [
      | inl fine ↦ inr (inl (fine, ground arith))
      | inr broken ↦ inr (inr (broken, ground arith))
    ]
  ]

  -- For a client that has a socket whenever it believes that it is connected: `ensure_connected`
  -- reports success only with a socket that is marked as connected, and after a failure the client
  -- does not believe that it is connected. The host and the port that it connects to stay.
  pub ensure_connected-Attempt :
      (c : TcpClient W) → HasSocket c → Attempt c (ensure_connected net c)
  ensure_connected-Attempt c has =
      let (good, bad, h, p) = check_cases c has in
      let checked = check_connection_status net c in
      elim (ensure_connected_cases c) [
        | inl (off, e) ↦ rw e (reconnect-Attempt c off)
        | inr (inl (fine, e)) ↦
            rw e (record { won = λ x. good fine; lost = λ x. absurd (x refl); host = h; port = p })
        | inr (inr (broken, e)) ↦
            rw e (Attempt-from c checked.1 _ h p (reconnect-Attempt checked.1 (bad broken)))
      ]

  -- A client that is not connected and tried to connect less than five seconds ago refuses with
  -- ESP_ERR_INVALID_STATE: no call is made and nothing changes.
  pub ensure_connected_cools_down :
      (c : TcpClient W)
      → c.is_connected ≡ false
      → cooling_down (net.ticks c.world) c.last_reconnect_attempt ≡ true
      → ensure_connected net c ≡ (invalid_state, c)
  unfolding ensure_connected reconnect
  ensure_connected_cools_down c off early = ground arith
