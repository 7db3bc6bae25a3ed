-- ===== src/TcpClient/Receiving.antt =====
-- `receive_message`: it ends, it stays within the buffer, and what its outcomes mean.
use Prim.Native.Nat.add
use esp32_band_decoder.Base.{
  ℕ, zero, suc, ◌+◌, ◌-◌, ◌≤◌, ◌<◌, ◌≡◌, ◌⊎◌, inl, inr, refl, ◌∙◌, true, false, [], ◌∷◌, ◌++◌, min,
  leb, length, take, length-append, length-take, arith, Bool-cases,
}
use esp32_band_decoder.Err.{Err, ok}
use esp32_band_decoder.TcpClient.{
  Net, TcpClient, SelectResult, RecvResult, ready, idle, select_failed, received, recv_failed,
  is_complete, Round, returns, again, take_in, receive_round, receive_loop, receive_message,
}
use esp32_band_decoder.Text.{Bytes}

select_cases : (r : SelectResult) → (r ≡ ready) ⊎ ((r ≡ idle) ⊎ (r ≡ select_failed))
select_cases ready = inl refl
select_cases idle = inr (inl refl)
select_cases select_failed = inr (inr refl)

recv_cases : (room : ℕ) (r : RecvResult) → (r ≡ recv_failed) ⊎ ((bs : Bytes) × (r ≡ received bs))
recv_cases room recv_failed = inl refl
recv_cases room (received bs) = inr (bs, refl)

not_tiny : (size : ℕ) → 1 < size → leb size 1 ≡ false
not_tiny size h = ground arith

-- What a round may come to: a text that fits, the old one or a complete one on success, or more
-- bytes than before and still room.
abbrev GoodRound : {W : Type 0} → ℕ → Bytes → Bytes → Round W → Type 0
GoodRound size got buffer (returns e text c) =
    (length text < size) × (e ≡ ok → (text ≡ buffer) ⊎ (is_complete text ≡ true))
GoodRound size got buffer (again got' c) = (length got < length got') × (suc (length got') < size)

module _ {W : Type 0} where
  take_in-GoodRound :
      (size : ℕ) (got buffer bs : Bytes) (c : TcpClient W)
      → length buffer < size
      → length bs ≤ size - length got - 1
      → length got < size
      → GoodRound size got buffer (take_in size got buffer bs c)
  unfolding take_in
  take_in-GoodRound size got buffer [] c h k l = (h, λ x. cc)
  take_in-GoodRound size got buffer (b ∷ more) c h k l =
      let longer = length-append got (b ∷ more) in
      elim (Bool-cases (is_complete (got ++ b ∷ more))) [
        | inl whole ↦ rw (whole, take_in) (omega (arith, longer), λ x. inr whole)
        | inr part ↦ elim (Bool-cases (leb (size - 1) (length (got ++ b ∷ more)))) [
          | inl full ↦ rw (part, full, take_in) (omega (arith, longer), λ x. cc)
          | inr space ↦ rw (part, space, take_in) (omega (arith, longer), ground arith)
        ]
      ]

module _ {W : Type 0} (net : Net W) where
  receive_round-GoodRound :
      (start size timeout_ms : ℕ) (got buffer : Bytes) (c : TcpClient W)
      → length buffer < size
      → length got < size
      → GoodRound size got buffer (receive_round net start size timeout_ms got buffer c)
  unfolding receive_round
  receive_round-GoodRound start size timeout_ms got buffer c h l =
      let selected =
        net.select_read c.sock (min (timeout_ms - (net.time_ms c.world - start)) 250) c.world in
      let room = size - length got - 1 in
      elim (Bool-cases (leb timeout_ms (net.time_ms c.world - start))) [
        | inl late ↦ rw (late, receive_round) (h, λ x. cc)
        | inr early ↦ elim (select_cases selected.0) [
          | inr (inl e) ↦ rw (early, e, receive_round) (h, λ x. inl refl)
          | inr (inr e) ↦ rw (early, e, receive_round) (h, λ x. cc)
          | inl e ↦ elim (recv_cases room (net.recv c.sock room selected.1).0) [
            | inl lost ↦ rw (early, e, receive_round) (rw (lost, receive_round) (h, λ x. cc))
            | inr (bs, got_bytes) ↦
                rw (early, e, receive_round)
                  (rw (got_bytes, receive_round)
                    (take_in-GoodRound size got buffer (take room bs) _ h
                      (omega (arith, length-take room bs)) l))
          ]
        ]
      ]

  -- The text in the buffer leaves room for its NUL, on every outcome.
  receive_loop-fits :
      (fuel start size timeout_ms : ℕ) (got buffer : Bytes) (c : TcpClient W)
      → length got < size
      → length buffer < size
      → length (receive_loop net fuel start size timeout_ms got buffer c).1 < size
  unfolding receive_loop
  receive_loop-fits zero start size timeout_ms got buffer c h k = k
  receive_loop-fits (suc fuel) start size timeout_ms got buffer c h k =
      after (receive_round net start size timeout_ms got buffer c)
        (receive_round-GoodRound start size timeout_ms got buffer c k h)
        (receive_loop-fits fuel start size timeout_ms)
    where
      after :
          (r : Round W)
          → GoodRound size got buffer r
          → ((g b : Bytes) (c' : TcpClient W)
              → length g < size
              → length b < size
              → length (receive_loop net fuel start size timeout_ms g b c').1 < size)
          → length (
              let result : Err × Bytes × TcpClient W = elim r [
                | returns e text c' ↦ (e, text, c')
                | again g c' ↦ receive_loop net fuel start size timeout_ms g g c'
              ] in
              result.1)
            < size
      after (returns e text c') good ih = good.0
      after (again g c') good ih = ih g g c' (omega arith) (omega arith)

  -- The text in the buffer is shorter than the buffer on every outcome, so its NUL fits, if that
  -- held of the text before the call.
  pub receive_message-fits :
      (buffer : Bytes) (size timeout_ms : ℕ) (c : TcpClient W)
      → length buffer < size
      → length (receive_message net buffer size timeout_ms c).1 < size
  unfolding receive_message
  receive_message-fits buffer size timeout_ms c h =
      ground (arith, receive_loop-fits size (net.time_ms c.world) size timeout_ms [] buffer c)

  round_now :
      (buffer : Bytes) (size timeout_ms : ℕ) (c : TcpClient W)
      → 0 < timeout_ms
      → (net.select_read c.sock (min timeout_ms 250) c.world).0 ≡ idle
      → let c1 : TcpClient W = record c {
        world = (net.select_read c.sock (min timeout_ms 250) c.world).1;
      } in
        receive_round net (net.time_ms c.world) size timeout_ms [] buffer c ≡ returns ok buffer c1
  unfolding receive_round
  round_now buffer size timeout_ms c some_time quiet =
      let at_start : net.time_ms c.world - net.time_ms c.world ≡ 0 = omega arith in
      let all_left : timeout_ms - 0 ≡ timeout_ms = omega arith in
      rw (at_start, all_left, receive_round) (rw quiet (ground arith))

  -- Nothing arrives within the wait of a round, but the timeout has not passed: success is
  -- reported, and the buffer keeps the text it had before.
  pub receive_message_idle :
      (buffer : Bytes) (size timeout_ms : ℕ) (c : TcpClient W)
      → 1 < size
      → 0 < timeout_ms
      → (net.select_read c.sock (min timeout_ms 250) c.world).0 ≡ idle
      → ((receive_message net buffer size timeout_ms c).0 ≡ ok)
        × ((receive_message net buffer size timeout_ms c).1 ≡ buffer)
  unfolding receive_message receive_loop
  receive_message_idle buffer zero timeout_ms c room some_time quiet = elim room [ ]
  receive_message_idle buffer (suc size) timeout_ms c room some_time quiet =
      ground (arith, round_now buffer (suc size) timeout_ms c some_time quiet)

  -- The loop ends: with as much fuel as the buffer has room, more fuel gives the same outcome.
  receive_loop_enough :
      (fuel start size timeout_ms : ℕ) (got buffer : Bytes) (c : TcpClient W)
      → length got < size
      → length buffer < size
      → size ≤ fuel + length got
      → receive_loop net (suc fuel) start size timeout_ms got buffer c
        ≡ receive_loop net fuel start size timeout_ms got buffer c
  unfolding receive_loop
  receive_loop_enough zero start size timeout_ms got buffer c h k enough = absurd (omega arith)
  receive_loop_enough (suc fuel) start size timeout_ms got buffer c h k enough =
      after (receive_round net start size timeout_ms got buffer c)
        (receive_round-GoodRound start size timeout_ms got buffer c k h)
        (receive_loop_enough fuel start size timeout_ms)
    where
      after :
          (r : Round W)
          → GoodRound size got buffer r
          → ((g b : Bytes) (c' : TcpClient W)
              → length g < size
              → length b < size
              → size ≤ fuel + length g
              → receive_loop net (suc fuel) start size timeout_ms g b c'
                ≡ receive_loop net fuel start size timeout_ms g b c')
          → ◌≡◌ {A = Err × Bytes × TcpClient W}
              (elim r [
                | returns e text c' ↦ (e, text, c')
                | again g c' ↦ receive_loop net (suc fuel) start size timeout_ms g g c'
              ])
              (elim r [
                | returns e text c' ↦ (e, text, c')
                | again g c' ↦ receive_loop net fuel start size timeout_ms g g c'
              ])
      after (returns e text c') good ih = refl
      after (again g c') good ih = ih g g c' (omega arith) (omega arith) (omega arith)

  -- The fuel of `receive_message` is enough: for a buffer of two bytes or more whose old text
  -- fits, the loop with any larger amount returns the same.
  pub receive_message_enough :
      (extra : ℕ) (buffer : Bytes) (size timeout_ms : ℕ) (c : TcpClient W)
      → 1 < size
      → length buffer < size
      → receive_loop net (extra + size) (net.time_ms c.world) size timeout_ms [] buffer c
        ≡ receive_message net buffer size timeout_ms c
  unfolding receive_message
  receive_message_enough zero buffer size timeout_ms c room h =
      rw add.zero (rw (not_tiny size room, receive_message))
  receive_message_enough (suc extra) buffer size timeout_ms c room h = rw add.suc (
      receive_loop_enough (extra + size) (net.time_ms c.world) size timeout_ms [] buffer c
        (omega arith) h (omega arith)
      ∙ receive_message_enough extra buffer size timeout_ms c room h)
