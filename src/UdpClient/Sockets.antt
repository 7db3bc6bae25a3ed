-- ===== src/UdpClient/Sockets.antt =====
-- What the UDP client leaves in the caller's buffer, and the sockets that it opens.
use esp32_band_decoder.Base.{
  ℕ, suc, zero, ◌+◌, ◌++◌, ◌∷◌, [], take, ◌-◌, ◌<◌, ◌≡◌, Option, none, some, length, length-take,
  arith, Option-cases, inl, inr,
}
use esp32_band_decoder.Err.{Err}
use esp32_band_decoder.Text.{Bytes, c_str}
use esp32_band_decoder.UdpClient.{
  UdpNet, UdpClient, close, init, receive_message, copy_out, rx_size,
}

-- How many sockets a world has open, and what the calls do to that number.
pub record CountsSockets {W : Type 0} (net : UdpNet W) : Type 0 where
  pub open_sockets : W → ℕ
  pub opened :
      (s : ℕ) (w : W)
      → (net.socket w).0 ≡ some s
      → open_sockets (net.socket w).1 ≡ open_sockets w + 1
  pub not_opened :
      (w : W) → (net.socket w).0 ≡ none → open_sockets (net.socket w).1 ≡ open_sockets w
  pub configured : (s : ℕ) (w : W) → open_sockets (net.set_nonblocking s w) ≡ open_sockets w
  pub closed : (s : ℕ) (w : W) → open_sockets (net.close_socket s w) ≡ open_sockets w - 1

-- The sockets that a client has.
abbrev pub held : Option ℕ → ℕ
held none = 0
held (some s) = 1

module _ {W : Type 0} (net : UdpNet W) where
  close-held :
      (counts : CountsSockets net) (others : ℕ) (c : UdpClient W)
      → counts.open_sockets c.world ≡ others + held c.sock
      → (counts.open_sockets (close net c).world ≡ others + held (close net c).sock)
        × ((close net c).sock ≡ none)
  unfolding close
  close-held counts others c h = elim (Option-cases c.sock) [
    | inl e ↦ ground arith
    | inr (s, e) ↦ ground (arith, counts.closed s c.world)
  ]

  init-held :
      (counts : CountsSockets net) (host : Bytes) (port others : ℕ) (c : UdpClient W)
      → counts.open_sockets c.world ≡ others + held c.sock
      → let c1 = (init net host port c).1 in counts.open_sockets c1.world ≡ others + held c1.sock
  unfolding init
  init-held counts host port others c h =
      let closed = close net c in
      let (kept, shut) = close-held counts others c h in
      let made = net.socket closed.world in
      elim (Option-cases made.0) [
        | inl e ↦ ground (arith, counts.not_opened closed.world e)
        | inr (s, e) ↦ ground (arith, counts.opened s closed.world e, counts.configured s made.1)
      ]

  copied :
      (size : ℕ) (bytes text : Bytes) → copy_out net size bytes ≡ some text → length text < size
  copied zero bytes text h = absurd (ground arith)
  copied (suc room) bytes text h =
      let all = c_str (bytes ++ 0 ∷ []) in
      let same : take room all ≡ text = ground arith in
      rw (← same) (omega (arith, length-take room all))

  -- However often the client is initialised or closed, with or without success: it has opened one
  -- socket more than it has closed when it holds one, and as many when it holds none.
  pub init-close-held :
      (counts : CountsSockets net) (host : Bytes) (port others : ℕ) (c : UdpClient W)
      → counts.open_sockets c.world ≡ others + held c.sock
      → let c1 = (init net host port c).1 in
        let c2 = close net c in
        (counts.open_sockets c1.world ≡ others + held c1.sock)
        × (counts.open_sockets c2.world ≡ others + held c2.sock)
        × (c2.sock ≡ none)
  init-close-held counts host port others c h =
      let (kept, shut) = close-held counts others c h in
      (init-held counts host port others c h, kept, shut)

  -- The text in the buffer is always shorter than the buffer, if the text before was.
  pub receive_message-fits :
      (buffer text : Bytes) (size timeout_ms : ℕ) (e : Err) (c c' : UdpClient W)
      → length buffer < size
      → receive_message net buffer size timeout_ms c ≡ some (e, text, c')
      → length text < size
  unfolding receive_message
  receive_message-fits buffer text size timeout_ms e c c' fits h =
      let (set, w1) = net.set_timeout c.sock timeout_ms c.world in
      let (selected, w2) = net.select_read c.sock timeout_ms w1 in
      let got = net.recvfrom c.sock (rx_size - 1) w2 in
      elim (Option-cases got.0) [
        | inl e' ↦ ground arith
        | inr (bytes, e') ↦ elim (Option-cases (copy_out net size bytes)) [
          | inl o ↦ ground arith
          | inr (t, o) ↦ ground (arith, copied size bytes t o)
        ]
      ]
