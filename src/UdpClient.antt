-- ===== src/UdpClient.antt =====
-- main/udp_client.h and udp_client.cpp, which no other file uses yet: datagrams to one address. The
-- socket calls of lwip are the parameter `UdpNet`.
pub mod Sockets
use esp32_band_decoder.Base.{
  ℕ, zero, suc, ◌-◌, Bool, true, false, [], ◌∷◌, ◌++◌, Option, none, some, leb, ◌==◌, if◌then◌else◌,
  length, take,
}
use esp32_band_decoder.Err.{Err, ok, fail, no_mem, invalid_state, timeout}
use esp32_band_decoder.TcpClient.{SelectResult, ready, idle, select_failed}
use esp32_band_decoder.Text.{Bytes, c_str}

-- A socket is `none` for -1.
pub record UdpNet (W : Type 0) : Type 0 where
  pub socket : W → Option ℕ × W
  pub set_nonblocking : ℕ → W → W
  -- Whether the datagram was taken.
  pub sendto : Option ℕ → Bytes → Option (Bytes × ℕ) → W → Bool × W
  -- Whether the timeout could be set.
  pub set_timeout : Option ℕ → ℕ → W → Bool × W
  pub select_read : Option ℕ → ℕ → W → SelectResult × W
  -- At most so many bytes of a datagram.
  pub recvfrom : Option ℕ → ℕ → W → Option Bytes × W
  pub close_socket : ℕ → W → W

pub record UdpClient (W : Type 0) : Type 0 where
  pub world : W
  pub sock : Option ℕ
  -- The zeroed address is `none`.
  pub dest_addr : Option (Bytes × ℕ)

abbrev pub rx_size : ℕ
rx_size = 128

unfoldable pub new : {W : Type 0} → W → UdpClient W
new w = record { world = w; sock = none; dest_addr = none }

module _ {W : Type 0} (net : UdpNet W) where
  open net use {socket, set_nonblocking, sendto, set_timeout, select_read, recvfrom, close_socket}

  unfoldable pub close : UdpClient W → UdpClient W
  close c = elim c.sock [
    | none ↦ c
    | some s ↦ record c { world = close_socket s c.world; sock = none }
  ]

  unfoldable pub init : Bytes → ℕ → UdpClient W → Err × UdpClient W
  init host port c =
      let closed = close c in
      let made = socket closed.world in
      elim made.0 [
        | none ↦ (fail, record closed { world = made.1; sock = none })
        | some s ↦ (
          ok,
          record { world = set_nonblocking s made.1; sock = some s; dest_addr = some (host, port) },
        )
      ]

  unfoldable pub send_message : Bytes → UdpClient W → Err × UdpClient W
  send_message message c =
      let sent = sendto c.sock message c.dest_addr c.world in
      (if sent.0 then ok else fail, record c { world = sent.1 })

  -- What has been received, in the caller's buffer of this size: `strncpy` and a NUL. A size of 0
  -- overruns the buffer, `none`.
  abbrev pub copy_out : ℕ → Bytes → Option Bytes
  copy_out zero received = none
  copy_out (suc room) received = some (take room (c_str (received ++ 0 ∷ [])))

  -- The result, with the text that is left in the buffer.
  unfoldable pub receive_message : Bytes → ℕ → ℕ → UdpClient W → Option (Err × Bytes × UdpClient W)
  receive_message buffer size timeout_ms c =
      let (set, w1) = set_timeout c.sock timeout_ms c.world in
      let (selected, w2) = select_read c.sock timeout_ms w1 in
      let (got, w3) = recvfrom c.sock (rx_size - 1) w2 in
      let stop : Err → W → Option (Err × Bytes × UdpClient W) =
        λ e w. some (e, buffer, record c { world = w }) in
      if set
      then elim selected [
        | select_failed ↦ stop invalid_state w2
        | idle ↦ stop timeout w2
        | ready ↦ elim got [
          | none ↦ stop invalid_state w3
          | some bytes ↦
              if leb rx_size (length bytes) then stop no_mem w3 else elim (copy_out size bytes) [
                | none ↦ none
                | some text ↦ some (ok, text, record c { world = w3 })
              ]
        ]
      ]
      else stop invalid_state w1
