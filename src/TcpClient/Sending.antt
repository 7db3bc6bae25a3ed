-- ===== src/TcpClient/Sending.antt =====
-- `send_message`: what it reports as sent is on the wire, whole and once.
use Prim.Native.Nat.add
use mathlib.Core.List.{append-nil, append_assoc}
use esp32_band_decoder.Base.{
  ℕ, zero, suc, ◌+◌, ◌-◌, ◌≤◌, ◌≡◌, refl, sym, ap, ◌∙◌, true, [], ◌∷◌, ◌++◌, inl, inr, ◌==◌, ltb,
  length, length-drop, take, drop, take-drop, Option, arith, if◌then◌else◌, Bool-cases,
}
use esp32_band_decoder.Err.{ok}
use esp32_band_decoder.TcpClient.Connection.{send_cases}
use esp32_band_decoder.TcpClient.{
  Net, TcpClient, accepted, would_block, pause, send_loop, send_message,
}
use esp32_band_decoder.Text.{Bytes}

-- What lwip documents of `send`: it puts the bytes that it counts on the wire, and a wait none.
pub record Wire {W : Type 0} (net : Net W) : Type 0 where
  pub sent : W → Bytes
  pub accepts :
      (s : Option ℕ) (text : Bytes) (w : W) (n : ℕ)
      → (net.send s text w).0 ≡ accepted n
      → sent (net.send s text w).1 ≡ sent w ++ take (suc n) text
  pub blocks :
      (s : Option ℕ) (text : Bytes) (w : W)
      → (net.send s text w).0 ≡ would_block
      → sent (net.send s text w).1 ≡ sent w
  pub waits : (ms : ℕ) (w : W) → sent (net.delay ms w) ≡ sent w

module _ {W : Type 0} (net : Net W) where
  -- The client after a round that sent something.
  abbrev paced : Bytes → TcpClient W → TcpClient W
  paced left c = if length left == 0 then c else pause net 50 c

  online_send :
      (message : Bytes) (c : TcpClient W)
      → c.is_connected ≡ true
      → send_message net message c ≡ send_loop net (length message + 2) 0 message c
  unfolding send_message
  online_send message c on = ground arith

  module _ (wire : Wire net) where
    paced-sent :
        (left : Bytes) (c : TcpClient W) → wire.sent (paced left c).world ≡ wire.sent c.world
    paced-sent left c = ground (arith, wire.waits 50 c.world)

    send_loop-sent :
        (fuel retries : ℕ) (text : Bytes) (c : TcpClient W)
        → (send_loop net fuel retries text c).0 ≡ ok
        → wire.sent (send_loop net fuel retries text c).1.world ≡ wire.sent c.world ++ text
    unfolding send_loop
    send_loop-sent fuel retries [] c h = rw append-nil (wire.waits 50 c.world)
    send_loop-sent zero retries (b ∷ bs) c h = cc
    send_loop-sent (suc fuel) retries (b ∷ bs) c h =
        let written = net.send c.sock (b ∷ bs) c.world in
        let c1 : TcpClient W = record c { world = written.1 } in
        elim (Bool-cases (ltb retries 2)) [
          | inr over ↦ let lost = rw (over, send_loop) at h in cc
          | inl more ↦ elim (send_cases written.0) [
            | inr (inr broken) ↦
                let lost = rw (broken, send_loop) at (rw (more, send_loop) at h) in cc
            | inr (inl blocked) ↦
                rw (more, send_loop)
                  (rw (blocked, send_loop)
                    (send_loop-sent fuel (retries + 1) (b ∷ bs) (pause net 100 c1)
                        (rw (blocked, send_loop) at (rw (more, send_loop) at h))
                      ∙ ap (λ s. s ++ b ∷ bs)
                          (wire.waits 100 written.1 ∙ wire.blocks c.sock (b ∷ bs) c.world blocked)))
            | inl (n, got) ↦
                rw (more, send_loop)
                  (rw (got, send_loop)
                    (send_loop-sent fuel retries (drop n bs) (paced (drop n bs) c1)
                        (rw (got, send_loop) at (rw (more, send_loop) at h))
                      ∙ ap (λ s. s ++ drop n bs)
                          (paced-sent (drop n bs) c1 ∙ wire.accepts c.sock (b ∷ bs) c.world n got)
                      ∙ append_assoc (wire.sent c.world) (b ∷ take n bs) (drop n bs)
                      ∙ ap (λ s. wire.sent c.world ++ b ∷ s) (take-drop n bs)))
          ]
        ]

    -- On sockets that put on the wire what they count: if a connected client reports a message as
    -- sent, exactly its bytes have been added to the wire, in order, however many partial sends
    -- and waits it took.
    pub send_message-sent :
        (message : Bytes) (c : TcpClient W)
        → c.is_connected ≡ true
        → (send_message net message c).0 ≡ ok
        → wire.sent (send_message net message c).1.world ≡ wire.sent c.world ++ message
    send_message-sent message c on h =
        let now = online_send message c on in
        rw now (send_loop-sent (length message + 2) 0 message c (rw now at h))

  send_loop_step :
      (fuel retries : ℕ) (text : Bytes) (c : TcpClient W)
      → length text + (2 - retries) ≤ fuel
      → send_loop net (suc fuel) retries text c ≡ send_loop net fuel retries text c
  unfolding send_loop
  send_loop_step fuel retries [] c h = refl
  send_loop_step zero retries (b ∷ bs) c h = absurd (omega arith)
  send_loop_step (suc fuel) retries (b ∷ bs) c h =
      let written = net.send c.sock (b ∷ bs) c.world in
      let c1 : TcpClient W = record c { world = written.1 } in
      elim (Bool-cases (ltb retries 2)) [
        | inr over ↦ rw (over, send_loop)
        | inl more ↦ elim (send_cases written.0) [
          | inr (inr broken) ↦ rw (more, send_loop) (rw (broken, send_loop))
          | inr (inl blocked) ↦
              rw (more, send_loop)
                (rw (blocked, send_loop)
                  (send_loop_step fuel (retries + 1) (b ∷ bs) (pause net 100 c1) (ground arith)))
          | inl (n, got) ↦
              rw (more, send_loop)
                (rw (got, send_loop)
                  (send_loop_step fuel retries (drop n bs) (paced (drop n bs) c1)
                    (omega (arith, length-drop n bs))))
        ]
      ]

  -- The fuel of `send_message` on a connected client is enough: the loop with any larger amount
  -- returns the same.
  pub send_message_enough :
      (extra : ℕ) (message : Bytes) (c : TcpClient W)
      → c.is_connected ≡ true
      → send_loop net (extra + (length message + 2)) 0 message c ≡ send_message net message c
  send_message_enough zero message c on = rw add.zero (sym (online_send message c on))
  send_message_enough (suc extra) message c on = rw add.suc (
      send_loop_step (extra + (length message + 2)) 0 message c (omega arith)
      ∙ send_message_enough extra message c on)
