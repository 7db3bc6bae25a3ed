-- ===== src/Relay/Verify.antt =====
-- `verify_relay_state` of main/relay_controller.cpp, which nothing calls yet.
use esp32_band_decoder.Base.{
  ℕ, zero, suc, ◌≡◌, refl, Option, none, some, Option-cases, inl, inr, if◌then◌else◌, ℤ, eq_ℤ, ◌==◌,
  true, arith, ◌&&◌,
}
use esp32_band_decoder.Err.{Err, ok, fail, is_ok}
use esp32_band_decoder.Relay.Command.{send_command, state_cmd}
use esp32_band_decoder.Relay.{Relay, Channel}
use esp32_band_decoder.Text.{Bytes, codes}

module _ {C : Type 0} (channel : Channel C) where
  -- Replies that are still there are read and dropped; `none` when the fuel runs out.
  unfoldable pub flush : ℕ → Bytes → C → Option C
  flush zero buffer c = none
  flush (suc fuel) buffer c =
      let (e, buffer', c') = channel.receive_message buffer 128 300 c in
      let rest = flush fuel buffer' c' in if is_ok e then rest else some c'

  abbrev with_client : C → Relay C → Relay C
  with_client c r = record r { tcp_client = c }

  -- `left` attempts remain, each with the fuel and the old contents of its buffer.
  unfoldable pub verify_attempts : ℕ → ℕ → Bytes → ℤ → Relay C → Option (Err × Relay C)
  verify_attempts zero fuel buffer expected r = some (fail, r)
  verify_attempts (suc left) fuel buffer expected r = elim (flush fuel buffer r.tcp_client) [
    | none ↦ none
    | some c ↦
        let asked = send_command channel state_cmd (codes "OK") 250 (with_client c r) in
        let r' = asked.1 in
        let again =
          with_client (if left == 0 then r'.tcp_client else channel.delay 50 r'.tcp_client) r' in
        let rest = verify_attempts left fuel buffer expected again in
        if is_ok asked.0 && eq_ℤ r'.currently_selected_relay expected then some (ok, r') else rest
  ]

  unfoldable pub verify_relay_state : ℕ → Bytes → ℤ → Relay C → Option (Err × Relay C)
  verify_relay_state fuel buffer expected r =
      verify_attempts 2 fuel buffer expected (with_client (channel.delay 20 r.tcp_client) r)

  verify_attempts-ok :
      (left fuel : ℕ) (buffer : Bytes) (expected : ℤ) (r r' : Relay C)
      → verify_attempts left fuel buffer expected r ≡ some (ok, r')
      → eq_ℤ r'.currently_selected_relay expected ≡ true
  unfolding verify_attempts
  verify_attempts-ok zero fuel buffer expected r r' h = ground arith
  verify_attempts-ok (suc left) fuel buffer expected r r' h =
      elim (Option-cases (flush fuel buffer r.tcp_client)) [
        | inl e ↦ ground arith
        | inr (c, e) ↦
            let asked = send_command channel state_cmd (codes "OK") 250 (with_client c r) in
            let client = asked.1.tcp_client in
            let again =
              with_client (if left == 0 then client else channel.delay 50 client) asked.1 in
            ground (arith, verify_attempts-ok left fuel buffer expected again r')
      ]

  -- What a verification reports as right is what the controller has selected.
  pub verify_relay_state-ok :
      (fuel : ℕ) (buffer : Bytes) (expected : ℤ) (r r' : Relay C)
      → verify_relay_state fuel buffer expected r ≡ some (ok, r')
      → eq_ℤ r'.currently_selected_relay expected ≡ true
  unfolding verify_relay_state
  verify_relay_state-ok fuel buffer expected r r' h =
      verify_attempts-ok 2 fuel buffer expected _ r' h

  flush_never :
      (fuel : ℕ) (buffer : Bytes) (c : C)
      → ((b : Bytes) (c : C) → (channel.receive_message b 128 300 c).0 ≡ ok)
      → flush fuel buffer c ≡ none
  unfolding flush
  flush_never zero buffer c idle = refl
  flush_never (suc fuel) buffer c idle =
      let (e, b, c') = channel.receive_message buffer 128 300 c in
      rw (idle buffer c) (flush_never fuel b c' idle)

  -- If the client reports success whenever it is asked to receive, as it does on a connection on
  -- which nothing arrives, the old replies are never done: however much fuel there is, it runs out.
  pub verify_relay_state_never :
      (fuel : ℕ) (buffer : Bytes) (expected : ℤ) (r : Relay C)
      → ((b : Bytes) (c : C) → (channel.receive_message b 128 300 c).0 ≡ ok)
      → verify_relay_state fuel buffer expected r ≡ none
  unfolding verify_relay_state verify_attempts
  verify_relay_state_never fuel buffer expected r idle =
      let waited = channel.delay 20 r.tcp_client in
      ground (arith, flush_never fuel buffer waited idle)
