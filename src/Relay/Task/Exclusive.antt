-- ===== src/Relay/Task/Exclusive.antt =====
-- What the TCP task does with a request: which relays are on afterwards, and what is retried.
use esp32_band_decoder.Base.{
  ◌≡◌, ◌≢◌, inl, inr, refl, sym, true, false, some, ℤ, pos, negsuc, eq_ℤ, arith, Bool-cases,
}
use esp32_band_decoder.Err.{Err, ok, is_ok}
use esp32_band_decoder.Relay.Command.{turn_off_all_relays_except}
use esp32_band_decoder.Relay.Command.Safety.{
  SameRelays, Exclusive, turn_off_all_relays_except_cases,
}
use esp32_band_decoder.Relay.Task.{execute_relay_change, cool_down, finish_change}
use esp32_band_decoder.Relay.{Channel, Relay, update_ℤ}

pub eq_ℤ_refl : (a : ℤ) → eq_ℤ a a ≡ true
eq_ℤ_refl (pos n) = ground arith
eq_ℤ_refl (negsuc n) = ground arith

pub eq_ℤ→eq : (a b : ℤ) → eq_ℤ a b ≡ true → a ≡ b
eq_ℤ→eq a b h = ground arith

ne→eq_ℤ : (a b : ℤ) → a ≢ b → eq_ℤ a b ≡ false
ne→eq_ℤ a b h = ground arith

pub is_ok→ok : (e : Err) → is_ok e ≡ true → e ≡ ok
is_ok→ok e h = ground arith

module _ {C : Type 0} (channel : Channel C) where
  cool_down-SameRelays : (r : Relay C) → SameRelays r (cool_down channel r)
  unfolding cool_down
  cool_down-SameRelays r = ground arith

  SameRelays-trans : (r s t : Relay C) → SameRelays r s → SameRelays s t → SameRelays r t
  SameRelays-trans r s t h k = ground arith

  abbrev recorded : ℤ → ℤ → Relay C → Relay C
  recorded id band r = record r {
    last_selected_relay_for_band = update_ℤ r.last_selected_relay_for_band band (some id);
    last_band_change_time = channel.now r.tcp_client;
  }

  finish_change_done :
      (id band : ℤ) (a : Err × Relay C)
      → a.0 ≡ ok
      → (a.1).currently_selected_relay ≡ id
      → finish_change channel id band a ≡ (ok, recorded id band a.1)
  unfolding finish_change
  finish_change_done id band (e, r) got here = rw (got, here, eq_ℤ_refl, finish_change)

  finish_change_lost :
      (id band : ℤ) (a : Err × Relay C) → a.0 ≢ ok → finish_change channel id band a ≡ a
  unfolding finish_change
  finish_change_lost id band (e, r) lost = elim (Bool-cases (is_ok e)) [
    | inl got ↦ absurd (lost (ground arith))
    | inr h ↦ rw h
  ]

  recorded-Exclusive :
      (id band : ℤ) (r : Relay C) → Exclusive id r → Exclusive id (recorded id band r)
  recorded-Exclusive id band r x = record { selected = x.selected; only = x.only }

  -- A request for another relay than the selected one has the result of the switch command, so the
  -- last branch of the code is never taken. On success exactly that relay is on in the cached
  -- state and it is remembered for the band; on failure the cached relays are as they were.
  pub execute_relay_change_cases :
      (id band : ℤ) (r : Relay C)
      → id ≢ r.currently_selected_relay
      → let done = execute_relay_change channel id band r in
        let switched = turn_off_all_relays_except channel id (cool_down channel r) in
        (done.0 ≡ switched.0)
        × (done.0 ≡ ok
            → Exclusive id done.1 × ((done.1).last_selected_relay_for_band band ≡ some id))
        × (done.0 ≢ ok → SameRelays r done.1)
  unfolding execute_relay_change
  execute_relay_change_cases id band r other =
      let r1 = cool_down channel r in
      let a = turn_off_all_relays_except channel id r1 in
      let (won, failed) = turn_off_all_relays_except_cases channel id r1 in
      let differs : eq_ℤ id r.currently_selected_relay ≡ false =
        ne→eq_ℤ id r.currently_selected_relay other in
      elim (Bool-cases (is_ok a.0)) [
        | inl got ↦
            let done : a.0 ≡ ok = is_ok→ok a.0 got in
            let x = (won done).1 in
            rw (differs, finish_change_done id band a done x.selected)
              (
                sym done,
                (λ h. (recorded-Exclusive id band a.1 x, rw eq_ℤ_refl)),
                λ h. absurd (h refl),
              )
        | inr lost ↦
            let bad : a.0 ≢ ok = λ h. ground arith in
            rw (differs, finish_change_lost id band a bad)
              (
                refl,
                (λ h. absurd (bad h)),
                λ h. SameRelays-trans r r1 a.1 (cool_down-SameRelays r) (failed bad),
              )
      ]

  -- A request for the relay that is already selected succeeds: the connection and the relay map
  -- stay as they are, and the relay is remembered for the band.
  pub execute_relay_change_selected :
      (id band : ℤ) (r : Relay C)
      → id ≡ r.currently_selected_relay
      → let done = execute_relay_change channel id band r in
        (done.0 ≡ ok)
        × ((done.1).tcp_client ≡ r.tcp_client)
        × ((done.1).relay_states ≡ r.relay_states)
        × ((done.1).currently_selected_relay ≡ id)
        × ((done.1).last_selected_relay_for_band band ≡ some id)
  unfolding execute_relay_change
  execute_relay_change_selected id band r same =
      rw (same, eq_ℤ_refl) (refl, refl, refl, refl, rw eq_ℤ_refl)
