-- ===== src/AppMain/Restarts.antt =====
-- The policy of main/main.cpp on failed boots: the error handler against a machine whose state is
-- the number of boots that have failed.
use esp32_band_decoder.AppMain.{
  waiting, restarting, smartconfig_loop, error_handler, with_smartconfig,
}
use esp32_band_decoder.Base.{
  ℕ, zero, suc, ◌+◌, ◌%◌, ◌<◌, ◌≤◌, ◌≡◌, ◌⊎◌, inl, inr, refl, ◌∙◌, ap, true, Option, none, some,
  if◌then◌else◌, leb, arith, Bool-cases,
}
use esp32_band_decoder.Err.{Err, ok, fail}
use esp32_band_decoder.RestartManager.Counter.{
  failures, clear_restart_count-count, check_restart_count-count, store_error_state-count,
}
use esp32_band_decoder.RestartManager.{
  check_restart_count, clear_restart_count, store_error_state, max_restart_attempts,
}
use esp32_band_decoder.Storage.{KeepsCount}
use esp32_band_decoder.SystemInitializer.{Platform, Device, with_world}
use esp32_band_decoder.WifiManager.{is_connected, start_smartconfig}

-- The machine. A restart counts one more failure, of which the third is never followed by a
-- restart, or, when this happened, forgets them all.
pub data Move (Happened : Type 0) (n : ℕ) (m : ℕ) : Type 0 where
  retry : n + 1 < max_restart_attempts → m ≡ n + 1 → Move Happened n m
  provisioned : Happened → m ≡ 0 → Move Happened n m

few_ok : {n : ℕ} → n < max_restart_attempts → (if leb max_restart_attempts n then fail else ok) ≡ ok
few_ok h = ground arith

many_fail :
    {n : ℕ} → max_restart_attempts ≤ n → (if leb max_restart_attempts n then fail else ok) ≡ fail
many_fail h = ground arith

module _ {W S C : Type 0} (platform : Platform W S C) (keeps : KeepsCount platform.storage) where
  -- What the restart manager remembers.
  abbrev pub remembered : Device W S C → Option ℕ
  remembered d = keeps.count d.wifi.world

  -- While a task waits, nobody else touches the counter.
  abbrev pub IsUndisturbed : Type 0
  IsUndisturbed = (ms : ℕ) (d : Device W S C) → remembered (platform.others ms d) ≡ remembered d

  -- The restart after provisioning: the station of the device is connected, and a second after the
  -- counter is cleared this is left, with the counter at zero.
  pub record IsProvisioned (d : Device W S C) : Type 0 where
    pub device : Device W S C
    pub joined : is_connected device.wifi ≡ true
    pub cleared :
        d
        ≡ platform.others 1000
            (with_world platform (clear_restart_count platform.storage device.wifi.world) device)
    pub forgotten : remembered d ≡ some 0

  module _ (undisturbed : IsUndisturbed) where
    -- The loop only ends in a restart, with the station connected and the counter cleared; until then
    -- the counter stays.
    pub smartconfig_loop_cases :
        (ms rounds : ℕ) (d : Device W S C)
        → let o = smartconfig_loop platform ms rounds d in
          ((d' : Device W S C) × (o ≡ waiting d') × (remembered d' ≡ remembered d))
          ⊎ ((d' : Device W S C) × (o ≡ restarting d') × IsProvisioned d')
    unfolding smartconfig_loop
    smartconfig_loop_cases ms zero d = inl (d, refl, refl)
    smartconfig_loop_cases ms (suc rounds) d =
        let cleared = clear_restart_count platform.storage d.wifi.world in
        let d1 = with_world platform cleared d in
        let forgotten =
          undisturbed 1000 d1 ∙ clear_restart_count-count platform.storage keeps d.wifi.world in
        elim (Bool-cases (is_connected d.wifi)) [
          | inl joined ↦ rw joined (
              inr (
                platform.others 1000 d1,
                refl,
                record { device = d; joined = joined; cleared = refl; forgotten = forgotten },
              ))
          | inr alone ↦ rw alone (elim (smartconfig_loop_cases ms rounds (platform.others ms d)) [
            | inl (d', e, kept) ↦ inl (d', e, kept ∙ undisturbed ms d)
            | inr (d', e, kept) ↦ inr (d', e, kept)
          ])
        ]

    -- With a counter that works, on n failed boots so far: a boot that fails restarts after five
    -- seconds and counts one more, as long as that makes fewer than three; otherwise the device
    -- waits for SmartConfig with the number stored, and restarts only with the station connected and
    -- the counter cleared.
    pub error_handler_cases :
        (rounds : ℕ) (e : Err) (d : Device W S C)
        → let n = (failures (remembered d) + 1) % 256 in
          let o = error_handler platform rounds e none d in
          (n < max_restart_attempts
            → (d' : Device W S C) × (o ≡ restarting d') × (remembered d' ≡ some n))
          × (max_restart_attempts ≤ n
              → ((d' : Device W S C) × (o ≡ waiting d') × (remembered d' ≡ some n))
                ⊎ ((d' : Device W S C) × (o ≡ restarting d') × IsProvisioned d'))
    unfolding error_handler start_smartconfig
    error_handler_cases rounds e d =
        let stored = store_error_state platform.storage e d.wifi.world in
        let kept = store_error_state-count platform.storage keeps e d.wifi.world in
        let (said, counted) = check_restart_count-count platform.storage keeps stored in
        let d2 = with_world platform (check_restart_count platform.storage stored).1 d in
        let counted' = counted ∙ ap (λ c. some ((failures c + 1) % 256)) kept in
        let said' =
          said
          ∙ ap (λ c. if leb max_restart_attempts ((failures c + 1) % 256) then fail else ok) kept in
        (
          (λ few.
              rw (said' ∙ few_ok few)
                (platform.others 5000 d2, refl, undisturbed 5000 d2 ∙ counted')),
          λ many.
              rw (said' ∙ many_fail many)
                (elim (smartconfig_loop_cases 1000 rounds (with_smartconfig platform d2)) [
                  | inl (d', o, k) ↦ inl (d', o, k ∙ counted')
                  | inr again ↦ inr again
                ]),
        )
