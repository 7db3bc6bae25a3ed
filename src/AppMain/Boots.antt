-- ===== src/AppMain/Boots.antt =====
-- The whole of `app_main` against the machine of Restarts, and the restarts of several boots.
use mathlib.Core.Path.{subst}
use esp32_band_decoder.AppMain.Aborts.{Refused, initialize_full-aborts-kept, initialize_full-kept}
use esp32_band_decoder.AppMain.Quiet.{IsQuiet, initialize_basic-KeepsCounter, wait_for_wifi-kept}
use esp32_band_decoder.AppMain.Restarts.{
  IsProvisioned, Move, retry, provisioned, remembered, error_handler_cases, smartconfig_loop_cases,
}
use esp32_band_decoder.AppMain.{
  Outcome, aborted, dangling, running, waiting, restarting, smartconfig_handler, error_handler,
  start_full, start_network, app_main, with_smartconfig, wait_for_wifi,
}
use esp32_band_decoder.Base.{
  ℕ, ◌+◌, ◌%◌, ◌<◌, ◌≤◌, ◌≡◌, ◌⊎◌, inl, inr, refl, ◌∙◌, ap, true, false, none, Option, some, arith,
  Option-cases, Bool-cases, ltb,
}
use esp32_band_decoder.Err.{Err, timeout, is_ok}
use esp32_band_decoder.RestartManager.Counter.{failures}
use esp32_band_decoder.RestartManager.{max_restart_attempts}
use esp32_band_decoder.Storage.{KeepsCount}
use esp32_band_decoder.SystemInitializer.Full.{relay_controller_out-result}
use esp32_band_decoder.SystemInitializer.{Platform, Device, initialize_basic, initialize_full}
use esp32_band_decoder.WifiManager.{is_connected, is_in_smartconfig_mode, start_smartconfig}

Move-lt : {P : Type 0} {n m : ℕ} → Move P n m → m < 255
Move-lt (retry h e) = omega arith
Move-lt (provisioned p e) = omega arith

-- Three moves in a row are not all retries.
Move-three : {P Q R : Type 0} {a b c d : ℕ} → Move P a b → Move Q b c → Move R c d → P ⊎ (Q ⊎ R)
Move-three (provisioned p e) m1 m2 = inl p
Move-three (retry h e) (provisioned p e1) m2 = inr (inl p)
Move-three (retry h e) (retry h1 e1) (provisioned p e2) = inr (inr p)
Move-three (retry h e) (retry h1 e1) (retry h2 e2) = absurd (omega arith)

module _ {W S C : Type 0} (platform : Platform W S C) (keeps : KeepsCount platform.storage) where
  -- The basic initialisation succeeds and leaves the station without a connection and in SmartConfig
  -- mode, in which no saved credentials are in use.
  pub record IsUnprovisioned (b : Device W S C) : Type 0 where
    pub result : Err
    pub device : Device W S C
    pub basic : initialize_basic platform b ≡ some (result, device)
    pub succeeds : is_ok result ≡ true
    pub alone : is_connected device.wifi ≡ false
    pub no_credentials : is_in_smartconfig_mode device.wifi ≡ true

  -- What the machine allows for a boot of this device. A boot that comes up leaves the counter as it
  -- was, one that restarts makes a move, and one that waits for SmartConfig uses no saved
  -- credentials or has failed too often. An abort is one of the UART driver, with the counter as it was.
  abbrev pub IsAllowed : Device W S C → Outcome (Device W S C) → Type 0
  IsAllowed b aborted = Refused platform keeps (remembered platform keeps b)
  IsAllowed b (dangling d) = ⊥
  IsAllowed b (running d) = remembered platform keeps d ≡ remembered platform keeps b
  IsAllowed b (waiting d) =
      ((remembered platform keeps d ≡ remembered platform keeps b) × IsUnprovisioned b)
      ⊎ ((remembered platform keeps d ≡ some (failures (remembered platform keeps b) + 1))
          × (max_restart_attempts ≤ failures (remembered platform keeps b) + 1))
  IsAllowed b (restarting d) =
      Move (IsProvisioned platform keeps d) (failures (remembered platform keeps b))
        (failures (remembered platform keeps d))

  split : (n : ℕ) → (n < max_restart_attempts) ⊎ (max_restart_attempts ≤ n)
  split n = elim (Bool-cases (ltb n max_restart_attempts)) [
    | inl small ↦ inl (ground arith)
    | inr large ↦ inr (ground arith)
  ]

  mod_small : (n : ℕ) → n < 255 → (n + 1) % 256 ≡ n + 1
  mod_small n h = omega arith

  -- A restart after provisioning, from any counter.
  forget :
      (d : Device W S C) (n : ℕ)
      → IsProvisioned platform keeps d
      → Move (IsProvisioned platform keeps d) n (failures (remembered platform keeps d))
  forget d n h = provisioned h (ap failures h.forgotten)

  module _ (quiet : IsQuiet platform keeps) (b : Device W S C) where
    abbrev Same : Device W S C → Type 0
    Same d = remembered platform keeps d ≡ remembered platform keeps b

    abbrev IsFew : Type 0
    IsFew = failures (remembered platform keeps b) < 255

    error_handler-IsAllowed :
        (rounds : ℕ) (e : Err) (d : Device W S C)
        → Same d
        → IsFew
        → IsAllowed b (error_handler platform rounds e none d)
    error_handler-IsAllowed rounds e d same h =
        let n = failures (remembered platform keeps b) in
        let small = mod_small n h in
        let counted : (failures (remembered platform keeps d) + 1) % 256 ≡ n + 1 =
          ap (λ c. (failures c + 1) % 256) same ∙ small in
        let (few, many) = error_handler_cases platform keeps quiet.undisturbed rounds e d in
        elim (split (n + 1)) [
          | inl less ↦ let (d', o, k) = few (rw counted less) in rw (o, k) (retry less counted)
          | inr more ↦ elim (many (rw counted more)) [
            | inl (d', o, k) ↦ rw o (inr (k ∙ ap some counted, more))
            | inr (d', o, k) ↦ rw o (forget d' n k)
          ]
        ]

    smartconfig_handler-IsAllowed :
        (rounds : ℕ) (d : Device W S C)
        → Same d
        → IsUnprovisioned b
        → IsAllowed b (smartconfig_handler platform rounds d)
    unfolding smartconfig_handler start_smartconfig
    smartconfig_handler-IsAllowed rounds d same none_saved =
        elim (smartconfig_loop_cases platform keeps quiet.undisturbed 100 rounds
          (with_smartconfig platform d)) [
            | inl (d', o, k) ↦ rw o (inl (k ∙ same, none_saved))
            | inr (d', o, k) ↦ rw o (forget d' (failures (remembered platform keeps b)) k)
          ]

    start_full-IsAllowed :
        (rounds : ℕ) (d : Device W S C)
        → Same d
        → IsFew
        → IsAllowed b (start_full platform rounds d)
    unfolding start_full
    start_full-IsAllowed rounds d same h = elim (Option-cases (initialize_full platform d)) [
      | inl gone ↦
          let (c, w, refused, kept) = initialize_full-aborts-kept platform keeps quiet d gone in
          rw (gone, start_full) (c, w, refused, kept ∙ same)
      | inr (booted, e) ↦
          let same' = initialize_full-kept platform keeps quiet d booted e ∙ same in
          elim (Bool-cases (is_ok booted.result)) [
            | inl good ↦ rw (e, good, start_full) same'
            | inr bad ↦
                rw (e, bad, relay_controller_out-result platform d booted e bad, start_full)
                  (error_handler-IsAllowed rounds booted.result booted.device same' h)
          ]
    ]

    start_network-IsAllowed :
        (rounds : ℕ) (e : Err) (d : Device W S C)
        → initialize_basic platform b ≡ some (e, d)
        → is_ok e ≡ true
        → Same d
        → IsFew
        → IsAllowed b (start_network platform rounds d)
    unfolding start_network
    start_network-IsAllowed rounds e d done good same h =
        let later = wait_for_wifi platform 300 d in
        let same' = wait_for_wifi-kept platform keeps quiet 300 d ∙ same in
        elim (Bool-cases (is_connected d.wifi)) [
          | inl joined ↦ rw joined (start_full-IsAllowed rounds d same h)
          | inr alone ↦ elim (Bool-cases (is_in_smartconfig_mode d.wifi)) [
            | inl asked ↦
                rw (alone, asked)
                  (smartconfig_handler-IsAllowed rounds d same (record {
                    result = e;
                    device = d;
                    basic = done;
                    succeeds = good;
                    alone = alone;
                    no_credentials = asked;
                  }))
            | inr saved ↦ elim (Bool-cases (is_connected later.wifi)) [
              | inl joined ↦ rw (alone, saved, joined) (start_full-IsAllowed rounds later same' h)
              | inr late ↦
                  rw (alone, saved, late) (error_handler-IsAllowed rounds timeout later same' h)
            ]
          ]
        ]

    -- With a restart counter that works and that the drivers and the other tasks leave alone, on
    -- flash that need not be erased, and with fewer than 255 failed boots so far, `app_main` does
    -- what the machine allows. It comes up with the counter as it was; or restarts, with one more
    -- failure counted while that makes fewer than three, or with the counter cleared after the
    -- station is connected; or waits for SmartConfig, which it does after a third failure, or without
    -- one when the basic initialisation leaves the station unconnected and no saved credentials in use.
    -- Its own calls abort only when one of the UART driver fails, and that failure is not counted. It
    -- never deletes a controller that the antenna switch owns.
    pub app_main-IsAllowed :
        (rounds : ℕ)
        → failures (remembered platform keeps b) < 255
        → IsAllowed b (app_main platform rounds b)
    unfolding app_main
    app_main-IsAllowed rounds h =
        let (e, d', done, same) = (initialize_basic-KeepsCounter platform keeps quiet).kept b in
        elim (Bool-cases (is_ok e)) [
          | inl good ↦
              rw (done, good, app_main) (start_network-IsAllowed rounds e d' done good same h)
          | inr bad ↦ rw (done, bad, app_main) (error_handler-IsAllowed rounds e d' same h)
        ]

    restarting-Move :
        (rounds : ℕ) (d : Device W S C) (c : Option ℕ)
        → remembered platform keeps b ≡ c
        → failures c < 255
        → app_main platform rounds b ≡ restarting d
        → Move
            (IsProvisioned platform keeps d)
            (failures c)
            (failures (remembered platform keeps d))
    restarting-Move rounds d c k h e =
        subst
          (λ n.
            Move (IsProvisioned platform keeps d) (failures n)
              (failures (remembered platform keeps d)))
          k (subst (IsAllowed b) e (app_main-IsAllowed rounds (rw k h)))

  -- With a restart counter that works and that the drivers and the other tasks leave alone, on flash
  -- that need not be erased, and with fewer than 255 failed boots so far: of three restarts in a row,
  -- each boot from the counter that the restart before left, at least one came after provisioning, in
  -- which the station was connected, the counter was then cleared, and one second passed.
  pub restarts_bounded :
      (quiet : IsQuiet platform keeps) (r0 r1 r2 : ℕ) (b0 b1 b2 d0 d1 d2 : Device W S C)
      → failures (remembered platform keeps b0) < 255
      → app_main platform r0 b0 ≡ restarting d0
      → remembered platform keeps b1 ≡ remembered platform keeps d0
      → app_main platform r1 b1 ≡ restarting d1
      → remembered platform keeps b2 ≡ remembered platform keeps d1
      → app_main platform r2 b2 ≡ restarting d2
      → IsProvisioned platform keeps d0
        ⊎ (IsProvisioned platform keeps d1 ⊎ IsProvisioned platform keeps d2)
  restarts_bounded quiet r0 r1 r2 b0 b1 b2 d0 d1 d2 h e0 k1 e1 k2 e2 =
      let m0 = restarting-Move quiet b0 r0 d0 _ refl h e0 in
      let m1 = restarting-Move quiet b1 r1 d1 (remembered platform keeps d0) k1 (Move-lt m0) e1 in
      let m2 = restarting-Move quiet b2 r2 d2 (remembered platform keeps d1) k2 (Move-lt m1) e2 in
      Move-three m0 m1 m2
