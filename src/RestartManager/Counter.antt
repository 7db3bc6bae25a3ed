-- ===== src/RestartManager/Counter.antt =====
-- The counter as a number: what the three operations do to it on flash that works.
use esp32_band_decoder.Base.{
  ℕ, ◌+◌, ◌%◌, ◌≡◌, ◌≢◌, refl, ◌∙◌, Option, none, some, leb, if◌then◌else◌, arith, Option-cases,
  inl, inr,
}
use esp32_band_decoder.Err.{Err, ok, fail}
use esp32_band_decoder.RestartManager.{
  check_restart_count, clear_restart_count, store_error_state, max_restart_attempts,
}
use esp32_band_decoder.Storage.{Storage, read_write, restart_cnt, last_error, KeepsCount}

-- The failed boots that flash remembers: none before the first.
abbrev pub failures : Option ℕ → ℕ
failures none = 0
failures (some n) = n

last_error-ne-restart_cnt : last_error ≢ restart_cnt
last_error-ne-restart_cnt h = cc

module _ {W : Type 0} (storage : Storage W) (keeps : KeepsCount storage) where
  pub clear_restart_count-count : (w : W) → keeps.count (clear_restart_count storage w) ≡ some 0
  unfolding clear_restart_count
  clear_restart_count-count w = rw (keeps.opens read_write w) (
      keeps.committed (storage.nvs_set_u8 restart_cnt 0 (storage.nvs_open read_write w).1).1
      ∙ keeps.set 0 (storage.nvs_open read_write w).1)

  pub store_error_state-count :
      (e : Err) (w : W) → keeps.count (store_error_state storage e w) ≡ keeps.count w
  unfolding store_error_state
  store_error_state-count e w =
      let opened = (storage.nvs_open read_write w).1 in
      rw (keeps.opens read_write w) (
        keeps.committed (storage.nvs_set_i32 last_error e opened).1
        ∙ keeps.set_error last_error e opened last_error-ne-restart_cnt
        ∙ keeps.opened read_write w)

  pub check_restart_count-count :
      (w : W)
      → let n = (failures (keeps.count w) + 1) % 256 in
        ((check_restart_count storage w).0 ≡ (if leb max_restart_attempts n then fail else ok))
        × (keeps.count (check_restart_count storage w).1 ≡ some n)
  unfolding check_restart_count
  check_restart_count-count w =
      let opened = (storage.nvs_open read_write w).1 in
      let kept = keeps.opened read_write w in
      let got = keeps.get 0 opened in
      elim (Option-cases (keeps.count w)) [
        | inl missing ↦
            let set = storage.nvs_set_u8 restart_cnt 1 opened in
            rw (keeps.opens read_write w, got, kept, missing, check_restart_count)
              (rw (keeps.sets 1 opened, check_restart_count)
                (refl, keeps.committed set.1 ∙ keeps.set 1 opened))
        | inr (n, stored) ↦
            let k = (n + 1) % 256 in
            let set = storage.nvs_set_u8 restart_cnt k opened in
            let said = keeps.committed set.1 ∙ keeps.set k opened in
            rw (keeps.opens read_write w, got, kept, stored, check_restart_count)
              (rw (keeps.sets k opened, check_restart_count) (ground arith, ground (arith, said)))
      ]
