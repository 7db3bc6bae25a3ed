-- ===== src/CatParser/Validity.antt =====
-- Across the CAT parser, the antenna switch and the configuration manager: commands keep the
-- configuration valid.
use esp32_band_decoder.AntennaSwitch.{Switch, set_frequency, set_config, get_config}
use esp32_band_decoder.Base.{
  ℕ, ◌%◌, ◌≡◌, sym, ◌∙◌, ap, List, [], ◌∷◌, some, arith, inl, inr, Bool-cases, Option-cases, drop,
  ◌⊎◌,
}
use esp32_band_decoder.CatParser.Commands.{commands, run_commands, process_command-commands}
use esp32_band_decoder.CatParser.{
  System, read_ulong, handle_frequency_change, process_fa_command, process_if_command,
  process_ap_command, dispatch, process_one, process_command,
}
use esp32_band_decoder.Config.{Config, IsValid}
use esp32_band_decoder.ConfigManager.Update.{update_config-IsValid}
use esp32_band_decoder.ConfigManager.{ConfigManager, Nvs}
use esp32_band_decoder.Err.{Err, ok, is_ok}
use esp32_band_decoder.Text.{Bytes, c_str}

IsValid-eq :
    {S : Type 0} (m n : ConfigManager S)
    → n ≡ m
    → IsValid m.current_config
    → IsValid n.current_config
IsValid-eq m n e v = rw e v

module _ {S C : Type 0} where
  set_frequency-manager :
      (freq : ℕ) (sw : Switch S C) {e : Err} {sw' : Switch S C}
      → set_frequency freq sw ≡ some (e, sw')
      → sw'.manager ≡ sw.manager
  unfolding set_frequency
  set_frequency-manager freq sw h = ground arith

  handle_frequency_change-manager :
      (freq : ℕ) (s : System S C) {e : Err} {s' : System S C}
      → handle_frequency_change freq s ≡ some (e, s')
      → (s'.switch).manager ≡ (s.switch).manager
  unfolding handle_frequency_change
  handle_frequency_change-manager freq s h = elim (Option-cases (set_frequency freq s.switch)) [
    | inl stuck ↦ ground arith
    | inr ((e1, sw1), ran) ↦ ground (arith, set_frequency-manager freq s.switch ran)
  ]

  process_fa_command-manager :
      (command : Bytes) (s : System S C) {e : Err} {s' : System S C}
      → process_fa_command command s ≡ some (e, s')
      → (s'.switch).manager ≡ (s.switch).manager
  unfolding process_fa_command
  process_fa_command-manager command s h = grind (arith, handle_frequency_change-manager)

  process_if_command-manager :
      (command : Bytes) (s : System S C) {e : Err} {s' : System S C}
      → process_if_command command s ≡ some (e, s')
      → (s'.switch).manager ≡ (s.switch).manager
  unfolding process_if_command
  process_if_command-manager command s h = grind (arith, handle_frequency_change-manager)

  module _ (nvs : Nvs S) where
    process_ap_command-IsValid :
        (command : Bytes) (s : System S C) {e : Err} {s' : System S C}
        → IsValid s.switch.manager.current_config
        → process_ap_command nvs command s ≡ some (e, s')
        → IsValid s'.switch.manager.current_config
    unfolding process_ap_command set_config
    process_ap_command-IsValid command s v h = elim (Option-cases (read_ulong command)) [
      | inl bad ↦ ground arith
      | inr (ports, read) ↦
          let config : Config = record (get_config s.switch) { num_antenna_ports = ports % 256 } in
          ground (arith, update_config-IsValid nvs config s.switch.manager v)
    ]

    process_one_cases :
        (cmd : Bytes) (s : System S C)
        → (process_one nvs cmd s ≡ process_fa_command (drop 2 cmd) s)
          ⊎ ((process_one nvs cmd s ≡ process_ap_command nvs (drop 2 cmd) s)
              ⊎ ((process_one nvs cmd s ≡ process_if_command (drop 2 cmd) s)
                  ⊎ (process_one nvs cmd s ≡ some (ok, s))))
    unfolding process_one dispatch
    process_one_cases cmd s = ground arith

    process_one-IsValid :
        (cmd : Bytes) (s : System S C) {e : Err} {s' : System S C}
        → IsValid s.switch.manager.current_config
        → process_one nvs cmd s ≡ some (e, s')
        → IsValid s'.switch.manager.current_config
    process_one-IsValid cmd s {s' = t} v h = elim (process_one_cases cmd s) [
      | inl fa ↦
          IsValid-eq s.switch.manager t.switch.manager
            (process_fa_command-manager (drop 2 cmd) s (sym fa ∙ h)) v
      | inr (inl ap) ↦ process_ap_command-IsValid (drop 2 cmd) s v (sym ap ∙ h)
      | inr (inr (inl if_)) ↦
          IsValid-eq s.switch.manager t.switch.manager
            (process_if_command-manager (drop 2 cmd) s (sym if_ ∙ h)) v
      | inr (inr (inr skipped)) ↦ let same = sym skipped ∙ h in ground arith
    ]

    run_commands-IsValid :
        (cmds : List Bytes) (s : System S C) {e : Err} {s' : System S C}
        → IsValid s.switch.manager.current_config
        → run_commands nvs cmds s ≡ some (e, s')
        → IsValid s'.switch.manager.current_config
    unfolding run_commands
    run_commands-IsValid [] s v h = ground arith
    run_commands-IsValid (cmd ∷ cmds) s v h = elim (Option-cases (process_one nvs cmd s)) [
      | inl stuck ↦ let lost = rw (stuck, run_commands) at h in cc
      | inr ((e1, s1), ran) ↦
          let valid = process_one-IsValid cmd s v ran in
          elim (Bool-cases (is_ok e1)) [
            | inl good ↦
                run_commands-IsValid cmds s1 valid
                  (rw (good, run_commands) at (rw (ran, run_commands) at h))
            | inr bad ↦
                let ended = rw (bad, run_commands) at (rw (ran, run_commands) at h) in
                ground (arith, valid)
          ]
    ]

    -- Whatever text `process_command` is given and whatever NVS answers, a valid configuration is
    -- still valid afterwards, when the call returns.
    pub process_command-IsValid :
        (command : Bytes) (s : System S C) {e : Err} {s' : System S C}
        → IsValid s.switch.manager.current_config
        → process_command nvs (some command) s ≡ some (e, s')
        → IsValid s'.switch.manager.current_config
    process_command-IsValid command s v h =
        run_commands-IsValid (commands (c_str command)) s v
          (sym (process_command-commands nvs command s) ∙ h)
