-- ===== src/CatParser/Commands.antt =====
-- `process_command`: the text is a row of commands, and each is carried out once, in order.
use esp32_band_decoder.Base.{
  ℕ, zero, suc, ◌≤◌, ◌≡◌, refl, true, false, List, [], ◌∷◌, Option, none, some, ◌==◌, inl, inr,
  if◌then◌else◌, length, arith, Bool-cases, Option-cases,
}
use esp32_band_decoder.CatParser.{
  System, cut, next_command, process_one, process_loop, process_command,
}
use esp32_band_decoder.ConfigManager.{Nvs}
use esp32_band_decoder.Err.{Err, ok, is_ok}
use esp32_band_decoder.Text.{Bytes, c_str}

abbrev onto_first : ℕ → List Bytes → List Bytes
onto_first c [] = (c ∷ []) ∷ []
onto_first c (x ∷ xs) = (c ∷ x) ∷ xs

-- The commands of a text: what stands between semicolons.
pub commands : Bytes → List Bytes
commands [] = []
commands (c ∷ cs) = if c == b';' then [] ∷ commands cs else onto_first c (commands cs)

module _ {S C : Type 0} (nvs : Nvs S) where
  -- One command after the other, up to the first that fails.
  unfoldable pub run_commands : List Bytes → System S C → Option (Err × System S C)
  run_commands [] s = some (ok, s)
  run_commands (cmd ∷ cmds) s = elim (process_one nvs cmd s) [
    | none ↦ none
    | some (e, s') ↦ elim (is_ok e) [ true ↦ run_commands cmds s' | false ↦ some (e, s') ]
  ]

commands-nil : commands [] ≡ []
unfolding commands
commands-nil = refl

-- The loop's next command is the first of these, and what is left has the others.
commands-next :
    (c : ℕ) (cs : Bytes)
    → commands (c ∷ cs) ≡ (next_command (c ∷ cs)).0 ∷ commands (next_command (c ∷ cs)).1
unfolding commands cut
commands-next c [] = ground arith
commands-next c (d ∷ ds) = ground (arith, commands-next d ds)

cut-length : (text : Bytes) {a b : Bytes} → cut text ≡ some (a, b) → suc (length b) ≤ length text
unfolding cut
cut-length [] h = cc
cut-length (c ∷ cs) h = elim (Option-cases (cut cs)) [
  | inl e ↦ ground arith
  | inr ((x, y), e) ↦ ground (arith, cut-length cs e)
]

next_command-length : (c : ℕ) (cs : Bytes) → length (next_command (c ∷ cs)).1 ≤ length cs
next_command-length c cs = elim (Option-cases (cut (c ∷ cs))) [
  | inl e ↦ rw (e, next_command) (omega arith)
  | inr ((x, y), e) ↦ rw (e, next_command) (omega (arith, cut-length (c ∷ cs) e))
]

module _ {S C : Type 0} (nvs : Nvs S) where
  loop-run :
      (fuel : ℕ) (text : Bytes) (s : System S C)
      → length text ≤ fuel
      → process_loop nvs fuel text s ≡ run_commands nvs (commands text) s
  unfolding process_loop run_commands
  loop-run zero [] s h = rw (commands-nil, run_commands)
  loop-run zero (c ∷ cs) s h = absurd (omega arith)
  loop-run (suc fuel) [] s h = rw (commands-nil, run_commands)
  loop-run (suc fuel) (c ∷ cs) s h =
      let next = next_command (c ∷ cs) in
      let ih =
        λ (s' : System S C). loop-run fuel next.1 s' (omega (arith, next_command-length c cs)) in
      rw (commands-next c cs, run_commands)
        (elim (Option-cases (process_one nvs next.0 s)) [
          | inl stuck ↦ rw (stuck, process_loop, run_commands)
          | inr ((e, s'), ran) ↦
              rw (ran, process_loop, run_commands)
                (elim (Bool-cases (is_ok e)) [
                  | inl good ↦ rw (good, run_commands) (ih s')
                  | inr bad ↦ rw (bad, run_commands)
                ])
        ])

  -- `process_command` carries out what stands between the semicolons of its text, whatever its
  -- length: each command once and in order, up to the first that fails.
  pub process_command-commands :
      (command : Bytes) (s : System S C)
      → process_command nvs (some command) s ≡ run_commands nvs (commands (c_str command)) s
  unfolding process_command
  process_command-commands command s =
      loop-run (length (c_str command)) (c_str command) s (omega arith)
