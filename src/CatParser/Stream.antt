-- ===== src/CatParser/Stream.antt =====
-- The framing of the UART stream: how the bytes arrive does not matter.
use mathlib.Core.List.{append-nil, append_assoc}
use esp32_band_decoder.Base.{
  ℕ, zero, suc, ◌≤◌, ◌≡◌, refl, sym, ap, ◌∙◌, true, false, List, [], ◌∷◌, ◌++◌, Option, none, some,
  ◌==◌, inl, inr, length, length-append, arith, Bool-cases, Option-cases,
}
use esp32_band_decoder.CatParser.{System, cut, drain, uart_dispatch, uart_data}
use esp32_band_decoder.Text.CStrings.{NoNul, c_str-NoNul}
use esp32_band_decoder.Text.{Bytes}

module _ {S C : Type 0} where
  -- The stream read one byte at a time: a semicolon ends the command that was collected.
  pub scan : Bytes → Bytes → System S C → Option (Bytes × System S C)
  scan acc [] s = some (acc, s)
  scan acc (c ∷ cs) s = elim (c == b';') [
    | true ↦ elim (uart_dispatch acc s) [ none ↦ none | some s' ↦ scan [] cs s' ]
    | false ↦ scan (acc ++ c ∷ []) cs s
  ]

  abbrev pub then_scan : Option (Bytes × System S C) → Bytes → Option (Bytes × System S C)
  then_scan none more = none
  then_scan (some (acc, s)) more = scan acc more s

  pub scan-append :
      (acc xs ys : Bytes) (s : System S C) → scan acc (xs ++ ys) s ≡ then_scan (scan acc xs s) ys
  unfolding scan
  scan-append acc [] ys s = refl
  scan-append acc (c ∷ cs) ys s = elim (Bool-cases (c == b';')) [
    | inl hit ↦ elim (Option-cases (uart_dispatch acc s)) [
      | inl stuck ↦ rw (hit, scan) (rw (stuck, scan))
      | inr (s', ran) ↦ rw (hit, scan) (rw (ran, scan) (scan-append [] cs ys s'))
    ]
    | inr miss ↦ rw (miss, scan) (scan-append (acc ++ c ∷ []) cs ys s)
  ]

-- No semicolon stands in the text.
abbrev pub NoEnd : Bytes → Type 0
NoEnd [] = Unit {0}
NoEnd (c ∷ cs) = ((c == b';') ≡ false) × NoEnd cs

cut-NoEnd : (acc : Bytes) → NoEnd acc → cut acc ≡ none
unfolding cut
cut-NoEnd [] h = refl
cut-NoEnd (c ∷ cs) h = ground (arith, cut-NoEnd cs h.1)

cut-append : (acc rest : Bytes) → NoEnd acc → cut (acc ++ b';' ∷ rest) ≡ some (acc, rest)
unfolding cut
cut-append [] rest h = refl
cut-append (c ∷ cs) rest h = ground (arith, cut-append cs rest h.1)

NoEnd-append : (xs ys : Bytes) → NoEnd xs → NoEnd ys → NoEnd (xs ++ ys)
NoEnd-append [] ys h k = k
NoEnd-append (x ∷ xs) ys h k = (h.0, NoEnd-append xs ys h.1 k)

is_end : (c : ℕ) → (c == b';') ≡ true → c ≡ b';'
is_end c h = ground arith

abbrev pub AllNoNul : List Bytes → Type 0
AllNoNul [] = Unit {0}
AllNoNul (b ∷ bs) = NoNul b × AllNoNul bs

abbrev pub joined : List Bytes → Bytes
joined [] = []
joined (b ∷ bs) = b ++ joined bs

module _ {S C : Type 0} where
  -- The loop over the accumulator, with the fuel that it is given, is the scan of the new bytes.
  drain-scan :
      (fuel : ℕ) (acc xs : Bytes) (s : System S C)
      → NoEnd acc
      → length xs ≤ fuel
      → drain fuel (acc ++ xs) s ≡ scan acc xs s
  unfolding drain scan
  drain-scan zero acc [] s h lt = rw append-nil
  drain-scan (suc fuel) acc [] s h lt = rw append-nil (rw (cut-NoEnd acc h, drain))
  drain-scan zero acc (c ∷ cs) s h lt = absurd (omega arith)
  drain-scan (suc fuel) acc (c ∷ cs) s h lt = elim (Bool-cases (c == b';')) [
    | inl hit ↦ elim (Option-cases (uart_dispatch acc s)) [
      | inl stuck ↦ rw (is_end c hit) (rw (cut-append acc cs h, drain) (rw (stuck, drain, scan)))
      | inr (s', ran) ↦ rw (is_end c hit) (
          rw (cut-append acc cs h, drain)
            (rw (ran, drain, scan) (drain-scan fuel [] cs s' tt (omega arith))))
    ]
    | inr miss ↦
        rw (miss, scan)
          (rw (← append_assoc acc (c ∷ []) cs) (
            drain-scan (suc fuel) (acc ++ c ∷ []) cs s (NoEnd-append acc _ h (miss, tt))
              (omega arith)))
  ]

  uart_data-scan :
      (buffer acc : Bytes) (s : System S C)
      → NoEnd acc
      → NoNul buffer
      → uart_data buffer acc s ≡ scan acc buffer s
  unfolding uart_data
  uart_data-scan buffer acc s h nul =
      rw (c_str-NoNul buffer nul) (
        drain-scan (length (acc ++ buffer)) acc buffer s h
          (omega (arith, length-append acc buffer)))

  -- What is left in the accumulator is an unfinished command.
  scan-NoEnd :
      (acc xs : Bytes) (s : System S C) {acc' : Bytes} {s' : System S C}
      → NoEnd acc
      → scan acc xs s ≡ some (acc', s')
      → NoEnd acc'
  unfolding scan
  scan-NoEnd acc [] s {acc'} h e = let kept : acc ≡ acc' = cc in rw kept at h
  scan-NoEnd acc (c ∷ cs) s h e = elim (Bool-cases (c == b';')) [
    | inl hit ↦ elim (Option-cases (uart_dispatch acc s)) [
      | inl stuck ↦ let lost = rw (stuck, scan) at (rw (hit, scan) at e) in cc
      | inr (s1, ran) ↦ scan-NoEnd [] cs s1 tt (rw (ran, scan) at (rw (hit, scan) at e))
    ]
    | inr miss ↦
        scan-NoEnd (acc ++ c ∷ []) cs s (NoEnd-append acc _ h (miss, tt)) (rw (miss, scan) at e)
  ]

  -- The task's loop over the reads that the driver hands it.
  pub uart_reads : List Bytes → Bytes → System S C → Option (Bytes × System S C)
  uart_reads [] acc s = some (acc, s)
  uart_reads (b ∷ bs) acc s = elim (uart_data b acc s) [
    | none ↦ none
    | some (acc', s') ↦ uart_reads bs acc' s'
  ]

  pub uart_reads-scan :
      (bs : List Bytes) (acc : Bytes) (s : System S C)
      → NoEnd acc
      → AllNoNul bs
      → uart_reads bs acc s ≡ scan acc (joined bs) s
  unfolding uart_reads scan
  uart_reads-scan [] acc s h nul = refl
  uart_reads-scan (b ∷ bs) acc s h nul = elim (Option-cases (scan acc b s)) [
    | inl stuck ↦
        let first = uart_data-scan b acc s h nul.0 ∙ stuck in
        rw (first, uart_reads) (sym (rw stuck at (scan-append acc b (joined bs) s)))
    | inr ((acc', s'), ran) ↦
        let first = uart_data-scan b acc s h nul.0 ∙ ran in
        let rest = uart_reads-scan bs acc' s' (scan-NoEnd acc b s h ran) nul.1 in
        rw (first, uart_reads) (rest ∙ sym (rw ran at (scan-append acc b (joined bs) s)))
  ]

  -- Two ways to cut the same bytes, none of them NUL, into reads have the same outcome from the
  -- same unfinished command: the same commands are carried out, in the same order, and the same
  -- unfinished command is left.
  pub uart_reads-joined :
      (bs cs : List Bytes) (acc : Bytes) (s : System S C)
      → NoEnd acc
      → AllNoNul bs
      → AllNoNul cs
      → joined bs ≡ joined cs
      → uart_reads bs acc s ≡ uart_reads cs acc s
  uart_reads-joined bs cs acc s h nb nc e =
      uart_reads-scan bs acc s h nb
      ∙ ap (λ xs. scan acc xs s) e
      ∙ sym (uart_reads-scan cs acc s h nc)
