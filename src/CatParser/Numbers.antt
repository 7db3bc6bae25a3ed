-- ===== src/CatParser/Numbers.antt =====
-- The frequency field of FA and IF: what is read from decimal digits, and from nothing.
use esp32_band_decoder.Base.{
  ℕ, ◌+◌, ◌-◌, ◌*◌, ◌≡◌, refl, true, [], ◌∷◌, some, min, arith, ap, take, get_or, ◌==◌, ◌++◌,
  length, suc, zero, ◌<◌, ◌≤◌,
}
use esp32_band_decoder.CatParser.{
  System, read_ulong, mode_name, process_fa_command, process_if_command, handle_frequency_change,
}
use esp32_band_decoder.Err.{ok}
use esp32_band_decoder.Text.{
  Bytes, c_str, strtoul, read_digits, read_sign, skip_space, is_digit, ulong_max,
}

abbrev pub AllDigits : Bytes → Type 0
AllDigits [] = Unit {0}
AllDigits (c ∷ cs) = (is_digit c ≡ true) × AllDigits cs

-- The number that a row of digits stands for, most significant first.
unfoldable pub value_from : ℕ → Bytes → ℕ
value_from acc [] = acc
value_from acc (c ∷ cs) = value_from (acc * 10 + (c - b'0')) cs

read_digits-all :
    (acc : ℕ) (ds : Bytes) → AllDigits ds → read_digits acc ds ≡ (value_from acc ds, [])
unfolding read_digits value_from
read_digits-all acc [] h = refl
read_digits-all acc (c ∷ cs) h = ground (arith, read_digits-all (acc * 10 + (c - b'0')) cs h.1)

c_str-digits : (ds : Bytes) → AllDigits ds → c_str ds ≡ ds
unfolding c_str
c_str-digits [] h = refl
c_str-digits (c ∷ cs) h = ground (arith, c_str-digits cs h.1)

strtoul-digits :
    (c : ℕ) (cs : Bytes)
    → AllDigits (c ∷ cs)
    → strtoul (c ∷ cs) ≡ (min (value_from 0 (c ∷ cs)) ulong_max, [])
unfolding strtoul skip_space read_sign
strtoul-digits c cs h = ground (arith, read_digits-all 0 (c ∷ cs) h)

read_ulong-nil : read_ulong [] ≡ some (min (value_from 0 []) ulong_max)
unfolding read_ulong c_str strtoul value_from
read_ulong-nil = refl

-- A field of decimal digits is read as the number it stands for, however many leading zeros it
-- has; what does not fit 32 bits is read as the largest number that does. An empty field reads as 0.
pub read_ulong-digits :
    (ds : Bytes) → AllDigits ds → read_ulong ds ≡ some (min (value_from 0 ds) ulong_max)
unfolding read_ulong
read_ulong-digits [] h = read_ulong-nil
read_ulong-digits (c ∷ cs) h = rw (c_str-digits (c ∷ cs) h, read_ulong) (rw (strtoul-digits c cs h))

module _ {S C : Type 0} where
  -- FA with a field of decimal digits does what a change to the frequency that the field stands
  -- for does, or to the largest 32-bit number for one that is larger.
  pub process_fa_command-digits :
      (ds : Bytes) (s : System S C)
      → AllDigits ds
      → process_fa_command ds s ≡ handle_frequency_change (min (value_from 0 ds) ulong_max) s
  unfolding process_fa_command
  process_fa_command-digits ds s h = rw (read_ulong-digits ds h, process_fa_command)

  -- An FA answer with no digits sets the frequency 0.
  pub process_fa_command-nil :
      (s : System S C) → process_fa_command [] s ≡ handle_frequency_change 0 s
  unfolding process_fa_command
  process_fa_command-nil s = rw (read_ulong-nil, process_fa_command) (unfold value_from in refl)

take-append : (n : ℕ) (xs ys : Bytes) → length xs ≡ n → take n (xs ++ ys) ≡ xs
take-append zero [] ys h = refl
take-append zero (x ∷ xs) ys h = ground arith
take-append (suc n) [] ys h = ground arith
take-append (suc n) (x ∷ xs) ys h = ap (λ t. x ∷ t) (take-append n xs ys (omega arith))

module _ {S C : Type 0} where
  -- The parser after the flags of an IF answer are read.
  abbrev pub flags_read : Bytes → System S C → System S C
  flags_read command s = record s {
    cat = record (s.cat) {
      transmitting = get_or command 26 0 == b'1';
      current_mode = mode_name (get_or command 27 0);
    };
  }

  -- IF with at least 35 characters, the first eleven of them digits, records the transmit state and
  -- the mode of characters 26 and 27 and then does what FA does with those digits; a shorter one
  -- changes nothing.
  pub process_if_command-fa :
      (ds rest : Bytes) (s : System S C)
      → AllDigits ds
      → length ds ≡ 11
      → (35 ≤ length (ds ++ rest)
          → process_if_command (ds ++ rest) s ≡ process_fa_command ds (flags_read (ds ++ rest) s))
        × (length (ds ++ rest) < 35 → process_if_command (ds ++ rest) s ≡ some (ok, s))
  unfolding process_if_command
  process_if_command-fa ds rest s h eleven =
      let first = take-append 11 ds rest eleven in
      let value = read_ulong-digits ds h in
      (
        (λ long.
            rw (process_fa_command-digits ds (flags_read (ds ++ rest) s) h)
              (ground (arith, first, value))),
        (λ short. ground arith),
      )
