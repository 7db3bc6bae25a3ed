-- ===== src/Text.antt =====
-- What main/ uses of C strings and numbers in text: a text is the list of its bytes.
-- `char` is unsigned and `long` has 32 bits, as on the ESP32.
pub mod CStrings
use Prim.Native.Char.{code}
use Prim.Native.String.{String}
use esp32_band_decoder.Base.{
  ℕ, zero, suc, ◌+◌, ◌-◌, ◌*◌, ◌/◌, ◌%◌, Bool, true, false, ◌&&◌, ◌||◌, List, [], ◌∷◌, Option, none,
  some, ltb, leb, ◌==◌, if◌then◌else◌, ℤ, pos, negsuc,
}

abbrev pub Bytes : Type 0
Bytes = List ℕ

-- The bytes of an ASCII literal.
abbrev pub codes : String → Bytes
codes String.[] = []
codes (String.◌∷◌ c s) = code c ∷ codes s

-- The text up to the first NUL.
unfoldable pub c_str : Bytes → Bytes
c_str [] = []
c_str (c ∷ cs) = if c == 0 then [] else c ∷ c_str cs

-- `==` of two strings.
unfoldable pub eq_bytes : Bytes → Bytes → Bool
eq_bytes [] [] = true
eq_bytes [] (d ∷ ds) = false
eq_bytes (c ∷ cs) [] = false
eq_bytes (c ∷ cs) (d ∷ ds) = (c == d) && eq_bytes cs ds

unfoldable pub starts_with : Bytes → Bytes → Bool
starts_with [] s = true
starts_with (p ∷ ps) [] = false
starts_with (p ∷ ps) (c ∷ cs) = (p == c) && starts_with ps cs

-- `strstr`: the text from the first occurrence of `needle`, which is not empty.
unfoldable pub find_sub : Bytes → Bytes → Option Bytes
unfolding starts_with
find_sub needle [] = none
find_sub needle (c ∷ cs) = if starts_with needle (c ∷ cs) then some (c ∷ cs) else find_sub needle cs

-- `strstr(s, needle) != nullptr`.
unfoldable pub contains : Bytes → Bytes → Bool
unfolding find_sub
contains needle s = elim (find_sub needle s) [ none ↦ false | some _ ↦ true ]

-- `rfind`, then `substr`: the text from the last occurrence of `needle`, which is not empty.
unfoldable pub find_last : Bytes → Bytes → Option Bytes
unfolding starts_with
find_last needle [] = none
find_last needle (c ∷ cs) = elim (find_last needle cs) [
  | some later ↦ some later
  | none ↦ if starts_with needle (c ∷ cs) then some (c ∷ cs) else none
]

abbrev pub is_digit : ℕ → Bool
is_digit c = leb b'0' c && leb c b'9'

abbrev pub is_space : ℕ → Bool
is_space c = c == 32 || (leb 9 c && leb c 13)

unfoldable pub skip_space : Bytes → Bytes
skip_space [] = []
skip_space (c ∷ cs) = if is_space c then skip_space cs else c ∷ cs

-- The value of the leading digits after `acc`, and the text behind them.
unfoldable pub read_digits : ℕ → Bytes → ℕ × Bytes
read_digits acc [] = (acc, [])
read_digits acc (c ∷ cs) =
    let rest = read_digits (acc * 10 + (c - b'0')) cs in if is_digit c then rest else (acc, c ∷ cs)

abbrev pub starts_with_digit : Bytes → Bool
starts_with_digit [] = false
starts_with_digit (c ∷ cs) = is_digit c

-- An optional sign: whether it is a minus, and the text behind it.
unfoldable pub read_sign : Bytes → Bool × Bytes
read_sign [] = (false, [])
read_sign (c ∷ cs) =
    if c == b'-' then (true, cs) else if c == b'+' then (false, cs) else (false, c ∷ cs)

-- Sign, magnitude and what is left; `none` when there is no number at the start.
unfoldable pub read_number : Bytes → Option (Bool × ℕ × Bytes)
unfolding skip_space read_sign read_digits
read_number s =
    let signed = read_sign (skip_space s) in
    let read = read_digits 0 signed.1 in
    if starts_with_digit signed.1 then some (signed.0, read.0, read.1) else none

abbrev pub ulong_max : ℕ
ulong_max = 4294967295

-- `strtoul(s, &end, 10)`: the value and the text at `end`.
unfoldable pub strtoul : Bytes → ℕ × Bytes
unfolding read_number
strtoul s = elim (read_number s) [
  | none ↦ (0, s)
  | some (minus, n, rest) ↦ (
    if ltb ulong_max n
        then ulong_max
        else if minus
        then (ulong_max + 1 - n) % (ulong_max + 1)
        else n,
    rest,
  )
]

abbrev to_long : Bool → ℕ → ℤ
to_long false n = if ltb 2147483647 n then pos 2147483647 else pos n
to_long true n =
    if n == 0 then pos 0 else if ltb 2147483648 n then negsuc 2147483647 else negsuc (n - 1)

-- `strtol(s, &next, 10)`; `none` for `next == s`, when nothing was read.
unfoldable pub strtol : Bytes → Option (ℤ × Bytes)
unfolding read_number
strtol s = elim (read_number s) [
  | none ↦ none
  | some (minus, n, rest) ↦ some (to_long minus n, rest)
]

-- The decimal digits of a number below 10 ^ fuel, in front of `rest`.
unfoldable pub print_digits : ℕ → ℕ → Bytes → Bytes
print_digits zero n rest = rest
print_digits (suc fuel) n rest =
    let more = print_digits fuel (n / 10) ((b'0' + n % 10) ∷ rest) in
    if ltb n 10 then (b'0' + n) ∷ rest else more

-- `std::to_string`, in front of `rest`, of a number below 1000.
unfoldable pub to_string : ℕ → Bytes → Bytes
unfolding print_digits
to_string n rest = print_digits 3 n rest

-- `<<` of a number below 10 ^ 10 into a stream, in front of `rest`.
unfoldable pub to_decimal : ℕ → Bytes → Bytes
unfolding print_digits
to_decimal n rest = print_digits 10 n rest
