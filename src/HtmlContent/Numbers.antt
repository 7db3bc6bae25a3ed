-- ===== src/HtmlContent/Numbers.antt =====
-- The numbers of the configuration page: what the page prints is what the script reads.
use esp32_band_decoder.Base.{
  ℕ, zero, suc, ◌+◌, ◌-◌, ◌*◌, ◌/◌, ◌%◌, ◌≤◌, ◌<◌, ◌≡◌, inl, inr, refl, ◌∙◌, false, ◌&&◌, [], ◌∷◌,
  some, pos, arith, ltb, ◌==◌, Bool-cases,
}
use esp32_band_decoder.HtmlContent.Form.{parse_int}
use esp32_band_decoder.HtmlContent.{decimal, band_name, port_name}
use esp32_band_decoder.Text.{
  Bytes, codes, eq_bytes, print_digits, to_decimal, read_digits, read_number, read_sign, skip_space,
}

abbrev pub ten_to : ℕ → ℕ
ten_to zero = 1
ten_to (suc f) = 10 * ten_to f

-- A text that begins with a digit.
pub record IsNumeral (s : Bytes) : Type 0 where
  pub first : ℕ
  pub behind : Bytes
  pub split : s ≡ first ∷ behind
  pub low : 48 ≤ first
  pub high : first ≤ 57

one_digit-IsNumeral : (f n : ℕ) (rest : Bytes) → n < 10 → IsNumeral (print_digits (suc f) n rest)
unfolding print_digits
one_digit-IsNumeral f n rest lt = record {
  first = 48 + n;
  behind = rest;
  split = ground arith;
  low = omega arith;
  high = omega arith;
}

digits_step :
    (f n : ℕ) (rest : Bytes)
    → 10 ≤ n
    → print_digits (suc f) n rest ≡ print_digits f (n / 10) ((48 + n % 10) ∷ rest)
unfolding print_digits
digits_step f n rest le = ground arith

digits-IsNumeral :
    (f n : ℕ) (rest : Bytes) → n < ten_to (suc f) → IsNumeral (print_digits (suc f) n rest)
digits-IsNumeral zero n rest lt = one_digit-IsNumeral 0 n rest lt
digits-IsNumeral (suc f) n rest lt = elim (Bool-cases (ltb n 10)) [
  | inl small ↦ one_digit-IsNumeral (suc f) n rest (ground arith)
  | inr large ↦
      rw (digits_step (suc f) n rest (ground arith))
        (digits-IsNumeral f (n / 10) ((48 + n % 10) ∷ rest) (omega arith))
]

read_digits_more :
    (acc d n : ℕ) (rest : Bytes)
    → d < 10
    → acc * 10 + d ≡ n
    → read_digits acc ((48 + d) ∷ rest) ≡ read_digits n rest
unfolding read_digits
read_digits_more acc d n rest lt e =
    let same : acc * 10 + (48 + d - 48) ≡ n = omega arith in ground (arith, same)

digits_one : (f n : ℕ) (rest : Bytes) → n < 10 → print_digits (suc f) n rest ≡ (48 + n) ∷ rest
unfolding print_digits
digits_one f n rest lt = ground arith

-- Reading goes through the printed digits of a number.
read_digits-print_digits :
    (f n : ℕ) (rest : Bytes)
    → n < ten_to (suc f)
    → read_digits 0 (print_digits (suc f) n rest) ≡ read_digits n rest
read_digits-print_digits zero n rest lt =
    rw (digits_one 0 n rest lt) (read_digits_more 0 n n rest lt (omega arith))
read_digits-print_digits (suc f) n rest lt = elim (Bool-cases (ltb n 10)) [
  | inl small ↦
      rw (digits_one (suc f) n rest (ground arith))
        (read_digits_more 0 n n rest (ground arith) (omega arith))
  | inr large ↦
      let again = read_digits-print_digits f (n / 10) ((48 + n % 10) ∷ rest) (omega arith) in
      let whole : n / 10 * 10 + n % 10 ≡ n = omega arith in
      rw (digits_step (suc f) n rest (ground arith))
        (again ∙ read_digits_more (n / 10) (n % 10) n rest (omega arith) whole)
]

read_number-IsNumeral :
    (s : Bytes)
    → IsNumeral s
    → read_number s ≡ some (false, (read_digits 0 s).0, (read_digits 0 s).1)
unfolding read_number skip_space read_sign
read_number-IsNumeral s h = rw h.split (ground (arith, h.low, h.high))

-- A number below 10 ^ 10 is read back from its text.
pub parse_int-decimal : (n : ℕ) → n < ten_to 10 → parse_int (some (decimal n)) ≡ some (pos n)
unfolding parse_int to_decimal read_digits
parse_int-decimal n lt =
    rw (read_number-IsNumeral (decimal n) (digits-IsNumeral 9 n [] lt), parse_int)
      (rw (read_digits-print_digits 9 n [] lt) refl)

to_decimal-digit : (n : ℕ) (rest : Bytes) → n < 10 → to_decimal n rest ≡ (48 + n) ∷ rest
unfolding to_decimal
to_decimal-digit n rest lt = digits_one 9 n rest lt

-- The names of the controls of the table differ.
pub port_name-same :
    (i j k l : ℕ)
    → i < 10
    → j < 10
    → k < 10
    → l < 10
    → eq_bytes (port_name i j) (port_name k l) ≡ ((i == k) && (j == l))
unfolding eq_bytes
port_name-same i j k l hi hj hk hl =
    rw
      (
        to_decimal-digit i (95 ∷ decimal j) hi,
        to_decimal-digit k (95 ∷ decimal l) hk,
        to_decimal-digit j [] hj,
        to_decimal-digit l [] hl,
      )
      (ground arith)

pub band_name-same : (i k : ℕ) → i < 10 → k < 10 → eq_bytes (band_name i) (band_name k) ≡ (i == k)
unfolding eq_bytes
band_name-same i k hi hk = rw (to_decimal-digit i [] hi, to_decimal-digit k [] hk) (ground arith)

pub band-port_name : (i k l : ℕ) → eq_bytes (band_name i) (port_name k l) ≡ false
unfolding eq_bytes
band-port_name i k l = refl

pub port-band_name : (i j k : ℕ) → eq_bytes (port_name i j) (band_name k) ≡ false
unfolding eq_bytes
port-band_name i j k = refl

pub auto_mode-band_name : (k : ℕ) → eq_bytes (codes "auto_mode") (band_name k) ≡ false
unfolding eq_bytes
auto_mode-band_name k = refl

pub auto_mode-port_name : (k l : ℕ) → k < 10 → eq_bytes (codes "auto_mode") (port_name k l) ≡ false
unfolding eq_bytes
auto_mode-port_name k l hk = rw (to_decimal-digit k (95 ∷ decimal l) hk) (ground arith)

pub port_name-auto_mode : (k l : ℕ) → k < 10 → eq_bytes (port_name k l) (codes "auto_mode") ≡ false
unfolding eq_bytes
port_name-auto_mode k l hk = rw (to_decimal-digit k (95 ∷ decimal l) hk) (ground arith)

pub band_name-auto_mode : (k : ℕ) → eq_bytes (band_name k) (codes "auto_mode") ≡ false
unfolding eq_bytes
band_name-auto_mode k = refl
