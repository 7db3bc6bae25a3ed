-- ===== src/Relay/Response.antt =====
-- `parse_relay_state_response`: the two state bytes of the last reply in a text. The text has no
-- NUL, since its only caller passes a C string.
pub mod Sound
pub mod RoundTrip
use esp32_band_decoder.Base.{
  ℕ, zero, suc, ◌+◌, ◌-◌, ◌*◌, ◌/◌, ◌%◌, Bool, true, false, ◌&&◌, ◌||◌, not, List, [], ◌∷◌, Option,
  none, some, ltb, leb, ◌==◌, if◌then◌else◌, ℤ, pos, pos_part, ltb_ℤ, length, get_or, drop,
}
use esp32_band_decoder.Err.{Err, ok, fail}
use esp32_band_decoder.Relay.{Relay, num_relays, bit, assign_up_to}
use esp32_band_decoder.Text.{Bytes, codes, find_last, find_sub, strtol}

infixl 5 ◌>>=◌ ◌>>◌
abbrev pub ◌>>=◌ : {A B : Type 0} → Option A → (A → Option B) → Option B
none >>= f = none
some a >>= f = f a

abbrev pub ◌>>◌ : {B : Type 0} → Option (Unit {0}) → Option B → Option B
m >> k = m >>= λ _. k

abbrev pub guard : Bool → Option (Unit {0})
guard true = some tt
guard false = none

-- Only the characters at 0, 5 and 6 are checked.
abbrev pub has_header : Bytes → Bool
has_header s = (get_or s 0 0 == b'R') && (get_or s 5 0 == b'-') && (get_or s 6 0 == b'S')

unfoldable pub skip_to_comma : Bytes → Bytes
skip_to_comma [] = []
skip_to_comma (c ∷ cs) = if c == b',' then c ∷ cs else skip_to_comma cs

unfoldable pub skip_separators : Bytes → Bytes
skip_separators [] = []
skip_separators (c ∷ cs) = if (c == b',') || leb c 32 then skip_separators cs else c ∷ cs

-- A number from 0 to 255 and the text behind it.
unfoldable pub read_byte : Bytes → Option (ℕ × Bytes)
unfolding strtol
read_byte s = do
  (val, next) ← strtol s
  guard (not (ltb_ℤ val (pos 0) || ltb_ℤ (pos 255) val))
  some (pos_part val, next)

-- What stands behind the numbers: separators, then "OK".
unfoldable pub is_confirmed : Bytes → Bool
unfolding skip_separators
is_confirmed s =
    let rest = skip_separators s in
    leb 2 (length rest) && (get_or rest 0 0 == b'O') && (get_or rest 1 0 == b'K')

-- The numbers behind the first comma: d1, a comma, d0, and the confirmation.
unfoldable pub parse_values : Bytes → Option (ℕ × ℕ)
unfolding read_byte is_confirmed
parse_values s = do
  (d1, next) ← read_byte s
  guard (get_or next 0 0 == b',')
  (d0, next') ← read_byte (drop 1 next)
  guard (is_confirmed next')
  some (d1, d0)

-- The checks on the last reply, down to the comma before the numbers.
unfoldable pub parse_last : Bytes → Option (ℕ × ℕ)
unfolding find_sub skip_to_comma parse_values
parse_last last = do
  guard (leb 18 (length last))
  guard (has_header last)
  tagged ← find_sub (codes "-255") last
  let comma = skip_to_comma (drop 4 tagged)
  guard (leb 4 (length comma))
  parse_values (drop 1 comma)

unfoldable pub parse_state : Bytes → Option (ℕ × ℕ)
unfolding find_last parse_last
parse_state response = do last ← find_last (codes "RELAY-") response; parse_last last

-- `__builtin_ffs`: one more than the index of the lowest bit that is set, of `left` bits.
ffs_from : ℕ → ℕ → ℕ → ℕ
ffs_from zero i word = 0
ffs_from (suc left) i word =
    let rest = ffs_from left (i + 1) (word / 2) in if word % 2 == 1 then i else rest

unfoldable pub ffs : ℕ → ℕ
unfolding ffs_from
ffs word = ffs_from num_relays 1 word

module _ {C : Type 0} where
  -- The update of the cached state from the two bytes.
  unfoldable pub apply_state : ℕ → ℕ → Relay C → Relay C
  unfolding ffs assign_up_to
  apply_state d1 d0 r =
      let word = d1 * 256 + d0 in
      record r {
        relay_state_bitfield = word;
        currently_selected_relay = pos (if word == 0 then 0 else ffs word);
        relay_states = assign_up_to num_relays (λ i. bit word (i - 1)) r.relay_states;
      }

  unfoldable pub parse_relay_state_response : Bytes → Relay C → Err × Relay C
  unfolding parse_state apply_state
  parse_relay_state_response response r = elim (parse_state response) [
    | none ↦ (fail, r)
    | some (d1, d0) ↦ (ok, apply_state d1 d0 r)
  ]
