-- ===== src/Relay/Response/RoundTrip.antt =====
-- The parser reads back the replies of the relay board.
use esp32_band_decoder.Base.{
  ℕ, suc, ◌≤◌, ◌<◌, length, ◌≡◌, refl, ◌∙◌, Bool, true, false, [], ◌∷◌, ◌++◌, none, some, ◌==◌,
  arith,
}
use esp32_band_decoder.Relay.Response.{read_byte, parse_values, parse_last, parse_state}
use esp32_band_decoder.Text.{Bytes, codes, find_last, to_string, starts_with_digit}

read_byte-to_string :
    (n : ℕ) (rest : Bytes)
    → n < 256
    → starts_with_digit rest ≡ false
    → read_byte (to_string n rest) ≡ some (n, rest)
unfolding read_byte to_string
read_byte-to_string n rest lt stop = ground arith

-- No byte of the text is `c`.
abbrev pub Avoids : ℕ → Bytes → Type 0
Avoids c [] = Unit {0}
Avoids c (x ∷ xs) = ((c == x) ≡ false) × Avoids c xs

abbrev pub tag : Bytes
tag = codes "RELAY-"

find_last-Avoids : (s : Bytes) → Avoids b'R' s → find_last tag s ≡ none
unfolding find_last
find_last-Avoids [] h = refl
find_last-Avoids (c ∷ cs) h = ground (arith, find_last-Avoids cs h.1)

find_last-append :
    (junk s t : Bytes) → find_last tag s ≡ some t → find_last tag (junk ++ s) ≡ some t
unfolding find_last
find_last-append [] s t h = h
find_last-append (c ∷ cs) s t h = ground (arith, find_last-append cs s t h)

to_string-Avoids : (n : ℕ) (rest : Bytes) → Avoids b'R' rest → Avoids b'R' (to_string n rest)
unfolding to_string
to_string-Avoids n rest h = ground arith

-- The two kinds of reply that carry a state.
abbrev pub reply_head : Bool → Bytes
reply_head true = codes "RELAY-SET_ALL-255,"
reply_head false = codes "RELAY-STATE-255,"

abbrev pub reply_body : ℕ → ℕ → Bytes → Bytes
reply_body d1 d0 end = to_string d1 (b',' ∷ to_string d0 (codes ",OK" ++ end))

reply_body-Avoids : (d1 d0 : ℕ) (end : Bytes) → Avoids b'R' end → Avoids b'R' (reply_body d1 d0 end)
reply_body-Avoids d1 d0 end h =
    to_string-Avoids d1 _ (refl, to_string-Avoids d0 _ (refl, (refl, (refl, h))))

find_last-head :
    (k : Bool) (body : Bytes)
    → find_last tag body ≡ none
    → find_last tag (reply_head k ++ body) ≡ some (reply_head k ++ body)
unfolding find_last
find_last-head true body h = rw (h, find_last)
find_last-head false body h = rw (h, find_last)

parse_values-reply :
    (d1 d0 : ℕ) (end : Bytes)
    → d1 < 256
    → d0 < 256
    → parse_values (reply_body d1 d0 end) ≡ some (d1, d0)
unfolding parse_values
parse_values-reply d1 d0 end h1 h0 =
    rw (read_byte-to_string d1 (b',' ∷ to_string d0 (codes ",OK" ++ end)) h1 refl, parse_values)
      (rw (read_byte-to_string d0 (codes ",OK" ++ end) h0 refl, parse_values) (ground arith))

to_string-length : (n : ℕ) (rest : Bytes) → suc (length rest) ≤ length (to_string n rest)
unfolding to_string
to_string-length n rest = ground arith

reply_body-length : (d1 d0 : ℕ) (end : Bytes) → 6 ≤ length (reply_body d1 d0 end)
reply_body-length d1 d0 end = omega (
  arith,
  to_string-length d1 (b',' ∷ to_string d0 (codes ",OK" ++ end)),
  to_string-length d0 (codes ",OK" ++ end),
)

parse_last-head :
    (k : Bool) (body : Bytes)
    → 6 ≤ length body
    → parse_last (reply_head k ++ body) ≡ parse_values body
unfolding parse_last
parse_last-head true body h = ground arith
parse_last-head false body h = ground arith

-- A reply with the bytes d1 and d0 is read as these, whatever stands before it, earlier replies
-- included, and whatever follows it, as long as that holds no R.
pub parse_state-reply :
    (junk : Bytes) (k : Bool) (d1 d0 : ℕ) (end : Bytes)
    → d1 < 256
    → d0 < 256
    → Avoids b'R' end
    → parse_state (junk ++ (reply_head k ++ reply_body d1 d0 end)) ≡ some (d1, d0)
unfolding parse_state
parse_state-reply junk k d1 d0 end h1 h0 h =
    let body = reply_body d1 d0 end in
    let none_later = find_last-Avoids body (reply_body-Avoids d1 d0 end h) in
    rw (find_last-append junk _ _ (find_last-head k body none_later), parse_state)
      (parse_last-head k body (reply_body-length d1 d0 end) ∙ parse_values-reply d1 d0 end h1 h0)
