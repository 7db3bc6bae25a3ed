-- ===== src/Text/CStrings.antt =====
-- `c_str` of texts with and without a NUL.
use esp32_band_decoder.Base.{◌≡◌, refl, false, [], ◌∷◌, ◌++◌, ◌==◌, arith}
use esp32_band_decoder.Text.{Bytes, c_str}

-- No byte of the text is a NUL.
abbrev pub NoNul : Bytes → Type 0
NoNul [] = Unit {0}
NoNul (c ∷ cs) = ((c == 0) ≡ false) × NoNul cs

pub c_str-append : (s t : Bytes) → NoNul s → c_str (s ++ t) ≡ s ++ c_str t
unfolding c_str
c_str-append [] t h = refl
c_str-append (c ∷ cs) t h = ground (arith, c_str-append cs t h.1)

pub c_str-NoNul : (s : Bytes) → NoNul s → c_str s ≡ s
unfolding c_str
c_str-NoNul [] h = refl
c_str-NoNul (c ∷ cs) h = ground (arith, c_str-NoNul cs h.1)

pub c_str-c_str : (s : Bytes) → c_str (c_str s) ≡ c_str s
unfolding c_str
c_str-c_str [] = refl
c_str-c_str (c ∷ cs) = ground (arith, c_str-c_str cs)
