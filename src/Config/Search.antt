-- ===== src/Config/Search.antt =====
-- The two search loops return the least index that passes their test.
use esp32_band_decoder.Base.{
  ℕ, zero, suc, ◌+◌, ◌<◌, ◌≡◌, refl, sym, ap, ◌∙◌, Bool, true, false, List, [], ◌∷◌, Option, none,
  some, inl, inr, arith, get_elem?, if◌then◌else◌, Bool-cases,
}
use native.Mathlib.Numerals.{add-one}
use esp32_band_decoder.Config.{BandConfig, Config, in_band, find_band, first_port, band_of, port_of}

-- The loop that both searches are instances of, from index 0.
module _ {A : Type 0} (test : A → Bool) where
  abbrev pub bump : Option (ℕ × A) → Option (ℕ × A)
  bump none = none
  bump (some (i, a)) = some (i + 1, a)

  abbrev pub first : ℕ → List A → Option (ℕ × A)
  first zero xs = none
  first (suc n) [] = none
  first (suc n) (x ∷ xs) = if test x then some (0, x) else bump (first n xs)

  -- `r` is the first of the first `n` elements that passes `test`, or `none` of them does.
  abbrev pub FirstOf : ℕ → List A → Option (ℕ × A) → Type 0
  FirstOf n xs none = (k : ℕ) (x : A) → k < n → get_elem? xs k ≡ some x → test x ≡ false
  FirstOf n xs (some (i, a)) =
      (i < n)
      × (get_elem? xs i ≡ some a)
      × (test a ≡ true)
      × ((k : ℕ) (x : A) → k < i → get_elem? xs k ≡ some x → test x ≡ false)

  bump-FirstOf_none :
      (n : ℕ) (x : A) (xs : List A)
      → test x ≡ false
      → FirstOf n xs none
      → FirstOf (suc n) (x ∷ xs) none
  bump-FirstOf_none n x xs f h zero y lt e = ground arith
  bump-FirstOf_none n x xs f h (suc k) y lt e = h k y (omega arith) e

  still_before :
      (i : ℕ) (x : A) (xs : List A)
      → test x ≡ false
      → ((k : ℕ) (y : A) → k < i → get_elem? xs k ≡ some y → test y ≡ false)
      → (k : ℕ) (y : A) → k < i + 1
      → get_elem? (x ∷ xs) k ≡ some y
      → test y ≡ false
  still_before i x xs f h zero y lt e = ground arith
  still_before i x xs f h (suc k) y lt e = h k y (omega arith) e

  bump-FirstOf :
      (n : ℕ) (x : A) (xs : List A) (r : Option (ℕ × A))
      → test x ≡ false
      → FirstOf n xs r
      → FirstOf (suc n) (x ∷ xs) (bump r)
  bump-FirstOf n x xs none f h = bump-FirstOf_none n x xs f h
  bump-FirstOf n x xs (some (i, a)) f h =
      (omega arith, rw add-one h.1, h.2, still_before i x xs f h.3)

  pub first-FirstOf : (n : ℕ) (xs : List A) → FirstOf n xs (first n xs)
  first-FirstOf zero xs = λ k x lt e. absurd (omega arith)
  first-FirstOf (suc n) [] = λ k x lt e. cc
  first-FirstOf (suc n) (x ∷ xs) = elim (Bool-cases (test x)) [
    | inl hit ↦ rw hit (omega arith, refl, hit, λ k y lt e. absurd (omega arith))
    | inr miss ↦ rw miss (bump-FirstOf n x xs (first n xs) miss (first-FirstOf n xs))
  ]

abbrev shift : {A : Type 0} → ℕ → Option (ℕ × A) → Option (ℕ × A)
shift i none = none
shift i (some (k, a)) = some (i + k, a)

shift-zero : {A : Type 0} (r : Option (ℕ × A)) → shift 0 r ≡ r
shift-zero none = refl
shift-zero (some (k, a)) = ground arith

shift-bump :
    {A : Type 0} (test : A → Bool) (i : ℕ) (r : Option (ℕ × A))
    → shift i (bump test r) ≡ shift (i + 1) r
shift-bump test i none = refl
shift-bump test i (some (k, a)) = ground arith

find_band-first :
    (freq n i : ℕ) (bs : List BandConfig)
    → find_band freq n i bs ≡ shift i (first (in_band freq) n bs)
unfolding find_band
find_band-first freq zero i bs = refl
find_band-first freq (suc n) i [] = refl
find_band-first freq (suc n) i (b ∷ bs) = elim (Bool-cases (in_band freq b)) [
  | inl hit ↦ rw hit (ground arith)
  | inr miss ↦ rw miss (
      find_band-first freq n (i + 1) bs
      ∙ sym (shift-bump (in_band freq) i (first (in_band freq) n bs)))
]

abbrev index_of : Option (ℕ × Bool) → Option ℕ
index_of none = none
index_of (some (k, p)) = some k

first_port-first :
    (n i : ℕ) (ps : List Bool) → first_port n i ps ≡ index_of (shift i (first (λ p. p) n ps))
unfolding first_port
first_port-first zero i ps = refl
first_port-first (suc n) i [] = refl
first_port-first (suc n) i (true ∷ ps) = ground arith
first_port-first (suc n) i (false ∷ ps) =
    first_port-first n (i + 1) ps ∙ ap index_of (sym (shift-bump (λ p. p) i (first (λ p. p) n ps)))

-- The band that the code picks is the first configured one that holds the frequency.
pub band_of-FirstOf :
    (c : Config) (freq : ℕ) → FirstOf (in_band freq) c.num_bands c.bands (band_of c freq)
unfolding band_of
band_of-FirstOf c freq =
    rw (find_band-first, shift-zero) (first-FirstOf (in_band freq) c.num_bands c.bands)

-- A port index as the index and the value of the first enabled port.
abbrev pub enabled : Option ℕ → Option (ℕ × Bool)
enabled none = none
enabled (some j) = some (j, true)

enabled-first :
    (n : ℕ) (ps : List Bool) → enabled (index_of (first (λ p. p) n ps)) ≡ first (λ p. p) n ps
enabled-first zero ps = refl
enabled-first (suc n) [] = refl
enabled-first (suc n) (true ∷ ps) = refl
enabled-first (suc n) (false ∷ ps) = through (first (λ p. p) n ps) (enabled-first n ps)
  where
    through :
        (r : Option (ℕ × Bool))
        → enabled (index_of r) ≡ r
        → enabled (index_of (bump (λ p. p) r)) ≡ bump (λ p. p) r
    through none h = refl
    through (some (k, p)) h = ground arith

-- The port that the code picks is the first enabled one.
pub port_of-FirstOf :
    (c : Config) (b : BandConfig)
    → FirstOf (λ p. p) c.num_antenna_ports b.antenna_ports (enabled (port_of c b))
unfolding port_of
port_of-FirstOf c b =
    rw (first_port-first, shift-zero, enabled-first)
      (first-FirstOf (λ p. p) c.num_antenna_ports b.antenna_ports)
