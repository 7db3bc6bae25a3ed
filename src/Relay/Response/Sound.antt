-- ===== src/Relay/Response/Sound.antt =====
-- What a parsed reply leaves behind: bytes in range, and a cached state that agrees with itself.
use native.Mathlib.Nat.{pow-suc}
use esp32_band_decoder.Base.{
  ℕ, zero, suc, ◌+◌, ◌-◌, ◌*◌, ◌/◌, ◌%◌, ◌^◌, ◌≤◌, ◌<◌, ◌≡◌, refl, ◌∙◌, Option, none, some, inl,
  inr, arith, ap, if◌then◌else◌, ◌≢◌, Option-cases, Bool-cases, ◌==◌, drop, leb, length, pos,
}
use esp32_band_decoder.Relay.Response.{
  ◌>>=◌, ◌>>◌, guard, skip_to_comma, apply_state, parse_relay_state_response, ffs_from, ffs,
  parse_values, parse_last, parse_state, read_byte,
}
use esp32_band_decoder.Err.{ok, fail}
use esp32_band_decoder.Relay.{Relay, bit, num_relays}
use esp32_band_decoder.Relay.Bits.{assign_up_to_hit, LowestBit, LowestBit-half}
use esp32_band_decoder.Text.{Bytes, codes, find_last, find_sub}

>>=-eq-some :
    {A B : Type 0} (m : Option A) (f : A → Option B) {b : B}
    → (m >>= f) ≡ some b
    → (a : A) × (m ≡ some a) × (f a ≡ some b)
>>=-eq-some none f h = cc
>>=-eq-some (some a) f h = (a, refl, h)

>>-eq-some :
    {B : Type 0} (m : Option (Unit {0})) (k : Option B) {b : B} → (m >> k) ≡ some b → k ≡ some b
>>-eq-some none k h = cc
>>-eq-some (some u) k h = h

read_byte-lt : (s : Bytes) {n : ℕ} {rest : Bytes} → read_byte s ≡ some (n, rest) → n < 256
unfolding read_byte
read_byte-lt s h = ground arith

parse_values-lt : (s : Bytes) {d1 d0 : ℕ} → parse_values s ≡ some (d1, d0) → (d1 < 256) × (d0 < 256)
unfolding parse_values
parse_values-lt s h = ground arith

parse_last-lt : (s : Bytes) {d1 d0 : ℕ} → parse_last s ≡ some (d1, d0) → (d1 < 256) × (d0 < 256)
unfolding parse_last
parse_last-lt s h =
    let checked = >>-eq-some (guard _) _ (>>-eq-some (guard _) _ h) in
    let (tagged, _, h1) = >>=-eq-some (find_sub (codes "-255") s) _ checked in
    let comma = skip_to_comma (drop 4 tagged) in
    parse_values-lt (drop 1 comma) (>>-eq-some (guard (leb 4 (length comma))) _ h1)

-- The casts to uint8_t lose nothing: only numbers below 256 are accepted.
pub parse_state-lt :
    (s : Bytes) {d1 d0 : ℕ} → parse_state s ≡ some (d1, d0) → (d1 < 256) × (d0 < 256)
unfolding parse_state
parse_state-lt s h =
    let (last, _, h1) = >>=-eq-some (find_last (codes "RELAY-") s) _ h in parse_last-lt last h1

add_shift : (i k : ℕ) → i + 1 + k ≡ i + suc k
add_shift i k = omega arith

one-add : (k : ℕ) → 1 + k ≡ suc k
one-add k = omega arith

ffs_from-LowestBit :
    (left i w : ℕ)
    → w < 2 ^ left
    → 0 < w
    → (k : ℕ) × (ffs_from left i w ≡ i + k) × (k < left) × LowestBit w k
unfolding ffs_from
ffs_from-LowestBit zero i w lt nonzero = absurd (omega arith)
ffs_from-LowestBit (suc left) i w lt nonzero = elim (Bool-cases (w % 2 == 1)) [
  | inl odd ↦ rw odd (0, omega arith, omega arith, (ground arith, λ j h. absurd (omega arith)))
  | inr even ↦
      let (k, e, fits, low) =
        ffs_from-LowestBit left (i + 1) (w / 2) (omega (arith, pow-suc 2 left)) (ground arith) in
      rw even (suc k, e ∙ add_shift i k, omega arith, LowestBit-half w k even low)
]

-- The selected relay that a state word stands for: none, or the one of the lowest bit.
abbrev pub Selects : ℕ → ℕ → Type 0
Selects word zero = word ≡ 0
Selects word (suc k) = (k < num_relays) × LowestBit word k

-- The cached map, the bit field and the selected relay say the same.
pub record IsConsistent {C : Type 0} (r : Relay C) : Type 0 where
  pub word_fits : r.relay_state_bitfield < 65536
  pub states :
      (i : ℕ)
      → 1 ≤ i
      → i ≤ num_relays
      → r.relay_states i ≡ some (bit r.relay_state_bitfield (i - 1))
  pub selected : (k : ℕ) × (r.currently_selected_relay ≡ pos k) × Selects r.relay_state_bitfield k

selected_relay :
    (w : ℕ) → w < 65536 → (k : ℕ) × (pos (if w == 0 then 0 else ffs w) ≡ pos k) × Selects w k
unfolding ffs
selected_relay w lt = elim (Bool-cases (w == 0)) [
  | inl z ↦ rw z (0, refl, ground arith)
  | inr nz ↦
      let (k, e, fits, low) = ffs_from-LowestBit num_relays 1 w lt (ground arith) in
      rw nz (suc k, ap pos (e ∙ one-add k), (fits, low))
]

module _ {C : Type 0} where
  pub apply_state-IsConsistent :
      (d1 d0 : ℕ) (r : Relay C) → d1 < 256 → d0 < 256 → IsConsistent (apply_state d1 d0 r)
  unfolding apply_state
  apply_state-IsConsistent d1 d0 r h1 h0 = record {
    word_fits = omega arith;
    states = λ i lo hi.
        assign_up_to_hit num_relays (λ j. bit (d1 * 256 + d0) (j - 1)) r.relay_states i lo hi;
    selected = selected_relay (d1 * 256 + d0) (omega arith);
  }

  -- A reply that is accepted makes the bit field, the relay map and the selected relay agree,
  -- whatever they were before; one that is refused leaves the controller as it was.
  pub parse_relay_state_response-IsConsistent :
      (s : Bytes) (r : Relay C)
      → ((parse_relay_state_response s r).0 ≡ ok → IsConsistent (parse_relay_state_response s r).1)
        × ((parse_relay_state_response s r).0 ≢ ok → parse_relay_state_response s r ≡ (fail, r))
  unfolding parse_relay_state_response
  parse_relay_state_response-IsConsistent s r = elim (Option-cases (parse_state s)) [
    | inl e ↦ rw (e, parse_relay_state_response) ((λ h. cc), λ h. refl)
    | inr ((d1, d0), e) ↦
        let (h1, h0) = parse_state-lt s e in
        rw (e, parse_relay_state_response)
          ((λ h. apply_state-IsConsistent d1 d0 r h1 h0), λ h. absurd (h refl))
  ]
