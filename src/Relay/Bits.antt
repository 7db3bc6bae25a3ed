-- ===== src/Relay/Bits.antt =====
-- Facts about the cached relay map and the bits of a state word.
use native.Mathlib.Nat.{div-div-eq-div-mul, pow-suc, mul_comm}
use esp32_band_decoder.Base.{
  ℕ, zero, suc, ◌/◌, ◌%◌, ◌≤◌, ◌<◌, ◌≡◌, refl, Bool, true, false, some, arith, ◌==◌,
}
use esp32_band_decoder.Relay.{RelayStates, bit, assign_up_to}

-- The loop assigns exactly the keys 1 to n.
pub assign_up_to_hit :
    (n : ℕ) (f : ℕ → Bool) (m : RelayStates) (i : ℕ)
    → 1 ≤ i
    → i ≤ n
    → assign_up_to n f m i ≡ some (f i)
unfolding assign_up_to
assign_up_to_hit zero f m i lo hi = absurd (omega arith)
assign_up_to_hit (suc n) f m i lo hi = ground (arith, assign_up_to_hit n f m i lo)

pub assign_up_to_miss :
    (n : ℕ) (f : ℕ → Bool) (m : RelayStates) (i : ℕ) → n < i → assign_up_to n f m i ≡ m i
unfolding assign_up_to
assign_up_to_miss zero f m i lt = refl
assign_up_to_miss (suc n) f m i lt = ground (arith, assign_up_to_miss n f m i)

pub bit-half : (w k : ℕ) → bit (w / 2) k ≡ bit w (suc k)
bit-half w k = rw (div-div-eq-div-mul, mul_comm 2, ← pow-suc)

-- `k` is the index of the lowest bit of `w` that is set.
abbrev pub LowestBit : ℕ → ℕ → Type 0
LowestBit w k = (bit w k ≡ true) × ((j : ℕ) → j < k → bit w j ≡ false)

pub LowestBit-half : (w k : ℕ) → (w % 2 == 1) ≡ false → LowestBit (w / 2) k → LowestBit w (suc k)
LowestBit-half w k even (hit, before) = (rw (← bit-half) hit, below)
  where
    below : (j : ℕ) → j < suc k → bit w j ≡ false
    below zero lt = ground arith
    below (suc j) lt = rw (← bit-half) (before j (omega arith))
