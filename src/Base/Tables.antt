-- ===== src/Base/Tables.antt =====
-- Claims about small numbers, checked by evaluation.
use Prim.Native.Nat.{ℕ, zero, suc, ◌<◌}
use mathlib.Core.Path.{◌≡◌, refl}
use mathlib.Core.Bool.{Bool, true, false, ◌&&◌}
use native.Mathlib.Omega.{arith}

-- Every number under the bound passes the test.
unfoldable pub every_below : (ℕ → Bool) → ℕ → Bool
every_below test zero = true
every_below test (suc bound) = every_below test bound && test bound

pub every_below-at :
    (test : ℕ → Bool) (bound : ℕ) {k : ℕ}
    → every_below test bound ≡ true
    → k < bound
    → test k ≡ true
unfolding every_below
every_below-at test zero table lt = absurd (omega arith)
every_below-at test (suc bound) {k} table lt = ground (arith, every_below-at test bound {k = k})

abbrev pub same : Bool → Bool → Bool
same true b = b
same false true = false
same false false = true

pub same→eq : (a b : Bool) → same a b ≡ true → a ≡ b
same→eq true true h = refl
same→eq true false h = cc
same→eq false true h = cc
same→eq false false h = refl
