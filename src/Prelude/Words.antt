-- ===== src/Prelude/Words.antt =====
-- Machine words as bit patterns below 2 ^ w, and facts on small words by evaluation.
use Prim.Native.Nat.{ℕ, zero, suc, ◌+◌, ◌-◌, ◌%◌, ◌^◌, ◌<◌, bit_and}
use mathlib.Core.Path.{◌≡◌}
use mathlib.Core.Logic.{inl, inr}
use mathlib.Core.Bool.{Bool, true, ◌&&◌, not}
use native.Mathlib.Omega.{arith}
use demoscene.Prelude.Tests.{◌==◌, ==_iff, Bool-cases}

-- A table of the values of `test` on the numbers below `bound` has only `true`.
unfoldable pub all_below : (bound : ℕ) (test : ℕ → Bool) → Bool
all_below zero test = true
all_below (suc last) test = let others = all_below last test in others && test last

pub all_below_sound :
    (bound : ℕ) (test : ℕ → Bool) (k : ℕ) → all_below bound test ≡ true → k < bound → test k ≡ true
unfolding all_below
all_below_sound zero test k whole below = absurd (omega arith)
all_below_sound (suc last) test k whole below = elim (Bool-cases (k == last)) [
  | inl top ↦ ground (arith, ==_iff k last)
  | inr lower ↦ ground (arith, all_below_sound last test k)
]

-- A `u_short` sum and difference.
abbrev pub add16 : ℕ → ℕ → ℕ
add16 a b = (a + b) % 2 ^ 16

abbrev pub sub16 : ℕ → ℕ → ℕ
sub16 a b = (a + 2 ^ 16 - b) % 2 ^ 16

-- `x & m` is not zero.
abbrev pub has_bits : ℕ → ℕ → Bool
has_bits x m = not (bit_and x m == 0)

-- The numbers of the `short` patterns in their order: 0 is the least, -2 ^ 15.
abbrev pub short_key : ℕ → ℕ
short_key pattern = (pattern + 2 ^ 15) % 2 ^ 16
