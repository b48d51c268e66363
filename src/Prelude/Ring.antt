-- ===== src/Prelude/Ring.antt =====
-- A queue kept in an array whose index goes round at `period`: what a run of slots holds.
use demoscene.Prelude.Tests.{ltb, if◌then◌else◌}
use demoscene.Prelude.Lists.{length, get_or, set, get_or-set_self, get_or-set_ne}
use Prim.Native.Nat.{ℕ, zero, suc, ◌+◌, ◌-◌, ◌≤◌, ◌<◌}
use mathlib.Core.Path.{◌≡◌, refl, ap₂}
use mathlib.Core.List.{List, [], ◌∷◌, ◌++◌}
use native.Mathlib.Omega.{arith}

-- The index `k` places after `h`, for `k` at most one round.
abbrev pub slot : ℕ → ℕ → ℕ → ℕ
slot period h k = if ltb (h + k) period then h + k else h + k - period

module _ {ℓ} {A : Type ℓ} (period : ℕ) (default : A) where
  -- The `n` elements from index `h` on.
  abbrev pub window : List A → ℕ → ℕ → List A
  window buf h zero = []
  window buf h (suc n) = get_or buf h default ∷ window buf (slot period h 1) n

  pub length-window : (buf : List A) (h n : ℕ) → length (window buf h n) ≡ n
  length-window buf h zero = refl
  length-window buf h (suc n) = omega (arith, length-window buf (slot period h 1) n)

  -- A write past the run leaves it alone, and extends it where it follows at once.
  pub window-set :
      (buf : List A) (x : A) (n h i : ℕ)
      → period ≤ length buf
      → h < period
      → n < period
      → i ≡ slot period h n
      → window (set buf i x) h (suc n) ≡ window buf h n ++ (x ∷ [])
  window-set buf x zero h i room inside fits e = ground (arith, get_or-set_self buf h x default)
  window-set buf x (suc n) h i room inside fits e =
      ap₂ ◌∷◌ (get_or-set_ne buf {i = i} {j = h} x default (ground arith))
        (window-set buf x n (slot period h 1) i room (ground arith) (ground arith) (ground arith))
