-- ===== src/Prelude/Lists.antt =====
-- Lists measured and indexed by native numbers: C arrays.
use Prim.Native.Nat.{ℕ, zero, suc, ◌+◌, ◌<◌}
use mathlib.Core.Path.{◌≡◌, refl, ap, ap₂, ◌∙◌}
use mathlib.Core.Logic.{◌≢◌}
use mathlib.Core.List.{List, [], ◌∷◌, ◌++◌}
use native.Mathlib.Omega.{arith}
use demoscene.Prelude.Tests.{ltb, ◌==◌, if◌then◌else◌}

module _ {ℓ} {A : Type ℓ} where
  abbrev pub length : List A → ℕ
  length [] = 0
  length (x ∷ xs) = suc (length xs)

  abbrev pub get_or : List A → ℕ → A → A
  get_or [] i d = d
  get_or (x ∷ xs) zero d = x
  get_or (x ∷ xs) (suc i) d = get_or xs i d

  -- A write out of bounds changes nothing.
  abbrev pub set : List A → ℕ → A → List A
  set [] i v = []
  set (x ∷ xs) zero v = v ∷ xs
  set (x ∷ xs) (suc i) v = x ∷ set xs i v

  abbrev pub take : ℕ → List A → List A
  take zero xs = []
  take (suc n) [] = []
  take (suc n) (x ∷ xs) = x ∷ take n xs

  abbrev pub drop : ℕ → List A → List A
  drop zero xs = xs
  drop (suc n) [] = []
  drop (suc n) (x ∷ xs) = drop n xs

  abbrev pub replicate : ℕ → A → List A
  replicate zero a = []
  replicate (suc n) a = a ∷ replicate n a

  pub length-append : (xs ys : List A) → length (xs ++ ys) ≡ length xs + length ys
  length-append [] ys = omega arith
  length-append (x ∷ xs) ys = omega (arith, length-append xs ys)

  pub length-set : (xs : List A) (i : ℕ) (v : A) → length (set xs i v) ≡ length xs
  length-set [] i v = refl
  length-set (x ∷ xs) zero v = refl
  length-set (x ∷ xs) (suc i) v = ap suc (length-set xs i v)

  pub get_or-set_self :
      (xs : List A) (i : ℕ) (v d : A) → i < length xs → get_or (set xs i v) i d ≡ v
  get_or-set_self [] i v d h = absurd (omega arith)
  get_or-set_self (x ∷ xs) zero v d h = refl
  get_or-set_self (x ∷ xs) (suc i) v d h = get_or-set_self xs i v d (omega arith)

  pub get_or-set_ne :
      (xs : List A) {i j : ℕ} (v d : A) → i ≢ j → get_or (set xs i v) j d ≡ get_or xs j d
  get_or-set_ne [] v d h = refl
  get_or-set_ne (x ∷ xs) {i = zero} {j = zero} v d h = absurd (h refl)
  get_or-set_ne (x ∷ xs) {i = zero} {j = suc j} v d h = refl
  get_or-set_ne (x ∷ xs) {i = suc i} {j = zero} v d h = refl
  get_or-set_ne (x ∷ xs) {i = suc i} {j = suc j} v d h = get_or-set_ne xs v d (λ e. h (ap suc e))

  pub length-replicate : (n : ℕ) (a : A) → length (replicate n a) ≡ n
  length-replicate zero a = refl
  length-replicate (suc n) a = ap suc (length-replicate n a)

module _ {ℓ κ} {A : Type ℓ} where
  abbrev pub All : (A → Type κ) → List A → Type κ
  All P [] = Unit
  All P (x ∷ xs) = P x × All P xs

  pub All-mono : {P Q : A → Type κ} (xs : List A) → ((x : A) → P x → Q x) → All P xs → All Q xs
  All-mono [] f h = tt
  All-mono (x ∷ xs) f (h, t) = (f x h, All-mono xs f t)

-- How often a number stands on a list.
abbrev pub count : ℕ → List ℕ → ℕ
count t [] = 0
count t (u ∷ us) = if u == t then suc (count t us) else count t us

pub count-append : (t : ℕ) (xs ys : List ℕ) → count t (xs ++ ys) ≡ count t xs + count t ys
count-append t [] ys = omega arith
count-append t (x ∷ xs) ys = ground (arith, count-append t xs ys)

pub All-count : {P : ℕ → Type 0} (xs : List ℕ) → ((x : ℕ) → 0 < count x xs → P x) → All P xs
All-count [] f = tt
All-count (x ∷ xs) f = (f x (ground arith), All-count xs (λ y h. f y (ground arith)))

-- The values of `f` at `size` places from `start` on: a piece of an array.
module _ {ℓ} {A : Type ℓ} (f : ℕ → A) where
  abbrev pub slice : (start size : ℕ) → List A
  slice start zero = []
  slice start (suc n) = f start ∷ slice (suc start) n

  pub length-slice : (start size : ℕ) → length (slice start size) ≡ size
  length-slice start zero = refl
  length-slice start (suc n) = ap suc (length-slice (suc start) n)

  pub slice_split :
      (start m k n : ℕ) → m + k ≡ n → slice start n ≡ slice start m ++ slice (start + m) k
  slice_split start zero k n e = ap₂ slice (omega arith) (omega arith)
  slice_split start (suc m) k zero e = absurd (omega arith)
  slice_split start (suc m) k (suc n) e =
      ap (λ l. f start ∷ l)
        (slice_split (suc start) m k n (omega arith)
          ∙ ap (λ a. slice (suc start) m ++ slice a k) (omega arith))

pub get_or-slice :
    (f : ℕ → ℕ) (start size i : ℕ)
    → get_or (slice f start size) i 0 ≡ (if ltb i size then f (start + i) else 0)
get_or-slice f start zero i = ground arith
get_or-slice f start (suc n) zero = ground (arith, ap f {x = start} {y = start + 0} (omega arith))
get_or-slice f start (suc n) (suc i) =
    get_or-slice f (suc start) n i
    ∙ ground (arith, ap f {x = suc start + i} {y = start + suc i} (omega arith))
