-- ===== src/Memory/BestFit.antt =====
-- `ArenaFindFit` finds a best fit.
use demoscene.Prelude.{
  ◌⊎◌, ℕ, ◌≤◌, ◌<◌, ◌≡◌, refl, sym, ap, ◌≢◌, inl, inr, ◌&&◌, Option, none, some, List, [], ◌∷◌,
  arith, ltb, ◌==◌, ==_iff, Bool-cases, All,
}
use demoscene.Memory.Bt
use demoscene.Memory.{Arena, int_max, find_fit, arena_find_fit}

abbrev pub OneOf : ℕ → List ℕ → Type 0
OneOf b [] = ⊥
OneOf b (x ∷ xs) = (b ≡ x) ⊎ OneOf b xs

-- `o` is a block of the list of the least size that is at least `reqsz`, or, if there is none, `none`.
abbrev pub BestFit : (ℕ → ℕ) → ℕ → List ℕ → Option ℕ → Type 0
BestFit size reqsz bts none = All (λ b. size b < reqsz) bts
BestFit size reqsz bts (some b) =
    OneOf b bts × (reqsz ≤ size b) × All (λ c. reqsz ≤ size c → size b ≤ size c) bts

All-any : {P : ℕ → Type 0} (xs : List ℕ) → ((x : ℕ) → P x) → All P xs
All-any [] f = tt
All-any (x ∷ xs) f = (f x, All-any xs f)

module _ (words : ℕ → ℕ) (reqsz : ℕ) where
  abbrev size : ℕ → ℕ
  size b = Bt.size words b

  -- What the loop knows of `best` and `bestsz`.
  abbrev Known : Option ℕ → ℕ → Type 0
  Known none bestsz = bestsz ≡ int_max
  Known (some b) bestsz = (size b ≡ bestsz) × (reqsz < bestsz)

  -- What the loop gives from `best` and `bestsz` on.
  abbrev Outcome : Option ℕ → ℕ → List ℕ → Option ℕ → Type 0
  Outcome best bestsz bts none = (best ≡ none) × All (λ c. size c < reqsz) bts
  Outcome best bestsz bts (some b) =
      ((best ≡ some b) ⊎ OneOf b bts)
      × (reqsz ≤ size b)
      × (size b ≤ bestsz)
      × All (λ c. reqsz ≤ size c → size b ≤ size c) bts

  at_most :
      (best : Option ℕ) (bestsz n : ℕ) → Known best bestsz → n ≤ reqsz → n < int_max → n ≤ bestsz
  at_most none bestsz n k le lt = omega arith
  at_most (some b) bestsz n k le lt = omega arith

  some-value : {a b : ℕ} → some a ≡ some b → a ≡ b
  some-value {a} e = ap (λ o. elim o as (λ x. ℕ) [ none ↦ a | some n ↦ n ]) e

  taken :
      (best : Option ℕ) (bestsz bt : ℕ) (bts : List ℕ) (o : Option ℕ)
      → size bt < bestsz
      → Outcome (some bt) (size bt) bts o
      → Outcome best bestsz (bt ∷ bts) o
  taken best bestsz bt bts none lt (e, h) = absurd (ground arith)
  taken best bestsz bt bts (some b) lt (inl e, le, sz, h) =
      (inr (inl (sym (some-value e))), le, omega arith, ((λ r. sz), h))
  taken best bestsz bt bts (some b) lt (inr i, le, sz, h) =
      (inr (inr i), le, omega arith, ((λ r. sz), h))

  passed :
      (best : Option ℕ) (bestsz bt : ℕ) (bts : List ℕ) (o : Option ℕ)
      → Known best bestsz
      → size bt < int_max
      → size bt ≢ reqsz
      → (reqsz < size bt → bestsz ≤ size bt)
      → Outcome best bestsz bts o
      → Outcome best bestsz (bt ∷ bts) o
  passed none bestsz bt bts none k lt ne worse (e, h) = (e, (grind arith, h))
  passed (some b) bestsz bt bts none k lt ne worse (e, h) = absurd (ground arith)
  passed best bestsz bt bts (some b) k lt ne worse (inl e, le, sz, h) =
      (inl e, le, sz, ((λ r. grind arith), h))
  passed best bestsz bt bts (some b) k lt ne worse (inr i, le, sz, h) =
      (inr (inr i), le, sz, ((λ r. grind arith), h))

  pub find_fit-Outcome :
      (best : Option ℕ) (bestsz : ℕ) (bts : List ℕ)
      → Known best bestsz
      → All (λ b. size b < int_max) bts
      → Outcome best bestsz bts (find_fit words reqsz best bestsz bts)
  unfolding find_fit
  find_fit-Outcome none bestsz [] k h = (refl, tt)
  find_fit-Outcome (some b) bestsz [] k h = (inl refl, omega arith, omega arith, tt)
  find_fit-Outcome best bestsz (bt ∷ bts) k (lt, h) = elim (Bool-cases (size bt == reqsz)) [
    | inl same ↦
        let e = (==_iff _ _).0 same in
        rw same (
          inr (inl refl),
          omega arith,
          at_most best bestsz (size bt) k (omega arith) lt,
          ((λ r. omega arith), All-any bts (λ c r. omega arith)),
        )
    | inr other ↦ elim (Bool-cases (ltb reqsz (size bt) && ltb (size bt) bestsz)) [
      | inl better ↦
          rw (other, better)
            (taken best bestsz bt bts _ (ground arith)
              (find_fit-Outcome (some bt) (size bt) bts (refl, ground arith) h))
      | inr worse ↦
          rw (other, worse)
            (passed best bestsz bt bts _ k lt (ground arith) (λ r. ground arith)
              (find_fit-Outcome best bestsz bts k h))
    ]
  ]

-- `ArenaFindFit`, all free blocks being smaller than INT_MAX: the block that it gives is on the free
-- list, is large enough, and is no larger than any other that is; it gives none only if each free
-- block is too small.
pub arena_find_fit_lem :
    (ar : Arena) (reqsz : ℕ)
    → All (λ b. Bt.size ar.words b < int_max) ar.free_list
    → BestFit (Bt.size ar.words) reqsz ar.free_list (arena_find_fit ar reqsz)
arena_find_fit_lem ar reqsz small =
    only (arena_find_fit ar reqsz)
      (find_fit-Outcome ar.words reqsz none int_max ar.free_list refl small)
  where
    only :
        (o : Option ℕ)
        → Outcome ar.words reqsz none int_max ar.free_list o
        → BestFit (Bt.size ar.words) reqsz ar.free_list o
    only none (e, h) = h
    only (some b) (inl e, le, sz, h) = absurd (ground arith)
    only (some b) (inr i, le, sz, h) = (i, le, h)
