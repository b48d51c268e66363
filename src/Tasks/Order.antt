-- ===== src/Tasks/Order.antt =====
-- `ReadyAdd` keeps the ready list in order of priority, first come first served.
use mathlib.Core.List.{append-nil}
use demoscene.Prelude.{
  count, All, All-mono, ℕ, ◌+◌, ◌-◌, ◌≤◌, ◌<◌, ◌≡◌, refl, inl, inr, List, [], ◌∷◌, ◌++◌, arith, leb,
  leb→le, ◌==◌, Bool-cases, if◌then◌else◌,
}
use demoscene.Tasks.{insert_by_prio, remove}

module _ (prio : ℕ → ℕ) where
  -- No task stands before one of higher priority.
  abbrev pub IsSorted : List ℕ → Type 0
  IsSorted [] = Unit
  IsSorted (x ∷ xs) = All (λ y. prio x ≤ prio y) xs × IsSorted xs

  -- The tasks of one priority, in the order of the list.
  abbrev pub at_prio : ℕ → List ℕ → List ℕ
  at_prio k [] = []
  at_prio k (x ∷ xs) = if prio x == k then x ∷ at_prio k xs else at_prio k xs

  All-insert :
      (P : ℕ → Type 0) (x : ℕ) (xs : List ℕ) → P x → All P xs → All P (insert_by_prio prio x xs)
  unfolding insert_by_prio
  All-insert P x [] hx h = (hx, tt)
  All-insert P x (y ∷ ys) hx (hy, h) = elim (Bool-cases (leb (prio y) (prio x))) [
    | inl before ↦ rw before (hy, All-insert P x ys hx h)
    | inr after ↦ rw after (hx, (hy, h))
  ]

  pub insert-IsSorted : (x : ℕ) (xs : List ℕ) → IsSorted xs → IsSorted (insert_by_prio prio x xs)
  unfolding insert_by_prio
  insert-IsSorted x [] s = (tt, tt)
  insert-IsSorted x (y ∷ ys) (h, s) = elim (Bool-cases (leb (prio y) (prio x))) [
    | inl before ↦ rw before (All-insert _ x ys (leb→le _ _ before) h, insert-IsSorted x ys s)
    | inr after ↦ rw after ((ground arith, All-mono ys (λ z le. ground arith) h), (h, s))
  ]

  pub count-insert :
      (t x : ℕ) (xs : List ℕ)
      → count t (insert_by_prio prio x xs) ≡ count t xs + (if x == t then 1 else 0)
  unfolding insert_by_prio
  count-insert t x [] = ground arith
  count-insert t x (y ∷ ys) = ground (arith, count-insert t x ys)

  at_prio-none : (k : ℕ) (xs : List ℕ) → All (λ y. k < prio y) xs → at_prio k xs ≡ []
  at_prio-none k [] h = refl
  at_prio-none k (y ∷ ys) (h, t) = ground (arith, at_prio-none k ys t)

  pub at_prio-insert :
      (k x : ℕ) (xs : List ℕ)
      → IsSorted xs
      → at_prio k (insert_by_prio prio x xs) ≡ at_prio k xs ++ (if prio x == k then x ∷ [] else [])
  unfolding insert_by_prio
  at_prio-insert k x [] s = refl
  at_prio-insert k x (y ∷ ys) (h, s) = elim (Bool-cases (leb (prio y) (prio x))) [
    | inl before ↦ ground (arith, at_prio-insert k x ys s)
    | inr after ↦ elim (Bool-cases (prio x == k)) [
      | inl same ↦
          let later : All (λ z. k < prio z) (y ∷ ys) =
            (ground arith, All-mono ys (λ z le. ground arith) h) in
          rw (after, same, at_prio-none k (y ∷ ys) later)
      | inr other ↦ rw (after, other, append-nil)
    ]
  ]

  -- `ReadyAdd` on a list in order: the list stays in order, it gains exactly the task, and within
  -- each priority the new task comes last and the others keep their order.
  pub insert_by_prio_lem :
      (x : ℕ) (xs : List ℕ)
      → IsSorted xs
      → IsSorted (insert_by_prio prio x xs)
        × ((t : ℕ) → count t (insert_by_prio prio x xs) ≡ count t xs + (if x == t then 1 else 0))
        × ((k : ℕ)
            → at_prio k (insert_by_prio prio x xs)
              ≡ at_prio k xs ++ (if prio x == k then x ∷ [] else []))
  insert_by_prio_lem x xs s =
      (insert-IsSorted x xs s, λ t. count-insert t x xs, λ k. at_prio-insert k x xs s)

  pub remove-All : (P : ℕ → Type 0) (x : ℕ) (xs : List ℕ) → All P xs → All P (remove x xs)
  unfolding remove
  remove-All P x [] h = h
  remove-All P x (y ∷ ys) (hy, h) = elim (Bool-cases (y == x)) [
    | inl same ↦ rw same h
    | inr other ↦ rw other (hy, remove-All P x ys h)
  ]

  pub remove-IsSorted : (x : ℕ) (xs : List ℕ) → IsSorted xs → IsSorted (remove x xs)
  unfolding remove
  remove-IsSorted x [] s = s
  remove-IsSorted x (y ∷ ys) (h, s) = elim (Bool-cases (y == x)) [
    | inl same ↦ rw same s
    | inr other ↦ rw other (remove-All _ x ys h, remove-IsSorted x ys s)
  ]

pub count-remove :
    (t x : ℕ) (xs : List ℕ) → count t (remove x xs) ≡ count t xs - (if x == t then 1 else 0)
unfolding remove
count-remove t x [] = ground arith
count-remove t x (y ∷ ys) = ground (arith, count-remove t x ys)

-- Order depends on the priorities alone.
pub IsSorted-ext :
    (p q : ℕ → ℕ) (xs : List ℕ) → ((t : ℕ) → p t ≡ q t) → IsSorted p xs → IsSorted q xs
IsSorted-ext p q [] e s = tt
IsSorted-ext p q (x ∷ xs) e (h, s) =
    (All-mono xs (λ y le. omega (arith, e x, e y)) h, IsSorted-ext p q xs e s)
