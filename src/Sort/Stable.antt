-- ===== src/Sort/Stable.antt =====
-- `InsertSort` is a stable sort.
use demoscene.Prelude.{
  All, All-mono, ℕ, ◌≤◌, ◌≡◌, refl, ap, ◌∙◌, true, false, List, [], ◌∷◌, ltb, ◌==◌, arith, inl, inr,
  Bool-cases, if◌then◌else◌,
}
use Prim.{Unit, tt}
use demoscene.Sort.{SortItem, rank, insert_item, insert_rest, rev_onto, insert_sort}

-- All keys are at most, or at least, `k`.
abbrev AtMost : ℕ → List SortItem → Type 0
AtMost k = All (λ x. rank x ≤ k)

abbrev pub AtLeast : ℕ → List SortItem → Type 0
AtLeast k = All (λ x. k ≤ rank x)

abbrev Descending : List SortItem → Type 0
Descending [] = Unit
Descending (x ∷ xs) = AtMost (rank x) xs × Descending xs

abbrev pub Ascending : List SortItem → Type 0
Ascending [] = Unit
Ascending (x ∷ xs) = AtLeast (rank x) xs × Ascending xs

-- All keys of one list are at most those of another.
abbrev Below : List SortItem → List SortItem → Type 0
Below [] ys = Unit
Below (x ∷ xs) ys = AtLeast (rank x) ys × Below xs ys

insert_less :
    (this prev : SortItem) (xs : List SortItem)
    → ltb (rank this) (rank prev) ≡ true
    → insert_item this (prev ∷ xs) ≡ prev ∷ insert_item this xs
unfolding insert_item
insert_less this prev xs less = rw (less, insert_item) refl

insert_here :
    (this prev : SortItem) (xs : List SortItem)
    → ltb (rank this) (rank prev) ≡ false
    → insert_item this (prev ∷ xs) ≡ this ∷ prev ∷ xs
unfolding insert_item
insert_here this prev xs not_less = rw (not_less, insert_item) refl

AtMost-insert_item :
    (k : ℕ) (this : SortItem) (xs : List SortItem)
    → rank this ≤ k
    → AtMost k xs
    → AtMost k (insert_item this xs)
unfolding insert_item
AtMost-insert_item k this [] le h = (le, tt)
AtMost-insert_item k this (prev ∷ xs) le (h, hs) = elim (Bool-cases (ltb (rank this) (rank prev))) [
  | inl less ↦ rw (insert_less this prev xs less) (h, AtMost-insert_item k this xs le hs)
  | inr not_less ↦ rw (insert_here this prev xs not_less) (le, (h, hs))
]

Descending-insert_item :
    (this : SortItem) (xs : List SortItem) → Descending xs → Descending (insert_item this xs)
unfolding insert_item
Descending-insert_item this [] d = (tt, tt)
Descending-insert_item this (prev ∷ xs) (h, d) = elim (Bool-cases (ltb (rank this) (rank prev))) [
  | inl less ↦
      rw (insert_less this prev xs less)
        (AtMost-insert_item (rank prev) this xs (ground arith) h, Descending-insert_item this xs d)
  | inr not_less ↦
      let le : rank prev ≤ rank this = ground arith in
      rw (insert_here this prev xs not_less) ((le, All-mono xs (λ y lower. omega arith) h), (h, d))
]

Descending-insert_rest :
    (sorted rest : List SortItem) → Descending sorted → Descending (insert_rest sorted rest)
unfolding insert_rest
Descending-insert_rest sorted [] d = d
Descending-insert_rest sorted (this ∷ rest) d =
    Descending-insert_rest (insert_item this sorted) rest (Descending-insert_item this sorted d)

Below-cons :
    (x : SortItem) (xs ys : List SortItem) → AtMost (rank x) xs → Below xs ys → Below xs (x ∷ ys)
Below-cons x [] ys h b = tt
Below-cons x (z ∷ xs) ys (h, hs) (b, bs) = ((h, b), Below-cons x xs ys hs bs)

Ascending-rev_onto :
    (xs ys : List SortItem)
    → Descending xs
    → Ascending ys
    → Below xs ys
    → Ascending (rev_onto xs ys)
Ascending-rev_onto [] ys d a b = a
Ascending-rev_onto (x ∷ xs) ys (h, d) a (b, bs) =
    Ascending-rev_onto xs (x ∷ ys) d (b, a) (Below-cons x xs ys h bs)

Below-nil : (xs : List SortItem) → Below xs []
Below-nil [] = tt
Below-nil (x ∷ xs) = (tt, Below-nil xs)

-- The items of one key, in their order.
abbrev pub with_key : ℕ → List SortItem → List SortItem
with_key k [] = []
with_key k (x ∷ xs) = let rest = with_key k xs in if rank x == k then x ∷ rest else rest

with_key-insert_item :
    (k : ℕ) (this : SortItem) (xs : List SortItem)
    → with_key k (insert_item this xs) ≡ with_key k (this ∷ xs)
unfolding insert_item
with_key-insert_item k this [] = refl
with_key-insert_item k this (prev ∷ xs) = elim (Bool-cases (ltb (rank this) (rank prev))) [
  | inr not_less ↦ rw (insert_here this prev xs not_less) refl
  | inl less ↦
      let ih = with_key-insert_item k this xs in
      elim (Bool-cases (rank prev == k)) [
        | inl same ↦
            let other : (rank this == k) ≡ false = ground arith in
            rw (insert_less this prev xs less, ih, same, other) refl
        | inr apart ↦ rw (insert_less this prev xs less, ih, apart) refl
      ]
]

with_key-rev_onto :
    (k : ℕ) (xs ys : List SortItem)
    → with_key k (rev_onto xs ys) ≡ rev_onto (with_key k xs) (with_key k ys)
with_key-rev_onto k [] ys = refl
with_key-rev_onto k (x ∷ xs) ys = elim (Bool-cases (rank x == k)) [
  | inl same ↦ with_key-rev_onto k xs (x ∷ ys) ∙ rw same refl
  | inr apart ↦ with_key-rev_onto k xs (x ∷ ys) ∙ rw apart refl
]

with_key-insert_rest :
    (k : ℕ) (sorted rest : List SortItem)
    → with_key k (insert_rest sorted rest) ≡ rev_onto (with_key k rest) (with_key k sorted)
unfolding insert_rest
with_key-insert_rest k sorted [] = refl
with_key-insert_rest k sorted (this ∷ rest) =
    with_key-insert_rest k (insert_item this sorted) rest
    ∙ ap (rev_onto (with_key k rest)) (with_key-insert_item k this sorted)
    ∙ elim (Bool-cases (rank this == k)) [ inl same ↦ rw same refl | inr apart ↦ rw apart refl ]

rev_onto-rev_onto : (xs ys : List SortItem) → rev_onto (rev_onto xs ys) [] ≡ rev_onto ys xs
rev_onto-rev_onto [] ys = refl
rev_onto-rev_onto (x ∷ xs) ys = rev_onto-rev_onto xs (x ∷ ys)

pub record StablySorted (items r : List SortItem) : Type 0 where
  pub ascending : Ascending r
  pub same_items : (k : ℕ) → with_key k r ≡ with_key k items

-- `InsertSort` puts the items in ascending order of their keys, and keeps exactly the items of each
-- key, in the order in which they were.
pub insert_sort-StablySorted : (items : List SortItem) → StablySorted items (insert_sort items)
unfolding insert_sort
insert_sort-StablySorted items = record {
  ascending =
      Ascending-rev_onto (insert_rest [] items) [] (Descending-insert_rest [] items tt) tt
        (Below-nil (insert_rest [] items));
  same_items = λ k.
      with_key-rev_onto k (insert_rest [] items) []
      ∙ ap (λ l. rev_onto l []) (with_key-insert_rest k [] items)
      ∙ rev_onto-rev_onto (with_key k items) [];
}
