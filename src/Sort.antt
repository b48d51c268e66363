-- ===== src/Sort.antt =====
-- `InsertSort` of lib/libmisc/sort.c, the sort of short runs.
pub mod Stable
mod Tests
use demoscene.Prelude.{ℕ, Bool, true, false, List, [], ◌∷◌, ltb, short_key}

pub record SortItem : Type 0 where
  pub key : ℕ
  pub index : ℕ

-- The order of the keys, which are `short`s.
abbrev pub rank : SortItem → ℕ
rank item = short_key item.key

-- The inner loop, over the sorted items before `this`, the nearest first: those with a greater key
-- move up by one, and `this` goes to the gap.
unfoldable pub insert_item : SortItem → List SortItem → List SortItem
insert_item this [] = this ∷ []
insert_item this (prev ∷ before) = elim (ltb (rank this) (rank prev)) [
  | true ↦ prev ∷ insert_item this before
  | false ↦ this ∷ prev ∷ before
]

-- The outer loop: the sorted items, the last first, and the rest of the array.
unfoldable pub insert_rest : (sorted rest : List SortItem) → List SortItem
insert_rest sorted [] = sorted
insert_rest sorted (this ∷ rest) = insert_rest (insert_item this sorted) rest

-- The items of a list in reverse order, then those of another.
abbrev pub rev_onto : {A : Type 0} → List A → List A → List A
rev_onto [] ys = ys
rev_onto (x ∷ xs) ys = rev_onto xs (x ∷ ys)

-- The array from `first` to `last` after `InsertSort`.
unfoldable pub insert_sort : List SortItem → List SortItem
insert_sort items = rev_onto (insert_rest [] items) []
