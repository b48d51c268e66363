-- ===== src/Sort/Tests.antt =====
-- Sorting a concrete array.
use demoscene.Prelude.{ℕ, List, [], ◌∷◌, ◌≡◌, refl}
use demoscene.Sort.{SortItem, insert_item, insert_rest, insert_sort}
use demoscene.Sort.Stable.{StablySorted, insert_sort-StablySorted}

abbrev item : ℕ → ℕ → SortItem
item key index = record { key = key; index = index }

abbrev items : List SortItem
items = item 5 0 ∷ item 65535 1 ∷ item 3 2 ∷ item 5 3 ∷ []

insert_sort_runs : insert_sort items ≡ (item 65535 1 ∷ item 3 2 ∷ item 5 0 ∷ item 5 3 ∷ [])
unfolding insert_sort insert_rest insert_item
insert_sort_runs = refl

insert_sort-StablySorted_example : StablySorted items (insert_sort items)
insert_sort-StablySorted_example = insert_sort-StablySorted items
