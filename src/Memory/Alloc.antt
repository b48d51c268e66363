-- ===== src/Memory/Alloc.antt =====
-- What a call of `ArenaMemAlloc` comes to.
pub mod Split
pub mod Whole
use demoscene.Prelude.{
  ℕ, ◌+◌, ◌-◌, ◌%◌, ◌^◌, ◌≤◌, ◌<◌, ◌≡◌, refl, sym, ap, subst, ◌∙◌, inl, inr, Bool, true, false,
  arith, ◌==◌, ==_iff, if◌then◌else◌, Bool-cases, ltb, ltb→lt, All, All-count, List, [], ◌∷◌, count,
  Gives, gives, Gives-bind, Option, none, some, ◌>>=◌,
}
use demoscene.Memory.{
  Arena, block_size, int_max, arena_find_fit, free_remove, without, carve, arena_mem_alloc,
}
use demoscene.Memory.Bt
use demoscene.Memory.Tags.{Cell}
use demoscene.Memory.Blocks.{Reads, tag-Reads, place}
use demoscene.Memory.Layout.{At, FreeAt, find_free, all_of, rewind}
use demoscene.Memory.Edits.{without-Removed}
use demoscene.Memory.Alloc.Whole.{take_whole}
use demoscene.Memory.Alloc.Split.{
  exactly, first_part, second_part, taken, clear_first, carved, split-At,
}
use demoscene.Memory.BestFit.{BestFit, OneOf, arena_find_fit_lem}

count-OneOf : (b : ℕ) (xs : List ℕ) → OneOf b xs → 0 < count b xs
count-OneOf b [] h = absurd h
count-OneOf b (x ∷ xs) (inl e) = ground (arith, e)
count-OneOf b (x ∷ xs) (inr h) = ground (arith, count-OneOf b xs h)

pub listed_free :
    (ar : Arena) (b : ℕ) (cells : List Cell)
    → At ar [] cells
    → 0 < count b ar.free_list
    → FreeAt ar b cells
listed_free ar b cells v pos = find_free ar b [] cells v (omega (arith, v.listed b))

size_found :
    (ar : Arena) (b : ℕ) (cells : List Cell) (f : FreeAt ar b cells)
    → Bt.size ar.words b ≡ f.cell.size
size_found ar b cells f =
    ap (λ a. Bt.size ar.words a) (sym f.address)
    ∙ (tag-Reads ar.words (place ar.start f.before) f.cell f.view.ahead.0.sized
        f.view.ahead.0.header).size_read

-- The block `bt` has been taken for `reqsz` bytes: it was the smallest free block of sufficient size, the
-- arena is in order with its place used, and no block but its neighbour has another header.
pub record Taken (ar : Arena) (cells : List Cell) (reqsz bt : ℕ) (ar' : Arena) : Type 0 where
  pub before : List Cell
  pub cell : Cell
  pub after : List Cell
  pub was : all_of before (cell ∷ after) ≡ cells
  pub was_free : cell.is_used ≡ false
  pub address : place ar.start before ≡ bt
  pub enough : reqsz ≤ cell.size
  pub best : All (λ b. reqsz ≤ Bt.size ar.words b → cell.size ≤ Bt.size ar.words b) ar.free_list
  pub in_order : At ar' [] (all_of before (carved reqsz cell after))

-- Either an arena without a free block of that size is left alone, or a block is taken.
abbrev pub Allocated : Arena → List Cell → ℕ → Option ℕ × Arena → Type 0
Allocated ar cells reqsz (none, ar') =
    (ar' ≡ ar) × All (λ b. Bt.size ar.words b < reqsz) ar.free_list
Allocated ar cells reqsz (some bt, ar') = Taken ar cells reqsz bt ar'

carved-At :
    (ar : Arena) (cells : List Cell) (reqsz bt : ℕ) (bs : List ℕ) (f : FreeAt ar bt cells)
    → reqsz % 16 ≡ 0
    → 16 ≤ reqsz
    → reqsz ≤ f.cell.size
    → ((b : ℕ) → count b ar.free_list ≡ count b bs + (if bt == b then 1 else 0))
    → At
        (carve bt reqsz (Bt.size ar.words bt) (record ar { free_list = bs }))
        []
        (all_of f.before (carved reqsz f.cell f.after))
carved-At ar cells reqsz bt bs f aligned large enough off =
    let c = f.cell in
    let off' =
      subst (λ a. (b : ℕ) → count b ar.free_list ≡ count b bs + (if a == b then 1 else 0))
        (sym f.address) off in
    let ar' = record ar { free_list = bs } in
    subst (λ s. At (carve bt reqsz s ar') [] (all_of f.before (carved reqsz c f.after)))
      (sym (size_found ar bt cells f))
      (subst (λ a. At (carve a reqsz c.size ar') [] (all_of f.before (carved reqsz c f.after)))
        f.address
        (elim (Bool-cases (ltb reqsz c.size)) [
          | inl less ↦ rw less (
              rewind (carve (place ar.start f.before) reqsz c.size ar') f.before (first_part reqsz)
                (second_part reqsz c ∷ f.after)
                (split-At ar f.before c f.after reqsz bs f.view f.is_free off' aligned large less))
          | inr not_less ↦ rw not_less (
              subst
                (λ r.
                  At (carve (place ar.start f.before) r c.size ar') []
                    (all_of f.before (taken c ∷ clear_first f.after)))
                (exactly reqsz c.size enough not_less)
                (rewind (carve (place ar.start f.before) c.size c.size ar') f.before (taken c)
                  (clear_first f.after)
                  (take_whole ar f.before c f.after bs f.view f.is_free off')))
        ]))

take_block :
    (ar : Arena) (cells : List Cell) (reqsz bt : ℕ)
    → At ar [] cells
    → reqsz % 16 ≡ 0
    → 16 ≤ reqsz
    → BestFit (Bt.size ar.words) reqsz ar.free_list (some bt)
    → Gives
        (Allocated ar cells reqsz)
        (do ar' ← free_remove bt ar; some (some bt, carve bt reqsz (Bt.size ar.words bt) ar'))
take_block ar cells reqsz bt v aligned large (i, enough, best) =
    let pos = count-OneOf bt ar.free_list i in
    let f = listed_free ar bt cells v pos in
    let size = size_found ar bt cells f in
    let le : reqsz ≤ f.cell.size = omega (arith, size) in
    let removed : Gives
        (λ ar'.
          At (carve bt reqsz (Bt.size ar.words bt) ar') []
            (all_of f.before (carved reqsz f.cell f.after)))
        (free_remove bt ar) =
      Gives-bind (without-Removed bt ar.free_list pos)
        (λ bs off. gives (carved-At ar cells reqsz bt bs f aligned large le off)) in
    Gives-bind removed λ ar' k. gives (record {
      before = f.before;
      cell = f.cell;
      after = f.after;
      was = f.whole;
      was_free = f.is_free;
      address = f.address;
      enough = le;
      best =
          subst (λ s. All (λ b. reqsz ≤ Bt.size ar.words b → s ≤ Bt.size ar.words b) ar.free_list)
            size best;
      in_order = k;
    })

-- `ArenaMemAlloc` of an arena in order, for a size that does not overflow with its overhead: it ends
-- and does not crash. If the free list has a block of sufficient size, the smallest such block is
-- taken, and split if it is larger; the arena is in order again, with exactly the blocks that
-- result. If it has none, the arena is as before and there is no block.
pub arena_mem_alloc-Allocated :
    (size : ℕ) (ar : Arena) (cells : List Cell)
    → size + 23 < 2 ^ 32
    → At ar [] cells
    → Gives (Allocated ar cells (block_size size)) (arena_mem_alloc size ar)
unfolding arena_mem_alloc
arena_mem_alloc-Allocated size ar cells room v = taking (arena_find_fit ar (block_size size)) (
    arena_find_fit_lem ar (block_size size) (
      All-count ar.free_list λ b pos.
        let f = listed_free ar b cells v pos in
        omega (
          arith,
          size_found ar b cells f,
          f.view.ahead.0.sized.small,
          f.view.ahead.0.sized.aligned,
        )))
  where
    taking :
        (o : Option ℕ)
        → BestFit (Bt.size ar.words) (block_size size) ar.free_list o
        → Gives (Allocated ar cells (block_size size)) (elim o [
          | none ↦ some (none, ar)
          | some bt ↦ do
            ar' ← free_remove bt ar
            some (some bt, carve bt (block_size size) (Bt.size ar.words bt) ar')
        ])
    taking none h = gives (refl, h)
    taking (some bt) h = take_block ar cells (block_size size) bt v (omega arith) (omega arith) h
