-- ===== src/Memory/Restore.antt =====
-- With nothing in use an arena is one free block again.
use demoscene.Prelude.{
  ℕ, ◌+◌, ◌-◌, ◌<◌, ◌≡◌, sym, ap, ◌∙◌, Bool, true, false, not, arith, ◌==◌, if◌then◌else◌, All,
  List, [], ◌∷◌, count, Gives-some, ◌||◌, some, ◌>>=◌,
}
use demoscene.Memory.{Arena, add_memory}
use demoscene.Memory.Tags.{Cell}
use demoscene.Memory.Layout.{At, free_bit, free_size_free}
use demoscene.Memory.Live.{used_here, count_used}
use demoscene.Memory.Requests.{
  Heap, IsFine, Region, Request, finish_of, run, run-InOrder_of_add, start_of,
}

-- With nothing in use there is one free block, since no two neighbours are free.
unused : (at : ℕ) (c : Cell) → used_here (at + 4) at c ≡ 0 → c.is_used ≡ false
unused at c e = ground arith

not_both_free : (u w : Bool) → u ≡ false → w ≡ false → (w || not (not u)) ≡ true → ⊥
not_both_free u w eu ew h = ground arith

singleton : (a : ℕ) (xs : List ℕ) → ((b : ℕ) → count b xs ≡ (if a == b then 1 else 0)) → xs ≡ a ∷ []
singleton a [] h = absurd (ground (arith, h a))
singleton a (x ∷ []) h = ground (arith, h x)
singleton a (x ∷ y ∷ zs) h = absurd (ground (arith, h x, h y))

only_block :
    (ar : Arena) (cells : List Cell)
    → ar.start < ar.finish
    → At ar [] cells
    → ((p : ℕ) → count_used p ar.start cells ≡ 0)
    → (ar.total_free ≡ ar.finish - ar.start - 8) × (ar.free_list ≡ ar.start ∷ [])
only_block ar [] lt v none_used = absurd (omega (arith, v.ahead))
only_block ar (c ∷ []) lt v none_used =
    let c_free = unused ar.start c (omega (arith, none_used (ar.start + 4))) in
    (
      omega (arith, v.counted, free_size_free c c_free, v.ahead.1),
      singleton ar.start ar.free_list λ b. v.listed b ∙ omega (arith, free_bit b ar.start c c_free),
    )
only_block ar (c ∷ d ∷ cs) lt v none_used =
    let c_free = unused ar.start c (omega (arith, none_used (ar.start + 4))) in
    let d_free = unused (ar.start + c.size) d (omega (arith, none_used (ar.start + c.size + 4))) in
    absurd (not_both_free c.is_used d.is_used c_free d_free v.order_ahead.1.0.apart)

-- If nothing is in use after such requests, the arena is one free block again: its one listed block is the
-- first of the arena, and the count of free bytes is that of the new arena.
pub run_restores :
    (ptr size attributes : ℕ) (words : ℕ → ℕ) (rs : List Request) (h : Heap)
    → Region ptr size words
    → All IsFine rs
    → (do ar ← add_memory ptr size attributes words; run rs (record { arena = ar; live = [] }))
      ≡ some h
    → h.live ≡ []
    → (h.arena.free_list ≡ start_of ptr ∷ [])
      × (h.arena.total_free ≡ finish_of ptr size - start_of ptr - 8)
run_restores ptr size attributes words rs h g fine e nothing =
    let v =
      Gives-some
        (do ar ← add_memory ptr size attributes words; run rs (record { arena = ar; live = [] })) h
        (run-InOrder_of_add ptr size attributes words rs g fine) e in
    let only =
      only_block h.arena v.cells (omega (arith, v.from_start, v.to_finish, g.large)) v.view (λ p.
        ap (λ s. count_used p s v.cells) v.from_start
        ∙ sym (v.live_blocks p)
        ∙ ap (count p) nothing) in
    (only.1 ∙ ap (λ s. s ∷ []) v.from_start, omega (arith, only.0, v.from_start, v.to_finish))
