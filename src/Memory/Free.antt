-- ===== src/Memory/Free.antt =====
-- What a call of `ArenaMemFree` comes to.
pub mod Next
pub mod Prev
use demoscene.Prelude.{
  ℕ, ◌+◌, ◌-◌, ◌%◌, ◌^◌, ◌≤◌, ◌<◌, ◌≡◌, refl, sym, ap, ap₂, subst, ◌∙◌, inl, inr, ◌⊎◌, Bool, true,
  false, not, ◌||◌, ◌&&◌, bit_or, arith, ◌==◌, if◌then◌else◌, has_bits, Bool-cases, List, [], ◌∷◌,
  ◌++◌, count, Gives, gives, Gives-bind, Gives-mono, Option, some, ◌>>=◌,
}
use demoscene.Memory.{Arena, usedblk_sz, free_insert, Freed, join_next, join_prev, arena_mem_free}
use demoscene.Memory.Bt
use demoscene.Memory.Bt.{canary, used}
use demoscene.Memory.Tags.{Cell, tag}
use demoscene.Memory.Blocks.{
  Placed, foot, Reads, tag-Reads, make-Placed, make_elsewhere, Chain, Chain-le, Chain-frame,
  Back-frame, place,
}
use demoscene.Memory.Layout.{
  At, Ordered, free_here, count_free, free_bytes, after_free, free_bit, used_bit, free_size_free,
  free_size_used, all_of, rewind, bytes_bound,
}
use demoscene.Memory.Edits.{count-added}
use demoscene.Memory.Free.Next.{Loose, joined_next, joined_prev, join_next-Loose}
use demoscene.Memory.Free.Prev.{Joined, join_prev-Joined}

-- The blocks after the block `c` is freed.
abbrev pub freed : List Cell → Cell → List Cell → List Cell
freed before c after =
    let (c1, after') = joined_next (record c { is_used = false }) after in
    let (before', c2) = joined_prev before c1 in all_of before' (c2 ∷ after')

-- `ArenaMemFree` as far as its first step.
abbrev pub begin_free : ℕ → ℕ → Arena → Freed
begin_free bt sz ar = record {
  bt = bt;
  sz = sz;
  memsz = sz - usedblk_sz;
  arena = record ar { words = Bt.make bt sz (Bt.flags ar.words bt) ar.words };
}

arena_mem_free_steps :
    (bt sz : ℕ) (ar : Arena)
    → Bt.size ar.words bt ≡ sz
    → Bt.is_used ar.words bt ≡ true
    → (ar.words (bt + sz - 4) == canary) ≡ true
    → arena_mem_free (bt + 4) ar ≡ (do
      f ← join_next (begin_free bt sz ar)
      f' ← join_prev f
      some (
          free_insert f'.bt
            (record f'.arena { total_free = (f'.arena.total_free + f'.memsz) % 2 ^ 32 })))
unfolding arena_mem_free
arena_mem_free_steps bt sz ar es u h =
    let back : bt + 4 - 4 ≡ bt = omega arith in rw (back, u, es, h) refl

module _ (ar : Arena) (before : List Cell) (c : Cell) (after : List Cell)
    (v : At ar before (c ∷ after)) (c_used : c.is_used ≡ true) where
  abbrev bt : ℕ
  bt = place ar.start before

  abbrev loose_words : ℕ → ℕ
  loose_words = Bt.make bt c.size (Bt.flags ar.words bt) ar.words

  loose_elsewhere : (a : ℕ) → (a < bt) ⊎ (bt + c.size ≤ a) → loose_words a ≡ ar.words a
  loose_elsewhere a h =
      make_elsewhere ar.words bt c.size (Bt.flags ar.words bt) a v.ahead.0.sized.large h

  begin-Loose : Loose false before (record c { is_used = false }) after (begin_free bt c.size ar)
  begin-Loose =
      let b = v.ahead.0 in
      let fits = v.order_ahead.0 in
      let past = Chain-le ar.words (bt + c.size) after ar.finish v.ahead.1 in
      record {
        here = refl;
        size_same = refl;
        behind =
            Back-frame ar.words loose_words ar.start before v.behind
              (λ a lo hi. loose_elsewhere a (inl hi));
        block =
            make-Placed ar.words bt (record c { is_used = false }) (Bt.flags ar.words bt)
              (record { aligned = b.sized.aligned; large = b.sized.large; small = b.sized.small })
              (tag-Reads ar.words bt c b.sized b.header).flags_read;
        ahead =
            Chain-frame ar.words loose_words (bt + c.size) after ar.finish v.ahead.1
              (λ a lo hi. loose_elsewhere a (inr lo));
        is_free = refl;
        order_behind = v.order_behind;
        flag_right = fits.flag_right;
        last_right = fits.last_right;
        order_ahead = subst (λ u. Ordered (not u) after) c_used v.order_ahead.1;
        listed = λ b. omega (arith, v.listed b, used_bit b bt c c_used);
        counted = omega (arith, v.counted, free_size_used c c_used, b.sized.large);
        sentinel = ap (λ w. has_bits w used) (loose_elsewhere ar.finish (inr past)) ∙ v.sentinel;
        in_range = v.in_range;
      }

-- The last step: the block goes on the list, and its bytes are counted.
end-At :
    (before : List Cell) (c : Cell) (after : List Cell) (f : Freed)
    → Loose true before c after f
    → after_free before ≡ false
    → At
        (free_insert f.bt (record f.arena { total_free = (f.arena.total_free + f.memsz) % 2 ^ 32 }))
        before
        (c ∷ after)
end-At before c after f l apart =
    let insert = record f.arena {
      free_list = f.arena.free_list ++ f.bt ∷ [];
      total_free = f.arena.total_free + f.memsz;
    } in
    let whole : At insert before (c ∷ after) = record {
      behind = l.behind;
      ahead =
          subst
            (λ a. Placed f.arena.words a c × Chain f.arena.words (a + c.size) after f.arena.finish)
            (sym l.here) (l.block, l.ahead);
      order_behind = l.order_behind;
      order_ahead = (
        record {
          flag_right = l.flag_right;
          apart = ground (arith, apart);
          last_right = l.last_right;
        },
        subst (λ u. Ordered (not u) after) (sym l.is_free) l.order_ahead,
      );
      listed = λ b. omega (
        arith,
        l.listed b,
        count-added b f.bt f.arena.free_list,
        free_bit b (place f.arena.start before) c l.is_free,
        ap (λ (a : ℕ). let bit : ℕ = if a == b then 1 else 0 in bit) l.here,
        ap (λ a. count_free b (a + c.size) after) l.here,
      );
      counted = omega (arith, l.counted, free_size_free c l.is_free);
      sentinel = l.sentinel;
      in_range = l.in_range;
    } in
    let exact : (f.arena.total_free + f.memsz) % 2 ^ 32 ≡ f.arena.total_free + f.memsz =
      omega (arith, whole.counted, bytes_bound insert before (c ∷ after) whole) in
    subst (λ t. At (record insert { total_free = t }) before (c ∷ after)) (sym exact) whole

-- `ArenaMemFree` of a used block of an arena in order: it ends and does not crash, the arena is in order
-- again, and its blocks are as before, but the block is free, and one with each neighbour that is
-- free.
pub arena_mem_free-freed :
    (ar : Arena) (before : List Cell) (c : Cell) (after : List Cell)
    → At ar before (c ∷ after)
    → c.is_used ≡ true
    → Gives
        (λ ar'. At ar' [] (freed before c after))
        (arena_mem_free (place ar.start before + 4) ar)
arena_mem_free-freed ar before c after v c_used =
    let at = place ar.start before in
    let b = v.ahead.0 in
    let r = tag-Reads ar.words at c b.sized b.header in
    let can : (ar.words (at + c.size - 4) == canary) ≡ true =
      ap (λ w. w == canary) (b.footer ∙ ap (λ u. if u then canary else tag c) c_used) in
    let c0 = record c { is_used = false } in
    let (c1, after1) = joined_next c0 after in
    let (before2, c2) = joined_prev before c1 in
    rw (arena_mem_free_steps at c.size ar r.size_read (r.used_read ∙ c_used) can) (
      Gives-bind
        (join_next-Loose before c0 (begin_free at c.size ar) after
          (begin-Loose ar before c after v c_used))
        λ f l. Gives-bind (join_prev-Joined before c1 after1 f l) λ f' j. gives (
          rewind
            (free_insert f'.bt
              (record f'.arena { total_free = (f'.arena.total_free + f'.memsz) % 2 ^ 32 }))
            before2 c2 after1 (end-At before2 c2 after1 f' j.loose j.apart)))
