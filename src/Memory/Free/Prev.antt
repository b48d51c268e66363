-- ===== src/Memory/Free/Prev.antt =====
-- The second step of `ArenaMemFree`: the freed block becomes part of a free block before it.
use demoscene.Prelude.{
  ℕ, ◌+◌, ◌-◌, ◌≤◌, ◌<◌, ◌≡◌, refl, sym, ap, subst, ◌∙◌, inl, inr, ◌⊎◌, Bool, true, false, not,
  arith, ◌==◌, if◌then◌else◌, has_bits, Bool-cases, List, [], ◌∷◌, count, Gives, gives, Gives-bind,
  Gives-mono, some, ◌>>=◌,
}
use demoscene.Memory.{usedblk_sz, free_remove, Freed, join_prev}
use demoscene.Memory.Bt
use demoscene.Memory.Bt.{used, prevfree, islast}
use demoscene.Memory.Tags.{Cell, bit, tag}
use demoscene.Memory.Blocks.{
  Placed, tag-Reads, make-Placed, make_elsewhere, Chain, Chain-le, Chain-frame, Back-frame, place,
}
use demoscene.Memory.Layout.{count_free, after_free, free_bit, free_size_free, before_free}
use demoscene.Memory.Edits.{without-Removed}
use demoscene.Memory.Free.Next.{Loose, prev_by, joined_prev, self_bit}

join_prev_none : (f : Freed) → Bt.prev_free f.arena.words f.bt ≡ 0 → join_prev f ≡ some f
unfolding join_prev
join_prev_none f e = rw e refl

join_prev_free :
    (f : Freed) (at csz psz : ℕ)
    → Bt.prev_free f.arena.words f.bt ≡ 2
    → f.sz ≡ csz
    → Bt.prev f.arena.words f.bt ≡ at
    → Bt.size f.arena.words at ≡ psz
    → join_prev f ≡ (do
      ar ← free_remove at f.arena
      some (record {
        bt = at;
        sz = csz + psz;
        memsz = f.memsz + usedblk_sz;
        arena = record ar {
          words = Bt.make at (csz + psz) (Bt.is_last f.arena.words f.bt) f.arena.words;
        };
      }))
unfolding join_prev
join_prev_free f at csz psz p es e en = rw (p, es, e, en) refl

module _ (p : Cell) (ps : List Cell) (c : Cell) (after : List Cell) (f : Freed)
    (l : Loose true (p ∷ ps) c after f) (p_free : p.is_used ≡ false) where
  abbrev at : ℕ
  at = place f.arena.start ps

  abbrev both : Cell
  both = record { size = c.size + p.size; is_used = false; prev_free = false; last = c.last }

  abbrev grown : ℕ → ℕ
  grown = Bt.make at (c.size + p.size) (Bt.is_last f.arena.words f.bt) f.arena.words

  grown_elsewhere : (a : ℕ) → (a < at) ⊎ (at + (c.size + p.size) ≤ a) → grown a ≡ f.arena.words a
  grown_elsewhere a h =
      make_elsewhere f.arena.words at (c.size + p.size) (Bt.is_last f.arena.words f.bt) a
        (omega (arith, l.block.sized.large)) h

  -- The footer of the block before leads to its header.
  prev-at : Bt.prev f.arena.words f.bt ≡ at
  prev-at =
      let foot_at : f.arena.words (f.bt - 4) ≡ tag p =
        ap (λ a. f.arena.words (a - 4)) (sym l.here)
        ∙ l.behind.0.footer
        ∙ ap (λ u. if u then Bt.canary else tag p) p_free in
      let size = (tag-Reads f.arena.words (f.bt - 4) p l.behind.0.sized foot_at).size_read in
      ap (λ s. f.bt - s) size ∙ omega (arith, l.here)

  both-Placed : Placed grown at both
  both-Placed =
      let past = Chain-le f.arena.words (f.bt + c.size) after f.arena.finish l.ahead in
      make-Placed f.arena.words at both (Bt.is_last f.arena.words f.bt)
        (record {
          aligned = omega (arith, l.block.sized.aligned, l.behind.0.sized.aligned);
          large = omega (arith, l.block.sized.large);
          small = omega (arith, past, l.in_range, l.here);
        })
        ((tag-Reads f.arena.words f.bt c l.block.sized l.block.header).islast_read ∙ omega arith)

  grown-Loose :
      (bs : List ℕ)
      → ((b : ℕ) → count b f.arena.free_list ≡ count b bs + (if at == b then 1 else 0))
      → Loose true ps both after (record {
        bt = at;
        sz = c.size + p.size;
        memsz = f.memsz + usedblk_sz;
        arena = record f.arena { words = grown; free_list = bs };
      })
  grown-Loose bs off =
      let past = Chain-le f.arena.words (f.bt + c.size) after f.arena.finish l.ahead in
      record {
        here = refl;
        size_same = refl;
        behind =
            Back-frame f.arena.words grown f.arena.start ps l.behind.1
              (λ a lo hi. grown_elsewhere a (inl hi));
        block = both-Placed;
        ahead =
            subst (λ a. Chain grown a after f.arena.finish) (omega (arith, l.here))
              (Chain-frame f.arena.words grown (f.bt + c.size) after f.arena.finish l.ahead
                (λ a lo hi. grown_elsewhere a (inr (omega (arith, l.here)))));
        is_free = refl;
        order_behind = l.order_behind.1;
        flag_right = sym (before_free (after_free ps) false p l.order_behind.0 p_free);
        last_right = l.last_right;
        order_ahead = l.order_ahead;
        listed = λ b. omega (
          arith,
          off b,
          l.listed b,
          free_bit b at p p_free,
          ap (λ a. count_free b a after) {x = at + (c.size + p.size)} {y = f.bt + c.size}
              (omega (arith, l.here)),
        );
        counted = omega (
          arith,
          l.counted,
          free_size_free p p_free,
          l.block.sized.large,
          l.behind.0.sized.large,
        );
        sentinel =
            ap (λ w. has_bits w used) (grown_elsewhere f.arena.finish (inr (omega (arith, l.here))))
            ∙ l.sentinel;
        in_range = l.in_range;
      }

  join_prev-grown : c.prev_free ≡ true → Gives (Loose true ps both after) (join_prev f)
  join_prev-grown set =
      let listed : 0 < count at f.arena.free_list =
        omega (arith, l.listed at, free_bit at at p p_free, self_bit at) in
      let removed : Gives
          (λ ar. Loose true ps both after (record {
            bt = at;
            sz = c.size + p.size;
            memsz = f.memsz + usedblk_sz;
            arena = record ar { words = grown };
          }))
          (free_remove at f.arena) =
        Gives-bind (without-Removed at f.arena.free_list listed)
          (λ bs off. gives (grown-Loose bs off)) in
      let flag : Bt.prev_free f.arena.words f.bt ≡ 2 =
        (tag-Reads f.arena.words f.bt c l.block.sized l.block.header).prevfree_read
        ∙ ap (λ u. bit u prevfree) set in
      rw
        (join_prev_free f at c.size p.size flag l.size_same prev-at
          (tag-Reads f.arena.words at p l.behind.0.sized l.behind.0.header).size_read)
        (Gives-bind removed λ ar k. gives k)

-- No block before the result is free.
pub record Joined (j : List Cell × Cell) (after : List Cell) (f : Freed) : Type 0 where
  pub loose : Loose true j.0 j.1 after f
  pub apart : after_free j.0 ≡ false

join_prev-unset :
    (before : List Cell) (c : Cell) (after : List Cell) (f : Freed)
    → Loose true before c after f
    → c.prev_free ≡ false
    → Gives (Joined (before, c) after) (join_prev f)
join_prev-unset before c after f l unset =
    rw
      (join_prev_none f (
        (tag-Reads f.arena.words f.bt c l.block.sized l.block.header).prevfree_read
        ∙ ap (λ u. bit u prevfree) unset))
      (gives (record { loose = l; apart = sym l.flag_right ∙ unset }))

pub clear_if_set : (a b : Bool) → a ≡ true → a ≡ not b → b ≡ false
clear_if_set a b set e = ground arith

pub join_prev-Joined :
    (before : List Cell) (c : Cell) (after : List Cell) (f : Freed)
    → Loose true before c after f
    → Gives (Joined (joined_prev before c) after) (join_prev f)
join_prev-Joined [] c after f l = join_prev-unset [] c after f l l.flag_right
join_prev-Joined (p ∷ ps) c after f l = elim (Bool-cases c.prev_free) [
  | inr unset ↦
      subst (λ u. Gives (Joined (prev_by u p ps c) after) (join_prev f)) (sym unset)
        (join_prev-unset (p ∷ ps) c after f l unset)
  | inl set ↦
      let p_free = clear_if_set c.prev_free p.is_used set l.flag_right in
      subst (λ u. Gives (Joined (prev_by u p ps c) after) (join_prev f)) (sym set)
        (Gives-mono (join_prev-grown p ps c after f l p_free set) λ f' k. record {
          loose = k;
          apart = before_free (after_free ps) false p l.order_behind.0 p_free;
        })
]
