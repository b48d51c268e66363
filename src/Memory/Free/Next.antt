-- ===== src/Memory/Free/Next.antt =====
-- Freeing a block joins it with its free neighbours: `ArenaMemFree` after the block is marked as free.
use demoscene.Prelude.{
  ℕ, ◌+◌, ◌-◌, ◌^◌, ◌≤◌, ◌<◌, ◌≡◌, refl, sym, ap, ap₂, subst, ◌∙◌, inl, inr, ◌⊎◌, Bool, true, false,
  not, ◌||◌, bit_or, arith, ◌==◌, if◌then◌else◌, has_bits, Bool-cases, List, [], ◌∷◌, count, Gives,
  gives, Gives-bind, some, ◌>>=◌,
}
use demoscene.Memory.{usedblk_sz, free_remove, Freed, join_next}
use demoscene.Memory.Bt
use demoscene.Memory.Bt.{used, prevfree, islast}
use demoscene.Memory.Tags.{Cell, every_flag}
use demoscene.Memory.Blocks.{
  Placed, Placed-frame, tag-Reads, make-Placed, make_elsewhere, Chain, Chain-le, Chain-frame, Back,
  Back-frame, place,
}
use demoscene.Memory.Layout.{
  count_free, count_back, free_bytes, Ordered, BackOrdered, after_free, is_nil, free_bit,
  free_size_free,
}
use demoscene.Memory.Edits.{
  put-prevfree-Placed, write_here, write_elsewhere, put_prevfree-used, without-Removed,
}

-- The arena on the way: the block `c` at `f.bt` is marked as free, but is on no list and is not counted;
-- the blocks behind it take the one before them for free, if `pf` holds.
pub record Loose (pf : Bool) (before : List Cell) (c : Cell) (after : List Cell) (f : Freed)
    : Type 0 where
  pub here : place f.arena.start before ≡ f.bt
  pub size_same : f.sz ≡ c.size
  pub behind : Back f.arena.words f.arena.start before
  pub block : Placed f.arena.words f.bt c
  pub ahead : Chain f.arena.words (f.bt + c.size) after f.arena.finish
  pub is_free : c.is_used ≡ false
  pub order_behind : BackOrdered before
  pub flag_right : c.prev_free ≡ after_free before
  pub last_right : (not c.last || is_nil after) ≡ true
  pub order_ahead : Ordered pf after
  pub listed :
      (b : ℕ)
      → count b f.arena.free_list
        ≡ count_back b f.arena.start before + count_free b (f.bt + c.size) after
  pub counted : f.arena.total_free + f.memsz ≡ free_bytes before + (c.size - 8) + free_bytes after
  pub sentinel : has_bits (f.arena.words f.arena.finish) used ≡ true
  pub in_range : f.arena.finish < 2 ^ 31

-- What the two steps make of the blocks.
abbrev pub next_by : (used : Bool) → Cell → Cell → List Cell → Cell × List Cell
next_by used c n ns = if used then (c, record n { prev_free = true } ∷ ns) else (
  record { size = c.size + n.size; is_used = false; prev_free = c.prev_free; last = n.last },
  ns,
)

abbrev pub joined_next : Cell → List Cell → Cell × List Cell
joined_next c [] = (c, [])
joined_next c (n ∷ ns) = next_by n.is_used c n ns

abbrev pub prev_by : (prev_free : Bool) → Cell → List Cell → Cell → List Cell × Cell
prev_by prev_free p ps c =
    if prev_free
    then (ps, record { size = c.size + p.size; is_used = false; prev_free = false; last = c.last })
    else (p ∷ ps, c)

abbrev pub joined_prev : List Cell → Cell → List Cell × Cell
joined_prev [] c = ([], c)
joined_prev (p ∷ ps) c = prev_by c.prev_free p ps c

join_next_used :
    (f : Freed) (at : ℕ)
    → Bt.next f.arena.words f.bt ≡ at
    → Bt.is_used f.arena.words at ≡ true
    → join_next f
      ≡ some (record f { arena = record f.arena { words = Bt.put prevfree at f.arena.words } })
unfolding join_next
join_next_used f at e u = rw (e, u) refl

join_next_free :
    (f : Freed) (at csz nsz : ℕ)
    → f.sz ≡ csz
    → Bt.next f.arena.words f.bt ≡ at
    → Bt.is_used f.arena.words at ≡ false
    → Bt.size f.arena.words at ≡ nsz
    → join_next f ≡ (do
      ar ← free_remove at f.arena
      some (record {
        bt = f.bt;
        sz = csz + nsz;
        memsz = f.memsz + usedblk_sz;
        arena = record ar {
          words =
              Bt.make f.bt
                (csz + nsz)
                (bit_or (Bt.prev_free f.arena.words f.bt) (Bt.is_last f.arena.words at))
                f.arena.words;
        };
      }))
unfolding join_next
join_next_free f at csz nsz es e u en = rw (e, u, es, en) refl

pub self_bit : (at : ℕ) → ◌≡◌ {A = ℕ} (if at == at then 1 else 0) 1
self_bit at = ground arith

module _ (before : List Cell) (c : Cell) (f : Freed) where
  next_at :
      (after : List Cell)
      → Loose false before c after f
      → Bt.next f.arena.words f.bt ≡ f.bt + c.size
  next_at after l =
      ap (λ s. f.bt + s) (tag-Reads f.arena.words f.bt c l.block.sized l.block.header).size_read

  abbrev marked : ℕ → ℕ
  marked = Bt.put prevfree (f.bt + c.size) f.arena.words

  marked_elsewhere :
      (a : ℕ) → (a < f.bt + c.size) ⊎ (f.bt + c.size < a) → marked a ≡ f.arena.words a
  marked_elsewhere a h = write_elsewhere f.arena.words (f.bt + c.size) _ a h

  -- The next block, or the end of the arena, is used.
  mark-Loose :
      (after after' : List Cell)
      → Loose false before c after f
      → Chain marked (f.bt + c.size) after' f.arena.finish
      → Ordered true after'
      → is_nil after' ≡ is_nil after
      → ((b : ℕ) → count_free b (f.bt + c.size) after' ≡ count_free b (f.bt + c.size) after)
      → free_bytes after' ≡ free_bytes after
      → has_bits (marked f.arena.finish) used ≡ true
      → Loose true before c after' (record f { arena = record f.arena { words = marked } })
  mark-Loose after after' l ahead order nil counts bytes sentinel = record {
    here = l.here;
    size_same = l.size_same;
    behind =
        Back-frame f.arena.words marked f.arena.start before l.behind
          (λ a lo hi. marked_elsewhere a (inl (omega (arith, l.here))));
    block =
        Placed-frame f.arena.words marked f.bt c l.block (λ a lo hi. marked_elsewhere a (inl hi));
    ahead = ahead;
    is_free = l.is_free;
    order_behind = l.order_behind;
    flag_right = l.flag_right;
    last_right = ap (λ e. not c.last || e) nil ∙ l.last_right;
    order_ahead = order;
    listed = λ b. omega (arith, l.listed b, counts b);
    counted = omega (arith, l.counted, bytes);
    sentinel = sentinel;
    in_range = l.in_range;
  }

  -- The next block is free, and becomes part of this one.
  module _ (n : Cell) (ns : List Cell) (l : Loose false before c (n ∷ ns) f)
      (n_free : n.is_used ≡ false) where
    abbrev both : Cell
    both = record {
      size = c.size + n.size;
      is_used = false;
      prev_free = c.prev_free;
      last = n.last;
    }

    abbrev both_flags : ℕ
    both_flags = bit_or (Bt.prev_free f.arena.words f.bt) (Bt.is_last f.arena.words (f.bt + c.size))

    abbrev grown : ℕ → ℕ
    grown = Bt.make f.bt (c.size + n.size) both_flags f.arena.words

    grown_elsewhere :
        (a : ℕ) → (a < f.bt) ⊎ (f.bt + (c.size + n.size) ≤ a) → grown a ≡ f.arena.words a
    grown_elsewhere a h =
        make_elsewhere f.arena.words f.bt (c.size + n.size) both_flags a
          (omega (arith, l.block.sized.large)) h

    both-Placed : Placed grown f.bt both
    both-Placed =
        let rc = tag-Reads f.arena.words f.bt c l.block.sized l.block.header in
        let rn = tag-Reads f.arena.words (f.bt + c.size) n l.ahead.0.sized l.ahead.0.header in
        let past = Chain-le f.arena.words (f.bt + c.size + n.size) ns f.arena.finish l.ahead.1 in
        make-Placed f.arena.words f.bt both both_flags
          (record {
            aligned = omega (arith, l.block.sized.aligned, l.ahead.0.sized.aligned);
            large = omega (arith, l.block.sized.large);
            small = omega (arith, past, l.in_range);
          })
          (ap₂ bit_or rc.prevfree_read rn.islast_read
            ∙ (every_flag false c.prev_free n.last).prevfree_last)

    grown-Loose :
        (bs : List ℕ)
        → ((b : ℕ) → count b f.arena.free_list ≡ count b bs + (if f.bt + c.size == b then 1 else 0))
        → Loose true before both ns (record {
          bt = f.bt;
          sz = c.size + n.size;
          memsz = f.memsz + usedblk_sz;
          arena = record f.arena { words = grown; free_list = bs };
        })
    grown-Loose bs off =
        let past = Chain-le f.arena.words (f.bt + c.size + n.size) ns f.arena.finish l.ahead.1 in
        record {
          here = l.here;
          size_same = refl;
          behind =
              Back-frame f.arena.words grown f.arena.start before l.behind
                (λ a lo hi. grown_elsewhere a (inl (omega (arith, l.here))));
          block = both-Placed;
          ahead =
              subst (λ a. Chain grown a ns f.arena.finish) (omega arith)
                (Chain-frame f.arena.words grown (f.bt + c.size + n.size) ns f.arena.finish
                  l.ahead.1 (λ a lo hi. grown_elsewhere a (inr (omega arith))));
          is_free = refl;
          order_behind = l.order_behind;
          flag_right = l.flag_right;
          last_right = l.order_ahead.0.last_right;
          order_ahead = subst (λ u. Ordered (not u) ns) n_free l.order_ahead.1;
          listed = λ b. omega (
            arith,
            off b,
            l.listed b,
            free_bit b (f.bt + c.size) n n_free,
            ap (λ a. count_free b a ns) {x = f.bt + (c.size + n.size)} {y = f.bt + c.size + n.size}
                (omega arith),
          );
          counted = omega (
            arith,
            l.counted,
            free_size_free n n_free,
            l.block.sized.large,
            l.ahead.0.sized.large,
          );
          sentinel =
              ap (λ w. has_bits w used) (grown_elsewhere f.arena.finish (inr (omega arith)))
              ∙ l.sentinel;
          in_range = l.in_range;
        }

  pub join_next-Loose :
      (after : List Cell)
      → Loose false before c after f
      → Gives (Loose true before (joined_next c after).0 (joined_next c after).1) (join_next f)
  join_next-Loose [] l =
      let at_end : f.bt + c.size ≡ f.arena.finish = l.ahead in
      let u = ap (λ a. has_bits (f.arena.words a) used) at_end ∙ l.sentinel in
      rw (join_next_used f (f.bt + c.size) (next_at [] l) u) (
        gives (
          mark-Loose [] [] l at_end tt refl (λ b. refl) refl
            (subst (λ a. has_bits (marked a) used ≡ true) at_end
              (ap (λ w. has_bits w used) (write_here f.arena.words (f.bt + c.size) _)
                ∙ put_prevfree-used (f.arena.words (f.bt + c.size))
                ∙ u))))
  join_next-Loose (n ∷ ns) l =
      let rn = tag-Reads f.arena.words (f.bt + c.size) n l.ahead.0.sized l.ahead.0.header in
      elim (Bool-cases n.is_used) [
        | inl n_used ↦
            let past =
              Chain-le f.arena.words (f.bt + c.size + n.size) ns f.arena.finish l.ahead.1 in
            let fits = l.order_ahead.0 in
            subst (λ j. Gives (Loose true before j.0 j.1) (join_next f))
              (sym (ap (λ u. next_by u c n ns) n_used))
              (rw (join_next_used f (f.bt + c.size) (next_at (n ∷ ns) l) (rn.used_read ∙ n_used)) (
                gives (
                  mark-Loose (n ∷ ns) (record n { prev_free = true } ∷ ns) l
                    (
                      put-prevfree-Placed f.arena.words (f.bt + c.size) n l.ahead.0 n_used,
                      Chain-frame f.arena.words marked (f.bt + c.size + n.size) ns f.arena.finish
                          l.ahead.1
                          (λ a lo hi.
                            marked_elsewhere a (inr (omega (arith, l.ahead.0.sized.large)))),
                    )
                    (
                      record {
                        flag_right = refl;
                        apart = ground (arith, n_used);
                        last_right = fits.last_right;
                      },
                      l.order_ahead.1,
                    )
                    refl (λ b. refl) refl
                    (ap (λ w. has_bits w used)
                        (marked_elsewhere f.arena.finish
                          (inr (omega (arith, l.ahead.0.sized.large))))
                      ∙ l.sentinel))))
        | inr n_free ↦
            let at = f.bt + c.size in
            let listed : 0 < count at f.arena.free_list =
              omega (arith, l.listed at, free_bit at at n n_free, self_bit at) in
            let removed : Gives
                (λ ar. Loose true before (both n ns l n_free) ns (record {
                  bt = f.bt;
                  sz = c.size + n.size;
                  memsz = f.memsz + usedblk_sz;
                  arena = record ar { words = grown n ns l n_free };
                }))
                (free_remove at f.arena) =
              Gives-bind (without-Removed at f.arena.free_list listed)
                (λ bs off. gives (grown-Loose n ns l n_free bs off)) in
            subst (λ j. Gives (Loose true before j.0 j.1) (join_next f))
              (sym (ap (λ u. next_by u c n ns) n_free))
              (rw
                (join_next_free f at c.size n.size l.size_same (next_at (n ∷ ns) l)
                  (rn.used_read ∙ n_free) rn.size_read)
                (Gives-bind removed λ ar k. gives k))
      ]
