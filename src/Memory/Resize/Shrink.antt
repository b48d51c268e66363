-- ===== src/Memory/Resize/Shrink.antt =====
-- `ArenaMemResize` keeps an arena in order.
use demoscene.Prelude.{
  ℕ, ◌+◌, ◌-◌, ◌%◌, ◌≤◌, ◌<◌, ◌≡◌, refl, ap, subst, ◌∙◌, ◌⊎◌, inl, inr, true, false, not, bit_or,
  arith, has_bits, List, [], ◌∷◌, Gives,
}
use demoscene.Memory.{Arena, arena_mem_free, shrink}
use demoscene.Memory.Bt
use demoscene.Memory.Bt.{used, prevfree, islast, clear}
use demoscene.Memory.Tags.{Cell, every_flag}
use demoscene.Memory.Blocks.{
  Placed, Placed-frame, tag-Reads, make-Placed, make_elsewhere, Chain, Chain-le, Chain-frame,
  Back-frame, place,
}
use demoscene.Memory.Layout.{count_free, Ordered, At, forward, used_bit, free_size_used}
use demoscene.Memory.Free.{freed, arena_mem_free-freed}

-- The two parts of a used block that shrinks.
abbrev pub kept : ℕ → Cell → Cell
kept reqsz c = record { size = reqsz; is_used = true; prev_free = c.prev_free; last = false }

abbrev pub cut_off : ℕ → Cell → Cell
cut_off reqsz c = record { size = c.size - reqsz; is_used = true; prev_free = false; last = c.last }

shrink_steps :
    (bt reqsz sz at : ℕ) (ar : Arena)
    → Bt.next (Bt.make bt reqsz (bit_or used (Bt.prev_free ar.words bt)) ar.words) bt ≡ at
    → shrink false bt reqsz sz ar
      ≡ arena_mem_free (at + 4) (record ar {
        words =
            Bt.make at
              (sz - reqsz)
              (bit_or used (Bt.is_last ar.words bt))
              (Bt.make bt reqsz (bit_or used (Bt.prev_free ar.words bt)) ar.words);
      })
unfolding shrink
shrink_steps bt reqsz sz at ar e = rw e refl

module _ (ar : Arena) (before : List Cell) (c : Cell) (after : List Cell) (reqsz : ℕ)
    (v : At ar before (c ∷ after)) (c_used : c.is_used ≡ true) (aligned : reqsz % 16 ≡ 0)
    (large : 16 ≤ reqsz) (less : reqsz < c.size) where
  abbrev bt : ℕ
  bt = place ar.start before

  abbrev head_words : ℕ → ℕ
  head_words = Bt.make bt reqsz (bit_or used (Bt.prev_free ar.words bt)) ar.words

  abbrev cut_words : ℕ → ℕ
  cut_words =
      Bt.make (bt + reqsz) (c.size - reqsz) (bit_or used (Bt.is_last ar.words bt)) head_words

  tail_large : 16 ≤ c.size - reqsz
  tail_large = omega (arith, v.ahead.0.sized.aligned, aligned)

  head-Placed : Placed head_words bt (kept reqsz c)
  head-Placed =
      let b = v.ahead.0 in
      make-Placed ar.words bt (kept reqsz c) (bit_or used (Bt.prev_free ar.words bt))
        (record { aligned = aligned; large = large; small = omega (arith, b.sized.small) })
        (ap (bit_or used) (tag-Reads ar.words bt c b.sized b.header).prevfree_read
          ∙ (every_flag true c.prev_free false).used_prevfree)

  tail-Placed : Placed cut_words (bt + reqsz) (cut_off reqsz c)
  tail-Placed =
      let b = v.ahead.0 in
      make-Placed head_words (bt + reqsz) (cut_off reqsz c) (bit_or used (Bt.is_last ar.words bt))
        (record {
          aligned = omega (arith, b.sized.aligned, aligned);
          large = tail_large;
          small = omega (arith, b.sized.small);
        })
        (ap (bit_or used) (tag-Reads ar.words bt c b.sized b.header).islast_read
          ∙ (every_flag true false c.last).used_last)

  cut_elsewhere : (a : ℕ) → (a < bt) ⊎ (bt + c.size ≤ a) → cut_words a ≡ ar.words a
  cut_elsewhere a h =
      make_elsewhere head_words (bt + reqsz) (c.size - reqsz) (bit_or used (Bt.is_last ar.words bt))
        a tail_large (ground arith)
      ∙ make_elsewhere ar.words bt reqsz (bit_or used (Bt.prev_free ar.words bt)) a large
          (ground arith)

  cut-At : At (record ar { words = cut_words }) before (kept reqsz c ∷ cut_off reqsz c ∷ after)
  cut-At =
      let past = Chain-le ar.words (bt + c.size) after ar.finish v.ahead.1 in
      let fits = v.order_ahead.0 in
      record {
        behind =
            Back-frame ar.words cut_words ar.start before v.behind
              (λ a lo hi. cut_elsewhere a (inl hi));
        ahead = (
          Placed-frame head_words cut_words bt (kept reqsz c) head-Placed (λ a lo hi.
              make_elsewhere head_words (bt + reqsz) (c.size - reqsz)
                (bit_or used (Bt.is_last ar.words bt)) a tail_large (inl hi)),
          (
            tail-Placed,
            subst (λ a. Chain cut_words a after ar.finish) (omega (arith, less))
                (Chain-frame ar.words cut_words (bt + c.size) after ar.finish v.ahead.1
                  (λ a lo hi. cut_elsewhere a (inr lo))),
          ),
        );
        order_behind = v.order_behind;
        order_ahead = (
          record { flag_right = fits.flag_right; apart = refl; last_right = refl },
          (
            record { flag_right = refl; apart = refl; last_right = fits.last_right },
            subst (λ u. Ordered (not u) after) c_used v.order_ahead.1,
          ),
        );
        listed = λ b. omega (
          arith,
          v.listed b,
          used_bit b bt c c_used,
          ap (λ a. count_free b a after) {x = bt + reqsz + (c.size - reqsz)} {y = bt + c.size}
              (omega (arith, less)),
        );
        counted = omega (arith, v.counted, free_size_used c c_used);
        sentinel = ap (λ w. has_bits w used) (cut_elsewhere ar.finish (inr past)) ∙ v.sentinel;
        in_range = v.in_range;
      }

  -- The tail is freed.
  pub shrink-freed :
      Gives
        (λ ar'. At ar' [] (freed (kept reqsz c ∷ before) (cut_off reqsz c) after))
        (shrink false bt reqsz c.size ar)
  shrink-freed =
      rw
        (shrink_steps bt reqsz c.size (bt + reqsz) ar (
          ap (λ s. bt + s)
            (tag-Reads head_words bt (kept reqsz c) head-Placed.sized
              head-Placed.header).size_read))
        (arena_mem_free-freed (record ar { words = cut_words }) (kept reqsz c ∷ before)
          (cut_off reqsz c) after
          (forward (record ar { words = cut_words }) before (kept reqsz c) (cut_off reqsz c) after
            cut-At)
          refl)
