-- ===== src/Memory/Resize/Expand.antt =====
-- `ArenaMemResize` of a block into the free block behind it.
use demoscene.Prelude.{
  ℕ, ◌+◌, ◌-◌, ◌%◌, ◌≤◌, ◌<◌, ◌≡◌, refl, ap, subst, ◌∙◌, ◌⊎◌, inl, inr, true, false, not, bit_or,
  arith, ◌==◌, if◌then◌else◌, has_bits, ltb, ltb→lt, List, ◌∷◌, count, some, ◌>>=◌,
}
use demoscene.Memory.{Arena, usedblk_sz, free_insert, free_remove, dec_free, expand}
use demoscene.Memory.Bt
use demoscene.Memory.Bt.{used, prevfree, islast, clear}
use demoscene.Memory.Tags.{Cell, Sized, every_flag}
use demoscene.Memory.Blocks.{
  Placed, Placed-frame, tag-Reads, make-Placed, make_elsewhere, Chain, Chain-le, Chain-frame,
  Back-frame, place,
}
use demoscene.Memory.Layout.{
  count_free, Ordered, At, bytes_bound, free_bit, used_bit, free_size_free, free_size_used,
}
use demoscene.Memory.Edits.{count-added}
use demoscene.Memory.Alloc.Split.{clear_first}
use demoscene.Memory.Free.Next.{self_bit}
use demoscene.Memory.Resize.Shrink.{kept}

-- What is left of the free block.
abbrev pub leftover : ℕ → Cell → Cell → Cell
leftover reqsz c n = record {
  size = c.size + n.size - reqsz;
  is_used = false;
  prev_free = false;
  last = n.last;
}

abbrev pub expanded : ℕ → Cell → Cell → List Cell → List Cell
expanded reqsz c n ns =
    if ltb reqsz (c.size + n.size)
    then kept reqsz c ∷ leftover reqsz c n ∷ ns
    else kept (c.size + n.size) c ∷ clear_first ns

abbrev pub expand_words : (bt reqsz : ℕ) → (ℕ → ℕ) → ℕ → ℕ
expand_words bt reqsz words = Bt.make bt reqsz (bit_or used (Bt.prev_free words bt)) words

pub expand_part :
    (bt reqsz sz next nextsz at : ℕ) (ar : Arena)
    → ltb reqsz (sz + nextsz) ≡ true
    → Bt.next (expand_words bt reqsz ar.words) bt ≡ at
    → expand bt reqsz sz next nextsz ar ≡ (do
      ar' ← free_remove next ar
      some (
          dec_free (reqsz - sz) (
            free_insert at (record ar' {
              words =
                  Bt.make at
                    (sz + nextsz - reqsz)
                    (Bt.is_last ar.words next)
                    (expand_words bt reqsz ar.words);
            }))))
unfolding expand
expand_part bt reqsz sz next nextsz at ar test e = rw (test, e) refl

pub expand_all :
    (bt sz next nextsz at : ℕ) (ar : Arena)
    → Bt.next (expand_words bt (sz + nextsz) ar.words) bt ≡ at
    → expand bt (sz + nextsz) sz next nextsz ar ≡ (do
      ar' ← free_remove next ar
      some (
          dec_free
            (nextsz - usedblk_sz)
            (record ar' { words = Bt.clr prevfree at (expand_words bt (sz + nextsz) ar.words) })))
unfolding expand
expand_all bt sz next nextsz at ar e =
    let same : ltb (sz + nextsz) (sz + nextsz) ≡ false = ground arith in rw (same, e) refl

module _ (ar : Arena) (before : List Cell) (c n : Cell) (ns : List Cell) (reqsz : ℕ)
    (v : At ar before (c ∷ n ∷ ns)) (c_used : c.is_used ≡ true) (n_free : n.is_used ≡ false)
    (aligned : reqsz % 16 ≡ 0) (more : c.size < reqsz) (enough : reqsz ≤ c.size + n.size) where
  abbrev bt : ℕ
  bt = place ar.start before

  abbrev head_words : ℕ → ℕ
  head_words = expand_words bt reqsz ar.words

  head-Sized : Sized (kept reqsz c)
  head-Sized =
      let past = Chain-le ar.words (bt + c.size + n.size) ns ar.finish v.ahead.1.1 in
      record {
        aligned = aligned;
        large = omega (arith, v.ahead.0.sized.large);
        small = omega (arith, past, v.in_range);
      }

  pub head-Placed : Placed head_words bt (kept reqsz c)
  head-Placed =
      let b = v.ahead.0 in
      make-Placed ar.words bt (kept reqsz c) (bit_or used (Bt.prev_free ar.words bt)) head-Sized (
        ap (bit_or used) (tag-Reads ar.words bt c b.sized b.header).prevfree_read
        ∙ (every_flag true c.prev_free false).used_prevfree)

  pub head_next : Bt.next head_words bt ≡ bt + reqsz
  head_next =
      ap (λ s. bt + s)
        (tag-Reads head_words bt (kept reqsz c) head-Placed.sized head-Placed.header).size_read

  pub head_elsewhere : (a : ℕ) → (a < bt) ⊎ (bt + reqsz ≤ a) → head_words a ≡ ar.words a
  head_elsewhere a h =
      make_elsewhere ar.words bt reqsz (bit_or used (Bt.prev_free ar.words bt)) a head-Sized.large h

  -- The free block, off its list.
  pub next_listed : 0 < count (bt + c.size) ar.free_list
  next_listed = omega (
    arith,
    v.listed (bt + c.size),
    free_bit (bt + c.size) (bt + c.size) n n_free,
    self_bit (bt + c.size),
  )

  abbrev part_words : ℕ → ℕ
  part_words =
      Bt.make (bt + reqsz) (c.size + n.size - reqsz) (Bt.is_last ar.words (bt + c.size)) head_words

  module _ (test : ltb reqsz (c.size + n.size) ≡ true) (bs : List ℕ)
      (off : (b : ℕ)
        → count b ar.free_list ≡ count b bs + (if bt + c.size == b then 1 else 0)) where
    left-Sized : Sized (leftover reqsz c n)
    left-Sized =
        let less = ltb→lt reqsz (c.size + n.size) test in
        record {
          aligned = omega (arith, v.ahead.0.sized.aligned, v.ahead.1.0.sized.aligned, aligned);
          large = omega (arith, v.ahead.0.sized.aligned, v.ahead.1.0.sized.aligned, aligned, less);
          small = omega (arith, v.ahead.1.0.sized.small);
        }

    part_elsewhere : (a : ℕ) → (a < bt) ⊎ (bt + (c.size + n.size) ≤ a) → part_words a ≡ ar.words a
    part_elsewhere a h =
        make_elsewhere head_words (bt + reqsz) (c.size + n.size - reqsz)
          (Bt.is_last ar.words (bt + c.size)) a left-Sized.large (ground (arith, enough))
        ∙ head_elsewhere a (ground (arith, enough))

    left-Placed : Placed part_words (bt + reqsz) (leftover reqsz c n)
    left-Placed =
        make-Placed head_words (bt + reqsz) (leftover reqsz c n) (Bt.is_last ar.words (bt + c.size))
          left-Sized
          ((tag-Reads ar.words (bt + c.size) n v.ahead.1.0.sized v.ahead.1.0.header).islast_read
            ∙ omega arith)

    pub part-At :
        At
          (dec_free
            (reqsz - c.size)
            (free_insert (bt + reqsz) (record ar { words = part_words; free_list = bs })))
          before
          (kept reqsz c ∷ leftover reqsz c n ∷ ns)
    part-At =
        let past = Chain-le ar.words (bt + c.size + n.size) ns ar.finish v.ahead.1.1 in
        let fits = v.order_ahead.0 in
        record {
          behind =
              Back-frame ar.words part_words ar.start before v.behind
                (λ a lo hi. part_elsewhere a (inl hi));
          ahead = (
            Placed-frame head_words part_words bt (kept reqsz c) head-Placed (λ a lo hi.
                make_elsewhere head_words (bt + reqsz) (c.size + n.size - reqsz)
                  (Bt.is_last ar.words (bt + c.size)) a left-Sized.large (inl hi)),
            (
              left-Placed,
              subst (λ a. Chain part_words a ns ar.finish) (omega (arith, enough))
                  (Chain-frame ar.words part_words (bt + c.size + n.size) ns ar.finish v.ahead.1.1
                    (λ a lo hi. part_elsewhere a (inr (omega arith)))),
            ),
          );
          order_behind = v.order_behind;
          order_ahead = (
            record { flag_right = fits.flag_right; apart = refl; last_right = refl },
            (
              record { flag_right = refl; apart = refl; last_right = v.order_ahead.1.0.last_right },
              subst (λ u. Ordered (not u) ns) n_free v.order_ahead.1.1,
            ),
          );
          listed = λ b. omega (
            arith,
            count-added b (bt + reqsz) bs,
            off b,
            v.listed b,
            used_bit b bt c c_used,
            free_bit b (bt + c.size) n n_free,
            ap (λ a. count_free b a ns) {x = bt + reqsz + (c.size + n.size - reqsz)}
                {y = bt + c.size + n.size} (omega (arith, enough)),
          );
          counted = omega (
            arith,
            v.counted,
            bytes_bound ar before (c ∷ n ∷ ns) v,
            free_size_used c c_used,
            free_size_free n n_free,
            left-Sized.large,
            more,
            enough,
            v.ahead.1.0.sized.large,
          );
          sentinel =
              ap (λ w. has_bits w used) (part_elsewhere ar.finish (inr (omega arith))) ∙ v.sentinel;
          in_range = v.in_range;
        }
