-- ===== src/Memory/Alloc/Split.antt =====
-- A free block of which a part is taken.
use demoscene.Prelude.{
  ℕ, ◌+◌, ◌-◌, ◌%◌, ◌≤◌, ◌<◌, ◌≡◌, refl, sym, ap, subst, ◌∙◌, ◌⊎◌, inl, inr, Bool, true, false, not,
  bit_or, arith, ◌==◌, if◌then◌else◌, has_bits, ltb, ltb→lt, List, [], ◌∷◌, count,
}
use demoscene.Memory.{Arena, free_insert, dec_free, carve}
use demoscene.Memory.Bt
use demoscene.Memory.Bt.{used, prevfree, islast, clear}
use demoscene.Memory.Tags.{Cell, every_flag}
use demoscene.Memory.Blocks.{
  Placed, Placed-frame, tag-Reads, make-Placed, make_elsewhere, Chain, Chain-le, Chain-frame,
  Back-frame, place,
}
use demoscene.Memory.Layout.{
  count_free, Ordered, At, after_free, is_nil, bytes_bound, free_bit, free_size_free, before_free,
}
use demoscene.Memory.Edits.{clr-islast-Placed, write_elsewhere, count-added}

-- The free block `c` and those behind it, after a block of `reqsz` bytes has been taken from it.
abbrev pub first_part : ℕ → Cell
first_part reqsz = record { size = reqsz; is_used = true; prev_free = false; last = false }

abbrev pub second_part : ℕ → Cell → Cell
second_part reqsz c = record {
  size = c.size - reqsz;
  is_used = false;
  prev_free = false;
  last = c.last;
}

-- All of it.
abbrev pub taken : Cell → Cell
taken c = record { size = c.size; is_used = true; prev_free = false; last = c.last }

abbrev pub clear_first : List Cell → List Cell
clear_first [] = []
clear_first (n ∷ ns) = record n { prev_free = false } ∷ ns

abbrev pub carved : ℕ → Cell → List Cell → List Cell
carved reqsz c after =
    if ltb reqsz c.size
    then first_part reqsz ∷ second_part reqsz c ∷ after
    else taken c ∷ clear_first after

pub exactly : (n m : ℕ) → n ≤ m → ltb n m ≡ false → m ≡ n
exactly n m le h = ground arith

carve_split :
    (bt reqsz sz : ℕ) (ar : Arena)
    → ltb reqsz sz ≡ true
    → Bt.next (Bt.make bt reqsz (bit_or used (Bt.is_last ar.words bt)) ar.words) bt ≡ bt + reqsz
    → carve bt reqsz sz ar
      ≡ dec_free reqsz (
          free_insert (bt + reqsz) (record ar {
            words = Bt.clr islast bt (
                Bt.make
                  (bt + reqsz)
                  (sz - reqsz)
                  (Bt.is_last ar.words bt)
                  (Bt.make bt reqsz (bit_or used (Bt.is_last ar.words bt)) ar.words));
          }))
unfolding carve
carve_split bt reqsz sz ar less e = rw (less, e) refl

module _ (ar : Arena) (before : List Cell) (c : Cell) (after : List Cell) (reqsz : ℕ) (bs : List ℕ)
    (v : At ar before (c ∷ after)) (free : c.is_used ≡ false)
    (off : (b : ℕ)
      → count b ar.free_list ≡ count b bs + (if place ar.start before == b then 1 else 0))
    (aligned : reqsz % 16 ≡ 0) (large : 16 ≤ reqsz) where
  abbrev pub bt : ℕ
  bt = place ar.start before

  -- The whole block, marked as used.
  abbrev whole : Bool → Cell
  whole l = record { size = reqsz; is_used = true; prev_free = false; last = l }

  abbrev pub made : ℕ → ℕ
  made = Bt.make bt reqsz (bit_or used (Bt.is_last ar.words bt)) ar.words

  pub made-Placed : reqsz ≤ c.size → Placed made bt (whole c.last)
  made-Placed le =
      let b = v.ahead.0 in
      let r = tag-Reads ar.words bt c b.sized b.header in
      make-Placed ar.words bt (whole c.last) (bit_or used (Bt.is_last ar.words bt))
        (record { aligned = aligned; large = large; small = omega (arith, b.sized.small) })
        (ap (bit_or used) r.islast_read ∙ (every_flag true false c.last).used_last)

  abbrev split_words : ℕ → ℕ
  split_words =
      Bt.clr islast bt (Bt.make (bt + reqsz) (c.size - reqsz) (Bt.is_last ar.words bt) made)

  split_elsewhere :
      (a : ℕ) → reqsz < c.size → (a < bt) ⊎ (bt + c.size ≤ a) → split_words a ≡ ar.words a
  split_elsewhere a less h =
      let b = v.ahead.0 in
      write_elsewhere (Bt.make (bt + reqsz) (c.size - reqsz) (Bt.is_last ar.words bt) made) bt _ a
        (ground arith)
      ∙ make_elsewhere made (bt + reqsz) (c.size - reqsz) (Bt.is_last ar.words bt) a
          (omega (arith, b.sized.aligned, aligned)) (ground arith)
      ∙ make_elsewhere ar.words bt reqsz (bit_or used (Bt.is_last ar.words bt)) a large
          (ground arith)

  first-Placed : reqsz < c.size → Placed split_words bt (first_part reqsz)
  first-Placed less =
      let b = v.ahead.0 in
      clr-islast-Placed (Bt.make (bt + reqsz) (c.size - reqsz) (Bt.is_last ar.words bt) made) bt
        (whole c.last)
        (Placed-frame made (Bt.make (bt + reqsz) (c.size - reqsz) (Bt.is_last ar.words bt) made) bt
          (whole c.last) (made-Placed (omega arith))
          (λ a lo hi.
            make_elsewhere made (bt + reqsz) (c.size - reqsz) (Bt.is_last ar.words bt) a
              (omega (arith, b.sized.aligned, aligned)) (inl hi)))
        refl

  second-Placed : reqsz < c.size → Placed split_words (bt + reqsz) (second_part reqsz c)
  second-Placed less =
      let b = v.ahead.0 in
      let r = tag-Reads ar.words bt c b.sized b.header in
      Placed-frame (Bt.make (bt + reqsz) (c.size - reqsz) (Bt.is_last ar.words bt) made) split_words
        (bt + reqsz) (second_part reqsz c)
        (make-Placed made (bt + reqsz) (second_part reqsz c) (Bt.is_last ar.words bt)
          (record {
            aligned = omega (arith, b.sized.aligned, aligned);
            large = omega (arith, b.sized.aligned, aligned);
            small = omega (arith, b.sized.small);
          })
          (r.islast_read ∙ omega arith))
        (λ a lo hi.
          write_elsewhere (Bt.make (bt + reqsz) (c.size - reqsz) (Bt.is_last ar.words bt) made) bt _
            a (inr (omega arith)))

  pub split-At :
      ltb reqsz c.size ≡ true
      → At
          (carve bt reqsz c.size (record ar { free_list = bs }))
          before
          (first_part reqsz ∷ second_part reqsz c ∷ after)
  split-At test =
      let less = ltb→lt reqsz c.size test in
      let first = first-Placed less in
      let next_at : Bt.next made bt ≡ bt + reqsz =
        ap (λ s. bt + s)
          (tag-Reads made bt (whole c.last) (made-Placed (omega arith)).sized
            (made-Placed (omega arith)).header).size_read in
      let past = Chain-le ar.words (bt + c.size) after ar.finish v.ahead.1 in
      let fits = v.order_ahead.0 in
      let pf = before_free (after_free before) (is_nil after) c fits free in
      let bound = bytes_bound ar before (c ∷ after) v in
      rw (carve_split bt reqsz c.size (record ar { free_list = bs }) test next_at) (record {
        behind =
            Back-frame ar.words split_words ar.start before v.behind
              (λ a lo hi. split_elsewhere a less (inl hi));
        ahead = (
          first,
          (
            second-Placed less,
            subst (λ a. Chain split_words a after ar.finish) (omega arith)
                (Chain-frame ar.words split_words (bt + c.size) after ar.finish v.ahead.1
                  (λ a lo hi. split_elsewhere a less (inr lo))),
          ),
        );
        order_behind = v.order_behind;
        order_ahead = (
          record { flag_right = sym pf; apart = refl; last_right = refl },
          (
            record { flag_right = refl; apart = refl; last_right = fits.last_right },
            subst (λ u. Ordered (not u) after) free v.order_ahead.1,
          ),
        );
        listed = λ b. omega (
          arith,
          count-added b (bt + reqsz) bs,
          off b,
          v.listed b,
          free_bit b bt c free,
          ap (λ a. count_free b a after) {x = bt + reqsz + (c.size - reqsz)} {y = bt + c.size}
              (omega arith),
        );
        counted =
            omega
              (arith, v.counted, bound, free_size_free c free, v.ahead.0.sized.aligned, aligned);
        sentinel =
            ap (λ w. has_bits w used) (split_elsewhere ar.finish less (inr past)) ∙ v.sentinel;
        in_range = v.in_range;
      })
