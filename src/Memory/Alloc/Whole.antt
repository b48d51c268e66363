-- ===== src/Memory/Alloc/Whole.antt =====
-- A free block that is taken as a whole.
use demoscene.Prelude.{
  ℕ, ◌+◌, ◌-◌, ◌≤◌, ◌<◌, ◌≡◌, refl, sym, ap, subst, ◌∙◌, ◌⊎◌, inl, inr, Bool, true, false, not,
  ◌||◌, bit_or, arith, ◌==◌, if◌then◌else◌, has_bits, Bool-cases, ltb, List, [], ◌∷◌, count,
}
use demoscene.Memory.{Arena, usedblk_sz, dec_free, carve}
use demoscene.Memory.Bt
use demoscene.Memory.Bt.{used, prevfree, islast, clear}
use demoscene.Memory.Tags.{Cell}
use demoscene.Memory.Blocks.{
  Placed, Placed-frame, tag-Reads, make_elsewhere, Chain, Chain-le, Chain-frame, Back-frame, place,
}
use demoscene.Memory.Layout.{
  count_free, free_bytes, Ordered, At, after_free, is_nil, bytes_bound, free_bit, free_size_free,
  before_free, before_free_used,
}
use demoscene.Memory.Edits.{clr-prevfree-Placed, write_here, write_elsewhere, clr_prevfree-used}
use demoscene.Memory.Alloc.Split.{bt, clear_first, made, made-Placed, taken}

carve_whole :
    (bt sz : ℕ) (last : Bool) (ar : Arena)
    → (Bt.is_last ar.words bt == 0) ≡ not last
    → Bt.next (Bt.make bt sz (bit_or used (Bt.is_last ar.words bt)) ar.words) bt ≡ bt + sz
    → carve bt sz sz ar
      ≡ dec_free (sz - usedblk_sz) (record ar {
        words =
            if not last
            then Bt.clr prevfree
                (bt + sz)
                (Bt.make bt sz (bit_or used (Bt.is_last ar.words bt)) ar.words)
            else Bt.make bt sz (bit_or used (Bt.is_last ar.words bt)) ar.words;
      })
unfolding carve
carve_whole bt sz last ar e at =
    let same : ltb sz sz ≡ false = ground arith in rw (same, e, at) refl

pub order_clear : (after : List Cell) → Ordered true after → Ordered false (clear_first after)
order_clear [] o = tt
order_clear (n ∷ ns) (f, o) =
    (record { flag_right = refl; apart = ground (arith, f.apart); last_right = f.last_right }, o)

is_nil-clear : (after : List Cell) → is_nil (clear_first after) ≡ is_nil after
is_nil-clear [] = refl
is_nil-clear (n ∷ ns) = refl

pub count-clear :
    (b at : ℕ) (after : List Cell) → count_free b at (clear_first after) ≡ count_free b at after
count-clear b at [] = refl
count-clear b at (n ∷ ns) = refl

pub bytes-clear : (after : List Cell) → free_bytes (clear_first after) ≡ free_bytes after
bytes-clear [] = refl
bytes-clear (n ∷ ns) = refl

module _ (ar : Arena) (before : List Cell) (c : Cell) (after : List Cell) (bs : List ℕ)
    (v : At ar before (c ∷ after)) (free : c.is_used ≡ false)
    (off : (b : ℕ)
      → count b ar.free_list ≡ count b bs + (if place ar.start before == b then 1 else 0)) where
  abbrev whole_words : ℕ → ℕ
  whole_words =
      made ar before c after c.size bs v free off v.ahead.0.sized.aligned v.ahead.0.sized.large

  whole-Placed : Placed whole_words (place ar.start before) (taken c)
  whole-Placed =
      made-Placed ar before c after c.size bs v free off v.ahead.0.sized.aligned
        v.ahead.0.sized.large (omega arith)

  whole_elsewhere :
      (a : ℕ)
      → (a < place ar.start before) ⊎ (place ar.start before + c.size ≤ a)
      → whole_words a ≡ ar.words a
  whole_elsewhere a h =
      make_elsewhere ar.words (place ar.start before) c.size
        (bit_or used (Bt.is_last ar.words (place ar.start before))) a v.ahead.0.sized.large h

  -- With the words `words`, which differ at most in the header behind the block.
  whole-At :
      (words : ℕ → ℕ)
      → ((a : ℕ) → a < place ar.start before + c.size → words a ≡ whole_words a)
      → Chain words (place ar.start before + c.size) (clear_first after) ar.finish
      → has_bits (words ar.finish) used ≡ true
      → At
          (dec_free (c.size - usedblk_sz) (record ar { words = words; free_list = bs }))
          before
          (taken c ∷ clear_first after)
  whole-At words same ahead sentinel =
      let fits = v.order_ahead.0 in
      let pf = before_free (after_free before) (is_nil after) c fits free in
      record {
        behind =
            Back-frame ar.words words ar.start before v.behind
              (λ a lo hi. same a (omega arith) ∙ whole_elsewhere a (inl hi));
        ahead = (
          Placed-frame whole_words words (place ar.start before) (taken c) whole-Placed
              (λ a lo hi. same a hi),
          ahead,
        );
        order_behind = v.order_behind;
        order_ahead = (
          record {
            flag_right = sym pf;
            apart = refl;
            last_right = ap (λ e. not c.last || e) (is_nil-clear after) ∙ fits.last_right;
          },
          order_clear after (subst (λ u. Ordered (not u) after) free v.order_ahead.1),
        );
        listed = λ b. omega (
          arith,
          off b,
          v.listed b,
          free_bit b (place ar.start before) c free,
          count-clear b (place ar.start before + c.size) after,
        );
        counted = omega (
          arith,
          v.counted,
          bytes_bound ar before (c ∷ after) v,
          free_size_free c free,
          bytes-clear after,
        );
        sentinel = sentinel;
        in_range = v.in_range;
      }

  -- How the code comes to the two cases.
  carved_whole :
      (last : Bool)
      → c.last ≡ last
      → carve (place ar.start before) c.size c.size (record ar { free_list = bs })
        ≡ dec_free (c.size - usedblk_sz) (record ar {
          words =
              if not last
              then Bt.clr prevfree (place ar.start before + c.size) whole_words
              else whole_words;
          free_list = bs;
        })
  carved_whole last e =
      let b = v.ahead.0 in
      carve_whole (place ar.start before) c.size last (record ar { free_list = bs })
        (ap (λ w. w == 0)
            ((tag-Reads ar.words (place ar.start before) c b.sized b.header).islast_read)
          ∙ ground arith)
        (ap (λ s. place ar.start before + s)
          (tag-Reads whole_words (place ar.start before) (taken c) whole-Placed.sized
            whole-Placed.header).size_read)

  -- The word behind the block keeps its lowest bit.
  end_used :
      has_bits (ar.words (place ar.start before + c.size)) used ≡ true
      → has_bits
          (Bt.clr prevfree
            (place ar.start before + c.size)
            whole_words
            (place ar.start before + c.size))
          used
        ≡ true
  end_used u =
      let at = place ar.start before + c.size in
      ap (λ w. has_bits w used) (write_here whole_words at (clear (whole_words at) prevfree))
      ∙ clr_prevfree-used (whole_words at)
      ∙ ap (λ w. has_bits w used) (whole_elsewhere at (inr (omega arith)))
      ∙ u

pub take_whole :
    (ar : Arena) (before : List Cell) (c : Cell) (after : List Cell) (bs : List ℕ)
    → At ar before (c ∷ after)
    → c.is_used ≡ false
    → ((b : ℕ) → count b ar.free_list ≡ count b bs + (if place ar.start before == b then 1 else 0))
    → At
        (carve (place ar.start before) c.size c.size (record ar { free_list = bs }))
        before
        (taken c ∷ clear_first after)
take_whole ar before c [] bs v free off = elim (Bool-cases c.last) [
  | inl last ↦ rw (carved_whole ar before c [] bs v free off true last) (
      whole-At ar before c [] bs v free off (whole_words ar before c [] bs v free off)
        (λ a lt. refl) v.ahead.1
        (ap (λ w. has_bits w used)
            (whole_elsewhere ar before c [] bs v free off ar.finish
              (inr (omega (arith, v.ahead.1))))
          ∙ v.sentinel))
  | inr unmarked ↦ rw (carved_whole ar before c [] bs v free off false unmarked) (
      whole-At ar before c [] bs v free off
        (Bt.clr prevfree (place ar.start before + c.size)
          (whole_words ar before c [] bs v free off))
        (λ a lt.
          write_elsewhere (whole_words ar before c [] bs v free off)
            (place ar.start before + c.size) _ a (inl lt))
        v.ahead.1
        (subst
          (λ a.
            has_bits
              (Bt.clr prevfree (place ar.start before + c.size)
                (whole_words ar before c [] bs v free off) a)
              used
            ≡ true)
          v.ahead.1
          (end_used ar before c [] bs v free off
            (ap (λ a. has_bits (ar.words a) used) v.ahead.1 ∙ v.sentinel))))
]
take_whole ar before c (n ∷ ns) bs v free off =
    let at = place ar.start before + c.size in
    let words = whole_words ar before c (n ∷ ns) bs v free off in
    let unmarked : c.last ≡ false = ground (arith, v.order_ahead.0.last_right) in
    let n_used = before_free_used (not c.is_used) (is_nil ns) n v.order_ahead.1.0 (ap not free) in
    let large = v.ahead.1.0.sized.large in
    let past = Chain-le ar.words (at + n.size) ns ar.finish v.ahead.1.1 in
    let beyond : (a : ℕ) → at < a → Bt.clr prevfree at words a ≡ ar.words a = λ a lt.
      write_elsewhere words at _ a (inr lt)
      ∙ whole_elsewhere ar before c (n ∷ ns) bs v free off a (inr (omega arith)) in
    rw (carved_whole ar before c (n ∷ ns) bs v free off false unmarked) (
      whole-At ar before c (n ∷ ns) bs v free off (Bt.clr prevfree at words)
        (λ a lt. write_elsewhere words at _ a (inl lt))
        (
          clr-prevfree-Placed words at n
              (Placed-frame ar.words words at n v.ahead.1.0
                (λ a lo hi. whole_elsewhere ar before c (n ∷ ns) bs v free off a (inr lo)))
              n_used,
          Chain-frame ar.words (Bt.clr prevfree at words) (at + n.size) ns ar.finish v.ahead.1.1
              (λ a lo hi. beyond a (omega (arith, large))),
        )
        (ap (λ w. has_bits w used) (beyond ar.finish (omega (arith, large, past))) ∙ v.sentinel))
