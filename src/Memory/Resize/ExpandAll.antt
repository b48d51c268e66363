-- ===== src/Memory/Resize/ExpandAll.antt =====
-- `ArenaMemResize` of a block into the whole of the free block behind it.
use demoscene.Prelude.{
  ℕ, ◌+◌, ◌-◌, ◌%◌, ◌≤◌, ◌<◌, ◌≡◌, refl, ap, subst, ◌∙◌, ◌⊎◌, inl, inr, true, false, not, arith,
  ◌==◌, if◌then◌else◌, has_bits, Bool-cases, ltb, List, [], ◌∷◌, count, Gives, gives, Gives-bind,
}
use demoscene.Memory.{Arena, usedblk_sz, free_insert, free_remove, dec_free, expand}
use demoscene.Memory.Bt
use demoscene.Memory.Bt.{used, prevfree, islast, clear}
use demoscene.Memory.Tags.{Cell}
use demoscene.Memory.Blocks.{Placed, Placed-frame, Chain, Chain-le, Chain-frame, Back-frame, place}
use demoscene.Memory.Layout.{
  count_free, Ordered, At, rewind, all_of, is_nil, bytes_bound, free_bit, used_bit, free_size_free,
  free_size_used, before_free_used,
}
use demoscene.Memory.Edits.{
  clr-prevfree-Placed, write_here, write_elsewhere, clr_prevfree-used, without-Removed,
}
use demoscene.Memory.Alloc.Whole.{order_clear, count-clear, bytes-clear}
use demoscene.Memory.Alloc.Split.{clear_first, exactly}
use demoscene.Memory.Resize.Shrink.{kept}
use demoscene.Memory.Resize.Expand.{
  leftover, expanded, expand_words, expand_part, expand_all, head-Placed, head_next, head_elsewhere,
  next_listed, part-At,
}

module _ (ar : Arena) (before : List Cell) (c n : Cell) (ns : List Cell) (bs : List ℕ)
    (v : At ar before (c ∷ n ∷ ns)) (c_used : c.is_used ≡ true) (n_free : n.is_used ≡ false)
    (off : (b : ℕ)
      → count b ar.free_list
        ≡ count b bs + (if place ar.start before + c.size == b then 1 else 0)) where
  abbrev bt : ℕ
  bt = place ar.start before

  abbrev sum : ℕ
  sum = c.size + n.size

  pub sum_aligned : sum % 16 ≡ 0
  sum_aligned = omega (arith, v.ahead.0.sized.aligned, v.ahead.1.0.sized.aligned)

  pub sum_more : c.size < sum
  sum_more = omega (arith, v.ahead.1.0.sized.large)

  abbrev all_words : ℕ → ℕ
  all_words = expand_words bt sum ar.words

  all-Placed : Placed all_words bt (kept sum c)
  all-Placed = head-Placed ar before c n ns sum v c_used n_free sum_aligned sum_more (omega arith)

  all_elsewhere : (a : ℕ) → (a < bt) ⊎ (bt + sum ≤ a) → all_words a ≡ ar.words a
  all_elsewhere a h =
      head_elsewhere ar before c n ns sum v c_used n_free sum_aligned sum_more (omega arith) a h

  abbrev end_words : ℕ → ℕ
  end_words = Bt.clr prevfree (bt + sum) all_words

  all-At :
      Chain end_words (bt + sum) (clear_first ns) ar.finish
      → has_bits (end_words ar.finish) used ≡ true
      → At
          (dec_free (n.size - usedblk_sz) (record ar { words = end_words; free_list = bs }))
          before
          (kept sum c ∷ clear_first ns)
  all-At ahead sentinel =
      let same : (a : ℕ) → a < bt + sum → end_words a ≡ all_words a =
        λ a lt. write_elsewhere all_words (bt + sum) _ a (inl lt) in
      record {
        behind =
            Back-frame ar.words end_words ar.start before v.behind
              (λ a lo hi. same a (omega arith) ∙ all_elsewhere a (inl hi));
        ahead = (
          Placed-frame all_words end_words bt (kept sum c) all-Placed (λ a lo hi. same a hi),
          ahead,
        );
        order_behind = v.order_behind;
        order_ahead = (
          record { flag_right = v.order_ahead.0.flag_right; apart = refl; last_right = refl },
          order_clear ns (subst (λ u. Ordered (not u) ns) n_free v.order_ahead.1.1),
        );
        listed = λ b. omega (
          arith,
          off b,
          v.listed b,
          used_bit b bt c c_used,
          free_bit b (bt + c.size) n n_free,
          count-clear b (bt + sum) ns,
          ap (λ a. count_free b a ns) {x = bt + sum} {y = bt + c.size + n.size} (omega arith),
        );
        counted = omega (
          arith,
          v.counted,
          bytes_bound ar before (c ∷ n ∷ ns) v,
          free_size_used c c_used,
          free_size_free n n_free,
          bytes-clear ns,
          v.ahead.1.0.sized.large,
        );
        sentinel = sentinel;
        in_range = v.in_range;
      }

take_all :
    (ar : Arena) (before : List Cell) (c n : Cell) (ns : List Cell) (bs : List ℕ)
    (v : At ar before (c ∷ n ∷ ns)) (c_used : c.is_used ≡ true) (n_free : n.is_used ≡ false)
    (off : (b : ℕ)
      → count b ar.free_list ≡ count b bs + (if place ar.start before + c.size == b then 1 else 0))
    → At
        (dec_free (n.size - usedblk_sz) (record ar {
          words =
              Bt.clr prevfree
                (place ar.start before + (c.size + n.size))
                (expand_words (place ar.start before) (c.size + n.size) ar.words);
          free_list = bs;
        }))
        before
        (kept (c.size + n.size) c ∷ clear_first ns)
take_all ar before c n [] bs v c_used n_free off =
    let at = place ar.start before + (c.size + n.size) in
    let words = expand_words (place ar.start before) (c.size + n.size) ar.words in
    let at_end : at ≡ ar.finish = omega (arith, v.ahead.1.1) in
    all-At ar before c n [] bs v c_used n_free off at_end (
      subst (λ a. has_bits (Bt.clr prevfree at words a) used ≡ true) at_end
        (ap (λ w. has_bits w used) (write_here words at (clear (words at) prevfree))
          ∙ clr_prevfree-used (words at)
          ∙ ap (λ w. has_bits w used)
              (all_elsewhere ar before c n [] bs v c_used n_free off at (inr (omega arith)))
          ∙ ap (λ a. has_bits (ar.words a) used) at_end
          ∙ v.sentinel))
take_all ar before c n (m ∷ ms) bs v c_used n_free off =
    let at = place ar.start before + (c.size + n.size) in
    let words = expand_words (place ar.start before) (c.size + n.size) ar.words in
    let (b, rest) =
      subst (λ a. Chain ar.words a (m ∷ ms) ar.finish) {y = at} (omega arith) v.ahead.1.1 in
    let m_used =
      before_free_used (not n.is_used) (is_nil ms) m v.order_ahead.1.1.0 (ap not n_free) in
    let large = b.sized.large in
    let past = Chain-le ar.words (at + m.size) ms ar.finish rest in
    let same : (a : ℕ) → at ≤ a → words a ≡ ar.words a =
      λ a le. all_elsewhere ar before c n (m ∷ ms) bs v c_used n_free off a (inr le) in
    let beyond : (a : ℕ) → at < a → Bt.clr prevfree at words a ≡ ar.words a =
      λ a lt. write_elsewhere words at _ a (inr lt) ∙ same a (omega arith) in
    all-At ar before c n (m ∷ ms) bs v c_used n_free off
      (
        clr-prevfree-Placed words at m (Placed-frame ar.words words at m b (λ a lo hi. same a lo))
            m_used,
        Chain-frame ar.words (Bt.clr prevfree at words) (at + m.size) ms ar.finish rest
            (λ a lo hi. beyond a (omega (arith, large))),
      )
      (ap (λ w. has_bits w used) (beyond ar.finish (omega (arith, large, past))) ∙ v.sentinel)

part-expand :
    (ar : Arena) (before : List Cell) (c n : Cell) (ns : List Cell) (reqsz : ℕ)
    → At ar before (c ∷ n ∷ ns)
    → c.is_used ≡ true
    → n.is_used ≡ false
    → reqsz % 16 ≡ 0
    → c.size < reqsz
    → reqsz ≤ c.size + n.size
    → ltb reqsz (c.size + n.size) ≡ true
    → Gives
        (λ ar'. At ar' [] (all_of before (kept reqsz c ∷ leftover reqsz c n ∷ ns)))
        (expand (place ar.start before) reqsz c.size (place ar.start before + c.size) n.size ar)
part-expand ar before c n ns reqsz v c_used n_free aligned more enough part =
    let bt = place ar.start before in
    let at = bt + c.size in
    let finish = λ (ar' : Arena). dec_free (reqsz - c.size) (
      free_insert (bt + reqsz) (record ar' {
        words =
            Bt.make (bt + reqsz) (c.size + n.size - reqsz) (Bt.is_last ar.words at)
              (expand_words bt reqsz ar.words);
      })) in
    let removed : Gives
        (λ ar'. At (finish ar') [] (all_of before (kept reqsz c ∷ leftover reqsz c n ∷ ns)))
        (free_remove at ar) =
      Gives-bind
        (without-Removed at ar.free_list
          (next_listed ar before c n ns reqsz v c_used n_free aligned more enough))
        λ bs off. gives (
          rewind (finish (record ar { free_list = bs })) before (kept reqsz c)
            (leftover reqsz c n ∷ ns)
            (part-At ar before c n ns reqsz v c_used n_free aligned more enough part bs off)) in
    rw
      (expand_part bt reqsz c.size at n.size (bt + reqsz) ar part
        (head_next ar before c n ns reqsz v c_used n_free aligned more enough))
      (Gives-bind removed λ ar' k. gives k)

all-expand :
    (ar : Arena) (before : List Cell) (c n : Cell) (ns : List Cell)
    → At ar before (c ∷ n ∷ ns)
    → c.is_used ≡ true
    → n.is_used ≡ false
    → Gives
        (λ ar'. At ar' [] (all_of before (kept (c.size + n.size) c ∷ clear_first ns)))
        (expand
          (place ar.start before)
          (c.size + n.size)
          c.size
          (place ar.start before + c.size)
          n.size
          ar)
all-expand ar before c n ns v c_used n_free =
    let bt = place ar.start before in
    let at = bt + c.size in
    let sum = c.size + n.size in
    let aligned : sum % 16 ≡ 0 =
      omega (arith, v.ahead.0.sized.aligned, v.ahead.1.0.sized.aligned) in
    let more : c.size < sum = omega (arith, v.ahead.1.0.sized.large) in
    let finish = λ (ar' : Arena).
      dec_free (n.size - usedblk_sz)
        (record ar' { words = Bt.clr prevfree (bt + sum) (expand_words bt sum ar.words) }) in
    let removed : Gives (λ ar'. At (finish ar') [] (all_of before (kept sum c ∷ clear_first ns)))
        (free_remove at ar) =
      Gives-bind
        (without-Removed at ar.free_list
          (next_listed ar before c n ns sum v c_used n_free aligned more (omega arith)))
        λ bs off. gives (
          rewind (finish (record ar { free_list = bs })) before (kept sum c) (clear_first ns)
            (take_all ar before c n ns bs v c_used n_free off)) in
    rw
      (expand_all bt c.size at n.size (bt + sum) ar
        (head_next ar before c n ns sum v c_used n_free aligned more (omega arith)))
      (Gives-bind removed λ ar' k. gives k)

-- The call, as far as the free block is large enough.
pub expand-expanded :
    (ar : Arena) (before : List Cell) (c n : Cell) (ns : List Cell) (reqsz : ℕ)
    → At ar before (c ∷ n ∷ ns)
    → c.is_used ≡ true
    → n.is_used ≡ false
    → reqsz % 16 ≡ 0
    → c.size < reqsz
    → reqsz ≤ c.size + n.size
    → Gives
        (λ ar'. At ar' [] (all_of before (expanded reqsz c n ns)))
        (expand (place ar.start before) reqsz c.size (place ar.start before + c.size) n.size ar)
expand-expanded ar before c n ns reqsz v c_used n_free aligned more enough =
    elim (Bool-cases (ltb reqsz (c.size + n.size))) [
      | inl part ↦
          rw part (part-expand ar before c n ns reqsz v c_used n_free aligned more enough part)
      | inr all ↦ rw all (
          subst
            (λ r.
              Gives (λ ar'. At ar' [] (all_of before (kept (c.size + n.size) c ∷ clear_first ns)))
                (expand (place ar.start before) r c.size (place ar.start before + c.size) n.size
                  ar))
            (exactly reqsz (c.size + n.size) enough all)
            (all-expand ar before c n ns v c_used n_free))
    ]
