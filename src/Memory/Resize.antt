-- ===== src/Memory/Resize.antt =====
-- What a call of `ArenaMemResize` comes to.
pub mod Shrink
pub mod Expand
pub mod ExpandAll
use demoscene.Prelude.{
  ℕ, ◌+◌, ◌-◌, ◌%◌, ◌^◌, ◌≤◌, ◌<◌, ◌≡◌, refl, sym, ap, ap₂, subst, ◌∙◌, ◌⊎◌, inl, inr, Bool, true,
  false, not, ◌||◌, bit_or, arith, ◌==◌, ==_iff, if◌then◌else◌, has_bits, Bool-cases, ltb, leb,
  ltb→lt, ◌&&◌, List, [], ◌∷◌, ◌++◌, count, Gives, gives, Gives-bind, Gives-mono, Option, some,
  ◌>>=◌,
}
use demoscene.Memory.{
  Arena, usedblk_sz, free_insert, free_remove, dec_free, arena_mem_free, shrink, expand, block_size,
  resize_block, arena_mem_resize,
}
use demoscene.Memory.Bt
use demoscene.Memory.Bt.{used, prevfree, islast, clear}
use demoscene.Memory.Tags.{Cell, bit, flag_bits, tag, Sized, every_flag}
use demoscene.Memory.Blocks.{
  Placed, Placed-frame, Reads, tag-Reads, make-Placed, make_elsewhere, Chain, Chain-le, Chain-frame,
  Back, Back-frame, place,
}
use demoscene.Memory.Layout.{
  free_here, count_free, count_back, free_bytes, Fits, Ordered, At, forward, rewind, all_of,
  after_free, is_nil, bytes_bound, free_bit, used_bit, free_size_free, free_size_used, before_free,
  before_free_used,
}
use demoscene.Memory.Edits.{
  clr-prevfree-Placed, write_here, write_elsewhere, clr_prevfree-used, without-Removed, count-added,
}
use demoscene.Memory.Free.{freed}
use demoscene.Memory.Resize.Shrink.{kept, cut_off, shrink-freed}
use demoscene.Memory.Resize.Expand.{expanded}
use demoscene.Memory.Resize.ExpandAll.{expand-expanded}

-- Whether a block can be resized where it is, and the blocks after it.
abbrev pub grown : ℕ → List Cell → Cell → List Cell → Bool × List Cell
grown reqsz before c [] = (false, all_of before (c ∷ []))
grown reqsz before c (n ∷ ns) =
    if not n.is_used && leb reqsz (c.size + n.size)
    then (true, all_of before (expanded reqsz c n ns))
    else (false, all_of before (c ∷ n ∷ ns))

abbrev pub resized : ℕ → List Cell → Cell → List Cell → Bool × List Cell
resized reqsz before c after =
    if reqsz == c.size
    then (true, all_of before (c ∷ after))
    else if ltb reqsz c.size
    then (true, freed (kept reqsz c ∷ before) (cut_off reqsz c) after)
    else grown reqsz before c after

pub record Resized (reqsz : ℕ) (before : List Cell) (c : Cell) (after : List Cell)
    (r : Bool × Arena) : Type 0 where
  pub in_place : r.0 ≡ (resized reqsz before c after).0
  pub in_order : At r.1 [] (resized reqsz before c after).1

-- Where the free block behind decides.
abbrev grow_block : (bt reqsz sz : ℕ) → Arena → Option (Bool × Arena)
grow_block bt reqsz sz ar =
    if not (Bt.is_used ar.words (bt + sz)) && leb reqsz (sz + Bt.size ar.words (bt + sz))
    then (do ar' ← expand bt reqsz sz (bt + sz) (Bt.size ar.words (bt + sz)) ar; some (true, ar'))
    else some (false, ar)

resize_cases :
    (multitask : Bool) (bt reqsz sz : ℕ) (ar : Arena)
    → Bt.size ar.words bt ≡ sz
    → resize_block multitask bt reqsz ar ≡ (
        if reqsz == sz
        then some (true, ar)
        else if ltb reqsz sz
        then (do ar' ← shrink multitask bt reqsz sz ar; some (true, ar'))
        else grow_block bt reqsz sz ar)
unfolding resize_block
resize_cases multitask bt reqsz sz ar e = rw e refl

has_room : (u : Bool) (n m : ℕ) → (not u && leb n m) ≡ true → (u ≡ false) × (n ≤ m)
has_room u n m h = ground arith

larger : (n m : ℕ) → (n == m) ≡ false → ltb n m ≡ false → m < n
larger n m ne nl = ground arith

module _ (ar : Arena) (before : List Cell) (c : Cell) (reqsz : ℕ) (aligned : reqsz % 16 ≡ 0)
    (c_used : c.is_used ≡ true) (more : c.size < reqsz) where
  grow_block-grown :
      (after : List Cell)
      → At ar before (c ∷ after)
      → Gives
          (λ r. (r.0 ≡ (grown reqsz before c after).0) × At r.1 [] (grown reqsz before c after).1)
          (grow_block (place ar.start before) reqsz c.size ar)
  grow_block-grown [] v =
      let end_used : Bt.is_used ar.words (place ar.start before + c.size) ≡ true =
        ap (λ a. has_bits (ar.words a) used) v.ahead.1 ∙ v.sentinel in
      rw end_used (gives (refl, rewind ar before c [] v))
  grow_block-grown (n ∷ ns) v =
      let b = v.ahead.1.0 in
      let r = tag-Reads ar.words (place ar.start before + c.size) n b.sized b.header in
      rw (r.used_read, r.size_read)
        (elim (Bool-cases (not n.is_used && leb reqsz (c.size + n.size))) [
          | inr no_room ↦ rw no_room (gives (refl, rewind ar before c (n ∷ ns) v))
          | inl room ↦ rw room (
              Gives-bind
                (expand-expanded ar before c n ns reqsz v c_used
                  (has_room n.is_used reqsz (c.size + n.size) room).0 aligned more
                  (has_room n.is_used reqsz (c.size + n.size) room).1)
                λ ar' k. gives (refl, k))
        ])

resize_block-Resized :
    (multitask : Bool) (ar : Arena) (before : List Cell) (c : Cell) (after : List Cell) (reqsz : ℕ)
    → (multitask ≡ false) ⊎ (c.size ≤ reqsz)
    → At ar before (c ∷ after)
    → c.is_used ≡ true
    → reqsz % 16 ≡ 0
    → 16 ≤ reqsz
    → Gives
        (λ r. (r.0 ≡ (resized reqsz before c after).0) × At r.1 [] (resized reqsz before c after).1)
        (resize_block multitask (place ar.start before) reqsz ar)
resize_block-Resized multitask ar before c after reqsz ends v c_used aligned large =
    let b = v.ahead.0 in
    rw
      (resize_cases multitask (place ar.start before) reqsz c.size ar
        (tag-Reads ar.words (place ar.start before) c b.sized b.header).size_read)
      (elim (Bool-cases (reqsz == c.size)) [
        | inl same ↦ rw same (gives (refl, rewind ar before c after v))
        | inr other ↦ elim (Bool-cases (ltb reqsz c.size)) [
          | inl less ↦ elim ends [
            | inl single ↦
                rw (other, less, single)
                  (Gives-bind
                    (shrink-freed ar before c after reqsz v c_used aligned large
                      (ltb→lt reqsz c.size less))
                    λ ar' k. gives (refl, k))
            | inr ge ↦ absurd (omega (arith, ge, ltb→lt reqsz c.size less))
          ]
          | inr not_less ↦
              rw (other, not_less)
                (grow_block-grown ar before c reqsz aligned c_used
                  (larger reqsz c.size other not_less) after v)
        ]
      ])

-- `ArenaMemResize` of a used block of an arena in order, for a size that does not overflow with its
-- overhead, if MULTITASK is not defined or the block does not get smaller: it ends and does not
-- crash, and the arena is in order again. A block keeps its place if it gets smaller, and what is
-- cut off is freed; it grows into the free block behind it, if that is large enough; or else
-- nothing changes, and the result says so. In order means that no block but the last has the flag
-- ISLAST; the last one loses it when it grows into the whole of a free last block.
pub arena_mem_resize-Resized :
    (multitask : Bool) (size : ℕ) (ar : Arena) (before : List Cell) (c : Cell) (after : List Cell)
    → size + 23 < 2 ^ 32
    → (multitask ≡ false) ⊎ (c.size ≤ block_size size)
    → At ar before (c ∷ after)
    → c.is_used ≡ true
    → Gives
        (Resized (block_size size) before c after)
        (arena_mem_resize multitask (place ar.start before + 4) size ar)
arena_mem_resize-Resized multitask size ar before c after room ends v c_used =
    let bt = place ar.start before in
    let done =
      resize_block-Resized multitask ar before c after (block_size size) ends v c_used (omega arith)
        (omega arith) in
    Gives-mono
      (subst
        (λ a.
          Gives
            (λ r.
              (r.0 ≡ (resized (block_size size) before c after).0)
              × At r.1 [] (resized (block_size size) before c after).1)
            (resize_block multitask a (block_size size) ar))
        {y = bt + 4 - 4} (omega arith) done)
      λ r k. record { in_place = k.0; in_order = k.1 }
