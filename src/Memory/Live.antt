-- ===== src/Memory/Live.antt =====
-- The used blocks of an arena, through the calls.
use demoscene.Prelude.{
  ℕ, ◌+◌, ◌-◌, ◌≤◌, ◌<◌, ◌≡◌, refl, ap, ◌∙◌, inl, inr, Bool, true, false, arith, ◌==◌,
  if◌then◌else◌, Bool-cases, ltb, ltb→lt, List, [], ◌∷◌,
}
use demoscene.Memory.{Arena}
use demoscene.Memory.Tags.{Cell}
use demoscene.Memory.Blocks.{place}
use demoscene.Memory.Free.Prev.{clear_if_set}
use demoscene.Memory.Layout.{still_ahead, after_free, all_of, At, forward}
use demoscene.Memory.Alloc.Split.{carved, first_part, second_part, taken, clear_first}
use demoscene.Memory.Free.Next.{next_by, prev_by, joined_next, joined_prev}
use demoscene.Memory.Free.{freed}

-- Is there a used block with its memory at `p`?
abbrev pub used_here : (p at : ℕ) → Cell → ℕ
used_here p at c = if c.is_used then (if at + 4 == p then 1 else 0) else 0

abbrev pub count_used : (p at : ℕ) → List Cell → ℕ
count_used p at [] = 0
count_used p at (c ∷ cs) = used_here p at c + count_used p (at + c.size) cs

abbrev used_back : (p start : ℕ) → List Cell → ℕ
used_back p start [] = 0
used_back p start (q ∷ qs) = used_here p (place start qs) q + used_back p start qs

count_used-all_of :
    (p start : ℕ) (before rest : List Cell)
    → count_used p start (all_of before rest)
      ≡ used_back p start before + count_used p (place start before) rest
count_used-all_of p start [] rest = omega arith
count_used-all_of p start (q ∷ before) rest =
    count_used-all_of p start before (q ∷ rest) ∙ omega arith

used_if :
    (p at : ℕ) (c : Cell) (u : Bool)
    → c.is_used ≡ u
    → used_here p at c ≡ (if u then (if at + 4 == p then 1 else 0) else 0)
used_if p at c u e = ap (λ b. if b then (if at + 4 == p then 1 else 0) else 0) e

count-clear_first :
    (p at : ℕ) (ns : List Cell) → count_used p at (clear_first ns) ≡ count_used p at ns
count-clear_first p at [] = refl
count-clear_first p at (n ∷ ns) = refl

-- Taking memory adds its block to the used ones.
pub count_used-carved :
    (p start reqsz : ℕ) (before : List Cell) (c : Cell) (after : List Cell)
    → c.is_used ≡ false
    → reqsz ≤ c.size
    → count_used p start (all_of before (carved reqsz c after))
      ≡ (if place start before + 4 == p then 1 else 0)
        + count_used p start (all_of before (c ∷ after))
count_used-carved p start reqsz before c after free enough =
    let at = place start before in
    let was = count_used-all_of p start before (c ∷ after) in
    let c_free = used_if p at c false free in
    elim (Bool-cases (ltb reqsz c.size)) [
      | inl less ↦ rw less (
          omega (
            arith,
            was,
            c_free,
            ltb→lt reqsz c.size less,
            count_used-all_of p start before (first_part reqsz ∷ second_part reqsz c ∷ after),
            ap (λ a. count_used p a after) {x = at + reqsz + (c.size - reqsz)} {y = at + c.size}
                (omega (arith, ltb→lt reqsz c.size less)),
          ))
      | inr all ↦ rw all (
          omega (
            arith,
            was,
            c_free,
            count_used-all_of p start before (taken c ∷ clear_first after),
            count-clear_first p (at + c.size) after,
          ))
    ]

joined_next-used :
    (c : Cell) (after : List Cell) → c.is_used ≡ false → (joined_next c after).0.is_used ≡ false
joined_next-used c [] e = e
joined_next-used c (n ∷ ns) e = ground arith

joined_next-flag : (c : Cell) (after : List Cell) → (joined_next c after).0.prev_free ≡ c.prev_free
joined_next-flag c [] = refl
joined_next-flag c (n ∷ ns) = ground arith

count-joined_next :
    (p at : ℕ) (c : Cell) (after : List Cell)
    → count_used p (at + (joined_next c after).0.size) (joined_next c after).1
      ≡ count_used p (at + c.size) after
count-joined_next p at c [] = refl
count-joined_next p at c (n ∷ ns) =
    let value = λ (b : Bool). count_used p (at + (next_by b c n ns).0.size) (next_by b c n ns).1 in
    elim (Bool-cases n.is_used) [
      | inl n_used ↦ ap value n_used
      | inr n_free ↦
          ap value n_free
          ∙ omega (
            arith,
            used_if p (at + c.size) n false n_free,
            ap (λ a. count_used p a ns) {x = at + (c.size + n.size)} {y = at + c.size + n.size}
                (omega arith),
          )
    ]

-- Joining a free block with the one before it keeps the used ones.
used-joined_prev :
    (p start : ℕ) (before : List Cell) (c : Cell) (after : List Cell)
    → c.is_used ≡ false
    → c.prev_free ≡ after_free before
    → count_used p start (all_of (joined_prev before c).0 ((joined_prev before c).1 ∷ after))
      ≡ used_back p start before + count_used p (place start before + c.size) after
used-joined_prev p start [] c after free flag = omega (arith, used_if p start c false free)
used-joined_prev p start (q ∷ qs) c after free flag =
    let value = λ (b : Bool).
      count_used p start (all_of (prev_by b q qs c).0 ((prev_by b q qs c).1 ∷ after)) in
    elim (Bool-cases c.prev_free) [
      | inr unset ↦
          ap value unset
          ∙ omega (
            arith,
            count_used-all_of p start (q ∷ qs) (c ∷ after),
            used_if p (place start qs + q.size) c false free,
          )
      | inl set ↦
          ap value set
          ∙ omega (
            arith,
            count_used-all_of p start qs (
                record { size = c.size + q.size; is_used = false; prev_free = false; last = c.last }
                ∷ after),
            used_if p (place start qs) q false (clear_if_set c.prev_free q.is_used set flag),
            ap (λ a. count_used p a after) {x = place start qs + (c.size + q.size)}
                {y = place start qs + q.size + c.size} (omega arith),
          )
    ]

-- Freeing memory takes its block from the used ones.
pub count_used-freed :
    (p start : ℕ) (before : List Cell) (c : Cell) (after : List Cell)
    → c.is_used ≡ true
    → c.prev_free ≡ after_free before
    → count_used p start (all_of before (c ∷ after))
      ≡ (if place start before + 4 == p then 1 else 0) + count_used p start (freed before c after)
count_used-freed p start before c after taken flag =
    let c0 = record c { is_used = false } in
    let c1 = (joined_next c0 after).0 in
    omega (
      arith,
      count_used-all_of p start before (c ∷ after),
      used_if p (place start before) c true taken,
      count-joined_next p (place start before) c0 after,
      used-joined_prev p start before c1 (joined_next c0 after).1 (joined_next-used c0 after refl)
          (joined_next-flag c0 after ∙ flag),
    )

-- A used block with its memory at `p`, with the blocks before and behind it.
pub record UsedAt (ar : Arena) (p : ℕ) (cells : List Cell) : Type 0 where
  pub before : List Cell
  pub cell : Cell
  pub after : List Cell
  pub view : At ar before (cell ∷ after)
  pub is_used : cell.is_used ≡ true
  pub address : place ar.start before + 4 ≡ p
  pub whole : all_of before (cell ∷ after) ≡ cells

used_at : (p at : ℕ) (c : Cell) → 0 < used_here p at c → (c.is_used ≡ true) × (at + 4 ≡ p)
used_at p at c pos = ground arith

pub find_used :
    (ar : Arena) (p : ℕ) (before rest : List Cell)
    → At ar before rest
    → 0 < count_used p (place ar.start before) rest
    → UsedAt ar p (all_of before rest)
find_used ar p before [] v pos = absurd (omega arith)
find_used ar p before (c ∷ []) v pos =
    let h = used_at p (place ar.start before) c (omega arith) in
    record {
      before = before;
      cell = c;
      after = [];
      view = v;
      is_used = h.0;
      address = h.1;
      whole = refl;
    }
find_used ar p before (c ∷ d ∷ cs) v pos =
    elim (Bool-cases (ltb 0 (used_here p (place ar.start before) c))) [
      | inl here ↦
          let h = used_at p (place ar.start before) c (ltb→lt _ _ here) in
          record {
            before = before;
            cell = c;
            after = d ∷ cs;
            view = v;
            is_used = h.0;
            address = h.1;
            whole = refl;
          }
      | inr elsewhere ↦ find_used ar p (c ∷ before) (d ∷ cs) (forward ar before c d cs v) (
          still_ahead (used_here p (place ar.start before) c)
            (count_used p (place ar.start before + c.size) (d ∷ cs)) elsewhere pos)
    ]
