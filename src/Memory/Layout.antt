-- ===== src/Memory/Layout.antt =====
-- When an arena is in order: its blocks, their flags, its list of free blocks and its counts.
use demoscene.Prelude.{
  ℕ, ◌+◌, ◌-◌, ◌^◌, ◌≤◌, ◌<◌, ◌≡◌, refl, ap, ◌∙◌, inl, inr, Bool, true, false, not, ◌||◌, arith,
  ◌==◌, if◌then◌else◌, has_bits, Bool-cases, List, [], ◌∷◌, count, ltb, ltb→lt,
}
use demoscene.Memory.{Arena}
use demoscene.Memory.Bt.{used}
use demoscene.Memory.Tags.{Cell}
use demoscene.Memory.Blocks.{Chain, Back, place}

-- Is there a free block at `b`?
abbrev pub free_here : (b at : ℕ) → Cell → ℕ
free_here b at c = if c.is_used then 0 else if at == b then 1 else 0

abbrev pub count_free : (b at : ℕ) → List Cell → ℕ
count_free b at [] = 0
count_free b at (c ∷ cs) = free_here b at c + count_free b (at + c.size) cs

abbrev pub count_back : (b start : ℕ) → List Cell → ℕ
count_back b start [] = 0
count_back b start (p ∷ ps) = free_here b (place start ps) p + count_back b start ps

-- The bytes that free blocks could hold.
abbrev pub free_size : Cell → ℕ
free_size c = if c.is_used then 0 else c.size - 8

abbrev pub free_bytes : List Cell → ℕ
free_bytes [] = 0
free_bytes (c ∷ cs) = free_size c + free_bytes cs

-- Each block says whether the one before it is free, no two neighbours are free, and only the last
-- block may be marked as such.
abbrev pub is_nil : List Cell → Bool
is_nil [] = true
is_nil (c ∷ cs) = false

pub record Fits (pf : Bool) (c : Cell) (end : Bool) : Type 0 where
  pub flag_right : c.prev_free ≡ pf
  pub apart : (c.is_used || not pf) ≡ true
  pub last_right : (not c.last || end) ≡ true

abbrev pub Ordered : Bool → List Cell → Type 0
Ordered pf [] = Unit
Ordered pf (c ∷ cs) = Fits pf c (is_nil cs) × Ordered (not c.is_used) cs

-- Is the nearest of the blocks before an address free?
abbrev pub after_free : List Cell → Bool
after_free [] = false
after_free (p ∷ ps) = not p.is_used

abbrev pub BackOrdered : List Cell → Type 0
BackOrdered [] = Unit
BackOrdered (p ∷ ps) = Fits (after_free ps) p false × BackOrdered ps

-- The arena consists of the blocks `before`, the nearest first, and then `rest`. Each free block is on
-- the free list once, and nothing else is; their bytes are counted; and the word behind the
-- arena, which no call writes whole, looks like the header of a used block.
pub record At (ar : Arena) (before rest : List Cell) : Type 0 where
  pub behind : Back ar.words ar.start before
  pub ahead : Chain ar.words (place ar.start before) rest ar.finish
  pub order_behind : BackOrdered before
  pub order_ahead : Ordered (after_free before) rest
  pub listed :
      (b : ℕ)
      → count b ar.free_list
        ≡ count_back b ar.start before + count_free b (place ar.start before) rest
  pub counted : ar.total_free ≡ free_bytes before + free_bytes rest
  pub sentinel : has_bits (ar.words ar.finish) used ≡ true
  pub in_range : ar.finish < 2 ^ 31

-- The same arena from the next block on.
pub forward :
    (ar : Arena) (before : List Cell) (c d : Cell) (rest : List Cell)
    → At ar before (c ∷ d ∷ rest)
    → At ar (c ∷ before) (d ∷ rest)
forward ar before c d rest v =
    let (fits, order) = v.order_ahead in
    record {
      behind = (v.ahead.0, v.behind);
      ahead = v.ahead.1;
      order_behind = (fits, v.order_behind);
      order_ahead = order;
      listed = λ b. v.listed b ∙ omega arith;
      counted = v.counted ∙ omega arith;
      sentinel = v.sentinel;
      in_range = v.in_range;
    }

free_size_le : (c : Cell) → free_size c ≤ c.size
free_size_le c = ground arith

Chain-bytes :
    (words : ℕ → ℕ) (at : ℕ) (cs : List Cell) (stop : ℕ)
    → Chain words at cs stop
    → at + free_bytes cs ≤ stop
Chain-bytes words at [] stop e = omega arith
Chain-bytes words at (c ∷ cs) stop (b, h) =
    omega (arith, free_size_le c, Chain-bytes words (at + c.size) cs stop h)

Back-bytes : (start : ℕ) (ps : List Cell) → start + free_bytes ps ≤ place start ps
Back-bytes start [] = omega arith
Back-bytes start (p ∷ ps) = omega (arith, free_size_le p, Back-bytes start ps)

-- The count of free bytes does not overflow.
pub bytes_bound :
    (ar : Arena) (before rest : List Cell)
    → At ar before rest
    → free_bytes before + free_bytes rest < 2 ^ 31
bytes_bound ar before rest v = omega (
  arith,
  v.in_range,
  Back-bytes ar.start before,
  Chain-bytes ar.words (place ar.start before) rest ar.finish v.ahead,
)

-- What a free block says of itself and of the one before it.
pub free_bit :
    (b at : ℕ) (c : Cell) → c.is_used ≡ false → free_here b at c ≡ (if at == b then 1 else 0)
free_bit b at c free = ap (λ u. if u then 0 else if at == b then 1 else 0) free

pub used_bit : (b at : ℕ) (c : Cell) → c.is_used ≡ true → free_here b at c ≡ 0
used_bit b at c taken = ap (λ u. if u then 0 else if at == b then 1 else 0) taken

pub free_size_free : (c : Cell) → c.is_used ≡ false → free_size c ≡ c.size - 8
free_size_free c free = ap (λ u. if u then 0 else c.size - 8) free

pub free_size_used : (c : Cell) → c.is_used ≡ true → free_size c ≡ 0
free_size_used c taken = ap (λ u. if u then 0 else c.size - 8) taken

pub before_free : (pf end : Bool) (c : Cell) → Fits pf c end → c.is_used ≡ false → pf ≡ false
before_free pf end c f free = ground (arith, f.apart)

pub before_free_used : (pf end : Bool) (c : Cell) → Fits pf c end → pf ≡ true → c.is_used ≡ true
before_free_used pf end c f set = ground (arith, f.apart)

-- All blocks in their order.
abbrev pub all_of : (before rest : List Cell) → List Cell
all_of [] rest = rest
all_of (p ∷ before) rest = all_of before (p ∷ rest)

-- The same arena from its start on.
pub rewind :
    (ar : Arena) (before : List Cell) (c : Cell) (rest : List Cell)
    → At ar before (c ∷ rest)
    → At ar [] (all_of before (c ∷ rest))
rewind ar [] c rest v = v
rewind ar (p ∷ before) c rest v = rewind ar before p (c ∷ rest) (record {
  behind = v.behind.1;
  ahead = (v.behind.0, v.ahead);
  order_behind = v.order_behind.1;
  order_ahead = (v.order_behind.0, v.order_ahead);
  listed = λ b. v.listed b ∙ omega arith;
  counted = v.counted ∙ omega arith;
  sentinel = v.sentinel;
  in_range = v.in_range;
})

-- A free block at `b`, with the blocks before and behind it.
pub record FreeAt (ar : Arena) (b : ℕ) (cells : List Cell) : Type 0 where
  pub before : List Cell
  pub cell : Cell
  pub after : List Cell
  pub view : At ar before (cell ∷ after)
  pub is_free : cell.is_used ≡ false
  pub whole : all_of before (cell ∷ after) ≡ cells
  pub address : place ar.start before ≡ b

pub still_ahead : (n m : ℕ) → ltb 0 n ≡ false → 0 < n + m → 0 < m
still_ahead n m h pos = ground arith

found_here : (b at : ℕ) (c : Cell) → 0 < free_here b at c → (c.is_used ≡ false) × (at ≡ b)
found_here b at c pos = ground arith

pub find_free :
    (ar : Arena) (b : ℕ) (before rest : List Cell)
    → At ar before rest
    → 0 < count_free b (place ar.start before) rest
    → FreeAt ar b (all_of before rest)
find_free ar b before [] v pos = absurd (omega arith)
find_free ar b before (c ∷ []) v pos =
    let h = found_here b (place ar.start before) c (omega arith) in
    record {
      before = before;
      cell = c;
      after = [];
      view = v;
      is_free = h.0;
      whole = refl;
      address = h.1;
    }
find_free ar b before (c ∷ d ∷ cs) v pos =
    elim (Bool-cases (ltb 0 (free_here b (place ar.start before) c))) [
      | inl here ↦
          let h = found_here b (place ar.start before) c (ltb→lt _ _ here) in
          record {
            before = before;
            cell = c;
            after = d ∷ cs;
            view = v;
            is_free = h.0;
            whole = refl;
            address = h.1;
          }
      | inr elsewhere ↦ find_free ar b (c ∷ before) (d ∷ cs) (forward ar before c d cs v) (
          still_ahead (free_here b (place ar.start before) c)
            (count_free b (place ar.start before + c.size) (d ∷ cs)) elsewhere pos)
    ]
