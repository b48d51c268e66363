-- ===== src/Memory/Requests.antt =====
-- Any sequence of requests to one arena.
use demoscene.Prelude.{
  ℕ, ◌+◌, ◌-◌, ◌*◌, ◌/◌, ◌%◌, ◌^◌, ◌<◌, ◌≡◌, refl, sym, ap, ap₂, subst, ◌∙◌, inl, inr, true, false,
  not, ◌&&◌, arith, ◌==◌, if◌then◌else◌, has_bits, Bool-cases, ltb, ltb→lt, All, List, [], ◌∷◌,
  count, Gives, gives, Gives-bind, Gives-also, Option, none, some, ◌>>=◌,
}
use demoscene.Memory.{
  Arena, freeblk_sz, roundup, block_size, without, add_memory, arena_mem_alloc, arena_mem_free,
  carve, join_next, join_prev,
}
use demoscene.Memory.Bt.{used, islast}
use demoscene.Memory.Tags.{Cell, Sized}
use demoscene.Memory.Blocks.{make-Placed, make_elsewhere}
use demoscene.Memory.Layout.{At, all_of}
use demoscene.Memory.Edits.{without-Removed}
use demoscene.Memory.Alloc.{Allocated, Taken, arena_mem_alloc-Allocated}
use demoscene.Memory.Alloc.Split.{carved}
use demoscene.Memory.Free.{freed, arena_mem_free-freed}
use demoscene.Memory.Live.{count_used, UsedAt, find_used, count_used-carved, count_used-freed}

-- An arena that was set up, and the addresses of the memory that its users hold.
pub record Heap : Type 0 where
  pub arena : Arena
  pub live : List ℕ

pub data Request : Type 0 where
  allocate : (size : ℕ) → Request
  release : (ptr : ℕ) → Request

-- Users release only what they hold.
unfoldable pub serve : Request → Heap → Option Heap
serve (allocate size) h = do
  (o, ar) ← arena_mem_alloc size h.arena
  some (record { arena = ar; live = elim o [ none ↦ h.live | some bt ↦ (bt + 4) ∷ h.live ] })
serve (release ptr) h =
    if ltb 0 (count ptr h.live)
    then (do
      ar ← arena_mem_free ptr h.arena
      live ← without ptr h.live
      some (record { arena = ar; live = live }))
    else some h

unfoldable pub run : List Request → Heap → Option Heap
run [] h = some h
run (r ∷ rs) h = do h' ← serve r h; run rs h'

same_start :
    (ptr : ℕ) (ar ar' : Arena)
    → arena_mem_free ptr ar ≡ some ar'
    → (ar'.start ≡ ar.start) × (ar'.finish ≡ ar.finish)
unfolding arena_mem_free join_next join_prev
same_start ptr ar ar' e = ground arith

same_start_alloc :
    (size : ℕ) (ar ar' : Arena) (o : Option ℕ)
    → arena_mem_alloc size ar ≡ some (o, ar')
    → (ar'.start ≡ ar.start) × (ar'.finish ≡ ar.finish)
unfolding arena_mem_alloc carve
same_start_alloc size ar ar' o e = ground arith

-- The arena is in order, and its used blocks are those whose memory the users hold, each once.
pub record InOrder (start finish : ℕ) (h : Heap) : Type 0 where
  pub cells : List Cell
  pub view : At h.arena [] cells
  pub from_start : h.arena.start ≡ start
  pub to_finish : h.arena.finish ≡ finish
  pub live_blocks : (p : ℕ) → count p h.live ≡ count_used p start cells

-- A request for a size that does not overflow with its overhead.
abbrev pub IsFine : Request → Type 0
IsFine (allocate size) = size + 23 < 2 ^ 32
IsFine (release ptr) = Unit {0}

start_of_alloc :
    (size : ℕ) (ar : Arena) (r : Option ℕ × Arena)
    → arena_mem_alloc size ar ≡ some r
    → (r.1.start ≡ ar.start) × (r.1.finish ≡ ar.finish)
start_of_alloc size ar (o, ar') e = same_start_alloc size ar ar' o e

count_cons : (p q : ℕ) (xs : List ℕ) → count p (q ∷ xs) ≡ (if q == p then 1 else 0) + count p xs
count_cons p q xs = ground arith

module _ (start finish : ℕ) (h : Heap) (v : InOrder start finish h) where
  live-Taken :
      (reqsz bt : ℕ) (ar : Arena) (t : Taken h.arena v.cells reqsz bt ar) (p : ℕ)
      → count_used p start (all_of t.before (carved reqsz t.cell t.after))
        ≡ (if bt + 4 == p then 1 else 0) + count_used p start v.cells
  live-Taken reqsz bt ar t p =
      subst
        (λ s.
          count_used p s (all_of t.before (carved reqsz t.cell t.after))
          ≡ (if bt + 4 == p then 1 else 0) + count_used p s v.cells)
        v.from_start
        (count_used-carved p h.arena.start reqsz t.before t.cell t.after t.was_free t.enough
          ∙ ap₂ (λ a cs. (if a + 4 == p then 1 else 0) + count_used p h.arena.start cs) t.address
              t.was)

  live_freed :
      (ptr : ℕ) (u : UsedAt h.arena ptr v.cells) (p : ℕ)
      → count_used p start v.cells
        ≡ (if ptr == p then 1 else 0) + count_used p start (freed u.before u.cell u.after)
  live_freed ptr u p =
      subst
        (λ s.
          count_used p s v.cells
          ≡ (if ptr == p then 1 else 0) + count_used p s (freed u.before u.cell u.after))
        v.from_start
        (ap (count_used p h.arena.start) (sym u.whole)
          ∙ count_used-freed p h.arena.start u.before u.cell u.after u.is_used
              u.view.order_ahead.0.flag_right
          ∙ ap
              (λ (a : ℕ).
                (if a == p then 1 else 0)
                + count_used p h.arena.start (freed u.before u.cell u.after))
              u.address)

  after_alloc :
      (size : ℕ) (r : Option ℕ × Arena)
      → Allocated h.arena v.cells (block_size size) r
      → (r.1.start ≡ h.arena.start) × (r.1.finish ≡ h.arena.finish)
      → InOrder start finish
          (record { arena = r.1; live = elim r.0 [ none ↦ h.live | some bt ↦ (bt + 4) ∷ h.live ] })
  after_alloc size (none, ar) (same, full) (es, ef) = record {
    cells = v.cells;
    view = subst (λ a. At a [] v.cells) (sym same) v.view;
    from_start = es ∙ v.from_start;
    to_finish = ef ∙ v.to_finish;
    live_blocks = v.live_blocks;
  }
  after_alloc size (some bt, ar) t (es, ef) = record {
    cells = all_of t.before (carved (block_size size) t.cell t.after);
    view = t.in_order;
    from_start = es ∙ v.from_start;
    to_finish = ef ∙ v.to_finish;
    live_blocks = λ p.
        count_cons p (bt + 4) h.live
        ∙ ap (λ n. (if bt + 4 == p then 1 else 0) + n) (v.live_blocks p)
        ∙ sym (live-Taken (block_size size) bt ar t p);
  }

  serve-InOrder : (r : Request) → IsFine r → Gives (InOrder start finish) (serve r h)
  unfolding serve
  serve-InOrder (allocate size) fine =
      Gives-bind
        (Gives-also (arena_mem_alloc size h.arena)
          (arena_mem_alloc-Allocated size h.arena v.cells fine v.view)
          (start_of_alloc size h.arena))
        λ r k. gives (after_alloc size r k.0 k.1)
  serve-InOrder (release ptr) fine = elim (Bool-cases (ltb 0 (count ptr h.live))) [
    | inr foreign ↦ rw foreign (gives v)
    | inl held ↦
        let pos = ltb→lt 0 (count ptr h.live) held in
        let u = find_used h.arena ptr [] v.cells v.view (
          subst (λ a. 0 < count_used ptr a v.cells) (sym v.from_start)
            (omega (arith, v.live_blocks ptr))) in
        let done =
          subst
            (λ a.
              Gives (λ ar'. At ar' [] (freed u.before u.cell u.after)) (arena_mem_free a h.arena))
            u.address (arena_mem_free-freed h.arena u.before u.cell u.after u.view u.is_used) in
        rw held (
          Gives-bind (Gives-also (arena_mem_free ptr h.arena) done (same_start ptr h.arena)) λ ar k.
            Gives-bind (without-Removed ptr h.live pos) λ live off. gives (record {
              cells = freed u.before u.cell u.after;
              view = k.0;
              from_start = k.1.0 ∙ v.from_start;
              to_finish = k.1.1 ∙ v.to_finish;
              live_blocks = λ p. omega (arith, off p, v.live_blocks p, live_freed ptr u p);
            }))
  ]

run-InOrder :
    (start finish : ℕ) (rs : List Request) (h : Heap)
    → All IsFine rs
    → InOrder start finish h
    → Gives (InOrder start finish) (run rs h)
unfolding run
run-InOrder start finish [] h fine v = gives v
run-InOrder start finish (r ∷ rs) h (fine, more) v =
    Gives-bind (serve-InOrder start finish h v r fine)
      λ h' v'. run-InOrder start finish rs h' more v'

-- Where `AddMemory` puts the first block, and the end of the arena.
abbrev pub start_of : ℕ → ℕ
start_of ptr = roundup ptr 16 + 28

abbrev pub finish_of : (ptr size : ℕ) → ℕ
finish_of ptr size = (ptr + size) / 16 * 16 - 4

-- A region of memory that is large enough, and ends below 2 ^ 31.
pub record Region (ptr size : ℕ) (words : ℕ → ℕ) : Type 0 where
  pub not_null : 0 < ptr
  pub large : start_of ptr + freeblk_sz < finish_of ptr size
  pub in_range : ptr + size < 2 ^ 31
  pub end_used : has_bits (words (finish_of ptr size)) used ≡ true

add_memory-InOrder :
    (ptr size attributes : ℕ) (words : ℕ → ℕ)
    → Region ptr size words
    → Gives
        (λ ar. InOrder (start_of ptr) (finish_of ptr size) (record { arena = ar; live = [] }))
        (add_memory ptr size attributes words)
unfolding add_memory
add_memory-InOrder ptr size attributes words g =
    let start = start_of ptr in
    let finish = finish_of ptr size in
    let one : Cell = record {
      size = finish - start;
      is_used = false;
      prev_free = false;
      last = true;
    } in
    let end_at : ((ptr + size) % 2 ^ 32 / 16 * 16 + 2 ^ 32 - 4) % 2 ^ 32 ≡ finish =
      omega (arith, g.large, g.in_range) in
    let guards : (not (roundup ptr 16 == 0) && ltb (start + freeblk_sz) finish) ≡ true =
      ground (arith, g.not_null, g.large, g.in_range) in
    let sized : Sized one = record {
      aligned = omega (arith, g.large);
      large = omega (arith, g.large);
      small = omega (arith, g.in_range);
    } in
    rw (end_at, guards)
      (gives (record {
        cells = one ∷ [];
        view = record {
          behind = tt;
          ahead = (make-Placed words start one islast sized refl, omega (arith, g.large));
          order_behind = tt;
          order_ahead = (record { flag_right = refl; apart = refl; last_right = refl }, tt);
          listed = λ b. count_cons b start [] ∙ omega arith;
          counted = omega arith;
          sentinel =
              ap (λ w. has_bits w used)
                (make_elsewhere words start (finish - start) islast finish sized.large
                  (inr (omega (arith, g.large))))
              ∙ g.end_used;
          in_range = omega (arith, g.in_range);
        };
        from_start = refl;
        to_finish = refl;
        live_blocks = λ p. omega arith;
      }))

-- After `AddMemory` of a region whose last word looks like the header of a used block, any requests for
-- sizes that do not overflow are served without a crash. The arena is in order at the end, and its
-- used blocks are those whose memory is held, each once; so no two overlap.
pub run-InOrder_of_add :
    (ptr size attributes : ℕ) (words : ℕ → ℕ) (rs : List Request)
    → Region ptr size words
    → All IsFine rs
    → Gives
        (InOrder (start_of ptr) (finish_of ptr size))
        (do ar ← add_memory ptr size attributes words; run rs (record { arena = ar; live = [] }))
run-InOrder_of_add ptr size attributes words rs g fine =
    Gives-bind (add_memory-InOrder ptr size attributes words g) λ ar v.
      run-InOrder (start_of ptr) (finish_of ptr size) rs (record { arena = ar; live = [] }) fine v
