-- ===== src/Memory/Tests.antt =====
-- The allocator on an arena of 240 bytes.
use demoscene.Prelude.{inr}
use demoscene.Prelude.{
  ℕ, ◌≡◌, refl, Option, none, some, ◌>>=◌, true, false, Gives, List, [], ◌∷◌, arith, if◌then◌else◌,
  ◌==◌,
}
use demoscene.Memory.Bt
use demoscene.Memory.{
  Arena, add_memory, arena_find_fit, find_fit, arena_mem_alloc, arena_mem_free, carve, join_next,
  join_prev, without, block_size, arena_mem_resize,
}
use demoscene.Memory.Tags.{Cell}
use demoscene.Memory.Layout.{At}
use demoscene.Memory.Alloc.{Allocated, arena_mem_alloc-Allocated}
use demoscene.Memory.Free.{freed, arena_mem_free-freed}
use demoscene.Memory.Resize.{Resized, arena_mem_resize-Resized}
use demoscene.Memory.Restore.{run_restores}
use demoscene.Memory.Requests.{
  Request, allocate, release, Heap, serve, run, InOrder, Region, run-InOrder_of_add,
}
use demoscene.Memory.Heap.{mem_alloc, mem_free, try_alloc, in_arena}

abbrev arenas : Option (List Arena)
unfolding add_memory
arenas = do ar ← add_memory 1024 272 1 (λ a. 0); some (ar ∷ [])

-- Two blocks: the first is freed and its place is taken again.
abbrev script : Option (ℕ × (ℕ × ℕ))
script = do
  m ← arenas
  (a, m) ← mem_alloc 20 1 m
  (b, m) ← mem_alloc 30 1 m
  m ← mem_free a m
  (c, m) ← mem_alloc 24 1 m
  some (a, (b, c))

script-addresses : script ≡ some (1056, (1088, 1056))
unfolding mem_alloc mem_free try_alloc in_arena arena_mem_alloc arena_mem_free carve join_next
    join_prev without find_fit Bt.make arenas
script-addresses = refl

-- Two free blocks of 64 and 48 bytes, for a request of 32.
abbrev arena : Arena
arena = record {
  words = λ a. if a == 100 then 64 else 48;
  free_list = 100 ∷ 200 ∷ [];
  start = 100;
  finish = 400;
  total_free = 96;
  min_free = 96;
  attributes = 1;
}

arena_find_fit-arena : arena_find_fit arena 32 ≡ some 200
unfolding find_fit
arena_find_fit-arena = refl

-- A region of 272 bytes, and the arena that it makes: one free block of 240.
region : Region 1024 272 (λ a. 1)
region = record {
  not_null = omega arith;
  large = omega arith;
  in_range = omega arith;
  end_used = refl;
}

abbrev requests : List Request
requests = allocate 20 ∷ allocate 30 ∷ release 1056 ∷ allocate 24 ∷ []

run-InOrder_of_add_example :
    Gives
      (InOrder 1052 1292)
      (do ar ← add_memory 1024 272 1 (λ a. 1); run requests (record { arena = ar; live = [] }))
run-InOrder_of_add_example =
    run-InOrder_of_add 1024 272 1 (λ a. 1) requests region
      (omega arith, (omega arith, (tt, (omega arith, tt))))

abbrev round_trip : List Request
round_trip = allocate 20 ∷ allocate 30 ∷ release 1056 ∷ release 1088 ∷ []

abbrev blank : Arena
blank = record {
  words = λ a. 1;
  free_list = [];
  start = 0;
  finish = 0;
  total_free = 0;
  min_free = 0;
  attributes = 0;
}

abbrev after_round_trip : Heap
unfolding add_memory run serve arena_mem_alloc arena_mem_free carve join_next join_prev without
    find_fit Bt.make
after_round_trip =
    elim (do
      ar ← add_memory 1024 272 1 (λ a. 1)
      run round_trip (record { arena = ar; live = [] })) [
        | some h ↦ h
        | none ↦ record { arena = blank; live = [] }
      ]

after_round_trip-run :
    (do ar ← add_memory 1024 272 1 (λ a. 1); run round_trip (record { arena = ar; live = [] }))
    ≡ some after_round_trip
unfolding add_memory run serve arena_mem_alloc arena_mem_free carve join_next join_prev without
    find_fit Bt.make after_round_trip
after_round_trip-run = refl

nothing_live : after_round_trip.live ≡ []
unfolding add_memory run serve arena_mem_alloc arena_mem_free carve join_next join_prev without
    find_fit Bt.make after_round_trip
nothing_live = refl

run_restores_example :
    (after_round_trip.arena.free_list ≡ 1052 ∷ []) × (after_round_trip.arena.total_free ≡ 232)
run_restores_example =
    run_restores 1024 272 1 (λ a. 1) round_trip after_round_trip region
      (omega arith, (omega arith, (tt, (tt, tt)))) after_round_trip-run nothing_live

-- A used block of 32 bytes and a free one of 208.
abbrev two_blocks : Arena
unfolding Bt.make
two_blocks = record {
  words = Bt.make 1084 208 4 (Bt.make 1052 32 1 (λ a. 1));
  free_list = 1084 ∷ [];
  start = 1052;
  finish = 1292;
  total_free = 200;
  min_free = 200;
  attributes = 1;
}

abbrev used_cell : Cell
used_cell = record { size = 32; is_used = true; prev_free = false; last = false }

abbrev free_cell : Cell
free_cell = record { size = 208; is_used = false; prev_free = false; last = true }

two_blocks-At : At two_blocks [] (used_cell ∷ free_cell ∷ [])
unfolding two_blocks Bt.make
two_blocks-At = record {
  behind = tt;
  ahead = (
    record {
      header = refl;
      footer = refl;
      sized = record { aligned = refl; large = omega arith; small = omega arith };
    },
    (
      record {
        header = refl;
        footer = refl;
        sized = record { aligned = refl; large = omega arith; small = omega arith };
      },
      refl,
    ),
  );
  order_behind = tt;
  order_ahead = (
    record { flag_right = refl; apart = refl; last_right = refl },
    (record { flag_right = refl; apart = refl; last_right = refl }, tt),
  );
  listed = λ b. ground arith;
  counted = refl;
  sentinel = refl;
  in_range = omega arith;
}

arena_mem_alloc-Allocated_example :
    Gives
      (Allocated two_blocks (used_cell ∷ free_cell ∷ []) (block_size 40))
      (arena_mem_alloc 40 two_blocks)
arena_mem_alloc-Allocated_example =
    arena_mem_alloc-Allocated 40 two_blocks (used_cell ∷ free_cell ∷ []) (omega arith) two_blocks-At

arena_mem_free-freed_example :
    Gives (λ ar'. At ar' [] (freed [] used_cell (free_cell ∷ []))) (arena_mem_free 1056 two_blocks)
unfolding two_blocks
arena_mem_free-freed_example =
    arena_mem_free-freed two_blocks [] used_cell (free_cell ∷ []) two_blocks-At refl

arena_mem_resize-Resized_example :
    Gives
      (Resized (block_size 60) [] used_cell (free_cell ∷ []))
      (arena_mem_resize true 1056 60 two_blocks)
unfolding two_blocks
arena_mem_resize-Resized_example =
    arena_mem_resize-Resized true 60 two_blocks [] used_cell (free_cell ∷ []) (omega arith)
      (inr (omega arith)) two_blocks-At refl
