-- ===== src/Memory/Heap.antt =====
-- The allocator's calls over all arenas: `MemAlloc`, `MemFree` and `MemResize` of
-- system/kernel/memory.c. The arenas are a list in the order in which they were added, and the
-- words of all of them together are those of one memory. `none` is a crash.
use demoscene.Prelude.{
  ℕ, ◌+◌, ◌-◌, ◌*◌, ◌%◌, ◌^◌, Bool, true, ◌&&◌, Option, none, some, ◌>>=◌, List, [], ◌∷◌, ltb, leb,
  ◌==◌, if◌then◌else◌, has_bits,
}
use demoscene.Memory.Bt
use demoscene.Memory.{Arena, arena_mem_alloc, arena_mem_free, arena_mem_resize}

abbrev pub memf_public : ℕ
memf_public = 1

abbrev pub memf_clear : ℕ
memf_clear = 2 ^ 16

-- `bzero` of `size` bytes from a word's address, the first byte of a word being its highest.
abbrev pub bzero : (ptr size : ℕ) → (ℕ → ℕ) → ℕ → ℕ
bzero ptr size words a =
    if leb ptr a && ltb a (ptr + size)
    then (if leb (a + 4) (ptr + size) then 0 else words a % 2 ^ (8 * (4 - (ptr + size - a))))
    else words a

-- `memcpy` of whole words.
abbrev pub memcpy : (dst src size : ℕ) → (from words : ℕ → ℕ) → ℕ → ℕ
memcpy dst src size from words a =
    if leb dst a && ltb a (dst + size) then from (a - dst + src) else words a

-- The first arena of the kind with room: its block, and the arenas.
unfoldable pub try_alloc : (size attributes : ℕ) → List Arena → Option (Option ℕ × List Arena)
try_alloc size attributes [] = some (none, [])
try_alloc size attributes (ar ∷ ars) = do
  (o, ar') ← if has_bits ar.attributes attributes then arena_mem_alloc size ar else some (none, ar)
  elim o [
    | some bt ↦ some (some bt, ar' ∷ ars)
    | none ↦ do (o', ars') ← try_alloc size attributes ars; some (o', ar' ∷ ars')
  ]

abbrev pub holds : ℕ → Arena → Bool
holds ptr ar = leb ar.start ptr && ltb ptr ar.finish

-- A change of the arena that holds `ptr`; `none` also stands for the `Assume` of `ArenaOf`.
unfoldable pub in_arena :
    {B : Type 0} → (ptr : ℕ) → (Arena → Option (B × Arena)) → List Arena → Option (B × List Arena)
in_arena ptr f [] = none
in_arena ptr f (ar ∷ ars) =
    let later = in_arena ptr f ars in
    if holds ptr ar
    then (do (b, ar') ← f ar; some (b, ar' ∷ ars))
    else (do (b, ars') ← later; some (b, ar ∷ ars'))

-- The outer `none` is the panic when no arena has room.
unfoldable pub mem_alloc : (size attributes : ℕ) → List Arena → Option (ℕ × List Arena)
mem_alloc size attributes arenas = do
  (o, arenas') ← try_alloc size attributes arenas
  elim o [
    | none ↦ none
    | some bt ↦
        if has_bits attributes memf_clear
        then (do
          (u, cleared) ←
              in_arena (bt + 4)
                (λ ar. some (true, record ar { words = bzero (bt + 4) size ar.words })) arenas'
          some (bt + 4, cleared))
        else some (bt + 4, arenas')
  ]

unfoldable pub mem_free : (ptr : ℕ) → List Arena → Option (List Arena)
mem_free ptr arenas = if ptr == 0 then some arenas else (do
  (u, arenas') ← in_arena ptr (λ ar. do ar' ← arena_mem_free ptr ar; some (true, ar')) arenas
  some arenas')

-- `MemResize` when the block has to move: `from` and `attributes` are the words and the kind of its
-- arena.
unfoldable pub move_block :
    (ptr size attributes : ℕ) (from : ℕ → ℕ) → List Arena → Option (ℕ × List Arena)
move_block ptr size attributes from arenas = do
  (new, arenas') ← mem_alloc size attributes arenas
  (u, copied) ←
      in_arena new
        (λ ar.
          some
            (true, record ar { words = memcpy new ptr (Bt.size from (ptr - 4) - 4) from ar.words }))
        arenas'
  left ← mem_free ptr copied
  some (new, left)

-- The new address, 0 for NULL.
unfoldable pub mem_resize : (multitask : Bool) (ptr size : ℕ) → List Arena → Option (ℕ × List Arena)
mem_resize multitask ptr size arenas =
    if size == 0
    then (do left ← mem_free ptr arenas; some (0, left))
    else if ptr == 0
    then mem_alloc size memf_public arenas
    else (do
      ((fits, (kind, from)), arenas') ←
          in_arena ptr
            (λ ar. do
              (fits, ar') ← arena_mem_resize multitask ptr size ar
              some ((fits, (ar.attributes, ar.words)), ar'))
            arenas
      if fits then some (ptr, arenas') else move_block ptr size kind from arenas')
