-- ===== src/Memory.antt =====
-- The memory allocator: system/kernel/memory.c. A block has a header, and a footer that is a copy of
-- the header of a free block or the canary of a used one. Addresses are byte addresses of words of
-- 32 bits. Each arena has its own words, and its ring of free blocks is the list of their headers.
-- Calls hold a mutex, so each is one step; `multitask` says whether MULTITASK is defined, without
-- which there are no mutexes.
pub mod Bt
pub mod BestFit
pub mod Tags
pub mod Blocks
pub mod Layout
pub mod Edits
pub mod Alloc
pub mod Free
pub mod Resize
pub mod Live
pub mod Requests
pub mod Restore
pub mod Heap
mod Tests
use demoscene.Prelude.{
  ℕ, zero, suc, ◌+◌, ◌-◌, ◌*◌, ◌/◌, ◌%◌, ◌^◌, bit_and, bit_or, Bool, true, false, ◌&&◌, not, Option,
  none, some, ◌>>=◌, List, [], ◌∷◌, ◌++◌, ltb, leb, ◌==◌, if◌then◌else◌, has_bits,
}
use demoscene.Memory.Bt
use demoscene.Memory.Bt.{write, clear, used, prevfree, islast}

abbrev pub freeblk_sz : ℕ
freeblk_sz = 16

abbrev pub usedblk_sz : ℕ
usedblk_sz = 8

abbrev pub int_max : ℕ
int_max = 2 ^ 31 - 1

pub record Arena : Type 0 where
  pub words : ℕ → ℕ
  pub free_list : List ℕ
  pub start : ℕ
  pub finish : ℕ
  pub total_free : ℕ
  pub min_free : ℕ
  pub attributes : ℕ

abbrev pub roundup : ℕ → ℕ → ℕ
roundup x y = (x + (y - 1)) % 2 ^ 32 / y * y

abbrev pub block_size : ℕ → ℕ
block_size size = roundup ((size + usedblk_sz) % 2 ^ 32) 16

abbrev pub free_insert : ℕ → Arena → Arena
free_insert bt ar = record ar { free_list = ar.free_list ++ bt ∷ [] }

-- `none` unlinks a node that is on no list.
unfoldable pub without : ℕ → List ℕ → Option (List ℕ)
without bt [] = none
without bt (b ∷ bs) =
    let rest = without bt bs in if b == bt then some bs else (do bs' ← rest; some (b ∷ bs'))

abbrev pub free_remove : ℕ → Arena → Option Arena
free_remove bt ar = do bs ← without bt ar.free_list; some (record ar { free_list = bs })

-- The loop of `ArenaFindFit`, with the best block of so far and its size.
unfoldable pub find_fit : (ℕ → ℕ) → (reqsz : ℕ) → (best : Option ℕ) (bestsz : ℕ) → List ℕ → Option ℕ
find_fit words reqsz best bestsz [] = best
find_fit words reqsz best bestsz (bt ∷ bts) =
    let sz = Bt.size words bt in
    let better = ltb reqsz sz && ltb sz bestsz in
    let rest =
      find_fit words reqsz (if better then some bt else best) (if better then sz else bestsz) bts in
    if sz == reqsz then some bt else rest

abbrev pub arena_find_fit : Arena → ℕ → Option ℕ
arena_find_fit ar reqsz = find_fit ar.words reqsz none int_max ar.free_list

abbrev pub dec_free : ℕ → Arena → Arena
dec_free sz ar =
    let total = (ar.total_free + 2 ^ 32 - sz) % 2 ^ 32 in
    record ar {
      total_free = total;
      min_free = if ltb total ar.min_free then total else ar.min_free;
    }

-- `AddMemory` of an aligned region: the arena with its one free block, behind the header of 28
-- bytes. `none` is a failed `Assume`.
unfoldable pub add_memory : (ptr size attributes : ℕ) → (ℕ → ℕ) → Option Arena
add_memory ptr size attributes words =
    let ar = roundup ptr 16 in
    let finish = ((ptr + size) % 2 ^ 32 / 16 * 16 + 2 ^ 32 - 4) % 2 ^ 32 in
    let start = ar + 28 in
    let sz = finish - start in
    if not (ar == 0) && ltb (start + freeblk_sz) finish
    then some (record {
      words = Bt.make start sz islast words;
      free_list = start ∷ [];
      start = start;
      finish = finish;
      total_free = sz - usedblk_sz;
      min_free = int_max;
      attributes = attributes;
    })
    else none

-- The part of `ArenaMemAlloc` behind `FreeRemove`: `ar` has the block `bt` of `sz` bytes off its list.
unfoldable pub carve : (bt reqsz sz : ℕ) → Arena → Arena
carve bt reqsz sz ar =
    let is_last = Bt.is_last ar.words bt in
    let made = Bt.make bt reqsz (bit_or used is_last) ar.words in
    let next = Bt.next made bt in
    if ltb reqsz sz
    then dec_free reqsz (
        free_insert next
          (record ar { words = Bt.clr islast bt (Bt.make next (sz - reqsz) is_last made) }))
    else dec_free (reqsz - usedblk_sz)
        (record ar { words = if is_last == 0 then Bt.clr prevfree next made else made })

-- The header of the block, or none if no free block is large enough.
unfoldable pub arena_mem_alloc : ℕ → Arena → Option (Option ℕ × Arena)
arena_mem_alloc size ar =
    let reqsz = block_size size in
    elim (arena_find_fit ar reqsz) [
      | none ↦ some (none, ar)
      | some bt ↦ do
        ar' ← free_remove bt ar
        some (some bt, carve bt reqsz (Bt.size ar.words bt) ar')
    ]

-- The block that is freed, its size, and the bytes that become free with it.
pub record Freed : Type 0 where
  pub bt : ℕ
  pub sz : ℕ
  pub memsz : ℕ
  pub arena : Arena

unfoldable pub join_next : Freed → Option Freed
join_next f =
    let words = f.arena.words in
    let next = Bt.next words f.bt in
    if Bt.is_used words next
    then some (record f { arena = record f.arena { words = Bt.put prevfree next words } })
    else (do
      ar ← free_remove next f.arena
      let sz = f.sz + Bt.size words next in
          some (record {
            bt = f.bt;
            sz = sz;
            memsz = f.memsz + usedblk_sz;
            arena = record ar {
              words =
                  Bt.make f.bt sz (bit_or (Bt.prev_free words f.bt) (Bt.is_last words next)) words;
            };
          }))

unfoldable pub join_prev : Freed → Option Freed
join_prev f =
    let words = f.arena.words in
    if Bt.prev_free words f.bt == 0 then some f else (do
      ar ← free_remove (Bt.prev words f.bt) f.arena
      let prev = Bt.prev words f.bt in
          let sz = f.sz + Bt.size words prev in
          some (record {
            bt = prev;
            sz = sz;
            memsz = f.memsz + usedblk_sz;
            arena = record ar { words = Bt.make prev sz (Bt.is_last words f.bt) words };
          }))

-- `none` is a block that is not used, a damaged canary, or a neighbour that is on no list. The
-- test `if (next)` of the source holds, since `next` is an address behind the block.
unfoldable pub arena_mem_free : (ptr : ℕ) → Arena → Option Arena
arena_mem_free ptr ar =
    let bt = ptr - 4 in
    let sz = Bt.size ar.words bt in
    if Bt.is_used ar.words bt && Bt.has_canary ar.words bt
    then (do
      f ← join_next (record {
        bt = bt;
        sz = sz;
        memsz = sz - usedblk_sz;
        arena = record ar { words = Bt.make bt sz (Bt.flags ar.words bt) ar.words };
      })
      f' ← join_prev f
      some (
          free_insert f'.bt
            (record f'.arena { total_free = (f'.arena.total_free + f'.memsz) % 2 ^ 32 })))
    else none

-- `ArenaMemResize` to a smaller block. The caller holds the mutex that `ArenaMemFree` locks: with
-- MULTITASK defined the task waits for itself for ever, and there is no result.
unfoldable pub shrink : (multitask : Bool) (bt reqsz sz : ℕ) → Arena → Option Arena
shrink multitask bt reqsz sz ar =
    let words = Bt.make bt reqsz (bit_or used (Bt.prev_free ar.words bt)) ar.words in
    let next = Bt.next words bt in
    let cut = record ar {
      words = Bt.make next (sz - reqsz) (bit_or used (Bt.is_last ar.words bt)) words;
    } in
    if multitask then none else arena_mem_free (next + 4) cut

-- `ArenaMemResize` to a larger block, into the free block `next` of `nextsz` bytes.
unfoldable pub expand : (bt reqsz sz next nextsz : ℕ) → Arena → Option Arena
expand bt reqsz sz next nextsz ar = do
  ar' ← free_remove next ar
  let words = Bt.make bt reqsz (bit_or used (Bt.prev_free ar.words bt)) ar.words in
      let rest = Bt.next words bt in
      some (
        if ltb reqsz (sz + nextsz)
        then dec_free (reqsz - sz) (
            free_insert rest (record ar' {
              words = Bt.make rest (sz + nextsz - reqsz) (Bt.is_last ar.words next) words;
            }))
        else dec_free (nextsz - usedblk_sz) (record ar' { words = Bt.clr prevfree rest words }))

-- The result says whether the block could be resized where it is.
unfoldable pub resize_block : (multitask : Bool) (bt reqsz : ℕ) → Arena → Option (Bool × Arena)
resize_block multitask bt reqsz ar =
    let sz = Bt.size ar.words bt in
    let next = Bt.next ar.words bt in
    let nextsz = Bt.size ar.words next in
    if reqsz == sz
    then some (true, ar)
    else if ltb reqsz sz
    then (do ar' ← shrink multitask bt reqsz sz ar; some (true, ar'))
    else if not (Bt.is_used ar.words next) && leb reqsz (sz + nextsz)
    then (do ar' ← expand bt reqsz sz next nextsz ar; some (true, ar'))
    else some (false, ar)

abbrev pub arena_mem_resize : (multitask : Bool) (ptr size : ℕ) → Arena → Option (Bool × Arena)
arena_mem_resize multitask ptr size ar = resize_block multitask (ptr - 4) (block_size size) ar
