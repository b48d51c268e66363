-- ===== src/MemFiles.antt =====
-- Files in memory: system/drivers/memfile.c, and the operations of include/system/file.h that it
-- lacks, from system/kernel/file.c. A file is a sequence of blocks, up to one of length 0.
-- `mem` is the memory, by bytes; an `int` is a bit pattern of 32 bits.
pub mod Reading
pub mod Seeking
mod Tests
use demoscene.Prelude.{
  ℕ, zero, suc, ◌+◌, ◌-◌, ◌%◌, ◌^◌, Bool, List, [], ◌∷◌, ◌++◌, ltb, leb, ◌==◌, if◌then◌else◌,
  length,
}

pub record Block : Type 0 where
  pub addr : ℕ
  pub size : ℕ

pub record File : Type 0 where
  pub blocks : List Block
  pub offset : ℕ

abbrev pub seek_set : ℕ
seek_set = 0

abbrev pub seek_cur : ℕ
seek_cur = 1

abbrev pub seek_end : ℕ
seek_end = 2

abbrev pub mem_open : List Block → File
mem_open blocks = record { blocks = blocks; offset = 0 }

abbrev pub bytes : (mem : ℕ → ℕ) → (addr count : ℕ) → List ℕ
bytes mem a zero = []
bytes mem a (suc n) = mem a ∷ bytes mem (suc a) n

-- How much of a block the loop of `MemRead` copies.
abbrev pub to_do : (offset nbyte size : ℕ) → ℕ
to_do offset nbyte size = if ltb size ((offset + nbyte) % 2 ^ 32) then size - offset else nbyte

-- The loop of `MemRead`: the bytes that it copies.
unfoldable pub read_blocks : (mem : ℕ → ℕ) → List Block → (offset nbyte : ℕ) → List ℕ
read_blocks mem [] offset nbyte = []
read_blocks mem (b ∷ bs) offset nbyte =
    let skipped = read_blocks mem bs (offset - b.size) nbyte in
    let todo = to_do offset nbyte b.size in
    let later = read_blocks mem bs ((offset + todo + 2 ^ 32 - b.size) % 2 ^ 32) (nbyte - todo) in
    if nbyte == 0
    then []
    else if ltb b.size offset
    then skipped
    else bytes mem (b.addr + offset) todo ++ later

-- The bytes read (the result of `MemRead` is their number), and the file.
unfoldable pub mem_read : (mem : ℕ → ℕ) → (nbyte : ℕ) → File → List ℕ × File
mem_read mem nbyte f =
    let data_read = read_blocks mem f.blocks f.offset nbyte in
    (data_read, record f { offset = (f.offset + length data_read) % 2 ^ 32 })

abbrev pub total : List Block → ℕ
total [] = 0
total (b ∷ bs) = b.size + total bs

abbrev pub is_negative : ℕ → Bool
is_negative n = leb (2 ^ 31) n

abbrev pub clamp : (offset size : ℕ) → ℕ
clamp offset size = if is_negative offset then 0 else if ltb size offset then size else offset

-- To the place `n`, brought into the file's bounds.
abbrev pub seek_to : (n size : ℕ) → File → ℕ × File
seek_to n size f = let place = clamp (n % 2 ^ 32) size in (place, record f { offset = place })

abbrev pub einval : ℕ
einval = 2 ^ 32 - 3

-- The result of `MemSeek`, and the file.
unfoldable pub mem_seek : (offset whence : ℕ) → File → ℕ × File
mem_seek offset whence f =
    let size = total f.blocks % 2 ^ 32 in
    if whence == seek_cur
    then seek_to (offset + f.offset) size f
    else if whence == seek_end
    then seek_to (offset + size) size f
    else if whence == seek_set
    then seek_to offset size f
    else (einval, f)
