-- ===== src/MemFiles/Tests.antt =====
-- A file of two blocks of 3 and 4 bytes, in a memory that holds its addresses.
use demoscene.Prelude.{ℕ, ◌≡◌, refl, [], ◌∷◌, arith}
use demoscene.MemFiles.{File, read_blocks, mem_read, mem_seek}
use demoscene.MemFiles.Reading.{Reads, mem_read-Reads}
use demoscene.MemFiles.Seeking.{mem_seek_forwards}

abbrev memory : ℕ → ℕ
memory a = a

abbrev file : File
file = record {
  blocks = record { addr = 10; size = 3 } ∷ record { addr = 20; size = 4 } ∷ [];
  offset = 1;
}

mem_read-file : (mem_read memory 4 file).0 ≡ 11 ∷ 12 ∷ 20 ∷ 21 ∷ []
unfolding mem_read read_blocks
mem_read-file = refl

mem_read-Reads_example : Reads memory 4 file (mem_read memory 4 file)
mem_read-Reads_example = mem_read-Reads memory 4 file (omega arith) (omega arith) (omega arith)

mem_seek_forwards_example : mem_seek 2 1 file ≡ (3, record file { offset = 3 })
mem_seek_forwards_example =
    mem_seek_forwards 2 1 file (omega arith) (omega arith) (omega arith) (omega arith)
