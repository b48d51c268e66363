-- ===== src/FileSys.antt =====
-- The read-only file system: system/drivers/filesys.c, over any device that reads and seeks.
-- The root directory in memory is a function to bytes, and its entries are places in it; an `int` is a
-- bit pattern of 32 bits. `none` is a crash.
pub mod Disk
pub mod Directory
pub mod Reading
pub mod OnFloppy
mod Tests
use demoscene.Prelude.{
  ℕ, zero, suc, ◌+◌, ◌-◌, ◌*◌, ◌%◌, ◌^◌, bit_and, Bool, true, false, ◌&&◌, ◌||◌, not, Option, none,
  some, ◌>>=◌, List, [], ◌∷◌, ltb, leb, ◌==◌, if◌then◌else◌, has_bits, min, get_or,
}
use demoscene.FileSys.Disk.{Device, DevRead}

abbrev pub iof_eof : ℕ
iof_eof = 2

abbrev pub iof_err : ℕ
iof_err = 0x8000

abbrev pub eio : ℕ
eio = 2 ^ 32 - 5

abbrev pub sector_size : ℕ
sector_size = 512

abbrev pub u16_at : (ℕ → ℕ) → ℕ → ℕ
u16_at dir a = dir a * 256 + dir (a + 1)

abbrev pub u32_at : (ℕ → ℕ) → ℕ → ℕ
u32_at dir a = u16_at dir a * 2 ^ 16 + u16_at dir (a + 2)

-- The fields of the entry at a place.
abbrev pub reclen : (ℕ → ℕ) → ℕ → ℕ
reclen dir fe = dir fe

abbrev pub start_of : (ℕ → ℕ) → ℕ → ℕ
start_of dir fe = u16_at dir (fe + 2)

abbrev pub size_of : (ℕ → ℕ) → ℕ → ℕ
size_of dir fe = u32_at dir (fe + 4)

abbrev pub cksum_of : (ℕ → ℕ) → ℕ → ℕ
cksum_of dir fe = u32_at dir (fe + 8)

abbrev pub name_of : ℕ → ℕ
name_of fe = fe + 12

-- `strcmp(path, …) == 0`, for a path with no zero byte.
abbrev pub same_name : (path : List ℕ) → (ℕ → ℕ) → ℕ → Bool
same_name [] dir a = dir a == 0
same_name (c ∷ cs) dir a = let rest = same_name cs dir (a + 1) in (dir a == c) && rest

-- The loop of `LookupFile` from an entry on. The outer `none` is a directory with more entries than fuel.
unfoldable pub lookup_from : (fuel : ℕ) (path : List ℕ) (dir : ℕ → ℕ) → ℕ → Option (Option ℕ)
lookup_from zero path dir fe = none
lookup_from (suc fuel) path dir fe = elim (same_name path dir (name_of fe)) [
  | true ↦ some (some fe)
  | false ↦ elim (reclen dir (fe + reclen dir fe) == 0) [
    | true ↦ some none
    | false ↦ lookup_from fuel path dir (fe + reclen dir fe)
  ]
]

-- A directory is shorter than 2 ^ 16 bytes.
abbrev pub max_entries : ℕ
max_entries = 2 ^ 16

abbrev pub lookup_file : (path : List ℕ) (dir : ℕ → ℕ) → Option (Option ℕ)
lookup_file path dir = lookup_from max_entries path dir 0

pub record File : Type 0 where
  pub pos : ℕ
  pub flags : ℕ
  pub start : ℕ
  pub size : ℕ

abbrev pub new_file : (ℕ → ℕ) → ℕ → File
new_file dir fe = record {
  pos = 0;
  flags = 0;
  start = (start_of dir fe + 2) * sector_size;
  size = size_of dir fe;
}

-- The inner `none` is the result NULL.
unfoldable pub open_file : (path : List ℕ) (dir : ℕ → ℕ) → Option (Option File)
open_file path dir = do
  found ← lookup_file path dir
  some (elim found [ none ↦ none | some fe ↦ some (new_file dir fe) ])

abbrev pub seek_set : ℕ
seek_set = 0

abbrev pub seek_cur : ℕ
seek_cur = 1

abbrev pub seek_end : ℕ
seek_end = 2

abbrev pub einval : ℕ
einval = 2 ^ 32 - 3

abbrev pub is_negative : ℕ → Bool
is_negative n = leb (2 ^ 31) n

abbrev pub seek_to : (offset : ℕ) → File → ℕ × File
seek_to offset f =
    if is_negative offset || ltb f.size offset
    then (einval, f)
    else (offset, record f { pos = offset })

-- `FsSeek`: its result, and the file.
unfoldable pub fs_seek : (offset whence : ℕ) → File → ℕ × File
fs_seek offset whence f0 =
    let f = record f0 { flags = bit_and f0.flags (2 ^ 16 - 1 - iof_eof) } in
    if has_bits f0.flags iof_err
    then (eio, f0)
    else if whence == seek_cur
    then seek_to ((offset + f.pos) % 2 ^ 32) f
    else if whence == seek_end
    then seek_to ((f.size + 2 ^ 32 - offset) % 2 ^ 32) f
    else if whence == seek_set
    then seek_to offset f
    else (einval, f)

-- A negative result of the device.
abbrev pub failed : ℕ → Bool
failed = is_negative

pub record FsResult (D : Type 0) : Type 0 where
  pub copied : List ℕ
  pub result : ℕ
  pub file : File
  pub device : D

module _ {D : Type 0} (dev : Device D) where
  -- `FsRead`: what it copies, its result, and the file and the device.
  unfoldable pub fs_read : (nbyte : ℕ) → File → D → Option (FsResult D)
  fs_read nbyte f d =
      if has_bits f.flags iof_err
      then some (record { copied = []; result = eio; file = f; device = d })
      else (do
        r ←
            dev.read (min nbyte ((f.size + 2 ^ 32 - f.pos) % 2 ^ 32))
              (dev.seek ((f.pos + f.start) % 2 ^ 32) seek_set d).1
        some (record {
          copied = r.copied;
          result = r.result;
          file = if failed r.result then f else record f { pos = (f.pos + r.result) % 2 ^ 32 };
          device = r.device;
        }))

  -- `InitFileSys`: the root directory, followed by zeros. What a short read leaves unset is zero too.
  unfoldable pub init_file_sys : D → Option ((ℕ → ℕ) × D)
  init_file_sys d = do
    r ← dev.read 2 (dev.seek (sector_size * 2) seek_set d).1
    let len : ℕ = get_or r.copied 0 0 * 256 + get_or r.copied 1 0
    q ← dev.read len r.device
    some ((λ i. get_or q.copied i 0), q.device)

  -- `ChecksumFile`; `none` is the panic on a file that is missing or corrupted. `crc32` is the library's.
  unfoldable pub checksum_file :
      (crc32 : List ℕ → ℕ) → (path : List ℕ) (size cksum : ℕ) (dir : ℕ → ℕ) → D → Option D
  checksum_file crc32 path size cksum dir d = do
    opened ← open_file path dir
    f ← opened
    r ← fs_read size f d
    if crc32 r.copied == cksum then some r.device else none
