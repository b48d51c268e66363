-- ===== src/FileSys/Tests.antt =====
-- A directory of two files, a device that is its own position, and the blank floppy.
use demoscene.Prelude.{◌^◌, ◌-◌}
use demoscene.Prelude.{
  ℕ, ◌+◌, ◌%◌, ◌≡◌, refl, ap, some, List, [], ◌∷◌, arith, ltb, ◌==◌, if◌then◌else◌, get_or, slice,
  Gives, gives,
}
use demoscene.FileSys.{File, fs_read, fs_seek, init_file_sys, open_file}
use demoscene.FileSys.Disk.{Device, Holds}
use demoscene.FileSys.Directory.{Entry, Entries, only, then_more, open_file-find_entry}
use demoscene.FileSys.Reading.{
  IsOpen, FsReads, fs_read-FsReads, init_file_sys_lem, Sought, fs_seek-Sought,
}
use demoscene.FileSys.OnFloppy.{drive_device, StandsAt, drive_device-Holds}
use demoscene.Floppy.Drive.{floppy_size}
use demoscene.Floppy.Image.{disk_byte}
use demoscene.Floppy.Blank.{raw, image, raw-IsTrack}

-- Files `a`, of 3 bytes in sector 9, and `b`, of 700 bytes in sector 10.
abbrev dir_bytes : List ℕ
dir_bytes =
    14 ∷ 0 ∷ 0 ∷ 9 ∷ 0 ∷ 0 ∷ 0 ∷ 3 ∷ 0 ∷ 0 ∷ 0 ∷ 0 ∷ b'a' ∷ 0 ∷ 14 ∷ 0 ∷ 0 ∷ 10 ∷ 0 ∷ 0 ∷ 2 ∷ 188
    ∷ 0 ∷ 0 ∷ 0 ∷ 0 ∷ b'b' ∷ 0 ∷ []

abbrev dir : ℕ → ℕ
dir i = get_or dir_bytes i 0

abbrev entries : List Entry
entries =
    record { name = b'a' ∷ []; start = 9; size = 3 }
    ∷ record { name = b'b' ∷ []; start = 10; size = 700 }
    ∷ []

dir-Entries : Entries dir 0 entries
dir-Entries =
    then_more
      (record {
        named = (refl, refl);
        is_name = ((λ e. absurd (omega (arith, e))), tt);
        start_is = refl;
        size_is = refl;
      })
      (λ e. absurd (omega (arith, e)))
      (only
        (record {
          named = (refl, refl);
          is_name = ((λ e. absurd (omega (arith, e))), tt);
          start_is = refl;
          size_is = refl;
        })
        refl)

open_file-find_entry_example :
    open_file (b'b' ∷ []) dir
    ≡ some (some (record { pos = 0; flags = 0; start = 6144; size = 700 }))
open_file-find_entry_example =
    open_file-find_entry dir (b'b' ∷ []) ((λ e. absurd (omega (arith, e))), tt) dir-Entries
      (omega arith)

-- Byte `p` of the device is `p % 251`, but for the length of the directory.
abbrev disk : ℕ → ℕ
disk p = if p == 1024 then 0 else if p == 1025 then 28 else p % 251

abbrev dev : Device ℕ
dev = record {
  read = λ n p. some (record { copied = slice disk p n; result = n; device = p + n });
  seek = λ offset whence p. (offset, offset);
}

abbrev IsAt : ℕ → ℕ → Type 0
IsAt p d = d ≡ p

dev-Holds : Holds dev disk 100000 IsAt
dev-Holds = record {
  small = omega arith;
  read_ok = λ p n d e le. gives (ap (λ q. slice disk q n) e, refl, ap (λ q. q + n) e);
  seek_ok = λ p q d e le. refl;
}

abbrev file : File
file = record { pos = 690; flags = 0; start = 6144; size = 700 }

file-IsOpen : IsOpen 100000 file
file-IsOpen = record { within = omega arith; on_disk = omega arith; no_error = refl }

fs_read-FsReads_example :
    Gives (FsReads dev disk 100000 IsAt dev-Holds 64 file) (fs_read dev 64 file 7)
fs_read-FsReads_example =
    fs_read-FsReads dev disk 100000 IsAt dev-Holds 64 7 file 7 file-IsOpen refl

init_file_sys_lem_example :
    Gives
      (λ r. ((i : ℕ) → r.0 i ≡ (if ltb i 28 then disk (1026 + i) else 0)) × (r.1 ≡ 1054))
      (init_file_sys dev 7)
init_file_sys_lem_example =
    init_file_sys_lem dev disk 100000 IsAt dev-Holds 7 28 7 refl refl (omega arith)

-- 90 bytes back from the position.
fs_seek-Sought_example : Sought (2 ^ 32 - 90) 1 file (fs_seek (2 ^ 32 - 90) 1 file)
fs_seek-Sought_example =
    fs_seek-Sought (2 ^ 32 - 90) 1 file (omega arith) (omega arith) (omega arith)

drive_device-Holds_example :
    Holds (drive_device raw image 0) (disk_byte image) floppy_size (StandsAt raw image 0)
drive_device-Holds_example = drive_device-Holds raw image 0 raw-IsTrack
