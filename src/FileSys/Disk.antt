-- ===== src/FileSys/Disk.antt =====
-- What a file system asks of its device: `FileRead` and `FileSeek` of system/kernel/file.c.
use demoscene.Prelude.{ℕ, ◌+◌, ◌≤◌, ◌<◌, ◌^◌, ◌≡◌, Option, List, slice, Gives}

pub record DevRead (D : Type 0) : Type 0 where
  pub copied : List ℕ
  pub result : ℕ
  pub device : D

pub record Device (D : Type 0) : Type 0 where
  pub read : ℕ → D → Option (DevRead D)
  pub seek : (offset whence : ℕ) → D → ℕ × D

-- The device holds `size` bytes, and `at p d` says that the state `d` is fine and stands before byte `p`.
pub record Holds {D : Type 0} (dev : Device D) (disk : ℕ → ℕ) (size : ℕ) (at : ℕ → D → Type 0)
    : Type 0 where
  pub small : size < 2 ^ 31
  pub read_ok :
      (p n : ℕ) (d : D)
      → at p d
      → p + n ≤ size
      → Gives
          (λ r. (r.copied ≡ slice disk p n) × (r.result ≡ n) × at (p + n) r.device)
          (dev.read n d)
  pub seek_ok : (p q : ℕ) (d : D) → at p d → q ≤ size → at q (dev.seek q 0 d).1
