-- ===== src/MemFiles/Seeking.antt =====
-- `MemSeek` moves within the bounds of the file.
use demoscene.Prelude.{ℕ, ◌+◌, ◌-◌, ◌<◌, ◌≤◌, ◌^◌, ◌≡◌, arith, ◌==◌, if◌then◌else◌, min}
use demoscene.MemFiles.{File, total, seek_cur, seek_end, mem_seek}

-- The place from which `whence` counts.
abbrev pub base : ℕ → File → ℕ
base whence f =
    if whence == seek_cur then f.offset else if whence == seek_end then total f.blocks else 0

module _ (k whence : ℕ) (f : File) (known : whence < 3) (fits : total f.blocks < 2 ^ 31) where
  -- `MemSeek` by `k` bytes forwards from where `whence` says goes there, or to the end of a shorter
  -- file, and returns the new offset, if the sum does not overflow an `int`.
  pub mem_seek_forwards :
      f.offset ≤ total f.blocks
      → base whence f + k < 2 ^ 31
      → let place = min (base whence f + k) (total f.blocks) in
        mem_seek k whence f ≡ (place, record f { offset = place })
  unfolding mem_seek
  mem_seek_forwards inside room = ground arith

  -- `MemSeek` by `k` bytes backwards, at most 2 ^ 31, from where `whence` says goes there, or to the
  -- start of the file, and returns the new offset.
  pub mem_seek_backwards :
      f.offset ≤ total f.blocks
      → 0 < k
      → k ≤ 2 ^ 31
      → let place = base whence f - k in
        mem_seek (2 ^ 32 - k) whence f ≡ (place, record f { offset = place })
  unfolding mem_seek
  mem_seek_backwards inside pos room = ground arith
