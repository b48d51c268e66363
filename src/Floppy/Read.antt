-- ===== src/Floppy/Read.antt =====
-- `FloppyRead` and `FloppySeek` of system/drivers/floppy.c.
use demoscene.Prelude.{
  ℕ, zero, suc, ◌+◌, ◌-◌, ◌/◌, ◌%◌, ◌^◌, true, false, ◌||◌, Option, none, some, ◌>>=◌, List, [],
  ◌++◌, ltb, leb, ◌==◌, if◌then◌else◌, min, slice,
}
use demoscene.Floppy.Drive.{Drive, track_size, ntracks, floppy_size, floppy_track_read}
use demoscene.Floppy.Decode.{floppy_track_decode}

-- A byte of the decoded track, whose long words have their highest byte first.
abbrev pub byte_at : (ℕ → ℕ) → ℕ → ℕ
byte_at decoded i = decoded (i / 4) / 256 ^ (3 - i % 4) % 256

-- The track is in the buffer behind this; `none` is the panic on a read error.
unfoldable pub load_track : (raw : ℕ → ℕ → ℕ) → (trknum : ℕ) → Drive → Option Drive
load_track raw trknum d = if trknum == d.trk_in_buf then some d else (do
  d1 ← floppy_track_read raw trknum d
  (ok, d2) ← floppy_track_decode trknum d1
  if ok then some (record d2 { trk_in_buf = trknum }) else none)

-- What a read comes to: the bytes that it copies, its result, and the drive.
pub record ReadResult : Type 0 where
  pub copied : List ℕ
  pub result : ℕ
  pub drive : Drive

-- The loop of `FloppyRead` with `left` bytes left; for `result` it gives the bytes left at its end.
-- Each round reads to the end of a track, so one round for each track is enough fuel.
unfoldable pub read_loop : (raw : ℕ → ℕ → ℕ) → (fuel left : ℕ) → Drive → Option ReadResult
read_loop raw zero left d = none
read_loop raw (suc fuel) left d = elim ((left == 0) || leb ntracks (d.pos / track_size)) [
  | true ↦ some (record { copied = []; result = left; drive = d })
  | false ↦ do
    d' ← load_track raw (d.pos / track_size) d
    let offset : ℕ = d.pos % track_size
    let size : ℕ = min left (track_size - offset)
    r ← read_loop raw fuel (left - size) (record d' { pos = d.pos + size })
    some (record r { copied = slice (byte_at d'.decoded) offset size ++ r.copied })
]

-- `none` is a failed `Assume`. As an `int` a length from 2 ^ 31 on is negative: the loop does not run,
-- and what is left is all of it.
unfoldable pub floppy_read : (raw : ℕ → ℕ → ℕ) → (nbyte : ℕ) → Drive → Option ReadResult
floppy_read raw nbyte d =
    if leb d.pos floppy_size
    then (if ltb nbyte (2 ^ 31)
        then (do
          r ← read_loop raw (ntracks + 1) (min nbyte (floppy_size - d.pos)) d
          some (record r { result = nbyte - r.result }))
        else some (record { copied = []; result = 0; drive = d }))
    else none

abbrev pub seek_set : ℕ
seek_set = 0

abbrev pub seek_cur : ℕ
seek_cur = 1

abbrev pub seek_end : ℕ
seek_end = 2

abbrev pub einval : ℕ
einval = 2 ^ 32 - 3

-- An `int` is negative if it is at least 2 ^ 31.
abbrev pub seek_to : (offset : ℕ) → Drive → ℕ × Drive
seek_to offset d =
    if ltb floppy_size offset then (einval, d) else (offset, record d { pos = offset })

unfoldable pub floppy_seek : (offset whence : ℕ) → Drive → ℕ × Drive
floppy_seek offset whence d =
    if whence == seek_cur
    then seek_to ((offset + d.pos) % 2 ^ 32) d
    else if whence == seek_end
    then seek_to ((floppy_size + offset) % 2 ^ 32) d
    else if whence == seek_set
    then seek_to offset d
    else (einval, d)
