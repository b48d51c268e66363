-- ===== src/Floppy/Drive.antt =====
-- The drive and its heads: system/drivers/floppy.c up to `FloppyTrackRead`, and the sizes of
-- include/system/floppy.h.
use demoscene.Prelude.{
  ℕ, zero, suc, ◌+◌, ◌-◌, ◌*◌, ◌/◌, ◌%◌, ◌^◌, bit_and, bit_or, bit_xor, Bool, true, false, Option,
  none, some, ◌>>=◌, List, ◌∷◌, ltb, ◌==◌, if◌then◌else◌, has_bits, short_key,
}

abbrev pub sector_size : ℕ
sector_size = 512

abbrev pub nsectors : ℕ
nsectors = 11

abbrev pub ntracks : ℕ
ntracks = 160

abbrev pub track_size : ℕ
track_size = nsectors * sector_size

abbrev pub floppy_size : ℕ
floppy_size = sector_size * nsectors * ntracks

abbrev pub dsk_sync : ℕ
dsk_sync = 0x4489

abbrev pub dsk_step : ℕ
dsk_step = 1

abbrev pub dsk_direc : ℕ
dsk_direc = 2

abbrev pub dsk_side : ℕ
dsk_side = 4

abbrev pub dsk_desel : ℕ
dsk_desel = 0x78

abbrev pub dsk_motor : ℕ
dsk_motor = 0x80

pub data Effect : Type 0 where
  port : ℕ → Effect
  sleep : ℕ → Effect

pub record Drive : Type 0 where
  pub pos : ℕ
  pub head_dir : ℕ
  pub track_num : ℕ
  pub prb : ℕ
  pub trk_in_buf : ℕ
  pub encoded : ℕ → ℕ
  pub decoded : ℕ → ℕ
  pub trace : List Effect

abbrev pub timer_ms : ℕ → ℕ
timer_ms ms = ms * 709379 / 1000

abbrev pub clear_byte : ℕ → ℕ → ℕ
clear_byte x mask = bit_and x (255 - mask)

abbrev pub minus_one : ℕ
minus_one = 2 ^ 16 - 1

unfoldable pub step_heads : Drive → Drive
step_heads d = record d {
  track_num = (d.track_num + d.head_dir) % 2 ^ 16;
  trace =
      sleep (timer_ms 3)
      ∷ port d.prb
      ∷ port (clear_byte d.prb dsk_step)
      ∷ port (bit_or d.prb dsk_desel)
      ∷ d.trace;
}

unfoldable pub update_port : ℕ → Drive → Drive
update_port prb d = record d { prb = prb; trace = port prb ∷ port (bit_or prb dsk_desel) ∷ d.trace }

unfoldable pub heads_step_direction : (inwards : Bool) → Drive → Drive
heads_step_direction inwards d =
    let d' =
      if inwards
      then record (update_port (clear_byte d.prb dsk_direc) d) { head_dir = 2 }
      else record (update_port (bit_or d.prb dsk_direc) d) { head_dir = 2 ^ 16 - 2 } in
    record d' { trace = sleep (timer_ms 18) ∷ d'.trace }

unfoldable pub change_disk_side : (upper : Bool) → Drive → Drive
change_disk_side upper d =
    if upper
    then record (update_port (clear_byte d.prb dsk_side) d) {
      track_num = (d.track_num + 1) % 2 ^ 16;
    }
    else record (update_port (bit_or d.prb dsk_side) d) {
      track_num = (d.track_num + minus_one) % 2 ^ 16;
    }

-- `while (trknum != f->trackNum) StepHeads(f);`, `none` when the fuel runs out.
unfoldable pub seek_heads : (fuel trknum : ℕ) → Drive → Option Drive
seek_heads zero trknum d = none
seek_heads (suc fuel) trknum d = elim (trknum == d.track_num) [
  | true ↦ some d
  | false ↦ seek_heads fuel trknum (step_heads d)
]

-- The heads come to an even distance within 2 ^ 15 steps.
abbrev pub all_steps : ℕ
all_steps = 2 ^ 15

-- The part of `FloppyTrackRead` that moves the heads, from a known track.
unfoldable pub move_heads : (trknum : ℕ) → Drive → Option Drive
move_heads trknum d =
    let sided =
      if has_bits (bit_xor trknum d.track_num) 1
      then change_disk_side (has_bits trknum 1) d
      else d in
    if trknum == sided.track_num
    then some sided
    else seek_heads all_steps trknum
        (heads_step_direction (ltb (short_key sided.track_num) (short_key trknum)) sided)

-- `FloppyTrackRead`; the track's data arrives by DMA.
unfoldable pub floppy_track_read : (raw : ℕ → ℕ → ℕ) → (trknum : ℕ) → Drive → Option Drive
floppy_track_read raw trknum d = if d.track_num == trknum then some d else (do
  d' ← move_heads trknum (if d.track_num == minus_one then record d { track_num = 0 } else d)
  some (record d' { encoded = raw trknum; trace = sleep (timer_ms 15) ∷ d'.trace }))
