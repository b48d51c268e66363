-- ===== src/Floppy/Open.antt =====
-- `FloppyOpen`, the motor, and `FloppyClose` of system/drivers/floppy.c, as far as they drive the port.
-- `sensor` says of a trace whether CIA-A reads that the heads are at cylinder 0 after it.
pub mod Homing
use demoscene.Prelude.{
  ℕ, zero, suc, ◌+◌, ◌-◌, ◌^◌, bit_and, bit_or, Bool, true, false, not, Option, none, some, ◌>>=◌,
  List, [], ◌∷◌,
}
use demoscene.Floppy.Drive.{
  Effect, port, sleep, Drive, dsk_step, dsk_desel, dsk_motor, clear_byte, minus_one, step_heads,
  heads_step_direction, change_disk_side,
}

-- The wait for the drive to be ready is not recorded.
unfoldable pub floppy_motor_on : Drive → Drive
floppy_motor_on d = record d {
  prb = clear_byte d.prb dsk_motor;
  trace = port d.prb ∷ port (clear_byte d.prb dsk_motor) ∷ port (bit_or d.prb dsk_desel) ∷ d.trace;
}

unfoldable pub floppy_motor_off : Drive → Drive
floppy_motor_off d = record d {
  prb = bit_or d.prb dsk_motor;
  trace = port d.prb ∷ port (bit_or d.prb dsk_motor) ∷ port (bit_or d.prb dsk_desel) ∷ d.trace;
}

-- `while (!HeadsAtTrack0()) StepHeads(f);`, `none` when the fuel runs out.
unfoldable pub home_heads : (sensor : List Effect → Bool) (fuel : ℕ) → Drive → Option Drive
home_heads sensor zero d = none
home_heads sensor (suc fuel) d = elim (sensor d.trace) [
  | true ↦ some d
  | false ↦ home_heads sensor fuel (step_heads d)
]

-- The port value that selects drive `num`.
abbrev pub select : ℕ → ℕ
select num = clear_byte (bit_or (bit_or dsk_motor dsk_step) dsk_desel) (2 ^ (3 + num))

-- The file that the first call allocates, with the first write to the port.
unfoldable pub new_drive : (num : ℕ) → Drive
new_drive num = record {
  pos = 0;
  head_dir = 0;
  track_num = 0;
  prb = select num;
  trk_in_buf = 0;
  encoded = λ i. 0;
  decoded = λ i. 0;
  trace = port (select num) ∷ [];
}

unfoldable pub floppy_open : (sensor : List Effect → Bool) (fuel num : ℕ) → Option Drive
floppy_open sensor fuel num = do
  d ← home_heads sensor fuel (heads_step_direction false (floppy_motor_on (new_drive num)))
  some (record (change_disk_side false (heads_step_direction true d)) {
    track_num = minus_one;
    trk_in_buf = minus_one;
  })
