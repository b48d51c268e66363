-- ===== src/FileSys/OnFloppy.antt =====
-- The floppy as the device of the file system.
use demoscene.Prelude.{
  ℕ, ◌≤◌, ◌<◌, ◌≡◌, refl, ap₂, ◌∙◌, false, Option, some, ◌>>=◌, arith, ltb, slice, gives,
  Gives-bind,
}
use demoscene.Floppy.Drive.{Drive, floppy_size, ntracks}
use demoscene.Floppy.Read.{floppy_read, floppy_seek}
use demoscene.Floppy.Mfm.{IsTrack}
use demoscene.Floppy.Image.{Ready, disk_byte, floppy_read-FloppyReads, moved-Ready}
use demoscene.FileSys.Disk.{Device, DevRead, Holds}

module _ (raw image : ℕ → ℕ → ℕ) (c : ℕ) where
  read_drive : ℕ → Drive → Option (DevRead Drive)
  read_drive n d = do
    r ← floppy_read raw n d
    some (record { copied = r.copied; result = r.result; device = r.drive })

  abbrev pub drive_device : Device Drive
  unfolding read_drive
  drive_device = record { read = read_drive; seek = floppy_seek }

  -- The drive stands before byte `p` of the disk.
  abbrev pub StandsAt : ℕ → Drive → Type 0
  StandsAt p d = Ready raw image c d × (d.pos ≡ p) × (p ≤ floppy_size)

  -- A drive with a well-formed disk is a device that holds the bytes of the disk.
  pub drive_device-Holds :
      ((u : ℕ) → u < ntracks → IsTrack (raw u) (image u) u)
      → Holds drive_device (disk_byte image) floppy_size StandsAt
  unfolding read_drive floppy_seek
  drive_device-Holds tracks = record {
    small = omega arith;
    read_ok = λ p n d (r, e, le) room.
        Gives-bind (floppy_read-FloppyReads raw image c n d (omega arith) tracks r (omega arith))
          λ q k. gives (
            k.data_read ∙ ap₂ (slice (disk_byte image)) e (omega arith),
            k.reported,
            (k.ready_again, k.advanced ∙ omega arith, room),
          );
    seek_ok = λ p q d (r, e, le) within.
        let inside : ltb floppy_size q ≡ false = ground arith in
        rw inside (moved-Ready raw image c q d r, refl, within);
  }
