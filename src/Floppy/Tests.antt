-- ===== src/Floppy/Tests.antt =====
-- The theorems on the floppy at a blank disk.
use demoscene.Prelude.{refl, arith, ◌==◌, Gives}
use demoscene.Floppy.Drive.{Drive, floppy_track_read}
use demoscene.Floppy.Decode.{floppy_track_decode}
use demoscene.Floppy.Read.{floppy_read}
use demoscene.Floppy.Heads.{TrackRead, floppy_track_read-TrackRead}
use demoscene.Floppy.Mfm.{TrackDecoded, floppy_track_decode-TrackDecoded}
use demoscene.Floppy.Image.{Ready, FloppyReads, floppy_read-FloppyReads}
use demoscene.Floppy.Blank.{image, raw, raw-IsTrack, drive, drive-Positioned, drive-Ready}
use demoscene.Floppy.Open.{floppy_open}
use demoscene.Floppy.Open.Homing.{floppy_open-Ready}
use demoscene.Floppy.Port.{cylinder}

floppy_track_read-TrackRead_example :
    Gives (TrackRead raw 0 157 drive) (floppy_track_read raw 157 drive)
floppy_track_read-TrackRead_example =
    floppy_track_read-TrackRead raw 0 157 drive (omega arith) drive-Positioned

abbrev with_track : Drive
with_track = record drive { encoded = raw 3 }

floppy_track_decode-TrackDecoded_example :
    Gives (TrackDecoded (image 3) with_track) (floppy_track_decode 3 with_track)
floppy_track_decode-TrackDecoded_example =
    floppy_track_decode-TrackDecoded (image 3) 3 with_track (raw-IsTrack 3 (omega arith))

-- 7000 bytes, where the disk has 6264 left.
floppy_read-FloppyReads_example :
    Gives (FloppyReads raw image 0 7000 drive) (floppy_read raw 7000 drive)
floppy_read-FloppyReads_example =
    floppy_read-FloppyReads raw image 0 7000 drive (omega arith) raw-IsTrack drive-Ready
      (omega arith)

floppy_open-Ready_example :
    Gives (Ready raw image 5) (floppy_open (λ trace. cylinder trace 5 == 0) 6 1)
floppy_open-Ready_example =
    floppy_open-Ready (λ trace. cylinder trace 5 == 0) 5 raw image 6 1 (λ trace. refl) (omega arith)
      (omega arith)
