-- ===== src/Floppy/Decode.antt =====
-- MFM decoding: `FloppyTrackDecode` of system/drivers/floppy.c and its helpers.
use demoscene.Prelude.{
  ℕ, zero, suc, ◌+◌, ◌-◌, ◌*◌, ◌/◌, ◌%◌, ◌^◌, bit_and, bit_or, Bool, true, false, ◌&&◌, Option,
  none, some, ◌>>=◌, ltb, leb, ◌==◌, if◌then◌else◌,
}
use demoscene.Floppy.Drive.{Drive, dsk_sync, nsectors}

abbrev pub mfm_mask : ℕ
mfm_mask = 0x55555555

unfoldable pub decode_long : (odd even : ℕ) → ℕ
decode_long odd even = bit_or (bit_and odd mfm_mask * 2 % 2 ^ 32) (bit_and even mfm_mask)

-- A long word of the encoded track, at a number of 16-bit words from its start.
abbrev pub long_at : (ℕ → ℕ) → ℕ → ℕ
long_at encoded i = encoded i * 2 ^ 16 + encoded (i + 1)

-- A sector is known by the place of its `info`, in 16-bit words. Behind it stand the two halves of
-- its data, before it `magic` and `sync`, and the next sector is `sector_words` further.
abbrev pub before_info : ℕ
before_info = 4

abbrev pub odd_at : ℕ
odd_at = 28

abbrev pub even_at : ℕ
even_at = 284

abbrev pub sector_words : ℕ
sector_words = 544

abbrev pub sector_info : (ℕ → ℕ) → ℕ → ℕ
sector_info encoded sector = decode_long (long_at encoded sector) (long_at encoded (sector + 2))

-- The copy loop of a sector: 128 long words from the two halves of `data`.
unfoldable pub decode_sector : (encoded : ℕ → ℕ) (sector sector_num : ℕ) → (ℕ → ℕ) → ℕ → ℕ
decode_sector encoded sector sector_num decoded i =
    let k = i - sector_num * 128 in
    if leb (sector_num * 128) i && ltb i (sector_num * 128 + 128)
    then decode_long (long_at encoded (sector + odd_at + 2 * k))
        (long_at encoded (sector + even_at + 2 * k))
    else decoded i

-- The two loops of `FindSectorHeader`: to the first sync word, and past all that follow. The fuel
-- is the number of words left in the buffer, and `none` is a walk out of it.
unfoldable pub skip_gap : (fuel : ℕ) (encoded : ℕ → ℕ) (i : ℕ) → Option ℕ
skip_gap zero encoded i = none
skip_gap (suc fuel) encoded i = elim (encoded i == dsk_sync) [
  | true ↦ some i
  | false ↦ skip_gap fuel encoded (i + 1)
]

unfoldable pub skip_sync : (fuel : ℕ) (encoded : ℕ → ℕ) (i : ℕ) → Option ℕ
skip_sync zero encoded i = none
skip_sync (suc fuel) encoded i = elim (encoded i == dsk_sync) [
  | true ↦ skip_sync fuel encoded (i + 1)
  | false ↦ some i
]

abbrev pub raw_words : ℕ
raw_words = 6400

unfoldable pub find_sector_header : (encoded : ℕ → ℕ) (i : ℕ) → Option ℕ
find_sector_header encoded i = do
  j ← skip_gap (raw_words - i) encoded i
  skip_sync (raw_words - j) encoded j

-- Where the next sector is, behind the sector `sector`, the last but `n`; `none` is also the `Assert`
-- that it starts in the buffer.
unfoldable pub next_sector : (encoded : ℕ → ℕ) (gap n sector : ℕ) → Option ℕ
next_sector encoded gap n sector = do
  next ←
      if (gap == 1) && ltb 0 n
      then find_sector_header encoded (sector + sector_words - before_info)
      else some (sector + sector_words)
  if ltb next (raw_words + before_info) then some next else none

-- The loop of `FloppyTrackDecode` with `n` sectors left. `none` is a walk out of the buffer or a
-- sector number out of range; the result says whether each sector was of the track.
unfoldable pub decode_sectors :
    (encoded : ℕ → ℕ) (trknum : ℕ) → (n sector : ℕ) → (ℕ → ℕ) → Option (Bool × (ℕ → ℕ))
decode_sectors encoded trknum zero sector decoded = some (true, decoded)
decode_sectors encoded trknum (suc n) sector decoded =
    let info = sector_info encoded sector in
    let track = info / 2 ^ 16 % 256 in
    let num = info / 2 ^ 8 % 256 in
    let gap = info % 256 in
    let decoded' = decode_sector encoded sector num decoded in
    elim (track == trknum) [
      | false ↦ some (false, decoded)
      | true ↦ elim (ltb num nsectors) [
        | false ↦ none
        | true ↦ do
          next ← next_sector encoded gap n sector
          decode_sectors encoded trknum n next decoded'
      ]
    ]

-- The first sync word is skipped, if it is there.
unfoldable pub floppy_track_decode : (trknum : ℕ) → Drive → Option (Bool × Drive)
floppy_track_decode trknum d = do
  let first : ℕ = if d.encoded 0 == dsk_sync then 1 else 0
  (ok, decoded) ← decode_sectors d.encoded trknum nsectors first d.decoded
  some (ok, record d { decoded = decoded })
