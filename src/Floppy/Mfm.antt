-- ===== src/Floppy/Mfm.antt =====
-- Decoding is the inverse of MFM encoding, for long words, sectors and whole tracks.
use Prim.Native.Nat.{max, bit_and-bitwise}
use demoscene.Prelude.{
  ℕ, zero, suc, ◌+◌, ◌-◌, ◌*◌, ◌/◌, ◌%◌, ◌^◌, ◌≤◌, ◌<◌, ◌≡◌, refl, ap, ap₂, ◌∙◌, inl, inr, bit_and,
  bit_or, Bool, true, false, ◌&&◌, ◌||◌, some, List, [], ◌∷◌, arith, ltb, leb, lt→ltb, ◌==◌,
  Bool-cases, if◌then◌else◌, Gives, gives, Gives-bind, Gives-mono, and_step, or_double, or_zero,
  and_zero,
}
use demoscene.Floppy.Drive.{Drive, nsectors, dsk_sync}
use demoscene.Floppy.Gaps.{skip_gap_lem, skip_sync_lem}
use demoscene.Floppy.Decode.{
  mfm_mask, decode_long, long_at, odd_at, even_at, sector_info, decode_sector, next_sector,
  find_sector_header, raw_words, before_info, sector_words, decode_sectors, floppy_track_decode,
}

-- A mask of `k` pairs of digits, the lower digit of each.
abbrev mask : ℕ → ℕ
mask zero = 0
mask (suc k) = 4 * mask k + 1

abbrev four_to : ℕ → ℕ
four_to zero = 1
four_to (suc k) = 4 * four_to k

and_pair : (a m : ℕ) → bit_and a (4 * m + 1) ≡ 4 * bit_and (a / 4) m + a % 2
and_pair a m =
    let half : bit_and (a / 2) ((4 * m + 1) / 2) ≡ bit_and (a / 2) (2 * m) =
      ap (bit_and (a / 2)) (omega arith) in
    let quarter : bit_and (a / 2 / 2) (2 * m / 2) ≡ bit_and (a / 4) m =
      ap₂ bit_and (omega arith) (omega arith) in
    omega (arith, and_step a (4 * m + 1), half, and_step (a / 2) (2 * m), quarter)

or_pair :
    (a b h l : ℕ)
    → h < 2
    → l < 2
    → bit_or (2 * (4 * a + h)) (4 * b + l) ≡ 4 * bit_or (2 * a) b + 2 * h + l
or_pair a b h l hh hl =
    ap₂ bit_or {y = 2 * (4 * a + h) + 0} {v = 2 * (2 * b) + l} (omega arith) (omega arith)
    ∙ or_double (4 * a + h) (2 * b) 0 l (omega arith) hl
    ∙ ap (λ x. 2 * x + max 0 l) {y = 2 * bit_or (2 * a) b + max h 0}
        (ap₂ bit_or {y = 2 * (2 * a) + h} {v = 2 * b + 0} (omega arith) (omega arith)
          ∙ or_double (2 * a) b h 0 hh (omega arith))
    ∙ omega arith

joined : (k x : ℕ) → x < four_to k → bit_or (2 * bit_and (x / 2) (mask k)) (bit_and x (mask k)) ≡ x
joined zero x lt =
    ap₂ bit_or {y = 0} {v = 0} (omega (arith, and_zero (x / 2))) (and_zero x)
    ∙ or_zero 0
    ∙ omega arith
joined (suc k) x lt =
    let high : bit_and (x / 2) (mask (suc k)) ≡ 4 * bit_and (x / 4 / 2) (mask k) + x / 2 % 2 =
      and_pair (x / 2) (mask k) ∙ ap (λ n. 4 * bit_and n (mask k) + x / 2 % 2) (omega arith) in
    ap₂ (λ p q. bit_or (2 * p) q) high (and_pair x (mask k))
    ∙ or_pair (bit_and (x / 4 / 2) (mask k)) (bit_and (x / 4) (mask k)) (x / 2 % 2) (x % 2)
        (omega arith) (omega arith)
    ∙ omega (arith, joined k (x / 4) (omega arith))

and_le_fuel : (n a b : ℕ) → a ≤ n → bit_and a b ≤ a
and_le_fuel zero zero b le = omega (arith, bit_and-bitwise 0 b)
and_le_fuel zero (suc a) b le = absurd (omega arith)
and_le_fuel (suc n) a b le =
    omega (arith, and_step a b, and_le_fuel n (a / 2) (b / 2) (omega arith))

-- The two long words of `x` on the disk: its odd and its even digits, between which stand any
-- clock digits.
pub record Encodes (x odd even : ℕ) : Type 0 where
  pub word : x < 2 ^ 32
  pub odd_digits : bit_and odd mfm_mask ≡ bit_and (x / 2) mfm_mask
  pub even_digits : bit_and even mfm_mask ≡ bit_and x mfm_mask

decode_long-Encodes : (x odd even : ℕ) → Encodes x odd even → decode_long odd even ≡ x
unfolding decode_long
decode_long-Encodes x odd even e =
    let small : bit_and (x / 2) mfm_mask * 2 < 2 ^ 32 =
      omega (arith, and_le_fuel (x / 2) (x / 2) mfm_mask (omega arith), e.word) in
    rw (e.odd_digits, e.even_digits)
      (ap (λ n. bit_or n (bit_and x mfm_mask)) {y = 2 * bit_and (x / 2) mfm_mask} (omega arith)
        ∙ joined 16 x (omega (arith, e.word)))

abbrev pub is_one_of : ℕ → List ℕ → Bool
is_one_of num [] = false
is_one_of num (m ∷ ms) = (num == m) || is_one_of num ms

module _ (encoded : ℕ → ℕ) (trknum : ℕ) (img : ℕ → ℕ) where
  -- The sector at `sector` is sector `num` of the track and encodes its 128 long words of `img`.
  pub record IsSector (sector num gap : ℕ) : Type 0 where
    pub info_track : sector_info encoded sector / 2 ^ 16 % 256 ≡ trknum
    pub info_num : sector_info encoded sector / 2 ^ 8 % 256 ≡ num
    pub info_gap : sector_info encoded sector % 256 ≡ gap
    pub num_range : num < nsectors
    pub content :
        (k : ℕ)
        → k < 128
        → Encodes
            (img (num * 128 + k))
            (long_at encoded (sector + odd_at + 2 * k))
            (long_at encoded (sector + even_at + 2 * k))

  -- The sector `next` is behind `sector`, the last but `n`. It stands at once behind it; or, if the
  -- sector says that a gap follows and is not the last, behind words that are no sync word and a
  -- number of sync words, up to the first other word.
  pub data Follows : (gap n sector next : ℕ) → Type 0 where
    at_once :
        {gap n sector : ℕ}
        → ((gap == 1) && ltb 0 n) ≡ false
        → sector + sector_words < raw_words + before_info
        → Follows gap n sector (sector + sector_words)
    behind_gap :
        {n sector : ℕ} (filler syncs : ℕ)
        → 0 < n
        → ((i : ℕ)
            → i < filler
            → (encoded (sector + sector_words - before_info + i) == dsk_sync) ≡ false)
        → ((i : ℕ)
            → i < syncs
            → (encoded (sector + sector_words - before_info + filler + i) == dsk_sync) ≡ true)
        → 0 < syncs
        → (encoded (sector + sector_words - before_info + filler + syncs) == dsk_sync) ≡ false
        → sector + sector_words - before_info + filler + syncs < raw_words
        → Follows 1 n sector (sector + sector_words - before_info + filler + syncs)

  -- From `sector` on there are `n` sectors, with these numbers.
  pub data Layout : ℕ → ℕ → List ℕ → Type 0 where
    finished : {sector : ℕ} → Layout zero sector []
    another :
        {n sector num gap next : ℕ} {nums : List ℕ}
        → IsSector sector num gap
        → Follows gap n sector next
        → Layout n next nums
        → Layout (suc n) sector (num ∷ nums)

  decode_sector-IsSector :
      (sector num gap i : ℕ) (decoded : ℕ → ℕ)
      → IsSector sector num gap
      → decode_sector encoded sector num decoded i ≡ (if i / 128 == num then img i else decoded i)
  unfolding decode_sector
  decode_sector-IsSector sector num gap i decoded s = elim (Bool-cases (i / 128 == num)) [
    | inl here ↦
        let at : num * 128 + (i - num * 128) ≡ i = ground arith in
        let within : (leb (num * 128) i && ltb i (num * 128 + 128)) ≡ true = ground arith in
        rw (here, within)
          (decode_long-Encodes _ _ _ (s.content (i - num * 128) (ground arith)) ∙ ap img at)
    | inr elsewhere ↦
        let outside : (leb (num * 128) i && ltb i (num * 128 + 128)) ≡ false = ground arith in
        rw (elsewhere, outside) refl
  ]

  Decoded : List ℕ → (ℕ → ℕ) → Bool × (ℕ → ℕ) → Type 0
  Decoded nums decoded r =
      (r.0 ≡ true) × ((i : ℕ) → r.1 i ≡ (if is_one_of (i / 128) nums then img i else decoded i))

  combine :
      (num i : ℕ) (nums : List ℕ) (a b c : ℕ)
      → c ≡ (if is_one_of i nums then a else (if i == num then a else b))
      → c ≡ (if (i == num) || is_one_of i nums then a else b)
  combine num i nums a b c h = ground arith

  next_sector-Follows :
      (gap n sector next : ℕ)
      → Follows gap n sector next
      → next_sector encoded gap n sector ≡ some next
  unfolding next_sector find_sector_header
  next_sector-Follows gap n sector _ (at_once e inside) = rw (e, lt→ltb _ _ inside) refl
  next_sector-Follows _ n sector _
        (behind_gap filler syncs more gap_words sync_words some_sync stop inside) =
      let b = sector + sector_words - before_info in
      rw
        (
          lt→ltb 0 n more,
          skip_gap_lem encoded (raw_words - b) filler b (omega arith) gap_words
              (ap (λ a. encoded a == dsk_sync) (omega arith) ∙ sync_words 0 some_sync),
          skip_sync_lem encoded (raw_words - (b + filler)) syncs (b + filler) (omega arith)
              sync_words stop,
          lt→ltb (b + filler + syncs) (raw_words + before_info) (omega arith),
        )
        refl

  decode_step :
      (n sector num gap next : ℕ) (decoded : ℕ → ℕ)
      → IsSector sector num gap
      → Follows gap n sector next
      → decode_sectors encoded trknum (suc n) sector decoded
        ≡ decode_sectors encoded trknum n next (decode_sector encoded sector num decoded)
  unfolding decode_sectors
  decode_step n sector num gap next decoded s f =
      let e = next_sector-Follows gap n sector next f in
      let on_track : (sector_info encoded sector / 2 ^ 16 % 256 == trknum) ≡ true =
        ground (arith, s.info_track) in
      let in_range : ltb num nsectors ≡ true = ground (arith, s.num_range) in
      rw (decode_sectors, on_track, s.info_num, in_range, s.info_gap, e)
        (ap (λ m. decode_sectors encoded trknum n next (decode_sector encoded sector m decoded))
          s.info_num)

  decode_sectors-Layout :
      {n sector : ℕ} {nums : List ℕ} (decoded : ℕ → ℕ)
      → Layout n sector nums
      → Gives (Decoded nums decoded) (decode_sectors encoded trknum n sector decoded)
  unfolding decode_sectors Decoded
  decode_sectors-Layout decoded finished = gives (refl, λ i. refl)
  decode_sectors-Layout decoded (another {num = num} {nums = nums} s e l) =
      rw (decode_step _ _ _ _ _ decoded s e) (
        Gives-mono (decode_sectors-Layout (decode_sector encoded _ _ decoded) l) λ r (ok, h). (
          ok,
          λ i. combine num (i / 128) nums (img i) (decoded i) _ (
              h i
              ∙ ap (λ x. if is_one_of (i / 128) nums then img i else x)
                  (decode_sector-IsSector _ _ _ i decoded s)),
        ))

-- A well-formed track: the eleven sectors in some order, from the first word on or behind one sync
-- word.
pub record IsTrack (raw img : ℕ → ℕ) (t : ℕ) : Type 0 where
  pub nums : List ℕ
  pub layout : Layout raw t img nsectors (if raw 0 == dsk_sync then 1 else 0) nums
  pub complete : (s : ℕ) → s < nsectors → is_one_of s nums ≡ true

-- What decoding track `t` comes to.
pub record TrackDecoded (img : ℕ → ℕ) (d : Drive) (r : Bool × Drive) : Type 0 where
  pub fine : r.0 ≡ true
  pub content_of : (i : ℕ) → i < nsectors * 128 → r.1.decoded i ≡ img i
  pub others : r.1 ≡ record d { decoded = r.1.decoded }

-- `FloppyTrackDecode` of a well-formed track, whatever the order of its sectors, the gap between them
-- and the clock digits, succeeds, and the decoded track is what was encoded.
pub floppy_track_decode-TrackDecoded :
    (img : ℕ → ℕ) (t : ℕ) (d : Drive)
    → IsTrack d.encoded img t
    → Gives (TrackDecoded img d) (floppy_track_decode t d)
unfolding floppy_track_decode Decoded
floppy_track_decode-TrackDecoded img t d k =
    Gives-bind (decode_sectors-Layout d.encoded t img d.decoded k.layout) λ (ok, dec) (fine, h).
      gives (record {
        fine = fine;
        content_of = λ i lt. h i ∙ rw (k.complete (i / 128) (omega arith)) refl;
        others = refl;
      })
