-- ===== src/Floppy/Blank.antt =====
-- A blank disk, for tests: its tracks have their sectors in order, each with four words and two sync
-- words behind it. The drive is as
-- `FloppyOpen` leaves it, at a place in the last track but one.
use demoscene.Prelude.{
  ℕ, zero, suc, ◌+◌, ◌-◌, ◌*◌, ◌/◌, ◌%◌, ◌^◌, ◌≤◌, ◌<◌, ◌≡◌, refl, sym, ap, ap₂, subst, ◌∙◌, inl,
  bit_and, Bool, true, false, not, List, [], ◌∷◌, arith, ◌==◌, ==_iff, if◌then◌else◌, all_below,
  all_below_sound, leb,
}
use demoscene.Floppy.Drive.{Drive, nsectors, dsk_sync, minus_one}
use demoscene.Floppy.Decode.{
  mfm_mask, decode_long, long_at, odd_at, even_at, sector_info, sector_words, before_info,
}
use demoscene.Floppy.Heads.{Positioned}
use demoscene.Floppy.Mfm.{
  IsSector, Follows, at_once, behind_gap, Layout, another, finished, is_one_of, IsTrack,
}
use demoscene.Floppy.Image.{Ready}

abbrev pub image : ℕ → ℕ → ℕ
image t i = 0

-- The information of sector `s` of track `t`: format 255, a gap behind it.
abbrev pub info : ℕ → ℕ → ℕ
info t s = (255 * 256 + t) * 2 ^ 16 + s * 256 + 1

abbrev pub raw : ℕ → ℕ → ℕ
raw t i =
    let s = i / 546 in
    let o = i % 546 in
    let odd = bit_and (info t s / 2) mfm_mask in
    let even = bit_and (info t s) mfm_mask in
    if o == 0
    then odd / 2 ^ 16
    else if o == 1
    then odd % 2 ^ 16
    else if o == 2
    then even / 2 ^ 16
    else if o == 3
    then even % 2 ^ 16
    else if leb 544 o
    then dsk_sync
    else 0

abbrev info_test : ℕ → ℕ → Bool
info_test t s = sector_info (raw t) (546 * s) == info t s

info_table : all_below 160 (λ t. all_below 11 (info_test t)) ≡ true
unfolding all_below decode_long
info_table = refl

info-raw : (t s : ℕ) → t < 160 → s < 11 → sector_info (raw t) (546 * s) ≡ info t s
info-raw t s ht hs = (==_iff _ _).0 (
    all_below_sound 11 (info_test t) s
      (all_below_sound 160 (λ (n : ℕ). all_below 11 (info_test n)) t info_table ht) hs)

blank : (t s k : ℕ) → 4 ≤ k → k < 544 → raw t (546 * s + k) ≡ 0
blank t s k lo hi = ground arith

blank_long : (t s k : ℕ) → 4 ≤ k → k + 1 < 544 → long_at (raw t) (546 * s + k) ≡ 0
blank_long t s k lo hi =
    ap₂ (λ x y. x * 2 ^ 16 + y) (blank t s k lo (omega arith))
      (ap (raw t) {x = 546 * s + k + 1} {y = 546 * s + (k + 1)} (omega arith)
        ∙ blank t s (k + 1) (omega arith) hi)

blank-IsSector : (t s : ℕ) → t < 160 → s < 11 → IsSector (raw t) t (image t) (546 * s) s 1
blank-IsSector t s ht hs =
    let e = info-raw t s ht hs in
    record {
      info_track = ap (λ x. x / 2 ^ 16 % 256) e ∙ omega arith;
      info_num = ap (λ x. x / 2 ^ 8 % 256) e ∙ omega arith;
      info_gap = ap (λ x. x % 256) e ∙ omega arith;
      num_range = hs;
      content = λ k lt. record {
        word = omega arith;
        odd_digits =
            ap (λ x. bit_and x mfm_mask)
              (ap (long_at (raw t)) {x = 546 * s + odd_at + 2 * k} {y = 546 * s + (28 + 2 * k)}
                  (omega arith)
                ∙ blank_long t s (28 + 2 * k) (omega arith) (omega arith));
        even_digits =
            ap (λ x. bit_and x mfm_mask)
              (ap (long_at (raw t)) {x = 546 * s + even_at + 2 * k} {y = 546 * s + (284 + 2 * k)}
                  (omega arith)
                ∙ blank_long t s (284 + 2 * k) (omega arith) (omega arith));
      };
    }

abbrev nums_from : ℕ → ℕ → List ℕ
nums_from s zero = []
nums_from s (suc n) = s ∷ nums_from (suc s) n

sync : (t s k : ℕ) → 544 ≤ k → k < 546 → (raw t (546 * s + k) == dsk_sync) ≡ true
sync t s k lo hi = ground arith

abbrev start_test : ℕ → ℕ → Bool
start_test t s = not (raw t (546 * s) == dsk_sync)

start_table : all_below 160 (λ t. all_below 11 (start_test t)) ≡ true
unfolding all_below
start_table = refl

no_sync : (t s : ℕ) → t < 160 → s < 11 → (raw t (546 * s) == dsk_sync) ≡ false
no_sync t s ht hs = ground (
  arith,
  all_below_sound 11 (start_test t) s
      (all_below_sound 160 (λ (n : ℕ). all_below 11 (start_test n)) t start_table ht) hs,
)

blank-Follows :
    (t s n : ℕ)
    → t < 160
    → s + suc (suc n) ≡ 11
    → Follows (raw t) t (image t) 1 (suc n) (546 * s) (546 * s + sector_words - before_info + 4 + 2)
blank-Follows t s n ht e =
    behind_gap 4 2 (omega arith)
      (λ i lt.
        ap (λ a. raw t a == dsk_sync) {x = 546 * s + sector_words - before_info + i}
          {y = 546 * s + (540 + i)} (omega arith)
        ∙ ap (λ x. x == dsk_sync) (blank t s (540 + i) (omega arith) (omega arith)))
      (λ i lt.
        ap (λ a. raw t a == dsk_sync) {x = 546 * s + sector_words - before_info + 4 + i}
          {y = 546 * s + (544 + i)} (omega arith)
        ∙ sync t s (544 + i) (omega arith) (omega arith))
      (omega arith)
      (ap (λ a. raw t a == dsk_sync) {x = 546 * s + sector_words - before_info + 4 + 2}
          {y = 546 * suc s} (omega arith)
        ∙ no_sync t (suc s) ht (omega arith))
      (omega arith)

blank-Layout :
    (t s n : ℕ) → t < 160 → s + n ≡ 11 → Layout (raw t) t (image t) n (546 * s) (nums_from s n)
blank-Layout t s zero ht e = finished
blank-Layout t s (suc zero) ht e =
    another (blank-IsSector t s ht (omega arith)) (at_once refl (omega arith)) finished
blank-Layout t s (suc (suc n)) ht e =
    another (blank-IsSector t s ht (omega arith)) (blank-Follows t s n ht e) (
      subst (λ a. Layout (raw t) t (image t) (suc n) a (nums_from (suc s) (suc n)))
        {x = 546 * suc s} (omega arith) (blank-Layout t (suc s) (suc n) ht (omega arith)))

complete_table : all_below 11 (λ s. is_one_of s (nums_from 0 11)) ≡ true
unfolding all_below
complete_table = refl

pub raw-IsTrack : (t : ℕ) → t < 160 → IsTrack (raw t) (image t) t
raw-IsTrack t ht =
    let unsynced : (raw t 0 == dsk_sync) ≡ false = no_sync t 0 ht (omega arith) in
    record {
      nums = nums_from 0 11;
      layout =
          subst (λ b. Layout (raw t) t (image t) nsectors (if b then 1 else 0) (nums_from 0 11))
            (sym unsynced) (blank-Layout t 0 11 ht (omega arith));
      complete =
          λ s lt. all_below_sound 11 (λ (n : ℕ). is_one_of n (nums_from 0 11)) s complete_table lt;
    }

-- The drive as `FloppyOpen` leaves it, at a place in the last but one track.
abbrev pub drive : Drive
drive = record {
  pos = 5632 * 158 + 5000;
  head_dir = 2;
  track_num = minus_one;
  prb = 0x75;
  trk_in_buf = minus_one;
  encoded = λ i. 0;
  decoded = λ i. 0;
  trace = [];
}

pub drive-Positioned : Positioned raw 0 drive
drive-Positioned = inl (
  refl,
  record {
    known = refl;
    in_range = omega arith;
    byte = omega arith;
    no_step = refl;
    place = refl;
    side = refl;
  },
)

pub drive-Ready : Ready raw image 0 drive
drive-Ready = record {
  positioned = drive-Positioned;
  cached = λ t i lt e lt'. absurd (omega (arith, lt, e));
}
