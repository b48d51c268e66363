-- ===== src/Areas/Cuts.antt =====
-- Cutting one axis of an area at the borders of a box.
use demoscene.Prelude.{
  ℕ, ◌+◌, ◌-◌, ◌%◌, ◌^◌, ◌≤◌, ◌<◌, ◌≡◌, refl, sym, ap, ap₂, ◌∙◌, Bool, true, false, ◌&&◌, ltb, leb,
  short_key, arith, inl, inr, Bool-cases,
}
use demoscene.Areas.{short_le, covers, Side, misses, cut_low, cut_high, cut}

-- A stretch of at least one pixel that ends within the range of a `short`.
pub record Fits (place size : ℕ) : Type 0 where
  pub pattern : place < 2 ^ 16
  pub not_empty : 1 ≤ size
  pub is_short : size < 2 ^ 15
  pub ends : short_key place + size ≤ 2 ^ 16

-- The patterns of two `short`s in order.
pub record Range (low high : ℕ) : Type 0 where
  pub low_pattern : low < 2 ^ 16
  pub high_pattern : high < 2 ^ 16
  pub in_order : short_key low ≤ short_key high

covers_lem :
    (place size p : ℕ)
    → Fits place size
    → covers place size p
      ≡ (leb (short_key place) (short_key p) && ltb (short_key p) (short_key place + size))
unfolding covers
covers_lem place size p f =
    let last : short_key ((place + size + 2 ^ 16 - 1) % 2 ^ 16) ≡ short_key place + size - 1 =
      omega (arith, f.pattern, f.not_empty, f.is_short, f.ends) in
    rw last (ap (λ b. leb (short_key place) (short_key p) && b) (ground (arith, f.not_empty)))

-- The stretch after a cut at its low end, and at its high end.
record CutLow (low : ℕ) (s r : Side) : Type 0 where
  fits : Fits r.place r.size
  from : (p : ℕ) → leb (short_key r.place) p ≡ (leb (short_key s.place) p && leb (short_key low) p)
  same_end : short_key r.place + r.size ≡ short_key s.place + s.size
  same_source : (r.start + s.place) % 2 ^ 16 ≡ (s.start + r.place) % 2 ^ 16
  not_past : (high : ℕ) → short_key s.place ≤ high → short_key low ≤ high → short_key r.place ≤ high

cut_low-CutLow :
    (low : ℕ) (s : Side)
    → low < 2 ^ 16
    → Fits s.place s.size
    → short_key low < short_key s.place + s.size
    → CutLow low s (cut_low low s)
unfolding cut_low
cut_low-CutLow low s pattern f hit = elim (Bool-cases (ltb (short_key s.place) (short_key low))) [
  | inl before ↦
      let lt : short_key s.place < short_key low = ground arith in
      let cut_part : (low + 2 ^ 16 - s.place) % 2 ^ 16 + short_key s.place ≡ short_key low =
        omega (arith, pattern, f.pattern) in
      let left : (s.size + 2 ^ 16 - (low + 2 ^ 16 - s.place) % 2 ^ 16) % 2 ^ 16
            + (low + 2 ^ 16 - s.place) % 2 ^ 16
          ≡ s.size =
        omega (arith, f.is_short) in
      rw before (record {
        fits = record {
          pattern = pattern;
          not_empty = omega arith;
          is_short = omega (arith, f.is_short);
          ends = omega (arith, f.ends);
        };
        from = λ p. ground arith;
        same_end = omega arith;
        same_source = omega (arith, f.pattern, pattern);
        not_past = λ high a b. b;
      })
  | inr after ↦ rw after (record {
    fits = f;
    from = λ p. ground arith;
    same_end = refl;
    same_source = refl;
    not_past = λ high a b. a;
  })
]

record CutHigh (high : ℕ) (s r : Side) : Type 0 where
  fits : Fits r.place r.size
  same_place : r.place ≡ s.place
  same_start : r.start ≡ s.start
  until :
      (p : ℕ)
      → ltb p (short_key r.place + r.size)
        ≡ (ltb p (short_key s.place + s.size) && leb p (short_key high))

cut_high-CutHigh :
    (high : ℕ) (s : Side)
    → high < 2 ^ 16
    → Fits s.place s.size
    → short_key s.place ≤ short_key high
    → CutHigh high s (cut_high high s)
unfolding cut_high
cut_high-CutHigh high s pattern f hit =
    let size_key : short_key s.size ≡ s.size + 2 ^ 15 = omega (arith, f.is_short) in
    elim (Bool-cases (ltb (short_key high + 2 ^ 15) (short_key s.place + short_key s.size))) [
      | inl beyond ↦
          let less : short_key high < short_key s.place + s.size = ground arith in
          let left : (high + 2 ^ 16 - s.place + 1) % 2 ^ 16 + short_key s.place
              ≡ short_key high + 1 =
            omega (arith, pattern, f.pattern, f.is_short) in
          rw beyond (record {
            fits = record {
              pattern = f.pattern;
              not_empty = omega arith;
              is_short = omega (arith, f.is_short);
              ends = omega (arith, f.ends);
            };
            same_place = refl;
            same_start = refl;
            until = λ p. ground arith;
          })
      | inr before ↦
          rw before
            (record { fits = f; same_place = refl; same_start = refl; until = λ p. ground arith })
    ]

-- What one axis comes to, where it meets the box.
pub record Cut (low high : ℕ) (s r : Side) : Type 0 where
  pub covered :
      (p : ℕ)
      → covers r.place r.size p ≡ (covers s.place s.size p && (short_le low p && short_le p high))
  pub same_source : (r.start + s.place) % 2 ^ 16 ≡ (s.start + r.place) % 2 ^ 16

pub swap_middle : (a b c d : Bool) → ((a && b) && (c && d)) ≡ ((a && c) && (b && d))
swap_middle a b c d = ground arith

pub cut-Cut :
    (low high : ℕ) (s : Side)
    → Range low high
    → Fits s.place s.size
    → misses low high s ≡ false
    → Cut low high s (cut low high s)
unfolding cut misses
cut-Cut low high s range f meets =
    let size_key : short_key s.size ≡ s.size + 2 ^ 15 = omega (arith, f.is_short) in
    let after_low : short_key low < short_key s.place + s.size = ground arith in
    let before_high : short_key s.place ≤ short_key high = ground arith in
    let l = cut_low-CutLow low s range.low_pattern f after_low in
    let h =
      cut_high-CutHigh high (cut_low low s) range.high_pattern l.fits
        (l.not_past (short_key high) before_high range.in_order) in
    record {
      covered = λ p.
          covers_lem (cut_high high (cut_low low s)).place (cut_high high (cut_low low s)).size p
            h.fits
          ∙ ap₂ (λ a b. a && b)
              (ap (λ x. leb (short_key x) (short_key p)) h.same_place ∙ l.from (short_key p))
              (h.until (short_key p) ∙ ap (λ e. ltb (short_key p) e && short_le p high) l.same_end)
          ∙ swap_middle (short_le s.place p) (short_le low p)
              (ltb (short_key p) (short_key s.place + s.size)) (short_le p high)
          ∙ ap (λ b. b && (short_le low p && short_le p high))
              (sym (covers_lem s.place s.size p f));
      same_source =
          ap (λ x. (x + s.place) % 2 ^ 16) h.same_start
          ∙ l.same_source
          ∙ ap (λ x. (s.start + x) % 2 ^ 16) (sym h.same_place);
    }

pub missed :
    (low high : ℕ) (s : Side)
    → Fits s.place s.size
    → misses low high s ≡ true
    → (p : ℕ) → (covers s.place s.size p && (short_le low p && short_le p high)) ≡ false
unfolding misses
missed low high s f miss p =
    let size_key : short_key s.size ≡ s.size + 2 ^ 15 = omega (arith, f.is_short) in
    ap (λ b. b && (short_le low p && short_le p high)) (covers_lem s.place s.size p f)
    ∙ ground arith
