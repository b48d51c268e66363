-- ===== src/Memory/Edits.antt =====
-- What changes at a block when its header is written, and at the list of free blocks.
use demoscene.Prelude.{
  ℕ, ◌+◌, ◌-◌, ◌%◌, ◌^◌, ◌<◌, ◌≡◌, refl, sym, ap, ◌∙◌, ◌⊎◌, inl, inr, true, false, not, bit_or,
  arith, ◌==◌, ==_iff, if◌then◌else◌, has_bits, Bool-cases, List, [], ◌∷◌, ◌++◌, count,
  count-append, Gives, gives, Gives-bind, and_one, or_step, and_step,
}
use demoscene.Memory.{without}
use demoscene.Memory.Bt
use demoscene.Memory.Bt.{canary, used, prevfree, islast, clear, write}
use demoscene.Memory.Tags.{Cell, flag_bits, tag, every_flag, clear_flags, or_flags}
use demoscene.Memory.Blocks.{Placed}

pub write_here : (words : ℕ → ℕ) (at v : ℕ) → write words at v at ≡ v
write_here words at v = ground arith

pub write_elsewhere :
    (words : ℕ → ℕ) (at v a : ℕ) → (a < at) ⊎ (at < a) → write words at v a ≡ words a
write_elsewhere words at v a h = ground arith

-- A new header of a used block, whose footer is its canary.
edit-Placed :
    (words : ℕ → ℕ) (at v : ℕ) (c c' : Cell)
    → Placed words at c
    → c.is_used ≡ true
    → c'.is_used ≡ true
    → c'.size ≡ c.size
    → v ≡ tag c'
    → Placed (write words at v) at c'
edit-Placed words at v c c' b u u' same e = record {
  header = ground (arith, e);
  footer =
      write_elsewhere words at v (at + c'.size - 4) (inr (omega (arith, b.sized.large)))
      ∙ ap (λ s. words (at + s - 4)) same
      ∙ b.footer
      ∙ ap (λ t. if t then canary else tag c) u
      ∙ sym (ap (λ t. if t then canary else tag c') u');
  sized = record {
    aligned = omega (arith, b.sized.aligned);
    large = omega (arith, b.sized.large);
    small = omega (arith, b.sized.small);
  };
}

pub clr-islast-Placed :
    (words : ℕ → ℕ) (at : ℕ) (c : Cell)
    → Placed words at c
    → c.is_used ≡ true
    → Placed (Bt.clr islast at words) at (record c { last = false })
clr-islast-Placed words at c b u =
    let f = every_flag c.is_used c.prev_free c.last in
    edit-Placed words at (clear (words at) islast) c (record c { last = false }) b u u refl
      (ap (λ w. clear w islast) b.header
        ∙ clear_flags c (flag_bits c.is_used c.prev_free c.last) islast b.sized f.below_eight
            (omega arith)
        ∙ ap (λ n. c.size + n) f.drop_islast)

pub clr-prevfree-Placed :
    (words : ℕ → ℕ) (at : ℕ) (c : Cell)
    → Placed words at c
    → c.is_used ≡ true
    → Placed (Bt.clr prevfree at words) at (record c { prev_free = false })
clr-prevfree-Placed words at c b u =
    let f = every_flag c.is_used c.prev_free c.last in
    edit-Placed words at (clear (words at) prevfree) c (record c { prev_free = false }) b u u refl
      (ap (λ w. clear w prevfree) b.header
        ∙ clear_flags c (flag_bits c.is_used c.prev_free c.last) prevfree b.sized f.below_eight
            (omega arith)
        ∙ ap (λ n. c.size + n) f.drop_prevfree)

pub put-prevfree-Placed :
    (words : ℕ → ℕ) (at : ℕ) (c : Cell)
    → Placed words at c
    → c.is_used ≡ true
    → Placed (Bt.put prevfree at words) at (record c { prev_free = true })
put-prevfree-Placed words at c b u =
    let f = every_flag c.is_used c.prev_free c.last in
    edit-Placed words at (bit_or (words at) prevfree) c (record c { prev_free = true }) b u u refl
      (ap (λ w. bit_or w prevfree) b.header
        ∙ or_flags c (flag_bits c.is_used c.prev_free c.last) prevfree b.sized f.below_eight
            (omega arith)
        ∙ ap (λ n. c.size + n) f.add_prevfree)

-- The word behind the arena keeps its lowest bit.
used_parity : (w : ℕ) → has_bits w used ≡ not (w % 2 == 0)
used_parity w = ap (λ n. not (n == 0)) (and_one w)

pub put_prevfree-used : (w : ℕ) → has_bits (bit_or w prevfree) used ≡ has_bits w used
put_prevfree-used w =
    used_parity (bit_or w prevfree)
    ∙ ap (λ n. not (n == 0)) (omega (arith, or_step w prevfree))
    ∙ sym (used_parity w)

pub clr_prevfree-used : (w : ℕ) → has_bits (clear w prevfree) used ≡ has_bits w used
clr_prevfree-used w =
    used_parity (clear w prevfree)
    ∙ ap (λ n. not (n == 0)) (omega (arith, and_step w (2 ^ 32 - 1 - prevfree)))
    ∙ sym (used_parity w)

-- The list of free blocks without one of them, and with one more at its end.
pub without-Removed :
    (b : ℕ) (xs : List ℕ)
    → 0 < count b xs
    → Gives (λ ys. (t : ℕ) → count t xs ≡ count t ys + (if b == t then 1 else 0)) (without b xs)
unfolding without
without-Removed b [] pos = absurd (omega arith)
without-Removed b (x ∷ xs) pos = elim (Bool-cases (x == b)) [
  | inl same ↦ rw same (gives (λ t. ground (arith, (==_iff x b).0 same)))
  | inr other ↦
      rw other
        (Gives-bind (without-Removed b xs (ground arith)) λ ys h. gives (λ t. ground (arith, h t)))
]

pub count-added :
    (t b : ℕ) (xs : List ℕ) → count t (xs ++ b ∷ []) ≡ count t xs + (if b == t then 1 else 0)
count-added t b xs = ground (arith, count-append t xs (b ∷ []))
