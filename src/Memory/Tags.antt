-- ===== src/Memory/Tags.antt =====
-- The header of a block: its size with its three flags.
use demoscene.Prelude.{
  ℕ, ◌+◌, ◌-◌, ◌/◌, ◌%◌, ◌^◌, ◌≤◌, ◌<◌, ◌≡◌, ap₂, ◌∙◌, Bool, true, false, bit_and, bit_or, arith,
  if◌then◌else◌, has_bits, ones, and-ones, and_zero, or_zero, shifted, and_shifted, or_shifted,
}
use demoscene.Memory.Bt.{used, prevfree, islast, clear}

-- A block, as its header tells it.
pub record Cell : Type 0 where
  pub size : ℕ
  pub is_used : Bool
  pub prev_free : Bool
  pub last : Bool

abbrev pub bit : Bool → ℕ → ℕ
bit b n = if b then n else 0

abbrev pub flag_bits : Bool → Bool → Bool → ℕ
flag_bits u p l = bit u used + bit p prevfree + bit l islast

abbrev pub tag : Cell → ℕ
tag c = c.size + flag_bits c.is_used c.prev_free c.last

-- What the code reads of a header, and makes of it, whatever the flags are.
pub record Flags (u p l : Bool) : Type 0 where
  pub read_used : has_bits (flag_bits u p l) used ≡ u
  pub read_prevfree : bit_and (flag_bits u p l) prevfree ≡ bit p prevfree
  pub read_islast : bit_and (flag_bits u p l) islast ≡ bit l islast
  pub read_both : bit_and (flag_bits u p l) 6 ≡ flag_bits false p l
  pub drop_prevfree : bit_and (flag_bits u p l) 5 ≡ flag_bits u false l
  pub drop_islast : bit_and (flag_bits u p l) 3 ≡ flag_bits u p false
  pub add_prevfree : bit_or (flag_bits u p l) prevfree ≡ flag_bits u true l
  pub used_last : bit_or used (bit l islast) ≡ flag_bits true false l
  pub used_prevfree : bit_or used (bit p prevfree) ≡ flag_bits true p false
  pub prevfree_last : bit_or (bit p prevfree) (bit l islast) ≡ flag_bits false p l
  pub below_eight : flag_bits u p l < 8

pub every_flag : (u p l : Bool) → Flags u p l
every_flag true true true = ground arith
every_flag true true false = ground arith
every_flag true false true = ground arith
every_flag true false false = ground arith
every_flag false true true = ground arith
every_flag false true false = ground arith
every_flag false false true = ground arith
every_flag false false false = ground arith

-- The size is a multiple of 16 of 31 bits.
pub record Sized (c : Cell) : Type 0 where
  pub aligned : c.size % 16 ≡ 0
  pub large : 16 ≤ c.size
  pub small : c.size < 2 ^ 31

-- The bits of the size and the flags are apart.
and_tag :
    (c : Cell) (k f m g : ℕ)
    → Sized c
    → f < 8
    → g < 8
    → m ≡ shifted 3 k + g
    → bit_and (c.size + f) m ≡ shifted 3 (bit_and (c.size / 8) k) + bit_and f g
and_tag c k f m g z hf hg e =
    ap₂ bit_and {y = shifted 3 (c.size / 8) + f} (omega (arith, z.aligned)) e
    ∙ and_shifted 3 (c.size / 8) k f g hf hg

pub and_flags :
    (c : Cell) (f g : ℕ) → Sized c → f < 8 → g < 8 → bit_and (c.size + f) g ≡ bit_and f g
and_flags c f g z hf hg =
    and_tag c 0 f g g z hf hg (omega arith) ∙ omega (arith, and_zero (c.size / 8))

pub clear_flags :
    (c : Cell) (f g : ℕ)
    → Sized c
    → f < 8
    → g < 8
    → clear (c.size + f) g ≡ c.size + bit_and f (7 - g)
clear_flags c f g z hf hg =
    and_tag c (ones 29) f (2 ^ 32 - 1 - g) (7 - g) z hf (omega arith) (omega arith)
    ∙ omega (arith, z.aligned, and-ones 29 (c.size / 8) (omega (arith, z.small)))

pub or_flags :
    (c : Cell) (f g : ℕ) → Sized c → f < 8 → g < 8 → bit_or (c.size + f) g ≡ c.size + bit_or f g
or_flags c f g z hf hg =
    ap₂ bit_or {y = shifted 3 (c.size / 8) + f} {v = shifted 3 0 + g} (omega (arith, z.aligned))
      (omega arith)
    ∙ or_shifted 3 (c.size / 8) 0 f g hf hg
    ∙ omega (arith, z.aligned, or_zero (c.size / 8))
