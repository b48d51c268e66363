-- ===== src/Floppy/PortBits.antt =====
-- The bits of the port that a call changes, by tables over all bytes.
use demoscene.Prelude.{
  ℕ, ◌<◌, ◌≡◌, refl, bit_or, Bool, true, false, ◌&&◌, not, arith, ltb, if◌then◌else◌, has_bits,
  all_below, all_below_sound,
}
use demoscene.Floppy.Drive.{dsk_step, dsk_direc, dsk_side, dsk_desel, clear_byte}

pub record PortBits (q : ℕ) (step direc side : Bool) : Type 0 where
  pub step_bit : has_bits q dsk_step ≡ step
  pub direc_bit : has_bits q dsk_direc ≡ direc
  pub side_bit : has_bits q dsk_side ≡ side
  pub is_byte : q < 256

abbrev same : Bool → Bool → Bool
same a b = if a then b else not b

abbrev bits_are : ℕ → Bool → Bool → Bool → Bool
bits_are q step direc side =
    same (has_bits q dsk_step) step
    && (same (has_bits q dsk_direc) direc && (same (has_bits q dsk_side) side && ltb q 256))

same-eq : (a b : Bool) → same a b ≡ true → a ≡ b
same-eq true true h = refl
same-eq true false h = absurd (ground arith)
same-eq false true h = absurd (ground arith)
same-eq false false h = refl

bits_are-PortBits :
    (q : ℕ) (step direc side : Bool)
    → bits_are q step direc side ≡ true
    → PortBits q step direc side
bits_are-PortBits q step direc side h = record {
  step_bit = same-eq _ _ (ground arith);
  direc_bit = same-eq _ _ (ground arith);
  side_bit = same-eq _ _ (ground arith);
  is_byte = ground arith;
}

-- What each write to the port changes, by a table.
module _ (op : ℕ → ℕ) (step direc side : ℕ → Bool) where
  abbrev op_test : ℕ → Bool
  op_test p = bits_are (op p) (step p) (direc p) (side p)

  from_table :
      all_below 256 op_test ≡ true → (p : ℕ) → p < 256 → PortBits (op p) (step p) (direc p) (side p)
  from_table table p h =
      bits_are-PortBits (op p) (step p) (direc p) (side p) (all_below_sound 256 op_test p table h)

abbrev pub step_of : ℕ → Bool
step_of p = has_bits p dsk_step

abbrev pub direc_of : ℕ → Bool
direc_of p = has_bits p dsk_direc

abbrev pub side_of : ℕ → Bool
side_of p = has_bits p dsk_side

abbrev constant : Bool → ℕ → Bool
constant b p = b

pub pulse_bits : (p : ℕ) → p < 256 → PortBits (clear_byte p dsk_step) false (direc_of p) (side_of p)
unfolding all_below
pulse_bits = from_table (λ p. clear_byte p dsk_step) (constant false) direc_of side_of refl

pub desel_bits :
    (p : ℕ) → p < 256 → PortBits (bit_or p dsk_desel) (step_of p) (direc_of p) (side_of p)
unfolding all_below
desel_bits = from_table (λ p. bit_or p dsk_desel) step_of direc_of side_of refl

pub inwards_bits :
    (p : ℕ) → p < 256 → PortBits (clear_byte p dsk_direc) (step_of p) false (side_of p)
unfolding all_below
inwards_bits = from_table (λ p. clear_byte p dsk_direc) step_of (constant false) side_of refl

pub outwards_bits : (p : ℕ) → p < 256 → PortBits (bit_or p dsk_direc) (step_of p) true (side_of p)
unfolding all_below
outwards_bits = from_table (λ p. bit_or p dsk_direc) step_of (constant true) side_of refl

pub upper_bits : (p : ℕ) → p < 256 → PortBits (clear_byte p dsk_side) (step_of p) (direc_of p) false
unfolding all_below
upper_bits = from_table (λ p. clear_byte p dsk_side) step_of direc_of (constant false) refl

pub lower_bits : (p : ℕ) → p < 256 → PortBits (bit_or p dsk_side) (step_of p) (direc_of p) true
unfolding all_below
lower_bits = from_table (λ p. bit_or p dsk_side) step_of direc_of (constant true) refl
