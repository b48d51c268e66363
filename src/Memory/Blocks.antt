-- ===== src/Memory/Blocks.antt =====
-- Blocks in the words of an arena: one, those from an address on, and those before an address.
use demoscene.Prelude.{
  ℕ, ◌+◌, ◌-◌, ◌≤◌, ◌<◌, ◌≡◌, ap, ap₂, ◌∙◌, ◌⊎◌, false, not, bit_and, bit_or, arith, ◌==◌,
  if◌then◌else◌, has_bits, List, [], ◌∷◌, and_zero, zero_or,
}
use demoscene.Memory.Bt
use demoscene.Memory.Bt.{canary, used, prevfree, islast, clear, write}
use demoscene.Memory.Tags.{
  Cell, bit, flag_bits, tag, Sized, every_flag, and_flags, clear_flags, or_flags,
}

-- The footer: the canary of a used block, or a copy of the header.
abbrev pub foot : Cell → ℕ
foot c = if c.is_used then canary else tag c

pub record Placed (words : ℕ → ℕ) (at : ℕ) (c : Cell) : Type 0 where
  pub header : words at ≡ tag c
  pub footer : words (at + c.size - 4) ≡ foot c
  pub sized : Sized c

-- What the code reads of a block.
pub record Reads (words : ℕ → ℕ) (at : ℕ) (c : Cell) : Type 0 where
  pub size_read : Bt.size words at ≡ c.size
  pub used_read : Bt.is_used words at ≡ c.is_used
  pub prevfree_read : Bt.prev_free words at ≡ bit c.prev_free prevfree
  pub islast_read : Bt.is_last words at ≡ bit c.last islast
  pub flags_read : Bt.flags words at ≡ flag_bits false c.prev_free c.last

pub tag-Reads : (words : ℕ → ℕ) (at : ℕ) (c : Cell) → Sized c → words at ≡ tag c → Reads words at c
tag-Reads words at c z e =
    let f = every_flag c.is_used c.prev_free c.last in
    let bits = flag_bits c.is_used c.prev_free c.last in
    record {
      size_read =
          ap (λ w. clear w 7) e
          ∙ clear_flags c bits 7 z f.below_eight (omega arith)
          ∙ ap (λ n. c.size + n) (and_zero bits)
          ∙ omega arith;
      used_read =
          ap (λ w. has_bits w used) e
          ∙ ap (λ w. not (w == 0)) (and_flags c bits used z f.below_eight (omega arith))
          ∙ f.read_used;
      prevfree_read =
          ap (λ w. bit_and w prevfree) e
          ∙ and_flags c bits prevfree z f.below_eight (omega arith)
          ∙ f.read_prevfree;
      islast_read =
          ap (λ w. bit_and w islast) e
          ∙ and_flags c bits islast z f.below_eight (omega arith)
          ∙ f.read_islast;
      flags_read =
          ap (λ w. bit_and w 6) e ∙ and_flags c bits 6 z f.below_eight (omega arith) ∙ f.read_both;
    }

make_tag :
    (c : Cell) (fl : ℕ)
    → Sized c
    → fl ≡ flag_bits c.is_used c.prev_free c.last
    → bit_or c.size fl ≡ tag c
make_tag c fl z e =
    let f = every_flag c.is_used c.prev_free c.last in
    ap₂ bit_or {y = c.size + 0} (omega arith) e
    ∙ or_flags c 0 (flag_bits c.is_used c.prev_free c.last) z (omega arith) f.below_eight
    ∙ ap (λ n. c.size + n) (zero_or (flag_bits c.is_used c.prev_free c.last))

-- `BtMake` makes the block, and changes only words of it.
pub make-Placed :
    (words : ℕ → ℕ) (at : ℕ) (c : Cell) (fl : ℕ)
    → Sized c
    → fl ≡ flag_bits c.is_used c.prev_free c.last
    → Placed (Bt.make at c.size fl words) at c
unfolding Bt.make
make-Placed words at c fl z e =
    let f = every_flag c.is_used c.prev_free c.last in
    let t = make_tag c fl z e in
    let u : has_bits fl used ≡ c.is_used = ap (λ w. has_bits w used) e ∙ f.read_used in
    record { header = ground (arith, z.large); footer = rw (u, t) (ground arith); sized = z }

pub make_elsewhere :
    (words : ℕ → ℕ) (at size fl a : ℕ)
    → 16 ≤ size
    → (a < at) ⊎ (at + size ≤ a)
    → Bt.make at size fl words a ≡ words a
unfolding Bt.make
make_elsewhere words at size fl a large h = ground arith

-- From `at` on the blocks follow one another, and the last ends at `stop`.
abbrev pub Chain : (ℕ → ℕ) → ℕ → List Cell → ℕ → Type 0
Chain words at [] stop = at ≡ stop
Chain words at (c ∷ cs) stop = Placed words at c × Chain words (at + c.size) cs stop

-- The address behind some blocks from `start` on, of which the nearest to that address comes first.
abbrev pub place : ℕ → List Cell → ℕ
place start [] = start
place start (p ∷ ps) = place start ps + p.size

-- These blocks stand between `start` and that address.
abbrev pub Back : (ℕ → ℕ) → ℕ → List Cell → Type 0
Back words start [] = Unit
Back words start (p ∷ ps) = Placed words (place start ps) p × Back words start ps

pub Placed-frame :
    (words words' : ℕ → ℕ) (at : ℕ) (c : Cell)
    → Placed words at c
    → ((a : ℕ) → at ≤ a → a < at + c.size → words' a ≡ words a)
    → Placed words' at c
Placed-frame words words' at c b same =
    let z = b.sized.large in
    record {
      header = same at (omega arith) (omega arith) ∙ b.header;
      footer = same (at + c.size - 4) (omega arith) (omega arith) ∙ b.footer;
      sized = b.sized;
    }

pub Chain-le :
    (words : ℕ → ℕ) (at : ℕ) (cs : List Cell) (stop : ℕ) → Chain words at cs stop → at ≤ stop
Chain-le words at [] stop e = omega arith
Chain-le words at (c ∷ cs) stop (b, h) = omega (arith, Chain-le words (at + c.size) cs stop h)

pub Chain-frame :
    (words words' : ℕ → ℕ) (at : ℕ) (cs : List Cell) (stop : ℕ)
    → Chain words at cs stop
    → ((a : ℕ) → at ≤ a → a < stop → words' a ≡ words a)
    → Chain words' at cs stop
Chain-frame words words' at [] stop e same = e
Chain-frame words words' at (c ∷ cs) stop (b, h) same =
    let le = Chain-le words (at + c.size) cs stop h in
    (
      Placed-frame words words' at c b (λ a lo hi. same a lo (omega arith)),
      Chain-frame words words' (at + c.size) cs stop h (λ a lo hi. same a (omega arith) hi),
    )

pub le_place : (start : ℕ) (ps : List Cell) → start ≤ place start ps
le_place start [] = omega arith
le_place start (p ∷ ps) = omega (arith, le_place start ps)

pub Back-frame :
    (words words' : ℕ → ℕ) (start : ℕ) (ps : List Cell)
    → Back words start ps
    → ((a : ℕ) → start ≤ a → a < place start ps → words' a ≡ words a)
    → Back words' start ps
Back-frame words words' start [] h same = tt
Back-frame words words' start (p ∷ ps) (b, h) same =
    let le = le_place start ps in
    (
      Placed-frame words words' (place start ps) p b (λ a lo hi. same a (omega arith) hi),
      Back-frame words words' start ps h (λ a lo hi. same a lo (omega arith)),
    )
