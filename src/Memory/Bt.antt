-- ===== src/Memory/Bt.antt =====
-- Boundary tags of system/kernel/memory.c: the words at the start and at the end of each block.
use demoscene.Prelude.{ℕ, ◌+◌, ◌-◌, ◌^◌, bit_and, bit_or, Bool, ◌==◌, if◌then◌else◌, has_bits}

abbrev pub canary : ℕ
canary = 0xDEADC0DE

abbrev pub used : ℕ
used = 1

abbrev pub prevfree : ℕ
prevfree = 2

abbrev pub islast : ℕ
islast = 4

abbrev pub write : (ℕ → ℕ) → ℕ → ℕ → ℕ → ℕ
write words at v a = if a == at then v else words a

-- `x & ~mask` of a word.
abbrev pub clear : ℕ → ℕ → ℕ
clear x mask = bit_and x (2 ^ 32 - 1 - mask)

abbrev pub size : (ℕ → ℕ) → ℕ → ℕ
size words bt = clear (words bt) 7

abbrev pub is_used : (ℕ → ℕ) → ℕ → Bool
is_used words bt = has_bits (words bt) used

abbrev pub flags : (ℕ → ℕ) → ℕ → ℕ
flags words bt = bit_and (words bt) (prevfree + islast)

abbrev pub prev_free : (ℕ → ℕ) → ℕ → ℕ
prev_free words bt = bit_and (words bt) prevfree

abbrev pub is_last : (ℕ → ℕ) → ℕ → ℕ
is_last words bt = bit_and (words bt) islast

abbrev pub next : (ℕ → ℕ) → ℕ → ℕ
next words bt = bt + size words bt

abbrev pub prev : (ℕ → ℕ) → ℕ → ℕ
prev words bt = bt - size words (bt - 4)

abbrev pub has_canary : (ℕ → ℕ) → ℕ → Bool
has_canary words bt = words (bt + size words bt - 4) == canary

unfoldable pub make : ℕ → ℕ → ℕ → (ℕ → ℕ) → ℕ → ℕ
make bt sz fl words =
    let val = bit_or sz fl in
    write (write words bt val) (bt + sz - 4) (if has_bits fl used then canary else val)

abbrev pub clr : ℕ → ℕ → (ℕ → ℕ) → ℕ → ℕ
clr mask bt words = write words bt (clear (words bt) mask)

abbrev pub put : ℕ → ℕ → (ℕ → ℕ) → ℕ → ℕ
put mask bt words = write words bt (bit_or (words bt) mask)
