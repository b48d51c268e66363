-- ===== src/Keyboard/Map.antt =====
-- The table `KeyMap` of system/drivers/keyboard.c: what each key code stands for, with the codes of
-- include/system/keyboard.h.
use demoscene.Prelude.{ℕ, List, [], ◌∷◌, ◌++◌, ◌==◌, if◌then◌else◌}

-- The entries `LO`: index and value.
unshifted : List (ℕ × ℕ)
unshifted =
    (0x00, 0x60)
    ∷ (0x01, 0x31)
    ∷ (0x02, 0x32)
    ∷ (0x03, 0x33)
    ∷ (0x04, 0x34)
    ∷ (0x05, 0x35)
    ∷ (0x06, 0x36)
    ∷ (0x07, 0x37)
    ∷ (0x08, 0x38)
    ∷ (0x09, 0x39)
    ∷ (0x0a, 0x30)
    ∷ (0x0b, 0x2d)
    ∷ (0x0c, 0x3d)
    ∷ (0x0d, 0x5c)
    ∷ (0x0f, 0x30)
    ∷ (0x10, 0x71)
    ∷ (0x11, 0x77)
    ∷ (0x12, 0x65)
    ∷ (0x13, 0x72)
    ∷ (0x14, 0x74)
    ∷ (0x15, 0x79)
    ∷ (0x16, 0x75)
    ∷ (0x17, 0x69)
    ∷ (0x18, 0x6f)
    ∷ (0x19, 0x70)
    ∷ (0x1a, 0x5b)
    ∷ (0x1b, 0x5d)
    ∷ (0x1d, 0x31)
    ∷ (0x1e, 0x32)
    ∷ (0x1f, 0x33)
    ∷ (0x20, 0x61)
    ∷ (0x21, 0x73)
    ∷ (0x22, 0x64)
    ∷ (0x23, 0x66)
    ∷ (0x24, 0x67)
    ∷ (0x25, 0x68)
    ∷ (0x26, 0x6a)
    ∷ (0x27, 0x6b)
    ∷ (0x28, 0x6c)
    ∷ (0x29, 0x3b)
    ∷ (0x2a, 0x27)
    ∷ (0x2d, 0x34)
    ∷ (0x2e, 0x35)
    ∷ (0x2f, 0x36)
    ∷ (0x31, 0x7a)
    ∷ (0x32, 0x78)
    ∷ (0x33, 0x63)
    ∷ (0x34, 0x76)
    ∷ (0x35, 0x62)
    ∷ (0x36, 0x6e)
    ∷ (0x37, 0x6d)
    ∷ (0x38, 0x2c)
    ∷ (0x39, 0x2e)
    ∷ (0x3a, 0x2f)
    ∷ (0x3c, 0x2e)
    ∷ (0x3d, 0x37)
    ∷ (0x3e, 0x38)
    ∷ (0x3f, 0x39)
    ∷ (0x40, 0x20)
    ∷ (0x41, 0x08)
    ∷ (0x42, 0x09)
    ∷ (0x43, 0x0a)
    ∷ (0x44, 0x0a)
    ∷ (0x45, 0x1b)
    ∷ (0x4a, 0x2d)
    ∷ (0x5a, 0x28)
    ∷ (0x5b, 0x29)
    ∷ (0x5c, 0x2f)
    ∷ (0x5d, 0x2a)
    ∷ (0x5e, 0x2b)
    ∷ (0x60, 0x04)
    ∷ (0x61, 0x08)
    ∷ (0x63, 0x02)
    ∷ (0x64, 0x10)
    ∷ (0x65, 0x20)
    ∷ (0x66, 0x40)
    ∷ (0x67, 0x80)
    ∷ []

-- The entries `HI`, at index code | 0x80.
shifted : List (ℕ × ℕ)
shifted =
    (0x80, 0x7e)
    ∷ (0x81, 0x21)
    ∷ (0x82, 0x40)
    ∷ (0x83, 0x23)
    ∷ (0x84, 0x24)
    ∷ (0x85, 0x25)
    ∷ (0x86, 0x5e)
    ∷ (0x87, 0x26)
    ∷ (0x88, 0x2a)
    ∷ (0x89, 0x28)
    ∷ (0x8a, 0x29)
    ∷ (0x8b, 0x5f)
    ∷ (0x8c, 0x2b)
    ∷ (0x8d, 0x7c)
    ∷ (0x90, 0x51)
    ∷ (0x91, 0x57)
    ∷ (0x92, 0x45)
    ∷ (0x93, 0x52)
    ∷ (0x94, 0x54)
    ∷ (0x95, 0x59)
    ∷ (0x96, 0x55)
    ∷ (0x97, 0x49)
    ∷ (0x98, 0x4f)
    ∷ (0x99, 0x50)
    ∷ (0x9a, 0x7b)
    ∷ (0x9b, 0x7d)
    ∷ (0xa0, 0x41)
    ∷ (0xa1, 0x53)
    ∷ (0xa2, 0x44)
    ∷ (0xa3, 0x46)
    ∷ (0xa4, 0x47)
    ∷ (0xa5, 0x48)
    ∷ (0xa6, 0x4a)
    ∷ (0xa7, 0x4b)
    ∷ (0xa8, 0x4c)
    ∷ (0xa9, 0x3a)
    ∷ (0xaa, 0x22)
    ∷ (0xb1, 0x5a)
    ∷ (0xb2, 0x58)
    ∷ (0xb3, 0x43)
    ∷ (0xb4, 0x56)
    ∷ (0xb5, 0x42)
    ∷ (0xb6, 0x4e)
    ∷ (0xb7, 0x4d)
    ∷ (0xb8, 0x3c)
    ∷ (0xb9, 0x3e)
    ∷ (0xba, 0x3f)
    ∷ []

-- The codes that are no keys, with the value -1.
errors : List (ℕ × ℕ)
errors =
    (0x78, 0xff)
    ∷ (0xf9, 0xff)
    ∷ (0xfa, 0xff)
    ∷ (0xfc, 0xff)
    ∷ (0xfd, 0xff)
    ∷ (0xfe, 0xff)
    ∷ (0xff, 0xff)
    ∷ []

lookup_or_zero : ℕ → List (ℕ × ℕ) → ℕ
lookup_or_zero k [] = 0
lookup_or_zero k ((i, v) ∷ entries) = if i == k then v else lookup_or_zero k entries

-- An index without an entry holds 0.
unfoldable pub key_map : ℕ → ℕ
unfolding unshifted shifted errors lookup_or_zero
key_map k = lookup_or_zero k (unshifted ++ (shifted ++ errors))
