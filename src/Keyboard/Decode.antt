-- ===== src/Keyboard/Decode.antt =====
-- What the interrupt handler makes of the bytes that the keyboard sends.
use demoscene.Prelude.{
  ℕ, ◌+◌, ◌-◌, ◌*◌, ◌/◌, ◌%◌, ◌<◌, ◌≤◌, ◌≡◌, refl, ap, inl, inr, Bool, true, false, ◌&&◌, ◌||◌, not,
  arith, leb, lt→ltb, ◌==◌, ==_iff, Bool-cases, has_bits, if◌then◌else◌, all_below, all_below_sound,
  bit_and, bit_or,
}
use demoscene.Keyboard.{
  Keyboard, Cia, complement, key_lshift, mod_shift, ascii_of, push_key_event, sample_icr, decode,
  craf_spmode, icrf_sp, keyboard_int_handler,
}
use demoscene.Keyboard.Map.{key_map}

-- The byte that the keyboard sends for a raw code: rotated left by one and negated.
abbrev pub wire : ℕ → ℕ
wire raw = 255 - (raw * 2 % 256 + raw / 128)

wire_table : all_below 256 (λ r. decode (wire r) == r) ≡ true
unfolding all_below decode
wire_table = refl

pub decode-wire : (raw : ℕ) → raw < 256 → decode (wire raw) ≡ raw
decode-wire raw h =
    (==_iff _ _).0 (all_below_sound 256 (λ (r : ℕ). decode (wire r) == r) raw wire_table h)

mode_test : ℕ → Bool
mode_test x = not (has_bits (bit_and (bit_or x craf_spmode) (complement craf_spmode)) craf_spmode)

mode_table : all_below 256 mode_test ≡ true
unfolding all_below mode_test
mode_table = refl

input_mode :
    (x : ℕ)
    → x < 256
    → has_bits (bit_and (bit_or x craf_spmode) (complement craf_spmode)) craf_spmode ≡ false
unfolding mode_test
input_mode x h = ground (arith, all_below_sound 256 mode_test x mode_table h)

-- What the handler leaves, with the serial interrupt bit in the sampled register or not.
abbrev pub Handled : ℕ → Bool → Keyboard → Cia → Keyboard → Cia → Type 0
Handled raw true k c k' c' =
    (k' ≡ (if key_map raw == 255 then k else push_key_event raw k))
    × (has_bits c'.cra craf_spmode ≡ false)
Handled raw false k c k' c' = (k' ≡ k) × (c'.cra ≡ c.cra)

-- A serial interrupt for raw code `raw` pushes the event of that key, unless `KeyMap` marks the
-- code as an error, and ends the handshake with the port in input mode. Without a serial interrupt
-- the keyboard and the port's mode stay as they were.
pub keyboard_int_handler_lem :
    (hw raw : ℕ) (c : Cia) (k : Keyboard)
    → raw < 256
    → c.cra < 256
    → let (c', k') = keyboard_int_handler hw (wire raw) c k in
      Handled raw (has_bits (bit_or c.pending hw) icrf_sp) k c k' c'
unfolding keyboard_int_handler sample_icr
keyboard_int_handler_lem hw raw c k h small =
    elim (Bool-cases (bit_and (bit_or c.pending hw) icrf_sp == 0)) [
      | inl quiet ↦ rw quiet (refl, refl)
      | inr got ↦ rw (got, decode-wire raw h) (refl, input_mode c.cra small)
    ]

is_letter : ℕ → Bool
is_letter v = leb b'a' v && leb v b'z'

letter_test : ℕ → Bool
letter_test c = not (is_letter (key_map c)) || (key_map (c + 128) + 32 == key_map c)

letter_table : all_below 0x60 letter_test ≡ true
unfolding all_below letter_test is_letter key_map
letter_table = refl

capital :
    (code : ℕ)
    → code < key_lshift
    → b'a' ≤ key_map code
    → key_map code ≤ b'z'
    → key_map (code + 128) + 32 ≡ key_map code
unfolding letter_test is_letter
capital code h lo hi = ground (arith, all_below_sound key_lshift letter_test code letter_table h)

-- A letter key gives its small letter, and with a shift among the modifiers its capital.
pub ascii_of-letter :
    (code modifier : ℕ)
    → code < key_lshift
    → b'a' ≤ key_map code
    → key_map code ≤ b'z'
    → ascii_of code modifier
      ≡ (if has_bits modifier mod_shift then key_map code - 32 else key_map code)
unfolding ascii_of
ascii_of-letter code modifier h lo hi = elim (Bool-cases (has_bits modifier mod_shift)) [
  | inl shift ↦ rw (shift, lt→ltb _ _ h) (omega (arith, capital code h lo hi))
  | inr plain ↦ rw (plain, lt→ltb _ _ h) (ap key_map (omega arith))
]
