-- ===== src/Keyboard/Modifiers.antt =====
-- The modifier byte follows the modifier keys that are held.
use demoscene.Prelude.{
  ℕ, ◌+◌, ◌-◌, ◌^◌, ◌<◌, ◌≡◌, ◌≢◌, refl, sym, ap, ◌∙◌, inl, inr, Bool, true, false, ◌&&◌, ◌||◌, not,
  List, [], ◌∷◌, arith, ltb, ltb→lt, Bool-cases, ◌==◌, ==_iff, has_bits, if◌then◌else◌, all_below,
  all_below_sound,
}
use demoscene.Keyboard.{
  Keyboard, change_of, update_modifier, push_key_event, push_all, code_of, is_release,
  next_modifier,
}
use demoscene.Keyboard.Map.{key_map}

-- The code of the key whose modifier bit is `b`: KEY_CONTROL for bit 1, and so on.
abbrev pub key_of_bit : ℕ → ℕ
key_of_bit b = if b == 1 then 0x63 else if b == 2 then 0x60 else if b == 3 then 0x61 else b + 0x60

-- The bit that a key changes, and 0 for a key that is no modifier.
abbrev bit_of_key : ℕ → ℕ
bit_of_key c =
    if c == 0x60
    then 2
    else if c == 0x61
    then 3
    else if c == 0x63
    then 1
    else if ltb c 0x64
    then 0
    else if ltb c 0x68
    then c - 0x60
    else 0

abbrev mask_of_bit : ℕ → ℕ
mask_of_bit b = if b == 0 then 0 else 2 ^ b

abbrev bool_eq : Bool → Bool → Bool
bool_eq true b = b
bool_eq false b = not b

change_table :
    all_below 128 (λ c. (c == 0x78) || (change_of c == mask_of_bit (bit_of_key c))) ≡ true
unfolding all_below change_of key_map
change_table = refl

row_test : ℕ → ℕ → ℕ → Bool
row_test i b m =
    bool_eq (has_bits (update_modifier false (mask_of_bit i) m) (2 ^ b))
      ((i == b) || has_bits m (2 ^ b))
    && (bool_eq (has_bits (update_modifier true (mask_of_bit i) m) (2 ^ b))
          (not (i == b) && has_bits m (2 ^ b))
        && (ltb (update_modifier false (mask_of_bit i) m) 256
            && ltb (update_modifier true (mask_of_bit i) m) 256))

abbrev row_tests : ℕ → ℕ → Bool
row_tests i b = (b == 0) || all_below 256 (row_test i b)

update_table : all_below 8 (λ i. all_below 8 (row_tests i)) ≡ true
unfolding all_below update_modifier row_test
update_table = refl

bool_eq_sound : (a b : Bool) → bool_eq a b ≡ true → a ≡ b
bool_eq_sound true b h = sym h
bool_eq_sound false true h = cc
bool_eq_sound false false h = refl

change_of_bit : (c : ℕ) → c < 128 → c ≢ 0x78 → change_of c ≡ mask_of_bit (bit_of_key c)
change_of_bit c lt ne = ground (
  arith,
  all_below_sound 128 (λ (n : ℕ). (n == 0x78) || (change_of n == mask_of_bit (bit_of_key n))) c
      change_table,
  ==_iff (change_of c) (mask_of_bit (bit_of_key c)),
)

-- The row of `update_table`.
abbrev Updates : ℕ → ℕ → ℕ → Type 0
Updates i b m =
    (has_bits (update_modifier false (mask_of_bit i) m) (2 ^ b) ≡ ((i == b) || has_bits m (2 ^ b)))
    × (has_bits (update_modifier true (mask_of_bit i) m) (2 ^ b)
        ≡ (not (i == b) && has_bits m (2 ^ b)))
    × (update_modifier false (mask_of_bit i) m < 256)
    × (update_modifier true (mask_of_bit i) m < 256)

and_parts : (a b : Bool) → (a && b) ≡ true → (a ≡ true) × (b ≡ true)
and_parts a b h = ground arith

row_passes : (i b m : ℕ) → i < 8 → 0 < b → b < 8 → m < 256 → row_test i b m ≡ true
row_passes i b m hi pos hb hm =
    all_below_sound 256 (row_test i b) m
      (positive (
        all_below_sound 8 (row_tests i) b
          (all_below_sound 8 (λ (n : ℕ). all_below 8 (row_tests n)) i update_table hi) hb))
      hm
  where
    positive : row_tests i b ≡ true → all_below 256 (row_test i b) ≡ true
    positive h = ground arith

update_row : (i b m : ℕ) → i < 8 → 0 < b → b < 8 → m < 256 → Updates i b m
unfolding row_test
update_row i b m hi pos hb hm =
    let (pressed, others) = and_parts _ _ (row_passes i b m hi pos hb hm) in
    let (released, bounds) = and_parts _ _ others in
    let (low, low') = and_parts _ _ bounds in
    (bool_eq_sound _ _ pressed, bool_eq_sound _ _ released, ltb→lt _ _ low, ltb→lt _ _ low')

-- What a history of raw codes says of the key with code `c`, held or not before.
unfoldable pub held : ℕ → Bool → List ℕ → Bool
held c now [] = now
held c now (raw ∷ raws) = held c (if code_of raw == c then not (is_release raw) else now) raws

-- Bytes that the handler passes on, whose low seven bits are not 0x78 (reset warning).
abbrev pub AllKeys : List ℕ → Type 0
AllKeys [] = Unit
AllKeys (raw ∷ raws) = (raw < 256) × (code_of raw ≢ 0x78) × AllKeys raws

bit_tests : ℕ → ℕ → Bool
bit_tests c b = (b == 0) || bool_eq (bit_of_key c == b) (c == key_of_bit b)

bit_table : all_below 128 (λ c. all_below 8 (bit_tests c)) ≡ true
unfolding all_below bit_tests
bit_table = refl

bit_of_key_iff : (c b : ℕ) → c < 128 → 0 < b → b < 8 → (bit_of_key c == b) ≡ (c == key_of_bit b)
unfolding bit_tests
bit_of_key_iff c b hc pos hb = bool_eq_sound _ _ (positive row)
  where
    row : bit_tests c b ≡ true
    row =
        all_below_sound 8 (bit_tests c) b
          (all_below_sound 128 (λ (n : ℕ). all_below 8 (bit_tests n)) c bit_table hc) hb

    positive : bit_tests c b ≡ true → bool_eq (bit_of_key c == b) (c == key_of_bit b) ≡ true
    positive h = elim (Bool-cases (b == 0)) [
      | inl z ↦ absurd (omega (arith, (==_iff b 0).0 z))
      | inr z ↦ rw z at h
    ]

bit_of_key-lt : (c : ℕ) → bit_of_key c < 8
bit_of_key-lt c = ground arith

not_and : (a b : Bool) → (not a && b) ≡ (if a then false else b)
not_and a b = ground arith

or_if : (a b : Bool) → (a || b) ≡ (if a then true else b)
or_if a b = ground arith

next_modifier_step :
    (raw b m : ℕ)
    → raw < 256
    → code_of raw ≢ 0x78
    → 0 < b
    → b < 8
    → m < 256
    → (has_bits (next_modifier raw m) (2 ^ b)
        ≡ (if code_of raw == key_of_bit b then not (is_release raw) else has_bits m (2 ^ b)))
      × (next_modifier raw m < 256)
unfolding next_modifier
next_modifier_step raw b m hr ne pos hb hm =
    let i = bit_of_key (code_of raw) in
    let (pressed, released, low, low') = update_row i b m (bit_of_key-lt (code_of raw)) pos hb hm in
    let same = bit_of_key_iff (code_of raw) b (omega arith) pos hb in
    rw (change_of_bit (code_of raw) (omega arith) ne, ← same)
      (elim (Bool-cases (is_release raw)) [
        | inl up ↦ rw up (released ∙ not_and (i == b) (has_bits m (2 ^ b)), low')
        | inr down ↦ rw down (pressed ∙ or_if (i == b) (has_bits m (2 ^ b)), low)
      ])

-- After any raw codes of keys, modifier bit `b` (1 to 7: control, shifts, alts and Amiga keys) is
-- set exactly when its key is held: by the last of the codes that is about that key, or, if none
-- is, as it was before.
pub modifier_follows :
    (raws : List ℕ) (k : Keyboard) (b : ℕ)
    → AllKeys raws
    → 0 < b
    → b < 8
    → k.modifier < 256
    → has_bits (push_all raws k).modifier (2 ^ b)
      ≡ held (key_of_bit b) (has_bits k.modifier (2 ^ b)) raws
unfolding push_all push_key_event held
modifier_follows [] k b keys pos hb hm = refl
modifier_follows (raw ∷ raws) k b (hr, ne, rest) pos hb hm =
    let (bit, low) = next_modifier_step raw b k.modifier hr ne pos hb hm in
    modifier_follows raws (push_key_event raw k) b rest pos hb low
    ∙ ap (λ now. held (key_of_bit b) now raws) bit
