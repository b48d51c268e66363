-- ===== src/Keyboard/Tests.antt =====
-- The keyboard's theorems at concrete keys.
use demoscene.Prelude.{ℕ, ◌≡◌, ◌^◌, refl, List, [], ◌∷◌, arith, has_bits}
use demoscene.Events.{initial}
use demoscene.Keyboard.{Keyboard, push_all}
use demoscene.Keyboard.Map.{key_map}
use demoscene.Keyboard.Modifiers.{held, key_of_bit, modifier_follows}

abbrev rest : Keyboard
rest = record { modifier = 0; cpu = record { ipl = 2; nest = 0 }; events = initial }

-- Left shift down, A down, left shift up.
abbrev keys : List ℕ
keys = 0x60 ∷ 0x20 ∷ 0xe0 ∷ []

modifier_follows_example :
    has_bits (push_all keys rest).modifier (2 ^ 2) ≡ held (key_of_bit 2) (has_bits 0 (2 ^ 2)) keys
modifier_follows_example =
    modifier_follows keys rest 2
      ((omega arith, omega arith, (omega arith, omega arith, (omega arith, omega arith, tt))))
      (omega arith) (omega arith) (omega arith)

key_map_a : key_map 0x20 ≡ b'a'
unfolding key_map
key_map_a = refl
