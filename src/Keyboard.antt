-- ===== src/Keyboard.antt =====
-- The keyboard driver: system/drivers/keyboard.c, with the cached interrupt control registers of
-- system/drivers/cia-icr.c that it reads.
pub mod Map
pub mod Modifiers
pub mod Decode
mod Tests
use demoscene.Prelude.{
  ℕ, ◌+◌, ◌-◌, ◌*◌, ◌/◌, ◌%◌, ◌^◌, bit_and, bit_or, Bool, List, [], ◌∷◌, leb, ltb, ◌==◌, has_bits,
  if◌then◌else◌,
}
use demoscene.Cpu.{Cpu}
use demoscene.Events.{Event, key, EventQueue, push_event_isr}
use Map.{key_map}

abbrev pub key_lshift : ℕ
key_lshift = 0x60

abbrev pub mod_pressed : ℕ
mod_pressed = 0x01

abbrev pub mod_shift : ℕ
mod_shift = 0x0c

-- `~x` of a byte.
abbrev pub complement : ℕ → ℕ
complement x = 255 - x % 256

-- The bits of `KeyMap` that a key changes among the modifiers.
unfoldable pub change_of : ℕ → ℕ
change_of code = if leb key_lshift code then key_map code else 0

unfoldable pub update_modifier : (released : Bool) → (change modifier : ℕ) → ℕ
update_modifier released change modifier =
    if released
    then bit_and modifier (complement (bit_or change mod_pressed))
    else bit_or modifier (bit_or change mod_pressed)

-- `raw & 0x7f` and `raw & 0x80` of a byte.
abbrev pub code_of : ℕ → ℕ
code_of raw = raw % 128

abbrev pub is_release : ℕ → Bool
is_release raw = leb 128 (raw % 256)

unfoldable pub next_modifier : ℕ → ℕ → ℕ
next_modifier raw modifier = update_modifier (is_release raw) (change_of (code_of raw)) modifier

unfoldable pub ascii_of : (code modifier : ℕ) → ℕ
ascii_of code modifier =
    if ltb code key_lshift
    then key_map (code + (if has_bits modifier mod_shift then 128 else 0))
    else 0

pub record Keyboard : Type 0 where
  pub modifier : ℕ
  pub cpu : Cpu
  pub events : EventQueue

-- The event that `PushKeyEvent` builds, with the new `modifier`.
unfoldable pub key_event : ℕ → ℕ → Event
key_event raw modifier =
    let m = next_modifier raw modifier in key m (code_of raw) (ascii_of (code_of raw) m)

unfoldable pub push_key_event : ℕ → Keyboard → Keyboard
push_key_event raw k =
    let (cpu, events) = push_event_isr (key_event raw k.modifier) k.cpu k.events in
    record { modifier = next_modifier raw k.modifier; cpu = cpu; events = events }

-- One of the two CIA chips: the cached masks, and control register A.
pub record Cia : Type 0 where
  pub enabled : ℕ
  pub pending : ℕ
  pub cra : ℕ

abbrev pub icrf_setclr : ℕ
icrf_setclr = 0x80

abbrev pub icrf_sp : ℕ
icrf_sp = 0x08

abbrev pub craf_spmode : ℕ
craf_spmode = 0x40

-- The write to the real register goes with it; the result is the mask that is enabled now.
unfoldable pub write_icr : ℕ → Cia → ℕ × Cia
write_icr mask c =
    let now =
      if has_bits mask icrf_setclr
      then bit_or c.enabled (bit_and mask (complement icrf_setclr))
      else bit_and c.enabled (complement mask) in
    (now, record c { enabled = now })

-- `hw` is what the real register reads, which clears it.
unfoldable pub sample_icr : (hw : ℕ) → ℕ → Cia → ℕ × Cia
sample_icr hw mask c =
    let icr = bit_or c.pending hw in
    (bit_and icr mask, record c { pending = bit_and icr (complement mask) })

-- The key code that the serial register holds negated and rotated.
unfoldable pub decode : ℕ → ℕ
decode sdr = let b = complement sdr in bit_or (b / 2) (b * 128 % 256)

-- The handler: `hw` and `sdr` are what the registers read. The handshake sets the serial port to
-- output for 85 microseconds and back to input.
unfoldable pub keyboard_int_handler : (hw sdr : ℕ) → Cia → Keyboard → Cia × Keyboard
keyboard_int_handler hw sdr c k =
    let (sampled, c') = sample_icr hw icrf_sp c in
    let output = record c' { cra = bit_or c'.cra craf_spmode } in
    let input = record output { cra = bit_and output.cra (complement craf_spmode) } in
    let raw = decode sdr in
    if sampled == 0
    then (c', k)
    else (input, if key_map raw == 255 then k else push_key_event raw k)

-- Raw codes in the order of their interrupts.
unfoldable pub push_all : List ℕ → Keyboard → Keyboard
push_all [] k = k
push_all (raw ∷ raws) k = push_all raws (push_key_event raw k)
