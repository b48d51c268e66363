-- ===== src/Mouse.antt =====
-- The mouse driver: system/drivers/mouse.c and include/system/mouse.h. Coordinates are the bit
-- patterns of `short`s, counters and movements those of `char`s.
pub mod Moves
mod Tests
use demoscene.Prelude.{
  ℕ, ◌+◌, ◌-◌, ◌/◌, ◌%◌, ◌^◌, bit_and, bit_or, bit_xor, Bool, true, false, ◌||◌, not, ltb, ◌==◌,
  if◌then◌else◌, has_bits, short_key,
}
use demoscene.Cpu.{Cpu}
use demoscene.Events.{Event, mouse, EventQueue, push_event_isr}

-- `xctr`, `event.x`, `event.xrel`, `left` and `right`, or the same of the other axis.
pub record Axis : Type 0 where
  pub counter : ℕ
  pub position : ℕ
  pub rel : ℕ
  pub low : ℕ
  pub high : ℕ

pub record MouseData : Type 0 where
  pub x : Axis
  pub y : Axis
  pub button : ℕ
  pub changes : ℕ
  pub cpu : Cpu
  pub events : EventQueue

abbrev pub short_lt : ℕ → ℕ → Bool
short_lt a b = ltb (short_key a) (short_key b)

-- A `char` as a `short`.
abbrev pub extend : ℕ → ℕ
extend c = if ltb c 128 then c else c + (2 ^ 16 - 256)

unfoldable pub within : (low high place : ℕ) → ℕ
within low high place =
    let raised = if short_lt place low then low else place in
    if short_lt high raised then high else raised

-- One half of `GetMouseMove`, from a new value of the counter.
unfoldable pub move_axis : ℕ → Axis → Bool × Axis
move_axis new a =
    let rel = (new + 256 - a.counter) % 256 in
    if rel == 0 then (false, a) else (
      true,
      record a {
        counter = new;
        rel = rel;
        position = within a.low a.high ((a.position + extend rel) % 2 ^ 16);
      },
    )

unfoldable pub get_mouse_move : (joy0dat : ℕ) → MouseData → Bool × MouseData
get_mouse_move joy0dat m =
    let (moved_x, x) = move_axis (joy0dat % 256) m.x in
    let (moved_y, y) = move_axis (joy0dat / 256 % 256) m.y in
    (moved_x || moved_y, record m { x = x; y = y })

abbrev pub lmb_pressed : ℕ
lmb_pressed = 1

abbrev pub rmb_pressed : ℕ
rmb_pressed = 2

abbrev pub lmb_released : ℕ
lmb_released = 4

abbrev pub rmb_released : ℕ
rmb_released = 8

-- From whether the lines of the two buttons are low.
abbrev pub read_button_state : (left right : Bool) → ℕ
read_button_state left right =
    bit_or (if left then lmb_pressed else 0) (if right then rmb_pressed else 0)

-- The flag that one button adds to the event.
abbrev pub note : (change button pressed released : ℕ) → ℕ → ℕ
note change button pressed released flags =
    if has_bits change pressed
    then bit_or flags (if has_bits button pressed then pressed else released)
    else flags

unfoldable pub get_mouse_button : (left right : Bool) → MouseData → Bool × MouseData
get_mouse_button left right m =
    let button = read_button_state left right in
    let change = bit_and (bit_xor m.button button) (bit_or lmb_pressed rmb_pressed) in
    if change == 0 then (false, m) else (
      true,
      record m {
        button = button;
        changes =
            note change button rmb_pressed rmb_released
              (note change button lmb_pressed lmb_released m.changes);
      },
    )

unfoldable pub push_mouse_event : MouseData → MouseData
push_mouse_event m =
    let (cpu, events) =
      push_event_isr (mouse m.changes m.x.position m.y.position m.x.rel m.y.rel) m.cpu m.events in
    record m { cpu = cpu; events = events }

unfoldable pub mouse_int_handler : (joy0dat : ℕ) (left right : Bool) → MouseData → MouseData
mouse_int_handler joy0dat left right m0 =
    let m = record m0 { changes = 0 } in
    let (moved, m1) = get_mouse_move joy0dat m in
    let m2 = if moved then push_mouse_event m1 else m1 in
    let (changed, m3) = get_mouse_button left right m2 in
    if changed then push_mouse_event m3 else m3
