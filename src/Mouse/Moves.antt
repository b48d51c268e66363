-- ===== src/Mouse/Moves.antt =====
-- Where the mouse handler leaves the pointer.
use demoscene.Prelude.{
  ℕ, ◌+◌, ◌-◌, ◌≤◌, ◌<◌, ◌/◌, ◌%◌, ◌^◌, ◌≡◌, refl, ◌∙◌, inl, inr, Bool, true, false, arith, ◌==◌,
  ==_iff, Bool-cases, if◌then◌else◌, short_key,
}
use demoscene.Mouse.{
  Axis, MouseData, extend, within, move_axis, get_mouse_move, get_mouse_button, push_mouse_event,
  mouse_int_handler,
}

-- The pointer is between the borders of the window, and the counter is a byte.
pub record InWindow (a : Axis) : Type 0 where
  pub counter_byte : a.counter < 256
  pub ordered : short_key a.low ≤ short_key a.high
  pub above : short_key a.low ≤ short_key a.position
  pub below : short_key a.position ≤ short_key a.high

within_lem :
    (low high place : ℕ)
    → short_key low ≤ short_key high
    → (short_key low ≤ short_key (within low high place))
      × (short_key (within low high place) ≤ short_key high)
unfolding within
within_lem low high place h = ground arith

move_axis-InWindow : (new : ℕ) (a : Axis) → new < 256 → InWindow a → InWindow (move_axis new a).1
unfolding move_axis
move_axis-InWindow new a byte w = elim (Bool-cases ((new + 256 - a.counter) % 256 == 0)) [
  | inl still ↦ rw still w
  | inr moved ↦
      let b =
        within_lem a.low a.high ((a.position + extend ((new + 256 - a.counter) % 256)) % 2 ^ 16)
          w.ordered in
      rw moved (record { counter_byte = byte; ordered = w.ordered; above = b.0; below = b.1 })
]

move_axis-counter :
    (new : ℕ) (a : Axis) → new < 256 → InWindow a → (move_axis new a).1.counter ≡ new
unfolding move_axis
move_axis-counter new a byte w = elim (Bool-cases ((new + 256 - a.counter) % 256 == 0)) [
  | inl still ↦ rw still (stands w.counter_byte ((==_iff _ _).0 still))
  | inr moved ↦ rw moved refl
]
  where
    stands : a.counter < 256 → (new + 256 - a.counter) % 256 ≡ 0 → a.counter ≡ new
    stands h e = omega arith

pushed-x : (m : MouseData) → (push_mouse_event m).x ≡ m.x
unfolding push_mouse_event
pushed-x m = refl

pushed-y : (m : MouseData) → (push_mouse_event m).y ≡ m.y
unfolding push_mouse_event
pushed-y m = refl

button-x : (left right : Bool) (m : MouseData) → (get_mouse_button left right m).1.x ≡ m.x
unfolding get_mouse_button
button-x left right m = ground arith

button-y : (left right : Bool) (m : MouseData) → (get_mouse_button left right m).1.y ≡ m.y
unfolding get_mouse_button
button-y left right m = ground arith

if-field :
    {B : Type 0} (f : MouseData → B) (b : Bool) (m : MouseData)
    → f (push_mouse_event m) ≡ f m
    → f (if b then push_mouse_event m else m) ≡ f m
if-field f true m e = e
if-field f false m e = refl

handled-x :
    (joy0dat : ℕ) (left right : Bool) (m : MouseData)
    → (mouse_int_handler joy0dat left right m).x ≡ (move_axis (joy0dat % 256) m.x).1
unfolding mouse_int_handler get_mouse_move
handled-x joy0dat left right m =
    let m1 = (get_mouse_move joy0dat (record m { changes = 0 })).1 in
    let moved = (get_mouse_move joy0dat (record m { changes = 0 })).0 in
    let m2 = if moved then push_mouse_event m1 else m1 in
    let r = get_mouse_button left right m2 in
    if-field (λ d. d.x) r.0 r.1 (pushed-x r.1)
    ∙ button-x left right m2
    ∙ if-field (λ d. d.x) moved m1 (pushed-x m1)

handled-y :
    (joy0dat : ℕ) (left right : Bool) (m : MouseData)
    → (mouse_int_handler joy0dat left right m).y ≡ (move_axis (joy0dat / 256 % 256) m.y).1
unfolding mouse_int_handler get_mouse_move
handled-y joy0dat left right m =
    let m1 = (get_mouse_move joy0dat (record m { changes = 0 })).1 in
    let moved = (get_mouse_move joy0dat (record m { changes = 0 })).0 in
    let m2 = if moved then push_mouse_event m1 else m1 in
    let r = get_mouse_button left right m2 in
    if-field (λ d. d.y) r.0 r.1 (pushed-y r.1)
    ∙ button-y left right m2
    ∙ if-field (λ d. d.y) moved m1 (pushed-y m1)

-- Whatever the counters and the buttons read, the mouse handler keeps the pointer within the window,
-- and the counters that it keeps are the two bytes that it has read.
pub mouse_int_handler-InWindow :
    (joy0dat : ℕ) (left right : Bool) (m : MouseData)
    → InWindow m.x
    → InWindow m.y
    → let m' = mouse_int_handler joy0dat left right m in
      InWindow m'.x
      × InWindow m'.y
      × (m'.x.counter ≡ joy0dat % 256)
      × (m'.y.counter ≡ joy0dat / 256 % 256)
mouse_int_handler-InWindow joy0dat left right m wx wy =
    rw (handled-x joy0dat left right m, handled-y joy0dat left right m)
      (
        move_axis-InWindow (joy0dat % 256) m.x (omega arith) wx,
        move_axis-InWindow (joy0dat / 256 % 256) m.y (omega arith) wy,
        move_axis-counter (joy0dat % 256) m.x (omega arith) wx,
        move_axis-counter (joy0dat / 256 % 256) m.y (omega arith) wy,
      )

rel_of : (c d : ℕ) → c < 256 → d < 256 → ((c + d) % 256 + 256 - c) % 256 ≡ d
rel_of c d hc hd = omega arith

-- A counter that has gone forwards by less than 128, round the end of its byte or not, moves the
-- pointer by as much, if that is within the window.
pub move_axis-forwards :
    (a : Axis) (d : ℕ)
    → InWindow a
    → d < 128
    → short_key a.position + d ≤ short_key a.high
    → short_key (move_axis ((a.counter + d) % 256) a).1.position ≡ short_key a.position + d
unfolding move_axis within
move_axis-forwards a d w small room =
    rw (rel_of a.counter d w.counter_byte (omega arith)) (ground arith)

-- A counter that has gone backwards by at most 128, round the end of its byte or not, moves the
-- pointer back by as much, if that is within the window.
pub move_axis-backwards :
    (a : Axis) (d : ℕ)
    → InWindow a
    → 0 < d
    → d ≤ 128
    → short_key a.low + d ≤ short_key a.position
    → short_key (move_axis ((a.counter + (256 - d)) % 256) a).1.position + d ≡ short_key a.position
unfolding move_axis within
move_axis-backwards a d w pos small room =
    rw (rel_of a.counter (256 - d) w.counter_byte (omega arith)) (ground arith)
