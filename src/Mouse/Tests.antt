-- ===== src/Mouse/Tests.antt =====
-- A mouse in a window of 320 columns.
use demoscene.Prelude.{◌+◌, ◌*◌, ◌≡◌, refl, true, false, arith}
use demoscene.Events.{initial}
use demoscene.Mouse.{
  Axis, MouseData, move_axis, mouse_int_handler, get_mouse_move, get_mouse_button, push_mouse_event,
}
use demoscene.Mouse.Moves.{InWindow, mouse_int_handler-InWindow}

-- The counter is near the end of its byte.
abbrev axis : Axis
axis = record { counter = 250; position = 100; rel = 0; low = 0; high = 319 }

abbrev start : MouseData
start = record {
  x = axis;
  y = axis;
  button = 0;
  changes = 0;
  cpu = record { ipl = 3; nest = 0 };
  events = initial;
}

axis-InWindow : InWindow axis
axis-InWindow = record {
  counter_byte = omega arith;
  ordered = omega arith;
  above = omega arith;
  below = omega arith;
}

mouse_int_handler-InWindow_example :
    let m' = mouse_int_handler (256 * 250 + 4) true false start in
    InWindow m'.x × InWindow m'.y × (m'.x.counter ≡ 4) × (m'.y.counter ≡ 250)
mouse_int_handler-InWindow_example =
    mouse_int_handler-InWindow (256 * 250 + 4) true false start axis-InWindow axis-InWindow

-- The y axis moves after the x axis has: `xrel` still is what x moved by before.
stale_xrel :
    (mouse_int_handler
      (256 * 0 + 255)
      false
      false
      (mouse_int_handler (256 * 250 + 255) false false start)).x.rel
    ≡ 5
unfolding mouse_int_handler get_mouse_move move_axis get_mouse_button push_mouse_event
stale_xrel = refl
