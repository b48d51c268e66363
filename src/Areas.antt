-- ===== src/Areas.antt =====
-- Areas of the screen: lib/libgfx/ClipArea.c and lib/libgfx/InsideArea.c,
-- with the types of include/gfx.h. Coordinates and sizes are the bit patterns of `short`s; sums that
-- the source compares are taken in `int`.
pub mod Cuts
pub mod Clipping
mod Tests
use demoscene.Prelude.{
  ℕ, ◌+◌, ◌-◌, ◌%◌, ◌^◌, bit_or, Bool, true, false, ◌&&◌, ◌||◌, List, [], ◌∷◌, ltb, leb,
  if◌then◌else◌, short_key,
}

pub record Point2D : Type 0 where
  pub x : ℕ
  pub y : ℕ

pub record Box2D : Type 0 where
  pub min_x : ℕ
  pub min_y : ℕ
  pub max_x : ℕ
  pub max_y : ℕ

pub record Area2D : Type 0 where
  pub x : ℕ
  pub y : ℕ
  pub w : ℕ
  pub h : ℕ

-- `a <= b` of `short`s.
abbrev pub short_le : ℕ → ℕ → Bool
short_le a b = leb (short_key a) (short_key b)

-- One half of the test of `InsideArea`.
unfoldable pub covers : (start size : ℕ) → ℕ → Bool
covers start size p = short_le start p && short_le p ((start + size + 2 ^ 16 - 1) % 2 ^ 16)

unfoldable pub inside_area : (x y : ℕ) → Area2D → Bool
inside_area x y area = covers area.x area.w x && covers area.y area.h y

-- What `ClipArea` changes on one axis: `pos->x`, `area->x` and `area->w`, or the same of the other.
pub record Side : Type 0 where
  pub place : ℕ
  pub start : ℕ
  pub size : ℕ

-- `(posX + area->w <= minX) || (posX > maxX)`
unfoldable pub misses : (low high : ℕ) → Side → Bool
misses low high s =
    leb (short_key s.place + short_key s.size) (short_key low + 2 ^ 15)
    || ltb (short_key high) (short_key s.place)

unfoldable pub cut_low : (low : ℕ) → Side → Side
cut_low low s =
    let cut = (low + 2 ^ 16 - s.place) % 2 ^ 16 in
    if ltb (short_key s.place) (short_key low)
    then record {
      place = low;
      start = (s.start + cut) % 2 ^ 16;
      size = (s.size + 2 ^ 16 - cut) % 2 ^ 16;
    }
    else s

unfoldable pub cut_high : (high : ℕ) → Side → Side
cut_high high s =
    if ltb (short_key high + 2 ^ 15) (short_key s.place + short_key s.size)
    then record s { size = (high + 2 ^ 16 - s.place + 1) % 2 ^ 16 }
    else s

unfoldable pub cut : (low high : ℕ) → Side → Side
cut low high s = cut_high high (cut_low low s)

abbrev pub side_x : Point2D → Area2D → Side
side_x pos area = record { place = pos.x; start = area.x; size = area.w }

abbrev pub side_y : Point2D → Area2D → Side
side_y pos area = record { place = pos.y; start = area.y; size = area.h }

-- The two axes do not depend on each other, so each is cut at both ends at once.
unfoldable pub clip_area : Box2D → Point2D → Area2D → Bool × Point2D × Area2D
clip_area space pos area =
    let sx = side_x pos area in
    let sy = side_y pos area in
    if misses space.min_x space.max_x sx || misses space.min_y space.max_y sy
    then (false, pos, area)
    else (let cx = cut space.min_x space.max_x sx in
        let cy = cut space.min_y space.max_y sy in
        (
          true,
          record { x = cx.place; y = cy.place },
          record { x = cx.start; y = cy.start; w = cx.size; h = cy.size },
        ))
