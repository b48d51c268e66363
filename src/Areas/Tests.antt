-- ===== src/Areas/Tests.antt =====
-- Clipping at a concrete area.
use demoscene.Prelude.{◌^◌, ◌-◌, ◌≡◌, refl, arith, true}
use demoscene.Areas.{Point2D, Box2D, Area2D, misses, cut_low, cut_high, cut, clip_area}
use demoscene.Areas.Clipping.{Clipped, clip_area-Clipped}

abbrev space : Box2D
space = record { min_x = 0; min_y = 0; max_x = 319; max_y = 255 }

abbrev pos : Point2D
pos = record { x = 2 ^ 16 - 10; y = 250 }

abbrev area : Area2D
area = record { x = 5; y = 7; w = 32; h = 20 }

clip_area_runs :
    clip_area space pos area
    ≡ (true, record { x = 0; y = 250 }, record { x = 15; y = 7; w = 22; h = 6 })
unfolding clip_area misses cut cut_high cut_low
clip_area_runs = refl

clip_area-Clipped_example : Clipped space pos area (clip_area space pos area)
clip_area-Clipped_example =
    clip_area-Clipped space pos area
      (record { low_pattern = omega arith; high_pattern = omega arith; in_order = omega arith })
      (record { low_pattern = omega arith; high_pattern = omega arith; in_order = omega arith })
      (record {
        pattern = omega arith;
        not_empty = omega arith;
        is_short = omega arith;
        ends = omega arith;
      })
      (record {
        pattern = omega arith;
        not_empty = omega arith;
        is_short = omega arith;
        ends = omega arith;
      })
