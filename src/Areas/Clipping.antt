-- ===== src/Areas/Clipping.antt =====
-- `ClipArea` shows exactly the part of an area that is in the box.
use demoscene.Prelude.{
  ℕ, ◌+◌, ◌%◌, ◌^◌, ◌≡◌, refl, ap₂, ◌∙◌, Bool, false, ◌&&◌, ◌⊎◌, arith, inl, inr, Bool-cases,
}
use demoscene.Areas.{
  Point2D, Box2D, Area2D, short_le, covers, inside_area, misses, side_x, side_y, clip_area,
}
use demoscene.Areas.Cuts.{Range, Fits, cut-Cut, missed, swap_middle}

none_left :
    (a b c d : Bool) → ((a && c) ≡ false) ⊎ ((b && d) ≡ false) → false ≡ ((a && b) && (c && d))
none_left a b c d h = ground arith

-- An area of the screen, of the size of `area` at `pos`.
abbrev pub on_screen : Point2D → Area2D → Area2D
on_screen pos area = record { x = pos.x; y = pos.y; w = area.w; h = area.h }

-- A pixel of the box, whose borders belong to it.
abbrev pub in_box : (x y : ℕ) → Box2D → Bool
in_box x y space =
    (short_le space.min_x x && short_le x space.max_x)
    && (short_le space.min_y y && short_le y space.max_y)

pub record Clipped (space : Box2D) (pos : Point2D) (area : Area2D) (r : Bool × Point2D × Area2D)
    : Type 0 where
  pub visible :
      (x y : ℕ)
      → (r.0 && inside_area x y (on_screen r.1 r.2))
        ≡ (inside_area x y (on_screen pos area) && in_box x y space)
  pub source_x : (r.2.x + pos.x) % 2 ^ 16 ≡ (area.x + r.1.x) % 2 ^ 16
  pub source_y : (r.2.y + pos.y) % 2 ^ 16 ≡ (area.y + r.1.y) % 2 ^ 16

-- `ClipArea` of a non-empty area that ends within the range of a `short`, by a box in order: `InsideArea`
-- of what is left says yes for exactly the pixels of the area that are in the box, the result is
-- false only if there are none, and each pixel is still taken from the same place of the source.
pub clip_area-Clipped :
    (space : Box2D) (pos : Point2D) (area : Area2D)
    → Range space.min_x space.max_x
    → Range space.min_y space.max_y
    → Fits pos.x area.w
    → Fits pos.y area.h
    → Clipped space pos area (clip_area space pos area)
unfolding clip_area inside_area
clip_area-Clipped space pos area rx ry fx fy =
    let sx = side_x pos area in
    let sy = side_y pos area in
    elim (Bool-cases (misses space.min_x space.max_x sx)) [
      | inl miss ↦ rw miss (record {
        visible = λ x y.
            none_left (covers pos.x area.w x) (covers pos.y area.h y)
              (short_le space.min_x x && short_le x space.max_x)
              (short_le space.min_y y && short_le y space.max_y)
              (inl (missed space.min_x space.max_x sx fx miss x));
        source_x = refl;
        source_y = refl;
      })
      | inr meet_x ↦ elim (Bool-cases (misses space.min_y space.max_y sy)) [
        | inl miss ↦
            rw (meet_x, miss)
              (record {
                visible = λ x y.
                    none_left (covers pos.x area.w x) (covers pos.y area.h y)
                      (short_le space.min_x x && short_le x space.max_x)
                      (short_le space.min_y y && short_le y space.max_y)
                      (inr (missed space.min_y space.max_y sy fy miss y));
                source_x = refl;
                source_y = refl;
              })
        | inr meet_y ↦
            let cx = cut-Cut space.min_x space.max_x sx rx fx meet_x in
            let cy = cut-Cut space.min_y space.max_y sy ry fy meet_y in
            rw (meet_x, meet_y)
              (record {
                visible = λ x y.
                    ap₂ (λ a b. a && b) (cx.covered x) (cy.covered y)
                    ∙ swap_middle (covers pos.x area.w x)
                        (short_le space.min_x x && short_le x space.max_x) (covers pos.y area.h y)
                        (short_le space.min_y y && short_le y space.max_y);
                source_x = cx.same_source;
                source_y = cy.same_source;
              })
      ]
    ]
