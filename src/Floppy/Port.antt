-- ===== src/Floppy/Port.antt =====
-- Single calls that move the heads, against what the drive does.
use demoscene.Prelude.{
  ℕ, ◌+◌, ◌-◌, ◌/◌, ◌%◌, ◌^◌, ◌≤◌, ◌<◌, ◌≡◌, refl, ◌∙◌, Bool, true, false, List, [], ◌∷◌, arith,
  ◌==◌, if◌then◌else◌, has_bits,
}
use demoscene.Floppy.Drive.{
  Effect, port, sleep, Drive, ntracks, dsk_step, dsk_direc, dsk_side, step_heads, update_port,
  heads_step_direction, change_disk_side,
}
use demoscene.Floppy.PortBits.{
  desel_bits, direc_of, inwards_bits, lower_bits, outwards_bits, pulse_bits, step_of, upper_bits,
}

-- What the drive does: while STEP is low it moves its heads by one cylinder, inwards if DIREC is low.
abbrev pub cylinder : List Effect → ℕ → ℕ
cylinder [] c = c
cylinder (sleep t ∷ past) c = cylinder past c
cylinder (port v ∷ past) c =
    let before = cylinder past c in
    if has_bits v dsk_step then before else if has_bits v dsk_direc then before - 1 else before + 1

-- The driver holds track `t` for the current one, and the heads are there: at cylinder `t / 2`, the upper
-- head (SIDE is low) for an odd track. They have started from cylinder `c`.
pub record OnTrack (c t : ℕ) (d : Drive) : Type 0 where
  pub known : d.track_num ≡ t
  pub in_range : t < ntracks
  pub byte : d.prb < 256
  pub no_step : has_bits d.prb dsk_step ≡ true
  pub place : cylinder d.trace c ≡ t / 2
  pub side : has_bits d.prb dsk_side ≡ (t % 2 == 0)

-- A call leaves the rest of the driver's state alone.
pub record SameBuffers (d d' : Drive) : Type 0 where
  pub pos_same : d'.pos ≡ d.pos
  pub buffer_same : d'.trk_in_buf ≡ d.trk_in_buf
  pub decoded_same : d'.decoded ≡ d.decoded
  pub encoded_same : d'.encoded ≡ d.encoded

pub step_heads-cylinder :
    (c : ℕ) (d : Drive)
    → d.prb < 256
    → step_of d.prb ≡ true
    → cylinder (step_heads d).trace c
      ≡ (if direc_of d.prb then cylinder d.trace c - 1 else cylinder d.trace c + 1)
unfolding step_heads
step_heads-cylinder c d byte idle =
    let pulse = pulse_bits d.prb byte in
    let desel = desel_bits d.prb byte in
    rw (idle, pulse.step_bit, pulse.direc_bit, desel.step_bit, idle) refl

pub update_port-cylinder :
    (c q : ℕ) (d : Drive)
    → has_bits q dsk_step ≡ true
    → q < 256
    → cylinder (update_port q d).trace c ≡ cylinder d.trace c
unfolding update_port
update_port-cylinder c q d idle byte = rw (idle, (desel_bits q byte).step_bit, idle) refl

-- The heads on their way: the driver's track number and the cylinder agree, and DIREC is as `out` says.
pub record Moving (c t : ℕ) (out : Bool) (d : Drive) : Type 0 where
  pub track : OnTrack c t d
  pub toward : direc_of d.prb ≡ out
  pub dir : d.head_dir ≡ (if out then 2 ^ 16 - 2 else 2)

pub step_in :
    (c t : ℕ) (d : Drive)
    → t + 2 < ntracks
    → Moving c t false d
    → Moving c (t + 2) false (step_heads d)
unfolding step_heads
step_in c t d room m =
    let o = m.track in
    record {
      track = record {
        known = omega (arith, o.known, m.dir);
        in_range = room;
        byte = o.byte;
        no_step = o.no_step;
        place = step_heads-cylinder c d o.byte o.no_step ∙ rw m.toward (omega (arith, o.place));
        side = o.side ∙ ground arith;
      };
      toward = m.toward;
      dir = m.dir;
    }

pub step_out :
    (c t : ℕ) (d : Drive) → 2 ≤ t → Moving c t true d → Moving c (t - 2) true (step_heads d)
unfolding step_heads
step_out c t d room m =
    let o = m.track in
    record {
      track = record {
        known = omega (arith, o.known, m.dir, o.in_range);
        in_range = omega (arith, o.in_range);
        byte = o.byte;
        no_step = o.no_step;
        place = step_heads-cylinder c d o.byte o.no_step ∙ rw m.toward (omega (arith, o.place));
        side = o.side ∙ ground arith;
      };
      toward = m.toward;
      dir = m.dir;
    }

pub turn_in : (c t : ℕ) (d : Drive) → OnTrack c t d → Moving c t false (heads_step_direction true d)
unfolding heads_step_direction update_port
turn_in c t d o =
    let b = inwards_bits d.prb o.byte in
    record {
      track = record {
        known = o.known;
        in_range = o.in_range;
        byte = b.is_byte;
        no_step = b.step_bit ∙ o.no_step;
        place = update_port-cylinder c _ d (b.step_bit ∙ o.no_step) b.is_byte ∙ o.place;
        side = b.side_bit ∙ o.side;
      };
      toward = b.direc_bit;
      dir = refl;
    }

pub turn_out :
    (c t : ℕ) (d : Drive) → OnTrack c t d → Moving c t true (heads_step_direction false d)
unfolding heads_step_direction update_port
turn_out c t d o =
    let b = outwards_bits d.prb o.byte in
    record {
      track = record {
        known = o.known;
        in_range = o.in_range;
        byte = b.is_byte;
        no_step = b.step_bit ∙ o.no_step;
        place = update_port-cylinder c _ d (b.step_bit ∙ o.no_step) b.is_byte ∙ o.place;
        side = b.side_bit ∙ o.side;
      };
      toward = b.direc_bit;
      dir = refl;
    }

pub turn-SameBuffers : (inwards : Bool) (d : Drive) → SameBuffers d (heads_step_direction inwards d)
unfolding heads_step_direction update_port
turn-SameBuffers true d = record {
  pos_same = refl;
  buffer_same = refl;
  decoded_same = refl;
  encoded_same = refl;
}
turn-SameBuffers false d = record {
  pos_same = refl;
  buffer_same = refl;
  decoded_same = refl;
  encoded_same = refl;
}

-- To the other track of the cylinder.
pub to_upper :
    (c t : ℕ) (d : Drive)
    → t % 2 ≡ 0
    → t + 1 < ntracks
    → OnTrack c t d
    → OnTrack c (t + 1) (change_disk_side true d)
unfolding change_disk_side update_port
to_upper c t d even room o =
    let b = upper_bits d.prb o.byte in
    record {
      known = omega (arith, o.known);
      in_range = room;
      byte = b.is_byte;
      no_step = b.step_bit ∙ o.no_step;
      place = update_port-cylinder c _ d (b.step_bit ∙ o.no_step) b.is_byte ∙ o.place ∙ omega arith;
      side = b.side_bit ∙ ground arith;
    }

pub to_lower :
    (c t : ℕ) (d : Drive) → t % 2 ≡ 1 → OnTrack c t d → OnTrack c (t - 1) (change_disk_side false d)
unfolding change_disk_side update_port
to_lower c t d odd o =
    let b = lower_bits d.prb o.byte in
    record {
      known = omega (arith, o.known, o.in_range);
      in_range = omega (arith, o.in_range);
      byte = b.is_byte;
      no_step = b.step_bit ∙ o.no_step;
      place = update_port-cylinder c _ d (b.step_bit ∙ o.no_step) b.is_byte ∙ o.place ∙ omega arith;
      side = b.side_bit ∙ ground arith;
    }

pub side-SameBuffers : (upper : Bool) (d : Drive) → SameBuffers d (change_disk_side upper d)
unfolding change_disk_side update_port
side-SameBuffers true d = record {
  pos_same = refl;
  buffer_same = refl;
  decoded_same = refl;
  encoded_same = refl;
}
side-SameBuffers false d = record {
  pos_same = refl;
  buffer_same = refl;
  decoded_same = refl;
  encoded_same = refl;
}
