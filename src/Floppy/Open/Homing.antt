-- ===== src/Floppy/Open/Homing.antt =====
-- `FloppyOpen` leaves the drive ready.
use demoscene.Prelude.{
  ℕ, zero, suc, ◌+◌, ◌-◌, ◌<◌, ◌≡◌, refl, sym, ap, ◌∙◌, inl, inr, Bool, true, false, List, arith,
  ◌==◌, ==_iff, Bool-cases, if◌then◌else◌, has_bits, bit_or, Gives, gives, Gives-bind,
}
use demoscene.Floppy.Drive.{
  Effect, Drive, dsk_step, dsk_direc, dsk_side, minus_one, step_heads, heads_step_direction,
  change_disk_side, update_port, clear_byte,
}
use demoscene.Floppy.Port.{cylinder, step_heads-cylinder, update_port-cylinder}
use demoscene.Floppy.PortBits.{inwards_bits, lower_bits}
use demoscene.Floppy.Image.{Ready}
use demoscene.Floppy.Open.{floppy_motor_on, home_heads, new_drive, floppy_open}

-- On the way out: DIREC is high, and so is STEP between two steps.
record Outwards (p : ℕ) (d : Drive) : Type 0 where
  port_is : d.prb ≡ p
  byte : p < 256
  idle : has_bits p dsk_step ≡ true
  out : has_bits p dsk_direc ≡ true

step_heads-prb : (d : Drive) → (step_heads d).prb ≡ d.prb
unfolding step_heads
step_heads-prb d = refl

module _ (sensor : List Effect → Bool) (c : ℕ) where
  -- What homing comes to.
  record Homed (p : ℕ) (d : Drive) : Type 0 where
    outwards : Outwards p d
    at_home : cylinder d.trace c ≡ 0

  home_heads-Homed :
      (p fuel : ℕ) (d : Drive)
      → ((trace : List Effect) → sensor trace ≡ (cylinder trace c == 0))
      → cylinder d.trace c < fuel
      → Outwards p d
      → Gives (Homed p) (home_heads sensor fuel d)
  unfolding home_heads
  home_heads-Homed p zero d h lt o = absurd (omega arith)
  home_heads-Homed p (suc fuel) d h lt o = elim (Bool-cases (sensor d.trace)) [
    | inl home ↦
        rw (home_heads, home)
          (gives (record { outwards = o; at_home = (==_iff _ _).0 (sym (h d.trace) ∙ home) }))
    | inr away ↦
        let far : (cylinder d.trace c == 0) ≡ false = sym (h d.trace) ∙ away in
        let nearer : cylinder (step_heads d).trace c ≡ cylinder d.trace c - 1 =
          step_heads-cylinder c d (rw o.port_is o.byte) (rw o.port_is o.idle)
          ∙ ap (λ b. if b then cylinder d.trace c - 1 else cylinder d.trace c + 1)
              (ap (λ q. has_bits q dsk_direc) o.port_is ∙ o.out) in
        rw (home_heads, away)
          (home_heads-Homed p fuel (step_heads d) h (ground arith) (record {
            port_is = step_heads-prb d ∙ o.port_is;
            byte = o.byte;
            idle = o.idle;
            out = o.out;
          }))
  ]

  -- The last calls of `FloppyOpen`.
  positioned :
      (raw image : ℕ → ℕ → ℕ) (p : ℕ) (d : Drive)
      → Homed p d
      → Ready raw image c (record (change_disk_side false (heads_step_direction true d)) {
        track_num = minus_one;
        trk_in_buf = minus_one;
      })
  unfolding heads_step_direction change_disk_side update_port
  positioned raw image p d h =
      let o = h.outwards in
      let byte : d.prb < 256 = omega (arith, o.port_is, o.byte) in
      let idle : has_bits d.prb dsk_step ≡ true =
        ap (λ q. has_bits q dsk_step) o.port_is ∙ o.idle in
      let turned = inwards_bits d.prb byte in
      let p1 = clear_byte d.prb dsk_direc in
      let idle1 = turned.step_bit ∙ idle in
      let lowered = lower_bits p1 turned.is_byte in
      let idle2 = lowered.step_bit ∙ idle1 in
      record {
        positioned = inl (
          refl,
          record {
            known = refl;
            in_range = omega arith;
            byte = lowered.is_byte;
            no_step = idle2;
            place =
                update_port-cylinder c (bit_or p1 dsk_side) (heads_step_direction true d) idle2
                  lowered.is_byte
                ∙ update_port-cylinder c p1 d idle1 turned.is_byte
                ∙ h.at_home;
            side = lowered.side_bit;
          },
        );
        cached = λ t i lt e lt'. absurd (omega (arith, lt, e));
      }

  -- `FloppyOpen` of drive 0 to 3, wherever its heads are, brings them to cylinder 0 if the fuel
  -- covers the steps to it, and leaves the state of the driver ready for reading, with
  -- nothing in the buffer.
  pub floppy_open-Ready :
      (raw image : ℕ → ℕ → ℕ) (fuel num : ℕ)
      → ((trace : List Effect) → sensor trace ≡ (cylinder trace c == 0))
      → c < fuel
      → num < 4
      → Gives (Ready raw image c) (floppy_open sensor fuel num)
  unfolding floppy_open new_drive floppy_motor_on heads_step_direction update_port
  floppy_open-Ready raw image fuel zero h lt ok =
      Gives-bind
        (home_heads-Homed _ fuel _ h lt
          (record { port_is = refl; byte = omega arith; idle = refl; out = refl }))
        λ d k. gives (positioned raw image _ d k)
  floppy_open-Ready raw image fuel (suc zero) h lt ok =
      Gives-bind
        (home_heads-Homed _ fuel _ h lt
          (record { port_is = refl; byte = omega arith; idle = refl; out = refl }))
        λ d k. gives (positioned raw image _ d k)
  floppy_open-Ready raw image fuel (suc (suc zero)) h lt ok =
      Gives-bind
        (home_heads-Homed _ fuel _ h lt
          (record { port_is = refl; byte = omega arith; idle = refl; out = refl }))
        λ d k. gives (positioned raw image _ d k)
  floppy_open-Ready raw image fuel (suc (suc (suc zero))) h lt ok =
      Gives-bind
        (home_heads-Homed _ fuel _ h lt
          (record { port_is = refl; byte = omega arith; idle = refl; out = refl }))
        λ d k. gives (positioned raw image _ d k)
  floppy_open-Ready raw image fuel (suc (suc (suc (suc n)))) h lt ok = absurd (omega arith)
