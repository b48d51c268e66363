-- ===== src/Floppy/Heads.antt =====
-- `FloppyTrackRead` brings the heads of the drive to the track.
use demoscene.Prelude.{
  ℕ, zero, suc, ◌+◌, ◌-◌, ◌*◌, ◌/◌, ◌%◌, ◌<◌, ◌≡◌, refl, sym, ap, subst, ◌∙◌, inl, inr, ◌⊎◌,
  bit_xor, true, false, Option, some, ◌∷◌, arith, ltb, ◌==◌, ==_iff, Bool-cases, if◌then◌else◌,
  has_bits, short_key, Gives, gives, Gives-bind, Gives-mono, ◌>>=◌, xor_parity, and_one,
}
use demoscene.Floppy.Drive.{
  sleep, Drive, ntracks, minus_one, step_heads, heads_step_direction, change_disk_side, seek_heads,
  all_steps, move_heads, floppy_track_read, timer_ms,
}
use demoscene.Floppy.Port.{
  OnTrack, SameBuffers, Moving, step_in, step_out, turn_in, turn_out, turn-SameBuffers, to_upper,
  to_lower, side-SameBuffers,
}

abbrev same_buffers : (d : Drive) → SameBuffers d d
same_buffers d = record {
  pos_same = refl;
  buffer_same = refl;
  decoded_same = refl;
  encoded_same = refl;
}

SameBuffers-trans : {a b c : Drive} → SameBuffers a b → SameBuffers b c → SameBuffers a c
SameBuffers-trans f g = record {
  pos_same = g.pos_same ∙ f.pos_same;
  buffer_same = g.buffer_same ∙ f.buffer_same;
  decoded_same = g.decoded_same ∙ f.decoded_same;
  encoded_same = g.encoded_same ∙ f.encoded_same;
}

step_heads-SameBuffers : (d : Drive) → SameBuffers d (step_heads d)
unfolding step_heads
step_heads-SameBuffers d = record {
  pos_same = refl;
  buffer_same = refl;
  decoded_same = refl;
  encoded_same = refl;
}

Arrived : (c u : ℕ) → Drive → Drive → Type 0
Arrived c u d d' = OnTrack c u d' × SameBuffers d d'

seek_heads-stop :
    (fuel u : ℕ) (d : Drive) → (u == d.track_num) ≡ true → seek_heads (suc fuel) u d ≡ some d
unfolding seek_heads
seek_heads-stop fuel u d e = rw (e, seek_heads) refl

seek_heads-step :
    (fuel u : ℕ) (d : Drive)
    → (u == d.track_num) ≡ false
    → seek_heads (suc fuel) u d ≡ seek_heads fuel u (step_heads d)
unfolding seek_heads
seek_heads-step fuel u d other = rw (other, seek_heads) refl

seek_heads-here :
    (c u fuel : ℕ) (d : Drive) → OnTrack c u d → Gives (Arrived c u d) (seek_heads (suc fuel) u d)
unfolding Arrived
seek_heads-here c u fuel d o =
    rw (seek_heads-stop fuel u d (ground (arith, o.known))) (gives (o, same_buffers d))

after_step :
    (c u : ℕ) (d : Drive) (m : Option Drive)
    → Gives (Arrived c u (step_heads d)) m
    → Gives (Arrived c u d) m
unfolding Arrived
after_step c u d m g =
    Gives-mono g (λ d' (o, s). (o, SameBuffers-trans (step_heads-SameBuffers d) s))

seek_in :
    (c k fuel t u : ℕ) (d : Drive)
    → u ≡ t + 2 * k
    → k < fuel
    → u < ntracks
    → Moving c t false d
    → Gives (Arrived c u d) (seek_heads fuel u d)
seek_in c k zero t u d e lt room m = absurd (omega arith)
seek_in c zero (suc fuel) t u d e lt room m =
    let same_track : t ≡ u = omega arith in
    seek_heads-here c u fuel d (subst (λ x. OnTrack c x d) same_track m.track)
seek_in c (suc k) (suc fuel) t u d e lt room m =
    rw (seek_heads-step fuel u d (ground (arith, m.track.known))) (
      after_step c u d _ (
        seek_in c k fuel (t + 2) u (step_heads d) (omega arith) (omega arith) room
          (step_in c t d (omega arith) m)))

seek_out :
    (c k fuel t u : ℕ) (d : Drive)
    → t ≡ u + 2 * k
    → k < fuel
    → Moving c t true d
    → Gives (Arrived c u d) (seek_heads fuel u d)
seek_out c k zero t u d e lt m = absurd (omega arith)
seek_out c zero (suc fuel) t u d e lt m =
    let same_track : t ≡ u = omega arith in
    seek_heads-here c u fuel d (subst (λ x. OnTrack c x d) same_track m.track)
seek_out c (suc k) (suc fuel) t u d e lt m =
    rw (seek_heads-step fuel u d (ground (arith, m.track.known))) (
      after_step c u d _ (
        seek_out c k fuel (t - 2) u (step_heads d) (omega arith) (omega arith)
          (step_out c t d (omega arith) m)))

-- The heads move along one side.
along :
    (c t u : ℕ) (d : Drive)
    → (t + u) % 2 ≡ 0
    → u < ntracks
    → OnTrack c t d
    → Gives (Arrived c u d) (
        if u == d.track_num
        then some d
        else seek_heads all_steps u
            (heads_step_direction (ltb (short_key d.track_num) (short_key u)) d))
unfolding Arrived
along c t u d even room o = elim (Bool-cases (u == d.track_num)) [
  | inl here ↦ rw here (
      gives
        (subst (λ x. OnTrack c x d) (sym o.known ∙ sym ((==_iff _ _).0 here)) o, same_buffers d))
  | inr there ↦ elim (Bool-cases (ltb (short_key d.track_num) (short_key u))) [
    | inl below ↦
        rw (there, below)
          (Gives-mono
            (seek_in c ((u - t) / 2) all_steps t u (heads_step_direction true d)
              (ground (arith, o.known, o.in_range)) (omega arith) room (turn_in c t d o))
            (λ d' (o', s). (o', SameBuffers-trans (turn-SameBuffers true d) s)))
    | inr above ↦
        rw (there, above)
          (Gives-mono
            (seek_out c ((t - u) / 2) all_steps t u (heads_step_direction false d)
              (ground (arith, o.known, o.in_range)) (omega (arith, o.in_range)) (turn_out c t d o))
            (λ d' (o', s). (o', SameBuffers-trans (turn-SameBuffers false d) s)))
  ]
]

after :
    {a b : Drive} (c u : ℕ) (m : Option Drive)
    → SameBuffers a b
    → Gives (Arrived c u b) m
    → Gives (Arrived c u a) m
unfolding Arrived
after c u m s g = Gives-mono g (λ d' (o, t). (o, SameBuffers-trans s t))

move_heads-Arrived :
    (c t u : ℕ) (d : Drive) → u < ntracks → OnTrack c t d → Gives (Arrived c u d) (move_heads u d)
unfolding move_heads
move_heads-Arrived c t u d room o = elim (Bool-cases (has_bits (bit_xor u d.track_num) 1)) [
  | inr same_side ↦
      rw same_side (along c t u d (ground (arith, xor_parity u d.track_num, o.known)) room o)
  | inl other_side ↦
      let odd_sum : (u + t) % 2 ≡ 1 = ground (arith, xor_parity u d.track_num, o.known) in
      elim (Bool-cases (has_bits u 1)) [
        | inl upper ↦
            rw (other_side, upper)
              (after c u _ (side-SameBuffers true d) (
                along c (t + 1) u (change_disk_side true d) (ground (arith, and_one u)) room (
                  to_upper c t d (ground (arith, and_one u)) (ground (arith, and_one u, o.in_range))
                    o)))
        | inr lower ↦
            rw (other_side, lower)
              (after c u _ (side-SameBuffers false d) (
                along c (t - 1) u (change_disk_side false d) (ground (arith, and_one u)) room
                  (to_lower c t d (ground (arith, and_one u)) o)))
      ]
]

-- Either the heads have been brought home, and no track has been read, or the track that was read last
-- is under them.
abbrev pub Positioned : (raw : ℕ → ℕ → ℕ) (c : ℕ) → Drive → Type 0
Positioned raw c d =
    ((d.track_num ≡ minus_one) × OnTrack c 0 (record d { track_num = 0 }))
    ⊎ ((t : ℕ) × OnTrack c t d × (d.encoded ≡ raw t))

-- What reading track `t` comes to.
pub record TrackRead (raw : ℕ → ℕ → ℕ) (c t : ℕ) (d d' : Drive) : Type 0 where
  pub on_track : OnTrack c t d'
  pub arrived_data : d'.encoded ≡ raw t
  pub pos_same : d'.pos ≡ d.pos
  pub buffer_same : d'.trk_in_buf ≡ d.trk_in_buf
  pub decoded_same : d'.decoded ≡ d.decoded

fetched :
    (raw : ℕ → ℕ → ℕ) (c t : ℕ) (d : Drive) (m : Option Drive)
    → Gives (Arrived c t d) m
    → Gives
        (TrackRead raw c t d)
        (do d' ← m; some (record d' { encoded = raw t; trace = sleep (timer_ms 15) ∷ d'.trace }))
unfolding Arrived
fetched raw c t d m g = Gives-bind g λ d'' (o, s). gives (record {
  on_track = record {
    known = o.known;
    in_range = o.in_range;
    byte = o.byte;
    no_step = o.no_step;
    place = o.place;
    side = o.side;
  };
  arrived_data = refl;
  pos_same = s.pos_same;
  buffer_same = s.buffer_same;
  decoded_same = s.decoded_same;
})

-- `FloppyTrackRead` of any track, wherever the heads are, ends: it leaves the heads of the drive at the
-- cylinder and on the side of that track, the track's data in the buffer, and the rest of the
-- driver's state alone.
pub floppy_track_read-TrackRead :
    (raw : ℕ → ℕ → ℕ) (c t : ℕ) (d : Drive)
    → t < ntracks
    → Positioned raw c d
    → Gives (TrackRead raw c t d) (floppy_track_read raw t d)
unfolding floppy_track_read
floppy_track_read-TrackRead raw c t d room (inl (home, o)) =
    let away : (d.track_num == t) ≡ false = ground arith in
    let at_home : (d.track_num == minus_one) ≡ true = ground arith in
    rw (away, at_home)
      (fetched raw c t d _ (
        after c t _
          (record { pos_same = refl; buffer_same = refl; decoded_same = refl; encoded_same = refl })
          (move_heads-Arrived c 0 t (record d { track_num = 0 }) room o)))
floppy_track_read-TrackRead raw c t d room (inr (u, o, e)) = elim (Bool-cases (d.track_num == t)) [
  | inl here ↦ rw here (
      gives (record {
        on_track = subst (λ x. OnTrack c x d) (sym o.known ∙ (==_iff _ _).0 here) o;
        arrived_data = e ∙ ap raw (sym o.known ∙ (==_iff _ _).0 here);
        pos_same = refl;
        buffer_same = refl;
        decoded_same = refl;
      }))
  | inr there ↦
      let not_home : (d.track_num == minus_one) ≡ false = ground (arith, o.known, o.in_range) in
      rw (there, not_home) (fetched raw c t d _ (move_heads-Arrived c u t d room o))
]
