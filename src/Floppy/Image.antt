-- ===== src/Floppy/Image.antt =====
-- `FloppyRead` reads the disk.
use demoscene.Prelude.{
  ℕ, zero, suc, ◌+◌, ◌-◌, ◌*◌, ◌/◌, ◌%◌, ◌^◌, ◌≤◌, ◌<◌, ◌≡◌, refl, sym, ap, ap₂, subst, ◌∙◌, inl,
  inr, ◌⊎◌, true, ◌||◌, ◌∷◌, ◌++◌, arith, leb, lt→ltb, ◌==◌, ==_iff, Bool-cases, Gives, gives,
  Gives-bind, has_bits, min, slice, slice_split,
}
use demoscene.Floppy.Drive.{Drive, dsk_step, dsk_side, nsectors, track_size, ntracks, floppy_size}
use demoscene.Floppy.Read.{ReadResult, byte_at, load_track, read_loop, floppy_read}
use demoscene.Floppy.Port.{OnTrack, cylinder}
use demoscene.Floppy.Heads.{Positioned, floppy_track_read-TrackRead}
use demoscene.Floppy.Mfm.{IsTrack, floppy_track_decode-TrackDecoded}

-- The disk whose track `t` holds the long words `image t`, byte by byte.
abbrev pub disk_byte : (image : ℕ → ℕ → ℕ) → ℕ → ℕ
disk_byte image a = byte_at (image (a / track_size)) (a % track_size)

module _ (raw image : ℕ → ℕ → ℕ) (c : ℕ) where
  -- The heads are where the driver takes them to be, and the decoded buffer holds the track that it
  -- is said to hold.
  pub record Ready (d : Drive) : Type 0 where
    pub positioned : Positioned raw c d
    pub cached :
        (t i : ℕ) → t < ntracks → d.trk_in_buf ≡ t → i < nsectors * 128 → d.decoded i ≡ image t i

  pub record Loaded (t : ℕ) (d d' : Drive) : Type 0 where
    pub ready : Ready d'
    pub in_buffer : d'.trk_in_buf ≡ t
    pub pos_kept : d'.pos ≡ d.pos

  still_on :
      (t : ℕ) (d1 d2 : Drive)
      → OnTrack c t d1
      → d2 ≡ record d1 { decoded = d2.decoded }
      → OnTrack c t (record d2 { trk_in_buf = t })
  still_on t d1 d2 o e = record {
    known = ap (λ x. x.track_num) e ∙ o.known;
    in_range = o.in_range;
    byte = subst (λ x. x < 256) (sym (ap (λ x. x.prb) e)) o.byte;
    no_step = ap (λ x. has_bits x.prb dsk_step) e ∙ o.no_step;
    place = ap (λ x. cylinder x.trace c) e ∙ o.place;
    side = ap (λ x. has_bits x.prb dsk_side) e ∙ o.side;
  }

  load_track-Loaded :
      (t : ℕ) (d : Drive)
      → t < ntracks
      → ((u : ℕ) → u < ntracks → IsTrack (raw u) (image u) u)
      → Ready d
      → Gives (Loaded t d) (load_track raw t d)
  unfolding load_track
  load_track-Loaded t d room tracks r = elim (Bool-cases (t == d.trk_in_buf)) [
    | inl here ↦
        rw here
          (gives (record { ready = r; in_buffer = sym ((==_iff _ _).0 here); pos_kept = refl }))
    | inr elsewhere ↦ rw elsewhere (
        Gives-bind (floppy_track_read-TrackRead raw c t d room r.positioned) λ d1 k.
          Gives-bind
            (floppy_track_decode-TrackDecoded (image t) t d1
              (subst (λ e. IsTrack e (image t) t) (sym k.arrived_data) (tracks t room)))
            λ (ok, d2) m. rw m.fine (
              gives (record {
                ready = record {
                  positioned = inr (
                    t,
                    still_on t d1 d2 k.on_track m.others,
                    ap (λ x. x.encoded) m.others ∙ k.arrived_data,
                  );
                  cached = λ u i lt e lt'. m.content_of i lt' ∙ ap (λ x. image x i) e;
                };
                in_buffer = refl;
                pos_kept = ap (λ x. x.pos) m.others ∙ k.pos_same;
              })))
  ]

  -- The part of a track that is in the buffer is that part of the disk.
  slice-track :
      (t off n : ℕ) (decoded : ℕ → ℕ)
      → off + n ≤ track_size
      → ((i : ℕ) → i < nsectors * 128 → decoded i ≡ image t i)
      → slice (byte_at decoded) off n ≡ slice (disk_byte image) (t * track_size + off) n
  slice-track t off zero decoded le h = refl
  slice-track t off (suc n) decoded le h =
      ap₂ (λ x l. x ∷ l) byte
        (slice-track t (suc off) n decoded (omega arith) h
          ∙ ap (λ a. slice (disk_byte image) a n) (omega arith))
    where
      track : (t * track_size + off) / track_size ≡ t
      track = omega arith

      place : (t * track_size + off) % track_size ≡ off
      place = omega arith

      byte : byte_at decoded off ≡ disk_byte image (t * track_size + off)
      byte =
          ap (λ x. x / 256 ^ (3 - off % 4) % 256) (h (off / 4) (omega arith))
          ∙ sym (ap₂ (λ x y. byte_at (image x) y) track place)

  moved_on : (t p : ℕ) (d : Drive) → OnTrack c t d → OnTrack c t (record d { pos = p })
  moved_on t p d o = record {
    known = o.known;
    in_range = o.in_range;
    byte = o.byte;
    no_step = o.no_step;
    place = o.place;
    side = o.side;
  }

  pub moved-Ready : (p : ℕ) (d : Drive) → Ready d → Ready (record d { pos = p })
  moved-Ready p d r = record { positioned = go r.positioned; cached = r.cached }
    where
      go : Positioned raw c d → Positioned raw c (record d { pos = p })
      go (inl (home, o)) = inl (home, moved_on 0 p (record d { track_num = 0 }) o)
      go (inr (t, o, e)) = inr (t, moved_on t p d o, e)

  -- There is fuel for the tracks that are left to read.
  abbrev Enough : (fuel left pos : ℕ) → Type 0
  Enough fuel left pos =
      (0 < fuel) × ((left ≡ 0) ⊎ (left + pos % track_size ≤ (fuel - 1) * track_size))

  pub record Copied (left : ℕ) (d : Drive) (r : ReadResult) : Type 0 where
    pub copied_bytes : r.copied ≡ slice (disk_byte image) d.pos left
    pub all_done : r.result ≡ 0
    pub moved : r.drive.pos ≡ d.pos + left
    pub still_ready : Ready r.drive

  read_loop-Copied :
      (fuel left : ℕ) (d : Drive)
      → ((u : ℕ) → u < ntracks → IsTrack (raw u) (image u) u)
      → Ready d
      → left + d.pos ≤ floppy_size
      → Enough fuel left d.pos
      → Gives (Copied left d) (read_loop raw fuel left d)
  unfolding read_loop
  read_loop-Copied zero left d tracks r fits (pos, e) = absurd (omega arith)
  read_loop-Copied (suc fuel) left d tracks r fits (pos, e) =
      elim (Bool-cases ((left == 0) || leb ntracks (d.pos / track_size))) [
        | inl done ↦
            let nothing : left ≡ 0 = ground arith in
            rw (read_loop, done)
              (gives (record {
                copied_bytes = ap (slice (disk_byte image) d.pos) (sym nothing);
                all_done = nothing;
                moved = omega arith;
                still_ready = r;
              }))
        | inr more ↦
            let track_ok : d.pos / track_size < ntracks = ground arith in
            rw (read_loop, more)
              (Gives-bind (load_track-Loaded (d.pos / track_size) d track_ok tracks r) λ d' l.
                let off : ℕ = d.pos % track_size in
                let size : ℕ = min left (track_size - off) in
                let place : d.pos / track_size * track_size + off ≡ d.pos = omega arith in
                let rest : Enough fuel (left - size) (d.pos + size) =
                  (ground arith, ground arith) in
                Gives-bind
                  (read_loop-Copied fuel (left - size) (record d' { pos = d.pos + size }) tracks
                    (moved-Ready (d.pos + size) d' l.ready) (omega arith) rest)
                  λ q k. gives (record {
                    copied_bytes =
                        ap₂ (λ x y. x ++ y)
                          (slice-track (d.pos / track_size) off size d'.decoded (omega arith)
                              (λ i lt.
                                l.ready.cached (d.pos / track_size) i track_ok l.in_buffer lt)
                            ∙ ap (λ a. slice (disk_byte image) a size) place)
                          k.copied_bytes
                        ∙ sym (
                            slice_split (disk_byte image) d.pos size (left - size) left
                              (omega arith));
                    all_done = k.all_done;
                    moved = k.moved ∙ omega arith;
                    still_ready = k.still_ready;
                  }))
      ]

  -- `FloppyRead` gives the next bytes of the disk, or all that are left, across the borders of the
  -- tracks. Its result is the number of bytes asked for, also at the end of the disk, where it has
  -- copied fewer.
  pub record FloppyReads (nbyte : ℕ) (d : Drive) (r : ReadResult) : Type 0 where
    pub data_read : r.copied ≡ slice (disk_byte image) d.pos (min nbyte (floppy_size - d.pos))
    pub reported : r.result ≡ nbyte
    pub advanced : r.drive.pos ≡ d.pos + min nbyte (floppy_size - d.pos)
    pub ready_again : Ready r.drive

  -- `FloppyRead` of fewer than 2 ^ 31 bytes, of a disk with well-formed tracks, from any place of it
  -- and in any state of the heads and of the buffer that the driver leaves, ends, does not crash and
  -- gives the bytes of the disk. Its result is the number of bytes asked for, also where the disk ends
  -- before.
  pub floppy_read-FloppyReads :
      (nbyte : ℕ) (d : Drive)
      → nbyte < 2 ^ 31
      → ((u : ℕ) → u < ntracks → IsTrack (raw u) (image u) u)
      → Ready d
      → d.pos ≤ floppy_size
      → Gives (FloppyReads nbyte d) (floppy_read raw nbyte d)
  unfolding floppy_read
  floppy_read-FloppyReads nbyte d short tracks r inside =
      let in_disk : leb d.pos floppy_size ≡ true = ground arith in
      rw (in_disk, lt→ltb nbyte (2 ^ 31) short)
        (Gives-bind
          (read_loop-Copied (ntracks + 1) (min nbyte (floppy_size - d.pos)) d tracks r (omega arith)
            (omega arith, inr (omega arith)))
          λ q k. gives (record {
            data_read = k.copied_bytes;
            reported = omega (arith, k.all_done);
            advanced = k.moved;
            ready_again = k.still_ready;
          }))
