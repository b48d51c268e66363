-- ===== src/FileSys/Reading.antt =====
-- Reading and seeking in a file of the file system.
use demoscene.Prelude.{
  ℕ, ◌+◌, ◌-◌, ◌*◌, ◌%◌, ◌^◌, ◌≤◌, ◌<◌, ◌≡◌, refl, ap, ◌∙◌, inl, inr, ◌⊎◌, true, false, ◌||◌, arith,
  ltb, ◌==◌, ==_iff, Bool-cases, if◌then◌else◌, has_bits, min, slice, get_or-slice, get_or, Gives,
  gives, Gives-bind, bit_and,
}
use demoscene.FileSys.{
  File, FsResult, iof_err, fs_read, fs_seek, init_file_sys, failed, is_negative, sector_size,
  seek_set, seek_cur, seek_end, seek_to, iof_eof, eio, einval,
}
use demoscene.FileSys.Disk.{Device, Holds}

-- The file lies on the disk, its position within it, and no error is noted.
pub record IsOpen (size : ℕ) (f : File) : Type 0 where
  pub within : f.pos ≤ f.size
  pub on_disk : f.start + f.size ≤ size
  pub no_error : has_bits f.flags iof_err ≡ false

module _ {D : Type 0} (dev : Device D) (disk : ℕ → ℕ) (size : ℕ) (at : ℕ → D → Type 0)
    (holds : Holds dev disk size at) where
  pub record FsReads (nbyte : ℕ) (f : File) (r : FsResult D) : Type 0 where
    pub data_read : r.copied ≡ slice disk (f.start + f.pos) (min nbyte (f.size - f.pos))
    pub reported : r.result ≡ min nbyte (f.size - f.pos)
    pub advanced : r.file ≡ record f { pos = f.pos + min nbyte (f.size - f.pos) }
    pub device_ok : at (f.start + f.pos + min nbyte (f.size - f.pos)) r.device

  -- `FsRead` gives the next bytes of the file, or all that are left, reports their number, and moves the
  -- position behind them, whatever place of the device was read before.
  pub fs_read-FsReads :
      (nbyte p : ℕ) (f : File) (d : D)
      → IsOpen size f
      → at p d
      → Gives (FsReads nbyte f) (fs_read dev nbyte f d)
  unfolding fs_read
  fs_read-FsReads nbyte p f d o ready =
      let n : ℕ = min nbyte (f.size - f.pos) in
      let left : min nbyte ((f.size + 2 ^ 32 - f.pos) % 2 ^ 32) ≡ n =
        omega (arith, o.within, o.on_disk, holds.small) in
      let place : (f.pos + f.start) % 2 ^ 32 ≡ f.start + f.pos =
        omega (arith, o.within, o.on_disk, holds.small) in
      rw (o.no_error, left, place)
        (Gives-bind
          (holds.read_ok (f.start + f.pos) n _
            (holds.seek_ok p (f.start + f.pos) d ready (omega (arith, o.within, o.on_disk)))
            (omega (arith, o.within, o.on_disk)))
          λ r (bytes, count, behind). gives (record {
            data_read = bytes;
            reported = count;
            advanced = moved r.result count;
            device_ok = behind;
          }))
    where
      moved :
          (k : ℕ)
          → k ≡ min nbyte (f.size - f.pos)
          → (if failed k then f else record f { pos = (f.pos + k) % 2 ^ 32 })
            ≡ record f { pos = f.pos + min nbyte (f.size - f.pos) }
      moved k e =
          let fine : failed k ≡ false = ground (arith, e, o.within, o.on_disk, holds.small) in
          rw fine
            (ap (λ x. record f { pos = x }) (omega (arith, e, o.within, o.on_disk, holds.small)))

  -- `InitFileSys`: the directory in memory is what the device holds behind its two length bytes at sector
  -- 2, followed by zeros.
  pub init_file_sys_lem :
      (p len : ℕ) (d : D)
      → at p d
      → disk (2 * sector_size) * 256 + disk (2 * sector_size + 1) ≡ len
      → 2 * sector_size + 2 + len ≤ size
      → Gives
          (λ r.
            ((i : ℕ) → r.0 i ≡ (if ltb i len then disk (2 * sector_size + 2 + i) else 0))
            × at (2 * sector_size + 2 + len) r.1)
          (init_file_sys dev d)
  unfolding init_file_sys
  init_file_sys_lem p len d ready e room =
      Gives-bind (holds.read_ok 1024 2 _ (holds.seek_ok p 1024 d ready (omega arith)) (omega arith))
        λ r (two, count, behind).
          let length_read : get_or r.copied 0 0 * 256 + get_or r.copied 1 0 ≡ len =
            ap (λ l. get_or l 0 0 * 256 + get_or l 1 0) two ∙ e in
          rw length_read (
            Gives-bind (holds.read_ok 1026 len r.device behind (omega arith)) λ q (bytes, _, after).
              gives ((λ i. ap (λ l. get_or l i 0) bytes ∙ get_or-slice disk 1026 len i), after))

-- The file at another place, with the end-of-file flag off.
abbrev pub at_place : ℕ → File → File
at_place place f = record f { pos = place; flags = bit_and f.flags (2 ^ 16 - 1 - iof_eof) }

-- The place that a seek is for. `offset` is a signed number of 32 bits; the end is counted
-- backwards, unlike `lseek`.
abbrev pub Aims : (offset whence : ℕ) → File → ℕ → Type 0
Aims offset whence f place =
    ((whence ≡ seek_set) × (place ≡ offset))
    ⊎ (((whence ≡ seek_cur) × (offset < 2 ^ 31) × (place ≡ f.pos + offset))
        ⊎ (((whence ≡ seek_cur) × (2 ^ 31 ≤ offset) × (place + (2 ^ 32 - offset) ≡ f.pos))
            ⊎ ((whence ≡ seek_end) × (place + offset ≡ f.size))))

-- What a seek comes to: with an error noted it fails and changes nothing; or the place is in the
-- file, and is the new position and the result; or no place of the file is aimed at, the result is
-- EINVAL, and only the flag of the end of the file changes.
abbrev pub Sought : (offset whence : ℕ) → File → ℕ × File → Type 0
Sought offset whence f r =
    ((has_bits f.flags iof_err ≡ true) × (r ≡ (eio, f)))
    ⊎ ((has_bits f.flags iof_err ≡ false)
        × (((place : ℕ) × (place ≤ f.size)
              × Aims offset whence f place
              × (r ≡ (place, at_place place f)))
            ⊎ (((place : ℕ) → place ≤ f.size → ¬ Aims offset whence f place)
                × (r ≡ (einval, at_place f.pos f)))))

module _ (offset whence : ℕ) (f : File) (word : offset < 2 ^ 32) (small : f.size < 2 ^ 31)
    (inside : f.pos ≤ f.size) where
  seek_to-Sought :
      (target : ℕ)
      → has_bits f.flags iof_err ≡ false
      → (target ≤ f.size → Aims offset whence f target)
      → ((place : ℕ) → place ≤ f.size → Aims offset whence f place → place ≡ target)
      → fs_seek offset whence f ≡ seek_to target (at_place f.pos f)
      → Sought offset whence f (fs_seek offset whence f)
  seek_to-Sought target fine aimed only e =
      elim (Bool-cases (is_negative target || ltb f.size target)) [
        | inl out ↦
            let failed_now : seek_to target (at_place f.pos f) ≡ (einval, at_place f.pos f) =
              rw out refl in
            inr (fine, inr (λ place le a. out_of (only place le a) le out, e ∙ failed_now))
        | inr ok ↦
            let le : target ≤ f.size = ground arith in
            let moved : seek_to target (at_place f.pos f) ≡ (target, at_place target f) =
              rw ok refl in
            inr (fine, inl (target, le, aimed le, e ∙ moved))
      ]
    where
      out_of :
          {place : ℕ}
          → place ≡ target
          → place ≤ f.size
          → (is_negative target || ltb f.size target) ≡ true
          → ⊥
      out_of same le out = ground (arith, same, le)

  fs_seek_cur :
      has_bits f.flags iof_err ≡ false
      → whence ≡ seek_cur
      → Sought offset whence f (fs_seek offset whence f)
  unfolding fs_seek
  fs_seek_cur fine w =
      seek_to-Sought ((offset + f.pos) % 2 ^ 32) fine
        (λ le. elim (Bool-cases (ltb offset (2 ^ 31))) [
          | inl plus ↦ inr (inl (w, ground arith, ground (arith, le)))
          | inr minus ↦ inr (inr (inl (w, ground arith, ground (arith, le))))
        ])
        (λ place le a. elim a [
          | inl (s, e) ↦ absurd (omega (arith, s, w))
          | inr (inl (_, lt, e)) ↦ omega arith
          | inr (inr (inl (_, ge, e))) ↦ omega arith
          | inr (inr (inr (s, e))) ↦ absurd (omega (arith, s, w))
        ])
        (rw (fine, w) refl)

  fs_seek_end :
      has_bits f.flags iof_err ≡ false
      → whence ≡ seek_end
      → Sought offset whence f (fs_seek offset whence f)
  unfolding fs_seek
  fs_seek_end fine w =
      seek_to-Sought ((f.size + 2 ^ 32 - offset) % 2 ^ 32) fine
        (λ le. inr (inr (inr (w, omega arith))))
        (λ place le a. elim a [
          | inl (s, e) ↦ absurd (omega (arith, s, w))
          | inr (inl (s, lt, e)) ↦ absurd (omega (arith, s, w))
          | inr (inr (inl (s, ge, e))) ↦ absurd (omega (arith, s, w))
          | inr (inr (inr (_, e))) ↦ omega arith
        ])
        (rw (fine, w) refl)

  fs_seek_set :
      has_bits f.flags iof_err ≡ false
      → whence ≡ seek_set
      → Sought offset whence f (fs_seek offset whence f)
  unfolding fs_seek
  fs_seek_set fine w =
      seek_to-Sought offset fine (λ le. inl (w, refl))
        (λ place le a. elim a [
          | inl (_, e) ↦ e
          | inr (inl (s, lt, e)) ↦ absurd (omega (arith, s, w))
          | inr (inr (inl (s, ge, e))) ↦ absurd (omega (arith, s, w))
          | inr (inr (inr (s, e))) ↦ absurd (omega (arith, s, w))
        ])
        (rw (fine, w) refl)

  no_aim :
      (whence == seek_set) ≡ false
      → (whence == seek_cur) ≡ false
      → (whence == seek_end) ≡ false
      → (place : ℕ) → ¬ Aims offset whence f place
  no_aim ns nc ne place a = elim a [
    | inl (s, e) ↦ ground arith
    | inr (inl (s, lt, e)) ↦ ground arith
    | inr (inr (inl (s, ge, e))) ↦ ground arith
    | inr (inr (inr (s, e))) ↦ ground arith
  ]

-- `FsSeek` of a file of fewer than 2 ^ 31 bytes with its position in it, for any offset and any
-- `whence`. With an error noted it returns EIO and changes nothing. Otherwise, if the offset leads to
-- a place of the file, from the start, from the position, or backwards from the end, that is the
-- new position and the result; if it does not, or `whence` is unknown, the result is EINVAL and the
-- position is as before.
pub fs_seek-Sought :
    (offset whence : ℕ) (f : File)
    → offset < 2 ^ 32
    → f.size < 2 ^ 31
    → f.pos ≤ f.size
    → Sought offset whence f (fs_seek offset whence f)
unfolding fs_seek
fs_seek-Sought offset whence f word small inside = elim (Bool-cases (has_bits f.flags iof_err)) [
  | inl err ↦ let e : fs_seek offset whence f ≡ (eio, f) = rw err refl in inl (err, e)
  | inr fine ↦ elim (Bool-cases (whence == seek_cur)) [
    | inl cur ↦ fs_seek_cur offset whence f word small inside fine ((==_iff _ _).0 cur)
    | inr not_cur ↦ elim (Bool-cases (whence == seek_end)) [
      | inl end ↦ fs_seek_end offset whence f word small inside fine ((==_iff _ _).0 end)
      | inr not_end ↦ elim (Bool-cases (whence == seek_set)) [
        | inl set ↦ fs_seek_set offset whence f word small inside fine ((==_iff _ _).0 set)
        | inr other ↦
            let e : fs_seek offset whence f ≡ (einval, at_place f.pos f) =
              rw (fine, not_cur, not_end, other) refl in
            inr (
              fine,
              inr (
                λ place le. no_aim offset whence f word small inside other not_cur not_end place,
                e,
              ),
            )
      ]
    ]
  ]
]
