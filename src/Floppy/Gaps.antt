-- ===== src/Floppy/Gaps.antt =====
-- The loops of `FindSectorHeader` stop where the gap and the sync words end.
use demoscene.Prelude.{ℕ, zero, suc, ◌+◌, ◌<◌, ◌≡◌, ap, ◌∙◌, true, false, some, arith, ◌==◌}
use demoscene.Floppy.Drive.{dsk_sync}
use demoscene.Floppy.Decode.{skip_gap, skip_sync}

pub skip_gap_lem :
    (encoded : ℕ → ℕ) (fuel filler i : ℕ)
    → filler < fuel
    → ((k : ℕ) → k < filler → (encoded (i + k) == dsk_sync) ≡ false)
    → (encoded (i + filler) == dsk_sync) ≡ true
    → skip_gap fuel encoded i ≡ some (i + filler)
unfolding skip_gap
skip_gap_lem encoded zero filler i lt other stop = absurd (omega arith)
skip_gap_lem encoded (suc fuel) zero i lt other stop =
    let here : (encoded i == dsk_sync) ≡ true =
      ap (λ a. encoded a == dsk_sync) {x = i} (omega arith) ∙ stop in
    rw (skip_gap, here) (ap some (omega arith))
skip_gap_lem encoded (suc fuel) (suc filler) i lt other stop =
    let here : (encoded i == dsk_sync) ≡ false =
      ap (λ a. encoded a == dsk_sync) {x = i} {y = i + 0} (omega arith) ∙ other 0 (omega arith) in
    rw (skip_gap, here)
      (skip_gap_lem encoded fuel filler (i + 1) (omega arith)
          (λ k lt'.
            ap (λ a. encoded a == dsk_sync) {y = i + suc k} (omega arith)
            ∙ other (suc k) (omega arith))
          (ap (λ a. encoded a == dsk_sync) {y = i + suc filler} (omega arith) ∙ stop)
        ∙ ap some (omega arith))

pub skip_sync_lem :
    (encoded : ℕ → ℕ) (fuel syncs i : ℕ)
    → syncs < fuel
    → ((k : ℕ) → k < syncs → (encoded (i + k) == dsk_sync) ≡ true)
    → (encoded (i + syncs) == dsk_sync) ≡ false
    → skip_sync fuel encoded i ≡ some (i + syncs)
unfolding skip_sync
skip_sync_lem encoded zero syncs i lt same stop = absurd (omega arith)
skip_sync_lem encoded (suc fuel) zero i lt same stop =
    let here : (encoded i == dsk_sync) ≡ false =
      ap (λ a. encoded a == dsk_sync) {x = i} (omega arith) ∙ stop in
    rw (skip_sync, here) (ap some (omega arith))
skip_sync_lem encoded (suc fuel) (suc syncs) i lt same stop =
    let here : (encoded i == dsk_sync) ≡ true =
      ap (λ a. encoded a == dsk_sync) {x = i} {y = i + 0} (omega arith) ∙ same 0 (omega arith) in
    rw (skip_sync, here)
      (skip_sync_lem encoded fuel syncs (i + 1) (omega arith)
          (λ k lt'.
            ap (λ a. encoded a == dsk_sync) {y = i + suc k} (omega arith)
            ∙ same (suc k) (omega arith))
          (ap (λ a. encoded a == dsk_sync) {y = i + suc syncs} (omega arith) ∙ stop)
        ∙ ap some (omega arith))
