-- ===== src/Timers/Waiting.antt =====
-- Waiting for a timer, and its interrupt: `SetupTimer`, `WaitTimerGeneric`, `CIATimerHandler` and
-- `NotifyTimeout` of system/drivers/cia-timer.c.
use demoscene.Prelude.{
  ℕ, ◌*◌, ◌%◌, ◌^◌, ◌<◌, ◌≡◌, ◌≢◌, refl, ap, ◌∙◌, inl, inr, true, false, Option, none, some, bit_or,
  List, [], ◌∷◌, arith, ◌==◌, ==_iff, Bool-cases, if◌then◌else◌, has_bits, count,
}
use demoscene.Keyboard.{Cia, icrf_setclr, write_icr, sample_icr}
use demoscene.Tasks.{is_ready, Sched, Outcome, returns, crash, disable, task_wait, task_notify_isr}
use demoscene.Tasks.Owners.{IsValid}
use demoscene.Tasks.Woken.{hits, events_of}
use demoscene.Tasks.Notify.{among}
use demoscene.Tasks.Switch.{Ends, Ends-mono}
use demoscene.Tasks.Wake.{Promised, task_notify_isr-Woken}
use demoscene.Timers.{Registers, icrf_tb, load_timer}

abbrev pub icrf_ta : ℕ
icrf_ta = 1

abbrev pub crf_runmode : ℕ
crf_runmode = 8

-- Timers A have even numbers.
abbrev pub icr_of : ℕ → ℕ
icr_of num = if num % 2 == 0 then icrf_ta else icrf_tb

abbrev pub event_of : ℕ → ℕ
event_of num = icr_of num * 2 ^ 14

unfoldable pub setup_timer : (num delay flags : ℕ) → Cia → Registers → Cia × Registers
setup_timer num delay flags cia regs =
    let (off, quiet) = write_icr (icr_of num) cia in
    let (on, armed) = write_icr (bit_or icrf_setclr (icr_of num)) quiet in
    (armed, load_timer (icr_of num) delay flags regs)

-- The busy wait: the list is what the real register reads, one element for each turn, and the
-- result is what is left of it.
unfoldable pub spin : (icr : ℕ) → List ℕ → Cia → Option (List ℕ × Cia)
spin icr [] cia = none
spin icr (hw ∷ hws) cia =
    let (sampled, cia') = sample_icr hw icr cia in
    let later = spin icr hws cia' in if sampled == 0 then later else some (hws, cia')

-- `WaitTimerGeneric` up to its `TaskWait`, for a task that sleeps: `absent` is as in `task_wait`.
unfoldable pub wait_timer :
    (absent : ℕ → List ℕ → List ℕ) (waitpt num delay : ℕ)
    → Cia
    → Registers
    → Sched
    → (Cia × Registers) × Outcome
wait_timer absent waitpt num delay cia regs s = (
  setup_timer num delay crf_runmode cia regs,
  if s.ipl == 0 then task_wait absent waitpt (event_of num) (disable s) else crash,
)

-- The interrupt of a timer whose timeout is `NotifyTimeout`.
unfoldable pub timer_handler : (hw num : ℕ) → Cia → Sched → Cia × Outcome
timer_handler hw num cia s =
    let (sampled, cia') = sample_icr hw (icr_of num) cia in
    (cia', if sampled == 0 then returns s else task_notify_isr (event_of num) s)

event_has_bits : (num : ℕ) → has_bits (event_of num) (event_of num) ≡ true
event_has_bits num = elim (Bool-cases (num % 2 == 0)) [
  | inl even ↦ rw even refl
  | inr odd ↦ rw odd refl
]

event_some : (num : ℕ) → event_of num ≢ 0
event_some num = ground arith

among-hits :
    (events t : ℕ) (wants : ℕ → ℕ) (ts : List ℕ)
    → has_bits (wants t) events ≡ true
    → 0 < count t ts
    → among t (hits events wants ts) ≡ true
among-hits events t wants [] hit waits = absurd (omega (arith, waits))
among-hits events t wants (u ∷ us) hit waits = elim (Bool-cases (u == t)) [
  | inl same ↦
      let e : u ≡ t = (==_iff u t).0 same in
      let hit' : has_bits (wants u) events ≡ true = ap (λ x. has_bits (wants x) events) e ∙ hit in
      rw hit' (ground (arith, same))
  | inr other ↦
      let rest = among-hits events t wants us hit (ground (arith, other, waits)) in
      elim (Bool-cases (has_bits (wants u) events)) [
        | inl on ↦ rw on (ground (arith, other, rest))
        | inr off ↦ rw off rest
      ]
]

-- The interrupt of a timer, when its bit is set and its timeout is `NotifyTimeout`, does not crash
-- and makes ready each task that waits for a timer of the same letter, of this chip or of the other.
pub timer_handler_wakes :
    (hw num other t : ℕ) (cia : Cia) (s : Sched)
    → IsValid s
    → Promised s
    → 0 < s.ipl
    → ((sample_icr hw (icr_of num) cia).0 == 0) ≡ false
    → icr_of other ≡ icr_of num
    → 0 < count t s.wait_list
    → (s.tasks t).event_set ≡ event_of other
    → Ends (λ s'. IsValid s' × (is_ready (s'.tasks t).state ≡ true)) (timer_handler hw num cia s).1
unfolding timer_handler
timer_handler_wakes hw num other t cia s v p level set letter waits wants =
    let same : event_of other ≡ event_of num = ap (λ i. i * 2 ^ 14) letter in
    let hit : has_bits (events_of s t) (event_of num) ≡ true =
      rw (wants, same) (event_has_bits num) in
    let found = among-hits (event_of num) t (events_of s) s.wait_list hit waits in
    rw set (
      Ends-mono (task_notify_isr (event_of num) s)
        (λ s' h. (
          h.0.valid,
          h.0.ready_now t ∙ ap (λ b. if b then true else is_ready (s.tasks t).state) found,
        ))
        (task_notify_isr-Woken (event_of num) s v p (event_some num) level))
