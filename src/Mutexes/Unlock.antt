-- ===== src/Mutexes/Unlock.antt =====
-- `MutexUnlock` hands the mutex back and lets the first waiter run.
use demoscene.Prelude.{
  ℕ, ◌+◌, ◌<◌, ◌^◌, ◌≡◌, refl, ap, ◌∙◌, Bool, true, false, none, some, List, [], ◌∷◌, arith, ◌==◌,
  if◌then◌else◌, count, All,
}
use demoscene.Cpu.{intr_disable}
use demoscene.Tasks.{is_ready, Sched, cpu_of, disable, enable, ready_add, preempt_and_enable}
use demoscene.Tasks.Owners.{IsValid, ready_add-IsValid, is_ready-ready_add}
use demoscene.Tasks.Switch.{Highest, Ends, Ends-mono}
use demoscene.Tasks.Preempt.{
  disable-IsValid, SameReady-disable, Masked-disable, Masked-ready_add, wait-ready_add,
  Highest-with_cpu, enable-Switched, preempt_and_enable-Switched,
}
use demoscene.Mutexes.{Mutex, mutex_unlock, hand_over, owned_by}

-- The tasks that wait for the mutex are blocked, and wait for no events.
abbrev pub Waiting : Mutex → Sched → Type 0
Waiting m s = All (λ t. (count t s.wait_list ≡ 0) × (is_ready (s.tasks t).state ≡ false)) m.waiters

abbrev pub first_is : ℕ → List ℕ → Bool
first_is u [] = false
first_is u (t ∷ ts) = u == t

abbrev pub tail : List ℕ → List ℕ
tail [] = []
tail (t ∷ ts) = ts

-- In `s'` the first of the waiters is ready, beside the tasks that were ready in `s`.
pub record Released (ws : List ℕ) (s s' : Sched) : Type 0 where
  pub valid : IsValid s'
  pub highest : Highest s'
  pub ready_now :
      (u : ℕ)
      → is_ready (s'.tasks u).state ≡ (if first_is u ws then true else is_ready (s.tasks u).state)
  pub wait_same : s'.wait_list ≡ s.wait_list

hand_over-Released :
    (ws : List ℕ) (s : Sched)
    → IsValid s
    → Highest s
    → (s.tasks s.current).intr_nest + 1 < 2 ^ 15
    → All (λ t. (count t s.wait_list ≡ 0) × (is_ready (s.tasks t).state ≡ false)) ws
    → ((hand_over ws (disable s)).0 ≡ record { owner = none; waiters = tail ws })
      × Ends (Released ws s) (hand_over ws (disable s)).1
unfolding hand_over disable
hand_over-Released [] s v h small waiting = (
  refl,
  Ends-mono (enable (disable s))
      (λ s' w. record {
        valid = w.valid;
        highest = w.highest;
        ready_now = λ u. w.same.ready_same u ∙ (SameReady-disable s).ready_same u;
        wait_same = w.same.wait_same ∙ (SameReady-disable s).wait_same;
      })
      (enable-Switched (disable s) (disable-IsValid s v)
        (Highest-with_cpu (intr_disable (cpu_of s)) s h) (Masked-disable s small)),
)
hand_over-Released (t ∷ ts) s v h small ((idle, off), waiting) =
    let d = disable s in
    let off' : is_ready (d.tasks t).state ≡ false = (SameReady-disable s).ready_same t ∙ off in
    (
      refl,
      Ends-mono (preempt_and_enable (ready_add t d))
          (λ s' w. record {
            valid = w.valid;
            highest = w.highest;
            ready_now = λ u.
                w.same.ready_same u
                ∙ is_ready-ready_add t d u
                ∙ ap (λ b. if u == t then true else b) ((SameReady-disable s).ready_same u);
            wait_same = w.same.wait_same ∙ wait-ready_add t d ∙ (SameReady-disable s).wait_same;
          })
          (preempt_and_enable-Switched (ready_add t d)
            (ready_add-IsValid t d idle off' (disable-IsValid s v))
            (Masked-ready_add t d (Masked-disable s small))),
    )

-- `MutexUnlock` by the owner, in a valid state in which no ready task has a higher priority, does
-- not crash: the mutex is free, the first waiter leaves its list and is ready, no other task
-- becomes ready, and a task of the highest priority runs.
pub mutex_unlock-Released :
    (m : Mutex) (s : Sched)
    → IsValid s
    → Highest s
    → (s.tasks s.current).intr_nest + 1 < 2 ^ 15
    → m.owner ≡ some s.current
    → Waiting m s
    → ((mutex_unlock m s).0 ≡ record { owner = none; waiters = tail m.waiters })
      × Ends (Released m.waiters s) (mutex_unlock m s).1
unfolding mutex_unlock
mutex_unlock-Released m s v h small owned waiting =
    let mine : owned_by m.owner (disable s).current ≡ true =
      rw owned (unfold disable in ground arith) in
    rw mine (hand_over-Released m.waiters s v h small waiting)
