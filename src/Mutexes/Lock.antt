-- ===== src/Mutexes/Lock.antt =====
-- `MutexLock`: it takes a free mutex, and stands in line for one that is held.
use demoscene.Prelude.{
  ℕ, ◌+◌, ◌<◌, ◌^◌, ◌≡◌, refl, sym, ap, ◌∙◌, inl, inr, true, false, Option, none, some, List, [],
  ◌∷◌, ◌++◌, arith, ◌==◌, ==_iff, Bool-cases, if◌then◌else◌,
}
use demoscene.Cpu.{intr_disable}
use demoscene.Tasks.{
  Outcome, blocked, is_ready, Sched, prio_of, cpu_of, update, disable, enable, task_yield,
}
use demoscene.Tasks.Order.{IsSorted-ext}
use demoscene.Tasks.Owners.{IsValid, Queues, listed}
use demoscene.Tasks.Switch.{
  Highest, Ends, Ends-mono, Switched, SameReady-trans, wait_zero, task_yield-Switched,
}
use demoscene.Tasks.Preempt.{
  disable-IsValid, SameReady-disable, Masked-disable, Highest-with_cpu, enable-Switched,
}
use demoscene.Mutexes.{Mutex, lock_loop, mutex_lock}

-- `s'` follows a call in which the running task of `s` stopped: it is not ready, the others are as
-- they were, and one of the highest priority runs.
pub record Stopped (s s' : Sched) : Type 0 where
  pub valid : IsValid s'
  pub highest : Highest s'
  pub ready_now :
      (u : ℕ)
      → is_ready (s'.tasks u).state ≡ (if u == s.current then false else is_ready (s.tasks u).state)
  pub wait_same : s'.wait_list ≡ s.wait_list

-- What `MutexLock` comes to in `s`, by the owner and the waiters that it finds.
abbrev pub Locked : Option ℕ → List ℕ → Sched → Mutex × Outcome → Type 0
Locked none ws s (m, o) =
    (m ≡ record { owner = some s.current; waiters = ws }) × Ends (Switched s) o
Locked (some u) ws s (m, o) =
    (m ≡ record { owner = some u; waiters = ws ++ s.current ∷ [] }) × Ends (Stopped s) o

module _ (waitpt : ℕ) (s : Sched) (v : IsValid s) where
  abbrev stopping : Sched
  stopping = record s {
    tasks =
        update s.tasks s.current
          (record (s.tasks s.current) { waiting_at = waitpt; state = blocked });
  }

  ready-stopping :
      (u : ℕ)
      → is_ready (stopping.tasks u).state
        ≡ (if u == s.current then false else is_ready (s.tasks u).state)
  ready-stopping u = ground arith

  prio-stopping : (u : ℕ) → prio_of stopping u ≡ prio_of s u
  prio-stopping u = ground (arith, ==_iff u s.current)

  stopping-Queues : Queues stopping (listed stopping)
  stopping-Queues = record {
    sorted =
        IsSorted-ext (prio_of s) (prio_of stopping) s.ready_list (λ u. sym (prio-stopping u))
          v.queues.sorted;
    ready_once = λ u. v.queues.ready_once u ∙ same u;
    wait_once = λ u. elim (Bool-cases (u == s.current)) [
      | inl e ↦
          rw (e, (==_iff u s.current).0 e, wait_zero s s.current v.queues v.running) (omega arith)
      | inr e ↦ rw e (v.queues.wait_once u)
    ];
    canaries = λ u. elim (Bool-cases (u == s.current)) [
      | inl e ↦ rw e (v.queues.canaries s.current)
      | inr e ↦ rw e (v.queues.canaries u)
    ];
  }
    where
      same : (u : ℕ) → listed s u ≡ listed stopping u
      same u = elim (Bool-cases (u == s.current)) [
        | inl e ↦ ground (arith, (==_iff u s.current).0 e)
        | inr e ↦ ground arith
      ]

  pub lock_waits :
      (o : ℕ) (ws : List ℕ) (t : ℕ)
      → (t == s.current) ≡ false
      → is_ready (s.tasks t).state ≡ true
      → Ends (Stopped s) (lock_loop waitpt (record { owner = some o; waiters = ws }) s).1
  unfolding lock_loop
  lock_waits o ws t other on =
      Ends-mono (task_yield stopping)
        (λ s' w. record {
          valid = w.valid;
          highest = w.highest;
          ready_now = λ u. w.same.ready_same u ∙ ready-stopping u;
          wait_same = w.same.wait_same;
        })
        (task_yield-Switched stopping stopping-Queues (t, ready-stopping t ∙ ground arith))

-- `MutexLock` in a valid state in which no ready task has a higher priority, and some task beside
-- the caller is ready, does not crash. A free mutex is the caller's, and nobody becomes ready or
-- stops. A mutex that is held stays with its owner: the caller is the last of its waiters and stops,
-- and of the other tasks one of the highest priority runs.
pub mutex_lock-Locked :
    (waitpt : ℕ) (m : Mutex) (s : Sched) (t : ℕ)
    → IsValid s
    → Highest s
    → (s.tasks s.current).intr_nest + 1 < 2 ^ 15
    → (t == s.current) ≡ false
    → is_ready (s.tasks t).state ≡ true
    → Locked m.owner m.waiters s (mutex_lock waitpt m s)
unfolding mutex_lock lock_loop disable
mutex_lock-Locked waitpt m s t v h small other on = go m.owner
  where
    fresh : Ends (Switched s) (enable (disable s))
    fresh =
        Ends-mono (enable (disable s))
          (λ s' w. record {
            valid = w.valid;
            highest = w.highest;
            same = SameReady-trans (SameReady-disable s) w.same;
          })
          (enable-Switched (disable s) (disable-IsValid s v)
            (Highest-with_cpu (intr_disable (cpu_of s)) s h) (Masked-disable s small))

    stopped :
        (o : ℕ)
        → Ends
            (Stopped s)
            (lock_loop waitpt (record { owner = some o; waiters = m.waiters }) (disable s)).1
    stopped o =
        Ends-mono (lock_loop waitpt (record { owner = some o; waiters = m.waiters }) (disable s)).1
          (λ s' w. record {
            valid = w.valid;
            highest = w.highest;
            ready_now = λ u.
                w.ready_now u
                ∙ ap (λ b. if u == s.current then false else b)
                    ((SameReady-disable s).ready_same u);
            wait_same = w.wait_same ∙ (SameReady-disable s).wait_same;
          })
          (lock_waits waitpt (disable s) (disable-IsValid s v) o m.waiters t other
            ((SameReady-disable s).ready_same t ∙ on))

    go :
        (o : Option ℕ)
        → Locked o m.waiters s
            (lock_loop waitpt (record { owner = o; waiters = m.waiters }) (disable s))
    go none = (refl, fresh)
    go (some o) = (refl, stopped o)
