-- ===== src/Tasks/Wake.antt =====
-- Calls that wake tasks, from a task and from an interrupt: who runs when they are over.
use demoscene.Prelude.{
  ℕ, ◌+◌, ◌^◌, ◌<◌, ◌≡◌, ◌≢◌, refl, sym, ap, ap₂, subst, ◌∙◌, inl, inr, ◌⊎◌, Bool, true, false,
  arith, lt→ltb, ◌==◌, ==_iff, Bool-cases, if◌then◌else◌,
}
use demoscene.Cpu.{intr_disable, ipl_max}
use demoscene.Tasks.{
  is_ready, is_suspended, Task, Sched, cpu_of, disable, enable, ready_add, should_preempt,
  preempt_and_enable, maybe_preempt_isr, in_isr, task_resume_isr, leave_intr, task_yield,
  notify_all, notify_loop, task_notify, task_notify_isr,
}
use demoscene.Prelude.{All-count}
use demoscene.Tasks.Owners.{IsValid, Queues-ext, ready_add-IsValid, is_ready-ready_add}
use demoscene.Tasks.Switch.{Highest, Ends, Ends-mono, Switched, task_yield-Switched}
use demoscene.Tasks.Notify.{among, notify_all-Notified, notify_none}
use demoscene.Tasks.Woken.{hits, hits-ext, misses, events_of}
use demoscene.Tasks.Preempt.{
  wait-ready_add, preempt_and_enable-Switched, disable-IsValid, SameReady-disable, Masked-disable,
  Highest-of_first, enable-Switched, Highest-with_cpu, suspended_idle,
}

-- A reschedule is pending, or none is due.
abbrev pub Promised : Sched → Type 0
Promised s = (s.need_reschedule ≡ true) ⊎ Highest s

IsValid-flags :
    (s : Sched) (ipl : ℕ) (pending : Bool)
    → IsValid s
    → IsValid (record s { ipl = ipl; need_reschedule = pending })
IsValid-flags s ipl pending v = record {
  queues =
      Queues-ext s (record s { ipl = ipl; need_reschedule = pending }) refl refl
        (λ t. (refl, refl, refl)) (λ t. refl) v.queues;
  running = v.running;
}

-- On the return from an interrupt to a task, if a reschedule is pending or no ready task has a
-- higher priority than the interrupted one: whoever runs has the highest priority.
pub leave_intr-Highest :
    (s : Sched) → IsValid s → Promised s → Ends (λ s'. IsValid s' × Highest s') (leave_intr 0 s)
unfolding leave_intr
leave_intr-Highest s v p = elim (Bool-cases s.need_reschedule) [
  | inl pending ↦
      let q = IsValid-flags s 0 false v in
      rw pending (
        Ends-mono (task_yield (record s { ipl = 0; need_reschedule = false }))
          (λ s' w. (w.valid, w.highest))
          (task_yield-Switched (record s { ipl = 0; need_reschedule = false }) q.queues
            (s.current, v.running)))
  | inr quiet ↦ rw quiet (IsValid-flags s 0 false v, kept p quiet)
]
  where
    kept : Promised s → s.need_reschedule ≡ false → Highest s
    kept (inl h) q = cc
    kept (inr h) q = h

maybe_preempt_isr-Promised :
    (s : Sched) → IsValid s → IsValid (maybe_preempt_isr s) × Promised (maybe_preempt_isr s)
unfolding maybe_preempt_isr
maybe_preempt_isr-Promised s v = elim (Bool-cases (should_preempt s)) [
  | inl higher ↦ rw higher (IsValid-flags s s.ipl true v, inl refl)
  | inr top ↦ rw top (v, inr (Highest-of_first s v top))
]

maybe_preempt_isr_tasks :
    (s : Sched)
    → ((maybe_preempt_isr s).tasks ≡ s.tasks) × ((maybe_preempt_isr s).wait_list ≡ s.wait_list)
unfolding maybe_preempt_isr
maybe_preempt_isr_tasks s = elim (Bool-cases (should_preempt s)) [
  | inl higher ↦ rw higher (refl, refl)
  | inr top ↦ rw top (refl, refl)
]

-- What an interrupt handler leaves that has made `t` ready.
pub record ResumedIsr (t : ℕ) (s s' : Sched) : Type 0 where
  pub valid : IsValid s'
  pub promised : Promised s'
  pub ready_now :
      (u : ℕ) → is_ready (s'.tasks u).state ≡ (if u == t then true else is_ready (s.tasks u).state)
  pub wait_same : s'.wait_list ≡ s.wait_list
  pub ipl_same : s'.ipl ≡ s.ipl

-- `TaskResumeISR` of a suspended task, called at an interrupt level, does not crash; it makes the
-- task ready and no other, gives the level back, and a reschedule is pending if a task of higher
-- priority than the running one is ready.
pub task_resume_isr-ResumedIsr :
    (t : ℕ) (s : Sched)
    → IsValid s
    → is_suspended (s.tasks t).state ≡ true
    → 0 < s.ipl
    → Ends (ResumedIsr t s) (task_resume_isr t s)
unfolding task_resume_isr in_isr
task_resume_isr-ResumedIsr t s v off level =
    let m : Sched = record s { ipl = ipl_max } in
    let (idle, not_ready) = suspended_idle s t v off in
    let (valid, promised) =
      maybe_preempt_isr-Promised (ready_add t m)
        (ready_add-IsValid t m idle not_ready (IsValid-flags s ipl_max s.need_reschedule v)) in
    let (tasks_same, lists_same) = maybe_preempt_isr_tasks (ready_add t m) in
    rw (lt→ltb 0 s.ipl level, off)
      (record {
        valid = IsValid-flags (maybe_preempt_isr (ready_add t m)) s.ipl _ valid;
        promised = promised;
        ready_now =
            λ u. ap (λ (f : ℕ → Task). is_ready (f u).state) tasks_same ∙ is_ready-ready_add t m u;
        wait_same = lists_same ∙ wait-ready_add t m;
        ipl_same = refl;
      })

-- What a notification leaves: the woken tasks are those of the wait list that wait for one of the
-- events; the others go on waiting in their order.
pub record Woken (events : ℕ) (s s' : Sched) : Type 0 where
  pub valid : IsValid s'
  pub waiting : s'.wait_list ≡ misses events (events_of s) s.wait_list
  pub ready_now :
      (u : ℕ)
      → is_ready (s'.tasks u).state ≡ (
          if among u (hits events (events_of s) s.wait_list)
          then true
          else is_ready (s.tasks u).state)

-- `TaskNotifyISR` of some events, called at an interrupt level, does not crash; it wakes exactly
-- the tasks that wait for one of them, and keeps it so that a reschedule is pending if one is due.
pub task_notify_isr-Woken :
    (events : ℕ) (s : Sched)
    → IsValid s
    → Promised s
    → events ≢ 0
    → 0 < s.ipl
    → Ends (λ s'. Woken events s s' × Promised s') (task_notify_isr events s)
unfolding task_notify_isr in_isr notify_all
task_notify_isr-Woken events s v p some_events level =
    let m : Sched = record s { ipl = ipl_max } in
    let n = notify_all-Notified events m (IsValid-flags s ipl_max s.need_reschedule v) in
    let zero_false : (events == 0) ≡ false = ground arith in
    let r = notify_loop events s.wait_list m in
    elim (Bool-cases (r.0 == 0)) [
      | inl nobody ↦
          rw (lt→ltb 0 s.ipl level, zero_false, nobody)
            (
              record {
                valid = IsValid-flags r.1 s.ipl _ n.valid;
                waiting = n.waiting;
                ready_now = n.ready_now;
              },
              subst (λ (x : Sched). Promised (record x { ipl = s.ipl }))
                  (sym (notify_none events s.wait_list m ((==_iff r.0 0).0 nobody))) p,
            )
      | inr somebody ↦
          let (valid, promised) = maybe_preempt_isr-Promised r.1 n.valid in
          let (tasks_same, lists_same) = maybe_preempt_isr_tasks r.1 in
          rw (lt→ltb 0 s.ipl level, zero_false, somebody)
            (
              record {
                valid = IsValid-flags (maybe_preempt_isr r.1) s.ipl _ valid;
                waiting = lists_same ∙ n.waiting;
                ready_now =
                    λ u. ap (λ (f : ℕ → Task). is_ready (f u).state) tasks_same ∙ n.ready_now u;
              },
              promised,
            )
    ]

events_of-disable : (s : Sched) (u : ℕ) → events_of (disable s) u ≡ events_of s u
unfolding disable
events_of-disable s u = ground arith

Highest-disable : (s : Sched) → Highest s → Highest (disable s)
unfolding disable
Highest-disable s h = Highest-with_cpu (intr_disable (cpu_of s)) s h

-- `TaskNotify` of some events by a task, with interrupts enabled and room in the count of nested
-- `IntrDisable`, in a valid state in which no ready task has a higher priority than the caller, does
-- not crash; it wakes exactly the tasks that wait for one of the events, and it keeps it so that, in
-- the state that it leaves, after a switch or without one, a task of the highest priority runs.
pub task_notify-Woken :
    (events : ℕ) (s : Sched)
    → IsValid s
    → Highest s
    → events ≢ 0
    → s.ipl ≡ 0
    → (s.tasks s.current).intr_nest + 1 < 2 ^ 15
    → Ends (λ s'. Woken events s s' × Highest s') (task_notify events s)
unfolding task_notify notify_all
task_notify-Woken events s v top some_events level small =
    let d = disable s in
    let r = notify_loop events d.wait_list d in
    let n = notify_all-Notified events d (disable-IsValid s v) in
    let zero_false : (events == 0) ≡ false = ground arith in
    let at_task : (s.ipl == 0) ≡ true = ground arith in
    let (hits_same, misses_same) =
      hits-ext events (events_of d) (events_of s) d.wait_list
        (All-count d.wait_list (λ u pos. events_of-disable s u)) in
    let waits_same : d.wait_list ≡ s.wait_list = (SameReady-disable s).wait_same in
    let woken = λ (s' : Sched) (w : Switched r.1 s').
      let x : Woken events s s' = record {
        valid = w.valid;
        waiting =
            w.same.wait_same
            ∙ n.waiting
            ∙ misses_same
            ∙ ap (misses events (events_of s)) waits_same;
        ready_now = λ u.
            w.same.ready_same u
            ∙ n.ready_now u
            ∙ ap₂ (λ l b. if among u l then true else b)
                (hits_same ∙ ap (hits events (events_of s)) waits_same)
                ((SameReady-disable s).ready_same u);
      } in
      x in
    elim (Bool-cases (r.0 == 0)) [
      | inl nobody ↦
          rw (at_task, zero_false, nobody)
            (Ends-mono (enable r.1) (λ s' w. (woken s' w, w.highest))
              (enable-Switched r.1 n.valid
                (subst Highest (sym (notify_none events d.wait_list d ((==_iff r.0 0).0 nobody)))
                  (Highest-disable s top))
                (n.masked (Masked-disable s small))))
      | inr somebody ↦
          rw (at_task, zero_false, somebody)
            (Ends-mono (preempt_and_enable r.1) (λ s' w. (woken s' w, w.highest))
              (preempt_and_enable-Switched r.1 n.valid (n.masked (Masked-disable s small))))
    ]

-- An interrupt comes while, in a valid state, a task of the highest priority runs, and its handler
-- notifies some events. Neither the notification nor the return to the task crashes, and behind the
-- return a task of the highest priority runs in a valid state, also where a woken task has a higher
-- priority than the interrupted one.
pub notified_interrupt-Highest :
    (events : ℕ) (s : Sched)
    → IsValid s
    → Highest s
    → events ≢ 0
    → 0 < s.ipl
    → Ends
        (λ s1. Woken events s s1 × Ends (λ s2. IsValid s2 × Highest s2) (leave_intr 0 s1))
        (task_notify_isr events s)
notified_interrupt-Highest events s v top some_events level =
    Ends-mono (task_notify_isr events s) (λ s1 h. (h.0, leave_intr-Highest s1 h.0.valid h.1))
      (task_notify_isr-Woken events s v (inr top) some_events level)
