-- ===== src/Mutexes/Others.antt =====
-- The calls of the other tasks, and the interrupts, leave a sleeping task asleep.
use Prim.{Unit, tt}
use demoscene.Prelude.{◌||◌}
use demoscene.Prelude.{
  ℕ, ◌≡◌, refl, inl, inr, true, false, none, some, List, [], ◌∷◌, arith, ◌==◌, ==_iff, Bool-cases,
  has_bits, count, Option, ltb, ◌&&◌,
}
use demoscene.Cpu.{ipl_max}
use demoscene.Tasks.{
  TaskState, is_ready, is_suspended, Sched, returns, crash, disable, ready_add, should_preempt,
  task_resume, maybe_preempt_isr, in_isr, task_resume_isr, leave_intr, task_suspend, task_wait,
  task_priority_set, take_off, unwait, wake_up, notify_loop, notify_all, task_notify,
  task_notify_isr,
}
use demoscene.Tasks.Order.{count-remove}
use demoscene.Tasks.Owners.{is_blocked}
use demoscene.Mutexes.Sleeping.{
  Asleep, Leaves, not_ready, ready_add-Asleep, disable-Asleep, enable-Asleep, flags-Asleep,
  task_yield-Asleep, preempt_and_enable-Asleep,
}

abbrev Given : (Sched → Type 0) → Option Sched → Type 0
Given P none = Unit
Given P (some s) = P s

not_suspended : (x : TaskState) → is_blocked x ≡ true → is_suspended x ≡ false
not_suspended TaskState.ready e = refl
not_suspended TaskState.blocked e = refl
not_suspended TaskState.suspended e = cc

module _ (t : ℕ) where
  wake_up-Asleep :
      (events u : ℕ) (s : Sched) → (u == t) ≡ false → Asleep t s → Asleep t (wake_up events u s)
  unfolding wake_up unwait
  wake_up-Asleep events u s other a = ready_add-Asleep t u (unwait events u s) other (record {
    away = a.away;
    rest = record {
      unlisted = a.rest.unlisted;
      unwaiting = omega (arith, count-remove t u s.wait_list, a.rest.unwaiting);
      blocked_now = ground (arith, a.rest.blocked_now, ==_iff t u);
    };
  })

  notify_loop-Asleep :
      (events : ℕ) (ts : List ℕ) (s : Sched)
      → count t ts ≡ 0
      → Asleep t s
      → Asleep t (notify_loop events ts s).1
  unfolding notify_loop
  notify_loop-Asleep events [] s e a = a
  notify_loop-Asleep events (u ∷ us) s e a =
      let other : (u == t) ≡ false = ground arith in
      let rest : count t us ≡ 0 = ground arith in
      elim (Bool-cases (has_bits (s.tasks u).event_set events)) [
        | inl hit ↦ rw hit (
            notify_loop-Asleep events us (wake_up events u s) rest
              (wake_up-Asleep events u s other a))
        | inr miss ↦ rw miss (notify_loop-Asleep events us s rest a)
      ]

  notify_all-Asleep : (events : ℕ) (s : Sched) → Asleep t s → Asleep t (notify_all events s).1
  unfolding notify_all
  notify_all-Asleep events s a = notify_loop-Asleep events s.wait_list s a.rest.unwaiting a

  maybe_preempt_isr-Asleep : (s : Sched) → Asleep t s → Asleep t (maybe_preempt_isr s)
  unfolding maybe_preempt_isr
  maybe_preempt_isr-Asleep s a = elim (Bool-cases (should_preempt s)) [
    | inl higher ↦ rw higher (flags-Asleep t s.ipl true s a)
    | inr top ↦ rw top a
  ]

  in_isr-Asleep :
      (body : Sched → Option Sched) (s : Sched)
      → ((s' : Sched) → Asleep t s' → Given (Asleep t) (body s'))
      → Asleep t s
      → Leaves (Asleep t) (in_isr body s)
  unfolding in_isr
  in_isr-Asleep body s kept a = elim (Bool-cases (ltb 0 s.ipl)) [
    | inr unmasked ↦ rw unmasked tt
    | inl masked ↦
        let inner = record s { ipl = ipl_max } in
        rw masked (ended (body inner) (kept inner (flags-Asleep t ipl_max s.need_reschedule s a)))
  ]
    where
      ended :
          (o : Option Sched)
          → Given (Asleep t) o
          → Leaves
              (Asleep t)
              (elim o [ none ↦ crash | some s' ↦ returns (record s' { ipl = s.ipl }) ])
      ended none h = tt
      ended (some s') h = flags-Asleep t s.ipl s'.need_reschedule s' h

  suspended_other :
      (u : ℕ) (s : Sched) → is_suspended (s.tasks u).state ≡ true → Asleep t s → (u == t) ≡ false
  suspended_other u s off a =
      ground (arith, ==_iff u t, not_suspended (s.tasks t).state a.rest.blocked_now)

  pub task_notify-Asleep :
      (events : ℕ) (s : Sched) → Asleep t s → Leaves (Asleep t) (task_notify events s)
  unfolding task_notify
  task_notify-Asleep events s a = elim (Bool-cases (s.ipl == 0)) [
    | inr masked ↦ rw masked tt
    | inl free ↦ elim (Bool-cases (events == 0)) [
      | inl nothing ↦ rw (free, nothing) tt
      | inr wanted ↦ elim (Bool-cases ((notify_all events (disable s)).0 == 0)) [
        | inl nobody ↦ rw (free, wanted, nobody) (enable-Asleep t _ notified)
        | inr somebody ↦ rw (free, wanted, somebody) (preempt_and_enable-Asleep t _ notified)
      ]
    ]
  ]
    where
      notified : Asleep t (notify_all events (disable s)).1
      notified = notify_all-Asleep events (disable s) (disable-Asleep t s a)

  pub task_notify_isr-Asleep :
      (events : ℕ) (s : Sched) → Asleep t s → Leaves (Asleep t) (task_notify_isr events s)
  unfolding task_notify_isr
  task_notify_isr-Asleep events s a =
      in_isr-Asleep _ s
        (λ s' a'. elim (Bool-cases (events == 0)) [
          | inl nothing ↦ rw nothing tt
          | inr wanted ↦ elim (Bool-cases ((notify_all events s').0 == 0)) [
            | inl nobody ↦ rw (wanted, nobody) (notify_all-Asleep events s' a')
            | inr somebody ↦
                rw (wanted, somebody) (maybe_preempt_isr-Asleep _ (notify_all-Asleep events s' a'))
          ]
        ])
        a

  pub task_resume_isr-Asleep :
      (u : ℕ) (s : Sched) → Asleep t s → Leaves (Asleep t) (task_resume_isr u s)
  unfolding task_resume_isr
  task_resume_isr-Asleep u s a =
      in_isr-Asleep _ s
        (λ s' a'. elim (Bool-cases (is_suspended (s'.tasks u).state)) [
          | inl off ↦ rw off (
              maybe_preempt_isr-Asleep _ (ready_add-Asleep t u s' (suspended_other u s' off a') a'))
          | inr on ↦ rw on tt
        ])
        a

  pub task_resume-Asleep : (u : ℕ) (s : Sched) → Asleep t s → Leaves (Asleep t) (task_resume u s)
  unfolding task_resume
  task_resume-Asleep u s a = elim (Bool-cases (is_suspended ((disable s).tasks u).state)) [
    | inl off ↦
        let d = disable-Asleep t s a in
        rw off (
          preempt_and_enable-Asleep t (ready_add u (disable s))
            (ready_add-Asleep t u (disable s) (suspended_other u (disable s) off d) d))
    | inr on ↦ rw on tt
  ]

  pub leave_intr-Asleep :
      (interrupted : ℕ) (s : Sched) → Asleep t s → Leaves (Asleep t) (leave_intr interrupted s)
  unfolding leave_intr
  leave_intr-Asleep interrupted s a = elim (Bool-cases ((interrupted == 0) && s.need_reschedule)) [
    | inl pending ↦ rw pending (task_yield-Asleep t _ (flags-Asleep t interrupted false s a).rest)
    | inr quiet ↦ rw quiet (flags-Asleep t interrupted s.need_reschedule s a)
  ]

-- The calls that take a task off the ready list, on which it may not be. `TAILQ_REMOVE` then brings
-- no task on the list.
module _ (t : ℕ) (absent : ℕ → List ℕ → List ℕ)
    (adds_none : (u : ℕ) (l : List ℕ) → count t l ≡ 0 → count t (absent u l) ≡ 0) where
  unlinked : (u : ℕ) (l : List ℕ) → count t l ≡ 0 → count t (take_off absent u l) ≡ 0
  unlinked u l e = elim (Bool-cases (ltb 0 (count u l))) [
    | inl on ↦ rw on (omega (arith, count-remove t u l, e))
    | inr off ↦ rw off (adds_none u l e)
  ]

  pub task_suspend-Asleep :
      (u : ℕ) (s : Sched) → Asleep t s → Leaves (Asleep t) (task_suspend absent u s)
  unfolding task_suspend
  task_suspend-Asleep u s a = elim (Bool-cases (is_ready ((disable s).tasks u).state)) [
    | inr off ↦ rw off tt
    | inl on ↦
        let d = disable-Asleep t s a in
        rw on (
          task_yield-Asleep t _ (record {
            unlisted = unlinked u (disable s).ready_list d.rest.unlisted;
            unwaiting = d.rest.unwaiting;
            blocked_now = ground (
              arith,
              d.rest.blocked_now,
              ==_iff t u,
              not_ready ((disable s).tasks t).state d.rest.blocked_now,
            );
          }))
  ]

  pub task_wait-Asleep :
      (waitpt events : ℕ) (s : Sched)
      → Asleep t s
      → Leaves (Asleep t) (task_wait absent waitpt events s)
  unfolding task_wait
  task_wait-Asleep waitpt events s a = elim (Bool-cases ((s.ipl == 0) || (events == 0))) [
    | inl bad ↦ rw bad tt
    | inr fine ↦ rw fine (
        task_yield-Asleep t _ (record {
          unlisted = unlinked s.current s.ready_list a.rest.unlisted;
          unwaiting = ground (arith, a.away, a.rest.unwaiting);
          blocked_now = ground (arith, a.rest.blocked_now, ==_iff t s.current);
        }))
  ]

  pub task_priority_set-Asleep :
      (target : Option ℕ) (prio : ℕ) (s : Sched)
      → Asleep t s
      → Leaves (Asleep t) (task_priority_set absent target prio s)
  unfolding task_priority_set
  task_priority_set-Asleep (some u) prio s a =
      elim (Bool-cases (is_ready ((disable s).tasks u).state)) [
        | inr off ↦ rw off tt
        | inl on ↦
            let d = disable-Asleep t s a in
            let other : (u == t) ≡ false =
              ground
                (arith, ==_iff u t, not_ready ((disable s).tasks t).state d.rest.blocked_now) in
            rw on (
              preempt_and_enable-Asleep t _ (
                ready_add-Asleep t u _ other (record {
                  away = d.away;
                  rest = record {
                    unlisted = unlinked u (disable s).ready_list d.rest.unlisted;
                    unwaiting = d.rest.unwaiting;
                    blocked_now = ground (arith, d.rest.blocked_now, ==_iff t u);
                  };
                })))
      ]
  task_priority_set-Asleep none prio s a =
      elim (Bool-cases (ltb 0 (count (disable s).current (disable s).ready_list))) [
        | inl twice ↦ rw twice tt
        | inr once ↦
            let d = disable-Asleep t s a in
            rw once (
              preempt_and_enable-Asleep t _ (
                ready_add-Asleep t (disable s).current _ d.away (record {
                  away = d.away;
                  rest = record {
                    unlisted = d.rest.unlisted;
                    unwaiting = d.rest.unwaiting;
                    blocked_now = ground (arith, d.rest.blocked_now, ==_iff t (disable s).current);
                  };
                })))
      ]
