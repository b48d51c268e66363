-- ===== src/Mutexes/Sleeping.antt =====
-- A task that no list of the scheduler holds stays asleep, whoever runs instead.
use Prim.{Unit, tt}
use demoscene.Prelude.{◌&&◌, ltb, Bool}
use demoscene.Prelude.{
  ℕ, ◌≡◌, refl, sym, ap, ◌∙◌, inl, inr, Bool, true, false, none, some, List, [], ◌∷◌, arith, ◌==◌,
  ==_iff, Bool-cases, if◌then◌else◌, count,
}
use demoscene.Cpu.{Cpu, intr_disable, intr_enable}
use demoscene.Tasks.{
  TaskState, is_ready, Sched, Outcome, returns, switched, crash, cpu_of, with_cpu, disable, enable,
  ready_add, choose, put_back, save_context, load_context, task_switch, task_yield, should_preempt,
  preempt_and_enable, prio_of,
}
use demoscene.Tasks.Order.{count-insert}
use demoscene.Tasks.Owners.{is_blocked, SameTask-with_cpu}

-- `t` is blocked, and stands neither on the ready list nor on the list of event waits.
pub record Resting (t : ℕ) (s : Sched) : Type 0 where
  pub unlisted : count t s.ready_list ≡ 0
  pub unwaiting : count t s.wait_list ≡ 0
  pub blocked_now : is_blocked (s.tasks t).state ≡ true

pub record Asleep (t : ℕ) (s : Sched) : Type 0 where
  pub away : (s.current == t) ≡ false
  pub rest : Resting t s

-- If the call leaves a state, that state satisfies `P`.
abbrev pub Leaves : (Sched → Type 0) → Outcome → Type 0
Leaves P (returns s) = P s
Leaves P (switched s) = P s
Leaves P crash = Unit

pub not_ready : (x : TaskState) → is_blocked x ≡ true → is_ready x ≡ false
not_ready TaskState.ready e = cc
not_ready TaskState.blocked e = refl
not_ready TaskState.suspended e = refl

module _ (t : ℕ) where
  ready_add-Resting :
      (u : ℕ) (s : Sched) → (u == t) ≡ false → Resting t s → Resting t (ready_add u s)
  unfolding ready_add
  ready_add-Resting u s other r = record {
    unlisted = ground (arith, count-insert (prio_of s) t u s.ready_list, r.unlisted);
    unwaiting = r.unwaiting;
    blocked_now = ground (arith, r.blocked_now);
  }

  pub ready_add-Asleep :
      (u : ℕ) (s : Sched) → (u == t) ≡ false → Asleep t s → Asleep t (ready_add u s)
  unfolding ready_add
  ready_add-Asleep u s other a = record { away = a.away; rest = ready_add-Resting u s other a.rest }

  pub with_cpu-Asleep : (c : Cpu) (s : Sched) → Asleep t s → Asleep t (with_cpu c s)
  with_cpu-Asleep c s a = record {
    away = a.away;
    rest = record {
      unlisted = a.rest.unlisted;
      unwaiting = a.rest.unwaiting;
      blocked_now = ap is_blocked (sym (SameTask-with_cpu c s t).1) ∙ a.rest.blocked_now;
    };
  }

  pub disable-Asleep : (s : Sched) → Asleep t s → Asleep t (disable s)
  unfolding disable
  disable-Asleep s a = with_cpu-Asleep (intr_disable (cpu_of s)) s a

  pub enable-Asleep : (s : Sched) → Asleep t s → Leaves (Asleep t) (enable s)
  unfolding enable
  enable-Asleep s a =
      elim (intr_enable (cpu_of s))
        as (λ o. Leaves (Asleep t) (elim o [ none ↦ crash | some c ↦ returns (with_cpu c s) ])) [
          | none ↦ tt
          | some c ↦ with_cpu-Asleep c s a
        ]

  pub flags-Asleep :
      (ipl : ℕ) (pending : Bool) (s : Sched)
      → Asleep t s
      → Asleep t (record s { ipl = ipl; need_reschedule = pending })
  flags-Asleep ipl pending s a = record {
    away = a.away;
    rest = record {
      unlisted = a.rest.unlisted;
      unwaiting = a.rest.unwaiting;
      blocked_now = a.rest.blocked_now;
    };
  }

  choose-Asleep : (s : Sched) → Resting t s → Leaves (Asleep t) (choose s)
  unfolding choose
  choose-Asleep s r = go s.ready_list r.unlisted
    where
      go :
          (l : List ℕ)
          → count t l ≡ 0
          → Leaves (Asleep t) (elim l [
            | [] ↦ crash
            | u ∷ us ↦
                if (s.tasks u).canary
                then returns (record s { ready_list = us; current = u })
                else crash
          ])
      go [] e = tt
      go (u ∷ us) e = elim (Bool-cases (s.tasks u).canary) [
        | inl whole ↦ rw whole (record {
          away = ground arith;
          rest = record {
            unlisted = ground arith;
            unwaiting = r.unwaiting;
            blocked_now = r.blocked_now;
          };
        })
        | inr broken ↦ rw broken tt
      ]

  put_back-Resting : (s : Sched) → Resting t s → Resting t (put_back s)
  unfolding put_back
  put_back-Resting s r = elim (Bool-cases (is_ready (s.tasks s.current).state)) [
    | inl on ↦ rw on (ready_add-Resting s.current s (other on) r)
    | inr off ↦ rw off r
  ]
    where
      other : is_ready (s.tasks s.current).state ≡ true → (s.current == t) ≡ false
      other on = ground (arith, ==_iff s.current t, not_ready (s.tasks t).state r.blocked_now)

  -- Whoever runs, a yield does not wake a blocked task, not even the one that calls it.
  pub task_yield-Asleep : (s : Sched) → Resting t s → Leaves (Asleep t) (task_yield s)
  unfolding task_yield task_switch save_context load_context
  task_yield-Asleep s r = elim (Bool-cases twice) [
    | inl broken ↦ rw broken tt
    | inr once ↦ rw once (
        loaded (choose (put_back (save_context s)))
          (choose-Asleep (put_back (save_context s)) (put_back-Resting (save_context s) saved)))
  ]
    where
      twice : Bool
      twice =
          let c = save_context s in
          is_ready (c.tasks c.current).state && ltb 0 (count c.current c.ready_list)

      saved : Resting t (save_context s)
      saved = record {
        unlisted = r.unlisted;
        unwaiting = r.unwaiting;
        blocked_now = ground (arith, r.blocked_now, ==_iff t s.current);
      }

      loaded : (o : Outcome) → Leaves (Asleep t) o → Leaves (Asleep t) (load_context o)
      loaded (returns s') h = flags-Asleep (s'.tasks s'.current).saved_ipl s'.need_reschedule s' h
      loaded (switched s') h = h
      loaded crash h = h

  pub preempt_and_enable-Asleep :
      (s : Sched) → Asleep t s → Leaves (Asleep t) (preempt_and_enable s)
  unfolding preempt_and_enable
  preempt_and_enable-Asleep s a = elim (Bool-cases (should_preempt s)) [
    | inl higher ↦ rw higher (task_yield-Asleep s a.rest)
    | inr top ↦ rw top (enable-Asleep s a)
  ]
