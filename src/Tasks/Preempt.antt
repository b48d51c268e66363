-- ===== src/Tasks/Preempt.antt =====
-- Calls that make a task ready leave a task of the highest priority running.
use demoscene.Prelude.{
  All, All-mono, ℕ, ◌+◌, ◌-◌, ◌^◌, ◌≤◌, ◌<◌, ◌≡◌, refl, sym, ap, ◌∙◌, inl, inr, Bool, true, false,
  some, List, [], ◌∷◌, arith, ltb, ◌==◌, Bool-cases, if◌then◌else◌,
}
use demoscene.Cpu.{Cpu, intr_disable, intr_enable}
use demoscene.Tasks.{
  TaskState, is_ready, is_suspended, Sched, prio_of, cpu_of, with_cpu, disable, enable, ready_add,
  should_preempt, preempt_and_enable, task_resume,
}
use demoscene.Prelude.{count}
use demoscene.Tasks.Order.{IsSorted}
use demoscene.Tasks.Owners.{
  IsValid, is_blocked, one_if, with_cpu-IsValid, SameTask-with_cpu, ready_add-IsValid,
  is_ready-ready_add,
}
use demoscene.Tasks.Woken.{Masked}
use demoscene.Tasks.Switch.{Highest, Ends, Ends-mono, SameReady, Switched, task_yield-Switched}

SameReady-with_cpu : (c : Cpu) (s : Sched) → SameReady s (with_cpu c s)
SameReady-with_cpu c s = record {
  ready_same = λ t. ap is_ready (sym (SameTask-with_cpu c s t).1);
  wait_same = refl;
  prio_same = λ t. sym (SameTask-with_cpu c s t).0;
}

pub Highest-with_cpu : (c : Cpu) (s : Sched) → Highest s → Highest (with_cpu c s)
Highest-with_cpu c s h =
    All-mono s.ready_list
      (λ t le. omega (arith, (SameTask-with_cpu c s t).0, (SameTask-with_cpu c s s.current).0)) h

pub intr_enable-some :
    (c : Cpu) → 0 < c.nest → c.nest < 2 ^ 15 → (c' : Cpu) × (intr_enable c ≡ some c')
unfolding intr_enable
intr_enable-some c pos small = elim (Bool-cases (c.nest - 1 == 0)) [
  | inl e ↦ (record c { ipl = 0; nest = c.nest - 1 }, ground arith)
  | inr e ↦ (record c { nest = c.nest - 1 }, ground arith)
]

pub enable-Switched : (s : Sched) → IsValid s → Highest s → Masked s → Ends (Switched s) (enable s)
unfolding enable
enable-Switched s v h (pos, small) =
    let (c, e) = intr_enable-some (cpu_of s) pos small in
    rw (e, enable)
      (record {
        valid = with_cpu-IsValid c s v;
        highest = Highest-with_cpu c s h;
        same = SameReady-with_cpu c s;
      })

pub Highest-of_first : (s : Sched) → IsValid s → should_preempt s ≡ false → Highest s
unfolding should_preempt
Highest-of_first s v e = go s.ready_list v.queues.sorted e
  where
    go :
        (l : List ℕ)
        → IsSorted (prio_of s) l
        → elim l as (λ x. Bool) [ [] ↦ false | t ∷ ts ↦ ltb (prio_of s t) (prio_of s s.current) ]
          ≡ false
        → All (λ t. prio_of s s.current ≤ prio_of s t) l
    go [] sorted e = tt
    go (t ∷ ts) (first, sorted) e =
        let le : prio_of s s.current ≤ prio_of s t = ground arith in
        (le, All-mono ts (λ u h. omega arith) first)

pub preempt_and_enable-Switched :
    (s : Sched) → IsValid s → Masked s → Ends (Switched s) (preempt_and_enable s)
unfolding preempt_and_enable
preempt_and_enable-Switched s v m = elim (Bool-cases (should_preempt s)) [
  | inl higher ↦ rw higher (task_yield-Switched s v.queues (s.current, v.running))
  | inr top ↦ rw top (enable-Switched s v (Highest-of_first s v top) m)
]

-- The state `s'` has `t` ready beside the tasks that were, and the same tasks wait for events.
pub record Resumed (t : ℕ) (s s' : Sched) : Type 0 where
  pub valid : IsValid s'
  pub highest : Highest s'
  pub ready_now :
      (u : ℕ) → is_ready (s'.tasks u).state ≡ (if u == t then true else is_ready (s.tasks u).state)
  pub wait_same : s'.wait_list ≡ s.wait_list

pub suspended_idle :
    (s : Sched) (t : ℕ)
    → IsValid s
    → is_suspended (s.tasks t).state ≡ true
    → (count t s.wait_list ≡ 0) × (is_ready (s.tasks t).state ≡ false)
suspended_idle s t v e = go (s.tasks t).state e (v.queues.wait_once t)
  where
    go :
        (x : TaskState)
        → is_suspended x ≡ true
        → count t s.wait_list ≤ one_if (is_blocked x)
        → (count t s.wait_list ≡ 0) × (is_ready x ≡ false)
    go TaskState.ready e h = cc
    go TaskState.blocked e h = cc
    go TaskState.suspended e h = (omega arith, refl)

pub disable-IsValid : (s : Sched) → IsValid s → IsValid (disable s)
unfolding disable
disable-IsValid s v = with_cpu-IsValid (intr_disable (cpu_of s)) s v

pub SameReady-disable : (s : Sched) → SameReady s (disable s)
unfolding disable
SameReady-disable s = SameReady-with_cpu (intr_disable (cpu_of s)) s

pub Masked-disable : (s : Sched) → (s.tasks s.current).intr_nest + 1 < 2 ^ 15 → Masked (disable s)
unfolding disable intr_disable
Masked-disable s h = ground arith

state-disable : (s : Sched) (t : ℕ) → ((disable s).tasks t).state ≡ (s.tasks t).state
unfolding disable
state-disable s t = sym (SameTask-with_cpu (intr_disable (cpu_of s)) s t).1

pub nest-ready_add :
    (t u : ℕ) (s : Sched) → ((ready_add t s).tasks u).intr_nest ≡ (s.tasks u).intr_nest
unfolding ready_add
nest-ready_add t u s = ground arith

pub wait-ready_add : (t : ℕ) (s : Sched) → (ready_add t s).wait_list ≡ s.wait_list
unfolding ready_add
wait-ready_add t s = refl

pub Masked-ready_add : (t : ℕ) (s : Sched) → Masked s → Masked (ready_add t s)
unfolding ready_add
Masked-ready_add t s (pos, small) = omega (arith, nest-ready_add t s.current s)

-- `TaskResume` of a suspended task does not crash; it makes the task ready and no other, and in the
-- state that it leaves, after a switch or without one, a task of the highest priority runs.
pub task_resume-Resumed :
    (t : ℕ) (s : Sched)
    → IsValid s
    → is_suspended (s.tasks t).state ≡ true
    → (s.tasks s.current).intr_nest + 1 < 2 ^ 15
    → Ends (Resumed t s) (task_resume t s)
unfolding task_resume
task_resume-Resumed t s v off small =
    let d = disable s in
    let off' : is_suspended (d.tasks t).state ≡ true = rw state-disable off in
    let (idle, not_ready) = suspended_idle d t (disable-IsValid s v) off' in
    rw off' (
      Ends-mono (preempt_and_enable (ready_add t d))
        (λ s' w. record {
          valid = w.valid;
          highest = w.highest;
          ready_now = λ u.
              w.same.ready_same u
              ∙ is_ready-ready_add t d u
              ∙ ap (λ b. if u == t then true else b) ((SameReady-disable s).ready_same u);
          wait_same = w.same.wait_same ∙ wait-ready_add t d ∙ (SameReady-disable s).wait_same;
        })
        (preempt_and_enable-Switched (ready_add t d)
          (ready_add-IsValid t d idle not_ready (disable-IsValid s v))
          (Masked-ready_add t d (Masked-disable s small))))
