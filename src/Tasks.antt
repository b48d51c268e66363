-- ===== src/Tasks.antt =====
-- The scheduler: system/kernel/task.c, include/system/task.h, and `LeaveIntr` and `YieldHandler` of
-- system/kernel/intr-entry.S as far as they choose who runs.
-- Tasks are numbered, and `tasks` is the memory of their records. The tail queues are lists.
pub mod Order
pub mod Owners
pub mod Switch
pub mod RoundRobin
pub mod Preempt
pub mod Woken
pub mod Notify
pub mod Wake
pub mod Faults
mod Tests
use demoscene.Prelude.{
  ℕ, zero, suc, ◌+◌, ◌-◌, ◌%◌, ◌^◌, bit_and, Bool, true, false, ◌&&◌, ◌||◌, not, Option, none, some,
  List, [], ◌∷◌, ltb, leb, ◌==◌, has_bits, if◌then◌else◌, count, ◌>>=◌,
}
use demoscene.Cpu.{Cpu, intr_disable, intr_enable, set_ipl, ipl_max}

pub data TaskState : Type 0 where
  ready blocked suspended : TaskState

abbrev pub is_ready : TaskState → Bool
is_ready ready = true
is_ready blocked = false
is_ready suspended = false

abbrev pub is_suspended : TaskState → Bool
is_suspended ready = false
is_suspended blocked = false
is_suspended suspended = true

-- `saved_ipl` is the mask in the SR that `SAVECTX` leaves on the stack; `canary` says whether the
-- lowest word of the stack is still STACK_CANARY; `waiting_at` is not 0 between the two writes of
-- `waitpt` in `TaskWait`.
pub record Task : Type 0 where
  pub prio : ℕ
  pub state : TaskState
  pub intr_nest : ℕ
  pub event_set : ℕ
  pub waiting_at : ℕ
  pub canary : Bool
  pub saved_ipl : ℕ

pub record Sched : Type 0 where
  pub tasks : ℕ → Task
  pub ready_list : List ℕ
  pub wait_list : List ℕ
  pub current : ℕ
  pub need_reschedule : Bool
  pub ipl : ℕ

-- What a call comes to: it returns; a failed `Assume` crashes; or `TaskYield` has switched to
-- another task, and the rest of the call runs when its task runs again. A ready list that the code
-- breaks, since it inserts a task a second time, is a crash too.
pub data Outcome : Type 0 where
  returns : Sched → Outcome
  switched : Sched → Outcome
  crash : Outcome

abbrev pub update : (ℕ → Task) → ℕ → Task → ℕ → Task
update tasks t task u = if u == t then task else tasks u

-- The processor as the running task sees it.
abbrev pub cpu_of : Sched → Cpu
cpu_of s = record { ipl = s.ipl; nest = (s.tasks s.current).intr_nest }

abbrev pub with_cpu : Cpu → Sched → Sched
with_cpu c s = record s {
  tasks = update s.tasks s.current (record (s.tasks s.current) { intr_nest = c.nest });
  ipl = c.ipl;
}

unfoldable pub disable : Sched → Sched
disable s = with_cpu (intr_disable (cpu_of s)) s

unfoldable pub enable : Sched → Outcome
enable s = elim (intr_enable (cpu_of s)) [ none ↦ crash | some c ↦ returns (with_cpu c s) ]

-- Before the first task of lower priority (0 is the highest).
unfoldable pub insert_by_prio : (ℕ → ℕ) → ℕ → List ℕ → List ℕ
insert_by_prio prio t [] = t ∷ []
insert_by_prio prio t (u ∷ us) =
    if leb (prio u) (prio t) then u ∷ insert_by_prio prio t us else t ∷ u ∷ us

abbrev pub prio_of : Sched → ℕ → ℕ
prio_of s t = (s.tasks t).prio

-- For a task that is on no list.
unfoldable pub ready_add : ℕ → Sched → Sched
ready_add t s = record s {
  ready_list = insert_by_prio (prio_of s) t s.ready_list;
  tasks = update s.tasks t (record (s.tasks t) { state = ready });
}

-- `TAILQ_REMOVE`, for an element of the list.
unfoldable pub remove : ℕ → List ℕ → List ℕ
remove t [] = []
remove t (u ∷ us) = if u == t then us else u ∷ remove t us

-- `ReadyChoose`, and what `TaskSwitch` does with its choice: the panic on an overwritten canary is
-- a crash.
unfoldable pub choose : Sched → Outcome
choose s = elim s.ready_list [
  | [] ↦ crash
  | t ∷ ts ↦
      if (s.tasks t).canary then returns (record s { ready_list = ts; current = t }) else crash
]

unfoldable pub put_back : Sched → Sched
put_back s = if is_ready (s.tasks s.current).state then ready_add s.current s else s

-- `TaskSwitch`, called with interrupts masked.
unfoldable pub task_switch : Sched → Outcome
task_switch s =
    if is_ready (s.tasks s.current).state && ltb 0 (count s.current s.ready_list)
    then crash
    else choose (put_back s)

-- `TaskYield`: the trap saves the mask with the context and masks interrupts, and the return from
-- it restores the mask of the task that runs next.
unfoldable pub save_context : Sched → Sched
save_context s = record s {
  tasks = update s.tasks s.current (record (s.tasks s.current) { saved_ipl = s.ipl });
  ipl = ipl_max;
}

unfoldable pub load_context : Outcome → Outcome
load_context (returns s) = switched (record s { ipl = (s.tasks s.current).saved_ipl })
load_context (switched s) = switched s
load_context crash = crash

unfoldable pub task_yield : Sched → Outcome
task_yield s = load_context (task_switch (save_context s))

-- Whether the first ready task has a higher priority than the running one.
unfoldable pub should_preempt : Sched → Bool
should_preempt s = elim s.ready_list [
  | [] ↦ false
  | t ∷ ts ↦ ltb (prio_of s t) (prio_of s s.current)
]

-- `MaybePreempt(); IntrEnable();`, the end of most calls. After a switch `IntrEnable` is left.
unfoldable pub preempt_and_enable : Sched → Outcome
preempt_and_enable s = if should_preempt s then task_yield s else enable s

unfoldable pub task_resume : ℕ → Sched → Outcome
task_resume t s0 =
    let s = disable s0 in
    if is_suspended (s.tasks t).state then preempt_and_enable (ready_add t s) else crash

unfoldable pub maybe_preempt_isr : Sched → Sched
maybe_preempt_isr s = if should_preempt s then record s { need_reschedule = true } else s

-- `SetIPL(SR_IM); Assume(ipl > IPL_NONE); ...; SetIPL(ipl);`
unfoldable pub in_isr : (Sched → Option Sched) → Sched → Outcome
in_isr body s =
    if ltb 0 s.ipl
    then elim (body (record s { ipl = ipl_max })) [
      | none ↦ crash
      | some s' ↦ returns (record s' { ipl = s.ipl })
    ]
    else crash

unfoldable pub task_resume_isr : ℕ → Sched → Outcome
task_resume_isr t =
    in_isr
      λ s. if is_suspended (s.tasks t).state then some (maybe_preempt_isr (ready_add t s)) else none

-- The return from an interrupt: `interrupted` is the mask of the interrupted code. If that is a
-- task, a pending reschedule switches tasks.
unfoldable pub leave_intr : (interrupted : ℕ) → Sched → Outcome
leave_intr interrupted s =
    let back = record s { ipl = interrupted } in
    if (interrupted == 0) && s.need_reschedule
    then task_yield (record back { need_reschedule = false })
    else returns back

-- `TAILQ_REMOVE` of a task that may be on no list: what it leaves then, by the links that the task had
-- when it was last there, is the parameter `absent`.
abbrev pub take_off : (absent : ℕ → List ℕ → List ℕ) → ℕ → List ℕ → List ℕ
take_off absent t l = if ltb 0 (count t l) then remove t l else absent t l

-- `TaskPrioritySet(tsk, prio)` for a task, and for the caller (`tsk` is NULL), which is then on the
-- ready list although it runs.
unfoldable pub task_priority_set : (absent : ℕ → List ℕ → List ℕ) → Option ℕ → ℕ → Sched → Outcome
task_priority_set absent target prio s0 =
    let s = disable s0 in
    elim target [
      | some t ↦
          if is_ready (s.tasks t).state
          then preempt_and_enable (
              ready_add t (record s {
                ready_list = take_off absent t s.ready_list;
                tasks = update s.tasks t (record (s.tasks t) { prio = prio });
              }))
          else crash
      | none ↦
          if ltb 0 (count s.current s.ready_list)
          then crash
          else preempt_and_enable (
              ready_add s.current (record s {
                tasks = update s.tasks s.current (record (s.tasks s.current) { prio = prio });
              }))
    ]

-- `TaskSuspend(tsk)` of a task, `tsk` not being NULL; `IntrEnable` is left after the switch.
unfoldable pub task_suspend : (absent : ℕ → List ℕ → List ℕ) → ℕ → Sched → Outcome
task_suspend absent t s0 =
    let s = disable s0 in
    if is_ready (s.tasks t).state
    then task_yield (record s {
      ready_list = take_off absent t s.ready_list;
      tasks = update s.tasks t (record (s.tasks t) { state = suspended });
    })
    else crash

-- The body of the `if` in `_TaskNotify`: the task leaves the wait list, keeps only the events that
-- it waits for among `events`, and is ready.
unfoldable pub unwait : ℕ → ℕ → Sched → Sched
unwait events t s = record s {
  wait_list = remove t s.wait_list;
  tasks =
      update s.tasks t (record (s.tasks t) { event_set = bit_and (s.tasks t).event_set events });
}

unfoldable pub wake_up : ℕ → ℕ → Sched → Sched
wake_up events t s = ready_add t (unwait events t s)

-- The loop of `_TaskNotify`: the tasks still to visit and the state; the result is the count of the
-- tasks that are woken, and the state.
unfoldable pub notify_loop : ℕ → List ℕ → Sched → ℕ × Sched
notify_loop events [] s = (0, s)
notify_loop events (t ∷ ts) s =
    let hit = has_bits (s.tasks t).event_set events in
    let (n, s') = notify_loop events ts (if hit then wake_up events t s else s) in
    (if hit then n + 1 else n, s')

unfoldable pub notify_all : ℕ → Sched → ℕ × Sched
notify_all events s = notify_loop events s.wait_list s

-- The result is the number of tasks that are woken; `none` is a failed `Assume(eventSet != 0)`.
unfoldable pub task_notify_isr : ℕ → Sched → Outcome
task_notify_isr events = in_isr λ s.
    if events == 0
    then none
    else (let (n, s') = notify_all events s in some (if n == 0 then s' else maybe_preempt_isr s'))

unfoldable pub task_notify : ℕ → Sched → Outcome
task_notify events s0 =
    if s0.ipl == 0
    then (let s = disable s0 in
        if events == 0
        then crash
        else (let (n, s') = notify_all events s in
            if n == 0 then enable s' else preempt_and_enable s'))
    else crash

-- `TaskWait` up to its `TaskYield`.
unfoldable pub task_wait : (absent : ℕ → List ℕ → List ℕ) → (waitpt events : ℕ) → Sched → Outcome
task_wait absent waitpt events s =
    if (s.ipl == 0) || (events == 0)
    then crash
    else task_yield (record s {
      tasks =
          update s.tasks s.current (record (s.tasks s.current) {
            waiting_at = waitpt;
            event_set = events;
            state = blocked;
          });
      ready_list = take_off absent s.current s.ready_list;
      wait_list = s.current ∷ s.wait_list;
    })

-- The rest of `TaskWait`, once the caller runs again: the events that woke it.
unfoldable pub task_wait_rest : Sched → ℕ × Sched
task_wait_rest s = (
  (s.tasks s.current).event_set,
  record s {
    tasks = update s.tasks s.current (record (s.tasks s.current) { waiting_at = 0; event_set = 0 });
  },
)
