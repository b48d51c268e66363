-- ===== src/Tasks/Tests.antt =====
-- The scheduler at a concrete state: task 1 runs, 2 is ready, 3 is suspended, 4 waits for events.
use demoscene.Prelude.{
  ℕ, ◌+◌, ◌≡◌, refl, Gives, true, false, [], ◌∷◌, ◌++◌, arith, ◌==◌, inr, if◌then◌else◌, ◌||◌,
}
use demoscene.Tasks.{
  TaskState, ready, blocked, suspended, Task, Sched, prio_of, insert_by_prio, task_yield,
  task_resume, task_notify, task_notify_isr, leave_intr,
}
use demoscene.Prelude.{count}
use demoscene.Tasks.Order.{IsSorted, at_prio, insert_by_prio_lem}
use demoscene.Tasks.Owners.{IsValid}
use demoscene.Tasks.Switch.{Ends, Switched, Highest, task_yield-Switched}
use demoscene.Tasks.RoundRobin.{yields, yields_reach}
use demoscene.Tasks.Preempt.{Resumed, task_resume-Resumed}
use demoscene.Tasks.Wake.{
  Promised, Woken, notified_interrupt-Highest, task_notify-Woken, task_notify_isr-Woken,
}

abbrev task : ℕ → TaskState → ℕ → Task
task prio state events = record {
  prio = prio;
  state = state;
  intr_nest = 0;
  event_set = events;
  waiting_at = 0;
  canary = true;
  saved_ipl = 0;
}

abbrev tasks : ℕ → Task
tasks t =
    if t == 1
    then task 5 ready 0
    else if t == 2
    then task 7 ready 0
    else if t == 4
    then task 4 blocked 6
    else task 2 suspended 0

abbrev state : Sched
state = record {
  tasks = tasks;
  ready_list = 2 ∷ [];
  wait_list = 4 ∷ [];
  current = 1;
  need_reschedule = false;
  ipl = 0;
}

state-IsValid : IsValid state
state-IsValid = record {
  queues = record {
    sorted = omega arith;
    ready_once = λ t. ground arith;
    wait_once = λ t. ground arith;
    canaries = λ t. ground arith;
  };
  running = refl;
}

abbrev at_interrupt : Sched
at_interrupt = record state { ipl = 3 }

at_interrupt-IsValid : IsValid at_interrupt
at_interrupt-IsValid = record {
  queues = record {
    sorted = omega arith;
    ready_once = λ t. ground arith;
    wait_once = λ t. ground arith;
    canaries = λ t. ground arith;
  };
  running = refl;
}

state-Highest : Highest state
state-Highest = omega arith

insert_by_prio_lem_example :
    IsSorted (prio_of state) (insert_by_prio (prio_of state) 1 (3 ∷ 2 ∷ []))
    × ((t : ℕ)
        → count t (insert_by_prio (prio_of state) 1 (3 ∷ 2 ∷ []))
          ≡ count t (3 ∷ 2 ∷ []) + (if 1 == t then 1 else 0))
    × ((k : ℕ)
        → at_prio (prio_of state) k (insert_by_prio (prio_of state) 1 (3 ∷ 2 ∷ []))
          ≡ at_prio (prio_of state) k (3 ∷ 2 ∷ []) ++ (if prio_of state 1 == k then 1 ∷ [] else []))
insert_by_prio_lem_example = insert_by_prio_lem (prio_of state) 1 (3 ∷ 2 ∷ []) (omega arith)

task_yield-Switched_example : Ends (Switched state) (task_yield state)
task_yield-Switched_example = task_yield-Switched state state-IsValid.queues (2, refl)

-- Tasks 1, 2 and 3 have one priority.
abbrev peers : Sched
peers = record {
  tasks = λ t. if (t == 1) || (t == 2) || (t == 3) then task 5 ready 0 else task 5 suspended 0;
  ready_list = 2 ∷ 3 ∷ [];
  wait_list = [];
  current = 1;
  need_reschedule = false;
  ipl = 0;
}

peers-IsValid : IsValid peers
peers-IsValid = record {
  queues = record {
    sorted = omega arith;
    ready_once = λ t. ground arith;
    wait_once = λ t. ground arith;
    canaries = λ t. ground arith;
  };
  running = refl;
}

yields_reach_example : Gives (λ s. (s.current ≡ 3) × IsValid s) (yields 2 peers)
yields_reach_example = yields_reach (2 ∷ []) [] 3 peers peers-IsValid refl (refl, (refl, tt))

task_resume-Resumed_example : Ends (Resumed 3 state) (task_resume 3 state)
task_resume-Resumed_example = task_resume-Resumed 3 state state-IsValid refl (omega arith)

notified_interrupt-Highest_example :
    Ends
      (λ s1. Woken 2 at_interrupt s1 × Ends (λ s2. IsValid s2 × Highest s2) (leave_intr 0 s1))
      (task_notify_isr 2 at_interrupt)
notified_interrupt-Highest_example =
    notified_interrupt-Highest 2 at_interrupt at_interrupt-IsValid state-Highest (omega arith)
      (omega arith)

task_notify-Woken_example : Ends (λ s. Woken 2 state s × Highest s) (task_notify 2 state)
task_notify-Woken_example =
    task_notify-Woken 2 state state-IsValid state-Highest (omega arith) refl (omega arith)

task_notify_isr-Woken_example :
    Ends (λ s. Woken 2 at_interrupt s × Promised s) (task_notify_isr 2 at_interrupt)
task_notify_isr-Woken_example =
    task_notify_isr-Woken 2 at_interrupt at_interrupt-IsValid (inr (omega arith)) (omega arith)
      (omega arith)
