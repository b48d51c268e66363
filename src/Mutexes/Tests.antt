-- ===== src/Mutexes/Tests.antt =====
-- Mutexes at a concrete state: task 1 runs and holds the mutex, 2 is ready, 4 waits for the mutex.
use demoscene.Prelude.{List}
use demoscene.Prelude.{
  ℕ, ◌≡◌, refl, true, false, Bool, Option, none, some, [], ◌∷◌, arith, ◌==◌, if◌then◌else◌,
}
use demoscene.Tasks.{
  TaskState, ready, blocked, suspended, Task, Sched, disable, task_yield, task_switch, save_context,
  put_back, ready_add, insert_by_prio, choose, load_context, task_resume, should_preempt,
  preempt_and_enable,
}
use demoscene.Tasks.Owners.{IsValid}
use demoscene.Tasks.Switch.{Ends, Highest}
use demoscene.Mutexes.{on, mutex_init}
use demoscene.Mutexes.{Mutex, System, Call, mutex_lock, mutex_unlock, run_calls, call, lock_loop}
use demoscene.Mutexes.Lock.{Locked, mutex_lock-Locked}
use demoscene.Mutexes.Unlock.{Released, mutex_unlock-Released}

abbrev task : ℕ → TaskState → Task
task prio state = record {
  prio = prio;
  state = state;
  intr_nest = 0;
  event_set = 0;
  waiting_at = 0;
  canary = true;
  saved_ipl = 0;
}

abbrev tasks : ℕ → Task
tasks t =
    if t == 1
    then task 5 ready
    else if t == 2
    then task 7 ready
    else if t == 4
    then task 4 blocked
    else task 2 suspended

abbrev state : Sched
state = record {
  tasks = tasks;
  ready_list = 2 ∷ [];
  wait_list = [];
  current = 1;
  need_reschedule = false;
  ipl = 0;
}

abbrev mutex : Mutex
mutex = record { owner = some 1; waiters = 4 ∷ [] }

state-IsValid : IsValid state
state-IsValid = record {
  queues = record {
    sorted = omega arith;
    ready_once = λ t. ground arith;
    wait_once = λ t. ground arith;
    canaries = λ t. ground arith;
  };
  running = refl;
}

state-Highest : Highest state
state-Highest = omega arith

abbrev is_running : Option System → ℕ → Bool
is_running none t = false
is_running (some w) t = w.sched.current == t

-- A `TAILQ_REMOVE` of a task that is not there leaves the list.
abbrev no_change : ℕ → List ℕ → List ℕ
no_change t l = l

-- Mutex 0 is held by task 1, the others are free.
abbrev mutexes : ℕ → Mutex
mutexes k = if k == 0 then mutex else mutex_init

abbrev calls : List Call
calls = Call.resume 3 ∷ Call.lock 1 5 ∷ Call.wait 7 2 ∷ []

-- After task 1 has locked its mutex again, task 2 runs; it resumes task 3, which runs next.
relock_runs_others :
    is_running
      (run_calls no_change
        (Call.lock 0 9 ∷ Call.resume 3 ∷ Call.yield ∷ [])
        (record { mutexes = mutexes; sched = state }))
      3
    ≡ true
unfolding run_calls call on mutex_lock lock_loop task_yield task_switch save_context put_back choose
    load_context disable task_resume preempt_and_enable should_preempt ready_add insert_by_prio
relock_runs_others = refl

mutex_lock-Locked_example : Locked (some 1) (4 ∷ []) state (mutex_lock 9 mutex state)
mutex_lock-Locked_example =
    mutex_lock-Locked 9 mutex state 2 state-IsValid state-Highest (omega arith) refl refl

mutex_unlock-Released_example :
    ((mutex_unlock mutex state).0 ≡ record { owner = none; waiters = [] })
    × Ends (Released (4 ∷ []) state) (mutex_unlock mutex state).1
mutex_unlock-Released_example =
    mutex_unlock-Released mutex state state-IsValid state-Highest (omega arith) refl
      ((refl, refl), tt)
