-- ===== src/Mutexes.antt =====
-- Mutexes: system/kernel/mutex.c and include/system/mutex.h, with MULTITASK defined.
-- A call works on the mutex and on the scheduler. What it comes to is an outcome of Tasks: a task
-- that has to wait has switched, and when it runs again it goes on with `lock_again`.
pub mod Sleeping
pub mod Others
pub mod Deadlock
pub mod Lock
pub mod Unlock
mod Tests
use demoscene.Prelude.{
  ℕ, Bool, true, false, Option, none, some, List, [], ◌∷◌, ◌++◌, ◌==◌, if◌then◌else◌, ◌>>=◌,
}
use demoscene.Tasks.{
  blocked, Sched, Outcome, returns, switched, crash, update, disable, enable, task_yield, ready_add,
  preempt_and_enable, task_resume, task_resume_isr, task_notify, task_notify_isr, task_suspend,
  task_wait, task_priority_set, leave_intr,
}

pub record Mutex : Type 0 where
  pub owner : Option ℕ
  pub waiters : List ℕ

abbrev pub mutex_init : Mutex
mutex_init = record { owner = none; waiters = [] }

-- The test of the loop of `MutexLock` and what follows it, up to `TaskYield` or to the end.
unfoldable pub lock_loop : (waitpt : ℕ) → Mutex → Sched → Mutex × Outcome
lock_loop waitpt m s = elim m.owner [
  | none ↦ (record m { owner = some s.current }, enable s)
  | some _ ↦ (
    record m { waiters = m.waiters ++ s.current ∷ [] },
    task_yield (record s {
      tasks =
          update s.tasks s.current
            (record (s.tasks s.current) { waiting_at = waitpt; state = blocked });
    }),
  )
]

unfoldable pub mutex_lock : (waitpt : ℕ) → Mutex → Sched → Mutex × Outcome
mutex_lock waitpt m s = lock_loop waitpt m (disable s)

-- The rest of `MutexLock` when `TaskYield` returns.
unfoldable pub lock_again : (waitpt : ℕ) → Mutex → Sched → Mutex × Outcome
lock_again waitpt m s =
    lock_loop waitpt m (record s {
      tasks = update s.tasks s.current (record (s.tasks s.current) { waiting_at = 0 });
    })

abbrev pub owned_by : Option ℕ → ℕ → Bool
owned_by none t = false
owned_by (some u) t = u == t

-- The rest of `MutexUnlock`, with the tasks that wait.
unfoldable pub hand_over : List ℕ → Sched → Mutex × Outcome
hand_over [] s = (mutex_init, enable s)
hand_over (t ∷ ts) s = (record { owner = none; waiters = ts }, preempt_and_enable (ready_add t s))

unfoldable pub mutex_unlock : Mutex → Sched → Mutex × Outcome
mutex_unlock m s0 =
    let s = disable s0 in if owned_by m.owner s.current then hand_over m.waiters s else (m, crash)

-- What the running task, or an interrupt, does next; mutexes are numbered. `left` is the return from
-- an interrupt.
pub data Call : Type 0 where
  lock relock : (k waitpt : ℕ) → Call
  unlock : (k : ℕ) → Call
  yield : Call
  wait : (waitpt events : ℕ) → Call
  notify notify_isr : (events : ℕ) → Call
  resume resume_isr suspend : (t : ℕ) → Call
  priority : (target : Option ℕ) (prio : ℕ) → Call
  left : (interrupted : ℕ) → Call

-- The mutexes and the scheduler.
pub record System : Type 0 where
  pub mutexes : ℕ → Mutex
  pub sched : Sched

-- The state that an outcome leaves to whoever runs, unless the system has crashed.
abbrev pub left_with : (ℕ → Mutex) × Outcome → Option System
left_with (ms, returns s) = some (record { mutexes = ms; sched = s })
left_with (ms, switched s) = some (record { mutexes = ms; sched = s })
left_with (ms, crash) = none

-- A call of one mutex.
unfoldable pub on : (k : ℕ) → (ℕ → Mutex) → Mutex × Outcome → (ℕ → Mutex) × Outcome
on k ms (m, o) = ((λ j. if j == k then m else ms j), o)

-- `absent` is as in `take_off`.
module _ (absent : ℕ → List ℕ → List ℕ) where
  unfoldable pub call : Call → (ℕ → Mutex) → Sched → (ℕ → Mutex) × Outcome
  call (lock k waitpt) ms s = on k ms (mutex_lock waitpt (ms k) s)
  call (relock k waitpt) ms s = on k ms (lock_again waitpt (ms k) s)
  call (unlock k) ms s = on k ms (mutex_unlock (ms k) s)
  call yield ms s = (ms, task_yield s)
  call (wait waitpt events) ms s = (ms, task_wait absent waitpt events s)
  call (notify events) ms s = (ms, task_notify events s)
  call (notify_isr events) ms s = (ms, task_notify_isr events s)
  call (resume t) ms s = (ms, task_resume t s)
  call (resume_isr t) ms s = (ms, task_resume_isr t s)
  call (suspend t) ms s = (ms, task_suspend absent t s)
  call (priority target prio) ms s = (ms, task_priority_set absent target prio s)
  call (left interrupted) ms s = (ms, leave_intr interrupted s)

  unfoldable pub run_calls : List Call → System → Option System
  run_calls [] w = some w
  run_calls (c ∷ cs) w = do w' ← left_with (call c w.mutexes w.sched); run_calls cs w'
