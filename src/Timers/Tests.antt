-- ===== src/Timers/Tests.antt =====
-- The theorems on timers with timer 0 in use.
use demoscene.Prelude.{
  ℕ, zero, suc, ◌+◌, ◌≡◌, refl, true, false, [], ◌∷◌, arith, ◌==◌, if◌then◌else◌, Gives, Bool, some,
  inr,
}
use demoscene.Cpu.{Cpu}
use demoscene.Interrupts.{Chain}
use demoscene.Interrupts.Order.{Absent}
use demoscene.Interrupts.Chains.{IsValid}
use demoscene.Timers.{State, acquire_timer, timer_any, irq_of, is_free, Registers, find_timer}
use demoscene.Keyboard.{Cia, sample_icr}
use demoscene.Tasks.{ready, blocked, suspended, is_ready, Sched}
use demoscene.Tasks.Owners
use demoscene.Tasks.Switch.{Ends}
use demoscene.Timers.Waiting.{timer_handler, timer_handler_wakes}
use demoscene.Timers.Allocation.{Ready, Acquired, acquire_timer-Acquired}

abbrev prio : ℕ → ℕ
prio n = 0

-- The server of timer `i` is `10 + i`.
abbrev server : ℕ → ℕ
server i = 10 + i

abbrev task : Cpu
task = record { ipl = 0; nest = 0 }

abbrev one : Chain
one = record { head = 10 ∷ []; enabled = true; requested = false }

abbrev idle : Chain
idle = record { head = []; enabled = false; requested = false }

abbrev state : State
state = record { in_use = 1; chains = λ n. if n == 3 then one else idle }

find_timer-second : find_timer timer_any 1 0 4 ≡ some 1
unfolding find_timer
find_timer-second = refl

state-Ready : Ready prio server state
state-Ready = record {
  byte = omega arith;
  ordered = λ n. chain_of (n == 3);
  idle = λ i free. absent i (irq_of i == 3) free;
}
  where
    chain_of : (b : Bool) → IsValid prio (if b then one else idle)
    chain_of true = record { ordered = (tt, tt); on_iff = refl }
    chain_of false = record { ordered = tt; on_iff = refl }

    absent :
        (i : ℕ) (b : Bool) → is_free 1 i ≡ true → Absent (server i) (if b then one else idle).head
    absent zero true free = absurd (ground arith)
    absent i false free = tt
    absent (suc i) true free = ((λ e. absurd (omega (arith, e))), tt)

acquire_timer-Acquired_example :
    Gives
      (Acquired prio server timer_any task state)
      (acquire_timer prio server timer_any task state)
acquire_timer-Acquired_example =
    acquire_timer-Acquired prio server timer_any task state refl (omega arith) state-Ready

abbrev registers : Registers
registers = record { cra = 0; crb = 0; talo = 7; tahi = 8; tblo = 0; tbhi = 0 }

abbrev timer_b : ℕ
timer_b = 2

-- Task 1 runs, and task 4 waits for timer A of CIA-A.
abbrev sched : Sched
sched = record {
  tasks = λ t. record {
    prio = 5;
    state = if t == 1 then ready else if t == 4 then blocked else suspended;
    intr_nest = 0;
    event_set = if t == 4 then 16384 else 0;
    waiting_at = 0;
    canary = true;
    saved_ipl = 0;
  };
  ready_list = [];
  wait_list = 4 ∷ [];
  current = 1;
  need_reschedule = false;
  ipl = 6;
}

sched-IsValid : Owners.IsValid sched
sched-IsValid = record {
  queues = record {
    sorted = tt;
    ready_once = λ t. ground arith;
    wait_once = λ t. ground arith;
    canaries = λ t. refl;
  };
  running = refl;
}

abbrev cia : Cia
cia = record { enabled = 3; pending = 0; cra = 0 }

-- Timer A of CIA-B times out.
timer_handler_wakes_example :
    Ends
      (λ s'. Owners.IsValid s' × (is_ready (s'.tasks 4).state ≡ true))
      (timer_handler 1 2 cia sched).1
timer_handler_wakes_example =
    timer_handler_wakes 1 2 0 4 cia sched sched-IsValid (inr tt) (omega arith)
      (unfold sample_icr in refl) refl (omega arith) refl
