-- ===== src/Events.antt =====
-- The queue of input events: system/drivers/event.c and include/system/event.h.
-- A ring of 32 events, `& (QUEUELEN - 1)` at each step of an index, that drops what does not fit.
pub mod Fifo
mod Tests
use demoscene.Prelude.{
  ℕ, ◌+◌, ◌-◌, ◌%◌, ◌^◌, bit_and, Option, none, some, List, [], ◌∷◌, ltb, if◌then◌else◌, get_or,
  set, replicate,
}
use mathlib.Core.Option
use demoscene.Cpu.{Cpu, critical, critical_isr}

-- Fields are bit patterns of the source's widths; `widget` is an address.
pub data Event : Type 0 where
  unknown : Event
  key : (modifier code ascii : ℕ) → Event
  mouse : (button x y xrel yrel : ℕ) → Event
  gui : (action widget : ℕ) → Event

abbrev pub queue_len : ℕ
queue_len = 32

pub record EventQueue : Type 0 where
  pub queue : List Event
  pub head : ℕ
  pub tail : ℕ
  pub used : ℕ

-- The queue as the loader zeroes it.
pub initial : EventQueue
initial = record { queue = replicate queue_len unknown; head = 0; tail = 0; used = 0 }

unfoldable pub push : Event → EventQueue → EventQueue
push event q =
    if ltb q.used queue_len
    then record q {
      queue = set q.queue q.tail event;
      tail = bit_and (q.tail + 1) (queue_len - 1);
      used = (q.used + 1) % 2 ^ 16;
    }
    else q

pub push_event_isr : Event → Cpu → EventQueue → Cpu × EventQueue
push_event_isr event c q = critical_isr (push event) c q

pub push_event : Event → Cpu → EventQueue → Option (Cpu × EventQueue)
push_event event c q = critical (push event) c q

-- The body of `PopEvent`: what goes through the pointer, if anything, and the new queue.
-- `used--` runs only at `used > 0`.
unfoldable pub pop : EventQueue → Option Event × EventQueue
pop q =
    if ltb 0 q.used
    then (
      some (get_or q.queue q.head unknown),
      record q { head = bit_and (q.head + 1) (queue_len - 1); used = q.used - 1 },
    )
    else (none, q)

pub pop_event : Cpu → EventQueue → Option (Cpu × (Option Event × EventQueue))
pop_event c q = critical (λ p. pop p.1) c (none, q)

-- The calls of drivers (at interrupt level) and of tasks, in order; the result lists what each
-- `PopEvent` gives, and is `none` after a crash of the critical section.
pub data Call : Type 0 where
  pushes_isr pushes : Event → Call
  pops : Call

pub run : Cpu → EventQueue → List Call → Option (List (Option Event))
run c q [] = some []
run c q (pushes_isr e ∷ calls) = let (c', q') = push_event_isr e c q in run c' q' calls
run c q (pushes e ∷ calls) = elim (push_event e c q) [
  | none ↦ none
  | some (c', q') ↦ run c' q' calls
]
run c q (pops ∷ calls) = elim (pop_event c q) [
  | none ↦ none
  | some (c', r) ↦ Option.map (λ es. r.0 ∷ es) (run c' r.1 calls)
]
