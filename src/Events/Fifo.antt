-- ===== src/Events/Fifo.antt =====
-- The event queue against a bounded queue on lists.
use demoscene.Prelude.{
  ℕ, zero, suc, ◌+◌, ◌-◌, ◌≤◌, ◌<◌, ◌^◌, bit_and, ◌≡◌, refl, ap, true, Option, none, some, List, [],
  ◌∷◌, ◌++◌, arith, ltb, ◌==◌, ==_iff, if◌then◌else◌, length, get_or, length-set, all_below,
  all_below_sound,
}
use demoscene.Prelude.Ring.{slot, window, length-window, window-set}
use demoscene.Cpu.{Cpu}
use demoscene.Cpu.Nesting.{critical_lem, critical_isr_lem}
use demoscene.Events.{
  Event, unknown, EventQueue, queue_len, initial, push, pop, push_event, push_event_isr, pop_event,
  Call, pushes_isr, pushes, pops, run,
}

pub record IsValid (q : EventQueue) : Type 0 where
  pub room : queue_len ≤ length q.queue
  pub head_in : q.head < queue_len
  pub used_in : q.used ≤ queue_len
  pub tail_at : q.tail ≡ slot queue_len q.head q.used

abbrev pub contents : EventQueue → List Event
contents q = window queue_len unknown q.queue q.head q.used

mask_table : all_below 32 (λ i. bit_and (i + 1) 31 == slot 32 i 1) ≡ true
unfolding all_below
mask_table = refl

mask_step : (i : ℕ) → i < 32 → bit_and (i + 1) 31 ≡ slot 32 i 1
mask_step i h = (==_iff _ _).0 (all_below_sound 32 _ i mask_table h)

pub initial-IsValid : IsValid initial
unfolding initial
initial-IsValid = omega arith

pub push-IsValid : (e : Event) {q : EventQueue} → IsValid q → IsValid (push e q)
unfolding push
push-IsValid e {q} v = ground (arith, mask_step q.tail, length-set q.queue q.tail e)

pub pop-IsValid : {q : EventQueue} → IsValid q → IsValid (pop q).1
unfolding pop
pop-IsValid {q} v = ground (arith, mask_step q.head)

-- A bounded queue: what a reader of the interface expects.
unfoldable pub spec_push : Event → List Event → List Event
spec_push e es = if ltb (length es) queue_len then es ++ (e ∷ []) else es

unfoldable pub spec_pop : List Event → Option Event × List Event
spec_pop [] = (none, [])
spec_pop (e ∷ es) = (some e, es)

unfoldable pub spec_run : List Event → List Call → List (Option Event)
spec_run es [] = []
spec_run es (pushes_isr e ∷ calls) = spec_run (spec_push e es) calls
spec_run es (pushes e ∷ calls) = spec_run (spec_push e es) calls
spec_run es (pops ∷ calls) = let (e, es') = spec_pop es in e ∷ spec_run es' calls

pub push_refines :
    (e : Event) {q : EventQueue} → IsValid q → contents (push e q) ≡ spec_push e (contents q)
unfolding push spec_push
push_refines e {q} v = ground (
  arith,
  length-window queue_len unknown q.queue q.head q.used,
  window-set queue_len unknown q.queue e q.used q.head q.tail,
)

window-pop :
    (buf : List Event) (h n : ℕ)
    → 0 < n
    → window 32 unknown buf h n ≡ get_or buf h unknown ∷ window 32 unknown buf (slot 32 h 1) (n - 1)
window-pop buf h zero pos = absurd (omega arith)
window-pop buf h (suc n) pos = ap (λ k. window 32 unknown buf h (suc k)) (omega arith)

pub pop_refines :
    {q : EventQueue} → IsValid q → let (e, q') = pop q in (e, contents q') ≡ spec_pop (contents q)
unfolding pop spec_pop
pop_refines {q} v = ground (arith, mask_step q.head, window-pop q.queue q.head q.used)

-- A processor state in which the critical sections neither crash nor wrap their count.
pub record IsReady (c : Cpu) : Type 0 where
  pub depth : c.nest + 1 < 2 ^ 15
  pub mask : c.ipl < 8

abbrev after_task : Cpu → Cpu
after_task c = record c { ipl = if c.nest == 0 then 0 else 7 }

after_task-IsReady : {c : Cpu} → IsReady c → IsReady (after_task c)
after_task-IsReady r = ground arith

push_event_isr-push :
    (e : Event) {c : Cpu} (q : EventQueue) → IsReady c → push_event_isr e c q ≡ (c, push e q)
unfolding push_event_isr
push_event_isr-push e {c} q r = critical_isr_lem (push e) c q r.mask

push_event-push :
    (e : Event) {c : Cpu} (q : EventQueue)
    → IsReady c
    → push_event e c q ≡ some (after_task c, push e q)
unfolding push_event
push_event-push e {c} q r = critical_lem (push e) c q r.depth

pop_event-pop : {c : Cpu} (q : EventQueue) → IsReady c → pop_event c q ≡ some (after_task c, pop q)
unfolding pop_event
pop_event-pop {c} q r =
    critical_lem (λ (p : Option Event × EventQueue). pop p.1) c (none, q) r.depth

-- Whatever calls drivers and tasks make, none crashes, and the events that `PopEvent` gives are
-- those of the bounded queue of at most 32 events that drops what does not fit.
pub run_refines :
    (calls : List Call) {c : Cpu} {q : EventQueue}
    → IsReady c
    → IsValid q
    → run c q calls ≡ some (spec_run (contents q) calls)
unfolding run spec_run
run_refines [] r v = refl
run_refines (pushes_isr e ∷ calls) {c} {q} r v =
    rw (push_event_isr-push e q r, run)
      (rw (run_refines calls r (push-IsValid e v), push_refines e v))
run_refines (pushes e ∷ calls) {c} {q} r v =
    rw (push_event-push e q r, run)
      (rw (run_refines calls (after_task-IsReady r) (push-IsValid e v), push_refines e v))
run_refines (pops ∷ calls) {c} {q} r v =
    rw (pop_event-pop q r, run)
      (rw (run_refines calls (after_task-IsReady r) (pop-IsValid v), ← pop_refines v))
