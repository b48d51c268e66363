-- ===== src/Events/Tests.antt =====
-- Runs of the event queue, and its theorem at a concrete history.
use demoscene.Prelude.{◌≡◌, refl, none, some, [], ◌∷◌, arith}
use demoscene.Cpu.{Cpu, critical, critical_isr, intr_enable, intr_disable, set_ipl}
use demoscene.Events.{
  Event, key, mouse, initial, push, pop, pushes, pushes_isr, pops, run, push_event, pop_event,
  push_event_isr,
}
use demoscene.Events.Fifo.{initial-IsValid, contents, spec_run, run_refines}

abbrev task : Cpu
task = record { ipl = 0; nest = 0 }

abbrev letter : Event
letter = key 1 0x20 b'a'

abbrev motion : Event
motion = mouse 0 10 20 3 253

two_events :
    run task initial (pushes_isr letter ∷ pushes motion ∷ pops ∷ pops ∷ pops ∷ [])
    ≡ some (some letter ∷ some motion ∷ none ∷ [])
unfolding run initial push pop push_event pop_event push_event_isr critical critical_isr intr_enable
    intr_disable set_ipl
two_events = refl

run_refines_example :
    run task initial (pushes_isr letter ∷ pops ∷ pops ∷ [])
    ≡ some (spec_run (contents initial) (pushes_isr letter ∷ pops ∷ pops ∷ []))
run_refines_example =
    run_refines (pushes_isr letter ∷ pops ∷ pops ∷ [])
      (record { depth = omega arith; mask = omega arith }) initial-IsValid
