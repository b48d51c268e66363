-- ===== src/Cpu/Tests.antt =====
-- Runs of critical sections at concrete states.
use demoscene.Prelude.{◌≡◌, refl, none, some}
use demoscene.Cpu.{Cpu, intr_disable, intr_enable}

abbrev task : Cpu
task = record { ipl = 0; nest = 0 }

intr_enable_nested :
    intr_enable (intr_disable (intr_disable task)) ≡ some (record { ipl = 7; nest = 1 })
unfolding intr_enable intr_disable
intr_enable_nested = refl

intr_enable_unpaired : intr_enable task ≡ none
unfolding intr_enable
intr_enable_unpaired = refl
