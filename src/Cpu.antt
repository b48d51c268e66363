-- ===== src/Cpu.antt =====
-- The interrupt mask of the processor and the nesting count of the running task:
-- include/system/cpu.h, system/kernel/cpu.S and the first part of system/kernel/interrupt.c.
pub mod Nesting
mod Tests
use demoscene.Prelude.{
  ℕ, ◌+◌, ◌-◌, ◌%◌, ◌^◌, Bool, ◌&&◌, Option, none, some, ltb, ◌==◌, if◌then◌else◌,
}

-- `ipl` is the interrupt mask of SR, 0 to 7; `nest` is `CurrentTask->intrNest`, the bit pattern
-- of a `short`.
pub record Cpu : Type 0 where
  pub ipl : ℕ
  pub nest : ℕ

abbrev pub ipl_max : ℕ
ipl_max = 7

-- A `short` that is greater than 0.
abbrev pub short_positive : ℕ → Bool
short_positive n = ltb 0 n && ltb n (2 ^ 15)

unfoldable pub intr_disable : Cpu → Cpu
intr_disable c = record c { ipl = ipl_max; nest = (c.nest + 1) % 2 ^ 16 }

-- `none` is the crash of a failed `Assume(IntrNest > 0)`.
unfoldable pub intr_enable : Cpu → Option Cpu
intr_enable c =
    if short_positive c.nest
    then some (
        if c.nest - 1 == 0
        then record c { ipl = 0; nest = c.nest - 1 }
        else record c { nest = c.nest - 1 })
    else none

-- The mask is replaced; the old one is the result.
unfoldable pub set_ipl : ℕ → Cpu → ℕ × Cpu
set_ipl new c = (c.ipl, record c { ipl = new % 8 })

-- `IntrDisable(); body; IntrEnable();` round a body that does not touch the processor state.
unfoldable pub critical {ℓ} : {A : Type ℓ} → (A → A) → Cpu → A → Option (Cpu × A)
critical body c a = elim (intr_enable (intr_disable c)) [
  | none ↦ none
  | some c' ↦ some (c', body a)
]

-- `ipl = SetIPL(SR_IM); body; SetIPL(ipl);`
unfoldable pub critical_isr {ℓ} : {A : Type ℓ} → (A → A) → Cpu → A → Cpu × A
critical_isr body c a =
    let (old, masked) = set_ipl ipl_max c in
    let (now, restored) = set_ipl old masked in (restored, body a)
