-- ===== src/Cpu/Nesting.antt =====
-- Critical sections nest.
use demoscene.Prelude.{ℕ, ◌+◌, ◌^◌, ◌<◌, ◌≡◌, ap, some, arith, ◌==◌, if◌then◌else◌}
use demoscene.Cpu.{Cpu, intr_disable, intr_enable, set_ipl, critical, critical_isr}

pub intr_enable-intr_disable :
    (c : Cpu)
    → c.nest + 1 < 2 ^ 15
    → intr_enable (intr_disable c)
      ≡ some (record c { ipl = if c.nest == 0 then 0 else 7; nest = c.nest })
unfolding intr_enable intr_disable
intr_enable-intr_disable c h = ground arith

pub critical_lem {ℓ} :
    {A : Type ℓ} (body : A → A) (c : Cpu) (a : A)
    → c.nest + 1 < 2 ^ 15
    → critical body c a ≡ some (record c { ipl = if c.nest == 0 then 0 else 7 }, body a)
unfolding critical
critical_lem body c a h = rw (intr_enable-intr_disable c h, critical)

pub critical_isr_lem {ℓ} :
    {A : Type ℓ} (body : A → A) (c : Cpu) (a : A) → c.ipl < 8 → critical_isr body c a ≡ (c, body a)
unfolding critical_isr set_ipl
critical_isr_lem body c a h = ap (λ (k : ℕ). (record c { ipl = k }, body a)) (omega arith)
