-- ===== src/Timers.antt =====
-- The four timers of the two CIA chips: system/drivers/cia-timer.c and include/system/timer.h.
-- `AcquireTimer` and `ReleaseTimer` hold a mutex round their bodies, so each is one step.
mod Allocation
mod Waiting
mod Tests
use demoscene.Prelude.{
  ℕ, zero, suc, ◌+◌, ◌-◌, ◌/◌, ◌%◌, ◌^◌, bit_and, bit_or, Bool, true, false, ◌&&◌, ◌||◌, not,
  Option, none, some, ◌>>=◌, leb, ◌==◌, if◌then◌else◌, has_bits,
}
use demoscene.Cpu.{Cpu}
use demoscene.Interrupts.{Chain, intb_ports, intb_exter, add_int_server, rem_int_server}

abbrev pub timer_any : ℕ
timer_any = 2 ^ 32 - 1

abbrev pub timer_ciab_b : ℕ
timer_ciab_b = 3

-- `InUse`, a byte, and the interrupt chains.
pub record State : Type 0 where
  pub in_use : ℕ
  pub chains : ℕ → Chain

-- CIA-A interrupts by PORTS, CIA-B by EXTER.
abbrev pub irq_of : ℕ → ℕ
irq_of num = if has_bits num 2 then intb_exter else intb_ports

abbrev pub matches : (num i : ℕ) → Bool
matches num i = (num == timer_any) || (num == i)

abbrev pub is_free : (in_use i : ℕ) → Bool
is_free in_use i = not (has_bits in_use (2 ^ i))

-- The loop of `AcquireTimer` from timer `i` with `count` timers left.
unfoldable pub find_timer : (num in_use i count : ℕ) → Option ℕ
find_timer num in_use i zero = none
find_timer num in_use i (suc count) =
    let later = find_timer num in_use (i + 1) count in
    if is_free in_use i && matches num i then some i else later

-- `server` numbers the interrupt servers of the timers, whose priorities are `prio`.
module _ (prio server : ℕ → ℕ) where
  unfoldable pub claim : Cpu → State → ℕ → Option (Cpu × (Option ℕ × State))
  claim c s i = do
    (c', chains) ← add_int_server prio (irq_of i) (server i) c s.chains
    some (c', (some i, record { in_use = bit_or s.in_use (2 ^ i); chains = chains }))

  -- The outer `none` is a failed `Assume`.
  unfoldable pub acquire_timer : ℕ → Cpu → State → Option (Cpu × (Option ℕ × State))
  acquire_timer num c s =
      if leb num timer_ciab_b || (num == timer_any)
      then (elim (find_timer num s.in_use 0 4) [
        | none ↦ some (c, (none, s))
        | some i ↦ claim c s i
      ])
      else none

  unfoldable pub release_timer : ℕ → Cpu → State → Option (Cpu × State)
  release_timer num c s = do
    (c', chains) ← rem_int_server (irq_of num) (server num) c s.chains
    some (c', record { in_use = bit_and s.in_use (255 - 2 ^ num); chains = chains })

-- The registers of the two timers of a chip, a byte each.
pub record Registers : Type 0 where
  pub cra : ℕ
  pub crb : ℕ
  pub talo : ℕ
  pub tahi : ℕ
  pub tblo : ℕ
  pub tbhi : ℕ

abbrev pub icrf_tb : ℕ
icrf_tb = 2

abbrev pub crf_start : ℕ
crf_start = 1

abbrev pub crf_load : ℕ
crf_load = 16

unfoldable pub load_timer : (icr delay flags : ℕ) → Registers → Registers
load_timer icr delay flags r =
    if icr == icrf_tb
    then record r {
      crb = bit_or (bit_or r.crb crf_load) (bit_or flags crf_start) % 256;
      tblo = delay % 256;
      tbhi = delay / 256 % 256;
    }
    else record r {
      cra = bit_or (bit_or r.cra crf_load) (bit_or flags crf_start) % 256;
      talo = delay % 256;
      tahi = delay / 256 % 256;
    }
