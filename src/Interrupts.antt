-- ===== src/Interrupts.antt =====
-- Interrupt vectors and chains of interrupt servers: system/kernel/interrupt.c and
-- include/system/interrupt.h. Servers are numbered; `prio`, the field of each, is the bit pattern of
-- a `short`.
pub mod Order
pub mod Chains
mod Tests
use demoscene.Prelude.{
  ℕ, zero, suc, ◌^◌, bit_and, Bool, true, false, ◌||◌, not, Option, none, some, ◌>>=◌, List, [],
  ◌∷◌, ltb, leb, ◌==◌, if◌then◌else◌, has_bits, short_key,
}
use demoscene.Cpu.{Cpu, critical}

abbrev pub intb_ports : ℕ
intb_ports = 3

abbrev pub intb_vertb : ℕ
intb_vertb = 5

abbrev pub intb_exter : ℕ
intb_exter = 13

-- `enabled` and `requested` are the bits of the chain's flag in INTENA and INTREQ.
pub record Chain : Type 0 where
  pub head : List ℕ
  pub enabled : Bool
  pub requested : Bool

abbrev pub is_empty : List ℕ → Bool
is_empty [] = true
is_empty (x ∷ xs) = false

-- `GetIntChain` finds a chain for these and panics for any other.
abbrev pub has_chain : ℕ → Bool
has_chain irq = (irq == intb_vertb) || ((irq == intb_ports) || (irq == intb_exter))

abbrev pub set_chain : (ℕ → Chain) → ℕ → Chain → ℕ → Chain
set_chain chains irq ic n = if n == irq then ic else chains n

-- `if (!ic->head) { ClearIRQ; EnableINT; }`
unfoldable pub start : Chain → Chain
start ic = if is_empty ic.head then record ic { enabled = true; requested = false } else ic

-- `if (!ic->head) { DisableINT; ClearIRQ; }`
unfoldable pub stop : Chain → Chain
stop ic = if is_empty ic.head then record ic { enabled = false; requested = false } else ic

-- The loop of `RemIntServer`; `none` is a walk past the end of the chain.
unfoldable pub unlink : ℕ → List ℕ → Option (List ℕ)
unlink is [] = none
unlink is (s ∷ ss) =
    let rest = unlink is ss in if s == is then some ss else (do ss' ← rest; some (s ∷ ss'))

unfoldable pub rem_int_server : ℕ → ℕ → Cpu → (ℕ → Chain) → Option (Cpu × (ℕ → Chain))
rem_int_server irq is c chains =
    if has_chain irq
    then (do
      ss ← unlink is (chains irq).head
      critical (λ all. set_chain all irq (stop (record (all irq) { head = ss }))) c chains)
    else none

module _ (prio : ℕ → ℕ) where
  -- Before the first server whose priority is not lower.
  unfoldable pub insert_server : ℕ → List ℕ → List ℕ
  insert_server is [] = is ∷ []
  insert_server is (s ∷ ss) =
      let rest = insert_server is ss in
      if ltb (short_key (prio s)) (short_key (prio is)) then s ∷ rest else is ∷ s ∷ ss

  unfoldable pub add_server : ℕ → Chain → Chain
  add_server is ic = let ic' = start ic in record ic' { head = insert_server is ic'.head }

  unfoldable pub add_int_server : ℕ → ℕ → Cpu → (ℕ → Chain) → Option (Cpu × (ℕ → Chain))
  add_int_server irq is c chains =
      if has_chain irq
      then critical (λ all. set_chain all irq (add_server is (all irq))) c chains
      else none

-- `code` is what each server does to the rest of the system; none of them changes the chain.
module _ {ℓ} {S : Type ℓ} (code : ℕ → S → S) where
  pub run_servers : List ℕ → S → S
  run_servers [] s = s
  run_servers (is ∷ rest) s = run_servers rest (code is s)

  -- The loop tests behind its body: an empty chain is a jump through NULL, `none`.
  unfoldable pub run_int_chain : Chain → S → Option (Chain × S)
  run_int_chain ic s = elim ic.head [
    | [] ↦ none
    | is ∷ rest ↦ some (record ic { requested = false }, run_servers rest (code is s))
  ]

-- What a vector holds: `DummyInterruptHandler`, `RunIntChain` of a chain, or a handler with its data.
pub data Handler : Type 0 where
  dummy : Handler
  chain : ℕ → Handler
  handler : (code data_of : ℕ) → Handler

-- `intenar` is what INTENA reads; `none` is the panic on an enabled interrupt.
unfoldable pub set_int_vector :
    (intenar : ℕ) → ℕ → Option Handler → (ℕ → Handler) → Option (ℕ → Handler)
set_int_vector intenar irq code iv =
    if has_bits intenar (2 ^ irq)
    then none
    else some (λ n. if n == irq then (elim code [ none ↦ dummy | some h ↦ h ]) else iv n)

pub reset_below : (intenar count : ℕ) → (ℕ → Handler) → Option (ℕ → Handler)
reset_below intenar zero iv = some iv
reset_below intenar (suc n) iv = do
  iv' ← reset_below intenar n iv
  set_int_vector intenar n none iv'

-- `SetupInterruptVector`, behind the writes of the autovectors.
unfoldable pub setup_interrupt_vector : (intenar : ℕ) → (ℕ → Handler) → Option (ℕ → Handler)
setup_interrupt_vector intenar iv = do
  iv' ← reset_below intenar 14 iv
  iv' ← set_int_vector intenar intb_ports (some (chain intb_ports)) iv'
  iv' ← set_int_vector intenar intb_vertb (some (chain intb_vertb)) iv'
  set_int_vector intenar intb_exter (some (chain intb_exter)) iv'
