-- ===== src/Interrupts/Tests.antt =====
-- The theorems on interrupt servers at a chain of two servers.
use demoscene.Prelude.{ℕ, ◌≡◌, refl, false, true, [], ◌∷◌, arith, Gives, ◌>>=◌, ◌==◌, if◌then◌else◌}
use demoscene.Cpu.{Cpu}
use demoscene.Interrupts.{Chain, insert_server, add_int_server, rem_int_server}
use demoscene.Interrupts.Chains.{
  Taken, rem_int_server-Taken, IsValid, rem_int_server-add_int_server,
}

-- Server 1 has priority -5, server 2 has 0, and server 3 has 10.
abbrev prio : ℕ → ℕ
prio n = if n == 1 then 65531 else if n == 2 then 0 else 10

abbrev task : Cpu
task = record { ipl = 0; nest = 0 }

abbrev two : Chain
two = record { head = 1 ∷ 3 ∷ []; enabled = true; requested = true }

abbrev chains : ℕ → Chain
chains n = two

two-IsValid : IsValid prio two
two-IsValid = record { ordered = ((omega arith, tt), (tt, tt)); on_iff = refl }

insert_server-two : insert_server prio 2 (1 ∷ 3 ∷ []) ≡ 1 ∷ 2 ∷ 3 ∷ []
unfolding insert_server
insert_server-two = refl

rem_int_server-Taken_example : Gives (Taken prio 5 3 task chains) (rem_int_server 5 3 task chains)
rem_int_server-Taken_example =
    rem_int_server-Taken prio 5 3 task chains refl (omega arith) two-IsValid refl

rem_int_server-add_int_server_example :
    Gives
      (λ r.
        ((r.1 13).head ≡ 1 ∷ 3 ∷ [])
        × ((r.1 13).enabled ≡ true)
        × ((n : ℕ) → (n == 13) ≡ false → r.1 n ≡ two))
      (do (c', added) ← add_int_server prio 13 2 task chains; rem_int_server 13 2 c' added)
rem_int_server-add_int_server_example =
    rem_int_server-add_int_server prio 13 2 task chains refl (omega arith) two-IsValid
      (λ e. absurd (omega (arith, e)), (λ e. absurd (omega (arith, e)), tt))
