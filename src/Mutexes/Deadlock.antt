-- ===== src/Mutexes/Deadlock.antt =====
-- A task that locks a mutex which it holds already waits for itself for ever.
use Prim.{Unit}
use demoscene.Prelude.{Bool}
use demoscene.Prelude.{ℕ, ◌≡◌, true, false, Option, none, some, ◌==◌, count}
use demoscene.Tasks.{Outcome}
use demoscene.Mutexes.{Mutex, System}
use demoscene.Mutexes.Sleeping.{Asleep, Leaves}

-- The task holds mutex `k`, waits for no other and does not run.
pub record Stuck (k t : ℕ) (w : System) : Type 0 where
  pub owned : (w.mutexes k).owner ≡ some t
  pub elsewhere : (j : ℕ) → (j == k) ≡ false → count t (w.mutexes j).waiters ≡ 0
  pub asleep : Asleep t w.sched

-- If there is a system, it satisfies `P`.
abbrev pub IfAny : (System → Type 0) → Option System → Type 0
IfAny P none = Unit
IfAny P (some w) = P w

-- What a call of mutex `j` keeps.
record Kept (mine : Bool) (t : ℕ) (r : Mutex × Outcome) : Type 0 where
  owned : mine ≡ true → r.0.owner ≡ some t
  elsewhere : mine ≡ false → count t r.0.waiters ≡ 0
  asleep : Leaves (Asleep t) r.1
