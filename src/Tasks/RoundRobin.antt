-- ===== src/Tasks/RoundRobin.antt =====
-- Tasks of one priority take turns.
use demoscene.Prelude.{◌&&◌, ltb, count, false}
use demoscene.Prelude.{
  ℕ, suc, zero, ◌≡◌, refl, sym, ap, ◌∙◌, true, Option, none, some, ◌>>=◌, List, [], ◌∷◌, ◌++◌, All,
  All-mono, arith, ==_iff, length, Gives, gives, Gives-bind,
}
use demoscene.Tasks.{
  is_ready, Sched, Outcome, returns, switched, crash, prio_of, insert_by_prio, ready_add, choose,
  put_back, save_context, load_context, task_switch, task_yield,
}
use demoscene.Tasks.Owners.{IsValid}
use demoscene.Tasks.Switch.{Ends, Ends-mono, task_yield-Switched}

abbrev pub state_of : Outcome → Option Sched
state_of (returns s) = some s
state_of (switched s) = some s
state_of crash = none

-- The state after a number of calls of `TaskYield`, each by the task that then runs.
unfoldable pub yields : ℕ → Sched → Option Sched
yields zero s = some s
yields (suc n) s = do s' ← state_of (task_yield s); yields n s'

module _ (p q : ℕ → ℕ) (same : (t : ℕ) → p t ≡ q t) where
  insert-ext : (t : ℕ) (ts : List ℕ) → insert_by_prio p t ts ≡ insert_by_prio q t ts
  unfolding insert_by_prio
  insert-ext t [] = refl
  insert-ext t (u ∷ us) = rw (same t, same u, insert-ext t us) refl

-- A task goes behind all that stand up to a task of its own priority, if they have that priority.
insert_behind :
    (prio : ℕ → ℕ) (t u : ℕ) (before after : List ℕ)
    → prio t ≡ prio u
    → All (λ x. prio x ≡ prio u) before
    → insert_by_prio prio t (before ++ u ∷ after) ≡ before ++ u ∷ insert_by_prio prio t after
unfolding insert_by_prio
insert_behind prio t u [] after same h = ground arith
insert_behind prio t u (x ∷ xs) after same (eq, h) =
    ground (arith, insert_behind prio t u xs after same h)

-- The queue moves on by one.
pub record Rotated (t : ℕ) (ts : List ℕ) (s s' : Sched) : Type 0 where
  pub current_is : s'.current ≡ t
  pub list_is : s'.ready_list ≡ ts

choose_first :
    (b : Sched) (t : ℕ) (ts : List ℕ)
    → b.ready_list ≡ t ∷ ts
    → (b.tasks t).canary ≡ true
    → choose b ≡ returns (record b { ready_list = ts; current = t })
unfolding choose
choose_first b t ts e whole = rw (e, whole) refl

module _ (s : Sched) (v : IsValid s) where
  saved_ready : is_ready ((save_context s).tasks (save_context s).current).state ≡ true
  unfolding save_context
  saved_ready = ground (arith, v.running)

  saved_once :
      let c = save_context s in
      (is_ready (c.tasks c.current).state && ltb 0 (count c.current c.ready_list)) ≡ false
  saved_once = rw saved_ready (unfold save_context in ground (arith, v.queues.ready_once s.current))

  saved_prio : (u : ℕ) → prio_of (save_context s) u ≡ prio_of s u
  unfolding save_context
  saved_prio u = ground (arith, ==_iff u s.current)

  queued_list :
      (put_back (save_context s)).ready_list ≡ insert_by_prio (prio_of s) s.current s.ready_list
  unfolding put_back ready_add
  queued_list = rw saved_ready (
      rw⁻¹ (insert-ext (prio_of (save_context s)) (prio_of s) saved_prio s.current s.ready_list)
        (unfold save_context in refl))

  queued_canary : (u : ℕ) → ((put_back (save_context s)).tasks u).canary ≡ true
  unfolding put_back ready_add save_context
  queued_canary u =
      rw saved_ready
        (ground (arith, v.queues.canaries u, v.queues.canaries s.current, ==_iff u s.current))

-- One turn: the first of the queue runs, and the queue is what the caller made of it.
pub record Turned (t : ℕ) (ts : List ℕ) (s s' : Sched) : Type 0 where
  pub current_is : s'.current ≡ t
  pub list_is : s'.ready_list ≡ ts
  pub valid : IsValid s'
  pub prio_same : (u : ℕ) → prio_of s' u ≡ prio_of s u

task_yield-Rotated :
    (s : Sched) (t : ℕ) (ts : List ℕ)
    → IsValid s
    → insert_by_prio (prio_of s) s.current s.ready_list ≡ t ∷ ts
    → Ends (Rotated t ts s) (task_yield s)
unfolding task_yield task_switch load_context
task_yield-Rotated s t ts v e =
    rw
      (
        saved_once s v,
        choose_first (put_back (save_context s)) t ts (queued_list s v ∙ e) (queued_canary s v t),
      )
      (record { current_is = refl; list_is = refl })

Gives-state_of : {P : Sched → Type 0} (o : Outcome) → Ends P o → Gives P (state_of o)
Gives-state_of (returns s) h = gives h
Gives-state_of (switched s) h = gives h
Gives-state_of crash h = absurd h

Ends-both : (P Q : Sched → Type 0) (o : Outcome) → Ends P o → Ends Q o → Ends (λ s. P s × Q s) o
Ends-both P Q (returns s) p q = (p, q)
Ends-both P Q (switched s) p q = (p, q)
Ends-both P Q crash p q = p

turn :
    (s : Sched) (t : ℕ) (ts : List ℕ)
    → IsValid s
    → insert_by_prio (prio_of s) s.current s.ready_list ≡ t ∷ ts
    → Gives (Turned t ts s) (state_of (task_yield s))
turn s t ts v e = Gives-state_of (task_yield s) (
    Ends-mono (task_yield s)
      (λ s' h. record {
        current_is = h.0.current_is;
        list_is = h.0.list_is;
        valid = h.1.valid;
        prio_same = h.1.same.prio_same;
      })
      (Ends-both _ _ (task_yield s) (task_yield-Rotated s t ts v e)
        (task_yield-Switched s v.queues (s.current, v.running))))

at_head :
    (before after : List ℕ) (u : ℕ) (s : Sched)
    → s.ready_list ≡ before ++ u ∷ after
    → prio_of s s.current ≡ prio_of s u
    → All (λ t. prio_of s t ≡ prio_of s u) before
    → insert_by_prio (prio_of s) s.current s.ready_list
      ≡ before ++ u ∷ insert_by_prio (prio_of s) s.current after
at_head before after u s e here all =
    ap (insert_by_prio (prio_of s) s.current) e
    ∙ insert_behind (prio_of s) s.current u before after here all

-- A task that waits behind others of its own priority, the running one and those before it on the
-- ready list, runs after one call of `TaskYield` for each of them, if nothing else happens. None of
-- the calls crashes, and the state is valid then.
pub yields_reach :
    (before after : List ℕ) (u : ℕ) (s : Sched)
    → IsValid s
    → s.ready_list ≡ before ++ u ∷ after
    → All (λ t. prio_of s t ≡ prio_of s u) (s.current ∷ before)
    → Gives (λ s'. (s'.current ≡ u) × IsValid s') (yields (suc (length before)) s)
unfolding yields
yields_reach [] after u s v e (here, _) =
    Gives-bind
      (turn s u (insert_by_prio (prio_of s) s.current after) v (at_head [] after u s e here tt))
      (λ s' h. gives (h.current_is, h.valid))
yields_reach (b ∷ bs) after u s v e (here, (first, others)) =
    let after' = insert_by_prio (prio_of s) s.current after in
    Gives-bind (turn s b (bs ++ u ∷ after') v (at_head (b ∷ bs) after u s e here (first, others)))
      (λ s' h. yields_reach bs after' u s' h.valid h.list_is (
        ap (prio_of s') h.current_is ∙ h.prio_same b ∙ first ∙ sym (h.prio_same u),
        All-mono bs (λ t eq. h.prio_same t ∙ eq ∙ sym (h.prio_same u)) others,
      ))
