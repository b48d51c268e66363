-- ===== src/Tasks/Woken.antt =====
-- `_TaskNotify` at one waiting task.
use demoscene.Prelude.{
  All, ℕ, ◌≤◌, ◌<◌, ◌^◌, ◌≡◌, refl, sym, ap, ◌∙◌, inl, inr, true, false, ◌&&◌, not, List, [], ◌∷◌,
  arith, ◌==◌, ==_iff, Bool-cases, if◌then◌else◌, has_bits, bit_and,
}
use demoscene.Tasks.{TaskState, is_ready, Sched, prio_of, ready_add, remove, unwait, wake_up}
use demoscene.Prelude.{count}
use demoscene.Tasks.Order.{IsSorted-ext, count-remove}
use demoscene.Tasks.Owners.{IsValid, is_blocked, one_if, ready_add-IsValid, is_ready-ready_add}

abbrev pub events_of : Sched → ℕ → ℕ
events_of s t = (s.tasks t).event_set

-- The interrupts of the running task are disabled, and their count does not overflow a `short`.
abbrev pub Masked : Sched → Type 0
Masked s = (0 < (s.tasks s.current).intr_nest) × ((s.tasks s.current).intr_nest < 2 ^ 15)

-- The tasks of a list that wait for one of the events, by what each waits for, and the others.
abbrev pub hits : ℕ → (ℕ → ℕ) → List ℕ → List ℕ
hits events wants [] = []
hits events wants (t ∷ ts) =
    if has_bits (wants t) events then t ∷ hits events wants ts else hits events wants ts

abbrev pub misses : ℕ → (ℕ → ℕ) → List ℕ → List ℕ
misses events wants [] = []
misses events wants (t ∷ ts) =
    if has_bits (wants t) events then misses events wants ts else t ∷ misses events wants ts

pub hits-ext :
    (events : ℕ) (w w' : ℕ → ℕ) (ts : List ℕ)
    → All (λ t. w t ≡ w' t) ts
    → (hits events w ts ≡ hits events w' ts) × (misses events w ts ≡ misses events w' ts)
hits-ext events w w' [] h = (refl, refl)
hits-ext events w w' (t ∷ ts) (e, h) =
    let (eh, em) = hits-ext events w w' ts h in rw (e, eh, em) (refl, refl)

pub blocked_of_waiting :
    (s : Sched) (t : ℕ)
    → IsValid s
    → 0 < count t s.wait_list
    → (is_ready (s.tasks t).state ≡ false) × (count t s.wait_list ≡ 1)
blocked_of_waiting s t v pos = go (s.tasks t).state (v.queues.wait_once t)
  where
    go :
        (x : TaskState)
        → count t s.wait_list ≤ one_if (is_blocked x)
        → (is_ready x ≡ false) × (count t s.wait_list ≡ 1)
    go TaskState.ready h = absurd (omega arith)
    go TaskState.blocked h = (refl, omega arith)
    go TaskState.suspended h = absurd (omega arith)

module _ (events t : ℕ) (s : Sched) where
  same-unwait :
      (u : ℕ)
      → (((unwait events t s).tasks u).prio ≡ (s.tasks u).prio)
        × (((unwait events t s).tasks u).state ≡ (s.tasks u).state)
        × (((unwait events t s).tasks u).canary ≡ (s.tasks u).canary)
  unfolding unwait
  same-unwait u = elim (Bool-cases (u == t)) [
    | inl e ↦ rw (e, (==_iff u t).0 e) (refl, refl, refl)
    | inr e ↦ rw e (refl, refl, refl)
  ]

  unwait-IsValid : IsValid s → IsValid (unwait events t s)
  unfolding unwait
  unwait-IsValid v = record {
    queues = record {
      sorted =
          IsSorted-ext (prio_of s) (prio_of (unwait events t s)) s.ready_list
            (λ u. sym (same-unwait u).0) v.queues.sorted;
      ready_once = λ u.
          v.queues.ready_once u
          ∙ ap (λ x. one_if (is_ready x && not (s.current == u))) (sym (same-unwait u).1);
      wait_once = λ u.
          rw (same-unwait u).1 (omega (arith, count-remove u t s.wait_list, v.queues.wait_once u));
      canaries = λ u. (same-unwait u).2 ∙ v.queues.canaries u;
    };
    running = ap is_ready (same-unwait s.current).1 ∙ v.running;
  }

  pub wake_up-IsValid : IsValid s → 0 < count t s.wait_list → IsValid (wake_up events t s)
  unfolding wake_up unwait
  wake_up-IsValid v waits =
      let (off, once) = blocked_of_waiting s t v waits in
      ready_add-IsValid t (unwait events t s) (ground (arith, count-remove t t s.wait_list))
        (ap is_ready (same-unwait t).1 ∙ off) (unwait-IsValid v)

  pub wake_up_fields : (wake_up events t s).wait_list ≡ remove t s.wait_list
  unfolding wake_up unwait ready_add
  wake_up_fields = refl

  pub events-wake_up :
      (u : ℕ)
      → events_of (wake_up events t s) u
        ≡ (if u == t then bit_and (events_of s t) events else events_of s u)
  unfolding wake_up unwait ready_add
  events-wake_up u = ground arith

  pub Masked-wake_up : Masked s → Masked (wake_up events t s)
  unfolding wake_up unwait ready_add
  Masked-wake_up (pos, small) = ground arith

  pub is_ready-wake_up :
      (u : ℕ)
      → is_ready ((wake_up events t s).tasks u).state
        ≡ (if u == t then true else is_ready (s.tasks u).state)
  unfolding wake_up
  is_ready-wake_up u =
      is_ready-ready_add t (unwait events t s) u
      ∙ ap (λ x. if u == t then true else is_ready x) (same-unwait u).1
