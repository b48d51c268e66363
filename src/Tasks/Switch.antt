-- ===== src/Tasks/Switch.antt =====
-- `TaskSwitch` and `TaskYield` hand the processor to the first task of the highest priority.
use demoscene.Prelude.{
  All, ℕ, ◌+◌, ◌≤◌, ◌≡◌, refl, sym, ap, subst, ◌∙◌, inl, inr, Bool, true, false, ◌&&◌, not, List,
  [], ◌∷◌, arith, ltb, ◌==◌, ==_iff, Bool-cases, if◌then◌else◌,
}
use demoscene.Tasks.{
  TaskState, is_ready, Sched, Outcome, returns, switched, crash, prio_of, ready_add, choose,
  put_back, save_context, load_context, task_switch, task_yield,
}
use demoscene.Prelude.{count}
use demoscene.Tasks.Order.{IsSorted}
use demoscene.Tasks.Owners.{
  Queues, IsValid, listed, full, one_if, is_blocked, ready_add-Queues, is_ready-ready_add,
  Queues-ext, SameTask,
}

-- No ready task has a higher priority than the running one.
abbrev pub Highest : Sched → Type 0
Highest s = All (λ t. prio_of s s.current ≤ prio_of s t) s.ready_list

-- A call ends well: it does not crash, and the state that it leaves to whoever runs satisfies `P`.
abbrev pub Ends : (Sched → Type 0) → Outcome → Type 0
Ends P (returns s) = P s
Ends P (switched s) = P s
Ends P crash = ⊥

-- The same tasks are ready, and the same ones wait.
pub record SameReady (s s' : Sched) : Type 0 where
  pub ready_same : (t : ℕ) → is_ready (s'.tasks t).state ≡ is_ready (s.tasks t).state
  pub wait_same : s'.wait_list ≡ s.wait_list
  pub prio_same : (t : ℕ) → prio_of s' t ≡ prio_of s t

pub record Switched (s s' : Sched) : Type 0 where
  pub valid : IsValid s'
  pub highest : Highest s'
  pub same : SameReady s s'

pub wait_zero :
    (s : Sched) (t : ℕ) {o : ℕ → ℕ}
    → Queues s o
    → is_ready (s.tasks t).state ≡ true
    → count t s.wait_list ≡ 0
wait_zero s t q r = go (s.tasks t).state r (q.wait_once t)
  where
    go :
        (x : TaskState)
        → is_ready x ≡ true
        → count t s.wait_list ≤ one_if (is_blocked x)
        → count t s.wait_list ≡ 0
    go TaskState.ready e h = omega arith
    go TaskState.blocked e h = cc
    go TaskState.suspended e h = cc

module _ (s : Sched) (q : Queues s (listed s)) where
  pub put_back-Queues : Queues (put_back s) (full (put_back s))
  unfolding put_back
  put_back-Queues = elim (Bool-cases (is_ready (s.tasks s.current).state)) [
    | inl on ↦ rw on (
        ready_add-Queues s.current s (wait_zero s s.current q on)
          (λ u. rw is_ready-ready_add (now u on)) q)
    | inr off ↦ rw off (Queues-ext s s refl refl (λ t. (refl, refl, refl)) (still off) q)
  ]
    where
      now :
          (u : ℕ)
          → is_ready (s.tasks s.current).state ≡ true
          → one_if (if u == s.current then true else is_ready (s.tasks u).state)
            ≡ listed s u + one_if (s.current == u)
      now u on = ground arith

      still : is_ready (s.tasks s.current).state ≡ false → (u : ℕ) → listed s u ≡ full s u
      still off u = elim (Bool-cases (s.current == u)) [
        | inl same ↦ ground (arith, (==_iff s.current u).0 same)
        | inr other ↦ ground arith
      ]

-- Someone can run.
abbrev pub SomeReady : Sched → Type 0
SomeReady s = (t : ℕ) × (is_ready (s.tasks t).state ≡ true)

module _ (b : Sched) (q : Queues b (full b)) where
  chosen-Queues :
      (t : ℕ) (ts : List ℕ)
      → b.ready_list ≡ t ∷ ts
      → let s' = record b { ready_list = ts; current = t } in Queues s' (listed s')
  chosen-Queues t ts e =
      let sorted : IsSorted (prio_of b) (t ∷ ts) = subst (IsSorted (prio_of b)) e q.sorted in
      let once : (u : ℕ) → count u (t ∷ ts) ≡ full b u =
        λ u. ap (count u) (sym e) ∙ q.ready_once u in
      record {
        sorted = sorted.1;
        ready_once = λ u. ground (arith, once u, once t);
        wait_once = q.wait_once;
        canaries = q.canaries;
      }

  head_ready : (t : ℕ) (ts : List ℕ) → b.ready_list ≡ t ∷ ts → is_ready (b.tasks t).state ≡ true
  head_ready t ts e =
      let once : count t (t ∷ ts) ≡ full b t = ap (count t) (sym e) ∙ q.ready_once t in
      ground (arith, once)

  pub choose-Switched : (l : List ℕ) → b.ready_list ≡ l → SomeReady b → Ends (Switched b) (choose b)
  unfolding choose
  choose-Switched [] e (t, r) =
      let once : count t [] ≡ full b t = ap (count t) (sym e) ∙ q.ready_once t in
      absurd (ground (arith, once))
  choose-Switched (t ∷ ts) e _ =
      rw (e, choose, q.canaries t)
        (record {
          valid = record { queues = chosen-Queues t ts e; running = head_ready t ts e };
          highest = (subst (IsSorted (prio_of b)) e q.sorted).0;
          same = record { ready_same = λ u. refl; wait_same = refl; prio_same = λ u. refl };
        })

SameReady-put_back : (s : Sched) → SameReady s (put_back s)
unfolding put_back ready_add
SameReady-put_back s = elim (Bool-cases (is_ready (s.tasks s.current).state)) [
  | inl on ↦ rw on (record {
    ready_same = λ t. ground (arith, (==_iff t s.current).0);
    wait_same = refl;
    prio_same = λ t. ground arith;
  })
  | inr off ↦ rw off (record { ready_same = λ t. refl; wait_same = refl; prio_same = λ t. refl })
]

pub SameReady-trans : {s t u : Sched} → SameReady s t → SameReady t u → SameReady s u
SameReady-trans p q = record {
  ready_same = λ x. q.ready_same x ∙ p.ready_same x;
  wait_same = q.wait_same ∙ p.wait_same;
  prio_same = λ x. q.prio_same x ∙ p.prio_same x;
}

pub Ends-mono :
    {P Q : Sched → Type 0} (o : Outcome) → ((s : Sched) → P s → Q s) → Ends P o → Ends Q o
Ends-mono (returns s) f h = f s h
Ends-mono (switched s) f h = f s h
Ends-mono crash f h = h

-- `TaskSwitch` of a state with its lists in order, in which some task is ready, does not crash: it
-- leaves a valid state in which a task of the highest priority runs, with the same tasks ready and
-- waiting as before.
pub task_switch-Switched :
    (s : Sched) → Queues s (listed s) → SomeReady s → Ends (Switched s) (task_switch s)
unfolding task_switch
task_switch-Switched s q (t, r) =
    let b = put_back s in
    let once : (is_ready (s.tasks s.current).state && ltb 0 (count s.current s.ready_list))
        ≡ false =
      ground (arith, q.ready_once s.current) in
    rw once (
      Ends-mono (choose b)
        (λ s' w. record {
          valid = w.valid;
          highest = w.highest;
          same = SameReady-trans (SameReady-put_back s) w.same;
        })
        (choose-Switched b (put_back-Queues s q) b.ready_list refl
          (t, (SameReady-put_back s).ready_same t ∙ r)))

SameTask-save_context : (s : Sched) (t : ℕ) → SameTask (s.tasks t) ((save_context s).tasks t)
unfolding save_context
SameTask-save_context s t = ground arith

SameReady-save_context : (s : Sched) → SameReady s (save_context s)
unfolding save_context
SameReady-save_context s = record {
  ready_same = λ t. ap is_ready (sym (SameTask-save_context s t).1);
  wait_same = refl;
  prio_same = λ t. sym (SameTask-save_context s t).0;
}

save_context-Queues :
    (s : Sched) → Queues s (listed s) → Queues (save_context s) (listed (save_context s))
unfolding save_context
save_context-Queues s q =
    Queues-ext s (save_context s) refl refl (SameTask-save_context s)
      (λ t. ap (λ x. one_if (is_ready x && not (s.current == t))) (SameTask-save_context s t).1) q

-- Neither the mask nor the flag of a pending reschedule matters.
pub Switched-flags :
    (s s' : Sched) (ipl : ℕ) (pending : Bool)
    → Switched s s'
    → Switched s (record s' { ipl = ipl; need_reschedule = pending })
Switched-flags s s' ipl pending w = record {
  valid = record {
    queues =
        Queues-ext s' (record s' { ipl = ipl; need_reschedule = pending }) refl refl
          (λ t. (refl, refl, refl)) (λ t. refl) w.valid.queues;
    running = w.valid.running;
  };
  highest = w.highest;
  same = record {
    ready_same = w.same.ready_same;
    wait_same = w.same.wait_same;
    prio_same = w.same.prio_same;
  };
}

load_context-Switched :
    (s : Sched) (o : Outcome) → Ends (Switched s) o → Ends (Switched s) (load_context o)
unfolding load_context
load_context-Switched s (returns s') w = Switched-flags s s' _ s'.need_reschedule w
load_context-Switched s (switched s') w = w
load_context-Switched s crash w = w

-- `TaskYield` in a state with its lists in order, in which some task is ready, does not crash: it
-- leaves a valid state in which a task of the highest priority runs, with the same tasks ready and
-- waiting as before.
pub task_yield-Switched :
    (s : Sched) → Queues s (listed s) → SomeReady s → Ends (Switched s) (task_yield s)
unfolding task_yield
task_yield-Switched s q (t, r) =
    let saved = save_context s in
    load_context-Switched s (task_switch saved) (
      Ends-mono (task_switch saved)
        (λ s' w. record {
          valid = w.valid;
          highest = w.highest;
          same = SameReady-trans (SameReady-save_context s) w.same;
        })
        (task_switch-Switched saved (save_context-Queues s q)
          (t, (SameReady-save_context s).ready_same t ∙ r)))
