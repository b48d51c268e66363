-- ===== src/Tasks/Owners.antt =====
-- Every ready task stands once on the ready list or runs, and no task is on two lists.
use demoscene.Prelude.{
  ℕ, ◌+◌, ◌≤◌, ◌≡◌, ◌≢◌, refl, sym, ap, ◌∙◌, inl, inr, Bool, true, false, ◌&&◌, not, arith, ◌==◌,
  ==_iff, Bool-cases, if◌then◌else◌,
}
use demoscene.Tasks.{
  TaskState, ready, blocked, suspended, is_ready, Task, Sched, prio_of, ready_add, with_cpu,
}
use demoscene.Prelude.{count}
use demoscene.Tasks.Order.{IsSorted, IsSorted-ext, insert-IsSorted, count-insert}
use demoscene.Cpu.{Cpu}

abbrev pub is_blocked : TaskState → Bool
is_blocked ready = false
is_blocked blocked = true
is_blocked suspended = false

abbrev pub one_if : Bool → ℕ
one_if b = if b then 1 else 0

-- How often a task is to stand on the ready list: ready tasks but the running one, or all of them.
abbrev pub listed : Sched → ℕ → ℕ
listed s t = one_if (is_ready (s.tasks t).state && not (s.current == t))

abbrev pub full : Sched → ℕ → ℕ
full s t = one_if (is_ready (s.tasks t).state)

-- The lists of a state, where `owed` says how often each task is on the ready list.
pub record Queues (s : Sched) (owed : ℕ → ℕ) : Type 0 where
  pub sorted : IsSorted (prio_of s) s.ready_list
  pub ready_once : (t : ℕ) → count t s.ready_list ≡ owed t
  pub wait_once : (t : ℕ) → count t s.wait_list ≤ one_if (is_blocked (s.tasks t).state)
  pub canaries : (t : ℕ) → (s.tasks t).canary ≡ true

-- A state in which a task runs: it is ready, and stands on no list.
pub record IsValid (s : Sched) : Type 0 where
  pub queues : Queues s (listed s)
  pub running : is_ready (s.tasks s.current).state ≡ true

-- The fields of a task that the queues depend on.
abbrev pub SameTask : Task → Task → Type 0
SameTask a b = (a.prio ≡ b.prio) × (a.state ≡ b.state) × (a.canary ≡ b.canary)

pub Queues-ext :
    (s s' : Sched) {o o' : ℕ → ℕ}
    → s.ready_list ≡ s'.ready_list
    → s.wait_list ≡ s'.wait_list
    → ((t : ℕ) → SameTask (s.tasks t) (s'.tasks t))
    → ((t : ℕ) → o t ≡ o' t)
    → Queues s o
    → Queues s' o'
Queues-ext s s' {o} {o'} er ew same eo q = record {
  sorted =
      rw (← er) (IsSorted-ext (prio_of s) (prio_of s') s.ready_list (λ t. (same t).0) q.sorted);
  ready_once = λ t. ap (count t) (sym er) ∙ q.ready_once t ∙ eo t;
  wait_once = λ t. rw (← ew, ← (same t).1) (q.wait_once t);
  canaries = λ t. sym (same t).2 ∙ q.canaries t;
}

pub SameTask-with_cpu :
    (c : Cpu) (s : Sched) (t : ℕ) → SameTask (s.tasks t) ((with_cpu c s).tasks t)
SameTask-with_cpu c s t = ground arith

pub with_cpu-IsValid : (c : Cpu) (s : Sched) → IsValid s → IsValid (with_cpu c s)
with_cpu-IsValid c s v = record {
  queues =
      Queues-ext s (with_cpu c s) refl refl (SameTask-with_cpu c s)
        (λ t. ap (λ x. one_if (is_ready x && not (s.current == t))) (SameTask-with_cpu c s t).1)
        v.queues;
  running = ap is_ready (sym (SameTask-with_cpu c s s.current).1) ∙ v.running;
}

-- `ReadyAdd` of a task that is on no list.
module _ (t : ℕ) (s : Sched) where
  pub prio-ready_add : (u : ℕ) → ((ready_add t s).tasks u).prio ≡ (s.tasks u).prio
  unfolding ready_add
  prio-ready_add u = ground arith

  pub ready_add-Queues :
      {o o' : ℕ → ℕ}
      → count t s.wait_list ≡ 0
      → ((u : ℕ) → o' u ≡ o u + one_if (t == u))
      → Queues s o
      → Queues (ready_add t s) o'
  unfolding ready_add
  ready_add-Queues {o} {o'} idle eo q = record {
    sorted =
        IsSorted-ext (prio_of s) (prio_of (ready_add t s)) _ (λ u. sym (prio-ready_add u))
          (insert-IsSorted (prio_of s) t s.ready_list q.sorted);
    ready_once =
        λ u. omega (arith, count-insert (prio_of s) u t s.ready_list, q.ready_once u, eo u);
    wait_once = λ u. elim (Bool-cases (u == t)) [
      | inl same ↦ rw (same, (==_iff u t).0 same) (omega (arith, idle))
      | inr other ↦ rw other (q.wait_once u)
    ];
    canaries = λ u. elim (Bool-cases (u == t)) [
      | inl same ↦ rw same (q.canaries t)
      | inr other ↦ rw other (q.canaries u)
    ];
  }

  pub is_ready-ready_add :
      (u : ℕ)
      → is_ready ((ready_add t s).tasks u).state
        ≡ (if u == t then true else is_ready (s.tasks u).state)
  unfolding ready_add
  is_ready-ready_add u = elim (Bool-cases (u == t)) [ inl same ↦ rw same | inr other ↦ rw other ]

  current_ne : is_ready (s.tasks t).state ≡ false → IsValid s → s.current ≢ t
  current_ne off v e = cc (v.running, off, e)

  listed-ready_add :
      (u : ℕ)
      → is_ready (s.tasks t).state ≡ false
      → s.current ≢ t
      → listed (ready_add t s) u ≡ listed s u + one_if (t == u)
  listed-ready_add u off ne = rw is_ready-ready_add (elim (Bool-cases (u == t)) [
    | inl same ↦
        let e : u ≡ t = (==_iff u t).0 same in rw (e, off) (unfold ready_add in ground arith)
    | inr other ↦ rw other (unfold ready_add in ground arith)
  ])

  -- A task that neither runs nor is ready joins the ready list.
  pub ready_add-IsValid :
      count t s.wait_list ≡ 0
      → is_ready (s.tasks t).state ≡ false
      → IsValid s
      → IsValid (ready_add t s)
  unfolding ready_add
  ready_add-IsValid idle off v = record {
    queues = ready_add-Queues idle (λ u. listed-ready_add u off (current_ne off v)) v.queues;
    running = ground (arith, current_ne off v, v.running);
  }
