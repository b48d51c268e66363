-- ===== src/Tasks/Notify.antt =====
-- `TaskNotify` wakes the tasks that wait for one of the events, and those only.
use mathlib.Core.List.{append_assoc}
use demoscene.Prelude.{
  All, ℕ, suc, ◌+◌, ◌≤◌, ◌<◌, ◌≡◌, refl, sym, ap, ◌∙◌, inl, inr, Bool, true, false, List, [], ◌∷◌,
  ◌++◌, arith, ltb, ◌==◌, ==_iff, Bool-cases, if◌then◌else◌, has_bits, bit_and, length,
}
use demoscene.Tasks.{is_ready, Sched, remove, wake_up, notify_loop, notify_all}
use demoscene.Prelude.{count-append, count, All-count}
use demoscene.Tasks.Owners.{IsValid}
use demoscene.Tasks.Woken.{
  Masked, Masked-wake_up, blocked_of_waiting, events-wake_up, events_of, hits, hits-ext,
  is_ready-wake_up, misses, wake_up-IsValid, wake_up_fields,
}

remove_behind :
    (t : ℕ) (kept ts : List ℕ) → count t kept ≡ 0 → remove t (kept ++ t ∷ ts) ≡ kept ++ ts
unfolding remove
remove_behind t [] ts none = ground arith
remove_behind t (u ∷ us) ts none = ground (arith, remove_behind t us ts)

abbrev pub among : ℕ → List ℕ → Bool
among u us = ltb 0 (count u us)

-- The outcome of the loop over `ts`, where `kept` are the waiting tasks that it has passed.
pub record Notified (events : ℕ) (kept ts : List ℕ) (s : Sched) (r : ℕ × Sched) : Type 0 where
  pub valid : IsValid r.1
  pub number : r.0 ≡ length (hits events (events_of s) ts)
  pub waiting : r.1.wait_list ≡ kept ++ misses events (events_of s) ts
  pub ready_now :
      (u : ℕ)
      → is_ready (r.1.tasks u).state
        ≡ (if among u (hits events (events_of s) ts) then true else is_ready (s.tasks u).state)
  pub delivered :
      (u : ℕ)
      → events_of r.1 u ≡ (
          if among u (hits events (events_of s) ts)
          then bit_and (events_of s u) events
          else events_of s u)
  pub masked : Masked s → Masked r.1

alone :
    (s : Sched) (t : ℕ) (kept ts : List ℕ)
    → IsValid s
    → s.wait_list ≡ kept ++ t ∷ ts
    → (0 < count t s.wait_list) × (count t kept ≡ 0) × (count t ts ≡ 0)
alone s t kept ts v e =
    let total : count t s.wait_list ≡ count t kept + count t (t ∷ ts) =
      ap (count t) e ∙ count-append t kept (t ∷ ts) in
    let here : count t (t ∷ ts) ≡ suc (count t ts) = ground arith in
    let once = (blocked_of_waiting s t v (omega arith)).1 in omega arith

others_same :
    (events t : ℕ) (s : Sched) (ts : List ℕ)
    → count t ts ≡ 0
    → All (λ u. events_of (wake_up events t s) u ≡ events_of s u) ts
others_same events t s ts none =
    All-count ts λ u pos. events-wake_up events t s u ∙ ground (arith, (==_iff u t).0)

count-hits_le :
    (u events : ℕ) (wants : ℕ → ℕ) (ts : List ℕ) → count u (hits events wants ts) ≤ count u ts
count-hits_le u events wants [] = omega arith
count-hits_le u events wants (t ∷ ts) = ground (arith, count-hits_le u events wants ts)

-- One more woken task in front, at the level of a single task `u`.
ready_cons :
    (u t : ℕ) (us : List ℕ) (after before : Bool)
    → after ≡ (if among u us then true else if u == t then true else before)
    → after ≡ (if among u (t ∷ us) then true else before)
ready_cons u t us after before h = ground arith

delivered_cons :
    (u t : ℕ) (us : List ℕ) (after events : ℕ) (wants : ℕ → ℕ)
    → count t us ≡ 0
    → after ≡ (
        if among u us
        then bit_and (if u == t then bit_and (wants t) events else wants u) events
        else if u == t
        then bit_and (wants t) events
        else wants u)
    → after ≡ (if among u (t ∷ us) then bit_and (wants u) events else wants u)
delivered_cons u t us after events wants none h = elim (Bool-cases (u == t)) [
  | inl e ↦ let same : u ≡ t = (==_iff u t).0 e in rw same (rw (same, none) at h ∙ ground arith)
  | inr e ↦ ground arith
]

module _ (events t : ℕ) (kept ts : List ℕ) (s : Sched) (v : IsValid s)
    (e : s.wait_list ≡ kept ++ t ∷ ts) where
  notify_hit :
      has_bits (events_of s t) events ≡ true
      → Notified events kept ts (wake_up events t s) (notify_loop events ts (wake_up events t s))
      → Notified events kept (t ∷ ts) s (notify_loop events (t ∷ ts) s)
  unfolding notify_loop
  notify_hit hit r =
      let (waits, out, later) = alone s t kept ts v e in
      let (same_hits, same_misses) =
        hits-ext events (events_of (wake_up events t s)) (events_of s) ts
          (others_same events t s ts later) in
      rw (hit, notify_loop)
        (record {
          valid = r.valid;
          number = rw (hit, r.number, same_hits) (omega arith);
          waiting = rw (hit, r.waiting, same_misses) refl;
          ready_now = λ u.
              let h = r.ready_now u in
              rw hit (
                ready_cons u t (hits events (events_of s) ts) _ (is_ready (s.tasks u).state)
                  (rw (← same_hits, ← is_ready-wake_up events t s u) h));
          delivered = λ u.
              let h = r.delivered u in
              rw hit (
                delivered_cons u t (hits events (events_of s) ts) _ events (events_of s)
                  (omega (arith, count-hits_le t events (events_of s) ts, later))
                  (rw (← same_hits, ← events-wake_up events t s u) h));
          masked = λ m. r.masked (Masked-wake_up events t s m);
        })

  notify_miss :
      has_bits (events_of s t) events ≡ false
      → Notified events (kept ++ t ∷ []) ts s (notify_loop events ts s)
      → Notified events kept (t ∷ ts) s (notify_loop events (t ∷ ts) s)
  unfolding notify_loop
  notify_miss miss r =
      rw (miss, notify_loop)
        (record {
          valid = r.valid;
          number = rw miss r.number;
          waiting = rw miss (r.waiting ∙ append_assoc kept (t ∷ []) _);
          ready_now = λ u. rw miss (r.ready_now u);
          delivered = λ u. rw miss (r.delivered u);
          masked = r.masked;
        })

notify_loop-Notified :
    (events : ℕ) (kept ts : List ℕ) (s : Sched)
    → IsValid s
    → s.wait_list ≡ kept ++ ts
    → Notified events kept ts s (notify_loop events ts s)
notify_loop-Notified events kept [] s v e =
    unfold notify_loop in
    record {
      valid = v;
      number = refl;
      waiting = e;
      ready_now = λ u. refl;
      delivered = λ u. refl;
      masked = λ m. m;
    }
notify_loop-Notified events kept (t ∷ ts) s v e =
    elim (Bool-cases (has_bits (events_of s t) events)) [
      | inl hit ↦
          let (waits, out, later) = alone s t kept ts v e in
          notify_hit events t kept ts s v e hit (
            notify_loop-Notified events kept ts (wake_up events t s)
              (wake_up-IsValid events t s v waits)
              (wake_up_fields events t s ∙ ap (remove t) e ∙ remove_behind t kept ts out))
      | inr miss ↦ notify_miss events t kept ts s v e miss (
          notify_loop-Notified events (kept ++ t ∷ []) ts s v
            (e ∙ sym (append_assoc kept (t ∷ []) ts)))
    ]

-- `_TaskNotify` in a valid state: it wakes exactly the waiting tasks that wait for one of the
-- events and returns their number; the others go on waiting in their order; a woken task is ready
-- and keeps only those of the events that it waited for, and no other task changes in these.
pub notify_all-Notified :
    (events : ℕ) (s : Sched) → IsValid s → Notified events [] s.wait_list s (notify_all events s)
unfolding notify_all
notify_all-Notified events s v = notify_loop-Notified events [] s.wait_list s v refl

pub notify_none :
    (events : ℕ) (ts : List ℕ) (s : Sched)
    → (notify_loop events ts s).0 ≡ 0
    → (notify_loop events ts s).1 ≡ s
unfolding notify_loop
notify_none events [] s e = refl
notify_none events (t ∷ ts) s e = elim (Bool-cases (has_bits (events_of s t) events)) [
  | inl hit ↦ absurd (ground arith)
  | inr miss ↦ rw (miss, notify_loop) (notify_none events ts s (ground arith))
]
