-- ===== src/Serial/Queue.antt =====
-- The character queue. Its index goes round at 16, not at 80, since `& (80 - 1)` clears bits 4
-- and 5.
use demoscene.Prelude.{
  ℕ, zero, suc, ◌+◌, ◌-◌, ◌≤◌, ◌<◌, bit_and, ◌≡◌, refl, ap, true, Option, none, some, List, [], ◌∷◌,
  ◌++◌, arith, ◌==◌, ==_iff, length, get_or, length-set, get_or-set_self, all_below,
  all_below_sound,
}
use demoscene.Prelude.Ring.{slot, window, length-window, window-set}
use demoscene.Serial.{CharQueue, queue_len, empty_queue, push_raw, pop_raw}

abbrev pub period : ℕ
period = 16

-- What holds as long as at most 16 characters wait.
pub record IsValid (q : CharQueue) : Type 0 where
  pub room : queue_len ≤ length q.bytes
  pub head_in : q.head < period
  pub used_in : q.used ≤ period
  pub tail_at : q.tail ≡ slot period q.head q.used

abbrev pub contents : CharQueue → List ℕ
contents q = window period 0 q.bytes q.head q.used

mask_table : all_below 16 (λ i. bit_and (i + 1) 79 == slot 16 i 1) ≡ true
unfolding all_below
mask_table = refl

mask_step : (i : ℕ) → i < 16 → bit_and (i + 1) 79 ≡ slot 16 i 1
mask_step i h = (==_iff _ _).0 (all_below_sound 16 _ i mask_table h)

pub empty_queue-IsValid : IsValid empty_queue
unfolding empty_queue
empty_queue-IsValid = omega arith

pub length-contents : (q : CharQueue) → length (contents q) ≡ q.used
length-contents q = length-window period 0 q.bytes q.head q.used

pub push_raw-IsValid :
    (c : ℕ) {q : CharQueue} → IsValid q → q.used < period → IsValid (push_raw c q)
unfolding push_raw
push_raw-IsValid c {q} v h = ground (arith, mask_step q.tail, length-set q.bytes q.tail c)

pub push_raw-snoc :
    (c : ℕ) {q : CharQueue}
    → IsValid q
    → q.used < period
    → contents (push_raw c q) ≡ contents q ++ (c ∷ [])
unfolding push_raw
push_raw-snoc c {q} v h = ground (arith, window-set period 0 q.bytes c q.used q.head q.tail)

pub used-push_raw : (c : ℕ) {q : CharQueue} → IsValid q → (push_raw c q).used ≡ q.used + 1
unfolding push_raw
used-push_raw c v = ground arith

pub pop_raw-IsValid : {q : CharQueue} → IsValid q → IsValid (pop_raw q).1
unfolding pop_raw
pop_raw-IsValid {q} v = ground (arith, mask_step q.head)

pub used-pop_raw : (q : CharQueue) → (pop_raw q).1.used ≡ q.used - 1
unfolding pop_raw
used-pop_raw q = ground arith

pub pop_raw-none : (q : CharQueue) → (pop_raw q).0 ≡ none → (pop_raw q).1 ≡ q
unfolding pop_raw
pop_raw-none q e = ground arith

-- Taking the first element of a list, as the queue should.
unfoldable pub uncons : List ℕ → Option ℕ × List ℕ
uncons [] = (none, [])
uncons (c ∷ cs) = (some c, cs)

window-pop :
    (buf : List ℕ) (h n : ℕ)
    → 0 < n
    → window 16 0 buf h n ≡ get_or buf h 0 ∷ window 16 0 buf (slot 16 h 1) (n - 1)
window-pop buf h zero pos = absurd (omega arith)
window-pop buf h (suc n) pos = ap (λ k. window 16 0 buf h (suc k)) (omega arith)

-- `_PopChar` of a valid queue returns the oldest waiting character and keeps the others in order,
-- or, on an empty queue, returns nothing and changes nothing that waits.
pub pop_raw_refines :
    {q : CharQueue} → IsValid q → let (r, q') = pop_raw q in (r, contents q') ≡ uncons (contents q)
unfolding pop_raw uncons
pop_raw_refines {q} v = ground (arith, mask_step q.head, window-pop q.bytes q.head q.used)

-- A character pushed while 16 wait, far from the 80 that the queue is declared to hold, is
-- accepted, and the next pop returns it: it has replaced the oldest character.
pub push_raw_overwrites :
    (c : ℕ) {q : CharQueue}
    → IsValid q
    → q.used ≡ period
    → ((push_raw c q).used ≡ period + 1) × ((pop_raw (push_raw c q)).0 ≡ some c)
unfolding push_raw pop_raw
push_raw_overwrites c {q} v h = ground (arith, get_or-set_self q.bytes q.tail c 0)
