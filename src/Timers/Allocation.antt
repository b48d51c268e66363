-- ===== src/Timers/Allocation.antt =====
-- `AcquireTimer` and `ReleaseTimer`.
use demoscene.Prelude.{
  if◌then◌else◌, ℕ, zero, suc, ◌+◌, ◌-◌, ◌<◌, ◌≤◌, ◌^◌, ◌≡◌, ◌*◌, refl, sym, ap, subst, inl, inr,
  bit_and, bit_or, Bool, true, false, ◌&&◌, ◌||◌, not, Option, none, some, arith, leb, ◌==◌, ==_iff,
  Bool-cases, all_below, all_below_sound, Gives, gives, Gives-bind, Gives-unbind,
}
use demoscene.Cpu.{Cpu}
use demoscene.Interrupts.{Chain, has_chain, add_int_server, rem_int_server}
use demoscene.Interrupts.Order.{Absent}
use demoscene.Interrupts.Chains.{IsValid, rem_int_server-add_int_server}
use demoscene.Timers.{
  State, timer_any, irq_of, matches, is_free, find_timer, claim, acquire_timer, release_timer,
  Registers, icrf_tb, load_timer,
}

-- What the search gives from timer `i` to timer `i + count - 1`.
abbrev pub Found : (num in_use i count : ℕ) → Option ℕ → Type 0
Found num in_use i count none =
    (j : ℕ) → i ≤ j → j < i + count → matches num j ≡ true → is_free in_use j ≡ false
Found num in_use i count (some k) =
    (i ≤ k)
    × (k < i + count)
    × (is_free in_use k ≡ true)
    × (matches num k ≡ true)
    × ((j : ℕ) → i ≤ j → j < k → matches num j ≡ true → is_free in_use j ≡ false)

find_timer-Found :
    (num in_use i count : ℕ) → Found num in_use i count (find_timer num in_use i count)
unfolding find_timer
find_timer-Found num in_use i zero = λ j lo hi m. absurd (omega arith)
find_timer-Found num in_use i (suc count) = elim (Bool-cases (is_free in_use i && matches num i)) [
  | inl here ↦
      rw here
        (omega arith, omega arith, ground arith, ground arith, λ j lo hi m. absurd (omega arith))
  | inr not_here ↦ rw not_here (later _ not_here (find_timer-Found num in_use (i + 1) count))
]
  where
    at_least :
        (is_free in_use i && matches num i) ≡ false
        → (j : ℕ) → i ≤ j
        → matches num j ≡ true
        → (i + 1 ≤ j → is_free in_use j ≡ false)
        → is_free in_use j ≡ false
    at_least miss j lo m above = elim (Bool-cases (i == j)) [
      | inl same ↦
          let e = (==_iff i j).0 same in
          skipped (subst (λ x. (is_free in_use x && matches num x) ≡ false) e miss) m
      | inr other ↦ above (ground arith)
    ]
      where
        skipped :
            (is_free in_use j && matches num j) ≡ false
            → matches num j ≡ true
            → is_free in_use j ≡ false
        skipped h m = ground arith

    later :
        (o : Option ℕ)
        → (is_free in_use i && matches num i) ≡ false
        → Found num in_use (i + 1) count o
        → Found num in_use i (suc count) o
    later none miss f = λ j lo hi m. at_least miss j lo m (λ lo'. f j lo' (omega arith) m)
    later (some k) miss (lo, hi, free, m, f) = (
      omega arith,
      omega arith,
      free,
      m,
      λ j lo' hi' m'. at_least miss j lo' m' (λ above. f j above hi' m'),
    )

byte_test : ℕ → ℕ → Bool
byte_test i u = not (is_free u i) || (bit_and (bit_or u (2 ^ i)) (255 - 2 ^ i) == u)

byte_table : all_below 4 (λ i. all_below 256 (byte_test i)) ≡ true
unfolding all_below byte_test
byte_table = refl

-- To set a clear bit of a byte and clear it again gives the byte.
clear-set :
    (i u : ℕ) → i < 4 → u < 256 → is_free u i ≡ true → bit_and (bit_or u (2 ^ i)) (255 - 2 ^ i) ≡ u
unfolding byte_test
clear-set i u hi hu free =
    let t =
      all_below_sound 256 (byte_test i) u
        (all_below_sound 4 (λ (n : ℕ). all_below 256 (byte_test n)) i byte_table hi) hu in
    (==_iff _ _).0 (ground arith)

-- The same timers are in use, and each chain has the same servers and is on or off as before.
pub record SameTimers (s s' : State) : Type 0 where
  pub in_use_same : s'.in_use ≡ s.in_use
  pub head_same : (n : ℕ) → (s'.chains n).head ≡ (s.chains n).head
  pub enabled_same : (n : ℕ) → (s'.chains n).enabled ≡ (s.chains n).enabled

at_all :
    {B : Type 0} (f : Chain → B) (irq : ℕ) {new old : ℕ → Chain}
    → f (new irq) ≡ f (old irq)
    → ((n : ℕ) → (n == irq) ≡ false → new n ≡ old n)
    → (n : ℕ) → f (new n) ≡ f (old n)
at_all f irq {new} {old} here others n = elim (Bool-cases (n == irq)) [
  | inl same ↦ subst (λ k. f (new k) ≡ f (old k)) (sym ((==_iff n irq).0 same)) here
  | inr other ↦ ap f (others n other)
]

module _ (prio server : ℕ → ℕ) where
  -- The chains are in order, and the server of a timer that is not in use is on no chain.
  pub record Ready (s : State) : Type 0 where
    pub byte : s.in_use < 256
    pub ordered : (n : ℕ) → IsValid prio (s.chains n)
    pub idle : (i : ℕ) → is_free s.in_use i ≡ true → Absent (server i) (s.chains (irq_of i)).head

  -- What `AcquireTimer` of `num` comes to.
  abbrev pub Acquired : (num : ℕ) → Cpu → State → Cpu × (Option ℕ × State) → Type 0
  Acquired num c s (c', (none, s')) =
      (c' ≡ c) × (s' ≡ s) × ((i : ℕ) → i < 4 → matches num i ≡ true → is_free s.in_use i ≡ false)
  Acquired num c s (c', (some i, s')) =
      (i < 4)
      × (is_free s.in_use i ≡ true)
      × (matches num i ≡ true)
      × ((j : ℕ) → j < i → matches num j ≡ true → is_free s.in_use j ≡ false)
      × (s'.in_use ≡ bit_or s.in_use (2 ^ i))
      × Gives (λ r. SameTimers s r.1) (release_timer prio server i c' s')

  has_chain-irq_of : (i : ℕ) → has_chain (irq_of i) ≡ true
  has_chain-irq_of i = ground arith

  claimed :
      (num : ℕ) (c : Cpu) (s : State) (i : ℕ)
      → c.nest + 1 < 2 ^ 15
      → Ready s
      → Found num s.in_use 0 4 (some i)
      → Gives (Acquired num c s) (claim prio server c s i)
  unfolding claim release_timer
  claimed num c s i room r (lo, hi, free, m, f) =
      Gives-bind
        (Gives-unbind (add_int_server prio (irq_of i) (server i) c s.chains)
          (λ (c', added). rem_int_server (irq_of i) (server i) c' added)
          (rem_int_server-add_int_server prio (irq_of i) (server i) c s.chains (has_chain-irq_of i)
            room (r.ordered (irq_of i)) (r.idle i free)))
        λ (c', added) h. gives (
          hi,
          free,
          m,
          (λ j lt. f j (omega arith) lt),
          refl,
          Gives-bind h λ (c'', left) (heads, on, others). gives (record {
            in_use_same = clear-set i s.in_use hi r.byte free;
            head_same = λ n. at_all (λ ic. ic.head) (irq_of i) heads others n;
            enabled_same = λ n. at_all (λ ic. ic.enabled) (irq_of i) on others n;
          }),
        )

  -- `AcquireTimer` of a timer or of any: it gives the first timer that is asked for and free, marks
  -- it and no other as in use, and `ReleaseTimer` of it restores the timers and the chains. It
  -- gives none, and changes nothing, only if each timer that is asked for is in use.
  pub acquire_timer-Acquired :
      (num : ℕ) (c : Cpu) (s : State)
      → (leb num 3 || (num == timer_any)) ≡ true
      → c.nest + 1 < 2 ^ 15
      → Ready s
      → Gives (Acquired num c s) (acquire_timer prio server num c s)
  unfolding acquire_timer
  acquire_timer-Acquired num c s valid room r =
      rw valid (go (find_timer num s.in_use 0 4) (find_timer-Found num s.in_use 0 4))
    where
      go :
          (o : Option ℕ)
          → Found num s.in_use 0 4 o
          → Gives (Acquired num c s) (elim o as (λ x. Option (Cpu × (Option ℕ × State))) [
            | none ↦ some (c, (none, s))
            | some i ↦ claim prio server c s i
          ])
      go none f = gives (refl, refl, λ i lt m. f i (omega arith) lt m)
      go (some i) f = claimed num c s i room r f

abbrev pub counter_a : Registers → ℕ
counter_a r = r.talo + 256 * r.tahi

abbrev pub counter_b : Registers → ℕ
counter_b r = r.tblo + 256 * r.tbhi

-- `LoadTimer` puts a 16-bit delay in the counter of the timer that `icr` names, and leaves the
-- counter and the control register of the other timer of the chip alone.
pub load_timer_lem :
    (icr delay flags : ℕ) (r : Registers)
    → delay < 2 ^ 16
    → let r' = load_timer icr delay flags r in
      let is_b = icr == icrf_tb in
      (counter_a r' ≡ (if is_b then counter_a r else delay))
      × (counter_b r' ≡ (if is_b then delay else counter_b r))
      × ((if is_b then r'.cra else r'.crb) ≡ (if is_b then r.cra else r.crb))
unfolding load_timer
load_timer_lem icr delay flags r h = elim (Bool-cases (icr == icrf_tb)) [
  | inl b ↦ rw b (refl, omega arith, refl)
  | inr a ↦ rw a (omega arith, refl, refl)
]
