-- ===== src/Interrupts/Chains.antt =====
-- What `AddIntServer` and `RemIntServer` keep of a chain, and what `RunIntChain` relies on.
use demoscene.Prelude.{
  ℕ, ◌+◌, ◌≡◌, ◌^◌, ◌<◌, refl, sym, ap, subst, ◌∙◌, inl, inr, true, false, not, List, [], ◌∷◌,
  arith, ◌==◌, Bool-cases, if◌then◌else◌, Gives, gives, Gives-bind, Gives-mono, ◌>>=◌,
}
use demoscene.Cpu.{Cpu}
use demoscene.Cpu.Nesting.{critical_lem}
use demoscene.Interrupts.{
  Chain, is_empty, has_chain, set_chain, start, stop, rem_int_server, insert_server, add_server,
  add_int_server,
}
use demoscene.Interrupts.Order.{
  Absent, ==_self, Removed, is_in, unlink-Removed, IsAscending, Inserted, insert_server-Inserted,
  insert_server-IsAscending, IsAscending-drop, is_in-Inserted, Removed-Inserted,
}

-- The processor behind a critical section.
abbrev pub unmasked : Cpu → Cpu
unmasked c = record c { ipl = if c.nest == 0 then 0 else 7 }

is_empty-insert_server :
    (prio : ℕ → ℕ) (is : ℕ) (xs : List ℕ) → is_empty (insert_server prio is xs) ≡ false
unfolding insert_server
is_empty-insert_server prio is [] = refl
is_empty-insert_server prio is (s ∷ ss) = ground arith

module _ (prio : ℕ → ℕ) where
  -- The servers are in order, and the interrupt is on exactly when there is one.
  pub record IsValid (ic : Chain) : Type 0 where
    pub ordered : IsAscending prio ic.head
    pub on_iff : ic.enabled ≡ not (is_empty ic.head)

  -- What `AddIntServer` comes to.
  pub record Added (irq is : ℕ) (c : Cpu) (chains : ℕ → Chain) (r : Cpu × (ℕ → Chain))
      : Type 0 where
    pub cpu : r.0 ≡ unmasked c
    pub valid : IsValid (r.1 irq)
    pub inserted : Inserted prio is (chains irq).head (r.1 irq).head
    pub elsewhere : (n : ℕ) → (n == irq) ≡ false → r.1 n ≡ chains n

  start-head : (ic : Chain) → (start ic).head ≡ ic.head
  unfolding start
  start-head ic = elim (Bool-cases (is_empty ic.head)) [ inl e ↦ rw e refl | inr e ↦ rw e refl ]

  start-enabled : (ic : Chain) → IsValid ic → (start ic).enabled ≡ true
  unfolding start
  start-enabled ic v = elim (Bool-cases (is_empty ic.head)) [
    | inl e ↦ rw e refl
    | inr e ↦ rw (e, v.on_iff, e) refl
  ]

  add_server-IsValid : (is : ℕ) (ic : Chain) → IsValid ic → IsValid (add_server prio is ic)
  unfolding add_server
  add_server-IsValid is ic v = record {
    ordered = rw (start-head ic) (insert_server-IsAscending prio is ic.head v.ordered);
    on_iff = rw (start-enabled ic v, is_empty-insert_server prio is (start ic).head) refl;
  }

  pub add_int_server-Added :
      (irq is : ℕ) (c : Cpu) (chains : ℕ → Chain)
      → has_chain irq ≡ true
      → c.nest + 1 < 2 ^ 15
      → IsValid (chains irq)
      → Gives (Added irq is c chains) (add_int_server prio irq is c chains)
  unfolding add_int_server add_server
  add_int_server-Added irq is c chains known room v =
      rw
        (
          known,
          critical_lem (λ (all : ℕ → Chain). set_chain all irq (add_server prio is (all irq))) c
              chains room,
        )
        (gives (record {
          cpu = refl;
          valid = rw (==_self irq) (add_server-IsValid is (chains irq) v);
          inserted =
              rw (==_self irq, start-head (chains irq))
                (insert_server-Inserted prio is (chains irq).head v.ordered);
          elsewhere = λ n ne. rw ne refl;
        }))

  -- What `RemIntServer` comes to.
  pub record Taken (irq is : ℕ) (c : Cpu) (chains : ℕ → Chain) (r : Cpu × (ℕ → Chain))
      : Type 0 where
    pub cpu : r.0 ≡ unmasked c
    pub valid : IsValid (r.1 irq)
    pub removed : Removed is (chains irq).head (r.1 irq).head
    pub elsewhere : (n : ℕ) → (n == irq) ≡ false → r.1 n ≡ chains n

  stop-head : (ic : Chain) → (stop ic).head ≡ ic.head
  unfolding stop
  stop-head ic = elim (Bool-cases (is_empty ic.head)) [ inl e ↦ rw e refl | inr e ↦ rw e refl ]

  stop-enabled : (ic : Chain) → ic.enabled ≡ true → (stop ic).enabled ≡ not (is_empty ic.head)
  unfolding stop
  stop-enabled ic on = elim (Bool-cases (is_empty ic.head)) [ inl e ↦ rw e refl | inr e ↦ rw e on ]

  on_if-in : (is : ℕ) (ic : Chain) → IsValid ic → is_in is ic.head ≡ true → ic.enabled ≡ true
  on_if-in is ic v h = v.on_iff ∙ ap not (filled ic.head h)
    where
      filled : (xs : List ℕ) → is_in is xs ≡ true → is_empty xs ≡ false
      filled [] h = absurd (ground arith)
      filled (x ∷ xs) h = refl

  -- `RemIntServer` of a server of a valid chain of an interrupt that has one, with room in the count
  -- of nested `IntrDisable`, does
  -- not crash: it takes the first place of that server, and no other, from the chain, turns the
  -- interrupt off if the chain is empty then, and leaves the other chains alone.
  pub rem_int_server-Taken :
      (irq is : ℕ) (c : Cpu) (chains : ℕ → Chain)
      → has_chain irq ≡ true
      → c.nest + 1 < 2 ^ 15
      → IsValid (chains irq)
      → is_in is (chains irq).head ≡ true
      → Gives (Taken irq is c chains) (rem_int_server irq is c chains)
  unfolding rem_int_server
  rem_int_server-Taken irq is c chains known room v here = rw known (
      Gives-bind (unlink-Removed is (chains irq).head here) λ ss r.
        let left = record (chains irq) { head = ss } in
        rw
          (critical_lem
            (λ (all : ℕ → Chain). set_chain all irq (stop (record (all irq) { head = ss }))) c
            chains room)
          (gives (record {
            cpu = refl;
            valid = rw (==_self irq) (record {
              ordered =
                  rw (stop-head left, r.new)
                    (IsAscending-drop prio r.before is r.after
                      (subst (IsAscending prio) r.old v.ordered));
              on_iff = rw (stop-head left) (stop-enabled left (on_if-in is (chains irq) v here));
            });
            removed = rw (==_self irq, stop-head left) r;
            elsewhere = λ n ne. rw ne refl;
          })))

-- A server that is on no place of a valid chain, added and removed again, leaves the chain's
-- servers in their order, and the interrupt as it was.
pub rem_int_server-add_int_server :
    (prio : ℕ → ℕ) (irq is : ℕ) (c : Cpu) (chains : ℕ → Chain)
    → has_chain irq ≡ true
    → c.nest + 1 < 2 ^ 15
    → IsValid prio (chains irq)
    → Absent is (chains irq).head
    → Gives
        (λ r.
          ((r.1 irq).head ≡ (chains irq).head)
          × ((r.1 irq).enabled ≡ (chains irq).enabled)
          × ((n : ℕ) → (n == irq) ≡ false → r.1 n ≡ chains n))
        (do (c', added) ← add_int_server prio irq is c chains; rem_int_server irq is c' added)
rem_int_server-add_int_server prio irq is c chains known room v absent =
    Gives-bind (add_int_server-Added prio irq is c chains known room v) λ (c', added) a.
      Gives-mono
        (rem_int_server-Taken prio irq is c' added known
          (subst (λ (k : Cpu). k.nest + 1 < 2 ^ 15) (sym a.cpu) room) a.valid
          (is_in-Inserted prio a.inserted))
        λ r t.
          let same = Removed-Inserted prio a.inserted t.removed absent in
          (
            same,
            t.valid.on_iff ∙ ap (λ l. not (is_empty l)) same ∙ sym v.on_iff,
            λ n ne. t.elsewhere n ne ∙ a.elsewhere n ne,
          )
