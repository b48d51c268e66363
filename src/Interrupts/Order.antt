-- ===== src/Interrupts/Order.antt =====
-- The order of a chain: the loops of `AddIntServer` and `RemIntServer`.
use demoscene.Prelude.{
  ℕ, ◌≤◌, ◌<◌, ◌≡◌, ◌≢◌, refl, ap, sym, subst, ◌∙◌, inl, inr, Bool, true, false, none, some, List,
  [], ◌∷◌, ◌++◌, arith, ltb, ltb→lt, ◌==◌, ==_iff, Bool-cases, short_key, All, All-mono, Gives,
  gives, Gives-bind, ◌||◌,
}
use demoscene.Interrupts.{insert_server, unlink}

abbrev pub Absent : ℕ → List ℕ → Type 0
Absent is = All (λ s. s ≢ is)

pub ==_self : (n : ℕ) → (n == n) ≡ true
==_self n = ground arith

pub unlink-absent :
    (is : ℕ) (before after : List ℕ)
    → Absent is before
    → unlink is (before ++ is ∷ after) ≡ some (before ++ after)
unfolding unlink
unlink-absent is [] after h = rw (==_self is) refl
unlink-absent is (s ∷ ss) after (ne, h) = elim (Bool-cases (s == is)) [
  | inl same ↦ absurd (ne ((==_iff s is).0 same))
  | inr other ↦ rw (other, unlink-absent is ss after h) refl
]

-- `ys` is `xs` without the first `is`.
pub record Removed (is : ℕ) (xs ys : List ℕ) : Type 0 where
  pub before : List ℕ
  pub after : List ℕ
  pub old : xs ≡ before ++ is ∷ after
  pub new : ys ≡ before ++ after
  pub first : Absent is before

abbrev pub is_in : ℕ → List ℕ → Bool
is_in is [] = false
is_in is (s ∷ ss) = (s == is) || is_in is ss

pub unlink-Removed :
    (is : ℕ) (xs : List ℕ) → is_in is xs ≡ true → Gives (Removed is xs) (unlink is xs)
unfolding unlink
unlink-Removed is [] h = absurd (ground arith)
unlink-Removed is (s ∷ ss) h = elim (Bool-cases (s == is)) [
  | inl same ↦ rw same (
      gives (record {
        before = [];
        after = ss;
        old = ap (λ n. n ∷ ss) ((==_iff s is).0 same);
        new = refl;
        first = tt;
      }))
  | inr other ↦ rw other (
      Gives-bind (unlink-Removed is ss (ground arith)) λ ys r. gives (record {
        before = s ∷ r.before;
        after = r.after;
        old = ap (λ l. s ∷ l) r.old;
        new = ap (λ l. s ∷ l) r.new;
        first = ((λ e. ground (arith, ==_iff s is)), r.first);
      }))
]

unlink_of-Removed : {is : ℕ} {xs ys : List ℕ} → Removed is xs ys → unlink is xs ≡ some ys
unlink_of-Removed {is} r = rw (r.old, r.new) (unlink-absent is r.before r.after r.first)

is_in_middle : (is : ℕ) (before after : List ℕ) → is_in is (before ++ is ∷ after) ≡ true
is_in_middle is [] after = rw (==_self is) refl
is_in_middle is (s ∷ ss) after = ground (arith, is_in_middle is ss after)

All-left : (P : ℕ → Type 0) (xs ys : List ℕ) → All P (xs ++ ys) → All P xs
All-left P [] ys h = tt
All-left P (x ∷ xs) ys (p, h) = (p, All-left P xs ys h)

module _ (prio : ℕ → ℕ) where
  abbrev pub key : ℕ → ℕ
  key s = short_key (prio s)

  -- The priorities ascend.
  abbrev pub IsAscending : List ℕ → Type 0
  IsAscending [] = Unit
  IsAscending (s ∷ ss) = All (λ t. key s ≤ key t) ss × IsAscending ss

  -- `ys` is `xs` with `is` between the servers of lower priority and the others.
  pub record Inserted (is : ℕ) (xs ys : List ℕ) : Type 0 where
    pub before : List ℕ
    pub after : List ℕ
    pub old : xs ≡ before ++ after
    pub new : ys ≡ before ++ is ∷ after
    pub lower : All (λ s. key s < key is) before
    pub others : All (λ s. key is ≤ key s) after

  pub insert_server-Inserted :
      (is : ℕ) (xs : List ℕ) → IsAscending xs → Inserted is xs (insert_server prio is xs)
  unfolding insert_server
  insert_server-Inserted is [] h = record {
    before = [];
    after = [];
    old = refl;
    new = refl;
    lower = tt;
    others = tt;
  }
  insert_server-Inserted is (s ∷ ss) (least, h) = elim (Bool-cases (ltb (key s) (key is))) [
    | inl lt ↦
        let r = insert_server-Inserted is ss h in
        rw lt (record {
          before = s ∷ r.before;
          after = r.after;
          old = ap (λ l. s ∷ l) r.old;
          new = ap (λ l. s ∷ l) r.new;
          lower = (ltb→lt _ _ lt, r.lower);
          others = r.others;
        })
    | inr ge ↦ rw ge (record {
      before = [];
      after = s ∷ ss;
      old = refl;
      new = refl;
      lower = tt;
      others = (ground arith, All-mono ss (λ t le. ground arith) least);
    })
  ]

  All-insert :
      (P : ℕ → Type 0) (is : ℕ) (xs : List ℕ) → P is → All P xs → All P (insert_server prio is xs)
  unfolding insert_server
  All-insert P is [] p h = (p, tt)
  All-insert P is (s ∷ ss) p (q, h) = elim (Bool-cases (ltb (key s) (key is))) [
    | inl lt ↦ rw lt (q, All-insert P is ss p h)
    | inr ge ↦ rw ge (p, (q, h))
  ]

  pub insert_server-IsAscending :
      (is : ℕ) (xs : List ℕ) → IsAscending xs → IsAscending (insert_server prio is xs)
  unfolding insert_server
  insert_server-IsAscending is [] h = (tt, tt)
  insert_server-IsAscending is (s ∷ ss) (least, h) = elim (Bool-cases (ltb (key s) (key is))) [
    | inl lt ↦ rw lt (All-insert _ is ss (ground arith) least, insert_server-IsAscending is ss h)
    | inr ge ↦ rw ge ((ground arith, All-mono ss (λ t le. ground arith) least), (least, h))
  ]

  All-drop :
      (P : ℕ → Type 0) (before : List ℕ) (is : ℕ) (after : List ℕ)
      → All P (before ++ is ∷ after)
      → All P (before ++ after)
  All-drop P [] is after (p, h) = h
  All-drop P (s ∷ ss) is after (p, h) = (p, All-drop P ss is after h)

  pub IsAscending-drop :
      (before : List ℕ) (is : ℕ) (after : List ℕ)
      → IsAscending (before ++ is ∷ after)
      → IsAscending (before ++ after)
  IsAscending-drop [] is after (least, h) = h
  IsAscending-drop (s ∷ ss) is after (least, h) =
      (All-drop _ ss is after least, IsAscending-drop ss is after h)

  pub is_in-Inserted : {is : ℕ} {xs ys : List ℕ} → Inserted is xs ys → is_in is ys ≡ true
  is_in-Inserted {is} i = rw i.new (is_in_middle is i.before i.after)

  -- To take a server from where it has just been put gives the old list.
  pub Removed-Inserted :
      {is : ℕ} {xs ys zs : List ℕ} → Inserted is xs ys → Removed is ys zs → Absent is xs → zs ≡ xs
  Removed-Inserted {is} {xs} {ys} {zs} i r absent =
      ap (λ o. elim o [ none ↦ xs | some l ↦ l ])
        (sym (unlink_of-Removed r)
          ∙ ap (unlink is) i.new
          ∙ unlink-absent is i.before i.after
              (All-left _ i.before i.after (subst (Absent is) i.old absent))
          ∙ ap some (sym i.old))
