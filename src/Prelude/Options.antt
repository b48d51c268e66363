-- ===== src/Prelude/Options.antt =====
-- Calls that may stop early, as options: `do` blocks, and a total-correctness rule for them.
use mathlib.Core.Path.{◌≡◌, refl, subst}
use mathlib.Core.Option.{Option, none, some}

infixl 5 ◌>>=◌
abbrev pub ◌>>=◌ {ℓ κ} : {A : Type ℓ} {B : Type κ} → Option A → (A → Option B) → Option B
none >>= k = none
some a >>= k = k a

-- The call gives a result, and the result satisfies `P`.
pub data Gives {ℓ κ} {A : Type ℓ} (P : A → Type κ) : Option A → Type (ℓ ⊔ κ) where
  gives : {a : A} → P a → Gives P (some a)

module _ {ℓ κ} {A : Type ℓ} {P : A → Type κ} where
  pub Gives-bind {μ ν} :
      {B : Type μ} {Q : B → Type ν} {m : Option A} {k : A → Option B}
      → Gives P m
      → ((a : A) → P a → Gives Q (k a))
      → Gives Q (m >>= k)
  Gives-bind (gives p) next = next _ p

  pub Gives-mono {ν} :
      {Q : A → Type ν} {m : Option A} → Gives P m → ((a : A) → P a → Q a) → Gives Q m
  Gives-mono (gives p) weaken = gives (weaken _ p)

pub Gives-also {ℓ κ μ} :
    {A : Type ℓ} {P : A → Type κ} {Q : A → Type μ} (m : Option A)
    → Gives P m
    → ((a : A) → m ≡ some a → Q a)
    → Gives (λ a. P a × Q a) m
Gives-also (some a) (gives p) also = gives (p, also a refl)
Gives-also none h also = elim h [ ]

pub Gives-some {ℓ κ} :
    {A : Type ℓ} {P : A → Type κ} (m : Option A) (a : A) → Gives P m → m ≡ some a → P a
Gives-some {P} m a h e = result (subst (Gives P) e h)
  where
    result : Gives P (some a) → P a
    result (gives p) = p

pub Gives-unbind {ℓ κ μ} :
    {A : Type ℓ} {B : Type κ} {Q : B → Type μ} (m : Option A) (k : A → Option B)
    → Gives Q (m >>= k)
    → Gives (λ a. Gives Q (k a)) m
Gives-unbind (some a) k h = gives h
Gives-unbind none k h = elim h [ ]
