-- ===== src/Prelude/Results.antt =====
-- Results of code that may throw, and of transactions over a state.
use mathlib.Core.Path.{◌≡◌, refl}
use mathlib.Core.Bool.{Bool, true, false}
use mathlib.Core.Logic.{◌⊎◌, inl, inr}

pub data Result {ℓ κ} (E : Type ℓ) (A : Type κ) : Type (ℓ ⊔ κ) where
  ok : A → Result E A
  err : E → Result E A

pub Result-cases {ℓ κ} :
    {E : Type ℓ} {A : Type κ} (r : Result E A) → ((a : A) × (r ≡ ok a)) ⊎ ((e : E) × (r ≡ err e))
Result-cases (ok a) = inl (a, refl)
Result-cases (err e) = inr (e, refl)

-- A transaction body: it reads and writes the state `S`, and may throw an `E`.
abbrev pub Tx : Type 0 → Type 0 → Type 0 → Type 0
Tx S E A = S → Result E (A × S)

infixl 5 ◌>>=◌ ◌>>◌
abbrev pub ◌>>=◌ : {S E A B : Type 0} → Tx S E A → (A → Tx S E B) → Tx S E B
◌>>=◌ m f s = elim (m s) [ ok (a, s') ↦ f a s' | err e ↦ err e ]

abbrev pub ◌>>◌ : {S E B : Type 0} → Tx S E (Unit {0}) → Tx S E B → Tx S E B
m >> k = m >>= λ _. k

abbrev pub pure : {S E A : Type 0} → A → Tx S E A
pure a s = ok (a, s)

abbrev pub throw : {S E A : Type 0} → E → Tx S E A
throw e s = err e

abbrev pub require : {S E : Type 0} → Bool → E → Tx S E (Unit {0})
require b e s = elim b [ true ↦ ok (tt, s) | false ↦ err e ]

abbrev pub gets : {S E A : Type 0} → (S → A) → Tx S E A
gets f s = ok (f s, s)

abbrev pub modify : {S E : Type 0} → (S → S) → Tx S E (Unit {0})
modify f s = ok (tt, f s)

-- The state after `db.transaction(body)`: a body that throws is rolled back.
abbrev pub after : {S E A : Type 0} → S → Result E (A × S) → S
after s (ok (a, s')) = s'
after s (err e) = s

-- A postcondition of a body, for whatever it returns.
abbrev pub Ensures : {S E A : Type 0} → (A → S → Type 0) → Result E (A × S) → Type 0
Ensures P (ok (a, s)) = P a s
Ensures P (err e) = Unit {0}

pub Ensures-bind :
    {S E A B : Type 0} (P : A → S → Type 0) (Q : B → S → Type 0) (m : Tx S E A) (f : A → Tx S E B)
    (s : S)
    → Ensures P (m s)
    → ((a : A) (s' : S) → m s ≡ ok (a, s') → P a s' → Ensures Q (f a s'))
    → Ensures Q ((m >>= f) s)
Ensures-bind P Q m f s h k = go (m s) refl h
  where
    go :
        (r : Result _ _)
        → m s ≡ r
        → Ensures P r
        → Ensures Q (elim r [ ok (a, s') ↦ f a s' | err e ↦ err e ])
    go (ok (a, s')) e h = k a s' e h
    go (err x) e h = tt

pub Ensures-mono :
    {S E A : Type 0} (P Q : A → S → Type 0) (r : Result E (A × S))
    → ((a : A) (s : S) → P a s → Q a s)
    → Ensures P r
    → Ensures Q r
Ensures-mono P Q (ok (a, s)) k h = k a s h
Ensures-mono P Q (err e) k h = tt

-- A state property that a body ensures, and that held before it, holds after the transaction.
pub Ensures-after :
    {S E A : Type 0} (P : S → Type 0) (s : S) (r : Result E (A × S))
    → P s
    → Ensures (λ _ s'. P s') r
    → P (after s r)
Ensures-after P s (ok (a, s')) p h = h
Ensures-after P s (err e) p h = p

-- What follows a test may assume it.
pub require-Ensures :
    {S E B : Type 0} (Q : B → S → Type 0) (b : Bool) (e : E) (k : Tx S E B) (s : S)
    → (b ≡ true → Ensures Q (k s))
    → Ensures Q ((require b e >> k) s)
require-Ensures Q true e k s h = h refl
require-Ensures Q false e k s h = tt
