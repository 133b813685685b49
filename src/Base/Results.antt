-- ===== src/Base/Results.antt =====
-- Results of code that may throw, and SQL's COALESCE.
use mathlib.Core.Logic.{◌⊎◌, inl, inr}
use mathlib.Core.Bool.{Bool, true, false}
use mathlib.Core.Path.{◌≡◌, refl}
use mathlib.Core.Option.{Option, none, some}
use native.Mathlib.Omega.{arith}

-- A call returns a value or throws.
pub data Result {ℓ} (E : Type 0) (A : Type ℓ) : Type ℓ where
  throws : E → Result E A
  ok : A → Result E A

-- `if (test) throw e`.
abbrev pub throw_if : {E : Type 0} (test : Bool) → E → Result E (Unit {0})
throw_if false e = ok tt
throw_if true e = throws e

infixl 5 ◌>>=◌ ◌>>◌
-- What follows a call runs only if it returned.
abbrev pub ◌>>=◌ {κ ℓ} :
    {C : Type κ} {A : Type ℓ} {E : Type 0} (call : Result E A) (rest : A → Result E C) → Result E C
throws e >>= rest = throws e
ok value >>= rest = rest value

abbrev pub ◌>>◌ {κ} :
    {C : Type κ} {E : Type 0} (check : Result E (Unit {0})) (rest : Result E C) → Result E C
check >> rest = check >>= λ passed. rest

module _ {κ ℓ} {E : Type 0} {C : Type κ} {A : Type ℓ} where
  -- A chain that returned has passed its first call.
  pub returned :
      (c : C) (rest : A → Result E C) (call : Result E A)
      → (call >>= rest) ≡ ok c
      → (value : A) × (rest value ≡ ok c) × (call ≡ ok value)
  returned c rest (throws e) h = cc
  returned c rest (ok value) h = (value, h, refl)

-- A chain that returned has passed its first check, and returned what follows it.
pub checked {κ} :
    {E : Type 0} {C : Type κ} (test : Bool) (e : E) (rest : Result E C) (c : C)
    → (throw_if test e >> rest) ≡ ok c
    → (test ≡ false) × (rest ≡ ok c)
checked false e rest c h = (refl, h)
checked true e rest c h = cc

-- `a ?? b`, and COALESCE(a, b) with a `b` that is not null.
abbrev pub coalesce {ℓ} : {A : Type ℓ} → Option A → A → A
coalesce none b = b
coalesce (some a) b = a

-- COALESCE(a, b) where `b` may be null.
abbrev pub coalesce? {ℓ} : {A : Type ℓ} → Option A → Option A → Option A
coalesce? none b = b
coalesce? (some a) b = some a

pub Result-cases {ℓ} :
    {E : Type 0} {A : Type ℓ} (r : Result E A) → ((a : A) × (r ≡ ok a)) ⊎ ((e : E) × (r ≡ throws e))
Result-cases (ok a) = inl (a, refl)
Result-cases (throws e) = inr (e, refl)

module _ {κ} {E A S : Type 0} (P : S → Type κ) where
  -- A call that returns leaves a state with the property.
  abbrev pub Keeps : Result E (A × S) → Type κ
  Keeps (ok (a, s)) = P s
  Keeps (throws e) = Unit

module _ {κ} {E A S X : Type 0} (P : S → Type κ) where
  pub Keeps-bind :
      (m : Result E X) (f : X → Result E (A × S))
      → ((x : X) → m ≡ ok x → Keeps P (f x))
      → Keeps P (m >>= f)
  Keeps-bind (ok x) f h = h x refl
  Keeps-bind (throws e) f h = tt

module _ {κ} {E S : Type 0} (P : S → Type κ) where
  -- A transaction that returns leaves a state with the property.
  abbrev pub Returns : Result E S → Type κ
  Returns (ok s) = P s
  Returns (throws e) = Unit

  pub Returns-bind :
      {X : Type 0} (m : Result E X) (f : X → Result E S)
      → ((x : X) → m ≡ ok x → Returns (f x))
      → Returns (m >>= f)
  Returns-bind (ok x) f h = h x refl
  Returns-bind (throws e) f h = tt

  pub Returns-ok : (r : Result E S) (s : S) → r ≡ ok s → Returns r → P s
  Returns-ok (ok t) s e h = let same_state : t ≡ s = ground arith in rw (← same_state) h
  Returns-ok (throws x) s e h = cc

-- A check that passed.
pub throw_if-passed :
    {E : Type 0} (test : Bool) (e : E) (u : Unit {0}) → throw_if test e ≡ ok u → test ≡ false
throw_if-passed false e u h = refl
throw_if-passed true e u h = cc

module _ {κ μ} {E S : Type 0} (P : S → Type κ) (Q : S → Type μ) where
  pub Returns-pair : (r : Result E S) → Returns P r → Returns Q r → Returns (λ s. P s × Q s) r
  Returns-pair (ok s) h k = (h, k)
  Returns-pair (throws e) h k = tt

  pub Returns-map : ((s : S) → P s → Q s) → (r : Result E S) → Returns P r → Returns Q r
  Returns-map f (ok s) h = f s h
  Returns-map f (throws e) h = tt
