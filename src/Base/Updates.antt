-- ===== src/Base/Updates.antt =====
-- `UPDATE … SET f WHERE p` over the rows of a table.
use Prim.Native.Nat.{ℕ, suc}
use mathlib.Core.Path.{◌≡◌, refl, ap}
use mathlib.Core.Logic.{inl, inr}
use mathlib.Core.Bool.{Bool, true, false}
use mathlib.Core.List.{List, [], ◌∷◌}
use mathlib.Core.Option.{some}
use native.Mathlib.Omega.{arith}
use ubot_ai_agent.Base.Tests.{if◌then◌else◌, ◌==◌, Bool-cases}
use ubot_ai_agent.Base.Lists.{All, filter, find, length}
use ubot_ai_agent.Base.Ascending.{Ascending, Below}

module _ {ℓ} {A : Type ℓ} where
  abbrev pub update : (A → Bool) → (A → A) → List A → List A
  update p f [] = []
  update p f (x ∷ xs) = (if p x then f x else x) ∷ update p f xs

  module _ (p : A → Bool) (f : A → A) where
    pub length-update : (xs : List A) → length (update p f xs) ≡ length xs
    length-update [] = refl
    length-update (x ∷ xs) = ap suc (length-update xs)

    pub All-update {κ μ} :
        (P : A → Type κ) (Q : A → Type μ)
        → ((x : A) → p x ≡ true → P x → Q (f x))
        → ((x : A) → p x ≡ false → P x → Q x)
        → (xs : List A) → All P xs
        → All Q (update p f xs)
    All-update P Q hit miss [] h = tt
    All-update P Q hit miss (x ∷ xs) h = elim (Bool-cases (p x)) [
      | inl e ↦ rw e (hit x e h.0, All-update P Q hit miss xs h.1)
      | inr e ↦ rw e (miss x e h.0, All-update P Q hit miss xs h.1)
    ]

    -- A test that no updated row passes, before and after, does not see the update.
    pub filter-update :
        (q : A → Bool)
        → ((x : A) → p x ≡ true → (q x ≡ false) × (q (f x) ≡ false))
        → (xs : List A) → filter q (update p f xs) ≡ filter q xs
    filter-update q h [] = refl
    filter-update q h (x ∷ xs) = elim (Bool-cases (p x)) [
      | inl e ↦ rw e (rw ((h x e).0, (h x e).1) (filter-update q h xs))
      | inr e ↦ rw (e, filter-update q h xs)
    ]

  module _ (key : A → ℕ) (p : A → Bool) (f : A → A) (keeps : (x : A) → key (f x) ≡ key x) where
    pub Ascending-update :
        (lo : ℕ) (xs : List A) → Ascending key lo xs → Ascending key lo (update p f xs)
    Ascending-update lo [] a = tt
    Ascending-update lo (x ∷ xs) a = elim (Bool-cases (p x)) [
      | inl e ↦ rw (e, keeps x) (a.0, Ascending-update (key x) xs a.1)
      | inr e ↦ rw e (a.0, Ascending-update (key x) xs a.1)
    ]

    pub Below-update : (hi : ℕ) (xs : List A) → Below key hi xs → Below key hi (update p f xs)
    Below-update hi [] b = tt
    Below-update hi (x ∷ xs) b = elim (Bool-cases (p x)) [
      | inl e ↦ rw (e, keeps x) (b.0, Below-update hi xs b.1)
      | inr e ↦ rw e (b.0, Below-update hi xs b.1)
    ]

    -- The row found by its key, after it was updated.
    pub find-update :
        (k : ℕ) (xs : List A) (x : A)
        → p ≡ (λ y. key y == k)
        → find (λ y. key y == k) xs ≡ some x
        → find (λ y. key y == k) (update p f xs) ≡ some (f x)
    find-update k xs x same_test e = rw same_test (found xs e)
      where
        found :
            (xs : List A)
            → find (λ y. key y == k) xs ≡ some x
            → find (λ y. key y == k) (update (λ y. key y == k) f xs) ≡ some (f x)
        found [] e = cc
        found (y ∷ ys) e = elim (Bool-cases (key y == k)) [
          | inl hit ↦
              let this : y ≡ x = ground arith in
              let kept : (key (f y) == k) ≡ true = rw (keeps y, hit) refl in
              rw hit (rw kept (ap (λ z. some (f z)) this))
          | inr miss ↦ rw miss (rw miss (found ys (ground arith)))
        ]
