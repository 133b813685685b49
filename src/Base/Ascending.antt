-- ===== src/Base/Ascending.antt =====
-- Tables in the order of a numeric key: the rows' keys rise strictly from a lower bound, and stay
-- under an upper bound.
use Prim.Native.Nat.{ℕ, ◌≤◌, ◌<◌}
use mathlib.Core.List.{List, [], ◌∷◌, ◌++◌}
use mathlib.Core.Path.{◌≡◌}
use mathlib.Core.Bool.{Bool}
use mathlib.Core.Option.{some}
use mathlib.Core.Logic.{inl, inr}
use native.Mathlib.Omega.{arith}
use ubot_ai_agent.Base.Tests.{◌==◌, Bool-cases}
use ubot_ai_agent.Base.Lists.{All, All-map, filter, find}

module _ {ℓ} {A : Type ℓ} (key : A → ℕ) where
  abbrev pub Ascending : ℕ → List A → Type 0
  Ascending lo [] = Unit
  Ascending lo (x ∷ xs) = (lo < key x) × Ascending (key x) xs

  abbrev pub Below : ℕ → List A → Type 0
  Below hi = All λ x. key x ≤ hi

  pub Ascending-weaken : (lo lo' : ℕ) (xs : List A) → lo' ≤ lo → Ascending lo xs → Ascending lo' xs
  Ascending-weaken lo lo' [] h a = tt
  Ascending-weaken lo lo' (x ∷ xs) h a = (omega arith, a.1)

  pub Below-weaken : (hi hi' : ℕ) (xs : List A) → hi ≤ hi' → Below hi xs → Below hi' xs
  Below-weaken hi hi' [] h b = tt
  Below-weaken hi hi' (x ∷ xs) h b = (omega arith, Below-weaken hi hi' xs h b.1)

  pub Below-append :
      (hi : ℕ) (xs : List A) (x : A) → Below hi xs → key x ≤ hi → Below hi (xs ++ x ∷ [])
  Below-append hi [] x b h = (h, tt)
  Below-append hi (y ∷ xs) x b h = (b.0, Below-append hi xs x b.1 h)

  -- A row with a key above all others goes to the end.
  pub Ascending-append :
      (lo hi : ℕ) (xs : List A) (x : A)
      → Ascending lo xs
      → Below hi xs
      → lo ≤ hi
      → hi < key x
      → Ascending lo (xs ++ x ∷ [])
  Ascending-append lo hi [] x a b h k = (omega arith, tt)
  Ascending-append lo hi (y ∷ xs) x a b h k = (a.0, Ascending-append (key y) hi xs x a.1 b.1 b.0 k)

  pub Ascending-filter :
      (lo : ℕ) (p : A → Bool) (xs : List A) → Ascending lo xs → Ascending lo (filter p xs)
  Ascending-filter lo p [] a = tt
  Ascending-filter lo p (x ∷ xs) a =
      ground (arith, Ascending-filter (key x) p xs a.1, Ascending-weaken (key x) lo (filter p xs))

  pub Below-filter : (hi : ℕ) (p : A → Bool) (xs : List A) → Below hi xs → Below hi (filter p xs)
  Below-filter hi p [] b = tt
  Below-filter hi p (x ∷ xs) b = ground (arith, Below-filter hi p xs b.1)

  pub Ascending-lower : (lo : ℕ) (xs : List A) → Ascending lo xs → All (λ x. lo < key x) xs
  Ascending-lower lo [] a = tt
  Ascending-lower lo (x ∷ xs) a =
      (a.0, Ascending-lower lo xs (Ascending-weaken (key x) lo xs (omega arith) a.1))

  -- The row that a search by key finds is the only one with that key.
  pub find_unique :
      (k lo : ℕ) (xs : List A) (x : A)
      → Ascending lo xs
      → find (λ y. key y == k) xs ≡ some x
      → (key x ≡ k) × All (λ y. key y ≡ k → y ≡ x) xs
  find_unique k lo [] x a e = cc
  find_unique k lo (y ∷ ys) x a e = elim (Bool-cases (key y == k)) [
    | inl hit ↦
        let same_row : y ≡ x = ground arith in
        (
          ground arith,
          (
            λ h. same_row,
            All-map (λ z. key y < key z) _ (λ z above h. absurd (ground arith)) ys
                (Ascending-lower (key y) ys a.1),
          ),
        )
    | inr miss ↦
        let (at, only) = find_unique k (key y) ys x a.1 (ground arith) in
        (at, (λ h. absurd (ground arith), only))
  ]
