-- ===== src/Base/Selection.antt =====
-- Rows picked by their keys: `SELECT id … LIMIT n`, then an UPDATE and a SELECT with `id IN (…)`.
use Prim.Native.Nat.{ℕ, zero, suc, ◌≤◌, ◌<◌}
use mathlib.Core.Path.{◌≡◌, refl, ap, ◌∙◌, sym, subst}
use mathlib.Core.Logic.{inl, inr}
use mathlib.Core.Bool.{Bool, true, false, ◌&&◌}
use mathlib.Core.List.{List, [], ◌∷◌, map}
use native.Mathlib.Omega.{arith}
use ubot_ai_agent.Base.Tests.{◌==◌, Bool-cases}
use ubot_ai_agent.Base.Lists.{All, All-map, All-map₂, filter, any, take}
use ubot_ai_agent.Base.Ascending.{Ascending, Ascending-lower}
use ubot_ai_agent.Base.Updates.{update}

-- `id IN (…)`
abbrev pub among : List ℕ → ℕ → Bool
among ids id = any (λ i. i == id) ids

module _ {ℓ} {A : Type ℓ} (p : A → Bool) (x : A) (xs : List A) where
  pub filter_hit : p x ≡ true → filter p (x ∷ xs) ≡ x ∷ filter p xs
  filter_hit e = rw e

  pub filter_miss : p x ≡ false → filter p (x ∷ xs) ≡ filter p xs
  filter_miss e = rw e

module _ {ℓ} {A : Type ℓ} (key : A → ℕ) (p q : A → Bool) (f : A → A) where
  -- What the SELECT behind the UPDATE returns.
  abbrev pub selected : List ℕ → List A → List A
  selected ids xs =
      filter (λ x. among ids (key x) && q x) (update (λ x. among ids (key x) && p x) f xs)

  module _ (keeps : (x : A) → key (f x) ≡ key x) (passes : (x : A) → q (f x) ≡ true) where
    selected_cong :
        (ids ids' : List ℕ) (xs : List A)
        → All (λ x. among ids (key x) ≡ among ids' (key x)) xs
        → selected ids xs ≡ selected ids' xs
    selected_cong ids ids' [] h = refl
    selected_cong ids ids' (x ∷ xs) h =
        ground (arith, h.0, keeps x, passes x, selected_cong ids ids' xs h.1)

    selected_none : (xs : List A) → selected [] xs ≡ []
    selected_none [] = refl
    selected_none (x ∷ xs) = selected_none xs

    -- No picked key lies at or below the lower bound.
    among_picked_low :
        (n k lo : ℕ) (xs : List A)
        → Ascending key lo xs
        → k ≤ lo
        → among (map key (take n (filter p xs))) k ≡ false
    among_picked_low zero k lo xs a h = refl
    among_picked_low (suc n) k lo [] a h = refl
    among_picked_low (suc n) k lo (x ∷ xs) a h = elim (Bool-cases (p x)) [
      | inl e ↦ rw e (ground (arith, among_picked_low n k (key x) xs a.1))
      | inr e ↦ rw e (among_picked_low (suc n) k (key x) xs a.1 (omega arith))
    ]

    selected_hit :
        (ids : List ℕ) (x : A) (xs : List A)
        → among ids (key x) ≡ true
        → p x ≡ true
        → selected ids (x ∷ xs) ≡ f x ∷ selected ids xs
    selected_hit ids x xs h e = ground (arith, keeps x, passes x)

    selected_miss :
        (ids : List ℕ) (x : A) (xs : List A)
        → among ids (key x) ≡ false
        → selected ids (x ∷ xs) ≡ selected ids xs
    selected_miss ids x xs h = ground arith

    -- A key below the others can be left out.
    selected_skip :
        (k lo : ℕ) (ids : List ℕ) (xs : List A)
        → Ascending key lo xs
        → k ≤ lo
        → selected (k ∷ ids) xs ≡ selected ids xs
    selected_skip k lo ids xs a h =
        selected_cong (k ∷ ids) ids xs
          (All-map (λ x. lo < key x) _ (λ x b. ground arith) xs (Ascending-lower key lo xs a))

    -- In a table in key order the rows returned are the picked ones, updated, in their order.
    pub selected-picked :
        (n lo : ℕ) (xs : List A)
        → Ascending key lo xs
        → selected (map key (take n (filter p xs))) xs ≡ map f (take n (filter p xs))
    selected-picked zero lo xs a = selected_none xs
    selected-picked (suc n) lo [] a = refl
    selected-picked (suc n) lo (x ∷ xs) a = elim (Bool-cases (p x)) [
      | inl e ↦
          subst (λ l. selected (map key (take (suc n) l)) (x ∷ xs) ≡ map f (take (suc n) l))
            (sym (filter_hit p x xs e))
            (selected_hit (key x ∷ map key (take n (filter p xs))) x xs (ground arith) e
              ∙ ap (◌∷◌ (f x)) (
                  selected_skip (key x) (key x) (map key (take n (filter p xs))) xs a.1
                    (omega arith)
                  ∙ selected-picked n (key x) xs a.1))
      | inr e ↦
          subst (λ l. selected (map key (take (suc n) l)) (x ∷ xs) ≡ map f (take (suc n) l))
            (sym (filter_miss p x xs e))
            (selected_miss (map key (take (suc n) (filter p xs))) x xs
                (among_picked_low (suc n) (key x) (key x) xs a.1 (omega arith))
              ∙ selected-picked (suc n) (key x) xs a.1)
    ]

    abbrev Passing : ℕ → List A → List A → Type 0
    Passing n ys l = All (λ y. among (map key (take n l)) (key y) ≡ true → p y ≡ true) ys

    -- A row whose key is picked passes the test, as no other row has its key.
    pub picked_passes :
        (n lo : ℕ) (xs : List A)
        → Ascending key lo xs
        → All (λ x. among (map key (take n (filter p xs))) (key x) ≡ true → p x ≡ true) xs
    picked_passes n lo [] a = tt
    picked_passes zero lo (x ∷ xs) a = (λ h. cc, picked_passes zero (key x) xs a.1)
    picked_passes (suc n) lo (x ∷ xs) a = elim (Bool-cases (p x)) [
      | inl e ↦ subst (Passing (suc n) (x ∷ xs)) (sym (filter_hit p x xs e)) (
        λ h. e,
        All-map₂ (λ y. key x < key y) _ _ (λ y b ih h. ih (ground arith)) xs
            (Ascending-lower key (key x) xs a.1) (picked_passes n (key x) xs a.1),
      )
      | inr e ↦ subst (Passing (suc n) (x ∷ xs)) (sym (filter_miss p x xs e)) (
        λ h. ground (arith, among_picked_low (suc n) (key x) (key x) xs a.1),
        picked_passes (suc n) (key x) xs a.1,
      )
    ]
