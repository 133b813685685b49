-- ===== src/Base/Keys.antt =====
-- Rows whose keys are in a list of picked keys.
use Prim.Native.Nat.{ℕ, ◌+◌, ◌≤◌, ◌<◌}
use mathlib.Core.Path.{◌≡◌, refl, sym, subst}
use mathlib.Core.Logic.{◌≢◌, inl, inr}
use mathlib.Core.Bool.{Bool, true, false, ◌||◌}
use mathlib.Core.List.{List, [], ◌∷◌, map}
use native.Mathlib.Omega.{arith}
use ubot_ai_agent.Base.Tests.{◌==◌, Bool-cases}
use ubot_ai_agent.Base.Lists.{All, All-map, All-map₂, filter, count, length}
use ubot_ai_agent.Base.Ascending.{Ascending, Ascending-lower}
use ubot_ai_agent.Base.Selection.{among, filter_hit, filter_miss}

module _ {ℓ} {A : Type ℓ} where
  pub count_cong-le :
      (p q : A → Bool) (xs : List A) → ((x : A) → p x ≡ true → q x ≡ true) → count p xs ≤ count q xs
  count_cong-le p q [] h = omega arith
  count_cong-le p q (x ∷ xs) h = ground (arith, h x, count_cong-le p q xs h)

  pub count-or :
      (p q : A → Bool) (xs : List A) → count (λ x. p x || q x) xs ≤ count p xs + count q xs
  count-or p q [] = omega arith
  count-or p q (x ∷ xs) = ground (arith, count-or p q xs)

  pub count-none : (xs : List A) → count (λ x. false) xs ≡ 0
  count-none [] = refl
  count-none (x ∷ xs) = count-none xs

  module _ (key : A → ℕ) where
    count-absent : (k : ℕ) (xs : List A) → All (λ x. k < key x) xs → count (λ x. k == key x) xs ≡ 0
    count-absent k [] h = refl
    count-absent k (x ∷ xs) h = ground (arith, h.0, count-absent k xs h.1)

    count-key : (k lo : ℕ) (xs : List A) → Ascending key lo xs → count (λ x. k == key x) xs ≤ 1
    count-key k lo [] a = omega arith
    count-key k lo (x ∷ xs) a = elim (Bool-cases (k == key x)) [
      | inl e ↦
          let same_key : k ≡ key x = ground arith in
          rw e (
            omega (
              arith,
              count-absent k xs (
                  All-map (λ y. key x < key y) _ (λ y h. ground arith) xs
                    (Ascending-lower key (key x) xs a.1)),
            ))
      | inr e ↦ rw e (count-key k (key x) xs a.1)
    ]

    -- Each picked key brings at most one row.
    pub count-among :
        (ids : List ℕ) (lo : ℕ) (xs : List A)
        → Ascending key lo xs
        → count (λ x. among ids (key x)) xs ≤ length ids
    count-among [] lo xs a = omega (arith, count-none xs)
    count-among (i ∷ ids) lo xs a = omega (
      arith,
      count-or (λ x. i == key x) (λ x. among ids (key x)) xs,
      count-key i lo xs a,
      count-among ids lo xs a,
    )

    -- A key that no picked row has is not among the picked keys.
    pub among-absent :
        (k : ℕ) (ys : List A) → All (λ y. key y ≢ k) ys → among (map key ys) k ≡ false
    among-absent k [] h = refl
    among-absent k (y ∷ ys) h = ground (arith, h.0, among-absent k ys h.1)

    All-filter_apart :
        (p : A → Bool) (k : ℕ) (xs : List A)
        → All (λ y. key y ≢ k) xs
        → All (λ y. key y ≢ k) (filter p xs)
    All-filter_apart p k [] h = tt
    All-filter_apart p k (x ∷ xs) h = elim (Bool-cases (p x)) [
      | inl e ↦ rw e (h.0, All-filter_apart p k xs h.1)
      | inr e ↦ rw e (All-filter_apart p k xs h.1)
    ]

    abbrev Apart : (A → Bool) → List A → List A → Type 0
    Apart p xs l = All (λ x. p x ≡ false → All (λ y. key y ≢ key x) l) xs

    -- In a table in key order a row that fails the test has a key no passing row has.
    pub failed_apart :
        (p : A → Bool) (lo : ℕ) (xs : List A)
        → Ascending key lo xs
        → All (λ x. p x ≡ false → All (λ y. key y ≢ key x) (filter p xs)) xs
    failed_apart p lo [] a = tt
    failed_apart p lo (x ∷ xs) a = (
      λ e. rw e (
          All-filter_apart p (key x) xs (
            All-map (λ y. key x < key y) _ (λ y h. ground arith) xs
              (Ascending-lower key (key x) xs a.1))),
      elim (Bool-cases (p x)) [
        | inl e ↦ subst (Apart p xs) (sym (filter_hit p x xs e)) (
            All-map₂ (λ y. key x < key y) _ _ (λ y h ih f. (ground arith, ih f)) xs
              (Ascending-lower key (key x) xs a.1) (failed_apart p (key x) xs a.1))
        | inr e ↦ subst (Apart p xs) (sym (filter_miss p x xs e)) (failed_apart p (key x) xs a.1)
      ],
    )
