-- ===== src/Base/Trimming.antt =====
-- What trimming does to the length of a text and to its visible units.
use Prim.Native.Nat.{ℕ, ◌≤◌}
use mathlib.Core.Path.{◌≡◌, refl, ap, ◌∙◌}
use mathlib.Core.Logic.{inl, inr}
use mathlib.Core.Bool.{Bool, not}
use mathlib.Core.List.{List, [], ◌∷◌, reverse, reverse_aux, reverse-append, reverse-reverse}
use native.Mathlib.Omega.{arith}
use ubot_ai_agent.Base.Tests.{Bool-cases}
use ubot_ai_agent.Base.Lists.{filter, length, length-append}
use ubot_ai_agent.Base.Texts.{Text, is_space, trim, trim_start, trim_end}

module _ {ℓ} {A : Type ℓ} where
  pub length-reverse : (xs : List A) → length (reverse xs) ≡ length xs
  length-reverse [] = refl
  length-reverse (x ∷ xs) = omega (
    arith,
    ap length (reverse-append (x ∷ []) xs),
    length-append (reverse xs) (x ∷ []),
    length-reverse xs,
  )

  filter-reverse_aux :
      (p : A → Bool) (xs ys : List A)
      → filter p (reverse_aux xs ys) ≡ reverse_aux (filter p xs) (filter p ys)
  filter-reverse_aux p [] ys = refl
  filter-reverse_aux p (x ∷ xs) ys = elim (Bool-cases (p x)) [
    | inl e ↦ rw (filter-reverse_aux p xs (x ∷ ys), e) refl
    | inr e ↦ rw (filter-reverse_aux p xs (x ∷ ys), e) refl
  ]

  pub filter-reverse : (p : A → Bool) (xs : List A) → filter p (reverse xs) ≡ reverse (filter p xs)
  filter-reverse p xs = filter-reverse_aux p xs []

-- The units that trimming keeps, wherever they stand.
abbrev pub is_visible : ℕ → Bool
is_visible c = not (is_space c)

abbrev pub visible : Text → Text
visible = filter is_visible

length-trim_start-le : (s : Text) → length (trim_start s) ≤ length s
unfolding trim_start
length-trim_start-le [] = omega arith
length-trim_start-le (c ∷ s) = elim (Bool-cases (is_space c)) [
  | inl e ↦ rw e (omega (arith, length-trim_start-le s))
  | inr e ↦ rw e (omega arith)
]

pub length-trim-le : (s : Text) → length (trim s) ≤ length s
unfolding trim trim_end
length-trim-le s = omega (
  arith,
  length-trim_start-le s,
  length-trim_start-le (reverse (trim_start s)),
  length-reverse (trim_start s),
  length-reverse (trim_start (reverse (trim_start s))),
)

visible-trim_start : (s : Text) → visible (trim_start s) ≡ visible s
unfolding trim_start
visible-trim_start [] = refl
visible-trim_start (c ∷ s) = elim (Bool-cases (is_space c)) [
  | inl e ↦ rw e (visible-trim_start s)
  | inr e ↦ rw e (rw e refl)
]

pub visible-trim : (s : Text) → visible (trim s) ≡ visible s
unfolding trim trim_end
visible-trim s =
    filter-reverse is_visible (trim_start (reverse (trim_start s)))
    ∙ ap reverse (visible-trim_start (reverse (trim_start s)))
    ∙ ap reverse (filter-reverse is_visible (trim_start s))
    ∙ reverse-reverse (visible (trim_start s))
    ∙ visible-trim_start s
