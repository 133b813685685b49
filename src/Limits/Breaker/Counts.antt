-- ===== src/Limits/Breaker/Counts.antt =====
-- The calls under way: their numbers, and how many of them are probes.
use ubot_ai_agent.Base.{
  ℕ, suc, ◌+◌, ◌==◌, if◌then◌else◌, Bool, true, false, not, none, some, List, [], ◌∷◌, ◌≡◌, refl,
  ap, ◌∙◌, inl, inr, subst, sym, filter, any, count, found_passes, arith, Bool-cases,
}
use ubot_ai_agent.Limits.Breaker.{Call, call_of}

abbrev pub is_probe : Call → Bool
is_probe c = c.probe

abbrev pub has_number : ℕ → List Call → Bool
has_number id = any (λ c. c.id == id)

abbrev pub AreApart : List Call → Type 0
AreApart [] = Unit
AreApart (c ∷ cs) = (has_number c.id cs ≡ false) × AreApart cs

abbrev pub one_if : Bool → ℕ
one_if true = 1
one_if false = 0

pub has_number-filter :
    (id : ℕ) (p : Call → Bool) (cs : List Call)
    → has_number id cs ≡ false
    → has_number id (filter p cs) ≡ false
has_number-filter id p [] h = refl
has_number-filter id p (c ∷ cs) h = ground (arith, has_number-filter id p cs)

pub AreApart-filter : (p : Call → Bool) (cs : List Call) → AreApart cs → AreApart (filter p cs)
AreApart-filter p [] a = tt
AreApart-filter p (c ∷ cs) a =
    ground (arith, has_number-filter c.id p cs a.0, AreApart-filter p cs a.1)

pub count-absent :
    (id : ℕ) (cs : List Call)
    → has_number id cs ≡ false
    → count is_probe (filter (λ d. not (d.id == id)) cs) ≡ count is_probe cs
count-absent id [] h = refl
count-absent id (c ∷ cs) h = ground (arith, count-absent id cs)

pub counted_if : (b : Bool) (n : ℕ) → (if b then suc n else n) ≡ one_if b + n
counted_if true n = omega arith
counted_if false n = omega arith

pub shifted :
    (b : Bool) (k m n : ℕ) → m ≡ k + n → (if b then suc m else m) ≡ k + (if b then suc n else n)
shifted true k m n e = omega (arith, e)
shifted false k m n e = e

pub count-leave :
    (id : ℕ) (cs : List Call) (c : Call)
    → AreApart cs
    → call_of id cs ≡ some c
    → count is_probe cs ≡ one_if c.probe + count is_probe (filter (λ d. not (d.id == id)) cs)
count-leave id [] c a e = cc
count-leave id (x ∷ xs) c a e = elim (Bool-cases (x.id == id)) [
  | inl hit ↦
      let this : x ≡ c = ground arith in
      let number_eq : x.id ≡ id = ground arith in
      let gone : has_number id xs ≡ false = subst (λ n. has_number n xs ≡ false) number_eq a.0 in
      rw hit (
        rw (← this) (
          counted_if x.probe (count is_probe xs)
          ∙ ap (λ n. one_if x.probe + n) (sym (count-absent id xs gone))))
  | inr miss ↦
      rw miss (shifted x.probe (one_if c.probe) _ _ (count-leave id xs c a.1 (ground arith)))
]

pub call_of-number : (id : ℕ) (cs : List Call) (c : Call) → call_of id cs ≡ some c → c.id ≡ id
call_of-number id cs c e = ground (arith, found_passes (λ c. c.id == id) cs c e)

pub call_of-none : (id : ℕ) (cs : List Call) → call_of id cs ≡ none → has_number id cs ≡ false
call_of-none id [] e = refl
call_of-none id (c ∷ cs) e = ground (arith, call_of-none id cs)
