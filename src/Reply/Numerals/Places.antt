-- ===== src/Reply/Numerals/Places.antt =====
-- A digit with its unit, written in Chinese, is read back.
use ubot_ai_agent.Base.{
  ℕ, zero, suc, ◌+◌, ◌*◌, ◌<◌, ◌≡◌, refl, ap, subst, ◌∙◌, ◌==◌, Bool, true, not, ◌&&◌, ◌||◌, none,
  some, ◌∷◌, ◌++◌, Text, inl, inr, arith, Bool-cases,
}
use ubot_ai_agent.Reply.Numerals.Spelling.{Style, digit, place, ones}
use ubot_ai_agent.Reply.Numerals.{digit_of, unit_of, Reading, or_one, read_unit, read_numeral}

pub digit_of-digit : (d : ℕ) → d < 10 → digit_of (digit d) ≡ some d
unfolding digit_of digit
digit_of-digit zero h = refl
digit_of-digit (suc zero) h = refl
digit_of-digit (suc (suc zero)) h = refl
digit_of-digit (suc (suc (suc zero))) h = refl
digit_of-digit (suc (suc (suc (suc zero)))) h = refl
digit_of-digit (suc (suc (suc (suc (suc zero))))) h = refl
digit_of-digit (suc (suc (suc (suc (suc (suc zero)))))) h = refl
digit_of-digit (suc (suc (suc (suc (suc (suc (suc zero))))))) h = refl
digit_of-digit (suc (suc (suc (suc (suc (suc (suc (suc zero)))))))) h = refl
digit_of-digit (suc (suc (suc (suc (suc (suc (suc (suc (suc zero))))))))) h = refl
digit_of-digit (suc (suc (suc (suc (suc (suc (suc (suc (suc (suc d)))))))))) h =
    absurd (omega arith)

pub read-digit :
    (d : ℕ) (s : Text) (r : Reading)
    → d < 10
    → read_numeral (digit d ∷ s) r ≡ read_numeral s (record r { number = d; saw_value = true })
unfolding read_numeral
read-digit d s r h = rw (digit_of-digit d h, read_numeral) refl

pub read-unit :
    (c unit : ℕ) (s : Text) (r : Reading)
    → digit_of c ≡ none
    → unit_of c ≡ some unit
    → read_numeral (c ∷ s) r ≡ read_numeral s (read_unit unit r)
unfolding read_numeral
read-unit c unit s r h k = rw (h, read_numeral) (rw (k, read_numeral) refl)

-- What the loop knows behind a place.
abbrev pub added : ℕ → Bool → Reading → Reading
added value written r = record {
  section = r.section + value;
  total = r.total;
  number = 0;
  saw_value = r.saw_value || written;
}

pub read_unit-small :
    (unit value : ℕ) (r : Reading)
    → unit < 10000
    → or_one r.number * unit ≡ value
    → read_unit unit r ≡ added value true r
unfolding read_unit
read_unit-small unit value r small e = ground arith

pub zero-digit : digit 0 ≡ 38646
unfolding digit
zero-digit = refl

module _ (style : Style) (c unit : ℕ) (letter : digit_of c ≡ none) (u : unit_of c ≡ some unit)
    (small : unit < 10000) where
  pub read-place :
      (d : ℕ) (s : Text) (r : Reading)
      → d < 10
      → r.number ≡ 0
      → read_numeral (place style d c ++ s) r
        ≡ read_numeral s (added (d * unit) (not (d == 0) || style.writes_zero c) r)
  unfolding place
  read-place d s r h z = elim (Bool-cases (d == 0)) [
    | inl is_zero ↦
        let nothing : d * unit ≡ 0 * unit = ap (λ x. x * unit) (ground arith) in
        rw is_zero (elim (Bool-cases (style.writes_zero c)) [
          | inl written ↦ rw written (
              subst
                (λ z0.
                  read_numeral (z0 ∷ s) r
                  ≡ read_numeral s (record r { number = 0; saw_value = true }))
                zero-digit (read-digit 0 s r (omega arith))
              ∙ ap (read_numeral s) (ground (arith, nothing)))
          | inr left_out ↦ rw left_out (ap (read_numeral s) (ground (arith, nothing)))
        ])
    | inr positive ↦ rw positive (elim (Bool-cases (d == 1 && style.omits_one c)) [
      | inl short ↦ rw short (
          read-unit c unit s r letter u
          ∙ ap (read_numeral s) (
              read_unit-small unit (d * unit) r small (rw z (ap (λ x. x * unit) (ground arith)))
              ∙ ground arith))
      | inr long ↦ rw long (
          read-digit d (c ∷ s) r h
          ∙ read-unit c unit s _ letter u
          ∙ ap (read_numeral s)
              (read_unit-small unit (d * unit) _ small (rw positive refl) ∙ ground arith))
    ])
  ]

pub letter_thousand : digit_of 21315 ≡ none
unfolding digit_of
letter_thousand = refl

pub unit_thousand : unit_of 21315 ≡ some 1000
unfolding unit_of
unit_thousand = refl

pub letter_hundred : digit_of 30334 ≡ none
unfolding digit_of
letter_hundred = refl

pub unit_hundred : unit_of 30334 ≡ some 100
unfolding unit_of
unit_hundred = refl

pub letter_ten : digit_of 21313 ≡ none
unfolding digit_of
letter_ten = refl

pub unit_ten : unit_of 21313 ≡ some 10
unfolding unit_of
unit_ten = refl

pub letter_myriad : digit_of 19975 ≡ none
unfolding digit_of
letter_myriad = refl

pub unit_myriad : unit_of 19975 ≡ some 10000
unfolding unit_of
unit_myriad = refl

pub read-ones :
    (style : Style) (d : ℕ) (s : Text) (r : Reading)
    → d < 10
    → r.number ≡ 0
    → read_numeral (ones style d ++ s) r
      ≡ read_numeral s (record r {
        number = d;
        saw_value = r.saw_value || (not (d == 0) || style.writes_zero 1);
      })
unfolding ones
read-ones style d s r h z = elim (Bool-cases (d == 0)) [
  | inl is_zero ↦ rw is_zero (elim (Bool-cases (style.writes_zero 1)) [
    | inl written ↦ rw written (
        subst
          (λ c. read_numeral (c ∷ s) r ≡ read_numeral s (record r { number = 0; saw_value = true }))
          zero-digit (read-digit 0 s r (omega arith))
        ∙ ap (read_numeral s) (ground arith))
    | inr left_out ↦ rw left_out (ap (read_numeral s) (ground arith))
  ])
  | inr positive ↦ rw positive (read-digit d s r h ∙ ap (read_numeral s) (ground arith))
]
