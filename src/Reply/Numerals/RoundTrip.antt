-- ===== src/Reply/Numerals/RoundTrip.antt =====
-- Numbers written out in Chinese are read back.
use ubot_ai_agent.Base.{
  ℕ, ◌+◌, ◌*◌, ◌/◌, ◌%◌, ◌≤◌, ◌<◌, ◌≡◌, refl, sym, ap, ◌∙◌, ◌==◌, ltb, ltb→lt, Bool, true, false,
  not, ◌||◌, some, [], ◌∷◌, ◌++◌, Text, inl, inr, arith, Bool-cases,
}
use mathlib.Core.List.{append_assoc, append-nil}
use ubot_ai_agent.Reply.Numerals.Spelling.{Style, place, ones, spell_section, spell}
use ubot_ai_agent.Reply.Numerals.{
  Reading, or_one, read_unit, read_numeral, fresh, number_of, parse_chinese_integer,
}
use ubot_ai_agent.Reply.Numerals.Places.{
  added, read-unit, read-place, read-ones, letter_thousand, letter_hundred, letter_ten,
  letter_myriad, unit_thousand, unit_hundred, unit_ten, unit_myriad,
}

-- What the loop knows behind a section.
abbrev behind : ℕ → Bool → Reading → Reading
behind n written r = record {
  section = r.section + n / 10 * 10;
  total = r.total;
  number = n % 10;
  saw_value = written;
}

read-section :
    (style : Style) (n : ℕ) (s : Text) (r : Reading)
    → n < 10000
    → r.number ≡ 0
    → (written : Bool) × (read_numeral (spell_section style n ++ s) r
        ≡ read_numeral s (behind n written r))
      × ((0 < n → written ≡ true) × (r.saw_value ≡ true → written ≡ true))
unfolding spell_section
read-section style n s r h z =
    let r₁ = added (n / 1000 * 1000) (not (n / 1000 == 0) || style.writes_zero 21315) r in
    let r₂ = added (n / 100 % 10 * 100) (not (n / 100 % 10 == 0) || style.writes_zero 30334) r₁ in
    let r₃ = added (n / 10 % 10 * 10) (not (n / 10 % 10 == 0) || style.writes_zero 21313) r₂ in
    let thousands = place style (n / 1000) 21315 in
    let hundreds = place style (n / 100 % 10) 30334 in
    let tens = place style (n / 10 % 10) 21313 in
    let last = ones style (n % 10) in
    let seen = r₃.saw_value || (not (n % 10 == 0) || style.writes_zero 1) in
    (
      seen,
      ap (λ t. read_numeral t r)
            (append_assoc thousands (hundreds ++ (tens ++ last)) s
              ∙ ap (λ t. thousands ++ t)
                  (append_assoc hundreds (tens ++ last) s
                    ∙ ap (λ t. hundreds ++ t) (append_assoc tens last s)))
          ∙ read-place style 21315 1000 letter_thousand unit_thousand (omega arith) (n / 1000)
              (hundreds ++ (tens ++ (last ++ s))) r (omega arith) z
          ∙ read-place style 30334 100 letter_hundred unit_hundred (omega arith) (n / 100 % 10)
              (tens ++ (last ++ s)) r₁ (omega arith) refl
          ∙ read-place style 21313 10 letter_ten unit_ten (omega arith) (n / 10 % 10) (last ++ s) r₂
              (omega arith) refl
          ∙ read-ones style (n % 10) s r₃ (omega arith) refl
          ∙ ap (λ x. read_numeral s (record r₃ { section = x; number = n % 10; saw_value = seen }))
              (omega (arith, h)),
      (λ pos. ground arith, λ old. ground arith),
    )

read_section_alone :
    (style : Style) (n : ℕ) (r : Reading)
    → n < 10000
    → r.number ≡ 0
    → (written : Bool) × (read_numeral (spell_section style n) r ≡ some (behind n written r))
      × ((0 < n → written ≡ true) × (r.saw_value ≡ true → written ≡ true))
unfolding read_numeral
read_section_alone style n r h z =
    let (written, e, w) = read-section style n [] r h z in
    (written, ap (λ t. read_numeral t r) (sym (append-nil (spell_section style n))) ∙ e, w)

or_one_pos : (m x : ℕ) → x ≡ m → 0 < m → 0 + or_one x * 10000 ≡ m * 10000
or_one_pos m x e h = let same_number : or_one x ≡ m = ground arith in rw same_number (omega arith)

number_of-seen :
    (n : ℕ) (r : Reading)
    → 0 < n
    → r.saw_value ≡ true
    → r.total + r.section + r.number ≡ n
    → number_of (some r) ≡ some n
unfolding number_of
number_of-seen n r pos seen e = rw (seen, e) (ground arith)

not_small : (n : ℕ) → ltb n 10000 ≡ false → 10000 ≤ n
not_small n h = ground arith

-- The reading behind 万.
abbrev myriads : ℕ → Reading
myriads n = record { section = 0; total = n / 10000 * 10000; number = 0; saw_value = true }

read-myriads :
    (style : Style) (n : ℕ) (s : Text)
    → 10000 ≤ n
    → n < 100000000
    → read_numeral (spell_section style (n / 10000) ++ 19975 ∷ s) fresh ≡ read_numeral s (myriads n)
unfolding read_unit
read-myriads style n s low high =
    let (written, e, w) = read-section style (n / 10000) (19975 ∷ s) fresh (omega arith) refl in
    e
    ∙ read-unit 19975 10000 s (behind (n / 10000) written fresh) letter_myriad unit_myriad
    ∙ ap (λ x. read_numeral s (record { section = 0; total = x; number = 0; saw_value = true }))
        (or_one_pos (n / 10000) (0 + n / 10000 / 10 * 10 + n / 10000 % 10) (omega arith)
          (omega arith))

-- A number from one to a hundred million, exclusive, written in Chinese is read back, whether the
-- writer fills an empty place with 零 or not, and whether a one before its unit is written or not.
pub parse_chinese_integer-spell :
    (high low : Style) (n : ℕ)
    → 0 < n
    → n < 100000000
    → parse_chinese_integer (spell high low n) ≡ some n
unfolding parse_chinese_integer spell
parse_chinese_integer-spell high low n pos most = elim (Bool-cases (ltb n 10000)) [
  | inl small ↦
      let (written, e, w) = read_section_alone low n fresh (ltb→lt n 10000 small) refl in
      rw small (rw e (number_of-seen n (behind n written fresh) pos (w.0 pos) (omega arith)))
  | inr large ↦
      let rest = spell_section low (n % 10000) in
      let (written, e, w) = read_section_alone low (n % 10000) (myriads n) (omega arith) refl in
      rw large (
        rw (read-myriads high n rest (not_small n large) most) (
          rw e (
            number_of-seen n (behind (n % 10000) written (myriads n)) pos (w.1 refl)
              (omega arith))))
]
