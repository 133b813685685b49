-- ===== src/Reply/Numerals/Spelling.antt =====
-- How numbers are written in Chinese, beside the reader of src/utils/reply-length.ts.
use ubot_ai_agent.Base.{
  ℕ, zero, suc, ◌/◌, ◌%◌, ◌==◌, ltb, if◌then◌else◌, Bool, ◌&&◌, [], ◌∷◌, ◌++◌, Text, codes,
}

abbrev pub nth : ℕ → Text → ℕ
nth n [] = 0
nth zero (c ∷ s) = c
nth (suc n) (c ∷ s) = nth n s

unfoldable pub digit : ℕ → ℕ
digit d = nth d (codes "零一二三四五六七八九")

-- How a writer treats a place: whether a zero is written, and whether the digit of a one is left out
-- before its unit.
pub record Style : Type 0 where
  pub writes_zero : ℕ → Bool
  pub omits_one : ℕ → Bool

-- The digit `d` before its unit.
unfoldable pub place : Style → ℕ → ℕ → Text
unfolding digit
place style d unit =
    if d == 0
    then if style.writes_zero unit then codes "零" else []
    else if d == 1 && style.omits_one unit
    then unit ∷ []
    else digit d ∷ unit ∷ []

unfoldable pub ones : Style → ℕ → Text
unfolding digit
ones style d = if d == 0 then if style.writes_zero 1 then codes "零" else [] else digit d ∷ []

-- A number below ten thousand: 千, 百, 十 and the ones.
unfoldable pub spell_section : Style → ℕ → Text
unfolding place ones
spell_section style n =
    place style (n / 1000) 21315
    ++ (place style (n / 100 % 10) 30334
        ++ (place style (n / 10 % 10) 21313 ++ ones style (n % 10)))

-- A number below a hundred million, with 万 behind the ten thousands.
unfoldable pub spell : Style → Style → ℕ → Text
unfolding spell_section
spell high low n =
    if ltb n 10000
    then spell_section low n
    else spell_section high (n / 10000) ++ 19975 ∷ spell_section low (n % 10000)
