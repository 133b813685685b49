-- ===== src/Reply/Numerals.antt =====
-- Numbers in a request for a length: `parseLengthNumber` and `parseChineseInteger` of
-- src/utils/reply-length.ts.
pub mod Spelling
pub mod Places
pub mod RoundTrip
use ubot_ai_agent.Base.{
  ℕ, ◌+◌, ◌-◌, ◌*◌, ◌==◌, ltb, leb, if◌then◌else◌, Bool, true, false, not, ◌&&◌, Option, none, some,
  List, [], ◌∷◌, map, Text, codes, is_digit, is_empty, all,
}

-- A table of units and their values, as an object of the source.
abbrev pub lookup : ℕ → List (ℕ × ℕ) → Option ℕ
lookup c [] = none
lookup c ((d, n) ∷ rest) = if d == c then some n else lookup c rest

abbrev pub numbered : ℕ → Text → List (ℕ × ℕ)
numbered n [] = []
numbered n (c ∷ s) = (c, n) ∷ numbered (n + 1) s

-- `digits`
unfoldable pub digit_of : ℕ → Option ℕ
digit_of c =
    if c == 12295
    then some 0
    else if c == 20004
    then some 2
    else lookup c (numbered 0 (codes "零一二三四五六七八九"))

-- `units`
unfoldable pub unit_of : ℕ → Option ℕ
unit_of c =
    if c == 21313
    then some 10
    else if c == 30334
    then some 100
    else if c == 21315
    then some 1000
    else if c == 19975
    then some 10000
    else none

-- The variables of the loop in `parseChineseInteger`.
pub record Reading : Type 0 where
  pub section : ℕ
  pub total : ℕ
  pub number : ℕ
  pub saw_value : Bool

-- `n || 1`
abbrev pub or_one : ℕ → ℕ
or_one n = if n == 0 then 1 else n

unfoldable pub read_unit : ℕ → Reading → Reading
read_unit unit r =
    if unit == 10000
    then record {
      section = 0;
      total = r.total + or_one (r.section + r.number) * unit;
      number = 0;
      saw_value = true;
    }
    else record r { section = r.section + or_one r.number * unit; number = 0; saw_value = true }

unfoldable pub read_numeral : Text → Reading → Option Reading
unfolding digit_of unit_of read_unit
read_numeral [] r = some r
read_numeral (c ∷ s) r = elim (digit_of c) [
  | some digit ↦ read_numeral s (record r { number = digit; saw_value = true })
  | none ↦ elim (unit_of c) [ none ↦ none | some unit ↦ read_numeral s (read_unit unit r) ]
]

abbrev pub fresh : Reading
fresh = record { section = 0; total = 0; number = 0; saw_value = false }

unfoldable pub number_of : Option Reading → Option ℕ
number_of none = none
number_of (some r) =
    let result = r.total + r.section + r.number in
    if r.saw_value && ltb 0 result then some result else none

unfoldable pub parse_chinese_integer : Text → Option ℕ
unfolding read_numeral number_of
parse_chinese_integer value = number_of (read_numeral value fresh)

-- `[０-９]` become `[0-9]`.
abbrev pub half_width : ℕ → ℕ
half_width c = if leb 65296 c && leb c 65305 then c - 65248 else c

unfoldable pub decimal_from : ℕ → Text → ℕ
decimal_from n [] = n
decimal_from n (c ∷ s) = decimal_from (n * 10 + (c - 48)) s

unfoldable pub parse_length_number : Text → Option ℕ
unfolding decimal_from parse_chinese_integer
parse_length_number value =
    let ascii = map half_width value in
    let parsed = decimal_from 0 ascii in
    if not (is_empty ascii) && all is_digit ascii
    then if leb parsed 9007199254740991 then some parsed else none
    else parse_chinese_integer ascii
