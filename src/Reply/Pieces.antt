-- ===== src/Reply/Pieces.antt =====
-- The pieces of a reply, of src/utils/reply-format.ts: `finalizeMessage`, `findSplitIndex`,
-- `chunkLongSentence` and `splitIntoSentenceUnits`.
pub mod Bounds
pub mod Content
use mathlib.Core.List.{reverse}
use ubot_ai_agent.Base.{
  ℕ, zero, suc, ◌+◌, ◌/◌, max, ◌==◌, ltb, leb, if◌then◌else◌, Bool, true, false, not, List, [], ◌∷◌,
  ◌++◌, map, Text, codes, trim, is_empty, length, take, drop, filter, any,
}

abbrev pub is_one_of : Text → ℕ → Bool
is_one_of units c = any (λ d. d == c) units

abbrev pub filled : List Text → List Text
filled = filter (λ s. not (is_empty s))

-- `[。?!？！；;，,]`
abbrev pub is_end_mark : ℕ → Bool
is_end_mark = is_one_of (codes "。?!？！；;，,")

unfoldable pub drop_marks : Text → Text
drop_marks [] = []
drop_marks (c ∷ s) = if is_end_mark c then drop_marks s else c ∷ s

-- `finalizeMessage`; the marks at the end go, and what is then blank.
unfoldable pub finalize_message : Bool → Text → Text
unfolding drop_marks
finalize_message strip text =
    let normalized = trim text in
    if is_empty normalized
    then []
    else if not strip
    then normalized
    else trim (reverse (drop_marks (reverse normalized)))

-- `lastIndexOf`, plus one: 0 where the unit does not occur.
unfoldable pub last_place : ℕ → Text → ℕ
last_place c [] = 0
last_place c (d ∷ s) =
    let later = last_place c s in if ltb 0 later then suc later else if d == c then 1 else 0

unfoldable pub best_place : Text → Text → ℕ
unfolding last_place
best_place [] slice = 0
best_place (c ∷ cs) slice = max (last_place c slice) (best_place cs slice)

-- `findSplitIndex`; the places count from 1, so `best >= Math.floor(length / 2)` is a strict test.
unfoldable pub find_split_index : Text → ℕ
unfolding best_place
find_split_index slice =
    let best = best_place (codes "，。！？；,.!?; ") slice in
    if ltb (length slice / 2) best then best else length slice

-- The `while` loop of `chunkLongSentence`, a round of it on each unit of fuel.
unfoldable pub chunk_rest : ℕ → ℕ → Text → List Text
unfolding find_split_index
chunk_rest zero max_chars rest = []
chunk_rest (suc fuel) max_chars rest = elim (ltb max_chars (length rest)) [
  | true ↦
      let split_index = find_split_index (take max_chars rest) in
      trim (take split_index rest) ∷ chunk_rest fuel max_chars (trim (drop split_index rest))
  | false ↦ if is_empty rest then [] else rest ∷ []
]

unfoldable pub chunk_long_sentence : Text → ℕ → List Text
unfolding chunk_rest
chunk_long_sentence text max_chars =
    if leb (length text) max_chars
    then text ∷ []
    else filled (chunk_rest (length text + 1) max_chars (trim text))

pub record SentenceUnit : Type 0 where
  pub text : Text
  pub hard_break_after : Bool

-- `text.split("\n")`; the first argument is the line so far, in reverse.
unfoldable pub split_lines : Text → Text → List Text
split_lines line [] = reverse line ∷ []
split_lines line (c ∷ s) =
    let next = split_lines [] s in
    let on = split_lines (c ∷ line) s in if c == 10 then reverse line ∷ next else on

-- `text.replace(/…+/g, unit)`: each run of units that pass the test becomes one unit.
unfoldable pub collapse : (ℕ → Bool) → ℕ → Text → Text
collapse p unit [] = []
collapse p unit (c ∷ []) = (if p c then unit else c) ∷ []
collapse p unit (c ∷ d ∷ s) =
    let rest = collapse p unit (d ∷ s) in
    if p c then if p d then rest else unit ∷ rest else c ∷ rest

-- `line.replace(/([…])/g, "$1\n")`
unfoldable pub break_behind : Text → Text → Text
break_behind marks [] = []
break_behind marks (c ∷ s) =
    let rest = break_behind marks s in if is_one_of marks c then c ∷ 10 ∷ rest else c ∷ rest

unfoldable pub units_of : List Text → List SentenceUnit
units_of [] = []
units_of (part ∷ []) = record { text = part; hard_break_after = true } ∷ []
units_of (part ∷ next ∷ parts) =
    record { text = part; hard_break_after = false } ∷ units_of (next ∷ parts)

unfoldable pub parts_of : Text → List Text
unfolding split_lines break_behind
parts_of line =
    filled
      (map trim (split_lines [] (break_behind (codes "；;") (break_behind (codes "。！？!?") line))))

unfoldable pub units_of_lines : List Text → List SentenceUnit
unfolding units_of parts_of
units_of_lines [] = []
units_of_lines (line ∷ lines) = units_of (parts_of line) ++ units_of_lines lines

unfoldable pub split_into_sentence_units : Text → Bool → List SentenceUnit
unfolding collapse split_lines units_of_lines
split_into_sentence_units text respect_line_breaks =
    let lines =
      if respect_line_breaks then split_lines [] (collapse (λ c. c == 10) 10 text) else text ∷ [] in
    units_of_lines (filled (map trim lines))
