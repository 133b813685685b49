-- ===== src/Reply/Pieces/Bounds.antt =====
-- Lengths of the pieces of a reply.
use mathlib.Core.List.{reverse}
use ubot_ai_agent.Base.{
  ℕ, zero, suc, ◌+◌, ◌≤◌, ◌<◌, ◌≡◌, min, ltb, leb, if◌then◌else◌, Bool, true, false, not, [], ◌∷◌,
  inl, inr, Text, codes, trim, is_empty, length, take, drop, All, All-filter, arith, Bool-cases,
}
use ubot_ai_agent.Base.Trimming.{length-reverse, length-trim-le}
use ubot_ai_agent.Reply.Pieces.{
  is_end_mark, drop_marks, finalize_message, last_place, best_place, find_split_index, chunk_rest,
  chunk_long_sentence,
}

length-drop_marks-le : (s : Text) → length (drop_marks s) ≤ length s
unfolding drop_marks
length-drop_marks-le [] = omega arith
length-drop_marks-le (c ∷ s) = elim (Bool-cases (is_end_mark c)) [
  | inl e ↦ rw e (omega (arith, length-drop_marks-le s))
  | inr e ↦ rw e (omega arith)
]

pub length-finalize_message-le :
    (strip : Bool) (s : Text) → length (finalize_message strip s) ≤ length s
unfolding finalize_message
length-finalize_message-le strip s = ground (
  arith,
  length-trim-le s,
  length-trim-le (reverse (drop_marks (reverse (trim s)))),
  length-reverse (drop_marks (reverse (trim s))),
  length-drop_marks-le (reverse (trim s)),
  length-reverse (trim s),
)

last_place-le : (c : ℕ) (s : Text) → last_place c s ≤ length s
unfolding last_place
last_place-le c [] = omega arith
last_place-le c (d ∷ s) = ground (arith, last_place-le c s)

best_place-le : (cs s : Text) → best_place cs s ≤ length s
unfolding best_place
best_place-le [] s = omega arith
best_place-le (c ∷ cs) s = omega (arith, last_place-le c s, best_place-le cs s)

-- A slice that is not empty is cut behind its first unit, or further on.
pub find_split_index_bounds :
    (s : Text) → 0 < length s → (0 < find_split_index s) × (find_split_index s ≤ length s)
unfolding find_split_index
find_split_index_bounds s h = ground (arith, best_place-le (codes "，。！？；,.!?; ") s)

pub length-take-min : (n : ℕ) (s : Text) → length (take n s) ≡ min n (length s)
length-take-min zero s = omega arith
length-take-min (suc n) [] = omega arith
length-take-min (suc n) (c ∷ s) = omega (arith, length-take-min n s)

pub length-drop-add : (n : ℕ) (s : Text) → n ≤ length s → length (drop n s) + n ≡ length s
length-drop-add zero s h = omega arith
length-drop-add (suc n) [] h = absurd (omega arith)
length-drop-add (suc n) (c ∷ s) h = omega (arith, length-drop-add n s (omega arith))

-- A round of the loop, and its end.
pub chunk_rest_long :
    (fuel max_chars : ℕ) (rest : Text)
    → ltb max_chars (length rest) ≡ true
    → chunk_rest (suc fuel) max_chars rest
      ≡ trim (take (find_split_index (take max_chars rest)) rest)
        ∷ chunk_rest fuel max_chars (trim (drop (find_split_index (take max_chars rest)) rest))
unfolding chunk_rest
chunk_rest_long fuel max_chars rest h = ground arith

pub chunk_rest_short :
    (fuel max_chars : ℕ) (rest : Text)
    → ltb max_chars (length rest) ≡ false
    → chunk_rest (suc fuel) max_chars rest ≡ (if is_empty rest then [] else rest ∷ [])
unfolding chunk_rest
chunk_rest_short fuel max_chars rest h = ground arith

-- In a round the place of the cut lies in the slice.
pub split_bounds :
    (max_chars : ℕ) (rest : Text)
    → 0 < max_chars
    → max_chars < length rest
    → (0 < find_split_index (take max_chars rest))
      × (find_split_index (take max_chars rest) ≤ max_chars)
split_bounds max_chars rest h k =
    let size = length-take-min max_chars rest in
    let bounds = find_split_index_bounds (take max_chars rest) (omega (arith, size)) in
    (bounds.0, omega (arith, bounds.1, size))

abbrev pub Fits : ℕ → Text → Type 0
Fits max_chars m = length m ≤ max_chars

end-Fits :
    (max_chars : ℕ) (rest : Text)
    → length rest ≤ max_chars
    → All (Fits max_chars) (if is_empty rest then [] else rest ∷ [])
end-Fits max_chars [] h = tt
end-Fits max_chars (c ∷ s) h = (h, tt)

chunk_rest-Fits :
    (fuel max_chars : ℕ) (rest : Text)
    → 0 < max_chars
    → All (Fits max_chars) (chunk_rest fuel max_chars rest)
chunk_rest-Fits zero max_chars rest pos = unfold chunk_rest in tt
chunk_rest-Fits (suc fuel) max_chars rest pos = elim (Bool-cases (ltb max_chars (length rest))) [
  | inl long ↦
      let place = find_split_index (take max_chars rest) in
      rw (chunk_rest_long fuel max_chars rest long) (
        omega (
          arith,
          length-trim-le (take place rest),
          length-take-min place rest,
          (split_bounds max_chars rest pos (ground arith)).1,
        ),
        chunk_rest-Fits fuel max_chars (trim (drop place rest)) pos,
      )
  | inr short ↦
      rw (chunk_rest_short fuel max_chars rest short) (end-Fits max_chars rest (ground arith))
]

-- The pieces of a sentence are not longer than asked for.
pub chunk_long_sentence-Fits :
    (text : Text) (max_chars : ℕ)
    → 0 < max_chars
    → All (Fits max_chars) (chunk_long_sentence text max_chars)
unfolding chunk_long_sentence
chunk_long_sentence-Fits text max_chars pos = elim (Bool-cases (leb (length text) max_chars)) [
  | inl short ↦ rw short (ground arith, tt)
  | inr long ↦ rw long (
      All-filter (Fits max_chars) (Fits max_chars) (λ s. not (is_empty s)) (λ s e h. h) _
        (chunk_rest-Fits (length text + 1) max_chars (trim text) pos))
]
