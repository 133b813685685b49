-- ===== src/Reply/Pieces/Content.antt =====
-- What a sentence keeps when it is cut into chunks.
use ubot_ai_agent.Base.{
  ℕ, zero, suc, ◌+◌, ◌<◌, ◌≡◌, refl, ap, sym, ◌∙◌, ltb, leb, if◌then◌else◌, List, [], ◌∷◌, ◌++◌,
  inl, inr, Text, trim, is_empty, length, take, drop, filter-append, arith, Bool-cases,
}
use mathlib.Core.List.{append-nil}
use ubot_ai_agent.Base.Trimming.{is_visible, visible, visible-trim, length-trim-le}
use ubot_ai_agent.Reply.Pieces.{find_split_index, chunk_rest, chunk_long_sentence, filled}
use ubot_ai_agent.Reply.Pieces.Bounds.{
  chunk_rest_long, chunk_rest_short, split_bounds, length-drop-add,
}

-- `texts.join("")`
abbrev pub joined : List Text → Text
joined [] = []
joined (s ∷ ss) = s ++ joined ss

joined-filled : (ss : List Text) → joined (filled ss) ≡ joined ss
joined-filled [] = refl
joined-filled ([] ∷ ss) = joined-filled ss
joined-filled ((c ∷ s) ∷ ss) = ap (λ r. (c ∷ s) ++ r) (joined-filled ss)

take-drop : (n : ℕ) (s : Text) → take n s ++ drop n s ≡ s
take-drop zero s = refl
take-drop (suc n) [] = refl
take-drop (suc n) (c ∷ s) = ap (◌∷◌ c) (take-drop n s)

joined_end : (rest : Text) → joined (if is_empty rest then [] else rest ∷ []) ≡ rest
joined_end [] = refl
joined_end (c ∷ s) = append-nil (c ∷ s)

visible-halves :
    (n : ℕ) (s : Text) → visible (trim (take n s)) ++ visible (trim (drop n s)) ≡ visible s
visible-halves n s =
    rw (visible-trim (take n s), visible-trim (drop n s))
      (sym (filter-append is_visible (take n s) (drop n s)) ∙ ap visible (take-drop n s))

-- With more fuel than there are units the loop ends before the fuel does.
visible-chunk_rest :
    (fuel max_chars : ℕ) (rest : Text)
    → 0 < max_chars
    → length rest < fuel
    → visible (joined (chunk_rest fuel max_chars rest)) ≡ visible rest
visible-chunk_rest zero max_chars rest pos h = elim h [ ]
visible-chunk_rest (suc fuel) max_chars rest pos h =
    elim (Bool-cases (ltb max_chars (length rest))) [
      | inl long ↦
          let place = find_split_index (take max_chars rest) in
          let bounds = split_bounds max_chars rest pos (ground arith) in
          let shorter : length (trim (drop place rest)) < fuel = omega (
            arith,
            length-trim-le (drop place rest),
            length-drop-add place rest (ground arith),
            bounds,
          ) in
          rw (chunk_rest_long fuel max_chars rest long) (
            filter-append is_visible (trim (take place rest)) _
            ∙ ap (λ r. visible (trim (take place rest)) ++ r)
                (visible-chunk_rest fuel max_chars (trim (drop place rest)) pos shorter)
            ∙ visible-halves place rest)
      | inr short ↦ rw (chunk_rest_short fuel max_chars rest short) (ap visible (joined_end rest))
    ]

-- The chunks of a sentence, joined, have all its units in their order, spaces aside, for every
-- positive length of chunks: none is lost where the loop cuts.
pub chunk_long_sentence_keeps :
    (text : Text) (max_chars : ℕ)
    → 0 < max_chars
    → visible (joined (chunk_long_sentence text max_chars)) ≡ visible text
unfolding chunk_long_sentence
chunk_long_sentence_keeps text max_chars pos = elim (Bool-cases (leb (length text) max_chars)) [
  | inl short ↦ rw short (ap visible (append-nil text))
  | inr long ↦ rw long (
      ap visible (joined-filled (chunk_rest (length text + 1) max_chars (trim text)))
      ∙ visible-chunk_rest (length text + 1) max_chars (trim text) pos
          (omega (arith, length-trim-le text))
      ∙ visible-trim text)
]
