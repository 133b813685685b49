-- ===== src/Conversation/Words.antt =====
-- How alike two messages are: the text functions of src/services/conversation-context-router.ts.
use ubot_ai_agent.Base.{
  ℕ, ◌*◌, ◌==◌, leb, if◌then◌else◌, Bool, not, ◌&&◌, ◌||◌, Option, none, some, List, [], ◌∷◌, ◌++◌,
  Text, codes, same, trim, is_empty, is_space, is_digit, starts_with, length, take, any, filter,
  includes, distinct,
}
use ubot_ai_agent.Reply.Pieces.{is_one_of, collapse}

-- What the source takes from the tables of Unicode: `normalize("NFKC")`, `toLowerCase`, the classes
-- `[\p{L}\p{N}]` and `\p{Script=Han}` of a code point, and `encodeURIComponent`.
pub record Unicode : Type 0 where
  pub nfkc : Text → Text
  pub lower_case : Text → Text
  pub is_letter_or_number : Text → Bool
  pub is_han : Text → Bool
  pub encode : Text → Text

abbrev pub follow_up_prefixes : List Text
follow_up_prefixes =
    codes "那"
    ∷ codes "然后"
    ∷ codes "所以"
    ∷ codes "继续"
    ∷ codes "展开"
    ∷ codes "详细"
    ∷ codes "具体"
    ∷ codes "为什么"
    ∷ codes "怎么说"
    ∷ codes "不对"
    ∷ codes "更正"
    ∷ codes "其实"
    ∷ codes "还有"
    ∷ codes "另外"
    ∷ codes "补充"
    ∷ []

abbrev pub keyword_stopwords : List Text
keyword_stopwords =
    codes "一个"
    ∷ codes "一下"
    ∷ codes "不是"
    ∷ codes "为什么"
    ∷ codes "什么"
    ∷ codes "介绍"
    ∷ codes "他们"
    ∷ codes "你们"
    ∷ codes "具体"
    ∷ codes "分析"
    ∷ codes "可以"
    ∷ codes "告诉"
    ∷ codes "问题"
    ∷ codes "如何"
    ∷ codes "帮我"
    ∷ codes "怎么"
    ∷ codes "怎么说"
    ∷ codes "情况"
    ∷ codes "我们"
    ∷ codes "所以"
    ∷ codes "更正"
    ∷ codes "有没有"
    ∷ codes "然后"
    ∷ codes "看法"
    ∷ codes "看看"
    ∷ codes "知道"
    ∷ codes "继续"
    ∷ codes "能不能"
    ∷ codes "补充"
    ∷ codes "觉得"
    ∷ codes "详细"
    ∷ codes "请问"
    ∷ codes "说说"
    ∷ codes "这个"
    ∷ codes "还有"
    ∷ codes "那个"
    ∷ codes "那就"
    ∷ codes "展开"
    ∷ codes "另外"
    ∷ []

abbrev pub is_high_surrogate : ℕ → Bool
is_high_surrogate u = leb 55296 u && leb u 56319

abbrev pub is_low_surrogate : ℕ → Bool
is_low_surrogate u = leb 56320 u && leb u 57343

-- The code points of a text, behind a high surrogate that came before, if any.
unfoldable pub points_from : Option ℕ → Text → List Text
points_from none [] = []
points_from (some h) [] = (h ∷ []) ∷ []
points_from begun (u ∷ us) =
    let rest = points_from (if is_high_surrogate u then some u else none) us in
    elim begun [
      | none ↦ if is_high_surrogate u then rest else (u ∷ []) ∷ rest
      | some h ↦
          if is_low_surrogate u
          then (h ∷ u ∷ []) ∷ rest
          else (h ∷ []) ∷ (if is_high_surrogate u then rest else (u ∷ []) ∷ rest)
    ]

unfoldable pub points : Text → List Text
unfolding points_from
points = points_from none

abbrev pub joined_points : List Text → Text
joined_points [] = []
joined_points (p ∷ ps) = p ++ joined_points ps

unfoldable pub normalize_message : Text → Text
unfolding collapse
normalize_message t = trim (collapse is_space 32 t)

unfoldable pub is_direct_follow_up : Unicode → Text → Bool
unfolding normalize_message points
is_direct_follow_up w text =
    let normalized = normalize_message text in
    not (is_empty normalized)
    && (same (w.nfkc normalized) (codes "?")
        || (leb (length (points normalized)) 40 && any (starts_with normalized) follow_up_prefixes))

-- A fraction, as the similarities and their thresholds are.
pub record Fraction : Type 0 where
  pub numerator : ℕ
  pub denominator : ℕ

abbrev pub is_at_least : Fraction → Fraction → Bool
is_at_least a b = leb (b.numerator * a.denominator) (a.numerator * b.denominator)

unfoldable pub normalize_comparable_characters : Unicode → Text → List Text
unfolding points
normalize_comparable_characters w t =
    filter w.is_letter_or_number (points (w.lower_case (w.nfkc t)))

unfoldable pub character_jaccard : Unicode → Text → Text → Fraction
unfolding normalize_comparable_characters
character_jaccard w left right =
    let left_characters = distinct (normalize_comparable_characters w left) in
    let right_characters = distinct (normalize_comparable_characters w right) in
    if (length left_characters == 0) || (length right_characters == 0)
    then record { numerator = 0; denominator = 1 }
    else record {
      numerator = length (filter (includes right_characters) left_characters);
      denominator = length (distinct (left_characters ++ right_characters));
    }

abbrev pub is_latin : ℕ → Bool
is_latin u = (leb 97 u && leb u 122) || is_digit u

-- The matches of `[a-z0-9][a-z0-9_+.-]*`, behind the begun one.
unfoldable pub tokens_from : Text → Text → List Text
tokens_from begun [] = if is_empty begun then [] else begun ∷ []
tokens_from begun (u ∷ us) =
    let goes_on = is_latin u || (not (is_empty begun) && is_one_of (codes "_+.-") u) in
    let rest = tokens_from (if goes_on then begun ++ u ∷ [] else []) us in
    if goes_on || is_empty begun then rest else begun ∷ rest

-- The matches of `\p{Script=Han}{2,}`, behind the begun one.
unfoldable pub han_runs_from : Unicode → List Text → List Text → List Text
han_runs_from w begun [] = if leb 2 (length begun) then joined_points begun ∷ [] else []
han_runs_from w begun (p ∷ ps) =
    let rest = han_runs_from w (if w.is_han p then begun ++ p ∷ [] else []) ps in
    if not (w.is_han p) && leb 2 (length begun) then joined_points begun ∷ rest else rest

-- `run.slice(index, index + size)` for every index that it fits at.
unfoldable pub slices : ℕ → Text → List Text
slices size [] = []
slices size (u ∷ us) =
    let rest = slices size us in
    if leb size (length (u ∷ us)) then take size (u ∷ us) ∷ rest else rest

unfoldable pub slices_of_runs : List Text → List Text
unfolding slices
slices_of_runs [] = []
slices_of_runs (run ∷ runs) = slices 2 run ++ (slices 3 run ++ slices_of_runs runs)

unfoldable pub extract_effective_keywords : Unicode → Text → List Text
unfolding tokens_from han_runs_from slices_of_runs points
extract_effective_keywords w text =
    let normalized = w.lower_case (w.nfkc text) in
    distinct (
      filter (λ k. not (includes keyword_stopwords k))
        (filter (λ token. leb 2 (length token)) (tokens_from [] normalized)
          ++ slices_of_runs (han_runs_from w [] (points normalized))))

unfoldable pub has_effective_keyword_overlap : Unicode → Text → Text → Bool
unfolding extract_effective_keywords
has_effective_keyword_overlap w left right =
    any (includes (extract_effective_keywords w right)) (extract_effective_keywords w left)
