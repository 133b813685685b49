-- ===== src/Reply/Lengths.antt =====
-- Requests for a length, in a message or in the ones before it: src/utils/reply-length.ts.
use mathlib.Core.List.{reverse}
use ubot_ai_agent.Base.{
  ℕ, zero, suc, ◌+◌, ◌==◌, ltb, leb, if◌then◌else◌, Bool, true, false, not, ◌&&◌, ◌||◌, Option,
  none, some, List, [], ◌∷◌, ◌++◌, Text, codes, same, is_space, is_digit, trim, is_empty,
  starts_with, length, take, drop, any, all, coalesce,
}
use ubot_ai_agent.Reply.Pieces.{is_one_of, collapse}
use ubot_ai_agent.Reply.Format.{has_word}
use ubot_ai_agent.Reply.Numerals.{parse_length_number}

-- ReplyLengthIntentKind
pub data Kind : Type 0 where
  target minimum maximum long_form : Kind

-- ReplyLengthIntent
pub record Intent : Type 0 where
  pub kind : Kind
  pub requested_chars : Option ℕ
  pub inherited : Bool
  pub prior_assistant_chars : ℕ
  pub source_text : Text

abbrev pub has_any : List Text → Text → Bool
has_any words text = any (λ word. has_word word text) words

-- `normalizeText`
unfoldable pub normalize_text : Text → Text
unfolding collapse
normalize_text text = trim (collapse is_space 32 text)

-- At most `n` units that pass the test, and what follows them.
unfoldable pub span : ℕ → (ℕ → Bool) → Text → Text × Text
span zero p s = ([], s)
span (suc n) p [] = ([], [])
span (suc n) p (c ∷ s) = let rest = span n p s in if p c then (c ∷ rest.0, rest.1) else ([], c ∷ s)

unfoldable pub skip_spaces : Text → Text
skip_spaces [] = []
skip_spaces (c ∷ s) = if is_space c then skip_spaces s else c ∷ s

unfoldable pub skip_unit : ℕ → Text → Text
skip_unit unit [] = []
skip_unit unit (c ∷ s) = if c == unit then s else c ∷ s

-- What follows 字.
unfoldable pub behind_word : Text → Option Text
behind_word [] = none
behind_word (c ∷ s) = if c == 23383 then some s else none

unfoldable pub amount : ℕ → (ℕ → Bool) → Text → Option (Text × Text)
unfolding span skip_spaces skip_unit behind_word
amount n p s =
    let (value, rest) = span n p s in
    elim (behind_word (skip_unit 20010 (skip_spaces rest))) [
      | none ↦ none
      | some after ↦ if is_empty value then none else some (value, after)
    ]

abbrev pub is_wide_digit : ℕ → Bool
is_wide_digit c = is_digit c || (leb 65296 c && leb c 65305)

-- A match of `NUMERIC_LENGTH_PATTERN` at the start: the number, and what follows the match. A run that
-- goes on behind its longest allowed prefix is followed by no 字, so shorter prefixes do not match.
unfoldable pub length_here : Text → Option (Text × Text)
unfolding amount
length_here s = elim (amount 6 is_wide_digit s) [
  | some found ↦ some found
  | none ↦ amount 12 (is_one_of (codes "零〇一二两三四五六七八九十百千万")) s
]

-- The first match: what is before it (reversed, behind `seen`), its number and what is after it.
unfoldable pub find_length : Text → Text → Option (Text × Text × Text)
unfolding length_here
find_length seen [] = none
find_length seen (c ∷ s) =
    let later = find_length (c ∷ seen) s in
    elim (length_here (c ∷ s)) [ some (value, after) ↦ some (seen, value, after) | none ↦ later ]

-- The kind, by the words near the number.
unfoldable pub kind_of : Text → Kind
kind_of nearby =
    if has_any (codes "最多" ∷ codes "至多" ∷ codes "不超过" ∷ codes "不多于" ∷ codes "以内" ∷ codes "之内" ∷ [])
      nearby
    then maximum
    else if has_any
        (codes "至少"
          ∷ codes "起码"
          ∷ codes "最低"
          ∷ codes "不少于"
          ∷ codes "不低于"
          ∷ codes "写满"
          ∷ codes "写够"
          ∷ [])
        nearby
    then minimum
    else target

abbrev pub long_form_words : List Text
long_form_words =
    codes "长文"
    ∷ codes "长篇"
    ∷ codes "写完整"
    ∷ codes "完整写完"
    ∷ codes "直接写完发出来"
    ∷ codes "展开写"
    ∷ codes "详细写"
    ∷ codes "越详细越好"
    ∷ codes "一次写完"
    ∷ []

unfoldable pub numeric_intent : Text → Option Intent
unfolding find_length kind_of parse_length_number
numeric_intent normalized = elim (find_length [] normalized) [
  | none ↦ none
  | some (seen, value, after) ↦ elim (parse_length_number value) [
    | none ↦ none
    | some n ↦
        if ltb 0 n
        then some (record {
          kind = kind_of (reverse (take 12 seen) ++ take 8 after);
          requested_chars = some n;
          inherited = false;
          prior_assistant_chars = 0;
          source_text = normalized;
        })
        else none
  ]
]

unfoldable pub long_intent : Text → Option Intent
long_intent normalized =
    if has_any long_form_words normalized
    then some (record {
      kind = long_form;
      requested_chars = none;
      inherited = false;
      prior_assistant_chars = 0;
      source_text = normalized;
    })
    else none

unfoldable pub parse_reply_length_intent : Text → Option Intent
unfolding normalize_text numeric_intent long_intent
parse_reply_length_intent text =
    let normalized = normalize_text text in
    elim (numeric_intent normalized) [ some intent ↦ some intent | none ↦ long_intent normalized ]

abbrev pub continuations : List Text
continuations =
    codes "发"
    ∷ codes "继续"
    ∷ codes "接着写"
    ∷ codes "往下写"
    ∷ codes "写完"
    ∷ codes "没写完"
    ∷ codes "还没写完"
    ∷ codes "直接写"
    ∷ codes "直接写完"
    ∷ codes "直接写完发出来"
    ∷ codes "你到底写不写"
    ∷ codes "写完了吗"
    ∷ []

abbrev pub is_trailing : ℕ → Bool
is_trailing c = is_one_of (codes "了啊呀吧呢？?!！。") c || is_space c

-- `CONTINUATION_PATTERN`
unfoldable pub is_continuation_request : Text → Bool
unfolding normalize_text
is_continuation_request text =
    let normalized = normalize_text text in
    any (λ word. starts_with normalized word && all is_trailing (drop (length word) normalized))
      continuations

-- ReplyLengthHistoryTurn
pub record Turn : Type 0 where
  pub from_user : Bool
  pub content : Text
  pub user_id : Option Text

-- The loop that counts what the assistant has said to the user since.
unfoldable pub assistant_chars : Text → Text → List Turn → ℕ
assistant_chars user last_user [] = 0
assistant_chars user last_user (t ∷ ts) =
    let next_user = if t.from_user then coalesce t.user_id [] else last_user in
    let rest = assistant_chars user next_user ts in
    if not t.from_user && same last_user user then length t.content + rest else rest

abbrev pub is_of_user : Text → Turn → Bool
is_of_user user t = t.from_user && elim t.user_id [ none ↦ false | some id ↦ same id user ]

-- The loop from the last turn to the first: the turns still to visit, the latest first, and those
-- behind them in their order.
unfoldable pub find_inherited : Text → List Turn → List Turn → Option Intent
unfolding assistant_chars
find_inherited user [] later = none
find_inherited user (t ∷ earlier) later =
    let on = find_inherited user earlier (t ∷ later) in
    if not (is_of_user user t) then on else elim (parse_reply_length_intent t.content) [
      | some parsed ↦ some (record parsed {
        inherited = true;
        prior_assistant_chars = assistant_chars user user later;
      })
      | none ↦ if is_continuation_request t.content then on else none
    ]

unfoldable pub find_inherited_intent : List Turn → Text → Option Intent
unfolding find_inherited
find_inherited_intent history user = find_inherited user (reverse history) []

-- `parseNumericReplyLengthIntent`
unfoldable pub parse_numeric_intent : Text → Option Intent
parse_numeric_intent text = elim (parse_reply_length_intent text) [
  | none ↦ none
  | some parsed ↦ elim parsed.requested_chars [ none ↦ none | some n ↦ some parsed ]
]

unfoldable pub resolve_reply_length_intent : Text → List Turn → Text → Option Intent
unfolding parse_numeric_intent
resolve_reply_length_intent text history user =
    let own = parse_reply_length_intent text in
    let inherited : Option Intent = elim (find_inherited_intent history user) [
      | some intent ↦ some intent
      | none ↦ own
    ] in
    elim (parse_numeric_intent text) [
      | some intent ↦ some intent
      | none ↦ if is_continuation_request text then inherited else own
    ]
