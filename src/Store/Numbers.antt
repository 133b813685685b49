-- ===== src/Store/Numbers.antt =====
-- The checks of src/shared/sqlite.ts on durations and timestamps, and its delivery ids. Numbers are
-- the native ones, so a value that is negative or no integer does not occur.
mod Laws
mod Tests
use ubot_ai_agent.Base.{
  ℕ, zero, suc, ◌+◌, ◌*◌, ◌/◌, ◌%◌, ◌-◌, ◌==◌, leb, ltb, if◌then◌else◌, Bool, true, false, ◌&&◌,
  ◌||◌, not, Option, none, some, List, [], ◌∷◌, ◌++◌, Text, codes, trim, starts_with, is_digit,
  is_empty, all, drop, Result, ok, throws, throw_if, ◌>>=◌, ◌>>◌,
}

-- What the store's operations throw.
pub data Fault : Type 0 where
  bad_duration bad_timestamp deadline_before_due unsafe_sum : Fault
  empty_group_id empty_message_id policy_required : Fault
  missing_outbox_row other_message_id turn_required other_route other_delivery_id : Fault
  other_context : Fault
  recall_not_stored recall_conflict bad_status : Fault

-- Number.MAX_SAFE_INTEGER
abbrev pub max_safe_integer : ℕ
max_safe_integer = 9007199254740991

unfoldable pub normalize_duration_ms : ℕ → Result Fault ℕ
normalize_duration_ms value =
    if not (leb value max_safe_integer) || ltb value 1 then throws bad_duration else ok value

unfoldable pub normalize_non_negative_duration_ms : ℕ → Result Fault ℕ
normalize_non_negative_duration_ms value =
    if not (leb value max_safe_integer) then throws bad_duration else ok value

unfoldable pub normalize_epoch_ms : ℕ → Result Fault ℕ
normalize_epoch_ms value =
    if not (leb value max_safe_integer) then throws bad_timestamp else ok value

unfoldable pub add_epoch_ms : ℕ → ℕ → Result Fault ℕ
add_epoch_ms base offset =
    if not (leb (base + offset) max_safe_integer) then throws unsafe_sum else ok (base + offset)

-- OutboxAutoRecallPolicy
pub record Policy : Type 0 where
  pub after_ms : ℕ
  pub deadline_ms : ℕ

unfoldable pub normalize_policy : Policy → Result Fault Policy
unfolding normalize_duration_ms
normalize_policy policy = do
  after_ms ← normalize_duration_ms policy.after_ms
  deadline_ms ← normalize_duration_ms policy.deadline_ms
  throw_if (ltb deadline_ms after_ms) deadline_before_due
  ok (record { after_ms = after_ms; deadline_ms = deadline_ms })

unfoldable pub normalize_outbox_auto_recall_policy : Option Policy → Result Fault (Option Policy)
unfolding normalize_policy
normalize_outbox_auto_recall_policy none = ok none
normalize_outbox_auto_recall_policy (some policy) = do p ← normalize_policy policy; ok (some p)

-- The decimal digits of a number, which a template literal prints. One round writes one digit.
unfoldable pub digits_from : ℕ → ℕ → Text
digits_from zero n = []
digits_from (suc fuel) n =
    let rest = digits_from fuel (n / 10) in
    if ltb n 10 then (48 + n) ∷ [] else rest ++ (48 + n % 10) ∷ []

unfoldable pub decimal : ℕ → Text
unfolding digits_from
decimal n = digits_from (suc n) n

-- `Number(text)` of a text of digits.
unfoldable pub value_from : ℕ → Text → ℕ
value_from acc [] = acc
value_from acc (c ∷ s) = value_from (10 * acc + (c - 48)) s

-- `outbox:${id}`
unfoldable pub delivery_id_of : ℕ → Text
unfolding decimal
delivery_id_of id = codes "outbox:" ++ decimal id

-- /^outbox:(\d+)$/, and the number of its group.
unfoldable pub outbox_number : Text → Option ℕ
unfolding value_from
outbox_number t =
    let rest = drop 7 t in
    if starts_with t (codes "outbox:") && (not (is_empty rest) && all is_digit rest)
    then some (value_from 0 rest)
    else none

safe_positive : ℕ → Option ℕ
safe_positive id = if leb id max_safe_integer && ltb 0 id then some id else none

unfoldable pub parse_outbox_delivery_id : Text → Option ℕ
unfolding outbox_number safe_positive
parse_outbox_delivery_id value = elim (outbox_number (trim value)) [
  | none ↦ none
  | some id ↦ safe_positive id
]
