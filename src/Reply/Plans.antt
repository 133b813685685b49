-- ===== src/Reply/Plans.antt =====
-- `buildExplicitReplyLengthPlan` of src/utils/reply-length.ts: the budget for a requested length. A
-- skill's limits are naturals, so `clampInteger` has nothing to round.
pub mod Bounds
use ubot_ai_agent.Base.{
  ℕ, ◌-◌, ◌*◌, min, max, ◌==◌, if◌then◌else◌, Bool, true, false, not, ◌&&◌, Option, none, some,
}
use ubot_ai_agent.Reply.Options.{Skill, Budget}
use ubot_ai_agent.Reply.Lengths.{Kind, target, minimum, maximum, long_form, Intent}

unfoldable pub clamp_integer : Option ℕ → ℕ → ℕ → ℕ → ℕ
clamp_integer none fallback low high = fallback
clamp_integer (some value) fallback low high = max low (min high value)

abbrev pub is_maximum : Kind → Bool
is_maximum maximum = true
is_maximum target = false
is_maximum minimum = false
is_maximum long_form = false

-- ExplicitReplyLengthPlan
pub record Plan : Type 0 where
  pub intent : Intent
  pub budget : Budget
  pub target_chars : Option ℕ

unfoldable pub configured_capacity : Skill → ℕ
unfolding clamp_integer
configured_capacity skill = min (clamp_integer skill.max_total_reply_chars 3000 20 8000) (
    clamp_integer skill.max_reply_chars_per_message 500 20 4000
    * clamp_integer skill.max_reply_messages 8 1 20)

unfoldable pub requested_within_capacity : Skill → Intent → ℕ
unfolding configured_capacity
requested_within_capacity skill intent = elim intent.requested_chars [
  | none ↦ configured_capacity skill
  | some requested ↦ min requested (configured_capacity skill)
]

-- What is left to write; an inherited request counts what was written for it.
unfoldable pub remaining_target : Skill → Intent → ℕ
unfolding requested_within_capacity
remaining_target skill intent =
    if intent.inherited && not (is_maximum intent.kind)
    then requested_within_capacity skill intent - intent.prior_assistant_chars
    else requested_within_capacity skill intent

unfoldable pub budget_of : Skill → Intent → Budget
unfolding remaining_target
budget_of skill intent =
    let max_chars = clamp_integer skill.max_reply_chars_per_message 500 20 4000 in
    let max_messages = clamp_integer skill.max_reply_messages 8 1 20 in
    let max_total_chars =
      if is_maximum intent.kind
      then requested_within_capacity skill intent
      else max 20 (remaining_target skill intent) in
    record {
      max_chars = min max_chars max_total_chars;
      max_total_chars = max_total_chars;
      max_messages = max_messages;
      preferred_max_messages = max_messages;
    }

unfoldable pub build_explicit_reply_length_plan : Skill → Intent → Option Plan
unfolding budget_of
build_explicit_reply_length_plan skill intent =
    let budget = budget_of skill intent in
    if remaining_target skill intent == 0 && not (is_maximum intent.kind)
    then none
    else some (record {
      intent = intent;
      budget = budget;
      target_chars = if is_maximum intent.kind then none else some budget.max_total_chars;
    })
