-- ===== src/Reply/Plans/Bounds.antt =====
-- What a plan for a length means for the messages that are sent.
use ubot_ai_agent.Base.{
  ℕ, ◌≤◌, ◌-◌, ◌*◌, min, max, ◌≡◌, refl, ap, subst, true, false, Option, none, some, List, Text,
  length, All, All-map, arith,
}
use ubot_ai_agent.Reply.Options.{Skill, Budget, apply_reply_format_budget}
use ubot_ai_agent.Reply.Format.{format_reply_messages}
use ubot_ai_agent.Reply.Format.Bounds.{IsMessage, total, format_reply_messages-IsWithin}
use ubot_ai_agent.Reply.Plans.{
  Plan, is_maximum, clamp_integer, configured_capacity, requested_within_capacity, remaining_target,
  budget_of, build_explicit_reply_length_plan,
}
use ubot_ai_agent.Reply.Lengths.{Kind, target, minimum, maximum, long_form, Intent}

-- A limit of the skill, which is held between two bounds, or its default.
abbrev pub limit_of : Option ℕ → ℕ → ℕ → ℕ → ℕ
limit_of none default low high = default
limit_of (some value) default low high = max low (min value high)

clamp_limit :
    (value : Option ℕ) (d low high : ℕ) → clamp_integer value d low high ≡ limit_of value d low high
unfolding clamp_integer
clamp_limit none d low high = refl
clamp_limit (some value) d low high = omega arith

limit_bounds :
    (value : Option ℕ) (default low high : ℕ)
    → low ≤ default
    → default ≤ high
    → (low ≤ limit_of value default low high) × (limit_of value default low high ≤ high)
limit_bounds none default low high h k = (h, k)
limit_bounds (some value) default low high h k = omega (arith, h, k)

abbrev pub chars_of : Skill → ℕ
chars_of skill = limit_of skill.max_reply_chars_per_message 500 20 4000

abbrev pub count_of : Skill → ℕ
count_of skill = limit_of skill.max_reply_messages 8 1 20

-- What the skill allows in all.
abbrev pub capacity_of : Skill → ℕ
capacity_of skill =
    min (limit_of skill.max_total_reply_chars 3000 20 8000) (chars_of skill * count_of skill)

-- What the request asks for, as far as the skill allows it.
abbrev pub asked_of : Skill → Intent → ℕ
asked_of skill intent = elim intent.requested_chars [
  | none ↦ capacity_of skill
  | some requested ↦ min requested (capacity_of skill)
]

configured_capacity-capacity_of : (skill : Skill) → configured_capacity skill ≡ capacity_of skill
unfolding configured_capacity
configured_capacity-capacity_of skill =
    rw
      (
        clamp_limit skill.max_total_reply_chars 3000 20 8000,
        clamp_limit skill.max_reply_chars_per_message 500 20 4000,
        clamp_limit skill.max_reply_messages 8 1 20,
      )
      refl

requested-asked_of :
    (skill : Skill) (intent : Intent)
    → requested_within_capacity skill intent ≡ asked_of skill intent
unfolding requested_within_capacity
requested-asked_of skill intent =
    ap (λ c. elim intent.requested_chars [ none ↦ c | some requested ↦ min requested c ])
      (configured_capacity-capacity_of skill)

remaining-maximum :
    (skill : Skill) (intent : Intent)
    → is_maximum intent.kind ≡ true
    → remaining_target skill intent ≡ requested_within_capacity skill intent
unfolding remaining_target
remaining-maximum skill intent h = ground arith

not_maximum : (kind : Kind) → (kind ≡ maximum → ⊥) → is_maximum kind ≡ false
not_maximum maximum h = absurd (h refl)
not_maximum target h = refl
not_maximum minimum h = refl
not_maximum long_form h = refl

remaining-le :
    (skill : Skill) (intent : Intent) → remaining_target skill intent ≤ asked_of skill intent
unfolding remaining_target
remaining-le skill intent = ground (arith, requested-asked_of skill intent)

remaining-inherited :
    (skill : Skill) (intent : Intent)
    → intent.inherited ≡ true
    → is_maximum intent.kind ≡ false
    → remaining_target skill intent ≡ asked_of skill intent - intent.prior_assistant_chars
unfolding remaining_target
remaining-inherited skill intent e f = rw (e, f, requested-asked_of skill intent) refl

-- The budget of a plan, within the skill's limits and what is left to write.
record IsPlanned (skill : Skill) (intent : Intent) (b : Budget) : Type 0 where
  chars : b.max_chars ≤ chars_of skill
  counted : b.max_messages ≤ count_of skill
  summed : b.max_total_chars ≤ max 20 (remaining_target skill intent)

budget_of-IsPlanned :
    (skill : Skill) (intent : Intent) → IsPlanned skill intent (budget_of skill intent)
unfolding budget_of
budget_of-IsPlanned skill intent = record {
  chars = omega (arith, clamp_limit skill.max_reply_chars_per_message 500 20 4000);
  counted = omega (arith, clamp_limit skill.max_reply_messages 8 1 20);
  summed = ground (arith, remaining-maximum skill intent);
}

plan-budget :
    (skill : Skill) (intent : Intent) (p : Plan)
    → build_explicit_reply_length_plan skill intent ≡ some p
    → budget_of skill intent ≡ p.budget
unfolding build_explicit_reply_length_plan
plan-budget skill intent p e = ground arith

-- What a plan promises of the messages.
pub record IsKept (skill : Skill) (intent : Intent) (out : List Text) : Type 0 where
  pub each : All (IsMessage (chars_of skill)) out
  pub counted : length out ≤ count_of skill
  pub summed : total out ≤ max 20 (asked_of skill intent)
  pub rest :
      intent.inherited ≡ true
      → (intent.kind ≡ maximum → ⊥)
      → total out ≤ max 20 (asked_of skill intent - intent.prior_assistant_chars)

budget-IsKept :
    (skill : Skill) (intent : Intent) (reply : Text) (b : Budget)
    → IsPlanned skill intent b
    → IsKept skill intent (format_reply_messages skill reply (some b))
unfolding apply_reply_format_budget
budget-IsKept skill intent reply b h =
    let sent = format_reply_messages-IsWithin skill reply (some b) (omega arith) in
    let chars =
      limit_bounds skill.max_reply_chars_per_message 500 20 4000 (omega arith) (omega arith) in
    let counts = limit_bounds skill.max_reply_messages 8 1 20 (omega arith) (omega arith) in
    record {
      each =
          All-map (IsMessage _) (IsMessage (chars_of skill))
            (λ m k. (k.0, omega (arith, k.1, h.chars, chars))) _ sent.each;
      counted = omega (arith, sent.counted, h.counted, counts);
      summed = omega (arith, sent.summed, h.summed, remaining-le skill intent);
      rest = λ inherited more.
          let left = remaining-inherited skill intent inherited (not_maximum intent.kind more) in
          omega (arith, sent.summed, h.summed, left);
    }

-- A reply formatted with the budget of a plan keeps to the skill's limits for the length of a message
-- and the number of messages, and in all to what the request asks for within the skill's capacity, less,
-- where it is inherited and not a maximum, what was written for it already; or to twenty units where
-- that is less.
pub plan-IsKept :
    (skill : Skill) (intent : Intent) (p : Plan) (reply : Text)
    → build_explicit_reply_length_plan skill intent ≡ some p
    → IsKept skill intent (format_reply_messages skill reply (some p.budget))
plan-IsKept skill intent p reply e = budget-IsKept skill intent reply p.budget (
    subst (IsPlanned skill intent) (plan-budget skill intent p e)
      (budget_of-IsPlanned skill intent))
