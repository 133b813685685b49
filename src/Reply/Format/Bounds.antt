-- ===== src/Reply/Format/Bounds.antt =====
-- The messages of a reply: how many there are and how long they are.
pub mod Groups
use ubot_ai_agent.Base.{
  ℕ, max, coalesce, ◌+◌, ◌-◌, ◌≤◌, ◌<◌, min, ◌≡◌, refl, ◌==◌, ltb, leb, if◌then◌else◌, Bool, true,
  false, not, List, [], ◌∷◌, ◌++◌, map, inl, inr, Option, none, some, Text, is_empty, length,
  length-take-le, length-filter-le, take, filter, All, All-map, All-filter, All-append, All-take,
  arith, Bool-cases,
}
use ubot_ai_agent.Reply.Options.{
  Skill, Behavior, Budget, get_reply_behavior_options, apply_reply_format_budget,
}
use ubot_ai_agent.Reply.Cleanup.{sanitize_reply}
use ubot_ai_agent.Reply.Pieces.{filled, finalize_message, chunk_long_sentence}
use ubot_ai_agent.Reply.Pieces.Bounds.{Fits, length-finalize_message-le, chunk_long_sentence-Fits}
use ubot_ai_agent.Reply.Format.{
  chunk_all, finish_all, format_single_sentence_messages, group_sentences_into_messages, first_text,
  shorten_to_complete_thought, fit_messages, message_limit, raw_messages,
  should_allow_burst_messages, format_sanitized, format_reply_messages,
}
use ubot_ai_agent.Reply.Format.Bounds.Groups.{
  finalized-Fits, filled-Fits, AreRaw, groups-AreRaw, single-AreRaw,
}

first_text-Fits : (n : ℕ) (ss : List Text) → All (Fits n) ss → length (first_text ss) ≤ n
first_text-Fits n [] h = omega arith
first_text-Fits n (s ∷ ss) h = h.0

shorten_short :
    (text : Text) (limit max_chars : ℕ) (strip : Bool)
    → 0 < max_chars
    → length text ≤ max_chars
    → length (shorten_to_complete_thought text limit max_chars strip) ≤ min limit max_chars
unfolding shorten_to_complete_thought
shorten_short text limit max_chars strip pos h = elim (Bool-cases (limit == 0)) [
  | inl none_left ↦ rw none_left (omega arith)
  | inr some_left ↦
      rw some_left (elim (Bool-cases (leb (length (finalize_message strip text)) limit)) [
        | inl whole ↦ rw whole (ground (arith, length-finalize_message-le strip text))
        | inr long ↦ rw long (
            first_text-Fits (min limit max_chars) _ (
              filled-Fits (min limit max_chars) _ (
                finalized-Fits (min limit max_chars) strip _ (
                  chunk_long_sentence-Fits (finalize_message strip text) (min limit max_chars)
                    (ground arith)))))
      ])
]

-- A message that is sent.
abbrev pub IsMessage : ℕ → Text → Type 0
IsMessage max_chars m = (0 < length m) × (length m ≤ max_chars)

abbrev pub total : List Text → ℕ
total [] = 0
total (m ∷ ms) = length m + total ms

filled_one :
    (n : ℕ) (s : Text)
    → length s ≤ n
    → All (IsMessage n) (filled (s ∷ []))
      × (length (filled (s ∷ [])) ≤ 1)
      × (total (filled (s ∷ [])) ≤ length s)
filled_one n [] h = (tt, omega arith, omega arith)
filled_one n (c ∷ s) h = (((omega arith, h), tt), omega arith, omega arith)

not_empty : (s : Text) → is_empty s ≡ false → 0 < length s
not_empty [] h = cc
not_empty (c ∷ s) h = omega arith

module _ (max_total max_chars : ℕ) (strip : Bool) (pos : 0 < max_chars) where
  -- What the messages that `fitMessagesWithinBudget` returns behind `used` units satisfy.
  record AreFit (used size : ℕ) (out : List Text) : Type 0 where
    each : All (IsMessage max_chars) out
    counted : length out ≤ size
    summed : used + total out ≤ max_total

  fit_messages-Fits :
      (used : ℕ) (messages : List Text)
      → used ≤ max_total
      → All (Fits max_chars) messages
      → AreFit used (length messages) (fit_messages max_total max_chars strip used messages)
  unfolding fit_messages
  fit_messages-Fits used [] h a = record { each = tt; counted = omega arith; summed = omega arith }
  fit_messages-Fits used (m ∷ ms) h a =
      let clean = finalize_message strip m in
      let short : length clean ≤ max_chars =
        omega (arith, length-finalize_message-le strip m, a.0) in
      elim (Bool-cases (is_empty clean)) [
        | inl blank ↦
            let rest = fit_messages-Fits used ms h a.1 in
            rw blank (record { each = rest.each; counted = ground arith; summed = rest.summed })
        | inr full ↦ rw full (elim (Bool-cases (leb (used + length clean) max_total)) [
          | inl room ↦
              let rest = fit_messages-Fits (used + length clean) ms (ground arith) a.1 in
              rw room (record {
                each = ((not_empty clean full, short), rest.each);
                counted = omega (arith, rest.counted);
                summed = omega (arith, rest.summed);
              })
          | inr full_up ↦
              let limit = max_total - used in
              let size = shorten_short clean limit max_chars strip pos short in
              let one =
                filled_one max_chars (shorten_to_complete_thought clean limit max_chars strip)
                  (omega (arith, size)) in
              rw full_up (record {
                each = one.0;
                counted = omega (arith, one.1);
                summed = omega (arith, one.2, size);
              })
        ])
      ]

-- What the limits promise, for the length of a message, of all of them, and for their number.
pub record IsWithin (max_chars max_total_chars max_messages : ℕ) (out : List Text) : Type 0 where
  pub each : All (IsMessage max_chars) out
  pub counted : length out ≤ max_messages
  pub summed : total out ≤ max_total_chars

raw_messages-AreRaw :
    (b : Behavior) (max_messages : ℕ) (text : Text)
    → 0 < b.max_chars
    → AreRaw b.max_chars max_messages (raw_messages b max_messages text)
unfolding raw_messages
raw_messages-AreRaw b max_messages text pos =
    let strip = b.strip_terminal_punctuation in
    elim (Bool-cases b.single_sentence_per_message) [
      | inl e ↦ rw e (single-AreRaw b.max_chars max_messages strip pos text b.respect_line_breaks)
      | inr e ↦ rw e (groups-AreRaw b.max_chars max_messages strip pos text b.respect_line_breaks)
    ]

message_limit-le :
    (b : Behavior) (text : Text)
    → b.preferred_max_messages ≤ b.max_messages
    → message_limit b text ≤ b.max_messages
unfolding message_limit
message_limit-le b text h = elim (Bool-cases (should_allow_burst_messages text b)) [
  | inl e ↦ rw e (omega arith)
  | inr e ↦ rw e h
]

format_sanitized-IsWithin :
    (b : Behavior) (text : Text)
    → 0 < b.max_chars
    → b.preferred_max_messages ≤ b.max_messages
    → IsWithin b.max_chars b.max_total_chars b.max_messages (format_sanitized b text)
unfolding format_sanitized
format_sanitized-IsWithin b text pos preferred = elim (Bool-cases (is_empty text)) [
  | inl e ↦ rw e (record { each = tt; counted = omega arith; summed = omega arith })
  | inr e ↦
      let raw = raw_messages-AreRaw b (message_limit b text) text pos in
      let fit =
        fit_messages-Fits b.max_total_chars b.max_chars b.strip_terminal_punctuation pos 0 _
          (omega arith) raw.0 in
      rw e (record {
        each = fit.each;
        counted = omega (arith, fit.counted, raw.1, message_limit-le b text preferred);
        summed = omega (arith, fit.summed);
      })
]

-- The limits: those of the skill, or those of a budget, put into their ranges.
abbrev pub max_chars_of : Skill → Option Budget → ℕ
max_chars_of skill none = min (coalesce skill.max_reply_chars_per_message 70) 600
max_chars_of skill (some budget) = max 20 (min 4000 budget.max_chars)

abbrev pub max_total_chars_of : Skill → Option Budget → ℕ
max_total_chars_of skill none = min (coalesce skill.max_total_reply_chars 150) 1200
max_total_chars_of skill (some budget) = max 20 (min 8000 budget.max_total_chars)

abbrev pub max_messages_of : Skill → Option Budget → ℕ
max_messages_of skill none = min (coalesce skill.max_reply_messages 3) 4
max_messages_of skill (some budget) = max 1 (min 20 budget.max_messages)

-- With limits that allow a message a unit at least, a reply is sent in no more messages than the
-- limits allow, none of them empty or longer than a message may be, and not longer in all than the
-- reply may be, where the limits are the skill's, or those of a budget put into its range.
pub format_reply_messages-IsWithin :
    (skill : Skill) (reply : Text) (budget : Option Budget)
    → 0 < max_chars_of skill budget
    → IsWithin
        (max_chars_of skill budget)
        (max_total_chars_of skill budget)
        (max_messages_of skill budget)
        (format_reply_messages skill reply budget)
unfolding format_reply_messages apply_reply_format_budget get_reply_behavior_options
format_reply_messages-IsWithin skill reply none pos =
    let b = apply_reply_format_budget (get_reply_behavior_options skill) none in
    format_sanitized-IsWithin b (sanitize_reply reply b.strip_asterisks b.respect_line_breaks) pos
      (omega arith)
format_reply_messages-IsWithin skill reply (some budget) pos =
    let b = apply_reply_format_budget (get_reply_behavior_options skill) (some budget) in
    format_sanitized-IsWithin b (sanitize_reply reply b.strip_asterisks b.respect_line_breaks) pos
      (omega arith)
