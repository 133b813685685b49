-- ===== src/Reply/Options.antt =====
-- `getReplyBehaviorOptions` of src/persona/common-chat-behavior.ts, and `applyReplyFormatBudget` of
-- src/utils/reply-format.ts. A skill's limits are naturals, on which `Math.floor` does nothing.
use ubot_ai_agent.Base.{
  ℕ, Bool, true, false, Option, none, some, List, [], Text, min, max, coalesce,
}

-- The part of SkillDefinition that is about the form of replies.
pub record Skill : Type 0 where
  pub max_reply_chars_per_message : Option ℕ
  pub max_total_reply_chars : Option ℕ
  pub max_reply_messages : Option ℕ
  pub preferred_max_reply_messages : Option ℕ
  pub strip_asterisks : Option Bool
  pub single_sentence_per_message : Option Bool
  pub strip_terminal_punctuation : Option Bool
  pub respect_line_breaks : Option Bool
  pub allow_burst_on_high_emotion : Option Bool
  pub high_emotion_keywords : Option (List Text)

-- ReplyBehaviorOptions
pub record Behavior : Type 0 where
  pub max_chars : ℕ
  pub max_total_chars : ℕ
  pub max_messages : ℕ
  pub preferred_max_messages : ℕ
  pub strip_asterisks : Bool
  pub single_sentence_per_message : Bool
  pub strip_terminal_punctuation : Bool
  pub respect_line_breaks : Bool
  pub allow_burst_on_high_emotion : Bool
  pub high_emotion_keywords : List Text

unfoldable pub get_reply_behavior_options : Skill → Behavior
get_reply_behavior_options skill =
    let max_messages = min (coalesce skill.max_reply_messages 3) 4 in
    record {
      max_chars = min (coalesce skill.max_reply_chars_per_message 70) 600;
      max_total_chars = min (coalesce skill.max_total_reply_chars 150) 1200;
      max_messages = max_messages;
      preferred_max_messages = min (coalesce skill.preferred_max_reply_messages 2) max_messages;
      strip_asterisks = coalesce skill.strip_asterisks true;
      single_sentence_per_message = coalesce skill.single_sentence_per_message false;
      strip_terminal_punctuation = coalesce skill.strip_terminal_punctuation true;
      respect_line_breaks = coalesce skill.respect_line_breaks true;
      allow_burst_on_high_emotion = coalesce skill.allow_burst_on_high_emotion false;
      high_emotion_keywords = coalesce skill.high_emotion_keywords [];
    }

-- ReplyFormatBudget
pub record Budget : Type 0 where
  pub max_chars : ℕ
  pub max_total_chars : ℕ
  pub max_messages : ℕ
  pub preferred_max_messages : ℕ

unfoldable pub apply_reply_format_budget : Behavior → Option Budget → Behavior
apply_reply_format_budget behavior none = behavior
apply_reply_format_budget behavior (some budget) =
    let max_messages = max 1 (min 20 budget.max_messages) in
    record behavior {
      max_chars = max 20 (min 4000 budget.max_chars);
      max_total_chars = max 20 (min 8000 budget.max_total_chars);
      max_messages = max_messages;
      preferred_max_messages = max 1 (min max_messages budget.preferred_max_messages);
    }
