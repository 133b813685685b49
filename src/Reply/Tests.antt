-- ===== src/Reply/Tests.antt =====
-- Runs of the formatting of replies.
use ubot_ai_agent.Base.{
  ℕ, ◌≡◌, refl, ◌<◌, ◌==◌, Bool, true, false, Option, none, some, List, [], ◌∷◌, ◌++◌, Text, codes,
  map, length, arith,
}
use ubot_ai_agent.Base.Trimming.{visible}
use ubot_ai_agent.Reply.Options.{Skill}
use ubot_ai_agent.Reply.Pieces.{chunk_long_sentence}
use ubot_ai_agent.Reply.Pieces.Content.{joined, chunk_long_sentence_keeps}
use ubot_ai_agent.Reply.Cleanup.{sanitize_reply}
use ubot_ai_agent.Reply.Format.{format_reply_messages}
use ubot_ai_agent.Reply.Format.Bounds.{IsWithin, format_reply_messages-IsWithin}
use ubot_ai_agent.Reply.Numerals.{parse_chinese_integer}
use ubot_ai_agent.Reply.Numerals.Spelling.{Style, spell}
use ubot_ai_agent.Reply.Numerals.RoundTrip.{parse_chinese_integer-spell}
use ubot_ai_agent.Reply.Lengths.{
  Intent, Kind, Turn, maximum, minimum, target, long_form, parse_reply_length_intent,
  resolve_reply_length_intent,
}
use ubot_ai_agent.Reply.Plans.{Plan, build_explicit_reply_length_plan}
use ubot_ai_agent.Reply.Plans.Bounds.{IsKept, plan-IsKept}

abbrev plain : Skill
plain = record {
  max_reply_chars_per_message = none;
  max_total_reply_chars = none;
  max_reply_messages = none;
  preferred_max_reply_messages = none;
  strip_asterisks = none;
  single_sentence_per_message = none;
  strip_terminal_punctuation = none;
  respect_line_breaks = none;
  allow_burst_on_high_emotion = none;
  high_emotion_keywords = none;
}

cleaned : sanitize_reply (codes "**好的** ，\r\n - 明天 见 。") true true ≡ codes "好的，\n明天 见。"
unfolding sanitize_reply ubot_ai_agent.Base.trim
cleaned = refl

formatted :
    format_reply_messages plain (codes "你好。吃了吗？\n\n明天见！再见。") none
    ≡ codes "你好 吃了吗" ∷ codes "明天见 再见" ∷ []
unfolding format_reply_messages ubot_ai_agent.Base.trim
    ubot_ai_agent.Reply.Pieces.split_into_sentence_units ubot_ai_agent.Reply.Pieces.finalize_message
formatted = refl

chunked : chunk_long_sentence (codes "one two, three") 8 ≡ codes "one two," ∷ codes "three" ∷ []
unfolding chunk_long_sentence ubot_ai_agent.Base.trim
chunked = refl

asked :
    parse_reply_length_intent (codes "最多 三百 个字吧")
    ≡ some (record {
      kind = maximum;
      requested_chars = some 300;
      inherited = false;
      prior_assistant_chars = 0;
      source_text = codes "最多 三百 个字吧";
    })
unfolding parse_reply_length_intent ubot_ai_agent.Base.trim ubot_ai_agent.Reply.Format.has_word
    ubot_ai_agent.Base.starts_with
asked = refl

-- A text without a blank to break at is cut where the limit is.
chunk_long_sentence_keeps_example :
    visible (joined (chunk_long_sentence (codes "one two, three four") 5))
    ≡ visible (codes "one two, three four")
chunk_long_sentence_keeps_example =
    chunk_long_sentence_keeps (codes "one two, three four") 5 (omega arith)

format_reply_messages-IsWithin_example :
    IsWithin 70 150 3 (format_reply_messages plain (codes "你好。吃了吗？\n\n明天见！再见。") none)
format_reply_messages-IsWithin_example =
    format_reply_messages-IsWithin plain (codes "你好。吃了吗？\n\n明天见！再见。") none (omega arith)

-- One 零 for the empty places between two digits, and 十 without a one.
abbrev tens_empty : Style
tens_empty = record { writes_zero = λ c. c == 21313; omits_one = λ c. c == 21313 }

abbrev hundreds_empty : Style
hundreds_empty = record { writes_zero = λ c. c == 30334; omits_one = λ c. c == 21313 }

spelled : spell tens_empty hundreds_empty 12034015 ≡ codes "一千二百零三万四千零十五"
unfolding spell
spelled = refl

parse_chinese_integer-spell_example :
    parse_chinese_integer (spell tens_empty hundreds_empty 12034015) ≡ some 12034015
parse_chinese_integer-spell_example =
    parse_chinese_integer-spell tens_empty hundreds_empty 12034015 (omega arith) (omega arith)

abbrev essay : Intent
essay = record {
  kind = maximum;
  requested_chars = some 10;
  inherited = false;
  prior_assistant_chars = 0;
  source_text = codes "最多10字";
}

abbrev essay_plan : Plan
essay_plan = record {
  intent = essay;
  budget = record {
    max_chars = 10;
    max_total_chars = 10;
    max_messages = 8;
    preferred_max_messages = 8;
  };
  target_chars = none;
}

planned : build_explicit_reply_length_plan plain essay ≡ some essay_plan
unfolding build_explicit_reply_length_plan
planned = refl

plan-IsKept_example :
    IsKept plain essay
      (format_reply_messages plain (codes "一二三四五六七八九十一二三四") (some essay_plan.budget))
plan-IsKept_example = plan-IsKept plain essay essay_plan (codes "一二三四五六七八九十一二三四") planned

-- A plan for at most ten units is sent with fourteen, as the budget is raised to twenty.
raised :
    format_reply_messages plain (codes "一二三四五六七八九十一二三四") (some essay_plan.budget)
    ≡ codes "一二三四五六七八九十一二三四" ∷ []
unfolding format_reply_messages ubot_ai_agent.Base.trim
    ubot_ai_agent.Reply.Pieces.split_into_sentence_units ubot_ai_agent.Reply.Pieces.finalize_message
raised = refl

-- 继续 inherits the request before it, less what was written for it.
continued :
    resolve_reply_length_intent
      (codes "继续")
      (record { from_user = true; content = codes "写500字"; user_id = some (codes "7") }
        ∷ record { from_user = false; content = codes "abc"; user_id = none }
        ∷ [])
      (codes "7")
    ≡ some (record {
      kind = target;
      requested_chars = some 500;
      inherited = true;
      prior_assistant_chars = 3;
      source_text = codes "写500字";
    })
unfolding resolve_reply_length_intent parse_reply_length_intent ubot_ai_agent.Base.trim
    ubot_ai_agent.Reply.Format.has_word ubot_ai_agent.Base.starts_with
    ubot_ai_agent.Reply.Lengths.is_continuation_request
    ubot_ai_agent.Reply.Lengths.find_inherited_intent
continued = refl
