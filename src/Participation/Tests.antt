-- ===== src/Participation/Tests.antt =====
-- A keyword in a muted group.
use ubot_ai_agent.Base.{◌≡◌, if◌then◌else◌, true, false, not, ◌&&◌, codes}
use ubot_ai_agent.Participation.{Input, decide}
use ubot_ai_agent.Participation.Answers.{
  is_reply, is_open, is_addressed, is_memory_task, decide-is_reply,
}

abbrev whisper : Input
whisper = record {
  text = codes "hi";
  has_at_bot = false;
  has_reply = false;
  has_images = false;
  group_configured = true;
  group_enabled = true;
  group_muted = true;
  is_command = false;
  is_explicit_memory_request = false;
  is_conversation_command = false;
  keyword_triggered = true;
}

decide-is_reply_example : is_reply (decide whisper).action ≡ (
    is_open whisper
    && (if false then false else is_addressed whisper && not (is_memory_task whisper)))
decide-is_reply_example = decide-is_reply whisper
