-- ===== src/Participation/Answers.antt =====
-- Which messages the policy answers.
use ubot_ai_agent.Base.{ltb, if◌then◌else◌, Bool, true, false, not, ◌&&◌, ◌||◌, ◌≡◌, arith}
use ubot_ai_agent.Participation.{Action, ignore, observe, reply, Input, has_content, result, decide}

abbrev pub is_reply : Action → Bool
is_reply reply = true
is_reply _ = false

abbrev pub is_ignore : Action → Bool
is_ignore ignore = true
is_ignore _ = false

-- Actions in which the bot stays silent.
abbrev pub is_passive : Action → Bool
is_passive ignore = true
is_passive observe = true
is_passive _ = false

-- The group takes part and the message has content.
abbrev pub is_open : Input → Bool
is_open i = (i.group_configured && i.group_enabled) && has_content i

-- The message is for the bot, or has a keyword in a group that is not muted.
abbrev pub is_addressed : Input → Bool
is_addressed i = (i.has_at_bot || i.has_reply) || (not i.group_muted && i.keyword_triggered)

abbrev pub is_memory_task : Input → Bool
is_memory_task i = i.is_explicit_memory_request && (i.has_at_bot || i.has_reply)

-- The policy replies exactly to messages with content in a configured and enabled group that are a
-- conversation command, or no command but addressed to the bot and no explicit memory request
-- addressed to it. In a muted group a keyword is no address.
pub decide-is_reply :
    (i : Input)
    → is_reply (decide i).action ≡ (
        is_open i
        && (if i.is_command
            then i.is_conversation_command
            else is_addressed i && not (is_memory_task i)))
unfolding decide result
decide-is_reply i = ground arith

-- The score is positive exactly if the bot does something, and exactly the messages without content
-- and those of a group that takes no part are ignored.
pub decide-score :
    (i : Input)
    → (ltb 0 (decide i).score ≡ not (is_passive (decide i).action))
      × (is_ignore (decide i).action ≡ not (is_open i))
unfolding decide result
decide-score i = ground arith
