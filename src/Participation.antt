-- ===== src/Participation.antt =====
-- `ParticipationPolicy` of src/services/participation-policy.ts: whether a group message is answered.
pub mod Answers
mod Tests
use ubot_ai_agent.Base.{
  ℕ, if◌then◌else◌, Bool, true, false, not, ◌&&◌, ◌||◌, Option, none, some, Text, codes, trim,
  is_empty,
}

-- ParticipationAction; the code never decides on `react`.
pub data Action : Type 0 where
  ignore observe reply react task admin_command : Action

-- ParticipationReason
pub data Reason : Type 0 where
  group_unavailable empty_message administrative_command explicit_memory_request : Reason
  conversation_command direct_mention explicit_reply keyword_trigger : Reason
  muted_observation ambient_observation : Reason

-- ParticipationInput
pub record Input : Type 0 where
  pub text : Text
  pub has_at_bot : Bool
  pub has_reply : Bool
  pub has_images : Bool
  pub group_configured : Bool
  pub group_enabled : Bool
  pub group_muted : Bool
  pub is_command : Bool
  pub is_explicit_memory_request : Bool
  pub is_conversation_command : Bool
  pub keyword_triggered : Bool

-- The signals; that of an explicit memory request is there only if it is true.
pub record Signals : Type 0 where
  pub has_at_bot : Bool
  pub has_reply : Bool
  pub has_images : Bool
  pub is_command : Bool
  pub is_explicit_memory_request : Option Bool
  pub is_conversation_command : Bool
  pub group_muted : Bool
  pub keyword_triggered : Bool

-- ParticipationDecision; the score counts hundredths.
pub record Decision : Type 0 where
  pub action : Action
  pub reason : Reason
  pub score : ℕ
  pub policy_version : Text
  pub signals : Signals

unfoldable pub signals_of : Input → Signals
signals_of i = record {
  has_at_bot = i.has_at_bot;
  has_reply = i.has_reply;
  has_images = i.has_images;
  is_command = i.is_command;
  is_explicit_memory_request = if i.is_explicit_memory_request then some true else none;
  is_conversation_command = i.is_conversation_command;
  group_muted = i.group_muted;
  keyword_triggered = i.keyword_triggered;
}

abbrev pub has_content : Input → Bool
has_content i = not (is_empty (trim i.text)) || i.has_images

unfoldable pub result : Action → Reason → ℕ → Signals → Decision
result action reason score signals = record {
  action = action;
  reason = reason;
  score = score;
  policy_version = codes "v1-conservative";
  signals = signals;
}

unfoldable pub decide : Input → Decision
unfolding signals_of result
decide i =
    let signals = signals_of i in
    if not i.group_configured || not i.group_enabled
    then result ignore group_unavailable 0 signals
    else if not (has_content i)
    then result ignore empty_message 0 signals
    else if i.is_command
    then if i.is_conversation_command
      then result reply conversation_command 100 signals
      else result admin_command administrative_command 100 signals
    else if i.is_explicit_memory_request && (i.has_at_bot || i.has_reply)
    then result task explicit_memory_request 100 signals
    else if i.has_at_bot
    then result reply direct_mention 100 signals
    else if i.has_reply
    then result reply explicit_reply 98 signals
    else if i.group_muted
    then result observe muted_observation 0 signals
    else if i.keyword_triggered
    then result reply keyword_trigger 82 signals
    else result observe ambient_observation 0 signals
