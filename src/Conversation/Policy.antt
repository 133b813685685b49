-- ===== src/Conversation/Policy.antt =====
-- What decides where a message goes: the parts of src/services/conversation-context-router.ts that
-- look at one message, its anchor and the turn before it.
use mathlib.Core.List.{reverse}
use ubot_ai_agent.Base.{
  ℕ, ◌+◌, ◌*◌, ltb, leb, if◌then◌else◌, Bool, false, not, ◌&&◌, Option, none, some, List, Text,
  same, find, Result,
}
use ubot_ai_agent.Store.Delivery.{ContextRow}
use ubot_ai_agent.Conversation.Tables.{
  ContextTurn, Reason, explicit_reply, explicit_reply_fork, explicit_reply_miss,
  same_user_follow_up, same_user_similar, new_topic, fail_closed, Conversations, Refusal,
  ActiveRoute, get_message_context,
}
use ubot_ai_agent.Conversation.Places.{SaveInput, FreshIds, ConversationRoute}
use ubot_ai_agent.Conversation.Saving.{save_message_route}
use ubot_ai_agent.Conversation.History.{is_user}
use ubot_ai_agent.Conversation.Words.{
  Unicode, Fraction, is_at_least, normalize_message, is_direct_follow_up, character_jaccard,
  extract_effective_keywords, has_effective_keyword_overlap,
}

-- ConversationContextRouterOptions
pub record RouterOptions : Type 0 where
  pub auto_continue_window_ms : Option ℕ
  pub explicit_reply_window_ms : Option ℕ
  pub similarity_threshold : Option Fraction

-- ConversationRouteInput
pub record RouteInput : Type 0 where
  pub source_row_id : ℕ
  pub group_id : Text
  pub user_id : Text
  pub source_message_id : Text
  pub reply_to_message_id : Option Text
  pub text : Text

abbrev pub positive_duration : Option ℕ → ℕ → ℕ
positive_duration none fallback = fallback
positive_duration (some value) fallback = if ltb 0 value then value else fallback

abbrev pub normalize_threshold : Option Fraction → Fraction → Fraction
normalize_threshold none fallback = fallback
normalize_threshold (some value) fallback =
    if leb value.numerator value.denominator then value else fallback

abbrev pub auto_continue_window : RouterOptions → ℕ
auto_continue_window o = positive_duration o.auto_continue_window_ms (10 * 60 * 1000)

abbrev pub explicit_reply_window : RouterOptions → ℕ
explicit_reply_window o = positive_duration o.explicit_reply_window_ms (60 * 60 * 1000)

abbrev pub similarity_threshold_of : RouterOptions → Fraction
similarity_threshold_of o =
    normalize_threshold o.similarity_threshold (record { numerator = 1; denominator = 5 })

-- The last argument of `save`.
pub record SaveContext : Type 0 where
  pub reply_to_message_id : Option Text
  pub topic_id : Option Text
  pub branch_id : Option Text
  pub parent_turn_id : Option ℕ

abbrev pub no_context : SaveContext
no_context = record {
  reply_to_message_id = none;
  topic_id = none;
  branch_id = none;
  parent_turn_id = none;
}

unfoldable pub save_input : Unicode → RouteInput → ℕ → Reason → SaveContext → SaveInput
unfolding normalize_message extract_effective_keywords
save_input w input now reason context = record {
  source_row_id = input.source_row_id;
  group_id = input.group_id;
  user_id = input.user_id;
  source_message_id = input.source_message_id;
  reply_to_message_id = context.reply_to_message_id;
  route_reason = reason;
  content = input.text;
  created_at = now;
  topic_id = context.topic_id;
  branch_id = context.branch_id;
  parent_turn_id = context.parent_turn_id;
  title = some (normalize_message input.text);
  keywords = extract_effective_keywords w input.text;
}

unfoldable pub save :
    Unicode
    → FreshIds
    → RouteInput
    → ℕ
    → Reason
    → SaveContext
    → Conversations
    → Result Refusal (ConversationRoute × Conversations)
unfolding save_input save_message_route
save w fresh input now reason context s =
    save_message_route fresh (save_input w input now reason context) s

-- `anchorState`
pub data AnchorState : Type 0 where
  missed invalid future stale : AnchorState
  hit : ℕ → AnchorState

unfoldable pub anchor_state : RouterOptions → ℕ → Option ContextRow → AnchorState
anchor_state o now none = missed
anchor_state o now (some anchor) = elim anchor.turn_id [
  | none ↦ invalid
  | some turn ↦
      if ltb now anchor.created_at
      then future
      else if ltb (anchor.created_at + explicit_reply_window o) now
      then stale
      else hit turn
]

abbrev pub anchored : Text → Option ContextRow → AnchorState → SaveContext
anchored quoted none found = record no_context { reply_to_message_id = some quoted }
anchored quoted (some anchor) missed = record no_context { reply_to_message_id = some quoted }
anchored quoted (some anchor) invalid = record no_context { reply_to_message_id = some quoted }
anchored quoted (some anchor) future = record no_context { reply_to_message_id = some quoted }
anchored quoted (some anchor) stale = record no_context { reply_to_message_id = some quoted }
anchored quoted (some anchor) (hit turn) = record {
  reply_to_message_id = some quoted;
  topic_id = some anchor.topic_id;
  branch_id = some anchor.branch_id;
  parent_turn_id = some turn;
}

abbrev pub reply_reason : AnchorState → Reason
reply_reason missed = explicit_reply_miss
reply_reason invalid = explicit_reply_miss
reply_reason future = explicit_reply_miss
reply_reason stale = explicit_reply_miss
reply_reason (hit turn) = explicit_reply

unfoldable pub resolve_explicit_reply :
    Unicode
    → RouterOptions
    → FreshIds
    → RouteInput
    → Text
    → ℕ
    → Conversations
    → Result Refusal (ConversationRoute × Conversations)
unfolding save anchor_state get_message_context
resolve_explicit_reply w o fresh input quoted now s =
    let anchor = get_message_context input.group_id quoted s in
    let state = anchor_state o now anchor in
    save w fresh input now (reply_reason state) (anchored quoted anchor state) s

-- `[...turns].reverse().find((turn) => turn.role === "user")`
unfoldable pub previous_user_turn : List ContextTurn → Option ContextTurn
previous_user_turn turns = find (λ t. is_user t.role) (reverse turns)

abbrev pub is_own : RouteInput → ContextTurn → Bool
is_own input previous = elim previous.user_id [ none ↦ false | some u ↦ same u input.user_id ]

-- Whether a text goes on from another one.
unfoldable pub is_similar : Unicode → RouterOptions → Text → Text → Bool
unfolding character_jaccard has_effective_keyword_overlap
is_similar w o text previous =
    is_at_least (character_jaccard w text previous) (similarity_threshold_of o)
    && has_effective_keyword_overlap w text previous

-- The reason for the route of a message without a quote, by the user turn before it.
unfoldable pub unquoted_reason : Unicode → RouterOptions → RouteInput → ℕ → ContextTurn → Reason
unfolding is_similar is_direct_follow_up normalize_message
unquoted_reason w o input now previous =
    let text = normalize_message input.text in
    if not (is_own input previous)
    then new_topic
    else if ltb now previous.created_at
    then fail_closed
    else if ltb (previous.created_at + auto_continue_window o) now
    then new_topic
    else if is_direct_follow_up w text
    then same_user_follow_up
    else if is_similar w o text previous.content
    then same_user_similar
    else new_topic

abbrev pub active_context : ActiveRoute → ℕ → Reason → SaveContext
active_context active head same_user_follow_up = record {
  reply_to_message_id = none;
  topic_id = some active.topic_id;
  branch_id = some active.branch_id;
  parent_turn_id = some head;
}
active_context active head same_user_similar = record {
  reply_to_message_id = none;
  topic_id = some active.topic_id;
  branch_id = some active.branch_id;
  parent_turn_id = some head;
}
active_context active head explicit_reply = no_context
active_context active head explicit_reply_fork = no_context
active_context active head explicit_reply_miss = no_context
active_context active head new_topic = no_context
active_context active head fail_closed = no_context
