-- ===== src/Conversation/Router.antt =====
-- `resolve` of src/services/conversation-context-router.ts: which conversation a message joins. What
-- the calls log is left out.
pub mod Parents
pub mod Reasons
pub mod Active
pub mod Continuations
pub mod Repeats
mod Tests
use mathlib.Core.List.{reverse}
use ubot_ai_agent.Base.{
  ℕ, ◌+◌, ◌*◌, max, ltb, leb, if◌then◌else◌, Bool, true, false, not, ◌&&◌, Option, none, some, List,
  [], ◌∷◌, ◌++◌, Text, codes, same, trim, is_empty, find, coalesce, Result, ok, throws,
}
use ubot_ai_agent.Store.Numbers.{decimal}
use ubot_ai_agent.Store.Delivery.{ContextRow, truthy}
use ubot_ai_agent.Conversation.Tables.{
  ContextTurn, Reason, explicit_reply, explicit_reply_fork, explicit_reply_miss,
  same_user_follow_up, same_user_similar, new_topic, fail_closed, Conversations, Refusal,
  ActiveRoute, get_route_by_source_row_id, get_message_context, get_active_route,
}
use ubot_ai_agent.Conversation.Places.{SaveInput, FreshIds, ConversationRoute, to_route, trimmed}
use ubot_ai_agent.Conversation.Saving.{save_message_route}
use ubot_ai_agent.Conversation.History.{get_causal_turns, is_user}
use ubot_ai_agent.Conversation.Words.{
  Unicode, Fraction, is_at_least, normalize_message, is_direct_follow_up, character_jaccard,
  extract_effective_keywords, has_effective_keyword_overlap,
}
use ubot_ai_agent.Conversation.Policy.{
  RouterOptions, RouteInput, positive_duration, normalize_threshold, auto_continue_window,
  explicit_reply_window, similarity_threshold_of, SaveContext, no_context, save_input, save,
  AnchorState, anchor_state, anchored, reply_reason, resolve_explicit_reply, previous_user_turn,
  is_own, is_similar, unquoted_reason, active_context, missed, invalid, future, stale, hit,
}

-- The route of the user that is active, with the head of its branch and the last user turn before it.
pub record Preceding : Type 0 where
  pub active : ActiveRoute
  pub head : ℕ
  pub previous : ContextTurn

unfoldable pub preceding_behind : ActiveRoute → ℕ → Conversations → Option Preceding
unfolding get_causal_turns previous_user_turn
preceding_behind active head s =
    elim (previous_user_turn (get_causal_turns active.branch_id (some head) 32 24000 s)) [
      | none ↦ none
      | some previous ↦ some (record { active = active; head = head; previous = previous })
    ]

unfoldable pub preceding_of : ActiveRoute → Conversations → Option Preceding
unfolding preceding_behind
preceding_of active s = elim active.head_turn_id [
  | none ↦ none
  | some head ↦ preceding_behind active head s
]

-- There is none for an empty text.
unfoldable pub preceding : RouteInput → Conversations → Option Preceding
unfolding normalize_message get_active_route preceding_of
preceding input s = elim (truthy (some (normalize_message input.text))) [
  | none ↦ none
  | some text ↦ elim (get_active_route input.group_id input.user_id s) [
    | none ↦ none
    | some active ↦ preceding_of active s
  ]
]

unfoldable pub resolve_unquoted :
    Unicode
    → RouterOptions
    → FreshIds
    → RouteInput
    → ℕ
    → Conversations
    → Result Refusal (ConversationRoute × Conversations)
unfolding save preceding unquoted_reason
resolve_unquoted w o fresh input now s = elim (preceding input s) [
  | none ↦ save w fresh input now new_topic no_context s
  | some p ↦
      let reason = unquoted_reason w o input now p.previous in
      save w fresh input now reason (active_context p.active p.head reason) s
]

-- A route that is not stored: `ephemeralFailClosedRoute`; its turn is the negative of `minus_turn_id`.
pub record EphemeralRoute : Type 0 where
  pub topic_id : Text
  pub branch_id : Text
  pub source_message_id : Text
  pub reply_to_message_id : Option Text
  pub route_reason : Reason
  pub source_row_id : ℕ
  pub minus_turn_id : ℕ

unfoldable pub ephemeral_fail_closed_route : Unicode → RouteInput → EphemeralRoute
unfolding decimal
ephemeral_fail_closed_route w input =
    let isolated_id = w.encode input.group_id ++ (codes ":" ++ decimal input.source_row_id) in
    record {
      topic_id = codes "topic:fail-closed:" ++ isolated_id;
      branch_id = codes "branch:fail-closed:" ++ isolated_id;
      source_message_id = input.source_message_id;
      reply_to_message_id = truthy (trimmed input.reply_to_message_id);
      route_reason = fail_closed;
      source_row_id = input.source_row_id;
      minus_turn_id = max 1 input.source_row_id;
    }

pub data Resolved : Type 0 where
  routed : ConversationRoute → Resolved
  isolated : EphemeralRoute → Resolved

-- What `resolve` does behind an error.
unfoldable pub resolve_closed :
    Unicode → FreshIds → RouteInput → ℕ → Conversations → Resolved × Conversations
unfolding save ephemeral_fail_closed_route
resolve_closed w fresh input now s = elim (save w fresh input now fail_closed no_context s) [
  | ok (route, s') ↦ (routed route, s')
  | throws error ↦ (isolated (ephemeral_fail_closed_route w input), s)
]

-- The body of the outer `try`, behind the lookup.
unfoldable pub resolve_new :
    Unicode
    → RouterOptions
    → FreshIds
    → RouteInput
    → ℕ
    → Conversations
    → Result Refusal (ConversationRoute × Conversations)
unfolding resolve_explicit_reply resolve_unquoted
resolve_new w o fresh input now s = elim (truthy (trimmed input.reply_to_message_id)) [
  | some quoted ↦ resolve_explicit_reply w o fresh input quoted now s
  | none ↦ resolve_unquoted w o fresh input now s
]

-- The identifiers of the first call of `save`, and those of the second, behind an error.
unfoldable pub resolve :
    Unicode
    → RouterOptions
    → FreshIds
    → FreshIds
    → RouteInput
    → ℕ
    → Conversations
    → Resolved × Conversations
unfolding resolve_new resolve_closed get_route_by_source_row_id to_route
resolve w o fresh again input now s = elim (get_route_by_source_row_id input.source_row_id s) [
  | some persisted ↦ (routed (to_route persisted), s)
  | none ↦ elim (resolve_new w o fresh input now s) [
    | ok (route, s') ↦ (routed route, s')
    | throws error ↦ resolve_closed w again input now s
  ]
]
