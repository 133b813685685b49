-- ===== src/Conversation/Tables.antt =====
-- The conversation tables of src/shared/sqlite.ts, and the lookups of
-- src/services/conversation-context-repository.ts. Identifiers that `randomUUID` makes are arguments.
use ubot_ai_agent.Base.{ℕ, ◌==◌, Bool, ◌&&◌, Option, none, some, List, Text, same, trim, find}
use ubot_ai_agent.Store.Outbox.{OutboxRow}
use ubot_ai_agent.Store.Delivery.{Direction, ContextRow, BotMessage, context_of, truthy}

-- A row of `conversation_topics`.
pub record TopicRow : Type 0 where
  pub topic_id : Text
  pub group_id : Text
  pub owner_user_id : Text
  pub title : Text
  pub keywords : List Text
  pub created_at : ℕ
  pub updated_at : ℕ

-- A row of `conversation_branches`.
pub record BranchRow : Type 0 where
  pub branch_id : Text
  pub topic_id : Text
  pub group_id : Text
  pub owner_user_id : Text
  pub parent_branch_id : Option Text
  pub forked_from_turn_id : Option ℕ
  pub head_turn_id : Option ℕ
  pub created_at : ℕ
  pub updated_at : ℕ

-- A row of `conversation_turns`.
pub record ContextTurn : Type 0 where
  pub id : ℕ
  pub topic_id : Text
  pub branch_id : Text
  pub parent_turn_id : Option ℕ
  pub role : Direction
  pub user_id : Option Text
  pub content : Text
  pub source_message_id : Option Text
  pub delivery_id : Option Text
  pub platform_message_id : Option Text
  pub created_at : ℕ

-- ConversationRouteReason
pub data Reason : Type 0 where
  explicit_reply explicit_reply_fork explicit_reply_miss : Reason
  same_user_follow_up same_user_similar new_topic fail_closed : Reason

-- A row of `conversation_message_routes`.
pub record MessageRoute : Type 0 where
  pub source_row_id : ℕ
  pub group_id : Text
  pub user_id : Text
  pub source_message_id : Text
  pub reply_to_message_id : Option Text
  pub topic_id : Text
  pub branch_id : Text
  pub route_reason : Reason
  pub parent_turn_id : Option ℕ
  pub turn_id : ℕ
  pub created_at : ℕ

-- A row of `conversation_user_active_routes`.
pub record ActiveRow : Type 0 where
  pub group_id : Text
  pub user_id : Text
  pub topic_id : Text
  pub branch_id : Text
  pub updated_at : ℕ

-- The tables; `last_turn` is the last id that AUTOINCREMENT gave to a turn.
pub record Conversations : Type 0 where
  pub topics : List TopicRow
  pub branches : List BranchRow
  pub turns : List ContextTurn
  pub last_turn : ℕ
  pub contexts : List ContextRow
  pub routes : List MessageRoute
  pub active : List ActiveRow
  pub outbox : List OutboxRow
  pub bot_messages : List BotMessage

-- What throws.
pub data Refusal : Type 0 where
  foreign_branch missing_branch foreign_topic taken_id : Refusal
  bound_elsewhere missing_delivery other_route not_publishable : Refusal

unfoldable pub get_route_by_source_row_id : ℕ → Conversations → Option MessageRoute
get_route_by_source_row_id id s = find (λ r. r.source_row_id == id) s.routes

unfoldable pub get_branch : Text → Conversations → Option BranchRow
get_branch id s = find (λ b. same b.branch_id id) s.branches

unfoldable pub get_topic : Text → Conversations → Option TopicRow
get_topic id s = find (λ t. same t.topic_id id) s.topics

unfoldable pub get_message_context : Text → Text → Conversations → Option ContextRow
get_message_context group message s = context_of group (trim message) s.contexts

-- ActiveConversationRoute
pub record ActiveRoute : Type 0 where
  pub topic_id : Text
  pub branch_id : Text
  pub updated_at : ℕ
  pub head_turn_id : Option ℕ

abbrev pub is_active_row : Text → Text → ActiveRow → Bool
is_active_row group user a = same a.group_id group && same a.user_id user

-- The JOIN with the branches.
unfoldable pub get_active_route : Text → Text → Conversations → Option ActiveRoute
unfolding get_branch
get_active_route group user s = elim (find (is_active_row group user) s.active) [
  | none ↦ none
  | some a ↦ elim (get_branch a.branch_id s) [
    | none ↦ none
    | some b ↦ some (record {
      topic_id = a.topic_id;
      branch_id = a.branch_id;
      updated_at = a.updated_at;
      head_turn_id = b.head_turn_id;
    })
  ]
]

-- `value || fallback` on a text that may be missing.
abbrev pub or_else : Option Text → Text → Text
or_else value fallback = elim (truthy value) [ none ↦ fallback | some t ↦ t ]
