-- ===== src/Conversation/Places.antt =====
-- Where a message goes: the choice of topic, branch and parent in `saveMessageRoute` of
-- src/services/conversation-context-repository.ts.
use ubot_ai_agent.Base.{
  ℕ, ◌==◌, if◌then◌else◌, Bool, false, not, ◌||◌, Option, none, some, List, map, Text, same, trim,
  is_space, take, distinct, coalesce?, Result, ok, throws, throw_if, ◌>>◌,
}
use ubot_ai_agent.Reply.Pieces.{collapse, filled}
use ubot_ai_agent.Store.Delivery.{truthy}
use ubot_ai_agent.Conversation.Tables.{
  BranchRow, Reason, explicit_reply, explicit_reply_fork, explicit_reply_miss, same_user_follow_up,
  same_user_similar, new_topic, fail_closed, MessageRoute, Conversations, Refusal, foreign_branch,
  missing_branch, get_branch, or_else,
}

-- SaveMessageRouteInput
pub record SaveInput : Type 0 where
  pub source_row_id : ℕ
  pub group_id : Text
  pub user_id : Text
  pub source_message_id : Text
  pub reply_to_message_id : Option Text
  pub route_reason : Reason
  pub content : Text
  pub created_at : ℕ
  pub topic_id : Option Text
  pub branch_id : Option Text
  pub parent_turn_id : Option ℕ
  pub title : Option Text
  pub keywords : List Text

-- The identifiers that `createId` makes in a call.
pub record FreshIds : Type 0 where
  pub topic : Text
  pub branch : Text

-- ConversationRoute
pub record ConversationRoute : Type 0 where
  pub topic_id : Text
  pub branch_id : Text
  pub source_message_id : Text
  pub reply_to_message_id : Option Text
  pub route_reason : Reason
  pub source_row_id : ℕ
  pub parent_turn_id : Option ℕ
  pub turn_id : ℕ

unfoldable pub to_route : MessageRoute → ConversationRoute
to_route r = record {
  topic_id = r.topic_id;
  branch_id = r.branch_id;
  source_message_id = r.source_message_id;
  reply_to_message_id = truthy r.reply_to_message_id;
  route_reason = r.route_reason;
  source_row_id = r.source_row_id;
  parent_turn_id = r.parent_turn_id;
  turn_id = r.turn_id;
}

unfoldable pub normalize_title : Text → Text
unfolding collapse
normalize_title value = take 80 (trim (collapse is_space 32 value))

unfoldable pub normalize_keywords : List Text → List Text
normalize_keywords keywords = take 32 (distinct (filled (map trim keywords)))

-- `input.branchId ? this.getBranch(input.branchId) : undefined`
unfoldable pub existing_branch : SaveInput → Conversations → Option BranchRow
unfolding get_branch
existing_branch input s = elim (truthy input.branch_id) [ none ↦ none | some id ↦ get_branch id s ]

-- Where a message goes: what the code keeps in its local variables.
pub record Place : Type 0 where
  pub topic_id : Text
  pub branch_id : Text
  pub parent_branch_id : Option Text
  pub forked_from_turn_id : Option ℕ
  pub parent_turn_id : Option ℕ
  pub route_reason : Reason

abbrev pub forked : Reason → Reason
forked explicit_reply = explicit_reply_fork
forked explicit_reply_fork = explicit_reply_fork
forked explicit_reply_miss = explicit_reply_miss
forked same_user_follow_up = same_user_follow_up
forked same_user_similar = same_user_similar
forked new_topic = new_topic
forked fail_closed = fail_closed

-- Both are there, and differ.
abbrev pub is_behind : Option ℕ → Option ℕ → Bool
is_behind none head = false
is_behind (some p) none = false
is_behind (some p) (some h) = not (p == h)

-- `value?.trim()`
abbrev pub trimmed : Option Text → Option Text
trimmed none = none
trimmed (some t) = some (trim t)

-- Behind its head a branch is forked.
unfoldable pub branch_place : FreshIds → SaveInput → BranchRow → Text → Place
branch_place fresh input b topic =
    if is_behind input.parent_turn_id b.head_turn_id
    then record {
      topic_id = topic;
      branch_id = fresh.branch;
      parent_branch_id = some b.branch_id;
      forked_from_turn_id = input.parent_turn_id;
      parent_turn_id = input.parent_turn_id;
      route_reason = forked input.route_reason;
    }
    else record {
      topic_id = topic;
      branch_id = or_else (trimmed input.branch_id) fresh.branch;
      parent_branch_id = none;
      forked_from_turn_id = none;
      parent_turn_id = coalesce? input.parent_turn_id b.head_turn_id;
      route_reason = input.route_reason;
    }

unfoldable pub place_in : FreshIds → SaveInput → BranchRow → Result Refusal Place
unfolding branch_place
place_in fresh input b =
    let topic = or_else (trimmed input.topic_id) (or_else (some b.topic_id) fresh.topic) in
    throw_if (not (same b.group_id input.group_id) || not (same b.topic_id topic)) foreign_branch
    >> ok (branch_place fresh input b topic)

unfoldable pub place_outside : FreshIds → SaveInput → Result Refusal Place
place_outside fresh input = elim (truthy input.branch_id) [
  | some id ↦ throws missing_branch
  | none ↦ ok (record {
    topic_id = or_else (trimmed input.topic_id) fresh.topic;
    branch_id = fresh.branch;
    parent_branch_id = none;
    forked_from_turn_id = none;
    parent_turn_id = input.parent_turn_id;
    route_reason = input.route_reason;
  })
]

unfoldable pub place_of : FreshIds → SaveInput → Option BranchRow → Result Refusal Place
unfolding place_in place_outside
place_of fresh input none = place_outside fresh input
place_of fresh input (some b) = place_in fresh input b
