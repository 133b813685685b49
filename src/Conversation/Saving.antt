-- ===== src/Conversation/Saving.antt =====
-- `saveMessageRoute`, `saveExplicitReplyRoute` and `setActiveRoute` of
-- src/services/conversation-context-repository.ts. Each is a transaction: one that throws leaves no
-- state.
pub mod Parents
pub mod Known
pub mod Written
pub mod Histories
use ubot_ai_agent.Base.{
  ℕ, ◌+◌, max, ◌==◌, ltb, if◌then◌else◌, Bool, true, false, not, ◌&&◌, ◌||◌, Option, none, some,
  List, [], ◌∷◌, ◌++◌, map, Text, same, trim, is_empty, is_space, take, any, filter, distinct,
  coalesce, coalesce?, Result, ok, throws, throw_if, ◌>>=◌, ◌>>◌,
}
use ubot_ai_agent.Base.Updates.{update}
use ubot_ai_agent.Reply.Pieces.{collapse, filled}
use ubot_ai_agent.Store.Delivery.{Direction, user, ContextRow, is_context, truthy}
use ubot_ai_agent.Conversation.Tables.{
  TopicRow, BranchRow, ContextTurn, Reason, explicit_reply, explicit_reply_fork,
  explicit_reply_miss, same_user_follow_up, same_user_similar, new_topic, fail_closed, MessageRoute,
  ActiveRow, Conversations, Refusal, foreign_branch, missing_branch, foreign_topic, taken_id,
  get_route_by_source_row_id, get_branch, get_topic, get_message_context, is_active_row, or_else,
}
use ubot_ai_agent.Conversation.Places.{
  SaveInput, FreshIds, ConversationRoute, to_route, normalize_title, normalize_keywords,
  existing_branch, Place, forked, is_behind, trimmed, branch_place, place_in, place_outside,
  place_of,
}

-- INSERT INTO conversation_topics … ON CONFLICT(topic_id) DO UPDATE
unfoldable pub put_topic : SaveInput → Text → List TopicRow → List TopicRow
unfolding normalize_title normalize_keywords
put_topic input topic_id topics =
    if any (λ t. same t.topic_id topic_id) topics
    then update (λ t. same t.topic_id topic_id)
        (λ t. record t { updated_at = max t.updated_at input.created_at }) topics
    else topics
      ++ record {
        topic_id = topic_id;
        group_id = input.group_id;
        owner_user_id = input.user_id;
        title = normalize_title (coalesce input.title input.content);
        keywords = normalize_keywords input.keywords;
        created_at = input.created_at;
        updated_at = input.created_at;
      }
        ∷ []

unfoldable pub new_branch : SaveInput → Place → BranchRow
new_branch input p = record {
  branch_id = p.branch_id;
  topic_id = p.topic_id;
  group_id = input.group_id;
  owner_user_id = input.user_id;
  parent_branch_id = p.parent_branch_id;
  forked_from_turn_id = p.forked_from_turn_id;
  head_turn_id = none;
  created_at = input.created_at;
  updated_at = input.created_at;
}

-- `!existingBranch || branchId !== existingBranch.branchId`
abbrev pub is_new_branch : Place → Option BranchRow → Bool
is_new_branch p none = true
is_new_branch p (some b) = not (same p.branch_id b.branch_id)

-- The INSERT, which a branch with the same primary key refuses.
unfoldable pub put_branch :
    SaveInput → Place → Option BranchRow → List BranchRow → Result Refusal (List BranchRow)
unfolding new_branch
put_branch input p existing branches =
    if is_new_branch p existing
    then throw_if (any (λ b. same b.branch_id p.branch_id) branches) taken_id
      >> ok (branches ++ new_branch input p ∷ [])
    else ok branches

unfoldable pub user_turn : SaveInput → Place → ℕ → ContextTurn
user_turn input p id = record {
  id = id;
  topic_id = p.topic_id;
  branch_id = p.branch_id;
  parent_turn_id = p.parent_turn_id;
  role = user;
  user_id = some input.user_id;
  content = input.content;
  source_message_id = some input.source_message_id;
  delivery_id = none;
  platform_message_id = none;
  created_at = input.created_at;
}

unfoldable pub set_head : Text → ℕ → ℕ → List BranchRow → List BranchRow
set_head branch_id turn now =
    update (λ b. same b.branch_id branch_id)
      (λ b. record b { head_turn_id = some turn; updated_at = now })

unfoldable pub user_context : SaveInput → Place → ℕ → ContextRow
user_context input p turn = record {
  group_id = input.group_id;
  platform_message_id = input.source_message_id;
  topic_id = p.topic_id;
  branch_id = p.branch_id;
  turn_id = some turn;
  direction = user;
  created_at = input.created_at;
}

unfoldable pub new_route : SaveInput → Place → ℕ → MessageRoute
new_route input p turn = record {
  source_row_id = input.source_row_id;
  group_id = input.group_id;
  user_id = input.user_id;
  source_message_id = input.source_message_id;
  reply_to_message_id = input.reply_to_message_id;
  topic_id = p.topic_id;
  branch_id = p.branch_id;
  route_reason = p.route_reason;
  parent_turn_id = p.parent_turn_id;
  turn_id = turn;
  created_at = input.created_at;
}

-- INSERT INTO conversation_user_active_routes … ON CONFLICT(group_id, user_id) DO UPDATE
unfoldable pub put_active : Text → Text → Text → Text → ℕ → List ActiveRow → List ActiveRow
put_active group user_id topic branch now rows =
    if any (is_active_row group user_id) rows
    then update (is_active_row group user_id)
        (λ a. record a { topic_id = topic; branch_id = branch; updated_at = now }) rows
    else rows
      ++ record {
        group_id = group;
        user_id = user_id;
        topic_id = topic;
        branch_id = branch;
        updated_at = now;
      }
        ∷ []

-- The writes, when the checks have passed.
unfoldable pub write_route :
    SaveInput → Place → List BranchRow → Conversations → ConversationRoute × Conversations
unfolding put_topic user_turn set_head user_context new_route put_active to_route
write_route input p branches s =
    let turn = s.last_turn + 1 in
    let route = new_route input p turn in
    (
      to_route route,
      record s {
        topics = put_topic input p.topic_id s.topics;
        branches = set_head p.branch_id turn input.created_at branches;
        turns = s.turns ++ user_turn input p turn ∷ [];
        last_turn = turn;
        contexts = s.contexts ++ user_context input p turn ∷ [];
        routes = s.routes ++ route ∷ [];
        active =
            put_active input.group_id input.user_id p.topic_id p.branch_id input.created_at
              s.active;
      },
    )

abbrev pub is_foreign_topic : Text → Option TopicRow → Bool
is_foreign_topic group none = false
is_foreign_topic group (some t) = not (same t.group_id group)

-- What follows the first lookup.
unfoldable pub save_new_route :
    FreshIds → SaveInput → Conversations → Result Refusal (ConversationRoute × Conversations)
unfolding existing_branch place_of put_branch write_route get_topic
save_new_route fresh input s = do
  p ← place_of fresh input (existing_branch input s)
  throw_if (is_foreign_topic input.group_id (get_topic p.topic_id s)) foreign_topic
  branches ← put_branch input p (existing_branch input s) s.branches
  throw_if (any (is_context input.group_id input.source_message_id) s.contexts) taken_id
  ok (write_route input p branches s)

unfoldable pub save_message_route :
    FreshIds → SaveInput → Conversations → Result Refusal (ConversationRoute × Conversations)
unfolding save_new_route get_route_by_source_row_id to_route
save_message_route fresh input s = elim (get_route_by_source_row_id input.source_row_id s) [
  | some existing ↦ ok (to_route existing, s)
  | none ↦ save_new_route fresh input s
]

-- `saveExplicitReplyRoute`
unfoldable pub save_explicit_reply_route :
    FreshIds → SaveInput → ℕ → Conversations → Result Refusal (ConversationRoute × Conversations)
unfolding save_message_route get_message_context
save_explicit_reply_route fresh input max_anchor_age_ms s =
    let bare = record input { topic_id = none; branch_id = none; parent_turn_id = none } in
    elim (truthy (trimmed input.reply_to_message_id)) [
      | none ↦ save_message_route fresh (record bare { route_reason = explicit_reply_miss }) s
      | some quoted ↦
          let missed = record bare {
            reply_to_message_id = some quoted;
            route_reason = explicit_reply_miss;
          } in
          elim (get_message_context input.group_id quoted s) [
            | none ↦ save_message_route fresh missed s
            | some anchor ↦
                if ltb (anchor.created_at + max_anchor_age_ms) input.created_at
                  || ltb input.created_at anchor.created_at
                then save_message_route fresh missed s
                else save_message_route fresh
                    (record bare {
                      reply_to_message_id = some quoted;
                      route_reason = explicit_reply;
                      topic_id = some anchor.topic_id;
                      branch_id = some anchor.branch_id;
                      parent_turn_id = anchor.turn_id;
                    })
                    s
          ]
    ]

-- `setActiveRoute`
unfoldable pub set_active_route :
    Text → Text → Text → Text → ℕ → Conversations → Result Refusal Conversations
unfolding get_branch put_active
set_active_route group user_id topic branch updated_at s = elim (get_branch branch s) [
  | none ↦ throws foreign_branch
  | some b ↦
      throw_if (not (same b.group_id group) || not (same b.topic_id topic)) foreign_branch
      >> ok (record s { active = put_active group user_id topic branch updated_at s.active })
]
