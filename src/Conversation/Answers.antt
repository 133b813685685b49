-- ===== src/Conversation/Answers.antt =====
-- `appendAssistantTurn` and `bindPlatformMessage` of src/services/conversation-context-repository.ts.
pub mod Binding
pub mod Splicing
pub mod Histories
use ubot_ai_agent.Base.{
  ℕ, ◌+◌, max, ◌==◌, if◌then◌else◌, Bool, true, false, not, ◌&&◌, ◌||◌, Option, none, some, List,
  [], ◌∷◌, ◌++◌, map, Text, codes, same, trim, is_empty, any, find, filter, distinct, coalesce,
  coalesce?, Result, ok, throws, throw_if, ◌>>=◌, ◌>>◌,
}
use ubot_ai_agent.Base.Updates.{update}
use ubot_ai_agent.Base.Selection.{among}
use ubot_ai_agent.Reply.Pieces.{filled}
use ubot_ai_agent.Store.Numbers.{outbox_number, delivery_id_of}
use ubot_ai_agent.Store.Outbox.{OutboxRow, Status, preparing, pending, sending, sent, failed}
use ubot_ai_agent.Store.Delivery.{
  Direction, user, assistant, ContextRow, BotMessage, is_context, is_bound_elsewhere, is_other,
  is_other_turn, truthy, record_bot_message,
}
use ubot_ai_agent.Conversation.Tables.{
  TopicRow, BranchRow, ContextTurn, Reason, explicit_reply, explicit_reply_fork,
  explicit_reply_miss, same_user_follow_up, same_user_similar, new_topic, fail_closed, MessageRoute,
  ActiveRow, Conversations, Refusal, foreign_branch, missing_delivery, other_route, not_publishable,
  bound_elsewhere, get_branch, get_message_context,
}

-- AppendAssistantTurnInput
pub record AnswerInput : Type 0 where
  pub topic_id : Text
  pub branch_id : Text
  pub content : Text
  pub created_at : ℕ
  pub parent_turn_id : Option ℕ
  pub delivery_id : Option Text
  pub platform_message_id : Option Text
  pub delivery_ids : List Text

unfoldable pub answer_turn : AnswerInput → Option ℕ → ℕ → ContextTurn
answer_turn input parent id = record {
  id = id;
  topic_id = input.topic_id;
  branch_id = input.branch_id;
  parent_turn_id = parent;
  role = assistant;
  user_id = none;
  content = input.content;
  source_message_id = none;
  delivery_id = input.delivery_id;
  platform_message_id = input.platform_message_id;
  created_at = input.created_at;
}

-- `delivery_id = ? OR id = ?`, with -1 for an id that is no number.
unfoldable pub is_delivery : Text → OutboxRow → Bool
is_delivery delivery r =
    elim r.delivery_id [ none ↦ false | some d ↦ same d delivery ]
    || elim (outbox_number delivery) [ none ↦ false | some id ↦ r.id == id ]

abbrev pub is_publishable : Status → Bool
is_publishable preparing = true
is_publishable pending = true
is_publishable sending = false
is_publishable sent = false
is_publishable failed = false

unfoldable pub publish : AnswerInput → ℕ → OutboxRow → OutboxRow
publish input turn r = record r {
  delivery_id = some (delivery_id_of r.id);
  topic_id = some input.topic_id;
  branch_id = some input.branch_id;
  turn_id = some turn;
  status = pending;
  updated_at = some input.created_at;
}

unfoldable pub publish_row :
    AnswerInput → ℕ → Option OutboxRow → List OutboxRow → Result Refusal (List OutboxRow)
unfolding publish
publish_row input turn none rows = throws missing_delivery
publish_row input turn (some r) rows = do
  throw_if
      (is_other r.topic_id input.topic_id
        || (is_other r.branch_id input.branch_id || is_other_turn r.turn_id (some turn)))
      other_route
  throw_if (not (is_publishable r.status)) not_publishable
  ok (update (λ x. x.id == r.id) (publish input turn) rows)

-- The loop over the deliveries.
unfoldable pub publish_all :
    AnswerInput → ℕ → List Text → List OutboxRow → Result Refusal (List OutboxRow)
unfolding publish_row is_delivery
publish_all input turn [] rows = ok rows
publish_all input turn (d ∷ ds) rows =
    publish_row input turn (find (is_delivery d) rows) rows >>= publish_all input turn ds

abbrev pub is_implicit : Reason → Bool
is_implicit same_user_follow_up = true
is_implicit same_user_similar = true
is_implicit explicit_reply = false
is_implicit explicit_reply_fork = false
is_implicit explicit_reply_miss = false
is_implicit new_topic = false
is_implicit fail_closed = false

-- The routes of implicit continuations of a turn in a branch.
abbrev pub continues : Text → ℕ → MessageRoute → Bool
continues branch parent r =
    same r.branch_id branch
    && (elim r.parent_turn_id [ none ↦ false | some p ↦ p == parent ] && is_implicit r.route_reason)

unfoldable pub continuing : Text → ℕ → List MessageRoute → List ℕ
continuing branch parent routes = map (λ r. r.turn_id) (filter (continues branch parent) routes)

-- The answer goes between the turn and those that continue it already.
unfoldable pub splice : Text → Option ℕ → ℕ → Conversations → Conversations
unfolding continuing
splice branch none turn s = s
splice branch (some parent) turn s =
    let spliced = continuing branch parent s.routes in
    record s {
      turns =
          update (λ t. among spliced t.id) (λ t. record t { parent_turn_id = some turn }) s.turns;
      routes =
          update (continues branch parent) (λ r. record r { parent_turn_id = some turn }) s.routes;
    }

-- `head_turn_id IS NULL OR head_turn_id = ?`
abbrev pub is_head : Option ℕ → Option ℕ → Bool
is_head none parent = true
is_head (some h) none = false
is_head (some h) (some p) = h == p

unfoldable pub advance_head : Option ℕ → ℕ → ℕ → BranchRow → BranchRow
advance_head parent turn now b = record b {
  head_turn_id = if is_head b.head_turn_id parent then some turn else b.head_turn_id;
  updated_at = max b.updated_at now;
}

unfoldable pub touch : AnswerInput → Option ℕ → ℕ → Conversations → Conversations
unfolding advance_head
touch input parent turn s = record s {
  branches =
      update (λ b. same b.branch_id input.branch_id) (advance_head parent turn input.created_at)
        s.branches;
  topics =
      update (λ t. same t.topic_id input.topic_id)
        (λ t. record t { updated_at = max t.updated_at input.created_at }) s.topics;
  active =
      update (λ a. same a.branch_id input.branch_id)
        (λ a. record a { updated_at = max a.updated_at input.created_at }) s.active;
}

-- MessageContextBinding is a row of the contexts; the INSERT … ON CONFLICT DO UPDATE.
unfoldable pub put_binding : ContextRow → List ContextRow → List ContextRow
put_binding binding rows =
    let id = trim binding.platform_message_id in
    if any (is_context binding.group_id id) rows
    then update (is_context binding.group_id id)
        (λ c. record c { turn_id = coalesce? c.turn_id binding.turn_id }) rows
    else rows ++ record binding { platform_message_id = id } ∷ []

abbrev pub is_assistant : Direction → Bool
is_assistant assistant = true
is_assistant user = false

unfoldable pub insert_message_binding : ContextRow → Conversations → Result Refusal Conversations
unfolding put_binding get_message_context
insert_message_binding binding s = do
  throw_if
      (is_bound_elsewhere binding.topic_id binding.branch_id binding.turn_id
        (get_message_context binding.group_id binding.platform_message_id s))
      bound_elsewhere
  ok (record s {
    contexts = put_binding binding s.contexts;
    bot_messages =
        if is_assistant binding.direction
        then record_bot_message binding.group_id (trim binding.platform_message_id)
            binding.created_at s.bot_messages
        else s.bot_messages;
  })

unfoldable pub answer_binding : AnswerInput → Text → Text → ℕ → ContextRow
answer_binding input group message turn = record {
  group_id = group;
  platform_message_id = message;
  topic_id = input.topic_id;
  branch_id = input.branch_id;
  turn_id = some turn;
  direction = assistant;
  created_at = input.created_at;
}

unfoldable pub bind_answer : AnswerInput → Text → ℕ → Conversations → Result Refusal Conversations
unfolding insert_message_binding answer_binding
bind_answer input group turn s = elim (truthy input.platform_message_id) [
  | none ↦ ok s
  | some message ↦ insert_message_binding (answer_binding input group message turn) s
]

abbrev pub delivery_ids_of : AnswerInput → List Text
delivery_ids_of input = distinct (filled (map trim input.delivery_ids))

unfoldable pub first_of : List Text → Option Text
first_of [] = none
first_of (d ∷ ds) = some d

unfoldable pub returned_turn : AnswerInput → ContextTurn → ContextTurn
unfolding first_of
returned_turn input answer = record answer {
  delivery_id = truthy (coalesce? input.delivery_id (first_of (delivery_ids_of input)));
  platform_message_id = truthy input.platform_message_id;
}

-- The writes of `appendAssistantTurn`, behind the parent that it has chosen.
unfoldable pub append_behind :
    AnswerInput → Text → Option ℕ → Conversations → Result Refusal (ContextTurn × Conversations)
unfolding answer_turn publish_all splice touch bind_answer returned_turn
append_behind input group parent s =
    let turn = s.last_turn + 1 in
    let answer = answer_turn input parent turn in
    publish_all input turn (delivery_ids_of input) s.outbox >>= λ outbox.
    bind_answer input group turn (
      touch input parent turn (
        splice input.branch_id parent turn
          (record s { turns = s.turns ++ answer ∷ []; last_turn = turn; outbox = outbox })))
    >>= λ s'. ok (returned_turn input answer, s')

unfoldable pub append_in :
    AnswerInput → BranchRow → Conversations → Result Refusal (ContextTurn × Conversations)
unfolding append_behind
append_in input b s =
    throw_if (not (same b.topic_id input.topic_id)) foreign_branch
    >> append_behind input b.group_id (coalesce? input.parent_turn_id b.head_turn_id) s

unfoldable pub append_assistant_turn :
    AnswerInput → Conversations → Result Refusal (ContextTurn × Conversations)
unfolding append_in get_branch
append_assistant_turn input s = elim (get_branch input.branch_id s) [
  | none ↦ throws foreign_branch
  | some b ↦ append_in input b s
]
