-- ===== src/Store/Delivery.antt =====
-- The transactions of src/shared/sqlite.ts on the outbox and what is bound to it: `ackOutboxDelivery`
-- and `attachOutboxContexts`, with the tables of bot messages, message contexts, turns and recalls.
-- A transaction that throws rolls back: its result has no state, and the caller keeps the old one.
pub mod Binding
pub mod Acks
mod Tests
use ubot_ai_agent.Base.{
  ℕ, ◌==◌, ltb, if◌then◌else◌, Bool, true, false, not, ◌&&◌, ◌||◌, Option, none, some, List, [],
  ◌∷◌, ◌++◌, Text, same, trim, is_empty, codes, distinct, coalesce, coalesce?, map, filter, find,
  any, Result, ok, throws, throw_if, ◌>>=◌, ◌>>◌,
}
use ubot_ai_agent.Base.Updates.{update}
use ubot_ai_agent.Store.Numbers.{
  Fault, Policy, delivery_id_of, outbox_number, missing_outbox_row, other_message_id, turn_required,
  other_route, other_delivery_id, other_context, empty_message_id,
}
use ubot_ai_agent.Store.Outbox.{OutboxRow, Context, Outbox, ack_row, attach_row, update_id}
use ubot_ai_agent.Store.Recalls.{Recalls}
use ubot_ai_agent.Store.Recalls.Insertion.{Input, insert_message_recall}

-- A row of `bot_messages`.
pub record BotMessage : Type 0 where
  pub group_id : Text
  pub msg_id : Text
  pub sent_at : ℕ

pub data Direction : Type 0 where
  user assistant : Direction

-- A row of `conversation_message_context`.
pub record ContextRow : Type 0 where
  pub group_id : Text
  pub platform_message_id : Text
  pub topic_id : Text
  pub branch_id : Text
  pub turn_id : Option ℕ
  pub direction : Direction
  pub created_at : ℕ

-- A row of `conversation_turns`, as far as these transactions use it.
pub record TurnRow : Type 0 where
  pub id : ℕ
  pub topic_id : Text
  pub branch_id : Text
  pub platform_message_id : Option Text
  pub delivery_id : Option Text

pub record Ledger : Type 0 where
  pub outbox : Outbox
  pub recalls : Recalls
  pub bot_messages : List BotMessage
  pub contexts : List ContextRow
  pub turns : List TurnRow

abbrev pub is_bot_message : Text → Text → BotMessage → Bool
is_bot_message group_id msg_id b = same b.group_id group_id && same b.msg_id msg_id

-- INSERT OR REPLACE INTO bot_messages
unfoldable pub record_bot_message : Text → Text → ℕ → List BotMessage → List BotMessage
record_bot_message group_id msg_id sent_at rows =
    filter (λ b. not (is_bot_message group_id msg_id b)) rows
    ++ record { group_id = group_id; msg_id = msg_id; sent_at = sent_at } ∷ []

unfoldable pub is_known_bot_message : Text → Option Text → List BotMessage → Bool
is_known_bot_message group_id none rows = false
is_known_bot_message group_id (some msg_id) rows =
    if is_empty (trim group_id) || is_empty (trim msg_id)
    then false
    else any (is_bot_message (trim group_id) (trim msg_id)) rows

unfoldable pub prune_bot_messages : ℕ → List BotMessage → List BotMessage
prune_bot_messages before = filter λ b. not (ltb b.sent_at before)

-- A text that a test takes as true.
abbrev pub truthy : Option Text → Option Text
truthy none = none
truthy (some t) = if is_empty t then none else some t

-- `a && a !== b`
abbrev pub is_other : Option Text → Text → Bool
is_other a b = elim (truthy a) [ none ↦ false | some t ↦ not (same t b) ]

-- Two turn ids that are both there and differ.
abbrev pub is_other_turn : Option ℕ → Option ℕ → Bool
is_other_turn none b = false
is_other_turn (some i) none = false
is_other_turn (some i) (some j) = not (i == j)

abbrev pub is_context : Text → Text → ContextRow → Bool
is_context group_id message_id c = same c.group_id group_id && same c.platform_message_id message_id

abbrev pub context_of : Text → Text → List ContextRow → Option ContextRow
context_of group_id message_id = find (is_context group_id message_id)

abbrev pub is_bound_elsewhere : Text → Text → Option ℕ → Option ContextRow → Bool
is_bound_elsewhere topic_id branch_id turn_id none = false
is_bound_elsewhere topic_id branch_id turn_id (some c) =
    not (same c.topic_id topic_id)
    || (not (same c.branch_id branch_id) || is_other_turn c.turn_id turn_id)

-- ON CONFLICT … DO UPDATE
unfoldable pub rebind : Text → Text → Option ℕ → ContextRow → ContextRow
rebind topic_id branch_id turn_id c = record c {
  topic_id = topic_id;
  branch_id = branch_id;
  turn_id = coalesce? c.turn_id turn_id;
  direction = assistant;
}

unfoldable pub put_context : OutboxRow → Text → Text → Text → ℕ → List ContextRow → List ContextRow
unfolding rebind
put_context row topic_id branch_id message_id created_at cs =
    if any (is_context row.group_id message_id) cs
    then update (is_context row.group_id message_id) (rebind topic_id branch_id row.turn_id) cs
    else cs
      ++ record {
        group_id = row.group_id;
        platform_message_id = message_id;
        topic_id = topic_id;
        branch_id = branch_id;
        turn_id = row.turn_id;
        direction = assistant;
        created_at = created_at;
      }
        ∷ []

unfoldable pub bind_turn : OutboxRow → Text → Text → Text → List TurnRow → List TurnRow
bind_turn row topic_id branch_id message_id turns = elim row.turn_id [
  | none ↦ turns
  | some id ↦
      update (λ t. t.id == id && (same t.topic_id topic_id && same t.branch_id branch_id))
        (λ t. record t {
          platform_message_id = some (coalesce t.platform_message_id message_id);
          delivery_id = coalesce? t.delivery_id row.delivery_id;
        })
        turns
]

-- `syncOutboxConversationContext` behind its first test.
unfoldable pub bind_message : OutboxRow → Text → Text → Text → ℕ → Ledger → Result Fault Ledger
unfolding put_context bind_turn
bind_message row topic_id branch_id message_id created_at s = do
  throw_if
      (is_bound_elsewhere topic_id branch_id row.turn_id
        (context_of row.group_id message_id s.contexts))
      other_context
  ok (record s {
    contexts = put_context row topic_id branch_id message_id created_at s.contexts;
    turns = bind_turn row topic_id branch_id message_id s.turns;
  })

unfoldable pub sync_outbox_conversation_context : OutboxRow → ℕ → Ledger → Result Fault Ledger
unfolding bind_message
sync_outbox_conversation_context row created_at s = elim (truthy row.topic_id) [
  | none ↦ ok s
  | some topic_id ↦ elim (truthy row.branch_id) [
    | none ↦ ok s
    | some branch_id ↦ elim (truthy row.platform_message_id) [
      | none ↦ ok s
      | some message_id ↦ bind_message row topic_id branch_id message_id created_at s
    ]
  ]
]

abbrev pub row_by_id : ℕ → Outbox → Option OutboxRow
row_by_id id s = find (λ r. r.id == id) s.rows

abbrev pub required : Fault → Option OutboxRow → Result Fault OutboxRow
required e none = throws e
required e (some r) = ok r

-- The recall of an actual forward card whose row has a policy.
unfoldable pub recall_input : Bool → Text → ℕ → OutboxRow → Option Input
recall_input false message_id sent_at row = none
recall_input true message_id sent_at row =
    if same row.kind (codes "forward")
    then elim row.auto_recall_after_ms [
      | none ↦ none
      | some after_ms ↦ elim row.auto_recall_deadline_ms [
        | none ↦ none
        | some deadline_ms ↦ some (record {
          outbox_id = some row.id;
          group_id = row.group_id;
          platform_message_id = message_id;
          sent_at_ms = sent_at;
          policy = record { after_ms = after_ms; deadline_ms = deadline_ms };
        })
      ]
    ]
    else none

unfoldable pub insert_recall : Option Input → ℕ → Recalls → Result Fault Recalls
insert_recall none clock s = ok s
insert_recall (some input) clock s = do
  inserted ← insert_message_recall input clock s
  ok inserted.1

abbrev pub acked_row : Text → ℕ → OutboxRow → OutboxRow
acked_row message_id sent_at row = record row {
  platform_message_id = some message_id;
  sent_at = some sent_at;
}

-- The UPDATE of the outbox and the INSERT of the bot message.
unfoldable pub acked : Text → ℕ → ℕ → OutboxRow → Recalls → Ledger → Ledger
unfolding record_bot_message
acked message_id sent_at sent_at_ms row recalls s = record s {
  outbox = update_id row.id (ack_row message_id sent_at sent_at_ms) s.outbox;
  bot_messages = record_bot_message row.group_id message_id sent_at s.bot_messages;
  recalls = recalls;
}

-- The transaction of `ackOutboxDelivery` behind the checks on its row.
unfoldable pub ack_checked : Text → ℕ → Bool → ℕ → OutboxRow → Ledger → Result Fault Ledger
unfolding recall_input insert_recall acked sync_outbox_conversation_context
ack_checked message_id sent_at_ms actual_forward clock row s = do
  let sent_at = coalesce row.sent_at sent_at_ms
  recalls ← insert_recall (recall_input actual_forward message_id sent_at row) clock s.recalls
  sync_outbox_conversation_context (acked_row message_id sent_at row) sent_at
      (acked message_id sent_at sent_at_ms row recalls s)

-- `clock` is the `Date.now()` that the recall's row is stamped with.
unfoldable pub ack_outbox_delivery : ℕ → Text → ℕ → Bool → ℕ → Ledger → Result Fault Ledger
unfolding ack_checked
ack_outbox_delivery id platform_message_id sent_at_ms actual_forward clock s = do
  let message_id = trim platform_message_id
  throw_if (is_empty message_id) empty_message_id
  row ← required missing_outbox_row (row_by_id id s.outbox)
  throw_if (is_other row.platform_message_id message_id) other_message_id
  ack_checked message_id sent_at_ms actual_forward clock row s

-- /^outbox:(\d+)$/ is tried if no row has the delivery id.
unfoldable pub find_outbox_by_delivery_id : Text → Outbox → Option OutboxRow
find_outbox_by_delivery_id delivery_id s =
    elim (find (λ r. elim r.delivery_id [ none ↦ false | some d ↦ same d delivery_id ]) s.rows) [
      | some r ↦ some r
      | none ↦ elim (outbox_number delivery_id) [ none ↦ none | some id ↦ row_by_id id s ]
    ]

unfoldable pub attached : Context → ℕ → OutboxRow → Ledger → Ledger
attached c clock row s = record s {
  outbox = update_id row.id (attach_row (delivery_id_of row.id) c clock) s.outbox;
}

-- `attachOneOutboxContext`; `clock` is `Date.now()`.
unfoldable pub attach_one_outbox_context : Context → ℕ → Text → Ledger → Result Fault Ledger
unfolding find_outbox_by_delivery_id attached sync_outbox_conversation_context
attach_one_outbox_context c clock delivery_id s = do
  row ← required missing_outbox_row (find_outbox_by_delivery_id delivery_id s.outbox)
  throw_if
      (is_other row.topic_id c.topic_id
        || (is_other row.branch_id c.branch_id || is_other_turn row.turn_id c.turn_id))
      other_route
  throw_if
      (is_other row.delivery_id delivery_id && is_other row.delivery_id (delivery_id_of row.id))
      other_delivery_id
  let attached_row = attach_row (delivery_id_of row.id) c clock row
  sync_outbox_conversation_context attached_row (coalesce attached_row.sent_at clock)
      (attached c clock row s)

unfoldable pub attach_each : Context → ℕ → List Text → Ledger → Result Fault Ledger
unfolding attach_one_outbox_context
attach_each c clock [] s = ok s
attach_each c clock (d ∷ ds) s = attach_one_outbox_context c clock d s >>= attach_each c clock ds

-- The ids trimmed, without empty ones and repetitions.
unfoldable pub normalized_ids : List Text → List Text
normalized_ids delivery_ids = distinct (filter (λ d. not (is_empty d)) (map trim delivery_ids))

unfoldable pub attach_normalized : Context → ℕ → List Text → Ledger → Result Fault Ledger
unfolding attach_each
attach_normalized c clock [] s = ok s
attach_normalized c clock (d ∷ ds) s = do
  throw_if (elim c.turn_id [ none ↦ true | some _ ↦ false ]) turn_required
  attach_each c clock (d ∷ ds) s

unfoldable pub attach_outbox_contexts : List Text → Context → ℕ → Ledger → Result Fault Ledger
unfolding normalized_ids attach_normalized
attach_outbox_contexts delivery_ids c clock s =
    attach_normalized c clock (normalized_ids delivery_ids) s
