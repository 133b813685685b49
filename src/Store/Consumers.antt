-- ===== src/Store/Consumers.antt =====
-- The `consumers` and `consumer_completed_messages` tables of src/shared/sqlite.ts: which messages a
-- worker has still to process.
pub mod Walk
pub mod Completion
pub mod Order
pub mod Watermark
pub mod Recheck
mod Tests
use ubot_ai_agent.Base.{
  ℕ, zero, suc, ◌==◌, leb, ltb, max, if◌then◌else◌, Bool, true, false, ◌&&◌, ◌||◌, not, Option,
  none, some, List, [], ◌∷◌, ◌++◌, Text, same, coalesce, map, filter, find, any, length, take,
}
use ubot_ai_agent.Base.Updates.{update}
use ubot_ai_agent.Store.Messages.{MessageRow}

pub record ConsumerRow : Type 0 where
  pub key : Text
  pub watermark_id : ℕ

pub record CompletedRow : Type 0 where
  pub consumer_key : Text
  pub message_id : ℕ
  pub completed_at : ℕ

-- A row of `conversation_message_routes`, as far as polling reads it.
pub record RouteRow : Type 0 where
  pub source_row_id : ℕ
  pub topic_id : Text
  pub branch_id : Text
  pub route_reason : Text

-- `cutover` is the value of 'cutover_message_id' in `conversation_context_meta`.
pub record Queue : Type 0 where
  pub messages : List MessageRow
  pub consumers : List ConsumerRow
  pub completed : List CompletedRow
  pub routes : List RouteRow
  pub cutover : Option ℕ

unfoldable pub watermark_in : Text → List ConsumerRow → Option ℕ
watermark_in key [] = none
watermark_in key (c ∷ cs) = if same c.key key then some c.watermark_id else watermark_in key cs

-- INSERT OR IGNORE INTO consumers (key, watermark_id) VALUES (?, 0)
unfoldable pub with_consumer : Text → List ConsumerRow → List ConsumerRow
with_consumer key cs =
    if any (λ c. same c.key key) cs then cs else cs ++ record { key = key; watermark_id = 0 } ∷ []

unfoldable pub ensure_consumer : Text → Queue → Queue
unfolding with_consumer
ensure_consumer key q = record q { consumers = with_consumer key q.consumers }

unfoldable pub is_row : Text → ℕ → CompletedRow → Bool
is_row key id r = same r.consumer_key key && r.message_id == id

unfoldable pub is_consumer_message_completed : Text → ℕ → Queue → Bool
unfolding is_row
is_consumer_message_completed key id q = any (is_row key id) q.completed

-- The boundary of polling: MAX(watermark_id, COALESCE(cutover, 0)).
unfoldable pub boundary : Queue → ℕ → ℕ
boundary q watermark = max watermark (coalesce q.cutover 0)

-- The messages that `pollMessages` selects, with no limit.
unfoldable pub pending : Text → Queue → List MessageRow
unfolding watermark_in boundary
pending key q = elim (watermark_in key q.consumers) [
  | none ↦ []
  | some w ↦
      filter (λ m. ltb (boundary q w) m.id && not (is_consumer_message_completed key m.id q))
        q.messages
]

-- The LEFT JOIN, whose right side has at most one row for a message.
unfoldable pub route_of : Queue → MessageRow → MessageRow × Option RouteRow
route_of q m = (m, find (λ r. r.source_row_id == m.id) q.routes)

unfoldable pub poll_messages : Text → ℕ → Queue → List (MessageRow × Option RouteRow) × Queue
unfolding pending route_of
poll_messages key limit q =
    let q' = ensure_consumer key q in (map (route_of q') (take limit (pending key q')), q')

unfoldable pub set_watermark : Text → ℕ → List ConsumerRow → List ConsumerRow
set_watermark key w = update (λ c. same c.key key) (λ c. record c { watermark_id = w })

pub advance_watermark : Text → ℕ → Queue → Queue
advance_watermark key id q = record q {
  consumers =
      update (λ c. same c.key key) (λ c. record c { watermark_id = max c.watermark_id id })
        q.consumers;
}

-- SELECT id FROM messages WHERE id > ? ORDER BY id ASC LIMIT 1
unfoldable pub next_message : ℕ → List MessageRow → Option MessageRow
next_message w = find (λ m. ltb w m.id)

-- The `while (true)` of `completeConsumerMessage`, on fuel: one round for each message at most.
unfoldable pub walk : ℕ → (ℕ → Bool) → List MessageRow → ℕ → ℕ
walk zero done ms w = w
walk (suc fuel) done ms w = elim (next_message w ms) [
  | none ↦ w
  | some m ↦ elim (done m.id) [ true ↦ walk fuel done ms m.id | false ↦ w ]
]

-- INSERT OR IGNORE INTO consumer_completed_messages
unfoldable pub with_completed : Text → ℕ → ℕ → List CompletedRow → List CompletedRow
unfolding is_row
with_completed key id now rows =
    if any (is_row key id) rows
    then rows
    else rows ++ record { consumer_key = key; message_id = id; completed_at = now } ∷ []

unfoldable pub insert_completed : Text → ℕ → ℕ → Queue → Queue
unfolding with_completed
insert_completed key id now q = record q { completed = with_completed key id now q.completed }

-- The watermark that `completeConsumerMessage` stores.
unfoldable pub walked : Text → Queue → ℕ
unfolding walk boundary watermark_in
walked key q =
    walk (suc (length q.messages)) (λ id. is_consumer_message_completed key id q) q.messages
      (boundary q (coalesce (watermark_in key q.consumers) 0))

-- The last two statements: the new watermark, and the completed rows that it covers go.
unfoldable pub store_watermark : Text → ℕ → Queue → Queue
unfolding set_watermark
store_watermark key w q = record q {
  consumers = set_watermark key w q.consumers;
  completed = filter (λ r. not (same r.consumer_key key && leb r.message_id w)) q.completed;
}

unfoldable pub complete_consumer_message : Text → ℕ → ℕ → Queue → Queue
unfolding ensure_consumer insert_completed walked store_watermark
complete_consumer_message key id now q =
    let q' = insert_completed key id now (ensure_consumer key q) in
    store_watermark key (walked key q') q'

pub max_id : List MessageRow → ℕ
max_id [] = 0
max_id (m ∷ ms) = max m.id (max_id ms)

pub reset_consumers : Text → List MessageRow → List ConsumerRow → List ConsumerRow
unfolding watermark_in max_id set_watermark
reset_consumers key ms cs = elim (watermark_in key cs) [
  | none ↦ cs
  | some w ↦ if ltb (max_id ms) w then set_watermark key 0 cs else cs
]

pub reset_watermark_if_stale : Text → Queue → Queue
unfolding reset_consumers
reset_watermark_if_stale key q = record q { consumers = reset_consumers key q.messages q.consumers }

-- Several messages completed one after another, each at its time.
pub complete_all : Text → List (ℕ × ℕ) → Queue → Queue
unfolding complete_consumer_message
complete_all key [] q = q
complete_all key ((id, now) ∷ rest) q =
    complete_all key rest (complete_consumer_message key id now q)
