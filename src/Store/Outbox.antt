-- ===== src/Store/Outbox.antt =====
-- The `outbox` table of src/shared/sqlite.ts: replies that workers enqueue and ingress sends.
pub mod Calls
pub mod Claims
pub mod Once
pub mod Attempts
pub mod Drafts
mod Tests
use ubot_ai_agent.Base.{
  ℕ, zero, suc, ◌+◌, ◌==◌, leb, ltb, max, if◌then◌else◌, Bool, true, false, ◌&&◌, ◌||◌, not, Option,
  none, some, List, [], ◌∷◌, ◌++◌, Text, same, same?, codes, trim, is_empty, distinct, coalesce,
  coalesce?, map, filter, find, any, count, length, take, Result, ok, throws, throw_if, ◌>>=◌, ◌>>◌,
}
use ubot_ai_agent.Base.Updates.{update}
use ubot_ai_agent.Base.Selection.{among}
use ubot_ai_agent.Store.Numbers.{
  Fault, Policy, normalize_outbox_auto_recall_policy, delivery_id_of, parse_outbox_delivery_id,
}

pub data Status : Type 0 where
  preparing pending sending sent failed : Status

abbrev pub is_preparing : Status → Bool
is_preparing preparing = true
is_preparing _ = false

abbrev pub is_pending : Status → Bool
is_pending pending = true
is_pending _ = false

abbrev pub is_sending : Status → Bool
is_sending sending = true
is_sending _ = false

abbrev pub is_failed : Status → Bool
is_failed failed = true
is_failed _ = false

pub record OutboxRow : Type 0 where
  pub id : ℕ
  pub group_id : Text
  pub reply_to : Option Text
  pub kind : Text
  pub text : Text
  pub forward_payload_json : Option Text
  pub auto_recall_after_ms : Option ℕ
  pub auto_recall_deadline_ms : Option ℕ
  pub status : Status
  pub retry_after : Option ℕ
  pub attempts : ℕ
  pub topic_id : Option Text
  pub branch_id : Option Text
  pub source_turn_id : Option ℕ
  pub turn_id : Option ℕ
  pub delivery_id : Option Text
  pub platform_message_id : Option Text
  pub sent_at : Option ℕ
  pub updated_at : Option ℕ
  pub created_at : ℕ

-- OutboxContext
pub record Context : Type 0 where
  pub topic_id : Text
  pub branch_id : Text
  pub source_turn_id : Option ℕ
  pub turn_id : Option ℕ

pub record Outbox : Type 0 where
  pub rows : List OutboxRow
  pub sequence : ℕ

pub empty : Outbox
empty = record { rows = []; sequence = 0 }

-- `UPDATE outbox SET … WHERE id = ?`
abbrev pub update_id : ℕ → (OutboxRow → OutboxRow) → Outbox → Outbox
update_id id f s = record s { rows = update (λ r. r.id == id) f s.rows }

-- The arguments of `enqueueOutbox`.
pub record Reply : Type 0 where
  pub group_id : Text
  pub reply_to : Option Text
  pub text : Text
  pub kind : Text
  pub context : Option Context
  pub forward_payload_json : Option Text
  pub auto_recall : Option Policy

-- A reply with a context but no persisted turn is a draft.
pub first_status : Option Context → Status
first_status none = pending
first_status (some c) = elim c.turn_id [ none ↦ preparing | some _ ↦ pending ]

abbrev from_context {ℓ} : {A : Type ℓ} → (Context → Option A) → Option Context → Option A
from_context f none = none
from_context f (some c) = f c

abbrev from_policy : (Policy → ℕ) → Option Policy → Option ℕ
from_policy f none = none
from_policy f (some p) = some (f p)

pub row_of : ℕ → ℕ → Option Policy → Reply → OutboxRow
unfolding first_status delivery_id_of
row_of id now policy r = record {
  id = id;
  group_id = r.group_id;
  reply_to = r.reply_to;
  kind = r.kind;
  text = r.text;
  forward_payload_json = r.forward_payload_json;
  auto_recall_after_ms = from_policy (λ p. p.after_ms) policy;
  auto_recall_deadline_ms = from_policy (λ p. p.deadline_ms) policy;
  status = first_status r.context;
  retry_after = none;
  attempts = 0;
  topic_id = from_context (λ c. some c.topic_id) r.context;
  branch_id = from_context (λ c. some c.branch_id) r.context;
  source_turn_id = from_context (λ c. c.source_turn_id) r.context;
  turn_id = from_context (λ c. c.turn_id) r.context;
  delivery_id = some (delivery_id_of id);
  platform_message_id = none;
  sent_at = none;
  updated_at = none;
  created_at = now;
}

pub enqueue_outbox : Reply → ℕ → Outbox → Result Fault (ℕ × Outbox)
unfolding normalize_outbox_auto_recall_policy row_of
enqueue_outbox r now s = do
  policy ← normalize_outbox_auto_recall_policy r.auto_recall
  let id = suc s.sequence
  ok (id, record { rows = s.rows ++ row_of id now policy r ∷ []; sequence = id })

-- The WHERE clause of `recoverStaleSendingOutbox`: `updated_at <= now - max(1000, stale)`, where the
-- difference may be negative.
pub is_stale : ℕ → ℕ → OutboxRow → Bool
is_stale now stale r =
    is_sending r.status
    && elim r.updated_at [ none ↦ false | some at ↦ leb (at + max 1000 stale) now ]

pub give_up : ℕ → OutboxRow → OutboxRow
give_up now r = record r { status = failed; retry_after = none; updated_at = some now }

-- `staleAfterMs` is 60_000 by default. The number is that of the rows changed.
pub recover_stale_sending_outbox : ℕ → ℕ → Outbox → ℕ × Outbox
unfolding is_stale give_up
recover_stale_sending_outbox now stale s = (
  count (is_stale now stale) s.rows,
  record s { rows = update (is_stale now stale) (give_up now) s.rows },
)

-- Rows that may be sent: pending, or failed with a retry that is due.
pub is_claimable : ℕ → OutboxRow → Bool
is_claimable now r =
    is_pending r.status
    || (is_failed r.status && elim r.retry_after [ none ↦ false | some at ↦ leb at now ])

pub claim_row : ℕ → OutboxRow → OutboxRow
claim_row now r = record r { status = sending; updated_at = some now; attempts = r.attempts + 1 }

-- The transaction of `claimOutbox`. With no candidate the UPDATE and the SELECT match no row.
pub claim_pending : ℕ → ℕ → Outbox → List OutboxRow × Outbox
unfolding is_claimable claim_row
claim_pending limit now s =
    let ids = map (λ r. r.id) (take limit (filter (is_claimable now) s.rows)) in
    let rows = update (λ r. among ids r.id && is_claimable now r) (claim_row now) s.rows in
    (filter (λ r. among ids r.id && is_sending r.status) rows, record s { rows = rows })

pub claim_outbox : ℕ → ℕ → Outbox → List OutboxRow × Outbox
unfolding recover_stale_sending_outbox claim_pending
claim_outbox limit now s = claim_pending limit now (recover_stale_sending_outbox now 60000 s).1

pub sent_row : ℕ → OutboxRow → OutboxRow
sent_row now r = record r {
  status = sent;
  retry_after = none;
  sent_at = some (coalesce r.sent_at now);
  updated_at = some now;
}

pub mark_outbox_sent : ℕ → ℕ → Outbox → Outbox
unfolding sent_row
mark_outbox_sent id now = update_id id (sent_row now)

-- MAX_OUTBOX_DELIVERY_ATTEMPTS
abbrev pub max_delivery_attempts : ℕ
max_delivery_attempts = 3

pub retry_row : ℕ → ℕ → OutboxRow → OutboxRow
retry_row retry_after now r = record r {
  status = failed;
  retry_after =
      if leb max_delivery_attempts r.attempts then none else some (now + max 1000 retry_after);
  updated_at = some now;
}

-- `retryAfterMs` is null or a number; it is 2_000 by default.
pub mark_outbox_failed : ℕ → Option ℕ → ℕ → Outbox → Outbox
unfolding give_up retry_row
mark_outbox_failed id none now s = update_id id (give_up now) s
mark_outbox_failed id (some after) now s = update_id id (retry_row after now) s

-- The UPDATE of `ackOutboxDelivery`.
unfoldable pub ack_row : Text → ℕ → ℕ → OutboxRow → OutboxRow
ack_row message_id sent_at now r = record r {
  status = sent;
  retry_after = none;
  platform_message_id = some message_id;
  sent_at = some sent_at;
  updated_at = some now;
}

unfoldable pub released : Status → Status
released preparing = pending
released s = s

-- The UPDATE of `attachOneOutboxContext`: a draft becomes visible to the sender.
unfoldable pub attach_row : Text → Context → ℕ → OutboxRow → OutboxRow
unfolding released
attach_row delivery_id c now r = record r {
  delivery_id = some (coalesce r.delivery_id delivery_id);
  topic_id = some (coalesce r.topic_id c.topic_id);
  branch_id = some (coalesce r.branch_id c.branch_id);
  turn_id = coalesce? r.turn_id c.turn_id;
  status = released r.status;
  updated_at = some now;
}

abbrev pub parsed_ids : List Text → List ℕ
parsed_ids [] = []
parsed_ids (t ∷ ts) = elim (parse_outbox_delivery_id t) [
  | none ↦ parsed_ids ts
  | some id ↦ id ∷ parsed_ids ts
]

-- The rows deleted, and the table without them. Repeated ids do not change `id IN (…)`.
pub discard_preparing_outbox : List Text → Outbox → ℕ × Outbox
discard_preparing_outbox delivery_ids s =
    let ids = parsed_ids delivery_ids in
    let draft = λ (r : OutboxRow). among ids r.id && is_preparing r.status in
    (count draft s.rows, record s { rows = filter (λ r. not (draft r)) s.rows })

pub is_draft_of : Text → Text → ℕ → OutboxRow → Bool
is_draft_of topic_id branch_id source_turn_id r =
    is_preparing r.status
    && same? r.topic_id (some topic_id)
    && same? r.branch_id (some branch_id)
    && elim r.source_turn_id [ none ↦ false | some id ↦ id == source_turn_id ]

pub discard_preparing_outbox_for_source : Text → Text → ℕ → Outbox → ℕ × Outbox
unfolding is_draft_of
discard_preparing_outbox_for_source topic_id branch_id source_turn_id s =
    let draft = is_draft_of topic_id branch_id source_turn_id in
    (count draft s.rows, record s { rows = filter (λ r. not (draft r)) s.rows })
