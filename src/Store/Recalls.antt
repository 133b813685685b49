-- ===== src/Store/Recalls.antt =====
-- The `message_recalls` table of src/shared/sqlite.ts: bot messages that are to be taken back.
pub mod Insertion
pub mod Calls
pub mod Table
pub mod Invariant
pub mod Window
pub mod Over
pub mod Finality
mod Tests
use ubot_ai_agent.Base.{
  ℕ, zero, suc, ◌+◌, ◌==◌, leb, ltb, max, if◌then◌else◌, Bool, true, false, ◌&&◌, ◌||◌, not, Option,
  none, some, List, [], ◌∷◌, ◌++◌, Text, same, trim, is_empty, coalesce, coalesce?, map, filter,
  find, any, count, length, take, Result, ok, throws, throw_if, ◌>>=◌, ◌>>◌,
}
use ubot_ai_agent.Base.Updates.{update}
use ubot_ai_agent.Base.Selection.{among}
use ubot_ai_agent.Store.Numbers.{
  Fault, Policy, normalize_policy, normalize_epoch_ms, add_epoch_ms,
  normalize_non_negative_duration_ms, recall_not_stored, empty_group_id, empty_message_id,
  recall_conflict, bad_status,
}

-- MessageRecallStatus
pub data RecallStatus : Type 0 where
  pending sending recalled rejected outcome_unknown expired unsupported not_sent_expired :
      RecallStatus

abbrev pub is_pending : RecallStatus → Bool
is_pending pending = true
is_pending _ = false

abbrev pub is_sending : RecallStatus → Bool
is_sending sending = true
is_sending _ = false

abbrev pub is_recalled : RecallStatus → Bool
is_recalled recalled = true
is_recalled _ = false

-- TERMINAL_MESSAGE_RECALL_STATUSES.has
abbrev pub is_terminal : RecallStatus → Bool
is_terminal pending = false
is_terminal sending = false
is_terminal _ = true

-- MessageRecallRow
pub record RecallRow : Type 0 where
  pub id : ℕ
  pub outbox_id : Option ℕ
  pub group_id : Text
  pub platform_message_id : Text
  pub sent_at : ℕ
  pub due_at : ℕ
  pub deadline_at : ℕ
  pub status : RecallStatus
  pub attempts : ℕ
  pub claimed_at : Option ℕ
  pub completed_at : Option ℕ
  pub created_at : ℕ
  pub updated_at : ℕ

pub record Recalls : Type 0 where
  pub rows : List RecallRow
  pub sequence : ℕ

pub empty : Recalls
empty = record { rows = []; sequence = 0 }

-- SET status = ?, completed_at = COALESCE(completed_at, ?), updated_at = ?
pub close_row : RecallStatus → ℕ → RecallRow → RecallRow
close_row status now r = record r {
  status = status;
  completed_at = some (coalesce r.completed_at now);
  updated_at = now;
}

pub is_overdue : ℕ → RecallRow → Bool
is_overdue now r = is_pending r.status && ltb r.deadline_at now

pub expire_in_transaction : ℕ → Recalls → ℕ × Recalls
unfolding is_overdue close_row
expire_in_transaction now s = (
  count (is_overdue now) s.rows,
  record s { rows = update (is_overdue now) (close_row expired now) s.rows },
)

pub expire_message_recalls : ℕ → Recalls → Result Fault (ℕ × Recalls)
unfolding expire_in_transaction
expire_message_recalls now_ms s = do
  now ← normalize_epoch_ms now_ms
  ok (expire_in_transaction now s)

-- ORDER BY due_at ASC, id ASC
pub is_before : RecallRow → RecallRow → Bool
is_before a b = ltb a.due_at b.due_at || (a.due_at == b.due_at && leb a.id b.id)

pub insert_by_due : RecallRow → List RecallRow → List RecallRow
unfolding is_before
insert_by_due r [] = r ∷ []
insert_by_due r (x ∷ xs) =
    let rest = insert_by_due r xs in if is_before r x then r ∷ x ∷ xs else x ∷ rest

pub sort_by_due : List RecallRow → List RecallRow
unfolding insert_by_due
sort_by_due [] = []
sort_by_due (r ∷ rs) = insert_by_due r (sort_by_due rs)

pub is_due : ℕ → RecallRow → Bool
is_due now r = is_pending r.status && (leb r.due_at now && leb now r.deadline_at)

pub claim_row : ℕ → RecallRow → RecallRow
claim_row now r = record r {
  status = sending;
  attempts = r.attempts + 1;
  claimed_at = some now;
  updated_at = now;
}

-- The ids that the SELECT of `claimDueMessageRecalls` finds.
pub due_ids : ℕ → ℕ → List RecallRow → List ℕ
unfolding sort_by_due is_due
due_ids limit now rows = map (λ r. r.id) (take limit (sort_by_due (filter (is_due now) rows)))

-- The transaction of `claimDueMessageRecalls`. With no candidate the UPDATE matches no row.
pub claim_due : ℕ → ℕ → Recalls → List RecallRow × Recalls
unfolding expire_in_transaction due_ids claim_row
claim_due limit now s =
    let t = (expire_in_transaction now s).1 in
    let ids = due_ids limit now t.rows in
    let rows = update (λ r. among ids r.id && is_due now r) (claim_row now) t.rows in
    (
      sort_by_due (filter (λ r. among ids r.id && is_sending r.status) rows),
      record t { rows = rows },
    )

pub claim_due_message_recalls : ℕ → ℕ → Recalls → Result Fault (List RecallRow × Recalls)
unfolding claim_due
claim_due_message_recalls limit now_ms s =
    if limit == 0
    then ok ([], s)
    else do now ← normalize_epoch_ms now_ms; ok (claim_due limit now s)

-- `claimed_at <= now - stale`, where the difference may be negative.
pub is_abandoned : ℕ → ℕ → RecallRow → Bool
is_abandoned now stale r =
    is_sending r.status && elim r.claimed_at [ none ↦ true | some at ↦ leb (at + stale) now ]

-- `staleAfterMs` is 30_000 by default.
pub recover_stale_sending_message_recalls : ℕ → ℕ → Recalls → Result Fault (ℕ × Recalls)
unfolding is_abandoned close_row
recover_stale_sending_message_recalls now_ms stale_after_ms s = do
  now ← normalize_epoch_ms now_ms
  stale ← normalize_non_negative_duration_ms stale_after_ms
  ok (
    count (is_abandoned now stale) s.rows,
    record s { rows = update (is_abandoned now stale) (close_row outcome_unknown now) s.rows },
  )

abbrev pub in_flight : ℕ → RecallRow → Bool
in_flight id r = r.id == id && is_sending r.status

-- Whether exactly one row changed, and the table after the UPDATE.
pub terminalize : ℕ → RecallStatus → ℕ → Recalls → Bool × Recalls
unfolding close_row
terminalize id status now s = (
  count (in_flight id) s.rows == 1,
  record s { rows = update (in_flight id) (close_row status now) s.rows },
)

pub mark_message_recall_terminal : ℕ → RecallStatus → ℕ → Recalls → Result Fault (Bool × Recalls)
unfolding terminalize
mark_message_recall_terminal id status now_ms s = do
  throw_if (not (is_terminal status)) bad_status
  now ← normalize_epoch_ms now_ms
  ok (terminalize id status now s)

-- MAX_MESSAGE_RECALL_ATTEMPTS
abbrev pub max_recall_attempts : ℕ
max_recall_attempts = 2

pub get_message_recall : ℕ → Recalls → Option RecallRow
get_message_recall id s = find (λ r. r.id == id) s.rows

pub requeue_row : ℕ → ℕ → RecallRow → RecallRow
requeue_row retry_at now r = record r {
  status = pending;
  due_at = retry_at;
  claimed_at = none;
  updated_at = now;
}

-- The part of `rescheduleMessageRecallAfterNotSent` behind the lookup of its row.
pub reschedule_row : ℕ → ℕ → ℕ → RecallRow → Recalls → Bool × Recalls
unfolding terminalize requeue_row
reschedule_row id retry_at now r s =
    if ltb r.deadline_at now || ltb r.deadline_at retry_at
    then (false, (terminalize id expired now s).1)
    else if leb max_recall_attempts r.attempts
    then (false, (terminalize id not_sent_expired now s).1)
    else (
      count (in_flight id) s.rows == 1,
      record s { rows = update (in_flight id) (requeue_row retry_at now) s.rows },
    )

pub reschedule_found : ℕ → ℕ → ℕ → Option RecallRow → Recalls → Bool × Recalls
unfolding reschedule_row
reschedule_found id retry_at now none s = (false, s)
reschedule_found id retry_at now (some r) s =
    if is_sending r.status then reschedule_row id (max now retry_at) now r s else (false, s)

pub reschedule_message_recall_after_not_sent : ℕ → ℕ → ℕ → Recalls → Result Fault (Bool × Recalls)
unfolding reschedule_found get_message_recall
reschedule_message_recall_after_not_sent id retry_at_ms now_ms s = do
  now ← normalize_epoch_ms now_ms
  retry_at ← normalize_epoch_ms retry_at_ms
  ok (reschedule_found id retry_at now (get_message_recall id s) s)

abbrev pub is_message : Text → Text → RecallRow → Bool
is_message group_id message_id r = same r.group_id group_id && same r.platform_message_id message_id

-- Rows that a recall notice completes.
pub is_noticed : Text → Text → RecallRow → Bool
is_noticed group_id message_id r = is_message group_id message_id r && not (is_recalled r.status)

pub mark_message_recall_observed : Text → Text → ℕ → Recalls → Result Fault (ℕ × Recalls)
unfolding is_noticed close_row
mark_message_recall_observed group_id message_id now_ms s =
    let group = trim group_id in
    let message = trim message_id in
    if is_empty group || is_empty message then ok (0, s) else do
      now ← normalize_epoch_ms now_ms
      ok (
        count (is_noticed group message) s.rows,
        record s { rows = update (is_noticed group message) (close_row recalled now) s.rows },
      )

pub is_prunable : ℕ → RecallRow → Bool
is_prunable before r =
    is_terminal r.status && elim r.completed_at [ none ↦ false | some at ↦ ltb at before ]

pub prune_terminal_message_recalls : ℕ → Recalls → Result Fault (ℕ × Recalls)
unfolding is_prunable
prune_terminal_message_recalls before_ms s = do
  before ← normalize_epoch_ms before_ms
  ok (
    count (is_prunable before) s.rows,
    record s { rows = filter (λ r. not (is_prunable before r)) s.rows },
  )
