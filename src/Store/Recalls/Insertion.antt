-- ===== src/Store/Recalls/Insertion.antt =====
-- `insertMessageRecall` and `scheduleDirectMessageRecall` of src/shared/sqlite.ts.
use ubot_ai_agent.Base.{
  ℕ, suc, ◌==◌, if◌then◌else◌, Bool, true, false, ◌&&◌, ◌||◌, Option, none, some, [], ◌∷◌, ◌++◌,
  Text, trim, is_empty, coalesce, find, any, Result, ok, throws, throw_if, ◌>>=◌, ◌>>◌,
}
use ubot_ai_agent.Base.Updates.{update}
use ubot_ai_agent.Store.Numbers.{
  Fault, Policy, normalize_policy, normalize_epoch_ms, add_epoch_ms, recall_not_stored,
  recall_conflict, empty_group_id, empty_message_id,
}
use ubot_ai_agent.Store.Recalls.{RecallRow, Recalls, pending, is_message}

-- InsertMessageRecallInput
pub record Input : Type 0 where
  pub outbox_id : Option ℕ
  pub group_id : Text
  pub platform_message_id : Text
  pub sent_at_ms : ℕ
  pub policy : Policy

unfoldable pub new_row : ℕ → ℕ → Input → ℕ → ℕ → ℕ → RecallRow
new_row id clock input sent_at due_at deadline_at = record {
  id = id;
  outbox_id = input.outbox_id;
  group_id = input.group_id;
  platform_message_id = input.platform_message_id;
  sent_at = sent_at;
  due_at = due_at;
  deadline_at = deadline_at;
  status = pending;
  attempts = 0;
  claimed_at = none;
  completed_at = none;
  created_at = clock;
  updated_at = clock;
}

-- UNIQUE (outbox_id), where NULL equals nothing.
abbrev pub has_outbox_id : Option ℕ → RecallRow → Bool
has_outbox_id none r = false
has_outbox_id (some id) r = elim r.outbox_id [ none ↦ false | some other ↦ other == id ]

abbrev pub is_unlinked : RecallRow → Bool
is_unlinked r = elim r.outbox_id [ none ↦ true | some _ ↦ false ]

-- INSERT … ON CONFLICT DO NOTHING
unfoldable pub insert_new : ℕ → Input → ℕ → ℕ → ℕ → Recalls → Recalls
unfolding new_row
insert_new clock input sent_at due_at deadline_at s =
    if any
      (λ r.
        is_message input.group_id input.platform_message_id r || has_outbox_id input.outbox_id r)
      s.rows
    then s
    else record {
      rows = s.rows ++ new_row (suc s.sequence) clock input sent_at due_at deadline_at ∷ [];
      sequence = suc s.sequence;
    }

unfoldable pub link_row : ℕ → RecallRow → RecallRow
link_row id r = record r { outbox_id = some (coalesce r.outbox_id id) }

-- The UPDATE of `outbox_id`, which a second row with that id makes fail.
unfoldable pub link_outbox : Input → Recalls → Result Fault Recalls
unfolding link_row
link_outbox input s = elim input.outbox_id [
  | none ↦ ok s
  | some id ↦
      if any (λ r. is_message input.group_id input.platform_message_id r && is_unlinked r) s.rows
        && any (has_outbox_id (some id)) s.rows
      then throws recall_conflict
      else ok (record s {
        rows = update (is_message input.group_id input.platform_message_id) (link_row id) s.rows;
      })
]

unfoldable pub stored_row : Input → Recalls → Result Fault (RecallRow × Recalls)
stored_row input s = elim (find (is_message input.group_id input.platform_message_id) s.rows) [
  | none ↦ throws recall_not_stored
  | some r ↦ ok (r, s)
]

-- `clock` is the `Date.now()` of the call.
unfoldable pub insert_message_recall : Input → ℕ → Recalls → Result Fault (RecallRow × Recalls)
unfolding insert_new link_outbox stored_row
insert_message_recall input clock s = do
  policy ← normalize_policy input.policy
  sent_at ← normalize_epoch_ms input.sent_at_ms
  due_at ← add_epoch_ms sent_at policy.after_ms
  deadline_at ← add_epoch_ms sent_at policy.deadline_ms
  linked ← link_outbox input (insert_new clock input sent_at due_at deadline_at s)
  stored_row input linked

unfoldable pub schedule_direct_message_recall :
    Text → Text → Policy → ℕ → ℕ → Recalls → Result Fault (RecallRow × Recalls)
unfolding insert_message_recall
schedule_direct_message_recall group_id message_id policy sent_at_ms clock s = do
  let group = trim group_id
  let message = trim message_id
  throw_if (is_empty group) empty_group_id
  throw_if (is_empty message) empty_message_id
  normalized ← normalize_policy policy
  insert_message_recall
      (record {
        outbox_id = none;
        group_id = group;
        platform_message_id = message;
        sent_at_ms = sent_at_ms;
        policy = normalized;
      })
      clock s
