-- ===== src/Store/Recalls/Calls.antt =====
-- The operations on the recall table as a sequence of calls, in any order.
use ubot_ai_agent.Base.{ℕ, Text, List, [], ◌∷◌, Result, ok, throws}
use ubot_ai_agent.Store.Numbers.{Fault}
use ubot_ai_agent.Store.Recalls.{
  RecallStatus, Recalls, expire_message_recalls, claim_due_message_recalls,
  recover_stale_sending_message_recalls, mark_message_recall_terminal,
  reschedule_message_recall_after_not_sent, mark_message_recall_observed,
  prune_terminal_message_recalls,
}
use ubot_ai_agent.Store.Recalls.Insertion.{Input, insert_message_recall}

-- Each call with its arguments; the last number is the clock.
pub data Call : Type 0 where
  inserts : Input → (clock : ℕ) → Call
  expires : (now : ℕ) → Call
  claims : (limit now : ℕ) → Call
  recovers : (now stale : ℕ) → Call
  terminates : (id : ℕ) → RecallStatus → (now : ℕ) → Call
  reschedules : (id retry_at now : ℕ) → Call
  observes : (group message : Text) (now : ℕ) → Call
  prunes : (before : ℕ) → Call

-- A call that throws leaves the table as it was.
abbrev pub after : {A : Type 0} → Recalls → Result Fault (A × Recalls) → Recalls
after s (ok (_, s')) = s'
after s (throws e) = s

unfoldable pub step : Call → Recalls → Recalls
step (inserts input clock) s = after s (insert_message_recall input clock s)
step (expires now) s = after s (expire_message_recalls now s)
step (claims limit now) s = after s (claim_due_message_recalls limit now s)
step (recovers now stale) s = after s (recover_stale_sending_message_recalls now stale s)
step (terminates id status now) s = after s (mark_message_recall_terminal id status now s)
step (reschedules id retry_at now) s =
    after s (reschedule_message_recall_after_not_sent id retry_at now s)
step (observes group message now) s = after s (mark_message_recall_observed group message now s)
step (prunes before) s = after s (prune_terminal_message_recalls before s)

unfoldable pub run : List Call → Recalls → Recalls
unfolding step
run [] s = s
run (c ∷ cs) s = run cs (step c s)
