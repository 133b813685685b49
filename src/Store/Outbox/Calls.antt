-- ===== src/Store/Outbox/Calls.antt =====
-- The operations on the outbox as a sequence of calls, in any order.
use ubot_ai_agent.Base.{ℕ, Text, Option, List, [], ◌∷◌, Result, ok, throws}
use ubot_ai_agent.Store.Numbers.{Fault}
use ubot_ai_agent.Store.Outbox.{
  Context, Outbox, Reply, enqueue_outbox, claim_outbox, recover_stale_sending_outbox,
  mark_outbox_sent, mark_outbox_failed, ack_row, attach_row, update_id, discard_preparing_outbox,
  discard_preparing_outbox_for_source,
}

-- Each call with its arguments; the last number is the clock.
pub data Call : Type 0 where
  enqueues : Reply → ℕ → Call
  claims : (limit now : ℕ) → Call
  recovers : (now stale : ℕ) → Call
  marks_sent : (id now : ℕ) → Call
  marks_failed : (id : ℕ) → Option ℕ → (now : ℕ) → Call
  acks : (id : ℕ) → Text → (sent_at now : ℕ) → Call
  attaches : (id : ℕ) → Text → Context → (now : ℕ) → Call
  discards : List Text → Call
  discards_source : Text → Text → ℕ → Call

-- A call that throws leaves the table as it was.
abbrev pub after : Outbox → Result Fault (ℕ × Outbox) → Outbox
after s (ok (id, s')) = s'
after s (throws e) = s

unfoldable pub step : Call → Outbox → Outbox
step (enqueues r now) s = after s (enqueue_outbox r now s)
step (claims limit now) s = (claim_outbox limit now s).1
step (recovers now stale) s = (recover_stale_sending_outbox now stale s).1
step (marks_sent id now) s = mark_outbox_sent id now s
step (marks_failed id retry now) s = mark_outbox_failed id retry now s
step (acks id message_id sent_at now) s = update_id id (ack_row message_id sent_at now) s
step (attaches id delivery_id c now) s = update_id id (attach_row delivery_id c now) s
step (discards ids) s = (discard_preparing_outbox ids s).1
step (discards_source topic branch turn) s =
    (discard_preparing_outbox_for_source topic branch turn s).1

unfoldable pub run : List Call → Outbox → Outbox
unfolding step
run [] s = s
run (c ∷ cs) s = run cs (step c s)
