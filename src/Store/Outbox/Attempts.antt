-- ===== src/Store/Outbox/Attempts.antt =====
-- A reply is tried at most three times, whatever the calls and their order.
use ubot_ai_agent.Base.{
  ℕ, suc, ◌≤◌, ◌<◌, ◌==◌, Bool, true, ◌&&◌, Option, none, some, List, [], ◌∷◌, ◌≡◌, ◌⊎◌, inl, inr,
  refl, Text, Result-cases, All, All-filter, All-append, arith,
}
use ubot_ai_agent.Base.Updates.{update, All-update}
use ubot_ai_agent.Store.Numbers.{Policy, normalize_outbox_auto_recall_policy}
use ubot_ai_agent.Store.Outbox.{
  empty, preparing, pending, sending, sent, failed, released, max_delivery_attempts, OutboxRow,
  Outbox, Reply, Context, row_of, enqueue_outbox, is_claimable, claim_row, claim_pending, is_stale,
  claim_outbox, recover_stale_sending_outbox, mark_outbox_sent, mark_outbox_failed, ack_row,
  attach_row, discard_preparing_outbox, discard_preparing_outbox_for_source, retry_row, give_up,
  sent_row,
}
use ubot_ai_agent.Store.Outbox.Calls.{
  Call, enqueues, claims, recovers, marks_sent, marks_failed, acks, attaches, discards,
  discards_source, step, run,
}

-- A row that may still be claimed has an attempt left.
abbrev pub IsWithinBudget : OutboxRow → Type 0
IsWithinBudget r = (r.attempts ≤ max_delivery_attempts) × elim r.status [
  | preparing ↦ r.attempts < max_delivery_attempts
  | pending ↦ r.attempts < max_delivery_attempts
  | sending ↦ Unit
  | sent ↦ Unit
  | failed ↦ (r.retry_after ≡ none) ⊎ (r.attempts < max_delivery_attempts)
]

abbrev pub AreWithinBudget : Outbox → Type 0
AreWithinBudget s = All IsWithinBudget s.rows

update-Budget :
    (p : OutboxRow → Bool) (f : OutboxRow → OutboxRow) (rs : List OutboxRow)
    → ((r : OutboxRow) → p r ≡ true → IsWithinBudget r → IsWithinBudget (f r))
    → All IsWithinBudget rs
    → All IsWithinBudget (update p f rs)
update-Budget p f rs h v = All-update p f IsWithinBudget IsWithinBudget h (λ r e b. b) rs v

claim_row-Budget :
    (now : ℕ) (r : OutboxRow) (b : Bool)
    → (b && is_claimable now r) ≡ true
    → IsWithinBudget r
    → IsWithinBudget (claim_row now r)
unfolding is_claimable claim_row
claim_row-Budget now r b e v = (ground arith, tt)

retry_row-Budget :
    (ms now : ℕ) (r : OutboxRow) → IsWithinBudget r → IsWithinBudget (retry_row ms now r)
unfolding retry_row
retry_row-Budget ms now r v = (v.0, ground arith)

give_up-Budget : (now : ℕ) (r : OutboxRow) → IsWithinBudget r → IsWithinBudget (give_up now r)
unfolding give_up
give_up-Budget now r b = (b.0, inl refl)

ack_row-Budget :
    (m : Text) (sent_at now : ℕ) (r : OutboxRow)
    → IsWithinBudget r
    → IsWithinBudget (ack_row m sent_at now r)
unfolding ack_row
ack_row-Budget m sent_at now r b = (b.0, tt)

attach_row-Budget :
    (d : Text) (c : Context) (now : ℕ) (r : OutboxRow)
    → IsWithinBudget r
    → IsWithinBudget (attach_row d c now r)
unfolding attach_row released
attach_row-Budget d c now r b = ground arith

row_of-Budget : (id now : ℕ) (p : Option Policy) (r : Reply) → IsWithinBudget (row_of id now p r)
unfolding row_of
row_of-Budget id now p r = ground arith

step-Budget : (c : Call) (s : Outbox) → AreWithinBudget s → AreWithinBudget (step c s)
unfolding step enqueue_outbox claim_outbox recover_stale_sending_outbox claim_pending
    mark_outbox_sent mark_outbox_failed discard_preparing_outbox discard_preparing_outbox_for_source
step-Budget (enqueues r now) s v =
    elim (Result-cases (normalize_outbox_auto_recall_policy r.auto_recall)) [
      | inl (p, e) ↦
          rw (e, enqueue_outbox)
            (All-append IsWithinBudget s.rows _ v (row_of-Budget (suc s.sequence) now p r, tt))
      | inr (f, e) ↦ rw (e, enqueue_outbox) v
    ]
step-Budget (claims limit now) s v =
    update-Budget _ (claim_row now) _ (λ r e b. claim_row-Budget now r _ e b)
      (update-Budget (is_stale now 60000) (give_up now) s.rows (λ r e b. give_up-Budget now r b) v)
step-Budget (recovers now stale) s v =
    update-Budget (is_stale now stale) (give_up now) s.rows (λ r e b. give_up-Budget now r b) v
step-Budget (marks_sent id now) s v =
    update-Budget (λ r. r.id == id) (sent_row now) s.rows (λ r e b. (b.0, tt)) v
step-Budget (marks_failed id none now) s v =
    update-Budget (λ r. r.id == id) (give_up now) s.rows (λ r e b. give_up-Budget now r b) v
step-Budget (marks_failed id (some ms) now) s v =
    update-Budget (λ r. r.id == id) (retry_row ms now) s.rows (λ r e b. retry_row-Budget ms now r b)
      v
step-Budget (acks id m sent_at now) s v =
    update-Budget (λ r. r.id == id) (ack_row m sent_at now) s.rows
      (λ r e b. ack_row-Budget m sent_at now r b) v
step-Budget (attaches id d x now) s v =
    update-Budget (λ r. r.id == id) (attach_row d x now) s.rows
      (λ r e b. attach_row-Budget d x now r b) v
step-Budget (discards ts) s v = All-filter IsWithinBudget IsWithinBudget _ (λ r e b. b) s.rows v
step-Budget (discards_source t b n) s v =
    All-filter IsWithinBudget IsWithinBudget _ (λ r e b. b) s.rows v

run-Budget : (cs : List Call) (s : Outbox) → AreWithinBudget s → AreWithinBudget (run cs s)
unfolding run
run-Budget [] s v = v
run-Budget (c ∷ cs) s v = run-Budget cs (step c s) (step-Budget c s v)

-- From an empty table no sequence of calls brings a row above three attempts, and a row that waits
-- to be sent, as a draft, pending or failed with a retry, has had fewer.
pub run-IsWithinBudget : (cs : List Call) → AreWithinBudget (run cs empty)
unfolding empty
run-IsWithinBudget cs = run-Budget cs empty tt
