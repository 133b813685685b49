-- ===== src/Store/Recalls/Over.antt =====
-- Updates of the recall table that leave the rows whose recall is over.
use ubot_ai_agent.Base.{
  ℕ, ◌≤◌, leb, ltb, max, Bool, true, false, ◌&&◌, ◌||◌, Option, none, some, ◌≡◌, inl, inr, refl,
  sym, ◌∙◌, Text, All, arith, Bool-cases,
}
use ubot_ai_agent.Base.Updates.{update, All-update}
use ubot_ai_agent.Base.Selection.{among}
use ubot_ai_agent.Store.Recalls.{
  RecallStatus, pending, sending, expired, outcome_unknown, recalled, rejected, unsupported,
  not_sent_expired, is_pending, is_sending, max_recall_attempts, RecallRow, Recalls, close_row,
  is_overdue, expire_in_transaction, is_due, claim_row, due_ids, claim_due, is_abandoned, in_flight,
  terminalize, requeue_row, reschedule_row, reschedule_found, is_noticed,
}
use ubot_ai_agent.Store.Recalls.Table.{id_of}

-- The row passes the test, if it is the one with this id.
abbrev pub Stays : (RecallStatus → Bool) → ℕ → RecallRow → Type 0
Stays q id r = r.id ≡ id → q r.status ≡ true

-- The row's id has been given out, and the row passes the test if it is still there.
abbrev pub IsOver : (RecallStatus → Bool) → ℕ → Recalls → Type 0
IsOver q id s = (id ≤ s.sequence) × All (Stays q id) s.rows

-- A test on the status that no waiting row passes.
module _ (q : RecallStatus → Bool) (waiting : q pending ≡ false) (out : q sending ≡ false)
    (done : q recalled ≡ true) (id : ℕ) where
  pub update-IsOver :
      (p : RecallRow → Bool) (f : RecallRow → RecallRow) (s : Recalls)
      → ((r : RecallRow) → id_of (f r) ≡ id_of r)
      → ((r : RecallRow) → p r ≡ true → q r.status ≡ true → q (f r).status ≡ true)
      → IsOver q id s
      → IsOver q id (record s { rows = update p f s.rows })
  update-IsOver p f s keeps h (known, over) = (
    known,
    All-update p f (Stays q id) (Stays q id) (λ r e b i. h r e (b (sym (keeps r) ∙ i))) (λ r e b. b)
        s.rows over,
  )

  pub passes-not_pending : (st : RecallStatus) → q st ≡ true → is_pending st ≡ false
  passes-not_pending pending h = absurd (ground (arith, h, waiting))
  passes-not_pending sending h = refl
  passes-not_pending recalled h = refl
  passes-not_pending rejected h = refl
  passes-not_pending outcome_unknown h = refl
  passes-not_pending expired h = refl
  passes-not_pending unsupported h = refl
  passes-not_pending not_sent_expired h = refl

  pub passes-not_sending : (st : RecallStatus) → q st ≡ true → is_sending st ≡ false
  passes-not_sending sending h = absurd (ground (arith, h, out))
  passes-not_sending pending h = refl
  passes-not_sending recalled h = refl
  passes-not_sending rejected h = refl
  passes-not_sending outcome_unknown h = refl
  passes-not_sending expired h = refl
  passes-not_sending unsupported h = refl
  passes-not_sending not_sent_expired h = refl

  -- An update of pending rows only, or of rows being sent only.
  pub pending_only-IsOver :
      (p : RecallRow → Bool) (f : RecallRow → RecallRow) (s : Recalls)
      → ((r : RecallRow) → id_of (f r) ≡ id_of r)
      → ((r : RecallRow) → p r ≡ true → is_pending r.status ≡ true)
      → IsOver q id s
      → IsOver q id (record s { rows = update p f s.rows })
  pending_only-IsOver p f s keeps h v =
      update-IsOver p f s keeps
        (λ r e b. absurd (ground (arith, h r e, passes-not_pending r.status b))) v

  pub sending_only-IsOver :
      (p : RecallRow → Bool) (f : RecallRow → RecallRow) (s : Recalls)
      → ((r : RecallRow) → id_of (f r) ≡ id_of r)
      → ((r : RecallRow) → p r ≡ true → is_sending r.status ≡ true)
      → IsOver q id s
      → IsOver q id (record s { rows = update p f s.rows })
  sending_only-IsOver p f s keeps h v =
      update-IsOver p f s keeps
        (λ r e b. absurd (ground (arith, h r e, passes-not_sending r.status b))) v

  pub expire-IsOver :
      (now : ℕ) (s : Recalls) → IsOver q id s → IsOver q id (expire_in_transaction now s).1
  unfolding expire_in_transaction is_overdue close_row
  expire-IsOver now s v =
      pending_only-IsOver (is_overdue now) (close_row expired now) s (λ r. refl)
        (λ r e. ground arith) v

  pub claim_due-IsOver :
      (limit now : ℕ) (s : Recalls) → IsOver q id s → IsOver q id (claim_due limit now s).1
  unfolding claim_due is_due claim_row
  claim_due-IsOver limit now s v =
      let t = (expire_in_transaction now s).1 in
      pending_only-IsOver (λ r. among (due_ids limit now t.rows) r.id && is_due now r)
        (claim_row now) t (λ r. refl) (λ r e. ground arith) (expire-IsOver now s v)

  pub terminalize-IsOver :
      (n : ℕ) (status : RecallStatus) (now : ℕ) (s : Recalls)
      → IsOver q id s
      → IsOver q id (terminalize n status now s).1
  unfolding terminalize close_row
  terminalize-IsOver n status now s v =
      sending_only-IsOver (in_flight n) (close_row status now) s (λ r. refl) (λ r e. ground arith) v

  pub recover-IsOver :
      (now stale : ℕ) (s : Recalls)
      → IsOver q id s
      → IsOver q id (record s {
        rows = update (is_abandoned now stale) (close_row outcome_unknown now) s.rows;
      })
  unfolding is_abandoned close_row
  recover-IsOver now stale s v =
      sending_only-IsOver (is_abandoned now stale) (close_row outcome_unknown now) s (λ r. refl)
        (λ r e. ground arith) v

  pub requeue-IsOver :
      (n retry_at now : ℕ) (s : Recalls)
      → IsOver q id s
      → IsOver q id (record s { rows = update (in_flight n) (requeue_row retry_at now) s.rows })
  unfolding requeue_row
  requeue-IsOver n retry_at now s v =
      sending_only-IsOver (in_flight n) (requeue_row retry_at now) s (λ r. refl)
        (λ r e. ground arith) v

  pub reschedule_row-IsOver :
      (n retry_at now : ℕ) (r : RecallRow) (s : Recalls)
      → IsOver q id s
      → IsOver q id (reschedule_row n retry_at now r s).1
  unfolding reschedule_row
  reschedule_row-IsOver n retry_at now r s v =
      elim (Bool-cases (ltb r.deadline_at now || ltb r.deadline_at retry_at)) [
        | inl late ↦ rw (late, reschedule_row) (terminalize-IsOver n expired now s v)
        | inr due ↦
            rw (due, reschedule_row)
              (elim (Bool-cases (leb max_recall_attempts r.attempts)) [
                | inl spent ↦
                    rw (spent, reschedule_row) (terminalize-IsOver n not_sent_expired now s v)
                | inr left ↦ rw (left, reschedule_row) (requeue-IsOver n retry_at now s v)
              ])
      ]

  pub reschedule_found-IsOver :
      (n retry_at now : ℕ) (found : Option RecallRow) (s : Recalls)
      → IsOver q id s
      → IsOver q id (reschedule_found n retry_at now found s).1
  unfolding reschedule_found
  reschedule_found-IsOver n retry_at now none s v = v
  reschedule_found-IsOver n retry_at now (some r) s v = elim (Bool-cases (is_sending r.status)) [
    | inl e ↦ rw (e, reschedule_found) (reschedule_row-IsOver n (max now retry_at) now r s v)
    | inr e ↦ rw (e, reschedule_found) v
  ]

  pub observe-IsOver :
      (group message : Text) (now : ℕ) (s : Recalls)
      → IsOver q id s
      → (IsOver q id)
          (record s { rows = update (is_noticed group message) (close_row recalled now) s.rows })
  unfolding close_row
  observe-IsOver group message now s v =
      update-IsOver (is_noticed group message) (close_row recalled now) s (λ r. refl)
        (λ r e b. done) v
