-- ===== src/Store/Recalls/Table.antt =====
-- The well-formed recall table, and the updates of single rows that keep it.
use ubot_ai_agent.Base.{
  ℕ, ◌≤◌, ◌<◌, leb, ltb, max, Bool, true, ◌&&◌, ◌||◌, some, ◌≡◌, inl, inr, refl, All, All-map₂,
  arith, Bool-cases, Option-cases,
}
use ubot_ai_agent.Base.Ascending.{Ascending, Below, find_unique}
use ubot_ai_agent.Base.Updates.{update, All-update, Ascending-update, Below-update}
use ubot_ai_agent.Base.Selection.{among}
use ubot_ai_agent.Store.Recalls.{
  RecallStatus, pending, expired, not_sent_expired, is_terminal, is_sending, max_recall_attempts,
  RecallRow, Recalls, close_row, is_overdue, expire_in_transaction, is_due, claim_row, due_ids,
  claim_due, in_flight, terminalize, get_message_recall, requeue_row, reschedule_row,
  reschedule_found,
}

abbrev pub id_of : RecallRow → ℕ
id_of r = r.id

-- The next action is never planned behind the deadline, and a waiting row has an attempt left.
abbrev pub IsSound : RecallRow → Type 0
IsSound r =
    (r.due_at ≤ r.deadline_at)
    × (r.attempts ≤ max_recall_attempts)
    × elim r.status [ pending ↦ r.attempts < max_recall_attempts | _ ↦ Unit ]

pub record IsTable (s : Recalls) : Type 0 where
  pub ordered : Ascending id_of 0 s.rows
  pub bounded : Below id_of s.sequence s.rows
  pub sound : All IsSound s.rows

pub update-IsTable :
    (p : RecallRow → Bool) (f : RecallRow → RecallRow) (s : Recalls)
    → ((r : RecallRow) → id_of (f r) ≡ id_of r)
    → ((r : RecallRow) → p r ≡ true → IsSound r → IsSound (f r))
    → IsTable s
    → IsTable (record s { rows = update p f s.rows })
update-IsTable p f s keeps h v = record {
  ordered = Ascending-update id_of p f keeps 0 s.rows v.ordered;
  bounded = Below-update id_of p f keeps s.sequence s.rows v.bounded;
  sound = All-update p f IsSound IsSound h (λ r e b. b) s.rows v.sound;
}

close_row-IsSound :
    (status : RecallStatus) (now : ℕ) (r : RecallRow)
    → is_terminal status ≡ true
    → IsSound r
    → IsSound (close_row status now r)
unfolding close_row
close_row-IsSound status now r t v = (v.0, v.1, ground arith)

pub close-IsTable :
    (p : RecallRow → Bool) (status : RecallStatus) (now : ℕ) (s : Recalls)
    → is_terminal status ≡ true
    → IsTable s
    → IsTable (record s { rows = update p (close_row status now) s.rows })
unfolding close_row
close-IsTable p status now s t v =
    update-IsTable p (close_row status now) s (λ r. refl)
      (λ r e b. close_row-IsSound status now r t b) v

claim_row-IsSound :
    (now : ℕ) (b : Bool) (r : RecallRow)
    → (b && is_due now r) ≡ true
    → IsSound r
    → IsSound (claim_row now r)
unfolding is_due claim_row
claim_row-IsSound now b r e v = (v.0, ground arith, tt)

pub claim_due-IsTable :
    (limit now : ℕ) (s : Recalls) → IsTable s → IsTable (claim_due limit now s).1
unfolding claim_due
claim_due-IsTable limit now s v =
    let t = (expire_in_transaction now s).1 in
    update-IsTable (λ r. among (due_ids limit now t.rows) r.id && is_due now r) (claim_row now) t
      (unfold claim_row in λ r. refl) (λ r e b. claim_row-IsSound now _ r e b)
      (unfold expire_in_transaction in close-IsTable (is_overdue now) expired now s refl v)

requeue_row-IsSound :
    (id retry_at now : ℕ) (r x : RecallRow)
    → retry_at ≤ r.deadline_at
    → r.attempts < max_recall_attempts
    → in_flight id x ≡ true
    → (x.id ≡ id → x ≡ r)
    → IsSound (requeue_row retry_at now x)
unfolding requeue_row
requeue_row-IsSound id retry_at now r x due left hit only =
    rw (only (ground arith)) (due, omega arith, left)

requeue-IsTable :
    (id retry_at now : ℕ) (r : RecallRow) (s : Recalls)
    → get_message_recall id s ≡ some r
    → retry_at ≤ r.deadline_at
    → r.attempts < max_recall_attempts
    → IsTable s
    → IsTable (record s { rows = update (in_flight id) (requeue_row retry_at now) s.rows })
unfolding get_message_recall requeue_row
requeue-IsTable id retry_at now r s e due left v = record {
  ordered =
      Ascending-update id_of (in_flight id) (requeue_row retry_at now) (λ x. refl) 0 s.rows
        v.ordered;
  bounded =
      Below-update id_of (in_flight id) (requeue_row retry_at now) (λ x. refl) s.sequence s.rows
        v.bounded;
  sound =
      All-update (in_flight id) (requeue_row retry_at now) (λ x. (x.id ≡ id → x ≡ r) × IsSound x)
        IsSound (λ x hit b. requeue_row-IsSound id retry_at now r x due left hit b.0)
        (λ x miss b. b.1) s.rows
        (All-map₂ (λ x. x.id ≡ id → x ≡ r) IsSound _ (λ x only b. (only, b)) s.rows
          (find_unique id_of id 0 s.rows r v.ordered e).1 v.sound);
}

pub terminalize-IsTable :
    (id : ℕ) (status : RecallStatus) (now : ℕ) (s : Recalls)
    → is_terminal status ≡ true
    → IsTable s
    → IsTable (terminalize id status now s).1
unfolding terminalize
terminalize-IsTable id status now s t v = close-IsTable (in_flight id) status now s t v

reschedule_row-IsTable :
    (id retry_at now : ℕ) (r : RecallRow) (s : Recalls)
    → get_message_recall id s ≡ some r
    → IsTable s
    → IsTable (reschedule_row id retry_at now r s).1
unfolding reschedule_row
reschedule_row-IsTable id retry_at now r s e v =
    elim (Bool-cases (ltb r.deadline_at now || ltb r.deadline_at retry_at)) [
      | inl late ↦ rw (late, reschedule_row) (terminalize-IsTable id expired now s refl v)
      | inr due ↦
          rw (due, reschedule_row)
            (elim (Bool-cases (leb max_recall_attempts r.attempts)) [
              | inl spent ↦
                  rw (spent, reschedule_row) (terminalize-IsTable id not_sent_expired now s refl v)
              | inr left ↦
                  rw (left, reschedule_row)
                    (requeue-IsTable id retry_at now r s e (ground arith) (ground arith) v)
            ])
    ]

pub reschedule_found-IsTable :
    (id retry_at now : ℕ) (s : Recalls)
    → IsTable s
    → IsTable (reschedule_found id retry_at now (get_message_recall id s) s).1
unfolding reschedule_found
reschedule_found-IsTable id retry_at now s v = elim (Option-cases (get_message_recall id s)) [
  | inl e ↦ rw (e, reschedule_found) v
  | inr (r, e) ↦
      rw (e, reschedule_found)
        (elim (Bool-cases (is_sending r.status)) [
          | inl out ↦
              rw (out, reschedule_found) (reschedule_row-IsTable id (max now retry_at) now r s e v)
          | inr idle ↦ rw (idle, reschedule_found) v
        ])
]
