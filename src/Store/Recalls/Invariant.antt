-- ===== src/Store/Recalls/Invariant.antt =====
-- The recall table in any history: its order, its deadlines and the number of attempts.
use ubot_ai_agent.Base.{
  ℕ, suc, ◌+◌, ◌≤◌, ◌==◌, Bool, true, false, not, ◌||◌, List, [], ◌∷◌, ◌≡◌, inl, inr, refl, Text,
  trim, is_empty, any, Result, ok, throws, Keeps, Keeps-bind, find, throw_if, All-filter,
  All-append, filter, arith, Bool-cases, Option-cases,
}
use ubot_ai_agent.Base.Ascending.{
  Ascending-append, Below-append, Below-weaken, Ascending-filter, Below-filter,
}
use ubot_ai_agent.Base.Updates.{update}
use ubot_ai_agent.Store.Numbers.{
  Fault, Policy, normalize_policy, normalize_epoch_ms, add_epoch_ms,
  normalize_non_negative_duration_ms, bad_status,
}
use ubot_ai_agent.Store.Recalls.{
  RecallStatus, expired, outcome_unknown, recalled, is_terminal, RecallRow, Recalls, empty,
  is_overdue, expire_message_recalls, claim_due_message_recalls, is_abandoned,
  recover_stale_sending_message_recalls, mark_message_recall_terminal,
  reschedule_message_recall_after_not_sent, is_message, is_noticed, mark_message_recall_observed,
  is_prunable, prune_terminal_message_recalls,
}
use ubot_ai_agent.Store.Recalls.Insertion.{
  Input, has_outbox_id, new_row, insert_new, link_row, link_outbox, stored_row,
  insert_message_recall,
}
use ubot_ai_agent.Store.Recalls.Calls.{
  Call, inserts, expires, claims, recovers, terminates, reschedules, observes, prunes, after, step,
  run,
}
use ubot_ai_agent.Store.Recalls.Table.{
  id_of, IsSound, IsTable, update-IsTable, close-IsTable, claim_due-IsTable, terminalize-IsTable,
  reschedule_found-IsTable,
}

normalize_policy-ordered : (p q : Policy) → normalize_policy p ≡ ok q → q.after_ms ≤ q.deadline_ms
unfolding normalize_policy
normalize_policy-ordered p q e = ground arith

add_epoch_ms-sum : (a b c : ℕ) → add_epoch_ms a b ≡ ok c → c ≡ a + b
unfolding add_epoch_ms
add_epoch_ms-sum a b c e = ground arith

insert_new-IsTable :
    (clock sent_at due_at deadline_at : ℕ) (input : Input) (s : Recalls)
    → due_at ≤ deadline_at
    → IsTable s
    → IsTable (insert_new clock input sent_at due_at deadline_at s)
unfolding insert_new new_row
insert_new-IsTable clock sent_at due_at deadline_at input s h v =
    elim (Bool-cases (
      any
        (λ r.
          is_message input.group_id input.platform_message_id r || has_outbox_id input.outbox_id r)
        s.rows)) [
          | inl taken ↦ rw taken v
          | inr free ↦ rw free (record {
            ordered =
                Ascending-append id_of 0 s.sequence s.rows _ v.ordered v.bounded (omega arith)
                  (omega arith);
            bounded =
                Below-append id_of (suc s.sequence) s.rows _
                  (Below-weaken id_of s.sequence (suc s.sequence) s.rows (omega arith) v.bounded)
                  (omega arith);
            sound = All-append IsSound s.rows _ v.sound ((h, omega arith, omega arith), tt);
          })
        ]

link-IsTable :
    (input : Input) (id : ℕ) (s : Recalls)
    → IsTable s
    → IsTable (record s {
      rows = update (is_message input.group_id input.platform_message_id) (link_row id) s.rows;
    })
unfolding link_row
link-IsTable input id s v = update-IsTable _ (link_row id) s (λ r. refl) (λ r e b. b) v

link_outbox-IsTable :
    (input : Input) (s t : Recalls) → link_outbox input s ≡ ok t → IsTable s → IsTable t
unfolding link_outbox
link_outbox-IsTable input s t e v = elim (Option-cases input.outbox_id) [
  | inl absent ↦ let same_table : s ≡ t = ground arith in rw (← same_table) v
  | inr (id, present) ↦
      let linked : (record s {
        rows = update (is_message input.group_id input.platform_message_id) (link_row id) s.rows;
      })
          ≡ t =
        ground arith in
      rw (← linked) (link-IsTable input id s v)
]

stored_row-Keeps : (input : Input) (s : Recalls) → IsTable s → Keeps IsTable (stored_row input s)
unfolding stored_row
stored_row-Keeps input s v =
    elim (Option-cases (find (is_message input.group_id input.platform_message_id) s.rows)) [
      | inl e ↦ rw (e, stored_row) tt
      | inr (r, e) ↦ rw (e, stored_row) v
    ]

insert_message_recall-Keeps :
    (input : Input) (clock : ℕ) (s : Recalls)
    → IsTable s
    → Keeps IsTable (insert_message_recall input clock s)
unfolding insert_message_recall
insert_message_recall-Keeps input clock s v =
    Keeps-bind IsTable (normalize_policy input.policy) _ λ policy p.
      Keeps-bind IsTable (normalize_epoch_ms input.sent_at_ms) _ λ sent_at q.
        Keeps-bind IsTable (add_epoch_ms sent_at policy.after_ms) _ λ due_at d.
          Keeps-bind IsTable (add_epoch_ms sent_at policy.deadline_ms) _ λ deadline_at l.
            Keeps-bind IsTable
              (link_outbox input (insert_new clock input sent_at due_at deadline_at s)) _
              λ linked e. stored_row-Keeps input linked (
                link_outbox-IsTable input _ linked e (
                  insert_new-IsTable clock sent_at due_at deadline_at input s
                    (omega (
                      arith,
                      normalize_policy-ordered input.policy policy p,
                      add_epoch_ms-sum sent_at policy.after_ms due_at d,
                      add_epoch_ms-sum sent_at policy.deadline_ms deadline_at l,
                    ))
                    v))

after-IsTable :
    {A : Type 0} (s : Recalls) (r : Result Fault (A × Recalls))
    → IsTable s
    → Keeps IsTable r
    → IsTable (after s r)
after-IsTable s (ok (a, s')) v k = k
after-IsTable s (throws e) v k = v

delete-IsTable :
    (p : RecallRow → Bool) (s : Recalls) → IsTable s → IsTable (record s { rows = filter p s.rows })
delete-IsTable p s v = record {
  ordered = Ascending-filter id_of 0 p s.rows v.ordered;
  bounded = Below-filter id_of s.sequence p s.rows v.bounded;
  sound = All-filter IsSound IsSound p (λ r e b. b) s.rows v.sound;
}

claims-Keeps :
    (limit now : ℕ) (s : Recalls)
    → IsTable s
    → Keeps IsTable (claim_due_message_recalls limit now s)
unfolding claim_due_message_recalls
claims-Keeps limit now s v = elim (Bool-cases (limit == 0)) [
  | inl e ↦ rw (e, claim_due_message_recalls) v
  | inr e ↦
      rw (e, claim_due_message_recalls)
        (Keeps-bind IsTable (normalize_epoch_ms now) _ λ n e'. claim_due-IsTable limit n s v)
]

throw_if-not-passed :
    {E : Type 0} (b : Bool) (x : E) (u : Unit {0}) → throw_if (not b) x ≡ ok u → b ≡ true
throw_if-not-passed true x u h = refl
throw_if-not-passed false x u h = cc

terminates-Keeps :
    (id : ℕ) (status : RecallStatus) (now : ℕ) (s : Recalls)
    → IsTable s
    → Keeps IsTable (mark_message_recall_terminal id status now s)
unfolding mark_message_recall_terminal
terminates-Keeps id status now s v =
    Keeps-bind IsTable (throw_if (not (is_terminal status)) bad_status) _ λ u e.
      Keeps-bind IsTable (normalize_epoch_ms now) _ λ n e'.
        terminalize-IsTable id status n s (throw_if-not-passed (is_terminal status) bad_status u e)
          v

observes-Keeps :
    (group message : Text) (now : ℕ) (s : Recalls)
    → IsTable s
    → Keeps IsTable (mark_message_recall_observed group message now s)
unfolding mark_message_recall_observed
observes-Keeps group message now s v =
    elim (Bool-cases (is_empty (trim group) || is_empty (trim message))) [
      | inl e ↦ rw (e, mark_message_recall_observed) v
      | inr e ↦
          rw (e, mark_message_recall_observed)
            (Keeps-bind IsTable (normalize_epoch_ms now) _
              λ n e'. close-IsTable (is_noticed (trim group) (trim message)) recalled n s refl v)
    ]

-- Every call keeps the table in order, each planned action within its deadline, and each row within
-- two attempts.
pub step-IsTable : (c : Call) (s : Recalls) → IsTable s → IsTable (step c s)
unfolding step expire_message_recalls claim_due_message_recalls
    recover_stale_sending_message_recalls mark_message_recall_terminal
    reschedule_message_recall_after_not_sent mark_message_recall_observed
    prune_terminal_message_recalls
step-IsTable (inserts input clock) s v =
    after-IsTable s _ v (insert_message_recall-Keeps input clock s v)
step-IsTable (expires now) s v = after-IsTable s _ v (
    Keeps-bind IsTable (normalize_epoch_ms now) _
      λ n e. close-IsTable (is_overdue n) expired n s refl v)
step-IsTable (claims limit now) s v = after-IsTable s _ v (claims-Keeps limit now s v)
step-IsTable (recovers now stale) s v = after-IsTable s _ v (
    Keeps-bind IsTable (normalize_epoch_ms now) _ λ n e.
      Keeps-bind IsTable (normalize_non_negative_duration_ms stale) _
        λ d e'. close-IsTable (is_abandoned n d) outcome_unknown n s refl v)
step-IsTable (terminates id status now) s v =
    after-IsTable s _ v (terminates-Keeps id status now s v)
step-IsTable (reschedules id retry_at now) s v = after-IsTable s _ v (
    Keeps-bind IsTable (normalize_epoch_ms now) _ λ n e.
      Keeps-bind IsTable (normalize_epoch_ms retry_at) _
        λ t e'. reschedule_found-IsTable id t n s v)
step-IsTable (observes group message now) s v =
    after-IsTable s _ v (observes-Keeps group message now s v)
step-IsTable (prunes before) s v = after-IsTable s _ v (
    Keeps-bind IsTable (normalize_epoch_ms before) _
      λ b e. delete-IsTable (λ r. not (is_prunable b r)) s v)

run-steps-IsTable : (calls : List Call) (s : Recalls) → IsTable s → IsTable (run calls s)
unfolding run
run-steps-IsTable [] s v = v
run-steps-IsTable (c ∷ cs) s v = run-steps-IsTable cs (step c s) (step-IsTable c s v)

-- In the table that any sequence of calls on an empty one leaves, the ids ascend and lie at or
-- below the last one given out; each row's next action is planned no later than its deadline, at
-- most two attempts have been made for it, and for a pending row at most one.
pub run-IsTable : (calls : List Call) → IsTable (run calls empty)
unfolding empty
run-IsTable calls =
    run-steps-IsTable calls empty (record { ordered = tt; bounded = tt; sound = tt })
