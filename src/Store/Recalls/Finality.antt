-- ===== src/Store/Recalls/Finality.antt =====
-- The recall table: a row whose recall is over stays so.
use ubot_ai_agent.Base.{
  ℕ, ◌≤◌, ◌==◌, Bool, true, false, not, ◌&&◌, ◌||◌, some, List, [], ◌∷◌, ◌≡◌, ◌≢◌, inl, inr, refl,
  Text, trim, is_empty, any, Result, ok, throws, Keeps, Keeps-bind, find, All-found, throw_if, All,
  All-map, All-filter, All-append, filter, arith, Bool-cases, Option-cases,
}
use ubot_ai_agent.Base.Ascending.{find_unique}
use ubot_ai_agent.Base.Updates.{update}
use ubot_ai_agent.Base.Selection.{among}
use ubot_ai_agent.Store.Numbers.{
  Fault, normalize_policy, normalize_epoch_ms, add_epoch_ms, normalize_non_negative_duration_ms,
  bad_status,
}
use ubot_ai_agent.Store.Recalls.{
  RecallStatus, pending, sending, recalled, is_terminal, is_sending, is_recalled, RecallRow,
  Recalls, expire_in_transaction, expire_message_recalls, due_ids, claim_due,
  claim_due_message_recalls, recover_stale_sending_message_recalls, mark_message_recall_terminal,
  get_message_recall, reschedule_message_recall_after_not_sent, mark_message_recall_observed,
  is_prunable, prune_terminal_message_recalls, is_message,
}
use ubot_ai_agent.Store.Recalls.Insertion.{
  Input, has_outbox_id, new_row, insert_new, link_row, link_outbox, stored_row,
  insert_message_recall,
}
use ubot_ai_agent.Store.Recalls.Calls.{
  Call, inserts, expires, claims, recovers, terminates, reschedules, observes, prunes, after, step,
  run,
}
use ubot_ai_agent.Store.Recalls.Table.{id_of, IsTable}
use ubot_ai_agent.Store.Recalls.Window.{All-sort}
use ubot_ai_agent.Store.Recalls.Over.{
  Stays, IsOver, update-IsOver, passes-not_sending, expire-IsOver, claim_due-IsOver,
  terminalize-IsOver, recover-IsOver, reschedule_found-IsOver, observe-IsOver,
}

-- A test on the status that no waiting row passes.
module _ (q : RecallStatus → Bool) (waiting : q pending ≡ false) (out : q sending ≡ false)
    (done : q recalled ≡ true) (id : ℕ) where
  insert_new-IsOver :
      (clock sent_at due_at deadline_at : ℕ) (input : Input) (s : Recalls)
      → IsOver q id s
      → IsOver q id (insert_new clock input sent_at due_at deadline_at s)
  unfolding insert_new new_row
  insert_new-IsOver clock sent_at due_at deadline_at input s v =
      elim (Bool-cases (
        any
          (λ r.
            is_message input.group_id input.platform_message_id r
            || has_outbox_id input.outbox_id r)
          s.rows)) [
            | inl taken ↦ rw taken v
            | inr free ↦ rw free (
              omega (arith, v.0),
              All-append (Stays q id) s.rows _ v.1 ((λ i. absurd (omega (arith, v.0))), tt),
            )
          ]

  link-IsOver :
      (input : Input) (n : ℕ) (s : Recalls)
      → IsOver q id s
      → IsOver q id (record s {
        rows = update (is_message input.group_id input.platform_message_id) (link_row n) s.rows;
      })
  unfolding link_row
  link-IsOver input n s v =
      update-IsOver q waiting out done id (is_message input.group_id input.platform_message_id)
        (link_row n) s (λ r. refl) (λ r e b. b) v

  link_outbox-IsOver :
      (input : Input) (s t : Recalls) → link_outbox input s ≡ ok t → IsOver q id s → IsOver q id t
  unfolding link_outbox
  link_outbox-IsOver input s t e v = elim (Option-cases input.outbox_id) [
    | inl absent ↦ let same_table : s ≡ t = ground arith in rw (← same_table) v
    | inr (n, present) ↦
        let linked : (record s {
          rows = update (is_message input.group_id input.platform_message_id) (link_row n) s.rows;
        })
            ≡ t =
          ground arith in
        rw (← linked) (link-IsOver input n s v)
  ]

  stored_row-Keeps :
      (input : Input) (s : Recalls) → IsOver q id s → Keeps (IsOver q id) (stored_row input s)
  unfolding stored_row
  stored_row-Keeps input s v =
      elim (Option-cases (find (is_message input.group_id input.platform_message_id) s.rows)) [
        | inl e ↦ rw (e, stored_row) tt
        | inr (r, e) ↦ rw (e, stored_row) v
      ]

  insert-Keeps :
      (input : Input) (clock : ℕ) (s : Recalls)
      → IsOver q id s
      → Keeps (IsOver q id) (insert_message_recall input clock s)
  unfolding insert_message_recall
  insert-Keeps input clock s v =
      Keeps-bind (IsOver q id) (normalize_policy input.policy) _ λ policy p.
        Keeps-bind (IsOver q id) (normalize_epoch_ms input.sent_at_ms) _ λ sent_at sent.
          Keeps-bind (IsOver q id) (add_epoch_ms sent_at policy.after_ms) _ λ due_at d.
            Keeps-bind (IsOver q id) (add_epoch_ms sent_at policy.deadline_ms) _ λ deadline_at l.
              Keeps-bind (IsOver q id)
                (link_outbox input (insert_new clock input sent_at due_at deadline_at s)) _
                λ linked e. stored_row-Keeps input linked (
                  link_outbox-IsOver input _ linked e
                    (insert_new-IsOver clock sent_at due_at deadline_at input s v))

  after-IsOver :
      {A : Type 0} (s : Recalls) (r : Result Fault (A × Recalls))
      → IsOver q id s
      → Keeps (IsOver q id) r
      → IsOver q id (after s r)
  after-IsOver s (ok (a, s')) v k = k
  after-IsOver s (throws e) v k = v

  claims-Keeps :
      (limit now : ℕ) (s : Recalls)
      → IsOver q id s
      → Keeps (IsOver q id) (claim_due_message_recalls limit now s)
  unfolding claim_due_message_recalls
  claims-Keeps limit now s v = elim (Bool-cases (limit == 0)) [
    | inl e ↦ rw (e, claim_due_message_recalls) v
    | inr e ↦
        rw (e, claim_due_message_recalls)
          (Keeps-bind (IsOver q id) (normalize_epoch_ms now) _
            λ n e'. claim_due-IsOver q waiting out done id limit n s v)
  ]

  observes-Keeps :
      (group message : Text) (now : ℕ) (s : Recalls)
      → IsOver q id s
      → Keeps (IsOver q id) (mark_message_recall_observed group message now s)
  unfolding mark_message_recall_observed
  observes-Keeps group message now s v =
      elim (Bool-cases (is_empty (trim group) || is_empty (trim message))) [
        | inl e ↦ rw (e, mark_message_recall_observed) v
        | inr e ↦
            rw (e, mark_message_recall_observed)
              (Keeps-bind (IsOver q id) (normalize_epoch_ms now) _
                λ n e'. observe-IsOver q waiting out done id (trim group) (trim message) n s v)
      ]

  step-IsOver : (c : Call) (s : Recalls) → IsOver q id s → IsOver q id (step c s)
  unfolding step expire_message_recalls recover_stale_sending_message_recalls
      mark_message_recall_terminal reschedule_message_recall_after_not_sent
      prune_terminal_message_recalls
  step-IsOver (inserts input clock) s v = after-IsOver s _ v (insert-Keeps input clock s v)
  step-IsOver (expires now) s v = after-IsOver s _ v (
      Keeps-bind (IsOver q id) (normalize_epoch_ms now) _
        λ n e. expire-IsOver q waiting out done id n s v)
  step-IsOver (claims limit now) s v = after-IsOver s _ v (claims-Keeps limit now s v)
  step-IsOver (recovers now stale) s v = after-IsOver s _ v (
      Keeps-bind (IsOver q id) (normalize_epoch_ms now) _ λ n e.
        Keeps-bind (IsOver q id) (normalize_non_negative_duration_ms stale) _
          λ d e'. recover-IsOver q waiting out done id n d s v)
  step-IsOver (terminates n status now) s v = after-IsOver s _ v (
      Keeps-bind (IsOver q id) (throw_if (not (is_terminal status)) bad_status) _ λ u e.
        Keeps-bind (IsOver q id) (normalize_epoch_ms now) _
          λ t e'. terminalize-IsOver q waiting out done id n status t s v)
  step-IsOver (reschedules n retry_at now) s v = after-IsOver s _ v (
      Keeps-bind (IsOver q id) (normalize_epoch_ms now) _ λ t e.
        Keeps-bind (IsOver q id) (normalize_epoch_ms retry_at) _
          λ u e'. reschedule_found-IsOver q waiting out done id n u t (get_message_recall n s) s v)
  step-IsOver (observes group message now) s v =
      after-IsOver s _ v (observes-Keeps group message now s v)
  step-IsOver (prunes before) s v = after-IsOver s _ v (
      Keeps-bind (IsOver q id) (normalize_epoch_ms before) _ λ b e. (
        v.0,
        All-filter (Stays q id) (Stays q id) (λ r. not (is_prunable b r)) (λ r e b. b) s.rows v.1,
      ))

  run-IsOver : (calls : List Call) (s : Recalls) → IsOver q id s → IsOver q id (run calls s)
  unfolding run
  run-IsOver [] s v = v
  run-IsOver (c ∷ cs) s v = run-IsOver cs (step c s) (step-IsOver c s v)

  found-IsOver :
      (s : Recalls) (r : RecallRow)
      → IsTable s
      → get_message_recall id s ≡ some r
      → q r.status ≡ true
      → IsOver q id s
  unfolding get_message_recall
  found-IsOver s r v e b =
      let (at, only) = find_unique id_of id 0 s.rows r v.ordered e in
      (
        rw (← at) (All-found (λ x. id_of x ≤ s.sequence) (λ x. id_of x == id) s.rows r e v.bounded),
        All-map (λ x. x.id ≡ id → x ≡ r) (Stays q id) (λ x h i. rw (h i) b) s.rows only,
      )

  claimed_apart :
      (limit now : ℕ) (s : Recalls) → IsOver q id s → All (λ r. r.id ≢ id) (claim_due limit now s).0
  unfolding claim_due
  claimed_apart limit now s v =
      let ids = due_ids limit now (expire_in_transaction now s).1.rows in
      All-sort (λ r. r.id ≢ id)
        (filter (λ r. among ids r.id && is_sending r.status) (claim_due limit now s).1.rows)
        (All-filter (Stays q id) (λ r. r.id ≢ id) (λ r. among ids r.id && is_sending r.status)
          (λ r e b i.
            absurd (ground (arith, passes-not_sending q waiting out done id r.status (b i))))
          (claim_due limit now s).1.rows (claim_due-IsOver q waiting out done id limit now s v).1)

  over_there :
      (s : Recalls) → IsOver q id s → All (λ x. q x.status ≡ true) (filter (λ x. x.id == id) s.rows)
  over_there s v =
      All-filter (Stays q id) (λ x. q x.status ≡ true) (λ x. x.id == id) (λ x e b. b (ground arith))
        s.rows v.1

-- In a well-formed table a row whose recall is terminal stays terminal, or is pruned, in any
-- sequence of calls, and a later claim never returns it.
pub terminal_stays :
    (calls : List Call) (s : Recalls) (r : RecallRow) (id limit now : ℕ)
    → IsTable s
    → get_message_recall id s ≡ some r
    → is_terminal r.status ≡ true
    → All (λ x. is_terminal x.status ≡ true) (filter (λ x. x.id == id) (run calls s).rows)
      × All (λ x. x.id ≢ id) (claim_due limit now (run calls s)).0
terminal_stays calls s r id limit now v e t =
    let over =
      run-IsOver is_terminal refl refl refl id calls s
        (found-IsOver is_terminal refl refl refl id s r v e t) in
    (
      over_there is_terminal refl refl refl id (run calls s) over,
      claimed_apart is_terminal refl refl refl id limit now (run calls s) over,
    )

-- In a well-formed table a row that was recalled stays `recalled`, or is pruned, in any sequence of
-- calls: no later outcome overwrites the success.
pub recalled_stays :
    (calls : List Call) (s : Recalls) (r : RecallRow) (id : ℕ)
    → IsTable s
    → get_message_recall id s ≡ some r
    → is_recalled r.status ≡ true
    → All (λ x. is_recalled x.status ≡ true) (filter (λ x. x.id == id) (run calls s).rows)
recalled_stays calls s r id v e t = over_there is_recalled refl refl refl id (run calls s) (
    run-IsOver is_recalled refl refl refl id calls s
      (found-IsOver is_recalled refl refl refl id s r v e t))
