-- ===== src/Store/Outbox/Drafts.antt =====
-- Drafts: replies whose conversation turn is not persisted yet.
use ubot_ai_agent.Base.{
  ℕ, suc, Bool, true, false, not, ◌&&◌, Option, List, [], ◌∷◌, ◌≡◌, ap, sym, ◌∙◌, Text, ok,
  returned, subst, map, filter, filter_cong, filter-filter, filter-append, take, All-pure, arith,
}
use mathlib.Core.List.{append-nil}
use ubot_ai_agent.Base.Selection.{among}
use ubot_ai_agent.Store.Numbers.{Policy, normalize_outbox_auto_recall_policy}
use ubot_ai_agent.Store.Outbox.{
  preparing, is_preparing, Outbox, OutboxRow, Reply, row_of, first_status, enqueue_outbox,
  is_claimable, claim_row, claim_outbox, discard_preparing_outbox,
  discard_preparing_outbox_for_source, is_draft_of, parsed_ids,
}
use ubot_ai_agent.Store.Outbox.Claims.{IsTable, claim_outbox-claim_row}
use ubot_ai_agent.Store.Outbox.Once.{append-IsTable, with_row}

draft-not_claimable :
    (id now at : ℕ) (p : Option Policy) (r : Reply)
    → first_status r.context ≡ preparing
    → is_claimable now (row_of id at p r) ≡ false
unfolding is_claimable row_of
draft-not_claimable id now at p r e = ground (arith, e)

-- Enqueuing a draft changes no later claim: the sender does not see it.
pub claim-enqueue_draft :
    (r : Reply) (at limit now id : ℕ) (s s' : Outbox)
    → IsTable s
    → first_status r.context ≡ preparing
    → enqueue_outbox r at s ≡ ok (id, s')
    → (claim_outbox limit now s').0 ≡ (claim_outbox limit now s).0
unfolding enqueue_outbox
claim-enqueue_draft r at limit now id s s' v draft e =
    let (p, done, normal) =
      returned (id, s') _ (normalize_outbox_auto_recall_policy r.auto_recall) e in
    let same_table : with_row at p r s ≡ s' = cc in
    subst (λ t. (claim_outbox limit now t).0 ≡ (claim_outbox limit now s).0) same_table
      (claim_outbox-claim_row limit now (with_row at p r s) (append-IsTable at p r s v)
        ∙ (ap (λ l. map (claim_row now) (take limit l)) (unseen p)
            ∙ sym (claim_outbox-claim_row limit now s v)))
  where
    unseen :
        (p : Option Policy)
        → filter (is_claimable now) (with_row at p r s).rows ≡ filter (is_claimable now) s.rows
    unseen p =
        filter-append (is_claimable now) s.rows (row_of (suc s.sequence) at p r ∷ [])
        ∙ rw (draft-not_claimable (suc s.sequence) now at p r draft) (append-nil _)

abbrev visible : OutboxRow → Bool
visible r = not (is_preparing r.status)

keeps_visible :
    (draft : OutboxRow → Bool) (rs : List OutboxRow)
    → ((r : OutboxRow) → draft r ≡ true → is_preparing r.status ≡ true)
    → filter visible (filter (λ r. not (draft r)) rs) ≡ filter visible rs
keeps_visible draft rs h =
    filter-filter visible (λ r. not (draft r)) rs
    ∙ filter_cong (λ r. not (draft r) && visible r) visible rs
        (All-pure _ (λ r. ground (arith, h r)) rs)

-- Discarding drafts, by delivery id or by source turn, keeps each row that the sender may have seen.
pub discard_keeps_visible :
    (ids : List Text) (topic branch : Text) (turn : ℕ) (s : Outbox)
    → (filter (λ r. not (is_preparing r.status)) (discard_preparing_outbox ids s).1.rows
        ≡ filter (λ r. not (is_preparing r.status)) s.rows)
      × (filter
            (λ r. not (is_preparing r.status))
            (discard_preparing_outbox_for_source topic branch turn s).1.rows
          ≡ filter (λ r. not (is_preparing r.status)) s.rows)
unfolding discard_preparing_outbox discard_preparing_outbox_for_source is_draft_of
discard_keeps_visible ids topic branch turn s = (
  keeps_visible (λ r. among (parsed_ids ids) r.id && is_preparing r.status) s.rows
      (λ r e. ground arith),
  keeps_visible (is_draft_of topic branch turn) s.rows (λ r e. ground arith),
)
