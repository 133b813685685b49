-- ===== src/Store/Outbox/Once.antt =====
-- No row is handed to the sender twice, unless a failure with a retry was recorded for it.
use ubot_ai_agent.Base.{
  ℕ, suc, ◌≤◌, ◌<◌, ◌==◌, Bool, true, false, Option, none, some, List, [], ◌∷◌, ◌++◌, ◌≡◌, inl, inr,
  refl, sym, subst, map, filter, Result-cases, All, All-map, All-take, All-filter, All-of_map,
  All-append, arith,
}
use ubot_ai_agent.Base.Ascending.{
  Below, Ascending-append, Below-append, Below-weaken, Ascending-filter, Below-filter,
}
use ubot_ai_agent.Base.Updates.{All-update, Ascending-update, Below-update}
use ubot_ai_agent.Base.Selection.{among}
use ubot_ai_agent.Store.Numbers.{Policy, normalize_outbox_auto_recall_policy}
use ubot_ai_agent.Store.Outbox.{
  released, OutboxRow, Outbox, Reply, row_of, enqueue_outbox, claim_pending, claim_row,
  is_claimable, claim_outbox, recover_stale_sending_outbox, mark_outbox_sent, mark_outbox_failed,
  ack_row, attach_row, update_id, discard_preparing_outbox, discard_preparing_outbox_for_source,
  give_up,
}
use ubot_ai_agent.Store.Outbox.Claims.{
  claim_outbox-claim_row, IsTable, IsHeld, AreHeld, id_of, claim-AreHeld, recover-AreHeld,
  recover-IsTable, claim-IsTable, claim-not_held, claimed-AreHeld,
}
use ubot_ai_agent.Store.Outbox.Calls.{
  Call, enqueues, claims, recovers, marks_sent, marks_failed, acks, attaches, discards,
  discards_source, step, run, after,
}

-- Every call but a failure that asks for a retry.
abbrev pub IsFinal : Call → Type 0
IsFinal (marks_failed id (some ms) now) = ⊥
IsFinal _ = Unit

pub record Fixed (ids : List ℕ) (s : Outbox) : Type 0 where
  pub table : IsTable s
  pub held : AreHeld ids s
  pub old : All (λ i. i ≤ s.sequence) ids

among-old : (ids : List ℕ) (n i : ℕ) → All (λ i. i ≤ n) ids → n < i → among ids i ≡ false
among-old [] n i h lt = refl
among-old (j ∷ ids) n i h lt = ground (arith, among-old ids n i h.1 lt)

abbrev pub with_row : ℕ → Option Policy → Reply → Outbox → Outbox
with_row now p r s = record {
  rows = s.rows ++ row_of (suc s.sequence) now p r ∷ [];
  sequence = suc s.sequence;
}

pub append-IsTable :
    (now : ℕ) (p : Option Policy) (r : Reply) (s : Outbox)
    → IsTable s
    → IsTable (with_row now p r s)
unfolding row_of
append-IsTable now p r s v = record {
  ordered =
      Ascending-append id_of 0 s.sequence s.rows _ v.ordered v.bounded (omega arith) (omega arith);
  bounded =
      Below-append id_of (suc s.sequence) s.rows _
        (Below-weaken id_of s.sequence (suc s.sequence) s.rows (omega arith) v.bounded)
        (omega arith);
}

claimed-old :
    (limit now : ℕ) (s : Outbox)
    → IsTable s
    → All (λ i. i ≤ (claim_outbox limit now s).1.sequence) (map id_of (claim_outbox limit now s).0)
unfolding claim_outbox claim_pending recover_stale_sending_outbox
claimed-old limit now s v =
    All-of_map (λ i. i ≤ s.sequence) id_of _
      (subst (Below id_of s.sequence) (sym (claim_outbox-claim_row limit now s v)) (
        All-of_map (λ r. r.id ≤ s.sequence) (claim_row now) _
          (unfold claim_row in
            All-take _ limit _ (All-filter _ _ (is_claimable now) (λ r e b. b) s.rows v.bounded))))

module _ (ids : List ℕ) where
  -- `UPDATE … WHERE id = ?` that keeps the ids and holds what was held.
  update_id-Fixed :
      (id : ℕ) (f : OutboxRow → OutboxRow) (s : Outbox)
      → ((r : OutboxRow) → id_of (f r) ≡ id_of r)
      → ((r : OutboxRow) → IsHeld r → IsHeld (f r))
      → Fixed ids s
      → Fixed ids (update_id id f s)
  update_id-Fixed id f s keeps holds v = record {
    table = record {
      ordered = Ascending-update id_of (λ r. r.id == id) f keeps 0 s.rows v.table.ordered;
      bounded = Below-update id_of (λ r. r.id == id) f keeps s.sequence s.rows v.table.bounded;
    };
    held =
        All-update (λ r. r.id == id) f (λ r. among ids r.id ≡ true → IsHeld r)
          (λ r. among ids r.id ≡ true → IsHeld r) (λ r e k m. holds r (k (rw (keeps r) at m)))
          (λ r e k m. k m) s.rows v.held;
    old = v.old;
  }

  delete-Fixed :
      (p : OutboxRow → Bool) (s : Outbox)
      → Fixed ids s
      → Fixed ids (record s { rows = filter p s.rows })
  delete-Fixed p s v = record {
    table = record {
      ordered = Ascending-filter id_of 0 p s.rows v.table.ordered;
      bounded = Below-filter id_of s.sequence p s.rows v.table.bounded;
    };
    held = All-filter (λ r. among ids r.id ≡ true → IsHeld r) _ p (λ r e k. k) s.rows v.held;
    old = v.old;
  }

  append-Fixed :
      (now : ℕ) (p : Option Policy) (r : Reply) (s : Outbox)
      → Fixed ids s
      → Fixed ids (with_row now p r s)
  unfolding row_of
  append-Fixed now p r s v = record {
    table = append-IsTable now p r s v.table;
    held =
        All-append _ s.rows _ v.held
          (λ m. ground (arith, among-old ids s.sequence (suc s.sequence) v.old), tt);
    old = All-map (λ i. i ≤ s.sequence) _ (λ i h. omega arith) ids v.old;
  }

  enqueue-Fixed :
      (r : Reply) (now : ℕ) (s : Outbox)
      → Fixed ids s
      → Fixed ids (after s (enqueue_outbox r now s))
  unfolding enqueue_outbox
  enqueue-Fixed r now s v =
      elim (Result-cases (normalize_outbox_auto_recall_policy r.auto_recall)) [
        | inl (p, e) ↦ rw (e, enqueue_outbox) (append-Fixed now p r s v)
        | inr (f, e) ↦ rw (e, enqueue_outbox) v
      ]

  step-Fixed : (c : Call) (s : Outbox) → IsFinal c → Fixed ids s → Fixed ids (step c s)
  unfolding step
  step-Fixed (enqueues r now) s c v = enqueue-Fixed r now s v
  step-Fixed (claims limit now) s c v = record {
    table = claim-IsTable limit now s v.table;
    held = claim-AreHeld ids limit now s v.held;
    old = unfold claim_outbox claim_pending recover_stale_sending_outbox in v.old;
  }
  step-Fixed (recovers now stale) s c v = record {
    table = recover-IsTable now stale s v.table;
    held = recover-AreHeld ids now stale s v.held;
    old = unfold recover_stale_sending_outbox in v.old;
  }
  step-Fixed (marks_sent id now) s c v =
      unfold mark_outbox_sent in update_id-Fixed id _ s (λ r. refl) (λ r h. tt) v
  step-Fixed (marks_failed id none now) s c v =
      unfold mark_outbox_failed give_up in update_id-Fixed id _ s (λ r. refl) (λ r h. refl) v
  step-Fixed (marks_failed id (some ms) now) s c v = absurd c
  step-Fixed (acks id m sent_at now) s c v =
      unfold ack_row in update_id-Fixed id _ s (λ r. refl) (λ r h. tt) v
  step-Fixed (attaches id d x now) s c v =
      unfold attach_row released in update_id-Fixed id _ s (λ r. refl) (λ r h. ground arith) v
  step-Fixed (discards ts) s c v = unfold discard_preparing_outbox in delete-Fixed _ s v
  step-Fixed (discards_source t b n) s c v =
      unfold discard_preparing_outbox_for_source in delete-Fixed _ s v

  run-Fixed : (cs : List Call) (s : Outbox) → All IsFinal cs → Fixed ids s → Fixed ids (run cs s)
  unfolding run
  run-Fixed [] s f v = v
  run-Fixed (c ∷ cs) s f v = run-Fixed cs (step c s) f.1 (step-Fixed c s f.0 v)

-- Once a claim has returned a row, no later claim returns it again, whatever happens in between
-- other than a recorded failure with a retry: a crashed sender never causes a second delivery.
pub claim_once :
    (limit now limit' now' : ℕ) (cs : List Call) (s : Outbox)
    → IsTable s
    → All IsFinal cs
    → All
        (λ r. among (map id_of (claim_outbox limit now s).0) r.id ≡ false)
        (claim_outbox limit' now' (run cs (claim_outbox limit now s).1)).0
claim_once limit now limit' now' cs s v f =
    let ids = map id_of (claim_outbox limit now s).0 in
    let later = run-Fixed ids cs (claim_outbox limit now s).1 f (record {
      table = claim-IsTable limit now s v;
      held = claimed-AreHeld limit now s v;
      old = claimed-old limit now s v;
    }) in
    claim-not_held ids limit' now' (run cs (claim_outbox limit now s).1) later.table later.held
