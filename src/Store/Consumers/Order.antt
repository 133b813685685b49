-- ===== src/Store/Consumers/Order.antt =====
-- Messages completed in any order, and the other consumers of the same ledger.
use ubot_ai_agent.Base.{
  ℕ, ◌==◌, ◌≡◌, refl, ap, ◌∙◌, sym, Bool, true, false, not, ◌&&◌, none, some, List, [], ◌∷◌, filter,
  filter_cong, filter-filter, any, coalesce, All-pure, arith, Option-cases, Text, same, inl, inr,
}
use ubot_ai_agent.Base.Ascending.{Ascending}
use ubot_ai_agent.Store.Messages.{MessageRow}
use ubot_ai_agent.Store.Consumers.{
  is_consumer_message_completed, boundary, Queue, watermark_in, ensure_consumer, pending,
  complete_consumer_message, complete_all,
}
use ubot_ai_agent.Store.Consumers.Completion.{
  watermark_in-with_consumer, watermark_in-with_consumer_other, watermark_in-set_other,
  pending_of_watermark, pending_complete, watermark_in_complete, completed-insert, completed-store,
  waits, landed, marked,
}

pending-ensure :
    (key : Text) (q : Queue) (w : ℕ)
    → watermark_in key q.consumers ≡ some w
    → pending key (ensure_consumer key q) ≡ pending key q
unfolding ensure_consumer pending is_consumer_message_completed
pending-ensure key q w e =
    pending_of_watermark key (ensure_consumer key q) w
      (watermark_in-with_consumer key q.consumers ∙ rw e)
    ∙ sym (pending_of_watermark key q w e)

filter-true {ℓ} : {A : Type ℓ} (xs : List A) → filter (λ x. true) xs ≡ xs
filter-true [] = refl
filter-true (x ∷ xs) = ap (◌∷◌ x) (filter-true xs)

pending_of_none :
    (key : Text) (q : Queue) → watermark_in key q.consumers ≡ none → pending key q ≡ []
unfolding pending
pending_of_none key q e = rw (e, pending)

abbrev pub listed : List (ℕ × ℕ) → ℕ → Bool
listed ids i = any (λ p. i == p.0) ids

pending-complete_all_started :
    (key : Text) (ids : List (ℕ × ℕ)) (q : Queue) (w : ℕ)
    → Ascending (λ m. m.id) 0 q.messages
    → watermark_in key q.consumers ≡ some w
    → pending key (complete_all key ids q) ≡ filter (λ m. not (listed ids m.id)) (pending key q)
unfolding complete_all
pending-complete_all_started key [] q w a e = sym (filter-true (pending key q))
pending-complete_all_started key ((id, now) ∷ ids) q w a e =
    pending-complete_all_started key ids (complete_consumer_message key id now q)
      (landed key id now q) a (watermark_in_complete key id now q)
    ∙ (ap (filter (λ m. not (listed ids m.id))) (pending_complete key id now q a)
        ∙ (filter-filter (λ m. not (listed ids m.id)) (λ m. not (m.id == id))
              (pending key (ensure_consumer key q))
            ∙ (filter_cong (λ m. not (m.id == id) && not (listed ids m.id))
                  (λ m. not (listed ((id, now) ∷ ids) m.id)) (pending key (ensure_consumer key q))
                  (All-pure _ (λ m. ground arith) _)
                ∙ ap (filter (λ m. not (listed ((id, now) ∷ ids) m.id)))
                    (pending-ensure key q w e))))

-- Tasks of different keys finish in any order: what is left for a consumer that has polled is
-- what was waiting, in its order, without the messages that were completed.
pub pending-complete_all :
    (key : Text) (ids : List (ℕ × ℕ)) (q : Queue)
    → Ascending (λ m. m.id) 0 q.messages
    → pending key (complete_all key ids (ensure_consumer key q))
      ≡ filter (λ m. not (listed ids m.id)) (pending key (ensure_consumer key q))
unfolding ensure_consumer
pending-complete_all key ids q a =
    pending-complete_all_started key ids (ensure_consumer key q)
      (coalesce (watermark_in key q.consumers) 0) a (watermark_in-with_consumer key q.consumers)

module _ (key other : Text) (id now : ℕ) (q : Queue) (differ : same key other ≡ false) where
  watermark_in-complete_other :
      watermark_in other (complete_consumer_message key id now q).consumers
      ≡ watermark_in other q.consumers
  unfolding complete_consumer_message
  watermark_in-complete_other =
      watermark_in-set_other key other (landed key id now q) (marked key id now q).consumers differ
      ∙ watermark_in-with_consumer_other key other q.consumers differ

  is_completed-complete_other :
      (i : ℕ)
      → is_consumer_message_completed other i (complete_consumer_message key id now q)
        ≡ is_consumer_message_completed other i q
  unfolding complete_consumer_message is_consumer_message_completed
  is_completed-complete_other i =
      completed-store key other (landed key id now q) i (marked key id now q).completed (inl differ)
      ∙ (completed-insert key other id i now q.completed ∙ ground arith)

  waits-complete_other :
      (w : ℕ) (m : MessageRow)
      → waits other w (complete_consumer_message key id now q) m ≡ waits other w q m
  unfolding complete_consumer_message boundary
  waits-complete_other w m = rw (is_completed-complete_other m.id)

  -- A consumer's completions never touch what waits for another consumer.
  pub pending-complete_other :
      pending other (complete_consumer_message key id now q) ≡ pending other q
  pending-complete_other = elim (Option-cases (watermark_in other q.consumers)) [
    | inl e ↦
        pending_of_none other (complete_consumer_message key id now q)
          (watermark_in-complete_other ∙ e)
        ∙ sym (pending_of_none other q e)
    | inr (w, e) ↦
        pending_of_watermark other (complete_consumer_message key id now q) w
          (watermark_in-complete_other ∙ e)
        ∙ (unfold complete_consumer_message in
            filter_cong (waits other w (complete_consumer_message key id now q)) (waits other w q)
              q.messages (All-pure _ (waits-complete_other w) q.messages)
            ∙ sym (pending_of_watermark other q w e))
  ]
