-- ===== src/Store/Consumers/Watermark.antt =====
-- The watermark of a consumer: it only grows, stops where work is left, and recovers from a
-- cleared table.
use ubot_ai_agent.Base.{
  ℕ, suc, ltb, max, ◌≤◌, ◌<◌, ◌≡◌, ap, ◌∙◌, sym, true, false, none, some, List, [], ◌∷◌, ◌++◌,
  filter-append, coalesce, arith, Bool-cases, length, count-le-length, Text, same, inl, inr, ◌⊎◌,
}
use ubot_ai_agent.Base.Updates.{update}
use ubot_ai_agent.Store.Messages.{MessageRow}
use ubot_ai_agent.Store.Consumers.{
  ConsumerRow, Queue, watermark_in, ensure_consumer, is_consumer_message_completed, pending,
  boundary, walked, insert_completed, complete_consumer_message, next_message, max_id,
  advance_watermark, reset_watermark_if_stale, reset_consumers,
}
use ubot_ai_agent.Store.Consumers.Walk.{walk_stops}
use ubot_ai_agent.Store.Consumers.Completion.{
  watermark_in-set, pending_of_watermark, waits, watermark_in_complete, landed-ge, landed, marked,
}

landed_stops :
    (key : Text) (id now : ℕ) (q : Queue)
    → (next_message (landed key id now q) q.messages ≡ none)
      ⊎ ((m : MessageRow) × (next_message (landed key id now q) q.messages ≡ some m)
          × (is_consumer_message_completed key m.id (insert_completed key id now q) ≡ false))
unfolding walked insert_completed ensure_consumer is_consumer_message_completed
landed_stops key id now q =
    walk_stops (λ i. is_consumer_message_completed key i (marked key id now q)) q.messages
      (suc (length q.messages))
      (boundary q (coalesce (watermark_in key (marked key id now q).consumers) 0))
      (omega (
        arith,
        count-le-length
            (λ m.
              ltb (boundary q (coalesce (watermark_in key (marked key id now q).consumers) 0)) m.id)
            q.messages,
      ))

-- After a completion the stored watermark is not below the old one or the cutover, and the first
-- message above it, if there is one, is not completed: the loop has run to its end.
pub complete-watermark :
    (key : Text) (id now : ℕ) (q : Queue)
    → (w : ℕ) × (watermark_in key (complete_consumer_message key id now q).consumers ≡ some w)
      × (coalesce (watermark_in key q.consumers) 0 ≤ w)
      × (coalesce q.cutover 0 ≤ w)
      × ((next_message w q.messages ≡ none)
          ⊎ ((m : MessageRow) × (next_message w q.messages ≡ some m)
              × (is_consumer_message_completed key m.id (insert_completed key id now q) ≡ false)))
complete-watermark key id now q =
    let h = landed-ge key id now q in
    (
      landed key id now q,
      watermark_in_complete key id now q,
      unfold boundary in omega arith,
      unfold boundary in omega arith,
      landed_stops key id now q,
    )

advanced :
    (key : Text) (id w : ℕ) (cs : List ConsumerRow)
    → watermark_in key cs ≡ some w
    → watermark_in key
        (update (λ c. same c.key key) (λ c. record c { watermark_id = max c.watermark_id id }) cs)
      ≡ some (max w id)
unfolding watermark_in
advanced key id w [] e = cc
advanced key id w (c ∷ cs) e = ground (arith, advanced key id w cs)

-- `advanceWatermark` keeps the larger of the two.
pub watermark_in-advance :
    (key : Text) (id w : ℕ) (q : Queue)
    → watermark_in key q.consumers ≡ some w
    → watermark_in key (advance_watermark key id q).consumers ≡ some (max w id)
unfolding advance_watermark
watermark_in-advance key id w q e = advanced key id w q.consumers e

reset_bound :
    (key : Text) (ms : List MessageRow) (cs : List ConsumerRow) (w : ℕ)
    → watermark_in key cs ≡ some w
    → (v : ℕ) × (watermark_in key (reset_consumers key ms cs) ≡ some v) × (v ≤ max_id ms)
unfolding reset_consumers
reset_bound key ms cs w e = elim (Bool-cases (ltb (max_id ms) w)) [
  | inl stale ↦ (
    0,
    rw (e, reset_consumers) (rw (stale, reset_consumers) (watermark_in-set key 0 w cs e)),
    omega arith,
  )
  | inr fine ↦ (w, rw (e, reset_consumers) (rw (fine, reset_consumers) e), ground arith)
]

joins :
    (key : Text) (q : Queue) (m : MessageRow) (v : ℕ)
    → v < m.id
    → coalesce q.cutover 0 < m.id
    → is_consumer_message_completed key m.id q ≡ false
    → waits key v q m ≡ true
unfolding boundary
joins key q m v a b c = ground arith

-- Once a stale watermark is reset, each later message is polled: a row stored above all others, not
-- completed and above the cutover, joins the consumer's queue at its end.
pub pending-reset_append :
    (key : Text) (q : Queue) (m : MessageRow) (w : ℕ)
    → watermark_in key q.consumers ≡ some w
    → max_id q.messages < m.id
    → coalesce q.cutover 0 < m.id
    → is_consumer_message_completed key m.id q ≡ false
    → pending key (record (reset_watermark_if_stale key q) { messages = q.messages ++ m ∷ [] })
      ≡ pending key (reset_watermark_if_stale key q) ++ m ∷ []
unfolding reset_watermark_if_stale is_consumer_message_completed pending
pending-reset_append key q m w e above after fresh =
    let (v, at, low) = reset_bound key q.messages q.consumers w e in
    pending_of_watermark key
      (record (reset_watermark_if_stale key q) { messages = q.messages ++ m ∷ [] }) v at
    ∙ (filter-append (waits key v (reset_watermark_if_stale key q)) q.messages (m ∷ [])
        ∙ ((rw (joins key q m v (omega arith) after fresh))
            ∙ ap (λ l. l ++ m ∷ [])
                (sym (pending_of_watermark key (reset_watermark_if_stale key q) v at))))
