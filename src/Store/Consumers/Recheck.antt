-- ===== src/Store/Consumers/Recheck.antt =====
-- `isConsumerMessageCompleted` behind a completion: what it still knows.
use ubot_ai_agent.Base.{
  ℕ, ◌≤◌, leb, ltb, false, not, ◌&&◌, some, List, [], ◌∷◌, ◌≡◌, refl, ◌∙◌, inl, inr, filter, any,
  arith, Bool-cases, Text, same, same_refl,
}
use ubot_ai_agent.Store.Consumers.{
  CompletedRow, Queue, watermark_in, is_row, is_consumer_message_completed,
  complete_consumer_message,
}
use ubot_ai_agent.Store.Consumers.Completion.{
  watermark_in_complete, completed-insert, completed-store, landed, marked,
}

-- Rows at or below the watermark are deleted.
completed-store_low :
    (key : Text) (w i : ℕ) (rows : List CompletedRow)
    → i ≤ w
    → any (is_row key i) (filter (λ r. not (same r.consumer_key key && leb r.message_id w)) rows)
      ≡ false
unfolding is_row
completed-store_low key w i [] h = refl
completed-store_low key w i (r ∷ rows) h = ground (arith, completed-store_low key w i rows)

-- Behind the completion of a message, `isConsumerMessageCompleted` says yes exactly if the stored
-- watermark has not passed the message; once it has, the answer is no, as for a message never handled.
pub is_consumer_message_completed_lem :
    (key : Text) (id now w : ℕ) (q : Queue)
    → watermark_in key (complete_consumer_message key id now q).consumers ≡ some w
    → is_consumer_message_completed key id (complete_consumer_message key id now q) ≡ ltb w id
unfolding complete_consumer_message is_consumer_message_completed
is_consumer_message_completed_lem key id now w q e =
    let reached : landed key id now q ≡ w = ground (arith, watermark_in_complete key id now q) in
    elim (Bool-cases (ltb w id)) [
      | inl above ↦
          completed-store key key (landed key id now q) id (marked key id now q).completed
            (inr (ground arith))
          ∙ (completed-insert key key id id now q.completed ∙ ground (arith, same_refl key))
      | inr passed ↦
          completed-store_low key (landed key id now q) id (marked key id now q).completed
            (ground arith)
          ∙ ground arith
    ]
