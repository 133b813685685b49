-- ===== src/Store/Consumers/Tests.antt =====
-- Two workers on a ledger of three messages.
use ubot_ai_agent.Base.{
  ltb, ℕ, ◌≡◌, refl, ◌==◌, not, none, some, [], ◌∷◌, ◌++◌, Text, codes, false, true, coalesce,
  filter, arith, ◌⊎◌, ◌≤◌,
}
use ubot_ai_agent.Store.Messages.{MessageRow}
use ubot_ai_agent.Store.Consumers.{
  Queue, ensure_consumer, pending, complete_consumer_message, complete_all,
  reset_watermark_if_stale, watermark_in, next_message, is_consumer_message_completed,
  insert_completed, max_id,
}
use ubot_ai_agent.Store.Consumers.Completion.{pending_complete}
use ubot_ai_agent.Store.Consumers.Order.{listed, pending-complete_all}
use ubot_ai_agent.Store.Consumers.Recheck.{is_consumer_message_completed_lem}
use ubot_ai_agent.Store.Consumers.Watermark.{complete-watermark, pending-reset_append}

abbrev row : ℕ → MessageRow
row id = record {
  id = id;
  group_id = codes "42";
  user_id = codes "10001";
  self_id = codes "9";
  msg_id = codes "a";
  msg_time = 1000;
  text = codes "hello";
  images_json = codes "[]";
  sender_card = none;
  sender_nickname = none;
  sender_role = none;
  reply_to = none;
  verified_mention_user_ids = [];
  has_at_bot = false;
  is_bot_msg = false;
  processable = true;
  drop_reason = none;
  created_at = 1000;
  dedup_key = codes "9:42:a";
}

abbrev chat : Text
chat = codes "chat"

abbrev memory : Text
memory = codes "memory"

abbrev ledger : Queue
ledger = record {
  messages = row 1 ∷ row 2 ∷ row 4 ∷ [];
  consumers = record { key = memory; watermark_id = 1 } ∷ [];
  completed = [];
  routes = [];
  cutover = none;
}

-- The ledger after it was cleared, while a watermark of 9 survives.
abbrev cleared : Queue
cleared = record ledger {
  messages = row 1 ∷ [];
  consumers = record { key = memory; watermark_id = 9 } ∷ [];
}

out_of_order : pending chat (complete_all chat ((2, 50) ∷ (1, 60) ∷ []) ledger) ≡ row 4 ∷ []
unfolding pending complete_all next_message is_consumer_message_completed
out_of_order = refl

pending_complete_example :
    pending chat (complete_consumer_message chat 2 50 ledger)
    ≡ filter (λ m. not (m.id == 2)) (pending chat (ensure_consumer chat ledger))
pending_complete_example =
    pending_complete chat 2 50 ledger (ground arith, (ground arith, (ground arith, tt)))

pending-complete_all_example :
    pending chat (complete_all chat ((2, 50) ∷ (1, 60) ∷ []) (ensure_consumer chat ledger))
    ≡ filter
        (λ m. not (listed ((2, 50) ∷ (1, 60) ∷ []) m.id))
        (pending chat (ensure_consumer chat ledger))
pending-complete_all_example =
    pending-complete_all chat ((2, 50) ∷ (1, 60) ∷ []) ledger
      (ground arith, (ground arith, (ground arith, tt)))

complete-watermark_example :
    (w : ℕ) × (watermark_in chat (complete_consumer_message chat 1 50 ledger).consumers ≡ some w)
    × (coalesce (watermark_in chat ledger.consumers) 0 ≤ w)
    × (coalesce ledger.cutover 0 ≤ w)
    × ((next_message w ledger.messages ≡ none)
        ⊎ ((m : MessageRow) × (next_message w ledger.messages ≡ some m)
            × (is_consumer_message_completed chat m.id (insert_completed chat 1 50 ledger)
                ≡ false)))
complete-watermark_example = complete-watermark chat 1 50 ledger

pending-reset_append_example :
    pending memory
      (record (reset_watermark_if_stale memory cleared) { messages = row 1 ∷ row 2 ∷ [] })
    ≡ pending memory (reset_watermark_if_stale memory cleared) ++ row 2 ∷ []
unfolding watermark_in is_consumer_message_completed max_id
pending-reset_append_example =
    pending-reset_append memory cleared (row 2) 9 refl (ground arith) (ground arith) refl

-- Message 1 is completed and passed by the watermark, and the check no longer knows it.
is_consumer_message_completed_example :
    is_consumer_message_completed chat 1 (complete_consumer_message chat 1 50 ledger) ≡ ltb 1 1
unfolding complete_consumer_message next_message is_consumer_message_completed
is_consumer_message_completed_example = is_consumer_message_completed_lem chat 1 50 1 ledger refl
