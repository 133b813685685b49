-- ===== src/Store/Delivery/Tests.antt =====
-- A reply with a conversation route, delivered as QQ message 777.
use ubot_ai_agent.Base.{
  ℕ, ◌≡◌, refl, ◌==◌, true, false, none, some, List, [], ◌∷◌, Text, codes, trim, coalesce, Result,
  ok, throws, length,
}
use ubot_ai_agent.Store.Numbers.{Fault, other_message_id}
use ubot_ai_agent.Store.Outbox.{OutboxRow, Context, sending}
use ubot_ai_agent.Store.Delivery.{
  ContextRow, Ledger, user, is_known_bot_message, ack_outbox_delivery, attach_outbox_contexts,
}
use ubot_ai_agent.Store.Delivery.Binding.{IsBound, binding_stays}
use ubot_ai_agent.Store.Delivery.Acks.{IsExposed, IsRouted, ack_outbox_delivery_lem, ack-conflict}

abbrev reply_row : OutboxRow
reply_row = record {
  id = 1;
  group_id = codes "42";
  reply_to = none;
  kind = codes "forward";
  text = codes "hi";
  forward_payload_json = none;
  auto_recall_after_ms = some 60;
  auto_recall_deadline_ms = some 100;
  status = sending;
  retry_after = none;
  attempts = 1;
  topic_id = some (codes "t");
  branch_id = some (codes "main");
  source_turn_id = some 7;
  turn_id = some 8;
  delivery_id = some (codes "outbox:1");
  platform_message_id = none;
  sent_at = none;
  updated_at = some 20;
  created_at = 10;
}

-- The user's message 700 is bound to the same route.
abbrev asked : ContextRow
asked = record {
  group_id = codes "42";
  platform_message_id = codes "700";
  topic_id = codes "t";
  branch_id = codes "main";
  turn_id = some 7;
  direction = user;
  created_at = 5;
}

abbrev ledger : Ledger
ledger = record {
  outbox = record { rows = reply_row ∷ []; sequence = 1 };
  recalls = record { rows = []; sequence = 0 };
  bot_messages = [];
  contexts = asked ∷ [];
  turns = [];
}

abbrev result_of : Ledger → Result Fault Ledger → Ledger
result_of s (ok t) = t
result_of s (throws e) = s

abbrev delivered : Ledger
delivered = result_of ledger (ack_outbox_delivery 1 (codes " 777 ") 30 true 31 ledger)

abbrev route : Context
route = record {
  topic_id = codes "t";
  branch_id = codes "main";
  source_turn_id = some 7;
  turn_id = some 8;
}

abbrev attached_again : Ledger
attached_again = result_of ledger (attach_outbox_contexts (codes "outbox:1" ∷ []) route 31 ledger)

acknowledged : ack_outbox_delivery 1 (codes " 777 ") 30 true 31 ledger ≡ ok delivered
unfolding ack_outbox_delivery trim ubot_ai_agent.Store.Recalls.Insertion.insert_message_recall
    ubot_ai_agent.Store.Numbers.normalize_policy ubot_ai_agent.Store.Numbers.normalize_epoch_ms
    ubot_ai_agent.Store.Numbers.add_epoch_ms
acknowledged = refl

attached_ok : attach_outbox_contexts (codes "outbox:1" ∷ []) route 31 ledger ≡ ok attached_again
unfolding attach_outbox_contexts trim ubot_ai_agent.Store.Outbox.attach_row
attached_ok = refl

recall_planned : length delivered.recalls.rows ≡ 1
unfolding ack_outbox_delivery trim ubot_ai_agent.Store.Recalls.Insertion.insert_message_recall
    ubot_ai_agent.Store.Numbers.normalize_policy ubot_ai_agent.Store.Numbers.normalize_epoch_ms
    ubot_ai_agent.Store.Numbers.add_epoch_ms
recall_planned = refl

known_now : is_known_bot_message (codes "42") (some (codes "777")) delivered.bot_messages ≡ true
unfolding ack_outbox_delivery is_known_bot_message trim
    ubot_ai_agent.Store.Recalls.Insertion.insert_message_recall
    ubot_ai_agent.Store.Numbers.normalize_policy ubot_ai_agent.Store.Numbers.normalize_epoch_ms
    ubot_ai_agent.Store.Numbers.add_epoch_ms
known_now = refl

binding_stays_example :
    IsBound (codes "42") (codes "700") asked delivered
    × IsBound (codes "42") (codes "700") asked attached_again
binding_stays_example =
    binding_stays (codes "42") (codes "700") asked ledger delivered attached_again 1 (codes " 777 ")
      30 true 31 (codes "outbox:1" ∷ []) route refl acknowledged attached_ok

ack_outbox_delivery_example :
    IsExposed 1 (trim (codes " 777 ")) 30 reply_row delivered
    × IsRouted (codes "42") (trim (codes " 777 ")) (codes "t") (codes "main") delivered
ack_outbox_delivery_example =
    ack_outbox_delivery_lem 1 (codes " 777 ") 30 true 31 ledger delivered reply_row (codes "t")
      (codes "main") refl refl refl acknowledged

ack-conflict_example :
    ack_outbox_delivery 1 (codes "778") 40 true 41 delivered ≡ throws other_message_id
unfolding ubot_ai_agent.Base.trim
ack-conflict_example =
    ack-conflict 1 (codes " 777 ") (codes "778") 30 40 true true 31 41 ledger delivered reply_row
      refl refl refl refl acknowledged
