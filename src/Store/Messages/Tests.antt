-- ===== src/Store/Messages/Tests.antt =====
-- The message ledger on concrete messages.
use ubot_ai_agent.Base.{
  ◌≡◌, refl, Option, none, some, List, [], ◌∷◌, Text, codes, Bool, true, false, not, ◌==◌, filter,
  All, arith,
}
use ubot_ai_agent.Store.Messages.{
  NewMessage, Messages, empty, insert_message, mark_message_dropped, dedup_key_of,
  normalize_sender_role, normalize_verified_mention_user_ids, count_messages_since,
}
use ubot_ai_agent.Store.Messages.Ingest.{
  IsLedger, ingest, ingest-IsLedger, mark_message_dropped_lem,
}

abbrev message : Text → Text → NewMessage
message id text = record {
  group_id = codes "42";
  user_id = codes "10001";
  self_id = codes "9";
  msg_id = id;
  msg_time = 1000;
  text = text;
  images_json = codes "[]";
  sender_card = some (codes " Ann ");
  sender_nickname = none;
  sender_role = some (codes "Admin");
  reply_to = none;
  verified_mention_user_ids = some (codes "10002" ∷ codes "7" ∷ codes "10002" ∷ []);
  has_at_bot = true;
  is_bot_msg = false;
  processable = none;
  drop_reason = none;
  created_at = 1000;
}

abbrev hello : NewMessage
hello = message (codes "a") (codes "hello")

abbrev again : NewMessage
again = message (codes "a") (codes "hello again")

abbrev bye : NewMessage
bye = message (codes "b") (codes "bye")

empty-IsLedger : IsLedger empty
unfolding empty
empty-IsLedger = record { ordered = tt; bounded = tt; distinct = tt }

abbrev received : Messages
received = ingest (hello ∷ again ∷ bye ∷ []) empty

role_of_admin : normalize_sender_role (some (codes " Admin ")) ≡ some (codes "admin")
unfolding normalize_sender_role ubot_ai_agent.Base.lower ubot_ai_agent.Base.trim
role_of_admin = refl

mentions_once :
    normalize_verified_mention_user_ids (some (codes "10002" ∷ codes "7" ∷ codes "10002" ∷ []))
    ≡ codes "10002" ∷ []
unfolding normalize_verified_mention_user_ids ubot_ai_agent.Base.trim
mentions_once = refl

two_rows : count_messages_since (codes "42") 1000 received ≡ 2
unfolding count_messages_since ingest insert_message empty dedup_key_of
two_rows = refl

ingest-IsLedger_example : IsLedger (ingest (hello ∷ again ∷ bye ∷ []) empty)
ingest-IsLedger_example = ingest-IsLedger (hello ∷ again ∷ bye ∷ []) empty empty-IsLedger

mark_message_dropped_example :
    IsLedger (mark_message_dropped 1 (codes "stale") received)
    × All
        (λ r. r.processable ≡ false)
        (filter (λ r. r.id == 1) (mark_message_dropped 1 (codes "stale") received).rows)
    × (filter (λ r. not (r.id == 1)) (mark_message_dropped 1 (codes "stale") received).rows
        ≡ filter (λ r. not (r.id == 1)) received.rows)
mark_message_dropped_example =
    mark_message_dropped_lem 1 (codes "stale") received ingest-IsLedger_example
