-- ===== src/Runner/Tests.antt =====
-- A runner on a ledger of two messages.
use ubot_ai_agent.Base.{ℕ, ◌≡◌, refl, true, false, none, List, [], ◌∷◌, Text, codes, map, arith}
use ubot_ai_agent.Store.Messages.{MessageRow}
use ubot_ai_agent.Store.Consumers.{Queue}
use ubot_ai_agent.Runner.{
  Options, Task, start, Event, polls, routes, finishes, ends, fails, step, run,
}
use ubot_ai_agent.Runner.Turns.{IsSerial}
use ubot_ai_agent.Runner.Serial.{run-IsSerial}
use ubot_ai_agent.Runner.Retry.{Retains, fails-retained}

abbrev options : Options
options = record {
  consumer_key = codes "chat";
  batch_size = 100;
  max_concurrent_keys = 8;
  default_key_backoff_ms = 5000;
  max_key_backoff_ms = 30000;
}

abbrev row : ℕ → MessageRow
row id = record {
  id = id;
  group_id = codes "42";
  user_id = codes "10001";
  self_id = codes "9";
  msg_id = codes "a";
  msg_time = 1000;
  text = codes "hello";
  images_json = codes "[]";
  sender_card = none;
  sender_nickname = none;
  sender_role = none;
  reply_to = none;
  verified_mention_user_ids = [];
  has_at_bot = false;
  is_bot_msg = false;
  processable = true;
  drop_reason = none;
  created_at = 1000;
  dedup_key = codes "9:42:a";
}

abbrev ledger : Queue
ledger = record {
  messages = row 1 ∷ row 2 ∷ [];
  consumers = [];
  completed = [];
  routes = [];
  cutover = none;
}

abbrev lane : Text
lane = codes "42"

-- Two messages of one key: the second waits for the first.
abbrev begun : List Event
begun = polls 10 ∷ routes lane 11 ∷ routes lane 12 ∷ []

one_at_a_time : map (λ (t : Task). t.message.id) (run options begun (start ledger)).tasks ≡ 1 ∷ []
unfolding run start ubot_ai_agent.Store.Consumers.poll_messages
    ubot_ai_agent.Store.Consumers.ensure_consumer
    ubot_ai_agent.Store.Consumers.is_consumer_message_completed
one_at_a_time = refl

then_the_next :
    map
      (λ (t : Task). t.message.id)
      (run options (finishes lane 20 ∷ ends lane 21 ∷ []) (run options begun (start ledger))).tasks
    ≡ 2 ∷ []
unfolding run start ubot_ai_agent.Store.Consumers.poll_messages
    ubot_ai_agent.Store.Consumers.ensure_consumer
    ubot_ai_agent.Store.Consumers.is_consumer_message_completed
then_the_next = refl

-- A poll under way selected message 1; its handler is done before `keyOf` answers, and the message is
-- queued and handled again.
abbrev raced : List Event
raced =
    polls 10
    ∷ routes lane 11
    ∷ routes lane 12
    ∷ polls 13
    ∷ finishes lane 14
    ∷ ends lane 15
    ∷ routes lane 16
    ∷ routes lane 17
    ∷ finishes lane 18
    ∷ ends lane 19
    ∷ []

handled_again : map (λ (t : Task). t.message.id) (run options raced (start ledger)).tasks ≡ 1 ∷ []
unfolding run start ubot_ai_agent.Store.Consumers.poll_messages
    ubot_ai_agent.Store.Consumers.ensure_consumer
    ubot_ai_agent.Store.Consumers.is_consumer_message_completed
    ubot_ai_agent.Store.Consumers.complete_consumer_message
    ubot_ai_agent.Store.Consumers.next_message
handled_again = refl

run-IsSerial_example :
    IsSerial options (run options (polls 10 ∷ routes lane 11 ∷ routes lane 12 ∷ []) (start ledger))
run-IsSerial_example = run-IsSerial options (polls 10 ∷ routes lane 11 ∷ routes lane 12 ∷ []) ledger

abbrev first_task : Task
first_task = record { key = lane; message = row 1; finished = false }

fails-retained_example :
    Retains options lane 30 first_task
      (step options (fails lane 30) (run options begun (start ledger)))
unfolding run start ubot_ai_agent.Store.Consumers.poll_messages
    ubot_ai_agent.Store.Consumers.ensure_consumer
    ubot_ai_agent.Store.Consumers.is_consumer_message_completed
fails-retained_example =
    fails-retained options lane 30 first_task (run options begun (start ledger))
      (run-IsSerial options begun ledger) refl (ground arith)
