-- ===== src/Conversation/Tests.antt =====
-- Runs of the conversation context.
use ubot_ai_agent.Base.{
  ℕ, ◌≡◌, refl, Bool, true, false, Option, none, some, List, [], ◌∷◌, Text, codes, map, Result, ok,
  throws, arith,
}
use ubot_ai_agent.Store.Delivery.{assistant}
use ubot_ai_agent.Conversation.Tables.{
  ContextTurn, Reason, explicit_reply, same_user_follow_up, new_topic, Conversations,
}
use ubot_ai_agent.Conversation.Places.{SaveInput, FreshIds, ConversationRoute}
use ubot_ai_agent.Conversation.Saving.{save_message_route, save_explicit_reply_route}
use ubot_ai_agent.Conversation.Saving.Known.{IsKnown}
use ubot_ai_agent.Conversation.Saving.Histories.{IsSaved, save_message_route-IsSaved}
use ubot_ai_agent.Conversation.History.{trim_turns, get_causal_turns_before_turn}
use ubot_ai_agent.Conversation.History.Window.{IsWindow, trim_turns-IsWindow}
use ubot_ai_agent.Conversation.Answers.{AnswerInput, append_assistant_turn}
use ubot_ai_agent.Conversation.Answers.Histories.{IsAnswered, append_assistant_turn-IsAnswered}

abbrev nothing : Conversations
nothing = record {
  topics = [];
  branches = [];
  turns = [];
  last_turn = 0;
  contexts = [];
  routes = [];
  active = [];
  outbox = [];
  bot_messages = [];
}

abbrev message : ℕ → Text → Text → Reason → SaveInput
message row id content reason = record {
  source_row_id = row;
  group_id = codes "g";
  user_id = codes "u";
  source_message_id = id;
  reply_to_message_id = none;
  route_reason = reason;
  content = content;
  created_at = row;
  topic_id = none;
  branch_id = none;
  parent_turn_id = none;
  title = none;
  keywords = [];
}

abbrev ids : FreshIds
ids = record { topic = codes "t"; branch = codes "b" }

abbrev question : SaveInput
question = message 1 (codes "m1") (codes "question") new_topic

abbrev more : SaveInput
more = record (message 2 (codes "m2") (codes "more") same_user_follow_up) {
  topic_id = some (codes "t");
  branch_id = some (codes "b");
  parent_turn_id = some 1;
}

-- The state behind a call that is known to succeed.
abbrev state : {A : Type 0} {E : Type 0} → Result E (A × Conversations) → Conversations
state (ok (a, s)) = s
state (throws e) = nothing

abbrev asked : Conversations
unfolding save_message_route
asked = state (save_message_route ids question nothing)

abbrev continued : Conversations
unfolding save_message_route
continued = state (save_message_route ids more asked)

abbrev continued_route : ConversationRoute
continued_route = record {
  topic_id = codes "t";
  branch_id = codes "b";
  source_message_id = codes "m2";
  reply_to_message_id = none;
  route_reason = same_user_follow_up;
  source_row_id = 2;
  parent_turn_id = some 1;
  turn_id = 2;
}

-- A reply that quotes the second message.
abbrev quoting : SaveInput
quoting = record (message 3 (codes "m3") (codes "quoting") explicit_reply) {
  reply_to_message_id = some (codes "m2");
}

abbrev quoted : Conversations
unfolding save_explicit_reply_route
quoted = state (save_explicit_reply_route ids quoting 60 continued)

-- The answer to the first message comes last.
abbrev late_answer : AnswerInput
late_answer = record {
  topic_id = codes "t";
  branch_id = codes "b";
  content = codes "answer";
  created_at = 4;
  parent_turn_id = some 1;
  delivery_id = none;
  platform_message_id = some (codes "m4");
  delivery_ids = [];
}

abbrev said : ContextTurn
said = record {
  id = 4;
  topic_id = codes "t";
  branch_id = codes "b";
  parent_turn_id = some 1;
  role = assistant;
  user_id = none;
  content = codes "answer";
  source_message_id = none;
  delivery_id = none;
  platform_message_id = some (codes "m4");
  created_at = 4;
}

abbrev answered : Conversations
unfolding append_assistant_turn
answered = state (append_assistant_turn late_answer quoted)

abbrev contents : List ContextTurn → List Text
contents = map λ t. t.content

-- Before the answer, the quoting message's history is the two messages.
before_answer :
    contents (get_causal_turns_before_turn (codes "b") 3 32 24000 quoted)
    ≡ codes "question" ∷ codes "more" ∷ []
unfolding get_causal_turns_before_turn quoted ubot_ai_agent.Base.trim
before_answer = refl

-- Behind the answer, it has the answer in it, although the quoting message was sent before.
after_answer :
    contents (get_causal_turns_before_turn (codes "b") 3 32 24000 answered)
    ≡ codes "question" ∷ codes "answer" ∷ codes "more" ∷ []
unfolding get_causal_turns_before_turn answered quoted ubot_ai_agent.Base.trim
after_answer = refl

trim_turns-IsWindow_example : IsWindow quoted.turns 2 11 (trim_turns quoted.turns 2 11)
unfolding quoted save_explicit_reply_route ubot_ai_agent.Base.trim
trim_turns-IsWindow_example = trim_turns-IsWindow quoted.turns 2 11 (omega arith)

asked-IsKnown : IsKnown asked
unfolding asked save_message_route
asked-IsKnown = record {
  turns = ((omega arith, tt), tt);
  heads = (omega arith, tt);
  contexts = (omega arith, tt);
  routes = (omega arith, tt);
}

quoted-IsKnown : IsKnown quoted
unfolding quoted save_explicit_reply_route ubot_ai_agent.Base.trim
quoted-IsKnown = record {
  turns = ((omega arith, tt), ((omega arith, omega arith), ((omega arith, omega arith), tt)));
  heads = (omega arith, tt);
  contexts = (omega arith, (omega arith, (omega arith, tt)));
  routes = (omega arith, (omega arith, (omega arith, tt)));
}

save_message_route-IsSaved_example :
    IsSaved more asked continued continued_route
    × ((fresh' : FreshIds) (again : SaveInput)
        → again.source_row_id ≡ 2
        → save_message_route fresh' again continued ≡ ok (continued_route, continued))
unfolding save_message_route continued asked ubot_ai_agent.Base.trim
save_message_route-IsSaved_example =
    save_message_route-IsSaved ids more asked continued continued_route asked-IsKnown (omega arith)
      refl refl

append_assistant_turn-IsAnswered_example : IsAnswered late_answer 1 quoted answered
unfolding append_assistant_turn answered quoted ubot_ai_agent.Base.trim
append_assistant_turn-IsAnswered_example =
    append_assistant_turn-IsAnswered late_answer 1 quoted answered said quoted-IsKnown (omega arith)
      refl refl
