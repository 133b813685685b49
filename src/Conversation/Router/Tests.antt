-- ===== src/Conversation/Router/Tests.antt =====
-- Runs of the router.
use ubot_ai_agent.Base.{
  ℕ, ◌≡◌, ◌⊎◌, refl, leb, ◌&&◌, ◌||◌, Bool, true, false, Option, none, some, List, [], ◌∷◌, Text,
  codes, all, ok, throws,
}
use ubot_ai_agent.Conversation.Tables.{same_user_follow_up, Conversations}
use ubot_ai_agent.Conversation.Places.{FreshIds, ConversationRoute}
use ubot_ai_agent.Conversation.Words.{Unicode, character_jaccard, extract_effective_keywords}
use ubot_ai_agent.Conversation.Policy.{RouterOptions, RouteInput}
use ubot_ai_agent.Conversation.Router.{routed, resolve}
use ubot_ai_agent.Conversation.Router.Continuations.{IsQuoted, IsFollowing, resolve-Joins}
use ubot_ai_agent.Conversation.Router.Repeats.{resolve-repeat}

-- Unicode as far as these texts need it: lower case already, Han from U+4E00 to U+9FFF.
abbrev plain : Unicode
plain = record {
  nfkc = λ t. t;
  lower_case = λ t. t;
  is_letter_or_number =
      all λ u. (leb 48 u && leb u 57) || (leb 97 u && leb u 122) || (leb 19968 u && leb u 40959);
  is_han = all λ u. leb 19968 u && leb u 40959;
  encode = λ t. t;
}

abbrev defaults : RouterOptions
defaults = record {
  auto_continue_window_ms = none;
  explicit_reply_window_ms = none;
  similarity_threshold = none;
}

abbrev nothing : Conversations
nothing = record {
  topics = [];
  branches = [];
  turns = [];
  last_turn = 0;
  contexts = [];
  routes = [];
  active = [];
  outbox = [];
  bot_messages = [];
}

abbrev said : ℕ → Text → Text → RouteInput
said row id text = record {
  source_row_id = row;
  group_id = codes "g";
  user_id = codes "u";
  source_message_id = id;
  reply_to_message_id = none;
  text = text;
}

abbrev ids : FreshIds
ids = record { topic = codes "t"; branch = codes "b" }

abbrev others : FreshIds
others = record { topic = codes "t2"; branch = codes "b2" }

abbrev asked : Conversations
unfolding resolve
asked = (resolve plain defaults ids others (said 1 (codes "m1") (codes "北京天气")) 1 nothing).1

abbrev followed : Conversations
unfolding resolve
followed = (resolve plain defaults others ids (said 2 (codes "m2") (codes "那上海呢")) 2 asked).1

abbrev route : ConversationRoute
route = record {
  topic_id = codes "t";
  branch_id = codes "b";
  source_message_id = codes "m2";
  reply_to_message_id = none;
  route_reason = same_user_follow_up;
  source_row_id = 2;
  parent_turn_id = some 1;
  turn_id = 2;
}

keywords :
    extract_effective_keywords plain (codes "c++ 怎么学 go")
    ≡ codes "c++" ∷ codes "go" ∷ codes "么学" ∷ codes "怎么学" ∷ []
unfolding extract_effective_keywords
keywords = refl

-- Three of five characters.
alike :
    character_jaccard plain (codes "北京天气") (codes "天气，北海")
    ≡ record { numerator = 3; denominator = 5 }
unfolding character_jaccard
alike = refl

resolve-Joins_example :
    IsQuoted defaults (said 2 (codes "m2") (codes "那上海呢")) 2 asked 1
    ⊎ IsFollowing plain defaults (said 2 (codes "m2") (codes "那上海呢")) 2 asked 1
unfolding resolve ubot_ai_agent.Base.trim ubot_ai_agent.Base.starts_with
resolve-Joins_example =
    resolve-Joins plain defaults others ids (said 2 (codes "m2") (codes "那上海呢")) 2 1 asked followed
      route refl refl refl

resolve-repeat_example :
    resolve plain defaults ids others (said 2 (codes "m2") (codes "好")) 9 followed
    ≡ (routed route, followed)
unfolding resolve ubot_ai_agent.Base.trim ubot_ai_agent.Base.starts_with
resolve-repeat_example =
    resolve-repeat plain defaults others ids (said 2 (codes "m2") (codes "那上海呢")) 2 asked followed
      route refl plain defaults ids others (said 2 (codes "m2") (codes "好")) 9 refl
