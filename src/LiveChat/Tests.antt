-- ===== src/LiveChat/Tests.antt =====
-- Runs of the live chat.
use ubot_ai_agent.Base.{
  ℕ, ◌≡◌, refl, Bool, true, false, Option, none, some, List, [], ◌∷◌, ◌++◌, codes, map, Text, arith,
}
use ubot_ai_agent.LiveChat.{
  LiveChat, MessageContext, add_message, get_messages_between, get_window_candidate, message_of,
}
use ubot_ai_agent.LiveChat.Candidates.{IsBest, get_window_candidate-IsBest}
use ubot_ai_agent.LiveChat.Windows.{get_messages_between-add_message}

abbrev quiet : LiveChat
quiet = record {
  buffers = λ key. [];
  bot_activities = λ group. [];
  started_at = 0;
  last_prune_time = 0;
}

abbrev plain : MessageContext
plain = record { source_message_id = none; reply_message_id = none }

abbrev busy : LiveChat
unfolding add_message
busy =
    add_message (codes "g") (codes "b") (codes "two") 20 plain
      (add_message (codes "g") (codes "a") (codes "one") 10 plain quiet)

-- The user whose last message is later.
chosen :
    elim (get_window_candidate (codes "g") (codes "a" ∷ codes "b" ∷ []) 0 30 busy) [
      | none ↦ codes ""
      | some c ↦ c.user_id
    ]
    ≡ codes "b"
unfolding get_window_candidate busy ubot_ai_agent.Base.trim
chosen = refl

get_window_candidate-IsBest_example :
    IsBest
      (codes "g")
      0
      30
      busy
      (codes "a" ∷ codes "b" ∷ [])
      (get_window_candidate (codes "g") (codes "a" ∷ codes "b" ∷ []) 0 30 busy)
get_window_candidate-IsBest_example =
    get_window_candidate-IsBest (codes "g") (codes "a" ∷ codes "b" ∷ []) 0 30 busy

get_messages_between-add_message_example :
    get_messages_between
      (codes "g")
      (codes "a")
      5
      40
      (add_message (codes "g") (codes "a") (codes "three") 30 plain busy)
    ≡ get_messages_between (codes "g") (codes "a") 5 40 busy
      ++ message_of (codes "a") (codes "three") 30 plain ∷ []
unfolding ubot_ai_agent.Base.trim message_of
get_messages_between-add_message_example =
    get_messages_between-add_message 5 40 30 (omega arith) (codes "g") (codes "a") (codes "three")
      plain busy refl (codes "g") (codes "a")
