-- ===== src/Conversation/History.antt =====
-- The history of a turn: `getCausalTurns`, `getCausalTurnsBeforeTurn`, `hasAssistantReplyForTurn` and
-- `trimTurns` of src/services/conversation-context-repository.ts.
pub mod Window
pub mod Chains
pub mod Splices
use mathlib.Core.List.{reverse}
use ubot_ai_agent.Base.{
  ℕ, zero, suc, ◌+◌, ◌-◌, max, ◌==◌, ltb, if◌then◌else◌, Bool, true, false, not, ◌&&◌, Option, none,
  some, List, [], ◌∷◌, Text, same, length, drop, find, any,
}
use ubot_ai_agent.Store.Delivery.{Direction, user, assistant}
use ubot_ai_agent.Conversation.Tables.{ContextTurn, BranchRow, Conversations, get_branch}

abbrev pub is_turn : Text → ℕ → ContextTurn → Bool
is_turn topic id t = t.id == id && same t.topic_id topic

-- The recursive query: the turn and the chain of its parents in the topic, at most as many as given.
unfoldable pub chain : ℕ → Text → ℕ → List ContextTurn → List ContextTurn
chain zero topic id turns = []
chain (suc depth) topic id turns = elim (find (is_turn topic id) turns) [
  | none ↦ []
  | some t ↦ t ∷ elim t.parent_turn_id [ none ↦ [] | some parent ↦ chain depth topic parent turns ]
]

abbrev pub chars : List ContextTurn → ℕ
chars [] = 0
chars (t ∷ ts) = length t.content + chars ts

-- The text's last units.
abbrev pub ending : ℕ → Text → Text
ending n s = drop (length s - n) s

unfoldable pub cut_turn : ℕ → ContextTurn → ContextTurn
cut_turn limit t = record t { content = ending limit t.content }

-- The loop that sheds the first turns, and the cut of the last one.
unfoldable pub shed : ℕ → List ContextTurn → List ContextTurn
unfolding cut_turn
shed limit [] = []
shed limit (t ∷ []) = (if ltb limit (length t.content) then cut_turn limit t else t) ∷ []
shed limit (t ∷ next ∷ ts) =
    let rest = shed limit (next ∷ ts) in
    if ltb limit (chars (t ∷ next ∷ ts)) then rest else t ∷ next ∷ ts

unfoldable pub trim_turns : List ContextTurn → ℕ → ℕ → List ContextTurn
unfolding shed
trim_turns turns max_turns max_chars =
    shed (max 1 max_chars) (drop (length turns - max 1 max_turns) turns)

-- The limits that the callers leave out are DEFAULT_MAX_TURNS and DEFAULT_MAX_CHARS.
unfoldable pub turns_of : BranchRow → ℕ → ℕ → ℕ → Conversations → List ContextTurn
unfolding chain trim_turns
turns_of b head max_turns max_chars s =
    trim_turns (reverse (chain 256 b.topic_id head s.turns)) max_turns max_chars

unfoldable pub get_causal_turns : Text → Option ℕ → ℕ → ℕ → Conversations → List ContextTurn
unfolding turns_of get_branch
get_causal_turns branch head max_turns max_chars s = elim (get_branch branch s) [
  | none ↦ []
  | some b ↦ elim head [
    | some h ↦ turns_of b h max_turns max_chars s
    | none ↦ elim b.head_turn_id [ none ↦ [] | some h ↦ turns_of b h max_turns max_chars s ]
  ]
]

abbrev pub is_user : Direction → Bool
is_user user = true
is_user assistant = false

unfoldable pub get_causal_turns_before_turn : Text → ℕ → ℕ → ℕ → Conversations → List ContextTurn
unfolding get_causal_turns
get_causal_turns_before_turn branch turn max_turns max_chars s =
    elim (find (λ t. t.id == turn && (same t.branch_id branch && is_user t.role)) s.turns) [
      | none ↦ []
      | some t ↦ elim t.parent_turn_id [
        | none ↦ []
        | some parent ↦ get_causal_turns branch (some parent) max_turns max_chars s
      ]
    ]

abbrev pub is_parent : ℕ → Option ℕ → Bool
is_parent id none = false
is_parent id (some p) = p == id

unfoldable pub has_assistant_reply_for_turn : Text → ℕ → Conversations → Bool
has_assistant_reply_for_turn branch turn s =
    any (λ t. same t.branch_id branch && (is_parent turn t.parent_turn_id && not (is_user t.role)))
      s.turns
