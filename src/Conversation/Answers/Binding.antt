-- ===== src/Conversation/Answers/Binding.antt =====
-- `insertMessageBinding` leaves the histories.
use ubot_ai_agent.Base.{
  ◌≡◌, refl, subst, inl, inr, trim, any, All, All-append, ok, checked, Bool-cases,
}
use ubot_ai_agent.Base.Updates.{All-update}
use ubot_ai_agent.Store.Delivery.{ContextRow, is_context}
use ubot_ai_agent.Conversation.Tables.{Conversations, bound_elsewhere}
use ubot_ai_agent.Conversation.History.Chains.{IsAtMost}
use ubot_ai_agent.Conversation.Saving.Known.{IsAtMost-coalesce}
use ubot_ai_agent.Conversation.Saving.Parents.{ok_injective}
use ubot_ai_agent.Conversation.Answers.{put_binding, insert_message_binding}

-- Binding a message leaves the turns, the branches and the routes.
pub record IsBound (s s' : Conversations) : Type 0 where
  pub same_turns : s.turns ≡ s'.turns
  pub same_last : s.last_turn ≡ s'.last_turn
  pub same_branches : s.branches ≡ s'.branches
  pub same_routes : s.routes ≡ s'.routes
  pub given : All (λ c. IsAtMost s.last_turn c.turn_id) s'.contexts

module _ (binding : ContextRow) (s : Conversations)
    (given : All (λ c. IsAtMost s.last_turn c.turn_id) s.contexts)
    (own_turn : IsAtMost s.last_turn binding.turn_id) where
  put_binding-given : All (λ c. IsAtMost s.last_turn c.turn_id) (put_binding binding s.contexts)
  unfolding put_binding
  put_binding-given =
      let id = trim binding.platform_message_id in
      elim (Bool-cases (any (is_context binding.group_id id) s.contexts)) [
        | inl bound ↦ rw bound (
            All-update (is_context binding.group_id id) _ _ _
              (λ c e h. IsAtMost-coalesce s.last_turn c.turn_id binding.turn_id h own_turn)
              (λ c e h. h) s.contexts given)
        | inr unbound ↦
            rw unbound
              (All-append (λ c. IsAtMost s.last_turn c.turn_id) s.contexts _ given (own_turn, tt))
      ]

  pub binding-IsBound :
      (s' : Conversations) → insert_message_binding binding s ≡ ok s' → IsBound s s'
  unfolding insert_message_binding
  binding-IsBound s' e =
      let e' = ok_injective _ s' (checked _ bound_elsewhere _ s' e).1 in
      subst (IsBound s) e' (record {
        same_turns = refl;
        same_last = refl;
        same_branches = refl;
        same_routes = refl;
        given = put_binding-given;
      })
