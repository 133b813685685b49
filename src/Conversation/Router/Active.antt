-- ===== src/Conversation/Router/Active.antt =====
-- What the turn before a message is.
use ubot_ai_agent.Base.{ℕ, ◌≡◌, refl, sym, ◌∙◌, ap, subst, inl, inr, none, some, Option-cases}
use ubot_ai_agent.Store.Delivery.{truthy}
use ubot_ai_agent.Conversation.Tables.{Conversations, ActiveRoute, get_active_route}
use ubot_ai_agent.Conversation.History.{get_causal_turns}
use ubot_ai_agent.Conversation.Words.{normalize_message}
use ubot_ai_agent.Conversation.Policy.{RouteInput, previous_user_turn}
use ubot_ai_agent.Conversation.Router.{Preceding, preceding_behind, preceding_of, preceding}
use ubot_ai_agent.Conversation.Router.Parents.{none_ne_some, some_injective}

-- What is found is the active route that is given, its head and the last user turn there.
pub record IsAt (active : ActiveRoute) (s : Conversations) (found : Preceding) : Type 0 where
  pub same_route : active ≡ found.active
  pub head : found.active.head_turn_id ≡ some found.head
  pub last :
      previous_user_turn (get_causal_turns found.active.branch_id (some found.head) 32 24000 s)
      ≡ some found.previous

preceding_behind-IsAt :
    (active : ActiveRoute) (head : ℕ) (s : Conversations) (found : Preceding)
    → active.head_turn_id ≡ some head
    → preceding_behind active head s ≡ some found
    → IsAt active s found
unfolding preceding_behind
preceding_behind-IsAt active head s found at e =
    elim (Option-cases
      (previous_user_turn (get_causal_turns active.branch_id (some head) 32 24000 s))) [
        | inl nobody ↦ absurd (none_ne_some found (sym (rw (nobody, preceding_behind) refl) ∙ e))
        | inr (previous, last) ↦
            let made : preceding_behind active head s
                ≡ some (record { active = active; head = head; previous = previous }) =
              rw (last, preceding_behind) refl in
            subst (IsAt active s) (some_injective _ found (sym made ∙ e))
              (record { same_route = refl; head = at; last = last })
      ]

preceding_at :
    (active : ActiveRoute) (head : ℕ) (s : Conversations)
    → active.head_turn_id ≡ some head
    → preceding_of active s ≡ preceding_behind active head s
unfolding preceding_of
preceding_at active head s at =
    ap (λ h. elim h [ none ↦ none | some x ↦ preceding_behind active x s ]) at

preceding_of-IsAt :
    (active : ActiveRoute) (s : Conversations) (found : Preceding)
    → preceding_of active s ≡ some found
    → IsAt active s found
unfolding preceding_of
preceding_of-IsAt active s found e = elim (Option-cases active.head_turn_id) [
  | inl nowhere ↦ absurd (none_ne_some found (sym (rw (nowhere, preceding_of) refl) ∙ e))
  | inr (head, at) ↦
      preceding_behind-IsAt active head s found at (sym (preceding_at active head s at) ∙ e)
]

pub preceding-IsAt :
    (input : RouteInput) (s : Conversations) (found : Preceding)
    → preceding input s ≡ some found
    → (active : ActiveRoute) × (get_active_route input.group_id input.user_id s ≡ some active)
      × IsAt active s found
unfolding preceding
preceding-IsAt input s found e =
    elim (Option-cases (truthy (some (normalize_message input.text)))) [
      | inl empty ↦ absurd (none_ne_some found (sym (rw (empty, preceding) refl) ∙ e))
      | inr (text, written) ↦
          elim (Option-cases (get_active_route input.group_id input.user_id s)) [
            | inl inactive ↦
                absurd (none_ne_some found (sym (rw (written, inactive, preceding) refl) ∙ e))
            | inr (active, found_active) ↦ (
              active,
              found_active,
              preceding_of-IsAt active s found
                  (sym (rw (written, found_active, preceding) refl) ∙ e),
            )
          ]
    ]
