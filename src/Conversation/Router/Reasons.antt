-- ===== src/Conversation/Router/Reasons.antt =====
-- What the reasons for a route say of the message.
use ubot_ai_agent.Base.{
  ℕ, ◌+◌, ◌≤◌, ◌≡◌, ◌⊎◌, refl, ◌∙◌, ap, subst, inl, inr, ltb, if◌then◌else◌, Bool, true, false, not,
  none, some, same, same→eq, Option-cases, arith,
}
use ubot_ai_agent.Store.Delivery.{ContextRow}
use ubot_ai_agent.Conversation.Tables.{
  ContextTurn, same_user_follow_up, same_user_similar, new_topic, fail_closed,
}
use ubot_ai_agent.Conversation.Words.{Unicode, normalize_message, is_direct_follow_up}
use ubot_ai_agent.Conversation.Policy.{
  RouterOptions, RouteInput, hit, anchor_state, is_own, is_similar, unquoted_reason,
  auto_continue_window, explicit_reply_window,
}

pub anchor_hit :
    (o : RouterOptions) (now : ℕ) (a : ContextRow) (p : ℕ)
    → anchor_state o now (some a) ≡ hit p
    → (a.turn_id ≡ some p) × (a.created_at ≤ now) × (now ≤ a.created_at + explicit_reply_window o)
unfolding anchor_state
anchor_hit o now a p e = elim (Option-cases a.turn_id) [
  | inl no_turn ↦ absurd (ground arith)
  | inr (turn, has_turn) ↦ (ground arith, ground arith, ground arith)
]

pub own_turn :
    (input : RouteInput) (previous : ContextTurn)
    → is_own input previous ≡ true
    → previous.user_id ≡ some input.user_id
own_turn input previous e = elim (Option-cases previous.user_id) [
  | inl nobody ↦ absurd (ground arith)
  | inr (user, somebody) ↦
      somebody
      ∙ ap some (
          same→eq user input.user_id (
            subst (λ u. elim u [ none ↦ false | some x ↦ same x input.user_id ] ≡ true) somebody e))
]

-- The order of the tests.
chosen :
    (own early old direct alike : Bool)
    → let reason =
        if not own
        then new_topic
        else if early
        then fail_closed
        else if old
        then new_topic
        else if direct
        then same_user_follow_up
        else if alike
        then same_user_similar
        else new_topic in
      (reason ≡ same_user_follow_up) ⊎ (reason ≡ same_user_similar)
      → (own ≡ true) × (early ≡ false) × (old ≡ false) × ((direct ≡ true) ⊎ (alike ≡ true))
chosen false early old direct alike (inl e) = cc
chosen false early old direct alike (inr e) = cc
chosen true true old direct alike (inl e) = cc
chosen true true old direct alike (inr e) = cc
chosen true false true direct alike (inl e) = cc
chosen true false true direct alike (inr e) = cc
chosen true false false true alike e = (refl, refl, refl, inl refl)
chosen true false false false true e = (refl, refl, refl, inr refl)
chosen true false false false false (inl e) = cc
chosen true false false false false (inr e) = cc

module _ (w : Unicode) (o : RouterOptions) (input : RouteInput) (now : ℕ)
    (previous : ContextTurn) where
  pub unquoted_reason_lem :
      (unquoted_reason w o input now previous ≡ same_user_follow_up)
        ⊎ (unquoted_reason w o input now previous ≡ same_user_similar)
      → (is_own input previous ≡ true)
        × (previous.created_at ≤ now)
        × (now ≤ previous.created_at + auto_continue_window o)
        × ((is_direct_follow_up w (normalize_message input.text) ≡ true)
            ⊎ (is_similar w o (normalize_message input.text) previous.content ≡ true))
  unfolding unquoted_reason
  unquoted_reason_lem h =
      let text = normalize_message input.text in
      let (own, early, old, alike) =
        chosen (is_own input previous) (ltb now previous.created_at)
          (ltb (previous.created_at + auto_continue_window o) now) (is_direct_follow_up w text)
          (is_similar w o text previous.content) h in
      (own, ground (arith, early), ground (arith, old), alike)
