-- ===== src/Conversation/Router/Parents.antt =====
-- The parent of a route, by what `save` is called with.
use ubot_ai_agent.Base.{
  ℕ, ◌≡◌, ◌⊎◌, refl, sym, ◌∙◌, ap, inl, inr, Option, none, some, Text, coalesce?, ok,
}
use ubot_ai_agent.Store.Delivery.{ContextRow}
use ubot_ai_agent.Conversation.Tables.{
  Reason, explicit_reply, explicit_reply_fork, explicit_reply_miss, same_user_follow_up,
  same_user_similar, new_topic, fail_closed, Conversations, ActiveRoute, get_route_by_source_row_id,
}
use ubot_ai_agent.Conversation.Places.{FreshIds, ConversationRoute, existing_branch}
use ubot_ai_agent.Conversation.Saving.Parents.{head_of}
use ubot_ai_agent.Conversation.Saving.Written.{saved_parent}
use ubot_ai_agent.Conversation.Words.{Unicode}
use ubot_ai_agent.Conversation.Policy.{
  RouteInput, SaveContext, no_context, save_input, save, AnchorState, missed, invalid, future,
  stale, hit, anchored, reply_reason, active_context,
}

pub none_ne_some : {A : Type 0} (x : A) → ◌≡◌ {A = Option A} none (some x) → ⊥
none_ne_some x e = cc

pub some_injective : {A : Type 0} (x y : A) → ◌≡◌ {A = Option A} (some x) (some y) → x ≡ y
some_injective x y e = cc

module _ (w : Unicode) (fresh : FreshIds) (input : RouteInput) (now : ℕ) (s s' : Conversations)
    (r : ConversationRoute) (first : get_route_by_source_row_id input.source_row_id s ≡ none) where
  behind_parent :
      (reason : Reason) (context : SaveContext) (turn : ℕ)
      → context.parent_turn_id ≡ some turn
      → save w fresh input now reason context s ≡ ok (r, s')
      → r.parent_turn_id ≡ some turn
  unfolding save save_input
  behind_parent reason context turn given e =
      saved_parent fresh (save_input w input now reason context) s s' r first e
      ∙ ap (λ p. coalesce? p (head_of (existing_branch (save_input w input now reason context) s)))
          given

  no_parent :
      (reason : Reason) (reply : Option Text)
      → save w fresh input now reason (record no_context { reply_to_message_id = reply }) s
        ≡ ok (r, s')
      → r.parent_turn_id ≡ none
  unfolding save save_input existing_branch
  no_parent reason reply e =
      saved_parent fresh
        (save_input w input now reason (record no_context { reply_to_message_id = reply })) s s' r
        first e

  pub is_new :
      (reason : Reason) (reply : Option Text) (p : ℕ)
      → save w fresh input now reason (record no_context { reply_to_message_id = reply }) s
        ≡ ok (r, s')
      → r.parent_turn_id ≡ some p
      → ⊥
  is_new reason reply p e h = none_ne_some p (sym (no_parent reason reply e) ∙ h)

  pub anchored_parent :
      (quoted : Text) (anchor : Option ContextRow) (found : AnchorState) (p : ℕ)
      → save w fresh input now (reply_reason found) (anchored quoted anchor found) s ≡ ok (r, s')
      → r.parent_turn_id ≡ some p
      → (a : ContextRow) × (anchor ≡ some a) × (found ≡ hit p)
  anchored_parent quoted none found p e h = absurd (is_new _ (some quoted) p e h)
  anchored_parent quoted (some a) missed p e h = absurd (is_new _ (some quoted) p e h)
  anchored_parent quoted (some a) invalid p e h = absurd (is_new _ (some quoted) p e h)
  anchored_parent quoted (some a) future p e h = absurd (is_new _ (some quoted) p e h)
  anchored_parent quoted (some a) stale p e h = absurd (is_new _ (some quoted) p e h)
  anchored_parent quoted (some a) (hit turn) p e h =
      let same_turn : turn ≡ p =
        some_injective turn p (sym (behind_parent explicit_reply _ turn refl e) ∙ h) in
      (a, refl, ap hit same_turn)

  pub active_parent :
      (active : ActiveRoute) (head : ℕ) (reason : Reason) (p : ℕ)
      → save w fresh input now reason (active_context active head reason) s ≡ ok (r, s')
      → r.parent_turn_id ≡ some p
      → (head ≡ p) × ((reason ≡ same_user_follow_up) ⊎ (reason ≡ same_user_similar))
  active_parent active head same_user_follow_up p e h =
      (some_injective head p (sym (behind_parent _ _ head refl e) ∙ h), inl refl)
  active_parent active head same_user_similar p e h =
      (some_injective head p (sym (behind_parent _ _ head refl e) ∙ h), inr refl)
  active_parent active head explicit_reply p e h = absurd (is_new _ none p e h)
  active_parent active head explicit_reply_fork p e h = absurd (is_new _ none p e h)
  active_parent active head explicit_reply_miss p e h = absurd (is_new _ none p e h)
  active_parent active head new_topic p e h = absurd (is_new _ none p e h)
  active_parent active head fail_closed p e h = absurd (is_new _ none p e h)
