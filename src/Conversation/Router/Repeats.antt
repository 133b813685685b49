-- ===== src/Conversation/Router/Repeats.antt =====
-- A message is routed once.
use ubot_ai_agent.Base.{
  ℕ, ◌≡◌, refl, sym, ap, subst, ◌∙◌, inl, inr, none, some, Text, ok, Option-cases,
}
use ubot_ai_agent.Store.Delivery.{truthy}
use ubot_ai_agent.Conversation.Tables.{
  Reason, new_topic, fail_closed, MessageRoute, Conversations, get_route_by_source_row_id,
  get_message_context,
}
use ubot_ai_agent.Conversation.Places.{FreshIds, ConversationRoute, to_route, trimmed}
use ubot_ai_agent.Conversation.Saving.Written.{saved_found}
use ubot_ai_agent.Conversation.Words.{Unicode}
use ubot_ai_agent.Conversation.Policy.{
  RouterOptions, RouteInput, SaveContext, no_context, save_input, save, anchor_state, anchored,
  reply_reason, resolve_explicit_reply, unquoted_reason, active_context,
}
use ubot_ai_agent.Conversation.Router.{preceding, resolve_unquoted, routed, resolve_new, resolve}
use ubot_ai_agent.Conversation.Router.Continuations.{new_or_closed, routed_injective}

-- Every new route comes of a call of `save`.
IsOfSave : Unicode → FreshIds → RouteInput → ℕ → (s s' : Conversations) → ConversationRoute → Type 0
IsOfSave w fresh input now s s' r =
    (reason : Reason) × (context : SaveContext) × (save w fresh input now reason context s
      ≡ ok (r, s'))

module _ (w : Unicode) (o : RouterOptions) (fresh : FreshIds) (input : RouteInput) (now : ℕ)
    (s s' : Conversations) (r : ConversationRoute) where
  reply-IsOfSave :
      (quoted : Text)
      → resolve_explicit_reply w o fresh input quoted now s ≡ ok (r, s')
      → IsOfSave w fresh input now s s' r
  unfolding resolve_explicit_reply IsOfSave
  reply-IsOfSave quoted e =
      let anchor = get_message_context input.group_id quoted s in
      (
        reply_reason (anchor_state o now anchor),
        anchored quoted anchor (anchor_state o now anchor),
        e,
      )

  unquoted-IsOfSave :
      resolve_unquoted w o fresh input now s ≡ ok (r, s') → IsOfSave w fresh input now s s' r
  unfolding resolve_unquoted IsOfSave
  unquoted-IsOfSave e = elim (Option-cases (preceding input s)) [
    | inl nothing ↦ (new_topic, no_context, sym (rw (nothing, resolve_unquoted) refl) ∙ e)
    | inr (at, before) ↦
        let reason = unquoted_reason w o input now at.previous in
        (
          reason,
          active_context at.active at.head reason,
          sym (rw (before, resolve_unquoted) refl) ∙ e,
        )
  ]

  new-IsOfSave : resolve_new w o fresh input now s ≡ ok (r, s') → IsOfSave w fresh input now s s' r
  unfolding resolve_new
  new-IsOfSave e = elim (Option-cases (truthy (trimmed input.reply_to_message_id))) [
    | inl unquoted ↦ unquoted-IsOfSave (sym (rw (unquoted, resolve_new) refl) ∙ e)
    | inr (quoted, given) ↦ reply-IsOfSave quoted (sym (rw (given, resolve_new) refl) ∙ e)
  ]

-- The route is in the table.
IsStored : ℕ → Conversations → ConversationRoute → Type 0
IsStored row s r =
    (m : MessageRoute) × (get_route_by_source_row_id row s ≡ some m) × (to_route m ≡ r)

saved-IsStored :
    (w : Unicode) (fresh : FreshIds) (input : RouteInput) (now : ℕ) (s s' : Conversations)
    (r : ConversationRoute)
    → get_route_by_source_row_id input.source_row_id s ≡ none
    → IsOfSave w fresh input now s s' r
    → IsStored input.source_row_id s' r
unfolding save save_input IsOfSave IsStored
saved-IsStored w fresh input now s s' r first (reason, context, e) =
    saved_found fresh (save_input w input now reason context) s s' r first e

stored_lem :
    (w : Unicode) (o : RouterOptions) (fresh again : FreshIds) (input : RouteInput) (now : ℕ)
    (s : Conversations) (r : ConversationRoute)
    → IsStored input.source_row_id s r
    → resolve w o fresh again input now s ≡ (routed r, s)
unfolding resolve IsStored
stored_lem w o fresh again input now s r (m, found, same_route) =
    let persisted : resolve w o fresh again input now s ≡ (routed (to_route m), s) =
      rw (found, resolve) refl in
    persisted ∙ ap (λ x. (routed x, s)) same_route

resolved-IsStored :
    (w : Unicode) (o : RouterOptions) (fresh again : FreshIds) (input : RouteInput) (now : ℕ)
    (s s' : Conversations) (r : ConversationRoute)
    → resolve w o fresh again input now s ≡ (routed r, s')
    → IsStored input.source_row_id s' r
unfolding IsStored IsOfSave
resolved-IsStored w o fresh again input now s s' r e =
    elim (Option-cases (get_route_by_source_row_id input.source_row_id s)) [
      | inl first ↦ elim (new_or_closed w o fresh again input now s s' r first e) [
        | inl new ↦
            saved-IsStored w fresh input now s s' r first
              (new-IsOfSave w o fresh input now s s' r new)
        | inr closed ↦
            saved-IsStored w again input now s s' r first (fail_closed, no_context, closed)
      ]
      | inr (m, found) ↦
          subst (λ out. IsStored input.source_row_id out.1 out.0)
            (routed_injective (to_route m) r s s'
              (sym (stored_lem w o fresh again input now s (to_route m) (m, found, refl)) ∙ e))
            (m, found, refl)
    ]

-- A message that has been routed once, whichever way, gets the same route again and changes nothing,
-- whatever the options, the time and the rest of the input are then.
pub resolve-repeat :
    (w : Unicode) (o : RouterOptions) (fresh again : FreshIds) (input : RouteInput) (now : ℕ)
    (s s' : Conversations) (r : ConversationRoute)
    → resolve w o fresh again input now s ≡ (routed r, s')
    → (w' : Unicode) (o' : RouterOptions) (fresh' again' : FreshIds) (input' : RouteInput)
      (later : ℕ)
    → input'.source_row_id ≡ input.source_row_id
    → resolve w' o' fresh' again' input' later s' ≡ (routed r, s')
resolve-repeat w o fresh again input now s s' r e w' o' fresh' again' input' later same_row =
    stored_lem w' o' fresh' again' input' later s' r (
      subst (λ row. IsStored row s' r) (sym same_row)
        (resolved-IsStored w o fresh again input now s s' r e))
