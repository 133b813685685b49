-- ===== src/Conversation/Router/Continuations.antt =====
-- Which messages join a conversation that is there already.
use ubot_ai_agent.Base.{
  ℕ, ◌+◌, ◌≤◌, ◌≡◌, ◌⊎◌, refl, sym, ◌∙◌, ap, subst, inl, inr, true, none, some, Text, ok,
  Result-cases, Option-cases,
}
use ubot_ai_agent.Store.Delivery.{ContextRow, truthy}
use ubot_ai_agent.Conversation.Tables.{
  ContextTurn, new_topic, fail_closed, Conversations, ActiveRoute, get_route_by_source_row_id,
  get_message_context, get_active_route,
}
use ubot_ai_agent.Conversation.Places.{FreshIds, ConversationRoute, trimmed}
use ubot_ai_agent.Conversation.History.{get_causal_turns}
use ubot_ai_agent.Conversation.Words.{Unicode, normalize_message, is_direct_follow_up}
use ubot_ai_agent.Conversation.Policy.{
  RouterOptions, RouteInput, no_context, save, anchor_state, resolve_explicit_reply,
  previous_user_turn, is_similar, unquoted_reason, active_context, auto_continue_window,
  explicit_reply_window,
}
use ubot_ai_agent.Conversation.Router.{
  Preceding, preceding, resolve_unquoted, Resolved, ephemeral_fail_closed_route, EphemeralRoute,
  routed, isolated, resolve_closed, resolve_new, resolve,
}
use ubot_ai_agent.Conversation.Router.Parents.{is_new, anchored_parent, active_parent}
use ubot_ai_agent.Conversation.Router.Reasons.{anchor_hit, own_turn, unquoted_reason_lem}
use ubot_ai_agent.Conversation.Router.Active.{preceding-IsAt}

-- The message quotes one of its group that belongs to a turn, sent at most the window before.
pub record IsQuoted (o : RouterOptions) (input : RouteInput) (now : ℕ) (s : Conversations) (p : ℕ)
    : Type 0 where
  pub quoted : Text
  pub given : truthy (trimmed input.reply_to_message_id) ≡ some quoted
  pub anchor : ContextRow
  pub found : get_message_context input.group_id quoted s ≡ some anchor
  pub turn : anchor.turn_id ≡ some p
  pub not_after : anchor.created_at ≤ now
  pub recent : now ≤ anchor.created_at + explicit_reply_window o

-- The message quotes none, and goes on from its user's own last turn, which is the last user turn in
-- the history that the user's active route stands at, sent at most the window before.
pub record IsFollowing (w : Unicode) (o : RouterOptions) (input : RouteInput) (now : ℕ)
    (s : Conversations) (p : ℕ) : Type 0 where
  pub unquoted : truthy (trimmed input.reply_to_message_id) ≡ none
  pub active : ActiveRoute
  pub found : get_active_route input.group_id input.user_id s ≡ some active
  pub head : active.head_turn_id ≡ some p
  pub previous : ContextTurn
  pub last :
      previous_user_turn (get_causal_turns active.branch_id (some p) 32 24000 s) ≡ some previous
  pub own : previous.user_id ≡ some input.user_id
  pub not_after : previous.created_at ≤ now
  pub recent : now ≤ previous.created_at + auto_continue_window o
  pub alike :
      (is_direct_follow_up w (normalize_message input.text) ≡ true)
      ⊎ (is_similar w o (normalize_message input.text) previous.content ≡ true)

module _ (w : Unicode) (o : RouterOptions) (fresh : FreshIds) (input : RouteInput) (now p : ℕ)
    (s s' : Conversations) (r : ConversationRoute)
    (first : get_route_by_source_row_id input.source_row_id s ≡ none)
    (joins : r.parent_turn_id ≡ some p) where
  reply-IsQuoted :
      (quoted : Text)
      → truthy (trimmed input.reply_to_message_id) ≡ some quoted
      → resolve_explicit_reply w o fresh input quoted now s ≡ ok (r, s')
      → IsQuoted o input now s p
  unfolding resolve_explicit_reply
  reply-IsQuoted quoted given e =
      let anchor = get_message_context input.group_id quoted s in
      let (a, found, is_hit) =
        anchored_parent w fresh input now s s' r first quoted anchor (anchor_state o now anchor) p e
          joins in
      let (turn, not_after, recent) =
        anchor_hit o now a p (ap (anchor_state o now) (sym found) ∙ is_hit) in
      record {
        quoted = quoted;
        given = given;
        anchor = a;
        found = found;
        turn = turn;
        not_after = not_after;
        recent = recent;
      }

  active-IsFollowing :
      (at : Preceding)
      → truthy (trimmed input.reply_to_message_id) ≡ none
      → preceding input s ≡ some at
      → save w fresh input now
          (unquoted_reason w o input now at.previous)
          (active_context at.active at.head (unquoted_reason w o input now at.previous))
          s
        ≡ ok (r, s')
      → IsFollowing w o input now s p
  active-IsFollowing at unquoted before e =
      let (active, found, is_at) = preceding-IsAt input s at before in
      let (same_head, reason) =
        active_parent w fresh input now s s' r first at.active at.head
          (unquoted_reason w o input now at.previous) p e joins in
      let (own, not_after, recent, alike) = unquoted_reason_lem w o input now at.previous reason in
      record {
        unquoted = unquoted;
        active = at.active;
        found = found ∙ ap some is_at.same_route;
        head = is_at.head ∙ ap some same_head;
        previous = at.previous;
        last =
            subst
              (λ h.
                previous_user_turn (get_causal_turns at.active.branch_id (some h) 32 24000 s)
                ≡ some at.previous)
              same_head is_at.last;
        own = own_turn input at.previous own;
        not_after = not_after;
        recent = recent;
        alike = alike;
      }

  unquoted-IsFollowing :
      truthy (trimmed input.reply_to_message_id) ≡ none
      → resolve_unquoted w o fresh input now s ≡ ok (r, s')
      → IsFollowing w o input now s p
  unfolding resolve_unquoted
  unquoted-IsFollowing unquoted e = elim (Option-cases (preceding input s)) [
    | inl nothing ↦ absurd (
        is_new w fresh input now s s' r first new_topic none p
          (sym (rw (nothing, resolve_unquoted) refl) ∙ e) joins)
    | inr (at, before) ↦
        active-IsFollowing at unquoted before (sym (rw (before, resolve_unquoted) refl) ∙ e)
  ]

  new-Joins :
      resolve_new w o fresh input now s ≡ ok (r, s')
      → IsQuoted o input now s p ⊎ IsFollowing w o input now s p
  unfolding resolve_new
  new-Joins e = elim (Option-cases (truthy (trimmed input.reply_to_message_id))) [
    | inl unquoted ↦ inr (unquoted-IsFollowing unquoted (sym (rw (unquoted, resolve_new) refl) ∙ e))
    | inr (quoted, given) ↦
        inl (reply-IsQuoted quoted given (sym (rw (given, resolve_new) refl) ∙ e))
  ]

pub routed_injective :
    (r r' : ConversationRoute) (s s' : Conversations)
    → ◌≡◌ {A = Resolved × Conversations} (routed r, s) (routed r', s')
    → ◌≡◌ {A = ConversationRoute × Conversations} (r, s) (r', s')
routed_injective r r' s s' e = cc

isolated_ne_routed :
    (i : EphemeralRoute) (r : ConversationRoute) (s s' : Conversations)
    → ◌≡◌ {A = Resolved × Conversations} (isolated i, s) (routed r, s')
    → ⊥
isolated_ne_routed i r s s' e = cc

-- Behind an error, a route that is stored is one of `save`.
closed_saved :
    (w : Unicode) (again : FreshIds) (input : RouteInput) (now : ℕ) (s s' : Conversations)
    (r : ConversationRoute)
    → resolve_closed w again input now s ≡ (routed r, s')
    → save w again input now fail_closed no_context s ≡ ok (r, s')
unfolding resolve_closed
closed_saved w again input now s s' r e =
    elim (Result-cases (save w again input now fail_closed no_context s)) [
      | inr (error, refused) ↦ absurd (
          isolated_ne_routed (ephemeral_fail_closed_route w input) r s s'
            (sym (rw (refused, resolve_closed) refl) ∙ e))
      | inl (out, saved) ↦
          saved
          ∙ ap ok (routed_injective out.0 r out.1 s' (sym (rw (saved, resolve_closed) refl) ∙ e))
    ]

-- The two ways to a route that is new and stored.
pub new_or_closed :
    (w : Unicode) (o : RouterOptions) (fresh again : FreshIds) (input : RouteInput) (now : ℕ)
    (s s' : Conversations) (r : ConversationRoute)
    → get_route_by_source_row_id input.source_row_id s ≡ none
    → resolve w o fresh again input now s ≡ (routed r, s')
    → (resolve_new w o fresh input now s ≡ ok (r, s'))
      ⊎ (save w again input now fail_closed no_context s ≡ ok (r, s'))
unfolding resolve
new_or_closed w o fresh again input now s s' r first e =
    elim (Result-cases (resolve_new w o fresh input now s)) [
      | inr (error, refused) ↦
          inr (closed_saved w again input now s s' r (sym (rw (first, refused, resolve) refl) ∙ e))
      | inl (out, saved) ↦ inl (
          saved
          ∙ ap ok (routed_injective out.0 r out.1 s' (sym (rw (first, saved, resolve) refl) ∙ e)))
    ]

-- A message that is routed for the first time, and behind a turn, quotes a message of its group that
-- belongs to this turn and was sent at most the window before; or it quotes none, the turn is the head
-- of its user's active route, the last user turn there is the user's own and was sent at most the
-- window before, and the text is a direct follow-up or similar to it.
pub resolve-Joins :
    (w : Unicode) (o : RouterOptions) (fresh again : FreshIds) (input : RouteInput) (now p : ℕ)
    (s s' : Conversations) (r : ConversationRoute)
    → get_route_by_source_row_id input.source_row_id s ≡ none
    → resolve w o fresh again input now s ≡ (routed r, s')
    → r.parent_turn_id ≡ some p
    → IsQuoted o input now s p ⊎ IsFollowing w o input now s p
resolve-Joins w o fresh again input now p s s' r first e joins =
    elim (new_or_closed w o fresh again input now s s' r first e) [
      | inl new ↦ new-Joins w o fresh input now p s s' r first joins new
      | inr closed ↦ absurd (is_new w again input now s s' r first fail_closed none p closed joins)
    ]
