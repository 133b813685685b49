-- ===== src/Conversation/Saving/Written.antt =====
-- How a route that was not there before comes about, and that it is found behind.
use ubot_ai_agent.Base.{
  ℕ, ◌+◌, ◌≡◌, refl, sym, ap, subst, ◌∙◌, ◌==◌, none, some, List, [], ◌∷◌, ◌++◌, find, any, ok,
  returned, checked, arith, coalesce?,
}
use ubot_ai_agent.Store.Delivery.{is_context}
use ubot_ai_agent.Conversation.Tables.{
  BranchRow, MessageRoute, Conversations, get_topic, foreign_topic, taken_id,
  get_route_by_source_row_id,
}
use ubot_ai_agent.Conversation.Places.{
  SaveInput, FreshIds, ConversationRoute, Place, existing_branch, place_of, to_route,
}
use ubot_ai_agent.Conversation.Saving.{
  put_branch, write_route, is_foreign_topic, save_new_route, save_message_route, new_route,
}
use ubot_ai_agent.Conversation.Saving.Parents.{ok_injective}
use ubot_ai_agent.Conversation.Saving.Parents.{head_of, place_of-parent}

-- How a route that was not there before came about.
pub record IsWritten (fresh : FreshIds) (input : SaveInput) (s : Conversations)
    (out : ConversationRoute × Conversations) : Type 0 where
  pub place : Place
  pub placed : place_of fresh input (existing_branch input s) ≡ ok place
  pub branches : List BranchRow
  pub put : put_branch input place (existing_branch input s) s.branches ≡ ok branches
  pub written : write_route input place branches s ≡ out

pub save-IsWritten :
    (fresh : FreshIds) (input : SaveInput) (s : Conversations)
    (out : ConversationRoute × Conversations)
    → save_new_route fresh input s ≡ ok out
    → IsWritten fresh input s out
unfolding save_new_route
save-IsWritten fresh input s out e =
    let (p, e₁, placed) = returned out _ (place_of fresh input (existing_branch input s)) e in
    let e₂ =
      (checked (is_foreign_topic input.group_id (get_topic p.topic_id s)) foreign_topic _ out
        e₁).1 in
    let (branches, e₃, put) =
      returned out _ (put_branch input p (existing_branch input s) s.branches) e₂ in
    let e₄ =
      (checked (any (is_context input.group_id input.source_message_id) s.contexts) taken_id _ out
        e₃).1 in
    record {
      place = p;
      placed = placed;
      branches = branches;
      put = put;
      written = ok_injective _ _ e₄;
    }

-- The first save of a message.
pub first_save :
    (fresh : FreshIds) (input : SaveInput) (s : Conversations)
    → get_route_by_source_row_id input.source_row_id s ≡ none
    → save_message_route fresh input s ≡ save_new_route fresh input s
unfolding save_message_route
first_save fresh input s first = rw (first, save_message_route) refl

-- A later save of the same message.
pub later_save :
    (fresh : FreshIds) (input : SaveInput) (s : Conversations) (route : MessageRoute)
    → get_route_by_source_row_id input.source_row_id s ≡ some route
    → save_message_route fresh input s ≡ ok (to_route route, s)
unfolding save_message_route
later_save fresh input s route found = rw (found, save_message_route) refl

find_last :
    (id : ℕ) (routes : List MessageRoute) (r : MessageRoute)
    → find (λ x. x.source_row_id == id) routes ≡ none
    → r.source_row_id ≡ id
    → find (λ x. x.source_row_id == id) (routes ++ r ∷ []) ≡ some r
find_last id [] r none_yet e = ground arith
find_last id (x ∷ routes) r none_yet e = ground (arith, find_last id routes r)

pub written_again :
    (input : SaveInput) (p : Place) (s : Conversations) (bs : List BranchRow)
    → get_route_by_source_row_id input.source_row_id s ≡ none
    → (fresh : FreshIds) (again : SaveInput) → again.source_row_id ≡ input.source_row_id
    → save_message_route fresh again (write_route input p bs s).1 ≡ ok (write_route input p bs s)
unfolding write_route get_route_by_source_row_id
written_again input p s bs first fresh again same_row =
    later_save fresh again (write_route input p bs s).1 (new_route input p (s.last_turn + 1)) (
      find_last again.source_row_id s.routes (new_route input p (s.last_turn + 1))
        (subst (λ id. find (λ x. x.source_row_id == id) s.routes ≡ none) (sym same_row) first)
        (sym same_row))

-- A route that was not there before is found behind the save.
pub saved_found :
    (fresh : FreshIds) (input : SaveInput) (s s' : Conversations) (r : ConversationRoute)
    → get_route_by_source_row_id input.source_row_id s ≡ none
    → save_message_route fresh input s ≡ ok (r, s')
    → (m : MessageRoute) × (get_route_by_source_row_id input.source_row_id s' ≡ some m)
      × (to_route m ≡ r)
unfolding write_route get_route_by_source_row_id
saved_found fresh input s s' r first e =
    let w = save-IsWritten fresh input s (r, s') (sym (first_save fresh input s first) ∙ e) in
    let route = new_route input w.place (s.last_turn + 1) in
    (
      route,
      ap (λ out. find (λ x. x.source_row_id == input.source_row_id) out.1.routes) (sym w.written)
          ∙ find_last input.source_row_id s.routes route first refl,
      ap (λ out. out.0) w.written,
    )

-- The parent of a route that was not there before.
pub saved_parent :
    (fresh : FreshIds) (input : SaveInput) (s s' : Conversations) (r : ConversationRoute)
    → get_route_by_source_row_id input.source_row_id s ≡ none
    → save_message_route fresh input s ≡ ok (r, s')
    → r.parent_turn_id ≡ coalesce? input.parent_turn_id (head_of (existing_branch input s))
unfolding write_route new_route to_route
saved_parent fresh input s s' r first e =
    let w = save-IsWritten fresh input s (r, s') (sym (first_save fresh input s first) ∙ e) in
    ap (λ out. out.0.parent_turn_id) (sym w.written)
    ∙ place_of-parent fresh input (existing_branch input s) w.place w.placed
