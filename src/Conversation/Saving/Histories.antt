-- ===== src/Conversation/Saving/Histories.antt =====
-- What saving a message does to the histories.
use ubot_ai_agent.Base.{
  ℕ, suc, ◌+◌, ◌≤◌, ◌<◌, ◌≡◌, refl, sym, ap, subst, ◌∙◌, Option, none, List, [], ◌∷◌, ◌++◌, true,
  inl, inr, same, Text, any, All, All-map, All-append, ok, throw_if, ◌>>◌, checked, arith,
  Bool-cases,
}
use ubot_ai_agent.Base.Updates.{All-update}
use ubot_ai_agent.Conversation.Tables.{
  BranchRow, ContextTurn, Conversations, taken_id, get_route_by_source_row_id,
}
use ubot_ai_agent.Conversation.History.{chain}
use ubot_ai_agent.Conversation.History.Chains.{
  IsAtMost, IsGiven, chain_from, chain-found, chain-insert, chain_from_cong, find_inserted,
}
use ubot_ai_agent.Conversation.Places.{
  SaveInput, FreshIds, ConversationRoute, Place, existing_branch,
}
use ubot_ai_agent.Conversation.Saving.{
  put_branch, new_branch, is_new_branch, write_route, save_new_route, save_message_route, user_turn,
}
use ubot_ai_agent.Conversation.Saving.Known.{
  IsKnown, IsAtMost-weaken, place_of-IsAtMost, existing-HasKnownHead,
}
use ubot_ai_agent.Conversation.Saving.Parents.{ok_injective}
use ubot_ai_agent.Conversation.Saving.Written.{save-IsWritten, first_save, written_again}

-- The history of a turn, and what a message adds.
pub record IsSaved (input : SaveInput) (s s' : Conversations) (r : ConversationRoute) : Type 0 where
  pub known : IsKnown s'
  pub others :
      (depth : ℕ) (topic : Text) (id : ℕ)
      → id ≤ s.last_turn
      → chain depth topic id s'.turns ≡ chain depth topic id s.turns
  pub turn : ContextTurn
  pub said : turn.content ≡ input.content
  pub own :
      (depth : ℕ)
      → chain (suc depth) r.topic_id r.turn_id s'.turns
        ≡ turn ∷ chain_from depth r.topic_id r.parent_turn_id s.turns

put_fresh :
    (input : SaveInput) (p : Place) (existing : Option BranchRow) (bs bs' : List BranchRow)
    → put_branch input p existing bs ≡ ok bs'
    → is_new_branch p existing ≡ true
    → (throw_if (any (λ b. same b.branch_id p.branch_id) bs) taken_id
        >> ok (bs ++ new_branch input p ∷ []))
      ≡ ok bs'
unfolding put_branch
put_fresh input p existing bs bs' e fresh = ground arith

put_branch-heads :
    (input : SaveInput) (p : Place) (existing : Option BranchRow) (last : ℕ)
    (bs bs' : List BranchRow)
    → put_branch input p existing bs ≡ ok bs'
    → All (λ b. IsAtMost last b.head_turn_id) bs
    → All (λ b. IsAtMost last b.head_turn_id) bs'
unfolding put_branch new_branch
put_branch-heads input p existing last bs bs' e h = elim (Bool-cases (is_new_branch p existing)) [
  | inl fresh ↦
      let rest =
        ok_injective _ _
          (checked _ taken_id (ok (bs ++ new_branch input p ∷ [])) bs'
            (put_fresh input p existing bs bs' e fresh)).1 in
      subst (All λ b. IsAtMost last b.head_turn_id) rest (All-append _ bs _ h (tt, tt))
  | inr old ↦
      let same_rows : bs ≡ bs' = ground arith in
      subst (All λ b. IsAtMost last b.head_turn_id) same_rows h
]

module _ (input : SaveInput) (p : Place) (s : Conversations) (bs : List BranchRow)
    (known : IsKnown s) (parent : IsAtMost s.last_turn p.parent_turn_id)
    (heads : All (λ b. IsAtMost s.last_turn b.head_turn_id) bs) where
  weaken : (i : Option ℕ) → IsAtMost s.last_turn i → IsAtMost (s.last_turn + 1) i
  weaken i h = IsAtMost-weaken s.last_turn (s.last_turn + 1) i (omega arith) h

  written-IsKnown : IsKnown (write_route input p bs s).1
  unfolding write_route
  written-IsKnown =
      let last = s.last_turn in
      record {
        turns =
            All-append (IsGiven (last + 1)) s.turns _
              (All-map (IsGiven last) _ (λ t h. (omega (arith, h.0), weaken t.parent_turn_id h.1))
                s.turns known.turns)
              ((omega arith, weaken p.parent_turn_id parent), tt);
        heads =
            All-update (λ b. same b.branch_id p.branch_id) _ (λ b. IsAtMost last b.head_turn_id)
              (λ b. IsAtMost (last + 1) b.head_turn_id) (λ b e h. omega arith)
              (λ b e h. weaken b.head_turn_id h) bs heads;
        contexts =
            All-append (λ c. IsAtMost (last + 1) c.turn_id) s.contexts _
              (All-map (λ c. IsAtMost last c.turn_id) _ (λ c h. weaken c.turn_id h) s.contexts
                known.contexts)
              (omega arith, tt);
        routes =
            All-append (λ r. r.turn_id ≤ last + 1) s.routes _
              (All-map (λ r. r.turn_id ≤ last) _ (λ r h. omega (arith, h)) s.routes known.routes)
              (omega arith, tt);
      }

  written-IsSaved : IsSaved input s (write_route input p bs s).1 (write_route input p bs s).0
  unfolding write_route
  written-IsSaved =
      let n = user_turn input p (s.last_turn + 1) in
      let same_chains = chain-insert n s.last_turn (omega arith) s.turns known.turns in
      let ids =
        All-map (IsGiven s.last_turn) (λ t. t.id < s.last_turn + 1) (λ t h. omega (arith, h.0))
          s.turns known.turns in
      record {
        known = written-IsKnown;
        others = same_chains;
        turn = n;
        said = refl;
        own = λ depth.
            chain-found depth p.topic_id (s.last_turn + 1) (s.turns ++ n ∷ []) n
              (find_inserted s.turns n ids)
            ∙ ap (◌∷◌ n) (
                chain_from_cong s.last_turn depth p.topic_id p.parent_turn_id (s.turns ++ n ∷ [])
                  s.turns parent (same_chains depth p.topic_id));
      }

save_new-IsSaved :
    (fresh : FreshIds) (input : SaveInput) (s s' : Conversations) (r : ConversationRoute)
    → IsKnown s
    → IsAtMost s.last_turn input.parent_turn_id
    → save_new_route fresh input s ≡ ok (r, s')
    → IsSaved input s s' r
save_new-IsSaved fresh input s s' r known given e =
    let w = save-IsWritten fresh input s (r, s') e in
    subst (λ out. IsSaved input s out.1 out.0) w.written
      (written-IsSaved input w.place s w.branches known
        (place_of-IsAtMost fresh input (existing_branch input s) w.place s.last_turn given
          (existing-HasKnownHead s known input) w.placed)
        (put_branch-heads input w.place (existing_branch input s) s.last_turn s.branches w.branches
          w.put known.heads))

-- The first save of a message, when it succeeds: the history of its turn is the turn, with the message's
-- text, and the history of the parent that the route names. The history of every turn before it is as
-- it was, in any topic, and the ids that the tables refer to stay ones that were given out, which the
-- state before and the parent asked for satisfy. A later save of the same row, with any other input,
-- answers the same route and changes nothing.
pub save_message_route-IsSaved :
    (fresh : FreshIds) (input : SaveInput) (s s' : Conversations) (r : ConversationRoute)
    → IsKnown s
    → IsAtMost s.last_turn input.parent_turn_id
    → get_route_by_source_row_id input.source_row_id s ≡ none
    → save_message_route fresh input s ≡ ok (r, s')
    → IsSaved input s s' r
      × ((fresh' : FreshIds) (again : SaveInput)
          → again.source_row_id ≡ input.source_row_id
          → save_message_route fresh' again s' ≡ ok (r, s'))
save_message_route-IsSaved fresh input s s' r known given first e =
    let saved = sym (first_save fresh input s first) ∙ e in
    let w = save-IsWritten fresh input s (r, s') saved in
    (
      save_new-IsSaved fresh input s s' r known given saved,
      λ fresh' again same_row.
          subst (λ out. save_message_route fresh' again out.1 ≡ ok out) w.written
            (written_again input w.place s w.branches first fresh' again same_row),
    )
