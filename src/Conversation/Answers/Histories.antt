-- ===== src/Conversation/Answers/Histories.antt =====
-- What an answer does to the histories.
use ubot_ai_agent.Base.{
  ℕ, length, suc, ◌+◌, ◌≤◌, ◌≡◌, refl, sym, ap, subst, ◌∙◌, none, some, List, ◌∷◌, ◌++◌, true,
  false, ◌&&◌, ◌==◌, map, filter, inl, inr, not, coalesce?, same, Text, All, Result, ok, throws,
  returned, checked, Option-cases,
}
use ubot_ai_agent.Base.Selection.{among}
use ubot_ai_agent.Store.Outbox.{OutboxRow}
use ubot_ai_agent.Conversation.Tables.{
  BranchRow, ContextTurn, MessageRoute, explicit_reply, explicit_reply_fork, explicit_reply_miss,
  same_user_follow_up, same_user_similar, new_topic, fail_closed, Conversations, Refusal,
  foreign_branch, get_branch,
}
use ubot_ai_agent.Conversation.History.{chain}
use ubot_ai_agent.Conversation.History.Chains.{IsAtMost, IsGiven}
use ubot_ai_agent.Conversation.History.Splices.{behind, Avoids}
use ubot_ai_agent.Conversation.Saving.Known.{IsKnown}
use ubot_ai_agent.Conversation.Saving.Parents.{ok_injective}
use ubot_ai_agent.Conversation.Answers.{
  AnswerInput, answer_turn, publish_all, continuing, splice, touch, bind_answer, delivery_ids_of,
  append_behind, append_in, append_assistant_turn,
}
use ubot_ai_agent.Conversation.Answers.Binding.{IsBound}
use ubot_ai_agent.Conversation.Answers.Splicing.{
  continuing-given, kept, own, through, answered, answered-IsKnown, bind_answer-IsBound,
}

throws_ne_ok : {A : Type 0} (e : Refusal) (a : A) → ◌≡◌ {A = Result Refusal A} (throws e) (ok a) → ⊥
throws_ne_ok e a h = cc

-- The turns whose routes say that they go on from `p` in the branch, without a quote.
abbrev pub continuations_of : Text → ℕ → List MessageRoute → List ℕ
continuations_of branch p routes =
    map (λ r. r.turn_id)
      (filter
        (λ r.
          same r.branch_id branch
          && (elim r.parent_turn_id [ none ↦ false | some parent ↦ parent == p ]
              && elim r.route_reason [
                | explicit_reply ↦ false
                | explicit_reply_fork ↦ false
                | explicit_reply_miss ↦ false
                | same_user_follow_up ↦ true
                | same_user_similar ↦ true
                | new_topic ↦ false
                | fail_closed ↦ false
              ]))
        routes)

-- The histories behind an answer to the turn `p`: those without a continuation of `p`, that of the answer,
-- and those that pass through a continuation of `p`.
pub record IsAnswered (input : AnswerInput) (p : ℕ) (s s' : Conversations) : Type 0 where
  pub known : IsKnown s'
  pub answer : ContextTurn
  pub said : answer.content ≡ input.content
  pub newest : answer.id ≡ s.last_turn + 1
  pub others :
      (depth : ℕ) (topic : Text) (id : ℕ)
      → id ≤ s.last_turn
      → Avoids (continuations_of input.branch_id p s.routes) (chain depth topic id s.turns)
      → chain depth topic id s'.turns ≡ chain depth topic id s.turns
  pub own :
      (depth : ℕ)
      → Avoids (continuations_of input.branch_id p s.routes) (chain depth input.topic_id p s.turns)
      → chain (suc depth) input.topic_id answer.id s'.turns
        ≡ answer ∷ chain depth input.topic_id p s.turns
  pub through :
      (before rest : List ContextTurn) (t : ContextTurn) (d depth id : ℕ)
      → chain d input.topic_id id s.turns ≡ before ++ t ∷ rest
      → Avoids (continuations_of input.branch_id p s.routes) before
      → among (continuations_of input.branch_id p s.routes) t.id ≡ true
      → Avoids (continuations_of input.branch_id p s.routes) (chain depth input.topic_id p s.turns)
      → chain (length before + suc (suc depth)) input.topic_id id s'.turns
        ≡ before ++ behind answer.id t ∷ answer ∷ chain depth input.topic_id p s.turns

bound-IsKnown : (s s' : Conversations) → IsKnown s → IsBound s s' → IsKnown s'
bound-IsKnown s s' known b = record {
  turns =
      subst (λ n. All (IsGiven n) s'.turns) b.same_last
        (subst (All (IsGiven s.last_turn)) b.same_turns known.turns);
  heads =
      subst (λ n. All (λ x. IsAtMost n x.head_turn_id) s'.branches) b.same_last
        (subst (All λ x. IsAtMost s.last_turn x.head_turn_id) b.same_branches known.heads);
  contexts = subst (λ n. All (λ c. IsAtMost n c.turn_id) s'.contexts) b.same_last b.given;
  routes =
      subst (λ n. All (λ x. x.turn_id ≤ n) s'.routes) b.same_last
        (subst (All λ x. x.turn_id ≤ s.last_turn) b.same_routes known.routes);
}

module _ (input : AnswerInput) (p : ℕ) (s : Conversations) (known : IsKnown s)
    (at : p ≤ s.last_turn) (outbox : List OutboxRow) where
  answered-IsAnswered : IsAnswered input p s (answered input p outbox s)
  unfolding touch splice answer_turn continuing
  answered-IsAnswered =
      let ids = continuing input.branch_id p s.routes in
      let n = answer_turn input (some p) (s.last_turn + 1) in
      let fresh : among ids n.id ≡ false =
        continuing-given input.branch_id p s.last_turn s.routes known.routes in
      record {
        known = answered-IsKnown input p s known at outbox;
        answer = n;
        said = refl;
        newest = refl;
        others = kept ids n p s.last_turn s.turns known.turns refl refl at fresh;
        own = own ids n p s.last_turn s.turns known.turns refl refl at fresh;
        through = through ids n p s.last_turn s.turns known.turns refl refl at fresh;
      }

bound-IsAnswered :
    (input : AnswerInput) (p : ℕ) (s mid s' : Conversations)
    → IsAnswered input p s mid
    → IsBound mid s'
    → IsAnswered input p s s'
bound-IsAnswered input p s mid s' h b = record {
  known = bound-IsKnown mid s' h.known b;
  answer = h.answer;
  said = h.said;
  newest = h.newest;
  others = λ depth topic id k a.
      subst (λ ts. chain depth topic id ts ≡ chain depth topic id s.turns) b.same_turns
        (h.others depth topic id k a);
  own = λ depth a.
      subst
        (λ ts.
          chain (suc depth) input.topic_id h.answer.id ts
          ≡ h.answer ∷ chain depth input.topic_id p s.turns)
        b.same_turns (h.own depth a);
  through = λ before rest t d depth id f clear e a.
      subst
        (λ ts.
          chain (length before + suc (suc depth)) input.topic_id id ts
          ≡ before ++ behind h.answer.id t ∷ h.answer ∷ chain depth input.topic_id p s.turns)
        b.same_turns (h.through before rest t d depth id f clear e a);
}

append_behind-IsAnswered :
    (input : AnswerInput) (p : ℕ) (group : Text) (s s' : Conversations) (a : ContextTurn)
    → IsKnown s
    → p ≤ s.last_turn
    → append_behind input group (some p) s ≡ ok (a, s')
    → IsAnswered input p s s'
unfolding append_behind
append_behind-IsAnswered input p group s s' a known at e =
    let (outbox, e₁, _) =
      returned (a, s') _ (publish_all input (s.last_turn + 1) (delivery_ids_of input) s.outbox) e in
    let (bound, e₂, binds) =
      returned (a, s') _ (bind_answer input group (s.last_turn + 1) (answered input p outbox s))
        e₁ in
    let same_state : bound ≡ s' = ap (λ r. r.1) (ok_injective _ (a, s') e₂) in
    bound-IsAnswered input p s (answered input p outbox s) s'
      (answered-IsAnswered input p s known at outbox)
      (bind_answer-IsBound input p s known at group outbox s' (
        subst (λ x. bind_answer input group (s.last_turn + 1) (answered input p outbox s) ≡ ok x)
          same_state binds))

append_in-IsAnswered :
    (input : AnswerInput) (p : ℕ) (b : BranchRow) (s s' : Conversations) (a : ContextTurn)
    → IsKnown s
    → p ≤ s.last_turn
    → input.parent_turn_id ≡ some p
    → append_in input b s ≡ ok (a, s')
    → IsAnswered input p s s'
unfolding append_in
append_in-IsAnswered input p b s s' a known at given e =
    append_behind-IsAnswered input p b.group_id s s' a known at (
      subst (λ q. append_behind input b.group_id (coalesce? q b.head_turn_id) s ≡ ok (a, s')) given
        (checked (not (same b.topic_id input.topic_id)) foreign_branch _ (a, s') e).1)

found_branch :
    (input : AnswerInput) (b : BranchRow) (s : Conversations)
    → get_branch input.branch_id s ≡ some b
    → append_assistant_turn input s ≡ append_in input b s
unfolding append_assistant_turn
found_branch input b s found = rw (found, append_assistant_turn) refl

refused_missing :
    (input : AnswerInput) (s : Conversations) (out : ContextTurn × Conversations)
    → get_branch input.branch_id s ≡ none
    → append_assistant_turn input s ≡ ok out
    → ⊥
unfolding append_assistant_turn
refused_missing input s out missing e =
    let refused : append_assistant_turn input s ≡ throws foreign_branch =
      rw (missing, append_assistant_turn) refl in
    throws_ne_ok foreign_branch out (sym refused ∙ e)

-- An answer to a given and known turn, when the call succeeds, where a continuation is a turn that the
-- routes of the branch say continues the answered one implicitly. A history, in any topic, without a
-- continuation in it is as before. As long as the history of the answered turn has none, the answer's
-- history is the answer and the history of the turn, and a history in the answer's topic that has a
-- continuation is as before from its newest turn back to the first continuation that it meets, and goes
-- on from there with the answer and the history of the turn. The ids that the tables refer to were given
-- out before, and stay so.
pub append_assistant_turn-IsAnswered :
    (input : AnswerInput) (p : ℕ) (s s' : Conversations) (a : ContextTurn)
    → IsKnown s
    → p ≤ s.last_turn
    → input.parent_turn_id ≡ some p
    → append_assistant_turn input s ≡ ok (a, s')
    → IsAnswered input p s s'
unfolding append_assistant_turn
append_assistant_turn-IsAnswered input p s s' a known at given e =
    elim (Option-cases (get_branch input.branch_id s)) [
      | inl missing ↦ absurd (refused_missing input s (a, s') missing e)
      | inr (b, found) ↦
          append_in-IsAnswered input p b s s' a known at given
            (sym (found_branch input b s found) ∙ e)
    ]
