-- ===== src/Conversation/Answers/Splicing.antt =====
-- An answer put between a turn and those that continue it, in the table of turns.
use ubot_ai_agent.Base.{
  ℕ, length, suc, ◌+◌, ◌≤◌, ◌<◌, ◌≡◌, refl, sym, ap, subst, ◌∙◌, Option, some, List, [], ◌∷◌, ◌++◌,
  true, false, inl, inr, if◌then◌else◌, same, Text, find, find-append, All, All-map, All-append, ok,
  arith, Bool-cases, Option-cases,
}
use ubot_ai_agent.Base.Updates.{All-update}
use ubot_ai_agent.Base.Selection.{among}
use ubot_ai_agent.Store.Outbox.{OutboxRow}
use ubot_ai_agent.Store.Delivery.{truthy}
use ubot_ai_agent.Conversation.Tables.{BranchRow, ContextTurn, MessageRoute, Conversations}
use ubot_ai_agent.Conversation.History.{is_turn, chain}
use ubot_ai_agent.Conversation.History.Chains.{
  IsAtMost, IsGiven, chain_from, chain-found, chain-insert, find_inserted, chain_head,
  parent_of_chain,
}
use ubot_ai_agent.Conversation.History.Splices.{
  behind, spliced, Avoids, find-spliced, chain-spliced,
}
use ubot_ai_agent.Conversation.Saving.Known.{IsKnown, IsAtMost-weaken}
use ubot_ai_agent.Conversation.Saving.Parents.{ok_injective}
use ubot_ai_agent.Conversation.Answers.{
  AnswerInput, answer_turn, continues, continuing, splice, touch, advance_head, is_head,
  answer_binding, insert_message_binding, bind_answer,
}
use ubot_ai_agent.Conversation.Answers.Binding.{IsBound, binding-IsBound}

-- The routes that continue a turn hold ids that have been given out.
pub continuing-given :
    (branch : Text) (p last : ℕ) (routes : List MessageRoute)
    → All (λ r. r.turn_id ≤ last) routes
    → among (continuing branch p routes) (last + 1) ≡ false
unfolding continuing
continuing-given branch p last [] h = refl
continuing-given branch p last (r ∷ routes) h = elim (Bool-cases (continues branch p r)) [
  | inl e ↦ rw e (ground (arith, h.0, continuing-given branch p last routes h.1))
  | inr e ↦ rw e (continuing-given branch p last routes h.1)
]

module _ (ids : List ℕ) (n : ContextTurn) (p last : ℕ) (turns : List ContextTurn)
    (given : All (IsGiven last) turns) (newer : n.id ≡ last + 1)
    (answers : n.parent_turn_id ≡ some p) (at : p ≤ last) (fresh : among ids n.id ≡ false) where
  abbrev pub after : List ContextTurn
  after = spliced ids n.id (turns ++ n ∷ [])

  pub kept :
      (depth : ℕ) (other : Text) (id : ℕ)
      → id ≤ last
      → Avoids ids (chain depth other id turns)
      → chain depth other id after ≡ chain depth other id turns
  kept depth other id h avoids =
      let same_chain = chain-insert n last (omega (arith, newer)) turns given depth other id h in
      chain-spliced ids n.id other depth id (turns ++ n ∷ [])
        (subst (Avoids ids) (sym same_chain) avoids)
      ∙ same_chain

  pub own :
      (depth : ℕ)
      → Avoids ids (chain depth n.topic_id p turns)
      → chain (suc depth) n.topic_id n.id after ≡ n ∷ chain depth n.topic_id p turns
  own depth avoids =
      let ids_before =
        All-map (IsGiven last) (λ t. t.id < n.id) (λ t h. omega (arith, h.0, newer)) turns given in
      let found =
        find-spliced ids n.id n.topic_id n.id (turns ++ n ∷ []) n (find_inserted turns n ids_before)
        ∙ ap (λ b. some (if b then behind n.id n else n)) fresh in
      chain-found depth n.topic_id n.id after n found
      ∙ ap (λ q. n ∷ chain_from depth n.topic_id q after) answers
      ∙ ap (◌∷◌ n) (kept depth n.topic_id p at avoids)

  -- A turn that is found as it is but for its parent, which is another where the turn is one of `ids`.
  found_after :
      (id : ℕ) (t : ContextTurn)
      → find (is_turn n.topic_id id) turns ≡ some t
      → find (is_turn n.topic_id id) after ≡ some (if among ids t.id then behind n.id t else t)
  found_after id t found =
      find-spliced ids n.id n.topic_id id (turns ++ n ∷ []) t
        (find-append (is_turn n.topic_id id) turns (n ∷ []) t found)

  continued :
      (depth id : ℕ) (t : ContextTurn)
      → find (is_turn n.topic_id id) turns ≡ some t
      → among ids t.id ≡ true
      → Avoids ids (chain depth n.topic_id p turns)
      → chain (suc (suc depth)) n.topic_id id after
        ≡ behind n.id t ∷ n ∷ chain depth n.topic_id p turns
  continued depth id t found e avoids =
      chain-found (suc depth) n.topic_id id after (behind n.id t)
        (found_after id t found ∙ ap (λ b. some (if b then behind n.id t else t)) e)
      ∙ ap (◌∷◌ (behind n.id t)) (own depth avoids)

  past :
      (length_before depth id : ℕ) (b : ContextTurn) (q : ℕ) (rest : List ContextTurn)
      → find (is_turn n.topic_id id) turns ≡ some b
      → among ids b.id ≡ false
      → b.parent_turn_id ≡ some q
      → chain (length_before + suc (suc depth)) n.topic_id q after ≡ rest
      → chain (suc (length_before + suc (suc depth))) n.topic_id id after ≡ b ∷ rest
  past length_before depth id b q rest found e parent tail =
      chain-found (length_before + suc (suc depth)) n.topic_id id after b
        (found_after id b found ∙ ap (λ x. some (if x then behind n.id b else b)) e)
      ∙ ap (λ o. b ∷ chain_from (length_before + suc (suc depth)) n.topic_id o after) parent
      ∙ ap (◌∷◌ b) tail

  pub through :
      (before rest : List ContextTurn) (t : ContextTurn) (d depth id : ℕ)
      → chain d n.topic_id id turns ≡ before ++ t ∷ rest
      → Avoids ids before
      → among ids t.id ≡ true
      → Avoids ids (chain depth n.topic_id p turns)
      → chain (length before + suc (suc depth)) n.topic_id id after
        ≡ before ++ behind n.id t ∷ n ∷ chain depth n.topic_id p turns
  through [] rest t d depth id h clear e avoids =
      let (d', found, tail) = chain_head n.topic_id d id turns t rest h in
      let none_before : length {A = ContextTurn} [] + suc (suc depth) ≡ suc (suc depth) =
        omega arith in
      ap (λ k. chain k n.topic_id id after) none_before ∙ continued depth id t found e avoids
  through (b ∷ before) rest t d depth id h clear e avoids =
      let (d', found, tail) = chain_head n.topic_id d id turns b (before ++ t ∷ rest) h in
      let (q, parent, next) =
        parent_of_chain n.topic_id d' b.parent_turn_id turns before rest t tail in
      let longer : length (b ∷ before) + suc (suc depth) ≡ suc (length before + suc (suc depth)) =
        omega arith in
      ap (λ k. chain k n.topic_id id after) longer
      ∙ past (length before) depth id b q _ found clear.0 parent
          (through before rest t d' depth q next clear.1 e avoids)

-- The state that binding starts from: the answer inserted, the continuations behind it.
abbrev pub answered : AnswerInput → ℕ → List OutboxRow → Conversations → Conversations
answered input p outbox s =
    let turn = s.last_turn + 1 in
    touch input (some p) turn (
      splice input.branch_id (some p) turn (record s {
        turns = s.turns ++ answer_turn input (some p) turn ∷ [];
        last_turn = turn;
        outbox = outbox;
      }))

module _ (input : AnswerInput) (p : ℕ) (s : Conversations) (known : IsKnown s)
    (at : p ≤ s.last_turn) where
  weaken : (i : Option ℕ) → IsAtMost s.last_turn i → IsAtMost (s.last_turn + 1) i
  weaken i h = IsAtMost-weaken s.last_turn (s.last_turn + 1) i (omega arith) h

  head-IsAtMost :
      (b : BranchRow)
      → IsAtMost s.last_turn b.head_turn_id
      → IsAtMost
          (s.last_turn + 1)
          (advance_head (some p) (s.last_turn + 1) input.created_at b).head_turn_id
  unfolding advance_head
  head-IsAtMost b h = elim (Bool-cases (is_head b.head_turn_id (some p))) [
    | inl e ↦ rw e (omega arith)
    | inr e ↦ rw e (weaken b.head_turn_id h)
  ]

  pub answered-IsKnown : (outbox : List OutboxRow) → IsKnown (answered input p outbox s)
  unfolding touch splice answer_turn
  answered-IsKnown outbox =
      let last = s.last_turn in
      record {
        turns =
            All-update (λ t. among (continuing input.branch_id p s.routes) t.id) (behind (last + 1))
              (IsGiven (last + 1)) (IsGiven (last + 1)) (λ t e h. (h.0, omega arith)) (λ t e h. h) _
              (All-append (IsGiven (last + 1)) s.turns _
                (All-map (IsGiven last) _ (λ t h. (omega (arith, h.0), weaken t.parent_turn_id h.1))
                  s.turns known.turns)
                ((omega arith, omega (arith, at)), tt));
        heads =
            All-update (λ b. same b.branch_id input.branch_id) _ (λ b. IsAtMost last b.head_turn_id)
              (λ b. IsAtMost (last + 1) b.head_turn_id) (λ b e h. head-IsAtMost b h)
              (λ b e h. weaken b.head_turn_id h) s.branches known.heads;
        contexts =
            All-map (λ c. IsAtMost last c.turn_id) _ (λ c h. weaken c.turn_id h) s.contexts
              known.contexts;
        routes =
            All-update (continues input.branch_id p) _ (λ r. r.turn_id ≤ last)
              (λ r. r.turn_id ≤ last + 1) (λ r e h. omega (arith, h)) (λ r e h. omega (arith, h))
              s.routes known.routes;
      }

  answer_given :
      (group message : Text) (outbox : List OutboxRow)
      → IsAtMost
          (answered input p outbox s).last_turn
          (answer_binding input group message (s.last_turn + 1)).turn_id
  unfolding touch splice answer_binding
  answer_given group message outbox = omega arith

  pub bind_answer-IsBound :
      (group : Text) (outbox : List OutboxRow) (s' : Conversations)
      → bind_answer input group (s.last_turn + 1) (answered input p outbox s) ≡ ok s'
      → IsBound (answered input p outbox s) s'
  unfolding bind_answer
  bind_answer-IsBound group outbox s' e = elim (Option-cases (truthy input.platform_message_id)) [
    | inl unnamed ↦
        let start = answered input p outbox s in
        let unbound : bind_answer input group (s.last_turn + 1) start ≡ ok start =
          rw (unnamed, bind_answer) refl in
        subst (IsBound start) (ok_injective start s' (sym unbound ∙ e)) (record {
          same_turns = refl;
          same_last = refl;
          same_branches = refl;
          same_routes = refl;
          given = (answered-IsKnown outbox).contexts;
        })
    | inr (message, named) ↦
        let start = answered input p outbox s in
        let binding = answer_binding input group message (s.last_turn + 1) in
        let bound : bind_answer input group (s.last_turn + 1) start
            ≡ insert_message_binding binding start =
          rw (named, bind_answer) refl in
        binding-IsBound binding start (answered-IsKnown outbox).contexts
          (answer_given group message outbox) s' (sym bound ∙ e)
  ]
