-- ===== src/Conversation/History/Splices.antt =====
-- How the chain of a turn's parents sees turns that get another parent.
use ubot_ai_agent.Base.{
  ℕ, zero, suc, ◌≡◌, refl, ap, sym, subst, ◌∙◌, if◌then◌else◌, Bool, true, false, Option, none,
  some, List, [], ◌∷◌, inl, inr, Text, find, All, arith, Bool-cases, Option-cases,
}
use ubot_ai_agent.Base.Updates.{update}
use ubot_ai_agent.Base.Selection.{among}
use ubot_ai_agent.Conversation.Tables.{ContextTurn}
use ubot_ai_agent.Conversation.History.{is_turn, chain}
use ubot_ai_agent.Conversation.History.Chains.{chain_from, chain-found, chain-missing}

abbrev pub behind : ℕ → ContextTurn → ContextTurn
behind parent t = record t { parent_turn_id = some parent }

abbrev pub spliced : List ℕ → ℕ → List ContextTurn → List ContextTurn
spliced ids parent = update (λ t. among ids t.id) (behind parent)

-- None of the turns gets another parent.
abbrev pub Avoids : List ℕ → List ContextTurn → Type 0
Avoids ids = All λ t. among ids t.id ≡ false

module _ (ids : List ℕ) (parent : ℕ) (topic : Text) where
  same_test :
      (id : ℕ) (u : ContextTurn) (b : Bool)
      → is_turn topic id (if b then behind parent u else u) ≡ is_turn topic id u
  same_test id u true = refl
  same_test id u false = refl

  -- The step of a chain, at a parent that may be missing.
  chain_from-spliced :
      (depth : ℕ) (p : Option ℕ) (turns : List ContextTurn)
      → Avoids ids (chain_from depth topic p turns)
      → ((id : ℕ)
          → Avoids ids (chain depth topic id turns)
          → chain depth topic id (spliced ids parent turns) ≡ chain depth topic id turns)
      → chain_from depth topic p (spliced ids parent turns) ≡ chain_from depth topic p turns
  chain_from-spliced depth none turns h e = refl
  chain_from-spliced depth (some id) turns h e = e id h

  pub find-spliced :
      (id : ℕ) (turns : List ContextTurn) (t : ContextTurn)
      → find (is_turn topic id) turns ≡ some t
      → find (is_turn topic id) (spliced ids parent turns)
        ≡ some (if among ids t.id then behind parent t else t)
  find-spliced id [] t e = cc
  find-spliced id (u ∷ turns) t e = elim (Bool-cases (is_turn topic id u)) [
    | inl hit ↦
        let this : u ≡ t = ground arith in
        rw (same_test id u (among ids u.id), hit)
          (ap (λ v. some (if among ids v.id then behind parent v else v)) this)
    | inr miss ↦ rw (same_test id u (among ids u.id), miss) (find-spliced id turns t (ground arith))
  ]

  find_missing-spliced :
      (id : ℕ) (turns : List ContextTurn)
      → find (is_turn topic id) turns ≡ none
      → find (is_turn topic id) (spliced ids parent turns) ≡ none
  find_missing-spliced id [] e = refl
  find_missing-spliced id (u ∷ turns) e = elim (Bool-cases (is_turn topic id u)) [
    | inl hit ↦ absurd (ground arith)
    | inr miss ↦
        rw (same_test id u (among ids u.id), miss) (find_missing-spliced id turns (ground arith))
  ]

  pub chain-spliced :
      (depth id : ℕ) (turns : List ContextTurn)
      → Avoids ids (chain depth topic id turns)
      → chain depth topic id (spliced ids parent turns) ≡ chain depth topic id turns
  unfolding chain
  chain-spliced zero id turns h = refl
  chain-spliced (suc depth) id turns h = elim (Option-cases (find (is_turn topic id) turns)) [
    | inl e ↦
        chain-missing (suc depth) topic id _ (find_missing-spliced id turns e)
        ∙ sym (chain-missing (suc depth) topic id turns e)
    | inr (t, e) ↦
        let avoids = subst (Avoids ids) (chain-found depth topic id turns t e) h in
        let same_turn =
          find-spliced id turns t e ∙ ap (λ b. some (if b then behind parent t else t)) avoids.0 in
        chain-found depth topic id _ t same_turn
        ∙ ap (◌∷◌ t) (
            chain_from-spliced depth t.parent_turn_id turns avoids.1
              (λ i k. chain-spliced depth i turns k))
        ∙ sym (chain-found depth topic id turns t e)
  ]
