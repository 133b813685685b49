-- ===== src/Conversation/History/Chains.antt =====
-- How the chain of a turn's parents sees changes of the table of turns.
use ubot_ai_agent.Base.{
  ℕ, zero, suc, ◌≤◌, ◌<◌, ◌≡◌, refl, ap, sym, ◌∙◌, Option, none, some, List, [], ◌∷◌, ◌++◌, inl,
  inr, Text, same_refl, find, All, All-found, arith, Option-cases,
}
use ubot_ai_agent.Conversation.Tables.{ContextTurn}
use ubot_ai_agent.Conversation.History.{is_turn, chain}

abbrev pub IsAtMost : ℕ → Option ℕ → Type 0
IsAtMost n none = Unit
IsAtMost n (some i) = i ≤ n

-- A turn whose ids have been given out.
abbrev pub IsGiven : ℕ → ContextTurn → Type 0
IsGiven last t = (t.id ≤ last) × IsAtMost last t.parent_turn_id

-- The chain that starts at a turn that may be missing.
abbrev pub chain_from : ℕ → Text → Option ℕ → List ContextTurn → List ContextTurn
chain_from depth topic parent turns = elim parent [
  | none ↦ []
  | some id ↦ chain depth topic id turns
]

-- One step of the chain.
pub chain-found :
    (depth : ℕ) (topic : Text) (id : ℕ) (turns : List ContextTurn) (t : ContextTurn)
    → find (is_turn topic id) turns ≡ some t
    → chain (suc depth) topic id turns ≡ t ∷ chain_from depth topic t.parent_turn_id turns
unfolding chain
chain-found depth topic id turns t e = rw (e, chain) refl

pub chain-missing :
    (depth : ℕ) (topic : Text) (id : ℕ) (turns : List ContextTurn)
    → find (is_turn topic id) turns ≡ none
    → chain depth topic id turns ≡ []
unfolding chain
chain-missing zero topic id turns e = refl
chain-missing (suc depth) topic id turns e = rw (e, chain) refl

-- The search for an id that an inserted turn does not have.
find_before :
    (topic : Text) (id : ℕ) (turns : List ContextTurn) (n : ContextTurn)
    → id < n.id
    → find (is_turn topic id) (turns ++ n ∷ []) ≡ find (is_turn topic id) turns
find_before topic id [] n h = ground arith
find_before topic id (t ∷ turns) n h = ground (arith, find_before topic id turns n h)

-- The search for the id of an inserted turn.
pub find_inserted :
    (turns : List ContextTurn) (n : ContextTurn)
    → All (λ t. t.id < n.id) turns
    → find (is_turn n.topic_id n.id) (turns ++ n ∷ []) ≡ some n
find_inserted [] n h = ground (arith, same_refl n.topic_id)
find_inserted (t ∷ turns) n h = ground (arith, h.0, find_inserted turns n h.1)

-- Two tables that agree on the chains of the ids given out agree on those that may be missing.
pub chain_from_cong :
    (last depth : ℕ) (topic : Text) (parent : Option ℕ) (turns turns' : List ContextTurn)
    → IsAtMost last parent
    → ((id : ℕ) → id ≤ last → chain depth topic id turns ≡ chain depth topic id turns')
    → chain_from depth topic parent turns ≡ chain_from depth topic parent turns'
chain_from_cong last depth topic none turns turns' h e = refl
chain_from_cong last depth topic (some id) turns turns' h e = e id h

module _ (n : ContextTurn) (last : ℕ) (newer : last < n.id) (turns : List ContextTurn)
    (given : All (IsGiven last) turns) where
  -- A turn with a new id does not show in the chains of the others.
  pub chain-insert :
      (depth : ℕ) (topic : Text) (id : ℕ)
      → id ≤ last
      → chain depth topic id (turns ++ n ∷ []) ≡ chain depth topic id turns
  unfolding chain
  chain-insert zero topic id h = refl
  chain-insert (suc depth) topic id h =
      let same_search = find_before topic id turns n (omega arith) in
      elim (Option-cases (find (is_turn topic id) turns)) [
        | inl e ↦
            chain-missing (suc depth) topic id (turns ++ n ∷ []) (same_search ∙ e)
            ∙ sym (chain-missing (suc depth) topic id turns e)
        | inr (t, e) ↦
            let parent = All-found (IsGiven last) (is_turn topic id) turns t e given in
            chain-found depth topic id (turns ++ n ∷ []) t (same_search ∙ e)
            ∙ ap (◌∷◌ t) (
                chain_from_cong last depth topic t.parent_turn_id (turns ++ n ∷ []) turns parent.1
                  (chain-insert depth topic))
            ∙ sym (chain-found depth topic id turns t e)
      ]

nil_ne_cons : (x : ContextTurn) (xs : List ContextTurn) → [] ≡ x ∷ xs → ⊥
nil_ne_cons x xs e = cc

nil_ne_append : (xs ys : List ContextTurn) (y : ContextTurn) → [] ≡ xs ++ y ∷ ys → ⊥
nil_ne_append [] ys y e = cc
nil_ne_append (x ∷ xs) ys y e = cc

cons_injective :
    (x y : ContextTurn) (xs ys : List ContextTurn) → x ∷ xs ≡ y ∷ ys → (x ≡ y) × (xs ≡ ys)
cons_injective x y xs ys e = (cc, cc)

-- The first turn of a chain, and the chain of its parent.
pub chain_head :
    (topic : Text) (depth id : ℕ) (turns : List ContextTurn) (x : ContextTurn)
    (xs : List ContextTurn)
    → chain depth topic id turns ≡ x ∷ xs
    → (d : ℕ) × (find (is_turn topic id) turns ≡ some x)
      × (chain_from d topic x.parent_turn_id turns ≡ xs)
unfolding chain
chain_head topic zero id turns x xs e = absurd (nil_ne_cons x xs e)
chain_head topic (suc depth) id turns x xs e = elim (Option-cases (find (is_turn topic id) turns)) [
  | inl missing ↦
      absurd (nil_ne_cons x xs (sym (chain-missing (suc depth) topic id turns missing) ∙ e))
  | inr (t, found) ↦
      let (same_turn, tail) =
        cons_injective t x _ xs (sym (chain-found depth topic id turns t found) ∙ e) in
      (
        depth,
        found ∙ ap some same_turn,
        ap (λ y. chain_from depth topic y.parent_turn_id turns) (sym same_turn) ∙ tail,
      )
]

-- A chain with a turn in it starts at a turn that is there.
pub parent_of_chain :
    (topic : Text) (depth : ℕ) (parent : Option ℕ) (turns xs ys : List ContextTurn)
    (y : ContextTurn)
    → chain_from depth topic parent turns ≡ xs ++ y ∷ ys
    → (q : ℕ) × (parent ≡ some q) × (chain depth topic q turns ≡ xs ++ y ∷ ys)
parent_of_chain topic depth none turns xs ys y e = absurd (nil_ne_append xs ys y e)
parent_of_chain topic depth (some q) turns xs ys y e = (q, refl, e)
