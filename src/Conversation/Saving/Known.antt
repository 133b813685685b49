-- ===== src/Conversation/Saving/Known.antt =====
-- The ids of turns that the conversation tables refer to have been given out, and stay so.
use ubot_ai_agent.Base.{
  ℕ, ◌≤◌, ◌≡◌, sym, Option, none, some, inl, inr, same, Text, find, All, All-found, ok, arith,
  Option-cases, coalesce?, subst,
}
use ubot_ai_agent.Store.Delivery.{truthy}
use ubot_ai_agent.Conversation.Tables.{BranchRow, Conversations, get_branch}
use ubot_ai_agent.Conversation.History.Chains.{IsAtMost, IsGiven}
use ubot_ai_agent.Conversation.Saving.Parents.{head_of, place_of-parent}
use ubot_ai_agent.Conversation.Places.{SaveInput, FreshIds, Place, existing_branch, place_of}

-- Every id of a turn that the tables hold is one that has been given out.
pub record IsKnown (s : Conversations) : Type 0 where
  pub turns : All (IsGiven s.last_turn) s.turns
  pub heads : All (λ b. IsAtMost s.last_turn b.head_turn_id) s.branches
  pub contexts : All (λ c. IsAtMost s.last_turn c.turn_id) s.contexts
  pub routes : All (λ r. r.turn_id ≤ s.last_turn) s.routes

pub IsAtMost-weaken : (n m : ℕ) (i : Option ℕ) → n ≤ m → IsAtMost n i → IsAtMost m i
IsAtMost-weaken n m none h k = tt
IsAtMost-weaken n m (some i) h k = omega (arith, h, k)

pub IsAtMost-coalesce :
    (n : ℕ) (a b : Option ℕ) → IsAtMost n a → IsAtMost n b → IsAtMost n (coalesce? a b)
IsAtMost-coalesce n none b h k = k
IsAtMost-coalesce n (some a) b h k = h

-- The head of a branch that may be missing.
abbrev pub HasKnownHead : ℕ → Option BranchRow → Type 0
HasKnownHead last none = Unit
HasKnownHead last (some b) = IsAtMost last b.head_turn_id

head_of-IsAtMost :
    (last : ℕ) (existing : Option BranchRow)
    → HasKnownHead last existing
    → IsAtMost last (head_of existing)
head_of-IsAtMost last none h = tt
head_of-IsAtMost last (some b) h = h

module _ (s : Conversations) (known : IsKnown s) where
  get_branch-HasKnownHead : (id : Text) → HasKnownHead s.last_turn (get_branch id s)
  unfolding get_branch
  get_branch-HasKnownHead id = elim (Option-cases (find (λ b. same b.branch_id id) s.branches)) [
    | inl e ↦ rw e tt
    | inr (b, e) ↦ rw e (
        All-found (λ x. IsAtMost s.last_turn x.head_turn_id) (λ x. same x.branch_id id) s.branches b
          e known.heads)
  ]

  pub existing-HasKnownHead :
      (input : SaveInput) → HasKnownHead s.last_turn (existing_branch input s)
  unfolding existing_branch
  existing-HasKnownHead input = elim (Option-cases (truthy input.branch_id)) [
    | inl e ↦ rw (e, existing_branch) tt
    | inr (id, e) ↦ rw (e, existing_branch) (get_branch-HasKnownHead id)
  ]

pub place_of-IsAtMost :
    (fresh : FreshIds) (input : SaveInput) (existing : Option BranchRow) (p : Place) (last : ℕ)
    → IsAtMost last input.parent_turn_id
    → HasKnownHead last existing
    → place_of fresh input existing ≡ ok p
    → IsAtMost last p.parent_turn_id
place_of-IsAtMost fresh input existing p last h k e =
    subst (IsAtMost last) (sym (place_of-parent fresh input existing p e)) (
      IsAtMost-coalesce last input.parent_turn_id (head_of existing) h
        (head_of-IsAtMost last existing k))
