-- ===== src/Conversation/Saving/Parents.antt =====
-- The parent that a route gets.
use ubot_ai_agent.Base.{
  ℕ, ◌≡◌, refl, sym, ◌∙◌, ap, Result, Text, Option, none, some, true, inl, inr, ok, checked, arith,
  Bool-cases, Option-cases, coalesce?,
}
use ubot_ai_agent.Store.Delivery.{truthy}
use ubot_ai_agent.Conversation.Tables.{BranchRow, foreign_branch, or_else, Refusal}
use ubot_ai_agent.Conversation.Places.{
  SaveInput, FreshIds, Place, branch_place, trimmed, place_in, place_outside, place_of, is_behind,
}

abbrev pub head_of : Option BranchRow → Option ℕ
head_of none = none
head_of (some b) = b.head_turn_id

pub coalesce_none : (a : Option ℕ) → coalesce? a none ≡ a
coalesce_none none = refl
coalesce_none (some x) = refl

coalesce-is_behind : (a b : Option ℕ) → is_behind a b ≡ true → a ≡ coalesce? a b
coalesce-is_behind none b e = cc
coalesce-is_behind (some x) b e = refl

pub ok_injective : {A : Type 0} (a b : A) → ◌≡◌ {A = Result Refusal A} (ok a) (ok b) → a ≡ b
ok_injective a b e = cc

place_outside-parent :
    (fresh : FreshIds) (input : SaveInput) (p : Place)
    → place_outside fresh input ≡ ok p
    → p.parent_turn_id ≡ input.parent_turn_id
unfolding place_outside
place_outside-parent fresh input p e = elim (Option-cases (truthy input.branch_id)) [
  | inl no_branch ↦ ground arith
  | inr (id, given) ↦ absurd (ground arith)
]

branch_place-parent :
    (fresh : FreshIds) (input : SaveInput) (b : BranchRow) (topic : Text)
    → (branch_place fresh input b topic).parent_turn_id
      ≡ coalesce? input.parent_turn_id b.head_turn_id
unfolding branch_place
branch_place-parent fresh input b topic =
    elim (Bool-cases (is_behind input.parent_turn_id b.head_turn_id)) [
      | inl fork ↦ rw fork (coalesce-is_behind input.parent_turn_id b.head_turn_id fork)
      | inr on ↦ rw on refl
    ]

-- The parent that is asked for, or else the head of the branch.
pub place_of-parent :
    (fresh : FreshIds) (input : SaveInput) (existing : Option BranchRow) (p : Place)
    → place_of fresh input existing ≡ ok p
    → p.parent_turn_id ≡ coalesce? input.parent_turn_id (head_of existing)
unfolding place_of place_in
place_of-parent fresh input none p e =
    place_outside-parent fresh input p e ∙ sym (coalesce_none input.parent_turn_id)
place_of-parent fresh input (some b) p e =
    let topic = or_else (trimmed input.topic_id) (or_else (some b.topic_id) fresh.topic) in
    let same_place : branch_place fresh input b topic ≡ p =
      ok_injective _ _ (checked _ foreign_branch (ok (branch_place fresh input b topic)) p e).1 in
    ap (λ x. x.parent_turn_id) (sym same_place) ∙ branch_place-parent fresh input b topic
