-- ===== src/ModelRouter/Tests.antt =====
-- Runs of the fallback loop.
use ubot_ai_agent.Base.{
  ℕ, ◌≡◌, refl, Bool, true, false, Option, none, some, List, [], ◌∷◌, Text, codes, same, map,
  if◌then◌else◌, ok, arith,
}
use ubot_ai_agent.ModelRouter.{
  Model, Capabilities, Attempt, value, failure, configured_model_unavailable, Routed, run,
  candidates_of, ids_of,
}
use ubot_ai_agent.ModelRouter.Fallback.{IsAnswer, run-IsAnswer, run-reaches}

abbrev model : Text → Model
model id = record {
  id = id;
  is_reply = true;
  enabled = true;
  api_key = codes "k";
  is_anthropic = false;
}

abbrev first : Model
first = model (codes "gpt")

abbrev second : Model
second = model (codes "claude")

-- The first model cannot be reached, the others answer with their id.
abbrev attempt : Model → Attempt Text ℕ
attempt m = record {
  now = 5;
  is_aborted = false;
  outcome = if same m.id (codes "gpt") then failure true 503 else value m.id;
  is_aborted_after = false;
}

abbrev can : Capabilities
can = record { chat_enabled = λ anthropic. true; has_vision = λ m. false }

-- A model that is not there, and one that is named twice, are passed over.
chosen :
    candidates_of can false (second ∷ first ∷ []) (
      ids_of (codes "gpt") (record {
        fallback_enabled = true;
        fallback_model_ids = codes "none" ∷ codes "claude" ∷ codes "gpt" ∷ [];
      }))
    ≡ first ∷ second ∷ []
unfolding candidates_of ids_of ubot_ai_agent.Base.trim
chosen = refl

abbrev answer : Routed Text
answer = record { value_of = codes "claude"; model_id = codes "claude"; fallback_used = true }

run-IsAnswer_example :
    IsAnswer attempt
      (codes "gpt")
      9
      (first ∷ second ∷ [])
      answer
      (run attempt (codes "gpt") 9 (first ∷ second ∷ []) configured_model_unavailable).1
unfolding run
run-IsAnswer_example =
    run-IsAnswer attempt (codes "gpt") 9 (first ∷ second ∷ []) configured_model_unavailable answer
      (run attempt (codes "gpt") 9 (first ∷ second ∷ []) configured_model_unavailable).1 refl

run-reaches_example :
    (run attempt (codes "gpt") 9 (first ∷ second ∷ []) configured_model_unavailable).0 ≡ ok answer
run-reaches_example =
    run-reaches attempt (codes "gpt") 9 (first ∷ []) second [] configured_model_unavailable
      (codes "claude")
      (
        (
          record { error = 503; failed = refl; in_time = omega arith },
          record { not_before = refl; not_after = refl },
        ),
        tt,
      )
      (record { not_before = refl; not_after = refl }) (omega arith) refl
