-- ===== src/ModelRouter.antt =====
-- The fallback loop of ReplyModelRouter in src/services/reply-model-router.ts. What becomes of an
-- attempt with a model, the provider's capabilities and the clock are outside, and parameters here.
pub mod Fallback
mod Tests
use ubot_ai_agent.Base.{
  ℕ, leb, ◌||◌, if◌then◌else◌, Bool, true, false, not, ◌&&◌, Option, none, some, List, [], ◌∷◌,
  ◌++◌, Text, codes, same, trim, is_empty, find, distinct, coalesce, Result, ok, throws,
}

-- SystemModelConfig, as far as the choice reads it.
pub record Model : Type 0 where
  pub id : Text
  pub is_reply : Bool
  pub enabled : Bool
  pub api_key : Text
  pub is_anthropic : Bool

pub record ReplyRouting : Type 0 where
  pub fallback_enabled : Bool
  pub fallback_model_ids : List Text

-- The answers of the policy and of the capabilities.
pub record Capabilities : Type 0 where
  pub chat_enabled : Bool → Bool
  pub has_vision : Model → Bool

unfoldable pub effective_reply_model_id : Bool → Option Text → Option Text → Text
effective_reply_model_id is_global mode default_id =
    if is_global then coalesce default_id (codes "gpt") else coalesce mode (codes "gpt")

unfoldable pub ids_of : Text → ReplyRouting → List Text
ids_of primary routing =
    distinct (primary ∷ (if routing.fallback_enabled then routing.fallback_model_ids else []))

abbrev pub is_usable : Text → Model → Bool
is_usable id m = same m.id id && (m.is_reply && (m.enabled && not (is_empty (trim m.api_key))))

abbrev pub is_able : Capabilities → Bool → Model → Bool
is_able can vision m = can.chat_enabled m.is_anthropic && (not vision || can.has_vision m)

unfoldable pub candidate_for : Capabilities → Bool → List Model → Text → List Model
candidate_for can vision models id = elim (find (is_usable id) models) [
  | none ↦ []
  | some m ↦ if is_able can vision m then m ∷ [] else []
]

unfoldable pub candidates_of : Capabilities → Bool → List Model → List Text → List Model
unfolding candidate_for
candidates_of can vision models [] = []
candidates_of can vision models (id ∷ ids) =
    candidate_for can vision models id ++ candidates_of can vision models ids

-- What becomes of an attempt; a failure is retryable or not.
pub data Outcome (V : Type 0) (E : Type 0) : Type 0 where
  value : V → Outcome V E
  failure : Bool → E → Outcome V E

-- The attempt with a model: the clock and the signal before it, what becomes of it, and the signal
-- behind it.
pub record Attempt (V : Type 0) (E : Type 0) : Type 0 where
  pub now : ℕ
  pub is_aborted : Bool
  pub outcome : Outcome V E
  pub is_aborted_after : Bool

pub data RouteError (E : Type 0) : Type 0 where
  aborted model_total_timeout configured_model_unavailable : RouteError E
  provider : E → RouteError E

pub record Routed (V : Type 0) : Type 0 where
  pub value_of : V
  pub model_id : Text
  pub fallback_used : Bool

-- The candidates from `cursor` on, and `lastError`, which outlive a call of `run`.
pub record Cursor (E : Type 0) : Type 0 where
  pub rest : List Model
  pub last_error : RouteError E

module _ {V : Type 0} {E : Type 0} (attempt : Model → Attempt V E) (primary : Text)
    (deadline : ℕ) where
  -- What an attempt comes to; `next` is the next round of the loop.
  abbrev pub settle :
      Model
      → Outcome V E
      → Bool
      → Cursor E
      → (RouteError E → Result (RouteError E) (Routed V) × Cursor E)
      → Result (RouteError E) (Routed V) × Cursor E
  settle m out true c next = (throws aborted, c)
  settle m (value v) false c next =
      (ok (record { value_of = v; model_id = m.id; fallback_used = not (same m.id primary) }), c)
  settle m (failure true e) false c next = next (provider e)
  settle m (failure false e) false c next =
      (throws (provider e), record c { last_error = provider e })

  -- The loop.
  unfoldable pub run : List Model → RouteError E → Result (RouteError E) (Routed V) × Cursor E
  run [] last = (throws last, record { rest = []; last_error = last })
  run (m ∷ ms) last =
      let rounds = run ms in
      if (attempt m).is_aborted
      then (throws aborted, record { rest = m ∷ ms; last_error = last })
      else if leb deadline (attempt m).now
      then (throws model_total_timeout, record { rest = m ∷ ms; last_error = last })
      else settle m (attempt m).outcome (attempt m).is_aborted_after
          (record { rest = ms; last_error = last }) rounds
