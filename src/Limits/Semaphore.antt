-- ===== src/Limits/Semaphore.antt =====
-- `LlmSemaphore` of src/services/llm-semaphore.ts. Callers are numbers; timers and abort signals that
-- fire are events.
pub mod Permits
mod Tests
use ubot_ai_agent.Base.{
  ℕ, suc, ◌+◌, ◌-◌, ◌==◌, ltb, if◌then◌else◌, Bool, true, false, not, List, [], ◌∷◌, ◌++◌, filter,
  any, Option, none, some,
}

-- `holders` are the callers whose permit is not released; the code keeps only their number, `active`.
pub record Semaphore : Type 0 where
  pub active : ℕ
  pub waiters : List ℕ
  pub holders : List ℕ

unfoldable pub empty : Semaphore
empty = record { active = 0; waiters = []; holders = [] }

unfoldable pub acquire : ℕ → ℕ → Bool → Semaphore → Semaphore
acquire max_concurrent caller aborted s =
    if aborted
    then s
    else if ltb s.active max_concurrent
    then record s { active = s.active + 1; holders = caller ∷ s.holders }
    else record s { waiters = s.waiters ++ caller ∷ [] }

-- A waiter whose timer or whose abort signal fires is rejected.
unfoldable pub reject : ℕ → Semaphore → Semaphore
reject caller s = record s { waiters = filter (λ w. not (w == caller)) s.waiters }

abbrev pub without : ℕ → List ℕ → List ℕ
without c [] = []
without c (x ∷ xs) = elim (x == c) [ true ↦ xs | false ↦ x ∷ without c xs ]

unfoldable pub hand_over : List ℕ → Semaphore → Semaphore
hand_over [] s = s
hand_over (next ∷ rest) s = record {
  active = s.active + 1;
  waiters = rest;
  holders = next ∷ s.holders;
}

-- `Math.max(0, active - 1)`, and the first waiter's turn.
unfoldable pub release : ℕ → Semaphore → Semaphore
unfolding hand_over
release caller s =
    hand_over s.waiters (record s { active = s.active - 1; holders = without caller s.holders })

abbrev pub holds : ℕ → List ℕ → Bool
holds c = any (λ h. h == c)

pub data Event : Type 0 where
  acquires : (caller : ℕ) (aborted : Bool) → Event
  rejects : (caller : ℕ) → Event
  releases : (caller : ℕ) → Event

-- Only a caller with a permit releases one.
unfoldable pub step : ℕ → Event → Semaphore → Semaphore
unfolding acquire reject release
step max_concurrent (acquires caller aborted) s = acquire max_concurrent caller aborted s
step max_concurrent (rejects caller) s = reject caller s
step max_concurrent (releases caller) s = if holds caller s.holders then release caller s else s

unfoldable pub run : ℕ → List Event → Semaphore → Semaphore
unfolding step
run max_concurrent [] s = s
run max_concurrent (e ∷ es) s = run max_concurrent es (step max_concurrent e s)
