-- ===== src/Limits/Semaphore/Tests.antt =====
-- A semaphore of one permit.
use ubot_ai_agent.Base.{◌≡◌, refl, false, true, List, [], ◌∷◌}
use ubot_ai_agent.Limits.Semaphore.{Event, acquires, rejects, empty, release, holds, run}
use ubot_ai_agent.Limits.Semaphore.Permits.{IsFair, run-IsFair, release-hands_over}

abbrev events : List Event
events = acquires 7 false ∷ acquires 8 false ∷ acquires 9 false ∷ rejects 8 ∷ []

run-IsFair_example :
    IsFair 1 (run 1 (acquires 7 false ∷ acquires 8 false ∷ acquires 9 false ∷ rejects 8 ∷ []) empty)
run-IsFair_example =
    run-IsFair 1 (acquires 7 false ∷ acquires 8 false ∷ acquires 9 false ∷ rejects 8 ∷ [])

release-hands_over_example :
    ((release 7 (run 1 events empty)).active ≡ (run 1 events empty).active)
    × ((release 7 (run 1 events empty)).waiters ≡ [])
    × (holds 9 (release 7 (run 1 events empty)).holders ≡ true)
unfolding run empty
release-hands_over_example =
    release-hands_over 7 9 [] (run 1 events empty) 1 (run-IsFair 1 events) refl refl
