-- ===== src/Limits/Breaker/Tests.antt =====
-- A breaker that trips after two failures and stays open for 100 ms.
use ubot_ai_agent.Base.{◌≡◌, refl, ◌+◌, false, true, List, [], ◌∷◌, arith}
use ubot_ai_agent.Limits.Breaker.{
  Options, Call, closed, start, Event, begins, succeeds, fails, step, run,
}
use ubot_ai_agent.Limits.Breaker.Trips.{IsSound, run-IsSound}
use ubot_ai_agent.Limits.Breaker.Shield.{IsShut, trip-shuts}

abbrev options : Options
options = record { trip_after_failures = 2; open_ms = 100 }

abbrev begun : List Event
begun = begins 1 10 ∷ fails 1 true 11 ∷ begins 2 12 ∷ []

abbrev failing : Call
failing = record { id = 2; probe = false; generation = 0 }

-- Open, then a probe behind the 100 ms, which closes the breaker.
recovers :
    (run options
      (fails 2 true 13 ∷ begins 3 50 ∷ begins 4 113 ∷ succeeds 4 ∷ [])
      (run options begun start)).state
    ≡ closed
unfolding run start
recovers = refl

run-IsSound_example :
    IsSound options (run options (begins 1 10 ∷ fails 1 true 11 ∷ begins 2 12 ∷ []) start)
run-IsSound_example =
    run-IsSound options (begins 1 10 ∷ fails 1 true 11 ∷ begins 2 12 ∷ []) (ground arith)

trip-shuts_example : IsShut options (13 + options.open_ms) (run options begun start).calls (
    run options
      (begins 3 50 ∷ begins 4 112 ∷ [])
      (step options (fails 2 true 13) (run options begun start)))
unfolding run start
trip-shuts_example =
    trip-shuts options 2 13 failing (run options begun start) (begins 3 50 ∷ begins 4 112 ∷ [])
      (run-IsSound options begun (ground arith)) refl refl (ground arith)
      (ground arith, (ground arith, tt))
