-- ===== src/Limits/GroupLock/Tests.antt =====
-- Two groups with a limit of one.
use ubot_ai_agent.Base.{◌≡◌, refl, [], ◌∷◌, All, codes, arith}
use ubot_ai_agent.Limits.GroupLock.{acquires, releases, get_active_count, run}
use ubot_ai_agent.Limits.GroupLock.Turns.{IsFair, run-AreFair}

one_each :
    get_active_count (codes "a") (
      run 1
        (acquires (codes "a") 1
          ∷ acquires (codes "b") 2
          ∷ acquires (codes "a") 3
          ∷ releases (codes "a")
          ∷ [])
        [])
    ≡ 1
unfolding get_active_count run
one_each = refl

run-AreFair_example : All (IsFair 1) (
    run 1
      (acquires (codes "a") 1
        ∷ acquires (codes "b") 2
        ∷ acquires (codes "a") 3
        ∷ releases (codes "a")
        ∷ [])
      [])
run-AreFair_example =
    run-AreFair 1
      (acquires (codes "a") 1
        ∷ acquires (codes "b") 2
        ∷ acquires (codes "a") 3
        ∷ releases (codes "a")
        ∷ [])
      (ground arith)
