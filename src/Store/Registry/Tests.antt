-- ===== src/Store/Registry/Tests.antt =====
-- Tasks of one key.
use ubot_ai_agent.Base.{◌≡◌, refl, false, some, List, [], ◌∷◌, codes}
use ubot_ai_agent.Store.Registry.{
  Inflight, Options, get_inflight, clear_inflight, begin, request_cancel, is_cancelled,
}
use ubot_ai_agent.Store.Registry.Tasks.{task, clear-replaced}

abbrev running : List Inflight
running = task (codes "k") (codes "one") 10 ∷ []

abbrev options : Options
options = record { cancel_after_ms = 20000; merge_short_text_chars = 10 }

clear-replaced_example :
    (get_inflight (codes "k") (
        clear_inflight
          (codes "k")
          (some (codes "one"))
          (begin (codes "k") (codes "two") 20 (request_cancel (codes "k") running)))
      ≡ some (task (codes "k") (codes "two") 20))
    × (is_cancelled (codes "k") (
          clear_inflight
            (codes "k")
            (some (codes "one"))
            (begin (codes "k") (codes "two") 20 (request_cancel (codes "k") running)))
        ≡ false)
clear-replaced_example = clear-replaced (codes "k") (codes "one") (codes "two") 20 running refl refl
