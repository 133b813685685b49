-- ===== src/Maintenance/Tests.antt =====
-- Runs of the scheduler.
use ubot_ai_agent.Base.{◌≡◌, refl, true, none, some, List, [], ◌∷◌, codes, map, ok, throws}
use ubot_ai_agent.Maintenance.{Job, maintenance_job_id_invalid, make}
use ubot_ai_agent.Maintenance.Spacing.{
  Event, polls, ends, fails, History, IsSpaced, runs_of, runs-IsSpaced, run_from,
}
use ubot_ai_agent.Maintenance.Ticks.{IsOver, noted_all, due, ends_of, tick-IsOver}

abbrev chat : Job
chat = record { id = codes "chat"; interval_ms = 15 }

abbrev report : Job
report = record { id = codes "report"; interval_ms = 30 }

abbrev both : List Job
both = chat ∷ report ∷ []

-- Two jobs with one id.
refused : make (chat ∷ chat ∷ []) 10 ≡ throws maintenance_job_id_invalid
unfolding make ubot_ai_agent.Base.trim
refused = refl

-- The report fails at 40, and waits for 70; the second poll comes while the first tick is not over.
abbrev busy : List Event
busy = polls 40 ∷ polls 50 ∷ ends ∷ fails ∷ polls 60 ∷ ends ∷ polls 70 ∷ ends ∷ []

times : map (λ r. r.at) (runs_of both busy) ≡ 70 ∷ 60 ∷ 40 ∷ 40 ∷ []
unfolding runs_of
times = refl

runs-IsSpaced_example : IsSpaced (runs_of both busy)
runs-IsSpaced_example = runs-IsSpaced both busy

abbrev idle : History
idle = record {
  scheduler = record { jobs = both; last_runs = []; tick = none; has_timer = true };
  runs = [];
}

tick-IsOver_example :
    IsOver (noted_all 20 (due 20 [] both) []) (run_from (polls 20 ∷ ends_of (due 20 [] both)) idle)
tick-IsOver_example = tick-IsOver 20 idle ((refl, tt), (tt, tt)) refl
