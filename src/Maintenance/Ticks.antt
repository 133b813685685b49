-- ===== src/Maintenance/Ticks.antt =====
-- Which jobs a tick runs.
use ubot_ai_agent.Base.{
  ℕ, ◌+◌, ◌≡◌, refl, sym, ap, subst, ◌∙◌, ltb, if◌then◌else◌, false, not, Option, none, some, List,
  [], ◌∷◌, Text, same, filter, All, Bool-cases, inl, inr,
}
use ubot_ai_agent.Maintenance.{
  Job, LastRun, Scheduler, last_run_at, set_last_run, is_waiting, next_job, run_due_jobs, job_ends,
}
use ubot_ai_agent.Maintenance.Spacing.{
  Run, Event, polls, ends, History, noted, answer, step, run_from, last_run-set,
}

-- The ids differ, as the constructor of the scheduler demands.
abbrev pub AreDistinct : List Job → Type 0
AreDistinct [] = Unit
AreDistinct (j ∷ js) = All (λ k. same j.id k.id ≡ false) js × AreDistinct js

-- The jobs whose interval is over.
abbrev pub due : ℕ → List LastRun → List Job → List Job
due now rows = filter (λ job. not (is_waiting now rows job))

-- One end for each of the jobs.
abbrev pub ends_of : List Job → List Event
ends_of [] = []
ends_of (j ∷ js) = ends ∷ ends_of js

abbrev pub noted_all : ℕ → List Job → List Run → List Run
noted_all now [] runs = runs
noted_all now (j ∷ js) runs = noted_all now js (record { job = j; at = now } ∷ runs)

due-set :
    (now : ℕ) (id : Text) (rows : List LastRun) (jobs : List Job)
    → All (λ k. same id k.id ≡ false) jobs
    → due now (set_last_run id now rows) jobs ≡ due now rows jobs
unfolding is_waiting
due-set now id rows [] h = refl
due-set now id rows (k ∷ jobs) h =
    let same_time : last_run_at k.id (set_last_run id now rows) ≡ last_run_at k.id rows =
      last_run-set id k.id now rows ∙ ap (λ b. if b then now else last_run_at k.id rows) h.0 in
    ap
      (λ t.
        if not (ltb now (t + k.interval_ms))
        then k ∷ due now (set_last_run id now rows) jobs
        else due now (set_last_run id now rows) jobs)
      same_time
    ∙ ap (λ l. if not (is_waiting now rows k) then k ∷ l else l) (due-set now id rows jobs h.1)

abbrev gone_on : ℕ → Option Job × Scheduler → List Run → History
gone_on now out runs = record { scheduler = out.1; runs = noted now out.0 runs }

-- The loop has run the jobs, and is over.
abbrev pub IsOver : List Run → History → Type 0
IsOver all h = (h.runs ≡ all) × (h.scheduler.tick ≡ none)

loop-IsOver :
    (now : ℕ) (jobs : List Job) (s : Scheduler) (runs : List Run)
    → AreDistinct jobs
    → IsOver
        (noted_all now (due now s.last_runs jobs) runs)
        (run_from (ends_of (due now s.last_runs jobs)) (gone_on now (next_job now jobs s) runs))
unfolding next_job run_from step answer job_ends
loop-IsOver now [] s runs h = (refl, refl)
loop-IsOver now (j ∷ jobs) s runs h = elim (Bool-cases (is_waiting now s.last_runs j)) [
  | inl e ↦ rw e (loop-IsOver now jobs s runs h.1)
  | inr e ↦
      let next = record s {
        last_runs = set_last_run j.id now s.last_runs;
        tick = some (record { rest = jobs; now_ms = now });
      } in
      let ran = record { job = j; at = now } ∷ runs in
      rw e (
        subst
          (λ l.
            IsOver (noted_all now l ran)
              (run_from (ends_of l) (gone_on now (next_job now jobs next) ran)))
          (due-set now j.id s.last_runs jobs h.0) (loop-IsOver now jobs next ran h.1))
]

-- A poll of a scheduler that is free, behind which every job that is run ends: the tick runs exactly the
-- jobs whose interval is over at its time, in their order, and the scheduler is free again. The ids of
-- its jobs differ.
pub tick-IsOver :
    (now : ℕ) (h : History)
    → AreDistinct h.scheduler.jobs
    → h.scheduler.tick ≡ none
    → IsOver
        (noted_all now (due now h.scheduler.last_runs h.scheduler.jobs) h.runs)
        (run_from (polls now ∷ ends_of (due now h.scheduler.last_runs h.scheduler.jobs)) h)
unfolding run_from step answer run_due_jobs
tick-IsOver now h distinct free =
    let s = h.scheduler in
    let polled : run_due_jobs now s ≡ next_job now s.jobs s =
      ap (λ t. elim t [ some tick ↦ (none, s) | none ↦ next_job now s.jobs s ]) free in
    subst
      (λ out.
        IsOver (noted_all now (due now s.last_runs s.jobs) h.runs)
          (run_from (ends_of (due now s.last_runs s.jobs)) (gone_on now out h.runs)))
      (sym polled) (loop-IsOver now s.jobs s h.runs distinct)
