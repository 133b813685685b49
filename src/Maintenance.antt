-- ===== src/Maintenance.antt =====
-- MaintenanceScheduler of src/services/maintenance-scheduler.ts. A poll is the call of `runDueJobs`;
-- that the job under way ends, or fails, is an event.
pub mod Spacing
pub mod Ticks
mod Tests
use ubot_ai_agent.Base.{
  ℕ, ◌+◌, ◌==◌, ltb, if◌then◌else◌, Bool, true, false, not, ◌&&◌, ◌||◌, Option, none, some, List,
  [], ◌∷◌, Text, same, trim, is_empty, includes, Result, ok, throws, throw_if, ◌>>◌, find,
}

-- MaintenanceJob, without its callback.
pub record Job : Type 0 where
  pub id : Text
  pub interval_ms : ℕ

pub data InvalidOptions : Type 0 where
  maintenance_job_id_invalid maintenance_poll_interval_invalid : InvalidOptions
  maintenance_job_interval_invalid : Text → InvalidOptions

-- `assertValidJobs`, behind the ids that are in the set.
unfoldable pub assert_valid_from : List Text → List Job → Result InvalidOptions (Unit {0})
assert_valid_from ids [] = ok tt
assert_valid_from ids (job ∷ jobs) =
    throw_if (is_empty (trim job.id) || includes ids job.id) maintenance_job_id_invalid
    >> throw_if (job.interval_ms == 0) (maintenance_job_interval_invalid job.id)
    >> assert_valid_from (job.id ∷ ids) jobs

-- An entry of `lastRunAtByJobId`.
pub record LastRun : Type 0 where
  pub job_id : Text
  pub at : ℕ

-- The jobs of a tick that are still to be looked at, and its time.
pub record Tick : Type 0 where
  pub rest : List Job
  pub now_ms : ℕ

-- `tick` is there exactly while `tickRunning` is set.
pub record Scheduler : Type 0 where
  pub jobs : List Job
  pub last_runs : List LastRun
  pub tick : Option Tick
  pub has_timer : Bool

unfoldable pub make : List Job → ℕ → Result InvalidOptions Scheduler
unfolding assert_valid_from
make jobs poll_interval_ms =
    assert_valid_from [] jobs
    >> throw_if (poll_interval_ms == 0) maintenance_poll_interval_invalid
    >> ok (record { jobs = jobs; last_runs = []; tick = none; has_timer = false })

unfoldable pub start : Scheduler → Bool × Scheduler
start s = (not s.has_timer, record s { has_timer = true })

unfoldable pub stop : Scheduler → Scheduler
stop s = record s { has_timer = false }

-- `lastRunAtByJobId.get(job.id) ?? 0`
unfoldable pub last_run_at : Text → List LastRun → ℕ
last_run_at id [] = 0
last_run_at id (r ∷ rows) = if same r.job_id id then r.at else last_run_at id rows

unfoldable pub set_last_run : Text → ℕ → List LastRun → List LastRun
set_last_run id now [] = record { job_id = id; at = now } ∷ []
set_last_run id now (r ∷ rows) =
    let rest = set_last_run id now rows in
    if same r.job_id id then record r { at = now } ∷ rows else r ∷ rest

abbrev pub is_waiting : ℕ → List LastRun → Job → Bool
unfolding last_run_at
is_waiting now rows job = ltb now (last_run_at job.id rows + job.interval_ms)

-- The loop up to the next call of `run`, or to its end.
unfoldable pub next_job : ℕ → List Job → Scheduler → Option Job × Scheduler
unfolding is_waiting set_last_run
next_job now [] s = (none, record s { tick = none })
next_job now (job ∷ jobs) s =
    let rest = next_job now jobs s in
    if is_waiting now s.last_runs job then rest else (
      some job,
      record s {
        last_runs = set_last_run job.id now s.last_runs;
        tick = some (record { rest = jobs; now_ms = now });
      },
    )

unfoldable pub run_due_jobs : ℕ → Scheduler → Option Job × Scheduler
unfolding next_job
run_due_jobs now s = elim s.tick [ some tick ↦ (none, s) | none ↦ next_job now s.jobs s ]

-- The job that is awaited ends.
unfoldable pub job_ends : Scheduler → Option Job × Scheduler
unfolding next_job
job_ends s = elim s.tick [ none ↦ (none, s) | some tick ↦ next_job tick.now_ms tick.rest s ]

-- It fails: the loop is left.
unfoldable pub job_fails : Scheduler → Option Job × Scheduler
job_fails s = (none, record s { tick = none })
