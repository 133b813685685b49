-- ===== src/Maintenance/Spacing.antt =====
-- How far the runs of a job are apart, and which jobs a tick runs.
use ubot_ai_agent.Base.{
  ℕ, ◌+◌, ◌≤◌, ◌≡◌, refl, sym, ap, subst, ◌∙◌, if◌then◌else◌, true, Option, none, some, List, [],
  ◌∷◌, Text, same, same_refl, same→eq, Bool-cases, inl, inr, arith,
}
use ubot_ai_agent.Maintenance.{
  Job, LastRun, Tick, Scheduler, last_run_at, set_last_run, is_waiting, next_job, run_due_jobs,
  job_ends, job_fails,
}

-- A call of the `run` of a job, in a tick of the time.
pub record Run : Type 0 where
  pub job : Job
  pub at : ℕ

pub data Event : Type 0 where
  polls : ℕ → Event
  ends fails : Event

-- The scheduler and the runs so far, the last one first.
pub record History : Type 0 where
  pub scheduler : Scheduler
  pub runs : List Run

-- The time of the call of `run` is that of the tick.
abbrev pub time_of : Event → Scheduler → ℕ
time_of (polls now) s = now
time_of ends s = elim s.tick [ none ↦ 0 | some tick ↦ tick.now_ms ]
time_of fails s = 0

unfoldable pub answer : Event → Scheduler → Option Job × Scheduler
unfolding run_due_jobs job_ends job_fails
answer (polls now) s = run_due_jobs now s
answer ends s = job_ends s
answer fails s = job_fails s

abbrev pub noted : ℕ → Option Job → List Run → List Run
noted now none runs = runs
noted now (some job) runs = record { job = job; at = now } ∷ runs

unfoldable pub step : Event → History → History
unfolding answer
step e h = record {
  scheduler = (answer e h.scheduler).1;
  runs = noted (time_of e h.scheduler) (answer e h.scheduler).0 h.runs;
}

unfoldable pub run_from : List Event → History → History
unfolding step
run_from [] h = h
run_from (e ∷ es) h = run_from es (step e h)

-- The time of the last run of a job, or zero.
abbrev pub latest : Text → List Run → ℕ
latest id [] = 0
latest id (r ∷ runs) = if same r.job.id id then r.at else latest id runs

-- Every run is at least the job's interval behind the one before.
abbrev pub IsSpaced : List Run → Type 0
IsSpaced [] = Unit
IsSpaced (r ∷ runs) = (latest r.job.id runs + r.job.interval_ms ≤ r.at) × IsSpaced runs

-- The table has the time of the last run of each job.
abbrev pub Records : List LastRun → List Run → Type 0
Records rows runs = (id : Text) → last_run_at id rows ≡ latest id runs

-- Two ids that are the same as a third are the same.
same_both : (a b c : Text) → same a c ≡ true → same b c ≡ true → same a b ≡ true
same_both a b c e f = ap (λ x. same a x) (same→eq b c f ∙ sym (same→eq a c e)) ∙ same_refl a

pub last_run-set :
    (id other : Text) (now : ℕ) (rows : List LastRun)
    → last_run_at other (set_last_run id now rows)
      ≡ (if same id other then now else last_run_at other rows)
unfolding last_run_at set_last_run
last_run-set id other now [] = refl
last_run-set id other now (r ∷ rows) = elim (Bool-cases (same r.job_id id)) [
  | inl e ↦
      let same_test : same r.job_id other ≡ same id other =
        ap (λ x. same x other) (same→eq r.job_id id e) in
      ground (arith, e, same_test)
  | inr e ↦ elim (Bool-cases (same id other)) [
    | inl f ↦ elim (Bool-cases (same r.job_id other)) [
      | inl g ↦ absurd (ground (arith, e, same_both r.job_id id other g f))
      | inr g ↦
          rw (e, f, g)
            (last_run-set id other now rows ∙ ap (λ b. if b then now else last_run_at other rows) f)
    ]
    | inr f ↦ ground (arith, e, f, last_run-set id other now rows)
  ]
]

-- What the loop does in one go: nothing is run, or a job whose interval is over.
record IsNext (now : ℕ) (s : Scheduler) (out : Option Job × Scheduler) : Type 0 where
  idle : out.0 ≡ none → out.1.last_runs ≡ s.last_runs
  busy :
      (job : Job)
      → out.0 ≡ some job
      → (last_run_at job.id s.last_runs + job.interval_ms ≤ now)
        × (out.1.last_runs ≡ set_last_run job.id now s.last_runs)

next_job-IsNext : (now : ℕ) (jobs : List Job) (s : Scheduler) → IsNext now s (next_job now jobs s)
unfolding next_job
next_job-IsNext now [] s = record { idle = λ e. refl; busy = λ job e. cc }
next_job-IsNext now (job ∷ jobs) s = elim (Bool-cases (is_waiting now s.last_runs job)) [
  | inl e ↦ rw e (next_job-IsNext now jobs s)
  | inr e ↦ rw e (record {
    idle = λ e. cc;
    busy = λ other f.
        let same_job : job ≡ other = cc in
        subst
          (λ j.
            (last_run_at j.id s.last_runs + j.interval_ms ≤ now)
            × (set_last_run job.id now s.last_runs ≡ set_last_run j.id now s.last_runs))
          same_job (ground (arith, e), refl);
  })
]

polled-IsNext :
    (now : ℕ) (s : Scheduler) (t : Option Tick)
    → IsNext now s (elim t [ some tick ↦ (none, s) | none ↦ next_job now s.jobs s ])
polled-IsNext now s none = next_job-IsNext now s.jobs s
polled-IsNext now s (some tick) = record { idle = λ e. refl; busy = λ job e. cc }

ended-IsNext :
    (s : Scheduler) (t : Option Tick)
    → IsNext
        (elim t [ none ↦ 0 | some tick ↦ tick.now_ms ])
        s
        (elim t [ none ↦ (none, s) | some tick ↦ next_job tick.now_ms tick.rest s ])
ended-IsNext s none = record { idle = λ e. refl; busy = λ job e. cc }
ended-IsNext s (some tick) = next_job-IsNext tick.now_ms tick.rest s

answer-IsNext : (e : Event) (s : Scheduler) → IsNext (time_of e s) s (answer e s)
unfolding answer run_due_jobs job_ends job_fails
answer-IsNext (polls now) s = polled-IsNext now s s.tick
answer-IsNext ends s = ended-IsNext s s.tick
answer-IsNext fails s = record { idle = λ e. refl; busy = λ job e. cc }

record IsNoted (h : History) : Type 0 where
  records : Records h.scheduler.last_runs h.runs
  spaced : IsSpaced h.runs

noted-IsNoted :
    (now : ℕ) (h : History) (o : Option Job) (after : Scheduler)
    → IsNoted h
    → IsNext now h.scheduler (o, after)
    → IsNoted (record { scheduler = after; runs = noted now o h.runs })
noted-IsNoted now h none after before next = record {
  records = λ id. ap (last_run_at id) (next.idle refl) ∙ before.records id;
  spaced = before.spaced;
}
noted-IsNoted now h (some job) after before next =
    let (over, set) = next.busy job refl in
    record {
      records = λ id.
          ap (last_run_at id) set
          ∙ last_run-set job.id id now h.scheduler.last_runs
          ∙ ap (λ t. if same job.id id then now else t) (before.records id);
      spaced = (subst (λ t. t + job.interval_ms ≤ now) (before.records job.id) over, before.spaced);
    }

step-IsNoted : (e : Event) (h : History) → IsNoted h → IsNoted (step e h)
unfolding step
step-IsNoted e h before =
    let out = answer e h.scheduler in
    noted-IsNoted (time_of e h.scheduler) h out.0 out.1 before (answer-IsNext e h.scheduler)

run_from-IsNoted : (es : List Event) (h : History) → IsNoted h → IsNoted (run_from es h)
unfolding run_from
run_from-IsNoted [] h before = before
run_from-IsNoted (e ∷ es) h before = run_from-IsNoted es (step e h) (step-IsNoted e h before)

-- The runs of a new scheduler.
unfoldable pub runs_of : List Job → List Event → List Run
unfolding run_from
runs_of jobs es =
    (run_from es (record {
      scheduler = record { jobs = jobs; last_runs = []; tick = none; has_timer = true };
      runs = [];
    })).runs

-- Whatever polls, ends and failures there are, in any order and with any times, each run of a job of a
-- new scheduler is at least the job's interval behind the run before it, the first one behind zero.
pub runs-IsSpaced : (jobs : List Job) (es : List Event) → IsSpaced (runs_of jobs es)
unfolding runs_of
runs-IsSpaced jobs es =
    (run_from-IsNoted es _ (record { records = λ id. refl; spaced = tt })).spaced
