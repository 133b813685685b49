-- ===== src/Runner/Retry.antt =====
-- A handler that fails: its message stays, and its key waits.
use ubot_ai_agent.Base.{
  ℕ, ◌+◌, ◌<◌, leb, ltb, if◌then◌else◌, Bool, true, false, not, ◌||◌, none, some, List, [], ◌∷◌,
  ◌≡◌, refl, ap, sym, subst, inl, inr, Text, same, same_iff, filter, length, All-found, arith,
  Bool-cases,
}
use ubot_ai_agent.Base.Updates.{update}
use ubot_ai_agent.Store.Messages.{MessageRow}
use ubot_ai_agent.Runner.{
  Options, Lane, Task, Runner, lane_of, is_busy, next_task, begin_task, dispatch, next_backoff,
  end_task, back_off, fail_task, task_of, fails, step,
}
use ubot_ai_agent.Runner.Lanes.{lane_of-update, Holds, Serves}
use ubot_ai_agent.Runner.Turns.{IsSerial}

late_none :
    (late : Bool) (q : List MessageRow)
    → late ≡ true
    → elim q [ [] ↦ none | x ∷ _ ↦ if late then none else some x ] ≡ none
late_none late [] e = refl
late_none late (x ∷ xs) e = rw e refl

-- A key that backs off is not dispatched.
next_task-late :
    (o : Options) (key : Text) (now : ℕ) (s : Runner) (l : Lane)
    → lane_of key s.lanes ≡ some l
    → ltb now l.backoff_until ≡ true
    → next_task o key now s ≡ none
unfolding next_task
next_task-late o key now s l at late =
    elim (Bool-cases
      (s.stopped || (is_busy key s.busy_keys || leb o.max_concurrent_keys (length s.busy_keys)))) [
        | inl closed ↦ simp closed refl
        | inr passed ↦ simp (passed, at) (late_none (ltb now l.backoff_until) l.queue late)
      ]

is_busy-released :
    (key : Text) (ks : List Text) → is_busy key (filter (λ k. not (same k key)) ks) ≡ false
is_busy-released key [] = refl
is_busy-released key (k ∷ ks) = ground (arith, is_busy-released key ks)

found_key : (key : Text) (ts : List Task) (t : Task) → task_of key ts ≡ some t → t.key ≡ key
found_key key [] t e = cc
found_key key (x ∷ xs) t e = elim (Bool-cases (same x.key key)) [
  | inl hit ↦ let found : x ≡ t = ground arith in rw (← found) (ground (arith, same_iff x.key key))
  | inr miss ↦ found_key key xs t (ground arith)
]

abbrev pub Retains : Options → Text → ℕ → Task → Runner → Type 0
Retains o key now t s =
    (is_busy key s.busy_keys ≡ false)
    × (l : Lane) × (lane_of key s.lanes ≡ some l)
    × (l.backoff_until ≡ now + o.default_key_backoff_ms)
    × Holds t l.queue

back_off-ready :
    (o : Options) (now : ℕ) (l : Lane)
    → l.backoff_until ≡ 0
    → (back_off o now l).backoff_until ≡ now + o.default_key_backoff_ms
unfolding back_off next_backoff
back_off-ready o now l e = rw e refl

-- The runner behind the failure, before its key is dispatched again.
abbrev failed : Options → Text → ℕ → Runner → Runner
failed o key now s = record s {
  lanes = update (λ l. same l.key key) (back_off o now) s.lanes;
  busy_keys = filter (λ k. not (same k key)) s.busy_keys;
  tasks = filter (λ t. not (same t.key key)) s.tasks;
}

failed-Retains :
    (o : Options) (key : Text) (now : ℕ) (t : Task) (s : Runner)
    → IsSerial o s
    → task_of key s.tasks ≡ some t
    → Retains o key now t (failed o key now s)
unfolding back_off
failed-Retains o key now t s v e =
    let (l, at, ready, head) =
      All-found (Serves s.lanes) (λ t. same t.key key) s.tasks t e v.served in
    let at_key : lane_of key s.lanes ≡ some l =
      subst (λ k. lane_of k s.lanes ≡ some l) (found_key key s.tasks t e) at in
    (
      is_busy-released key s.busy_keys,
      back_off o now l,
      lane_of-update key (back_off o now) (λ l. refl) s.lanes l at_key,
      back_off-ready o now l ready,
      head,
    )

failed-idle :
    (o : Options) (key : Text) (now : ℕ) (t : Task) (s : Runner)
    → 0 < o.default_key_backoff_ms
    → Retains o key now t (failed o key now s)
    → next_task o key now (failed o key now s) ≡ none
failed-idle o key now t s positive (released, l, at, wait, head) =
    next_task-late o key now (failed o key now s) l at (ground arith)

step-fails :
    (o : Options) (key : Text) (now : ℕ) (t : Task) (s : Runner)
    → task_of key s.tasks ≡ some t
    → next_task o key now (failed o key now s) ≡ none
    → step o (fails key now) s ≡ failed o key now s
unfolding step fail_task end_task dispatch
step-fails o key now t s e idle =
    subst (λ m. elim m [ none ↦ s | some _ ↦ fail_task o key now s ] ≡ failed o key now s) (sym e)
      (ap
        (λ m. elim m [
          | none ↦ failed o key now s
          | some message ↦ begin_task key message (failed o key now s)
        ])
        idle)

-- In a serial runner with a positive default backoff, a handler that fails leaves its message, unless
-- it was done with it, at the head of its key's queue; the key is released, and it waits for the
-- default backoff, however often it has failed before.
pub fails-retained :
    (o : Options) (key : Text) (now : ℕ) (t : Task) (s : Runner)
    → IsSerial o s
    → task_of key s.tasks ≡ some t
    → 0 < o.default_key_backoff_ms
    → Retains o key now t (step o (fails key now) s)
fails-retained o key now t s v e positive =
    let kept = failed-Retains o key now t s v e in
    subst (Retains o key now t)
      (sym (step-fails o key now t s e (failed-idle o key now t s positive kept))) kept
