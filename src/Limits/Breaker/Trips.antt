-- ===== src/Limits/Breaker/Trips.antt =====
-- The breaker in any order of events.
use ubot_ai_agent.Base.{
  ℕ, suc, ◌+◌, ◌≤◌, ◌<◌, ◌==◌, leb, if◌then◌else◌, Bool, true, false, not, ◌&&◌, ◌||◌, none, some,
  List, [], ◌∷◌, ◌≡◌, refl, inl, inr, subst, sym, filter, count, All, All-map, All-filter, arith,
  Bool-cases, Option-cases,
}
use ubot_ai_agent.Limits.Breaker.{
  State, closed, tripped, half_open, Options, Call, Breaker, start, is_tripped, is_half_open,
  state_name, admit, admission, refuse, begin, leave, succeed, trip, count_failure, fail, Event,
  begins, succeeds, fails, call_of, settle, step, run,
}
use ubot_ai_agent.Limits.Breaker.Counts.{
  is_probe, has_number, AreApart, one_if, AreApart-filter, count-leave, call_of-number,
  call_of-none,
}

-- A closed breaker has failed fewer times than it trips after.
abbrev pub IsBelow : Options → State → ℕ → Type 0
IsBelow o closed n = n < o.trip_after_failures
IsBelow o tripped n = Unit
IsBelow o half_open n = Unit

pub record IsSound (o : Options) (s : Breaker) : Type 0 where
  pub apart : AreApart s.calls
  pub probes : count is_probe s.calls ≡ one_if s.probe_in_flight
  pub past : All (λ c. c.generation ≤ s.generation) s.calls
  pub below : IsBelow o s.state s.consecutive_failures

module _ (o : Options) where
  leave-IsSound :
      (id : ℕ) (c : Call) (s : Breaker)
      → call_of id s.calls ≡ some c
      → IsSound o s
      → IsSound o (leave c s)
  unfolding leave
  leave-IsSound id c s e v =
      let same_number : c.id ≡ id = call_of-number id s.calls c e in
      record {
        apart = AreApart-filter (λ d. not (d.id == c.id)) s.calls v.apart;
        probes =
            subst
              (λ n.
                count is_probe (filter (λ d. not (d.id == n)) s.calls)
                ≡ one_if (if c.probe then false else s.probe_in_flight))
              (sym same_number)
              (left_probes c.probe s.probe_in_flight _ _ v.probes
                (count-leave id s.calls c v.apart e));
        past =
            All-filter (λ c. c.generation ≤ s.generation) (λ c. c.generation ≤ s.generation)
              (λ d. not (d.id == c.id)) (λ d e b. b) s.calls v.past;
        below = v.below;
      }
    where
      left_probes :
          (probe flying : Bool) (m n : ℕ)
          → m ≡ one_if flying
          → m ≡ one_if probe + n
          → n ≡ one_if (if probe then false else flying)
      left_probes true true m n e h = omega (arith, e, h)
      left_probes true false m n e h = absurd (omega (arith, e, h))
      left_probes false flying m n e h = ground (arith, e, h)

  IsBelow-state_name :
      (now : ℕ) (s : Breaker)
      → IsBelow o s.state s.consecutive_failures
      → IsBelow o (state_name o now s) s.consecutive_failures
  unfolding state_name
  IsBelow-state_name now s h =
      elim (Bool-cases (is_tripped s.state && leb (s.opened_at + o.open_ms) now)) [
        | inl cooled ↦ rw (cooled, state_name) tt
        | inr same_state ↦ rw (same_state, state_name) h
      ]

  admission-state :
      (now : ℕ) (s : Breaker) (st : State)
      → admission o now s ≡ some st
      → (state_name o now s ≡ st) × ((is_half_open st && s.probe_in_flight) ≡ false)
  unfolding admission
  admission-state now s st e = admitted (state_name o now s) s.probe_in_flight e
    where
      admitted :
          (name : State) (flying : Bool)
          → (if is_tripped name || (is_half_open name && flying) then none else some name) ≡ some st
          → (name ≡ st) × ((is_half_open st && flying) ≡ false)
      admitted closed flying e = let this : closed ≡ st = ground arith in (this, rw (← this) refl)
      admitted tripped flying e = cc
      admitted half_open true e = cc
      admitted half_open false e =
          let this : half_open ≡ st = ground arith in (this, rw (← this) refl)

  admit-IsSound :
      (id : ℕ) (st : State) (s : Breaker)
      → has_number id s.calls ≡ false
      → (is_half_open st && s.probe_in_flight) ≡ false
      → IsBelow o st s.consecutive_failures
      → IsSound o s
      → IsSound o (admit id st s)
  unfolding admit
  admit-IsSound id st s fresh idle below v = record {
    apart = (fresh, v.apart);
    probes = one_more (is_half_open st) s.probe_in_flight _ idle v.probes;
    past = (omega arith, v.past);
    below = below;
  }
    where
      one_more :
          (half flying : Bool) (n : ℕ)
          → (half && flying) ≡ false
          → n ≡ one_if flying
          → (if half then suc n else n) ≡ one_if (if half then true else flying)
      one_more true true n h e = cc
      one_more true false n h e = omega (arith, e)
      one_more false flying n h e = e

  begin-IsSound :
      (id now : ℕ) (s : Breaker)
      → call_of id s.calls ≡ none
      → IsSound o s
      → IsSound o (begin o id now s)
  unfolding begin refuse
  begin-IsSound id now s fresh v = elim (Option-cases (admission o now s)) [
    | inl refused ↦
        rw (refused, begin)
          (record {
            apart = v.apart;
            probes = v.probes;
            past = v.past;
            below = IsBelow-state_name now s v.below;
          })
    | inr (st, e) ↦
        let (named, idle) = admission-state now s st e in
        rw (e, begin)
          (admit-IsSound id st s (call_of-none id s.calls fresh) idle
            (subst (λ st. IsBelow o st s.consecutive_failures) named
              (IsBelow-state_name now s v.below))
            v)
  ]

  succeed-calls : (c : Call) (s : Breaker) → (succeed c s).calls ≡ s.calls
  unfolding succeed
  succeed-calls c s = elim (Bool-cases (c.generation == s.generation)) [
    | inl now ↦ rw (now, succeed) refl
    | inr stale ↦ rw (stale, succeed) refl
  ]

  succeed-IsSound :
      (c : Call) (s : Breaker) → 0 < o.trip_after_failures → IsSound o s → IsSound o (succeed c s)
  unfolding succeed
  succeed-IsSound c s positive v = elim (Bool-cases (c.generation == s.generation)) [
    | inl now ↦
        rw (now, succeed)
          (record { apart = v.apart; probes = v.probes; past = v.past; below = positive })
    | inr stale ↦ rw (stale, succeed) v
  ]

  count_failure-IsSound :
      (c : Call) (now : ℕ) (s : Breaker)
      → AreApart s.calls
      → count is_probe s.calls ≡ one_if s.probe_in_flight
      → All (λ c. c.generation ≤ s.generation) s.calls
      → IsSound o (count_failure o c now s)
  unfolding count_failure trip
  count_failure-IsSound c now s apart probes past =
      elim (Bool-cases (c.probe || leb o.trip_after_failures s.consecutive_failures)) [
        | inl out ↦
            rw (out, count_failure)
              (record {
                apart = apart;
                probes = probes;
                past =
                    All-map (λ c. c.generation ≤ s.generation)
                      (λ c. c.generation ≤ s.generation + 1) (λ c h. omega arith) s.calls past;
                below = tt;
              })
        | inr on ↦
            rw (on, count_failure)
              (record {
                apart = apart;
                probes = probes;
                past = past;
                below = still_below s.state (ground arith);
              })
      ]
    where
      still_below :
          (st : State)
          → s.consecutive_failures < o.trip_after_failures
          → IsBelow o st s.consecutive_failures
      still_below closed h = h
      still_below tripped h = tt
      still_below half_open h = tt

  fail-IsSound :
      (c : Call) (counted : Bool) (now : ℕ) (s : Breaker)
      → IsSound o s
      → IsSound o (fail o c counted now s)
  unfolding fail
  fail-IsSound c counted now s v = elim (Bool-cases (counted && c.generation == s.generation)) [
    | inl failed ↦ rw (failed, fail) (count_failure-IsSound c now _ v.apart v.probes v.past)
    | inr spared ↦
        rw (spared, fail)
          (elim (Bool-cases (c.probe && c.generation == s.generation)) [
            | inl again ↦
                rw (again, fail)
                  (record { apart = v.apart; probes = v.probes; past = v.past; below = tt })
            | inr stale ↦ rw (stale, fail) v
          ])
  ]

  count_failure-calls :
      (c : Call) (now : ℕ) (s : Breaker) → (count_failure o c now s).calls ≡ s.calls
  unfolding count_failure trip
  count_failure-calls c now s =
      elim (Bool-cases (c.probe || leb o.trip_after_failures s.consecutive_failures)) [
        | inl out ↦ rw (out, count_failure) refl
        | inr on ↦ rw (on, count_failure) refl
      ]

  fail-calls :
      (c : Call) (counted : Bool) (now : ℕ) (s : Breaker) → (fail o c counted now s).calls ≡ s.calls
  unfolding fail
  fail-calls c counted now s = elim (Bool-cases (counted && c.generation == s.generation)) [
    | inl failed ↦
        rw (failed, fail)
          (count_failure-calls c now
            (record s { consecutive_failures = s.consecutive_failures + 1 }))
    | inr spared ↦
        rw (spared, fail)
          (elim (Bool-cases (c.probe && c.generation == s.generation)) [
            | inl again ↦ rw (again, fail) refl
            | inr stale ↦ rw (stale, fail) refl
          ])
  ]

  -- Every event keeps the breaker sound.
  pub step-IsSound :
      (e : Event) (s : Breaker) → 0 < o.trip_after_failures → IsSound o s → IsSound o (step o e s)
  unfolding step settle
  step-IsSound (begins id now) s positive v = elim (Option-cases (call_of id s.calls)) [
    | inl e ↦ rw (e, step) (begin-IsSound id now s e v)
    | inr (c, e) ↦ rw (e, step) v
  ]
  step-IsSound (succeeds id) s positive v = elim (Option-cases (call_of id s.calls)) [
    | inl e ↦ rw (e, step) v
    | inr (c, e) ↦
        rw (e, step)
          (leave-IsSound id c (succeed c s) (rw (succeed-calls c s) e)
            (succeed-IsSound c s positive v))
  ]
  step-IsSound (fails id counted now) s positive v = elim (Option-cases (call_of id s.calls)) [
    | inl e ↦ rw (e, step) v
    | inr (c, e) ↦
        rw (e, step)
          (leave-IsSound id c (fail o c counted now s) (rw (fail-calls c counted now s) e)
            (fail-IsSound c counted now s v))
  ]

  run-steps-IsSound :
      (es : List Event) (s : Breaker)
      → 0 < o.trip_after_failures
      → IsSound o s
      → IsSound o (run o es s)
  unfolding run
  run-steps-IsSound [] s positive v = v
  run-steps-IsSound (e ∷ es) s positive v =
      run-steps-IsSound es (step o e s) positive (step-IsSound e s positive v)

-- With a positive number of failures to trip after, in any order of calls, successes and failures: at
-- most one probe is under way, and exactly while the breaker notes one; no call is of a later
-- generation; and a closed breaker has failed fewer times in a row than it trips after.
pub run-IsSound :
    (o : Options) (es : List Event) → 0 < o.trip_after_failures → IsSound o (run o es start)
unfolding start
run-IsSound o es positive =
    run-steps-IsSound o es start positive
      (record { apart = tt; probes = refl; past = tt; below = positive })
