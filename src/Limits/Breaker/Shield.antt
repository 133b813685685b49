-- ===== src/Limits/Breaker/Shield.antt =====
-- A breaker that has tripped admits no call for `openMs`.
use ubot_ai_agent.Base.{
  ℕ, ◌+◌, ◌≤◌, ◌<◌, ◌==◌, leb, Bool, true, false, not, ◌&&◌, ◌||◌, none, some, List, [], ◌∷◌, ◌≡◌,
  refl, subst, sym, inl, inr, All, All-map, All-filter, All-found, arith, Option-cases,
}
use ubot_ai_agent.Limits.Breaker.{
  tripped, Options, Call, Breaker, state_name, admission, refuse, begin, leave, succeed, trip,
  count_failure, fail, Event, begins, succeeds, fails, call_of, settle, step, run,
}
use ubot_ai_agent.Limits.Breaker.Counts.{has_number}
use ubot_ai_agent.Limits.Breaker.Trips.{IsSound}

-- An event that begins a call does so before the limit.
abbrev pub IsEarly : ℕ → Event → Type 0
IsEarly limit (begins id now) = now < limit
IsEarly limit (succeeds id) = Unit
IsEarly limit (fails id counted now) = Unit

-- Open until the limit, with stale calls from the list `old` only.
pub record IsShut (o : Options) (limit : ℕ) (old : List Call) (s : Breaker) : Type 0 where
  pub shut : s.state ≡ tripped
  pub until : s.opened_at + o.open_ms ≡ limit
  pub stale : All (λ c. c.generation < s.generation) s.calls
  pub known : All (λ c. has_number c.id old ≡ true) s.calls

module _ (o : Options) (limit : ℕ) (old : List Call) where
  leave-IsShut : (c : Call) (s : Breaker) → IsShut o limit old s → IsShut o limit old (leave c s)
  unfolding leave
  leave-IsShut c s v = record {
    shut = v.shut;
    until = v.until;
    stale =
        All-filter (λ d. d.generation < s.generation) (λ d. d.generation < s.generation)
          (λ d. not (d.id == c.id)) (λ d e b. b) s.calls v.stale;
    known =
        All-filter (λ d. has_number d.id old ≡ true) (λ d. has_number d.id old ≡ true)
          (λ d. not (d.id == c.id)) (λ d e b. b) s.calls v.known;
  }

  name-shut :
      (now : ℕ) (s : Breaker) → IsShut o limit old s → now < limit → state_name o now s ≡ tripped
  unfolding state_name
  name-shut now s v early = rw v.shut (rw (too_soon (s.opened_at + o.open_ms) v.until) refl)
    where
      too_soon : (n : ℕ) → n ≡ limit → leb n now ≡ false
      too_soon n e = ground arith

  admission-shut :
      (now : ℕ) (s : Breaker) → IsShut o limit old s → now < limit → admission o now s ≡ none
  unfolding admission
  admission-shut now s v early = rw (name-shut now s v early) refl

  begin-IsShut :
      (id now : ℕ) (s : Breaker)
      → IsShut o limit old s
      → now < limit
      → IsShut o limit old (begin o id now s)
  unfolding begin refuse
  begin-IsShut id now s v early =
      rw (admission-shut now s v early, begin)
        (record {
          shut = name-shut now s v early;
          until = v.until;
          stale = v.stale;
          known = v.known;
        })

  succeed-stale : (c : Call) (s : Breaker) → c.generation < s.generation → succeed c s ≡ s
  unfolding succeed
  succeed-stale c s h =
      let stale : (c.generation == s.generation) ≡ false = ground arith in rw (stale, succeed) refl

  fail-stale :
      (c : Call) (counted : Bool) (now : ℕ) (s : Breaker)
      → c.generation < s.generation
      → fail o c counted now s ≡ s
  unfolding fail
  fail-stale c counted now s h =
      let spared : (counted && c.generation == s.generation) ≡ false = ground arith in
      let stale : (c.probe && c.generation == s.generation) ≡ false = ground arith in
      rw (spared, fail) (rw (stale, fail) refl)

  step-IsShut :
      (e : Event) (s : Breaker)
      → IsEarly limit e
      → IsShut o limit old s
      → IsShut o limit old (step o e s)
  unfolding step settle
  step-IsShut (begins id now) s early v = elim (Option-cases (call_of id s.calls)) [
    | inl e ↦ rw (e, step) (begin-IsShut id now s v early)
    | inr (c, e) ↦ rw (e, step) v
  ]
  step-IsShut (succeeds id) s early v = elim (Option-cases (call_of id s.calls)) [
    | inl e ↦ rw (e, step) v
    | inr (c, e) ↦
        let stale =
          All-found (λ c. c.generation < s.generation) (λ c. c.id == id) s.calls c e v.stale in
        rw (e, step) (leave-IsShut c (succeed c s) (rw (succeed-stale c s stale) v))
  ]
  step-IsShut (fails id counted now) s early v = elim (Option-cases (call_of id s.calls)) [
    | inl e ↦ rw (e, step) v
    | inr (c, e) ↦
        let stale =
          All-found (λ c. c.generation < s.generation) (λ c. c.id == id) s.calls c e v.stale in
        rw (e, step)
          (leave-IsShut c (fail o c counted now s) (rw (fail-stale c counted now s stale) v))
  ]

  run-IsShut :
      (es : List Event) (s : Breaker)
      → All (IsEarly limit) es
      → IsShut o limit old s
      → IsShut o limit old (run o es s)
  unfolding run
  run-IsShut [] s early v = v
  run-IsShut (e ∷ es) s early v = run-IsShut es (step o e s) early.1 (step-IsShut e s early.0 v)

own_numbers : (cs : List Call) → All (λ c. has_number c.id cs ≡ true) cs
own_numbers [] = tt
own_numbers (c ∷ cs) = (
  ground arith,
  All-map (λ d. has_number d.id cs ≡ true) _ (λ d h. ground (arith, h)) cs (own_numbers cs),
)

trip-IsShut :
    (o : Options) (now : ℕ) (s : Breaker)
    → All (λ c. c.generation ≤ s.generation) s.calls
    → IsShut o (now + o.open_ms) s.calls (trip now s)
unfolding trip
trip-IsShut o now s past = record {
  shut = refl;
  until = refl;
  stale = All-map (λ c. c.generation ≤ s.generation) _ (λ c h. omega arith) s.calls past;
  known = own_numbers s.calls;
}

fail-trips :
    (o : Options) (c : Call) (now : ℕ) (s : Breaker)
    → c.generation ≡ s.generation
    → o.trip_after_failures ≤ s.consecutive_failures + 1
    → fail o c true now s
      ≡ trip now (record s { consecutive_failures = s.consecutive_failures + 1 })
unfolding fail count_failure
fail-trips o c now s present many =
    let current : (c.generation == s.generation) ≡ true = ground arith in
    let out : (c.probe || leb o.trip_after_failures (s.consecutive_failures + 1)) ≡ true =
      ground arith in
    rw (current, fail) (rw (out, count_failure) refl)

-- The failure that trips a sound breaker, of a call of the present generation, shuts it for `openMs`:
-- as long as calls are begun only before that time is over, and whatever becomes of the earlier
-- ones, it stays open and no call is under way that was not before.
pub trip-shuts :
    (o : Options) (id now : ℕ) (c : Call) (s : Breaker) (es : List Event)
    → IsSound o s
    → call_of id s.calls ≡ some c
    → c.generation ≡ s.generation
    → o.trip_after_failures ≤ s.consecutive_failures + 1
    → All (IsEarly (now + o.open_ms)) es
    → IsShut o (now + o.open_ms) s.calls (run o es (step o (fails id true now) s))
unfolding step settle
trip-shuts o id now c s es v e present many early =
    let limit = now + o.open_ms in
    let failed = record s { consecutive_failures = s.consecutive_failures + 1 } in
    run-IsShut o limit s.calls es (step o (fails id true now) s) early (
      rw (e, step)
        (leave-IsShut o limit s.calls c (fail o c true now s) (
          subst (IsShut o limit s.calls) (sym (fail-trips o c now s present many))
            (trip-IsShut o now failed v.past))))
