-- ===== src/Limits/Breaker.antt =====
-- The circuit breaker of `GatewayProxy` in src/services/gateway-proxy.ts. Calls under way are numbered;
-- the task, its timeout and the abort signals are outside, and what a call settles to is an event.
pub mod Counts
pub mod Trips
pub mod Shield
mod Tests
use ubot_ai_agent.Base.{
  ℕ, suc, ◌+◌, ◌==◌, leb, if◌then◌else◌, Bool, true, false, not, ◌&&◌, ◌||◌, Option, none, some,
  List, [], ◌∷◌, filter, find,
}

pub data State : Type 0 where
  closed tripped half_open : State

-- `tripAfterFailures` and `openMs`, 5 and 30_000 by default.
pub record Options : Type 0 where
  pub trip_after_failures : ℕ
  pub open_ms : ℕ

-- A call under way: whether it is the probe, and the generation it began in.
pub record Call : Type 0 where
  pub id : ℕ
  pub probe : Bool
  pub generation : ℕ

pub record Breaker : Type 0 where
  pub consecutive_failures : ℕ
  pub opened_at : ℕ
  pub state : State
  pub probe_in_flight : Bool
  pub generation : ℕ
  pub calls : List Call

unfoldable pub start : Breaker
start = record {
  consecutive_failures = 0;
  opened_at = 0;
  state = closed;
  probe_in_flight = false;
  generation = 0;
  calls = [];
}

abbrev pub is_tripped : State → Bool
is_tripped tripped = true
is_tripped _ = false

abbrev pub is_half_open : State → Bool
is_half_open half_open = true
is_half_open _ = false

-- The getter `stateName`.
unfoldable pub state_name : Options → ℕ → Breaker → State
state_name o now s =
    if is_tripped s.state && leb (s.opened_at + o.open_ms) now then half_open else s.state

unfoldable pub admit : ℕ → State → Breaker → Breaker
admit id state s = record s {
  state = state;
  probe_in_flight = if is_half_open state then true else s.probe_in_flight;
  calls = record { id = id; probe = is_half_open state; generation = s.generation } ∷ s.calls;
}

-- The checks of `call`: the state in which the call is admitted, or none for CircuitOpenError.
unfoldable pub admission : Options → ℕ → Breaker → Option State
unfolding state_name
admission o now s =
    let state = state_name o now s in
    if is_tripped state || (is_half_open state && s.probe_in_flight) then none else some state

-- A call refused behind the first check has moved an open breaker to half-open.
unfoldable pub refuse : Options → ℕ → Breaker → Breaker
unfolding state_name
refuse o now s = record s { state = state_name o now s }

unfoldable pub begin : Options → ℕ → ℕ → Breaker → Breaker
unfolding admission admit refuse
begin o id now s = elim (admission o now s) [
  | none ↦ refuse o now s
  | some state ↦ admit id state s
]

-- The `finally` of `call`.
unfoldable pub leave : Call → Breaker → Breaker
leave c s = record s {
  probe_in_flight = if c.probe then false else s.probe_in_flight;
  calls = filter (λ d. not (d.id == c.id)) s.calls;
}

unfoldable pub succeed : Call → Breaker → Breaker
succeed c s =
    if c.generation == s.generation
    then record s { consecutive_failures = 0; state = closed }
    else s

unfoldable pub trip : ℕ → Breaker → Breaker
trip now s = record s { state = tripped; opened_at = now; generation = s.generation + 1 }

unfoldable pub count_failure : Options → Call → ℕ → Breaker → Breaker
unfolding trip
count_failure o c now s =
    if c.probe || leb o.trip_after_failures s.consecutive_failures then trip now s else s

-- `counted`: no abort from outside, and `countFailure` counts the error.
unfoldable pub fail : Options → Call → Bool → ℕ → Breaker → Breaker
unfolding count_failure
fail o c counted now s =
    if counted && c.generation == s.generation
    then count_failure o c now (record s { consecutive_failures = s.consecutive_failures + 1 })
    else if c.probe && c.generation == s.generation
    then record s { state = tripped; opened_at = now }
    else s

pub data Event : Type 0 where
  begins : (id now : ℕ) → Event
  succeeds : (id : ℕ) → Event
  fails : (id : ℕ) (counted : Bool) (now : ℕ) → Event

abbrev pub call_of : ℕ → List Call → Option Call
call_of id = find (λ c. c.id == id)

-- A number that is in use begins no second call.
unfoldable pub settle : Event → Options → Option Call → Breaker → Breaker
unfolding begin leave succeed fail
settle (begins id now) o none s = begin o id now s
settle (begins id now) o (some c) s = s
settle (succeeds id) o none s = s
settle (succeeds id) o (some c) s = leave c (succeed c s)
settle (fails id counted now) o none s = s
settle (fails id counted now) o (some c) s = leave c (fail o c counted now s)

abbrev pub number : Event → ℕ
number (begins id now) = id
number (succeeds id) = id
number (fails id counted now) = id

unfoldable pub step : Options → Event → Breaker → Breaker
unfolding settle
step o e s = settle e o (call_of (number e) s.calls) s

unfoldable pub run : Options → List Event → Breaker → Breaker
unfolding step
run o [] s = s
run o (e ∷ es) s = run o es (step o e s)
