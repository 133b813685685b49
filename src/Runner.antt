-- ===== src/Runner.antt =====
-- `ConsumerRunner` of src/shared/consumer-runner.ts: each key's messages are handled one at a time.
-- A promise that settles is an event, with what it settles to; the events come in any order.
pub mod Lanes
pub mod Tasks
pub mod Turns
pub mod Serial
pub mod Retry
mod Tests
use ubot_ai_agent.Base.{
  ℕ, ◌+◌, ◌-◌, ◌*◌, ◌==◌, ltb, leb, min, max, if◌then◌else◌, Bool, true, false, not, ◌&&◌, ◌||◌,
  Option, none, some, List, [], ◌∷◌, ◌++◌, Text, same, is_empty, map, filter, find, any, length,
  coalesce,
}
use ubot_ai_agent.Base.Updates.{update}
use ubot_ai_agent.Store.Messages.{MessageRow}
use ubot_ai_agent.Store.Consumers.{
  Queue, poll_messages, is_consumer_message_completed, complete_consumer_message,
}

-- ConsumerRunnerOptions, with the defaults that the constructor fills in.
pub record Options : Type 0 where
  pub consumer_key : Text
  pub batch_size : ℕ
  pub max_concurrent_keys : ℕ
  pub default_key_backoff_ms : ℕ
  pub max_key_backoff_ms : ℕ

-- An entry of the Map `keys`: a key and its KeyState.
pub record Lane : Type 0 where
  pub key : Text
  pub queue : List MessageRow
  pub backoff_until : ℕ

-- A call of `runTask` whose handler has not settled.
pub record Task : Type 0 where
  pub key : Text
  pub message : MessageRow
  pub finished : Bool

-- A call of `poll` that waits for `keyOf` of its first row; `queued_any` as in the code.
pub record Poll : Type 0 where
  pub rows : List MessageRow
  pub queued_any : Bool

-- `polling` is the call under way, if `pollInFlight`.
pub record Runner : Type 0 where
  pub lanes : List Lane
  pub busy_keys : List Text
  pub tasks : List Task
  pub stopped : Bool
  pub polling : Option Poll
  pub db : Queue

unfoldable pub start : Queue → Runner
start db = record {
  lanes = [];
  busy_keys = [];
  tasks = [];
  stopped = false;
  polling = none;
  db = db;
}

abbrev pub lane_of : Text → List Lane → Option Lane
lane_of key = find (λ l. same l.key key)

abbrev pub is_busy : Text → List Text → Bool
is_busy key = any (λ k. same k key)

-- The guards of `dispatch`, and the message at the head if all of them pass.
unfoldable pub next_task : Options → Text → ℕ → Runner → Option MessageRow
next_task o key now s =
    if s.stopped || (is_busy key s.busy_keys || leb o.max_concurrent_keys (length s.busy_keys))
    then none
    else elim (lane_of key s.lanes) [
      | none ↦ none
      | some l ↦ elim l.queue [
        | [] ↦ none
        | message ∷ _ ↦ if ltb now l.backoff_until then none else some message
      ]
    ]

unfoldable pub begin_task : Text → MessageRow → Runner → Runner
begin_task key message s = record s {
  lanes = update (λ l. same l.key key) (λ l. record l { backoff_until = 0 }) s.lanes;
  busy_keys = s.busy_keys ++ key ∷ [];
  tasks = s.tasks ++ record { key = key; message = message; finished = false } ∷ [];
}

unfoldable pub dispatch : Options → Text → ℕ → Runner → Runner
unfolding next_task begin_task
dispatch o key now s = elim (next_task o key now s) [
  | none ↦ s
  | some message ↦ begin_task key message s
]

unfoldable pub dispatch_keys : Options → ℕ → List Text → Runner → Runner
unfolding dispatch
dispatch_keys o now [] s = s
dispatch_keys o now (key ∷ keys) s = dispatch_keys o now keys (dispatch o key now s)

unfoldable pub dispatch_all : Options → ℕ → Runner → Runner
unfolding dispatch_keys
dispatch_all o now s = dispatch_keys o now (map (λ l. l.key) s.lanes) s

-- `this.keys.get(key) ?? this.keys.set(key, …)`
unfoldable pub with_lane : Text → List Lane → List Lane
with_lane key lanes =
    if any (λ l. same l.key key) lanes
    then lanes
    else lanes ++ record { key = key; queue = []; backoff_until = 0 } ∷ []

abbrev pub is_queued : ℕ → List MessageRow → Bool
is_queued id = any (λ m. m.id == id)

unfoldable pub push_row : MessageRow → Lane → Lane
push_row row l = record l {
  queue = if is_queued row.id l.queue then l.queue else l.queue ++ row ∷ [];
}

-- Whether the row is new in its lane.
unfoldable pub is_new : Text → MessageRow → List Lane → Bool
is_new key row lanes = elim (lane_of key lanes) [
  | none ↦ true
  | some l ↦ not (is_queued row.id l.queue)
]

unfoldable pub enqueue : Text → MessageRow → List Lane → List Lane
unfolding with_lane push_row
enqueue key row lanes = update (λ l. same l.key key) (push_row row) (with_lane key lanes)

-- The rest of `poll` behind its loop.
unfoldable pub end_poll : Options → ℕ → Bool → Runner → Runner
unfolding dispatch_all
end_poll o now queued_any s =
    let t = record s { polling = none } in if queued_any then dispatch_all o now t else t

-- The loop goes on to the next row, or ends.
unfoldable pub go_on : Options → ℕ → List MessageRow → Bool → Runner → Runner
unfolding end_poll
go_on o now [] queued_any s = end_poll o now queued_any s
go_on o now (row ∷ rows) queued_any s = record s {
  polling = some (record { rows = row ∷ rows; queued_any = queued_any });
}

-- One round of the loop of `poll`, where `keyOf` gave `key`; an empty key stands for a missing one.
unfoldable pub route_row :
    Options → Text → ℕ → MessageRow → List MessageRow → Bool → Runner → Runner
unfolding go_on enqueue is_new
route_row o key now row rows queued_any s =
    if is_consumer_message_completed o.consumer_key row.id s.db
    then go_on o now rows queued_any s
    else if is_empty key
    then go_on o now rows queued_any
        (record s { db = complete_consumer_message o.consumer_key row.id now s.db })
    else go_on o now rows (queued_any || is_new key row s.lanes)
        (record s { lanes = enqueue key row s.lanes })

unfoldable pub route_next : Options → Text → ℕ → List MessageRow → Bool → Runner → Runner
unfolding route_row
route_next o key now [] queued_any s = s
route_next o key now (row ∷ rows) queued_any s = route_row o key now row rows queued_any s

unfoldable pub begin_poll : Options → ℕ → Runner → Runner
unfolding go_on
begin_poll o now s = if s.stopped then s else elim s.polling [
  | some _ ↦ s
  | none ↦
      let polled = poll_messages o.consumer_key o.batch_size s.db in
      go_on o now (map (λ p. p.0) polled.0) false (record s { db = polled.1 })
]

unfoldable pub next_backoff : Options → ℕ → ℕ → ℕ
next_backoff o backoff_until now =
    if backoff_until == 0
    then o.default_key_backoff_ms
    else min o.max_key_backoff_ms (max o.default_key_backoff_ms ((backoff_until - now) * 2))

unfoldable pub shift_head : ℕ → Lane → Lane
shift_head id l = record l {
  queue = elim l.queue [ [] ↦ [] | m ∷ ms ↦ if m.id == id then ms else m ∷ ms ];
}

-- The `done` that the handler of this key's task calls.
unfoldable pub finish_message : Options → Text → ℕ → Task → Runner → Runner
unfolding shift_head
finish_message o key now t s = if t.finished then s else record s {
  lanes = update (λ l. same l.key key) (shift_head t.message.id) s.lanes;
  tasks = update (λ u. same u.key key) (λ u. record u { finished = true }) s.tasks;
  db = complete_consumer_message o.consumer_key t.message.id now s.db;
}

-- The `finally` of `dispatch`.
unfoldable pub end_task : Options → Text → ℕ → Runner → Runner
unfolding dispatch
end_task o key now s = dispatch o key now (record s {
  busy_keys = filter (λ k. not (same k key)) s.busy_keys;
  tasks = filter (λ t. not (same t.key key)) s.tasks;
})

unfoldable pub back_off : Options → ℕ → Lane → Lane
unfolding next_backoff
back_off o now l = record l { backoff_until = now + next_backoff o l.backoff_until now }

-- The `catch` of `runTask`, and what follows it.
unfoldable pub fail_task : Options → Text → ℕ → Runner → Runner
unfolding back_off end_task
fail_task o key now s =
    end_task o key now (record s { lanes = update (λ l. same l.key key) (back_off o now) s.lanes })

abbrev pub task_of : Text → List Task → Option Task
task_of key = find (λ t. same t.key key)

pub data Event : Type 0 where
  polls : (now : ℕ) → Event
  routes : (key : Text) (now : ℕ) → Event
  routing_fails : Event
  retries : (now : ℕ) → Event
  finishes : (key : Text) (now : ℕ) → Event
  ends : (key : Text) (now : ℕ) → Event
  fails : (key : Text) (now : ℕ) → Event
  stops : Event

-- An event that waits for a promise happens only while that promise is under way.
unfoldable pub step : Options → Event → Runner → Runner
unfolding begin_poll route_next dispatch_all finish_message end_task fail_task
step o (polls now) s = begin_poll o now s
step o (routes key now) s = elim s.polling [
  | none ↦ s
  | some p ↦ route_next o key now p.rows p.queued_any s
]
step o routing_fails s = record s { polling = none }
step o (retries now) s = dispatch_all o now s
step o (finishes key now) s = elim (task_of key s.tasks) [
  | none ↦ s
  | some t ↦ finish_message o key now t s
]
step o (ends key now) s = elim (task_of key s.tasks) [ none ↦ s | some _ ↦ end_task o key now s ]
step o (fails key now) s = elim (task_of key s.tasks) [ none ↦ s | some _ ↦ fail_task o key now s ]
step o stops s = record s { stopped = true }

unfoldable pub run : Options → List Event → Runner → Runner
unfolding step
run o [] s = s
run o (e ∷ es) s = run o es (step o e s)
