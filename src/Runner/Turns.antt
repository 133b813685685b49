-- ===== src/Runner/Turns.antt =====
-- The serial runner: dispatching a key, and the loop of `poll`.
use ubot_ai_agent.Base.{
  ℕ, ◌≤◌, Bool, true, false, Option, none, some, List, [], ◌∷◌, ◌≡◌, refl, sym, inl, inr, Text,
  same, is_empty, map, length, length-append, All, All-append, All-map, arith, Bool-cases,
  Option-cases,
}
use ubot_ai_agent.Base.Updates.{update, All-update}
use ubot_ai_agent.Store.Messages.{MessageRow}
use ubot_ai_agent.Store.Consumers.{Queue, is_consumer_message_completed}
use ubot_ai_agent.Runner.{
  Options, Lane, Poll, Runner, next_task, begin_task, dispatch, dispatch_keys, dispatch_all,
  enqueue, end_poll, go_on, route_row, route_next, begin_poll,
}
use ubot_ai_agent.Runner.Lanes.{
  lane_of-update, Serves, Serves-update_own, AreDistinct, enqueue-Serves, enqueue-AreDistinct,
}
use ubot_ai_agent.Runner.Tasks.{key_of, AreApart, AreApart-append, map-append_task, next_task-lane}

-- The busy keys are those of the tasks, each key has one task, and the limit is kept; each task has
-- the head of its lane, until it is done with it, and no lane holds a message twice.
pub record IsSerial (o : Options) (s : Runner) : Type 0 where
  pub busy : s.busy_keys ≡ map key_of s.tasks
  pub apart : AreApart s.busy_keys
  pub room : length s.busy_keys ≤ o.max_concurrent_keys
  pub served : All (Serves s.lanes) s.tasks
  pub distinct : All (λ l. AreDistinct l.queue) s.lanes

module _ (o : Options) where
  begin_task-IsSerial :
      (key : Text) (now : ℕ) (s : Runner) (m : MessageRow)
      → next_task o key now s ≡ some m
      → IsSerial o s
      → IsSerial o (begin_task key m s)
  unfolding begin_task
  begin_task-IsSerial key now s m e v =
      let (free, room, l, at, head) = next_task-lane o key now s m e in
      let reset = λ (l : Lane). record l { backoff_until = 0 } in
      record {
        busy =
            rw v.busy
              (sym (map-append_task s.tasks (record { key = key; message = m; finished = false })));
        apart = AreApart-append s.busy_keys key v.apart free;
        room = omega (arith, length-append s.busy_keys (key ∷ []));
        served =
            All-append (Serves (update (λ l. same l.key key) reset s.lanes)) s.tasks _
              (All-map (Serves s.lanes) (Serves (update (λ l. same l.key key) reset s.lanes))
                (λ t b.
                  Serves-update_own key reset (λ l. refl) s.lanes t (λ l z. refl) (λ l h. h) b)
                s.tasks v.served)
              ((reset l, lane_of-update key reset (λ l. refl) s.lanes l at, refl, head), tt);
        distinct =
            All-update (λ l. same l.key key) reset (λ l. AreDistinct l.queue)
              (λ l. AreDistinct l.queue) (λ l h d. d) (λ l h d. d) s.lanes v.distinct;
      }

  pub dispatch-IsSerial :
      (key : Text) (now : ℕ) (s : Runner) → IsSerial o s → IsSerial o (dispatch o key now s)
  unfolding dispatch
  dispatch-IsSerial key now s v = elim (Option-cases (next_task o key now s)) [
    | inl e ↦ rw (e, dispatch) v
    | inr (m, e) ↦ rw (e, dispatch) (begin_task-IsSerial key now s m e v)
  ]

  dispatch_keys-IsSerial :
      (now : ℕ) (keys : List Text) (s : Runner)
      → IsSerial o s
      → IsSerial o (dispatch_keys o now keys s)
  unfolding dispatch_keys
  dispatch_keys-IsSerial now [] s v = v
  dispatch_keys-IsSerial now (k ∷ ks) s v =
      dispatch_keys-IsSerial now ks (dispatch o k now s) (dispatch-IsSerial k now s v)

  pub dispatch_all-IsSerial :
      (now : ℕ) (s : Runner) → IsSerial o s → IsSerial o (dispatch_all o now s)
  unfolding dispatch_all
  dispatch_all-IsSerial now s v = dispatch_keys-IsSerial now (map (λ l. l.key) s.lanes) s v

  -- What the invariant does not read.
  pub elsewhere :
      (s : Runner) (p : Option Poll) (d : Queue) (b : Bool)
      → IsSerial o s
      → IsSerial o (record s { polling = p; db = d; stopped = b })
  elsewhere s p d b v = record {
    busy = v.busy;
    apart = v.apart;
    room = v.room;
    served = v.served;
    distinct = v.distinct;
  }

  go_on-IsSerial :
      (now : ℕ) (rows : List MessageRow) (q : Bool) (s : Runner)
      → IsSerial o s
      → IsSerial o (go_on o now rows q s)
  unfolding go_on end_poll
  go_on-IsSerial now (row ∷ rows) q s v = elsewhere s _ s.db s.stopped v
  go_on-IsSerial now [] true s v = dispatch_all-IsSerial now _ (elsewhere s none s.db s.stopped v)
  go_on-IsSerial now [] false s v = elsewhere s none s.db s.stopped v

  pub begin_poll-IsSerial : (now : ℕ) (s : Runner) → IsSerial o s → IsSerial o (begin_poll o now s)
  unfolding begin_poll
  begin_poll-IsSerial now s v = elim (Bool-cases s.stopped) [
    | inl e ↦ simp (e, begin_poll) v
    | inr e ↦
        simp (e, begin_poll)
          (elim (Option-cases s.polling) [
            | inl idle ↦
                simp (idle, begin_poll)
                  (go_on-IsSerial now _ false _ (elsewhere s none _ s.stopped v))
            | inr (p, under_way) ↦ simp (under_way, begin_poll) v
          ])
  ]

  enqueue-IsSerial :
      (key : Text) (row : MessageRow) (s : Runner)
      → IsSerial o s
      → IsSerial o (record s { lanes = enqueue key row s.lanes })
  enqueue-IsSerial key row s v = record {
    busy = v.busy;
    apart = v.apart;
    room = v.room;
    served =
        All-map (Serves s.lanes) (Serves (enqueue key row s.lanes))
          (λ t b. enqueue-Serves key row s.lanes t b) s.tasks v.served;
    distinct = enqueue-AreDistinct key row s.lanes v.distinct;
  }

  route_row-IsSerial :
      (key : Text) (now : ℕ) (row : MessageRow) (rows : List MessageRow) (q : Bool) (s : Runner)
      → IsSerial o s
      → IsSerial o (route_row o key now row rows q s)
  unfolding route_row
  route_row-IsSerial key now row rows q s v =
      elim (Bool-cases (is_consumer_message_completed o.consumer_key row.id s.db)) [
        | inl e ↦ rw (e, route_row) (go_on-IsSerial now rows q s v)
        | inr e ↦
            rw (e, route_row)
              (elim (Bool-cases (is_empty key)) [
                | inl f ↦
                    rw (f, route_row)
                      (go_on-IsSerial now rows q _ (elsewhere s s.polling _ s.stopped v))
                | inr f ↦
                    rw (f, route_row) (go_on-IsSerial now rows _ _ (enqueue-IsSerial key row s v))
              ])
      ]

  pub route_next-IsSerial :
      (key : Text) (now : ℕ) (rows : List MessageRow) (q : Bool) (s : Runner)
      → IsSerial o s
      → IsSerial o (route_next o key now rows q s)
  unfolding route_next
  route_next-IsSerial key now [] q s v = v
  route_next-IsSerial key now (row ∷ rows) q s v = route_row-IsSerial key now row rows q s v
