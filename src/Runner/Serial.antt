-- ===== src/Runner/Serial.antt =====
-- `ConsumerRunner` in any order of events: one message of a key at a time, within the limit of keys.
use ubot_ai_agent.Base.{
  ℕ, true, not, none, some, List, [], ◌∷◌, refl, ap, subst, sym, ◌∙◌, inl, inr, Text, same,
  same_iff, filter, length-filter-le, All-filter, arith, Bool-cases, Option-cases,
}
use ubot_ai_agent.Base.Updates.{update, All-update}
use ubot_ai_agent.Store.Consumers.{Queue}
use ubot_ai_agent.Runner.{
  Options, Task, Runner, start, route_next, shift_head, finish_message, end_task, back_off,
  fail_task, task_of, Event, polls, routes, routing_fails, retries, finishes, ends, fails, stops,
  step, run,
}
use ubot_ai_agent.Runner.Lanes.{
  Serves, Serves-update_own, Serves-update_other, AreDistinct, shift_head-AreDistinct,
}
use ubot_ai_agent.Runner.Tasks.{AreApart-filter, map-filter_task, map-finish_task}
use ubot_ai_agent.Runner.Turns.{
  IsSerial, dispatch-IsSerial, dispatch_all-IsSerial, elsewhere, begin_poll-IsSerial,
  route_next-IsSerial,
}

module _ (o : Options) where
  finish_message-IsSerial :
      (key : Text) (now : ℕ) (t : Task) (s : Runner)
      → IsSerial o s
      → IsSerial o (finish_message o key now t s)
  unfolding finish_message
  finish_message-IsSerial key now t s v = elim (Bool-cases t.finished) [
    | inl e ↦ rw (e, finish_message) v
    | inr e ↦
        rw (e, finish_message)
          (record {
            busy = v.busy ∙ sym (map-finish_task key s.tasks);
            apart = v.apart;
            room = v.room;
            served =
                All-update (λ u. same u.key key) (λ u. record u { finished = true })
                  (Serves s.lanes)
                  (Serves (update (λ l. same l.key key) (shift_head t.message.id) s.lanes))
                  (λ u hit b.
                    Serves-update_own key (shift_head t.message.id) (unfold shift_head in λ l. refl)
                      s.lanes (record u { finished = true }) (unfold shift_head in λ l z. z)
                      (λ l h. tt) (b.0, b.1, b.2, tt))
                  (λ u miss b.
                    Serves-update_other key (shift_head t.message.id)
                      (unfold shift_head in λ l. refl) s.lanes u
                      (ground (arith, same_iff u.key key, same_iff key u.key)) b)
                  s.tasks v.served;
            distinct =
                All-update (λ l. same l.key key) (shift_head t.message.id)
                  (λ l. AreDistinct l.queue) (λ l. AreDistinct l.queue)
                  (λ l h d. shift_head-AreDistinct t.message.id l d) (λ l h d. d) s.lanes
                  v.distinct;
          })
  ]

  end_task-IsSerial :
      (key : Text) (now : ℕ) (s : Runner) → IsSerial o s → IsSerial o (end_task o key now s)
  unfolding end_task
  end_task-IsSerial key now s v = dispatch-IsSerial o key now _ (record {
    busy = ap (filter (λ k. not (same k key))) v.busy ∙ sym (map-filter_task key s.tasks);
    apart = AreApart-filter (λ k. not (same k key)) s.busy_keys v.apart;
    room = omega (arith, v.room, length-filter-le (λ k. not (same k key)) s.busy_keys);
    served =
        All-filter (Serves s.lanes) (Serves s.lanes) (λ t. not (same t.key key)) (λ t e b. b)
          s.tasks v.served;
    distinct = v.distinct;
  })

  fail_task-IsSerial :
      (key : Text) (now : ℕ) (s : Runner) → IsSerial o s → IsSerial o (fail_task o key now s)
  unfolding fail_task end_task
  fail_task-IsSerial key now s v = dispatch-IsSerial o key now _ (record {
    busy = ap (filter (λ k. not (same k key))) v.busy ∙ sym (map-filter_task key s.tasks);
    apart = AreApart-filter (λ k. not (same k key)) s.busy_keys v.apart;
    room = omega (arith, v.room, length-filter-le (λ k. not (same k key)) s.busy_keys);
    served =
        All-filter (Serves s.lanes) (Serves (update (λ l. same l.key key) (back_off o now) s.lanes))
          (λ t. not (same t.key key))
          (λ t e b.
            Serves-update_other key (back_off o now) (unfold back_off in λ l. refl) s.lanes t
              (ground (arith, same_iff t.key key, same_iff key t.key)) b)
          s.tasks v.served;
    distinct =
        All-update (λ l. same l.key key) (back_off o now) (λ l. AreDistinct l.queue)
          (λ l. AreDistinct l.queue) (unfold back_off in λ l h d. d) (λ l h d. d) s.lanes
          v.distinct;
  })

  -- Every event keeps the runner serial.
  pub step-IsSerial : (e : Event) (s : Runner) → IsSerial o s → IsSerial o (step o e s)
  unfolding step
  step-IsSerial (polls now) s v = begin_poll-IsSerial o now s v
  step-IsSerial (routes key now) s v = elim (Option-cases s.polling) [
    | inl e ↦
        subst
          (λ m.
            IsSerial o (elim m [ none ↦ s | some p ↦ route_next o key now p.rows p.queued_any s ]))
          (sym e) v
    | inr (p, e) ↦
        subst
          (λ m.
            IsSerial o (elim m [ none ↦ s | some p ↦ route_next o key now p.rows p.queued_any s ]))
          (sym e) (route_next-IsSerial o key now p.rows p.queued_any s v)
  ]
  step-IsSerial routing_fails s v = elsewhere o s none s.db s.stopped v
  step-IsSerial (retries now) s v = dispatch_all-IsSerial o now s v
  step-IsSerial (finishes key now) s v = elim (Option-cases (task_of key s.tasks)) [
    | inl e ↦ rw (e, step) v
    | inr (t, e) ↦ rw (e, step) (finish_message-IsSerial key now t s v)
  ]
  step-IsSerial (ends key now) s v = elim (Option-cases (task_of key s.tasks)) [
    | inl e ↦ rw (e, step) v
    | inr (t, e) ↦ rw (e, step) (end_task-IsSerial key now s v)
  ]
  step-IsSerial (fails key now) s v = elim (Option-cases (task_of key s.tasks)) [
    | inl e ↦ rw (e, step) v
    | inr (t, e) ↦ rw (e, step) (fail_task-IsSerial key now s v)
  ]
  step-IsSerial stops s v = elsewhere o s s.polling s.db true v

  run-steps-IsSerial : (es : List Event) (s : Runner) → IsSerial o s → IsSerial o (run o es s)
  unfolding run
  run-steps-IsSerial [] s v = v
  run-steps-IsSerial (e ∷ es) s v = run-steps-IsSerial es (step o e s) (step-IsSerial e s v)

-- Whatever the order of events on a new runner: at most one handler runs for a key, and at most
-- `maxConcurrentKeys` in all; each has the head of its key's queue, until it is done with it; and no
-- queue holds a message twice.
pub run-IsSerial : (o : Options) (es : List Event) (db : Queue) → IsSerial o (run o es (start db))
unfolding start
run-IsSerial o es db =
    run-steps-IsSerial o es (start db)
      (record { busy = refl; apart = tt; room = omega arith; served = tt; distinct = tt })
