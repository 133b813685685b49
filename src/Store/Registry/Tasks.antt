-- ===== src/Store/Registry/Tasks.antt =====
-- Tasks in flight: cancelling, replacing and clearing; and recalled messages.
use ubot_ai_agent.Base.{
  ℕ, ◌+◌, ◌<◌, ltb, true, false, not, ◌&&◌, ◌||◌, none, some, List, [], ◌∷◌, ◌++◌, ◌≡◌, refl, ap,
  inl, inr, Text, same, same_iff, same_refl, is_empty, filter, find, arith, Bool-cases,
}
use ubot_ai_agent.Store.Registry.{
  Retracted, msg_key_of, mark_retracted, is_retracted, Inflight, get_inflight, request_cancel,
  clear_inflight, begin, is_cancelled, Options, merge_rerun, decide_new_message,
}

abbrev pub task : Text → Text → ℕ → Inflight
task key id now = record {
  key = key;
  task_id = id;
  started_at = now;
  cancel_token = id;
  cancel_requested = false;
  merged_reply = none;
}

-- Clearing with another task's id keeps the row of the task.
kept :
    (key old new : Text) (now : ℕ) (rows : List Inflight)
    → same old new ≡ false
    → find
        (λ r. same r.key key)
        (filter
          (λ r. not (same r.key key && same r.task_id old))
          (filter (λ r. not (same r.key key)) rows ++ task key new now ∷ []))
      ≡ some (task key new now)
kept key old new now [] h = ground (arith, same_refl key, same_iff old new, same_iff new old)
kept key old new now (r ∷ rows) h = ground (arith, kept key old new now rows h)

is_cancelled-found :
    (key : Text) (rows : List Inflight) (r : Inflight)
    → get_inflight key rows ≡ some r
    → is_cancelled key rows ≡ r.cancel_requested
unfolding is_cancelled
is_cancelled-found key rows r e = rw (e, is_cancelled) refl

-- A task that was replaced cannot clear its successor, and the successor starts without the cancel
-- request that its predecessor had: after a new task begins for a key, an old one that ends with its
-- own id, not empty and not the new one's, leaves the new task's row, not cancelled.
pub clear-replaced :
    (key old new : Text) (now : ℕ) (rows : List Inflight)
    → is_empty old ≡ false
    → same old new ≡ false
    → (get_inflight key
          (clear_inflight key (some old) (begin key new now (request_cancel key rows)))
        ≡ some (task key new now))
      × (is_cancelled key
            (clear_inflight key (some old) (begin key new now (request_cancel key rows)))
          ≡ false)
unfolding get_inflight clear_inflight begin
clear-replaced key old new now rows full differ =
    let row = kept key old new now (request_cancel key rows) differ in
    rw full (row, is_cancelled-found key _ (task key new now) row)

get_inflight-cancel :
    (key : Text) (rows : List Inflight) (r : Inflight)
    → get_inflight key rows ≡ some r
    → get_inflight key (request_cancel key rows) ≡ some (record r { cancel_requested = true })
unfolding get_inflight request_cancel
get_inflight-cancel key [] r e = cc
get_inflight-cancel key (x ∷ xs) r e = elim (Bool-cases (same x.key key)) [
  | inl hit ↦
      let this : x ≡ r = ground arith in
      rw hit (rw hit (ap (λ (y : Inflight). some (record y { cancel_requested = true })) this))
  | inr miss ↦ rw miss (rw miss (get_inflight-cancel key xs r (ground arith)))
]

-- A new message on a key whose task has run longer than the threshold cancels that task and is to be
-- run itself.
pub decide_new_message-late :
    (o : Options) (key text : Text) (now : ℕ) (rows : List Inflight) (r : Inflight)
    → get_inflight key rows ≡ some r
    → r.started_at + o.cancel_after_ms < now
    → ((decide_new_message o key text now rows).0 ≡ merge_rerun)
      × (is_cancelled key (decide_new_message o key text now rows).1 ≡ true)
unfolding decide_new_message
decide_new_message-late o key text now rows r e late =
    let over : ltb (r.started_at + o.cancel_after_ms) now ≡ true = ground arith in
    rw (e, decide_new_message)
      (rw (over, decide_new_message)
        (
          refl,
          is_cancelled-found key _ (record r { cancel_requested = true })
              (get_inflight-cancel key rows r e),
        ))

-- Marking a message as recalled makes exactly its key known, beside those that were.
pub is_retracted-mark :
    (g m g' m' : Text) (now : ℕ) (rows : List Retracted)
    → is_retracted g' m' (mark_retracted g m now rows)
      ≡ (same (msg_key_of g m) (msg_key_of g' m') || is_retracted g' m' rows)
unfolding is_retracted mark_retracted
is_retracted-mark g m g' m' now [] = ground arith
is_retracted-mark g m g' m' now (r ∷ rows) = ground (
  arith,
  is_retracted-mark g m g' m' now rows,
  same_iff r.msg_key (msg_key_of g m),
  same_iff r.msg_key (msg_key_of g' m'),
  same_iff (msg_key_of g m) (msg_key_of g' m'),
)
