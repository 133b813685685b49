-- ===== src/Store/Consumers/Completion.antt =====
-- `completeConsumerMessage` takes one message off the worker's queue, and no other.
use ubot_ai_agent.Base.{
  ℕ, suc, ◌==◌, leb, ltb, max, ◌≤◌, ◌<◌, ◌≡◌, ◌⊎◌, inr, refl, ap, ◌∙◌, sym, Bool, true, false, not,
  ◌&&◌, ◌||◌, some, List, [], ◌∷◌, filter, filter_cong, filter-filter, any, length, coalesce, All,
  All-map, arith, Text, same, same_iff, same_refl,
}
use ubot_ai_agent.Base.Ascending.{Ascending}
use ubot_ai_agent.Store.Messages.{MessageRow}
use ubot_ai_agent.Store.Consumers.{
  ConsumerRow, CompletedRow, Queue, watermark_in, with_consumer, ensure_consumer, is_row,
  is_consumer_message_completed, boundary, pending, set_watermark, with_completed, insert_completed,
  walked, complete_consumer_message,
}
use ubot_ai_agent.Store.Consumers.Walk.{walk-ge, walk_covers}

-- `ensureConsumer` starts an unknown consumer at 0 and leaves a known one alone.
pub watermark_in-with_consumer :
    (key : Text) (cs : List ConsumerRow)
    → watermark_in key (with_consumer key cs) ≡ some (coalesce (watermark_in key cs) 0)
unfolding with_consumer watermark_in
watermark_in-with_consumer key [] = ground (arith, same_refl key)
watermark_in-with_consumer key (c ∷ cs) = ground (arith, watermark_in-with_consumer key cs)

pub watermark_in-with_consumer_other :
    (key other : Text) (cs : List ConsumerRow)
    → same key other ≡ false
    → watermark_in other (with_consumer key cs) ≡ watermark_in other cs
unfolding with_consumer watermark_in
watermark_in-with_consumer_other key other [] h = ground arith
watermark_in-with_consumer_other key other (c ∷ cs) h =
    ground (arith, watermark_in-with_consumer_other key other cs)

pub watermark_in-set :
    (key : Text) (w v : ℕ) (cs : List ConsumerRow)
    → watermark_in key cs ≡ some v
    → watermark_in key (set_watermark key w cs) ≡ some w
unfolding set_watermark watermark_in
watermark_in-set key w v [] e = cc
watermark_in-set key w v (c ∷ cs) e = ground (arith, watermark_in-set key w v cs)

pub watermark_in-set_other :
    (key other : Text) (w : ℕ) (cs : List ConsumerRow)
    → same key other ≡ false
    → watermark_in other (set_watermark key w cs) ≡ watermark_in other cs
unfolding set_watermark watermark_in
watermark_in-set_other key other w [] h = refl
watermark_in-set_other key other w (c ∷ cs) h = ground (
  arith,
  same_iff c.key key,
  same_iff c.key other,
  same_iff key other,
  watermark_in-set_other key other w cs,
)

pub completed-insert :
    (key k : Text) (id i now : ℕ) (rows : List CompletedRow)
    → any (is_row k i) (with_completed key id now rows)
      ≡ (any (is_row k i) rows || (same key k && id == i))
unfolding with_completed is_row
completed-insert key k id i now [] = ground arith
completed-insert key k id i now (r ∷ rows) = ground (
  arith,
  same_iff r.consumer_key key,
  same_iff r.consumer_key k,
  same_iff key k,
  completed-insert key k id i now rows,
)

pub completed-store :
    (key k : Text) (w i : ℕ) (rows : List CompletedRow)
    → (same key k ≡ false) ⊎ (w < i)
    → any (is_row k i) (filter (λ r. not (same r.consumer_key key && leb r.message_id w)) rows)
      ≡ any (is_row k i) rows
unfolding is_row
completed-store key k w i [] h = refl
completed-store key k w i (r ∷ rows) h = ground (
  arith,
  same_iff r.consumer_key key,
  same_iff r.consumer_key k,
  same_iff key k,
  completed-store key k w i rows,
)

abbrev pub waits : Text → ℕ → Queue → MessageRow → Bool
waits key w q m = ltb (boundary q w) m.id && not (is_consumer_message_completed key m.id q)

pub pending_of_watermark :
    (key : Text) (q : Queue) (w : ℕ)
    → watermark_in key q.consumers ≡ some w
    → pending key q ≡ filter (waits key w q) q.messages
unfolding pending
pending_of_watermark key q w e = rw (e, pending)

-- One message, before and after: `b` and `l` are the boundaries, `c` the cutover.
waits_step :
    (b l c id mid : ℕ) (old seen kept : Bool)
    → b ≤ l
    → c ≤ b
    → (l < mid → kept ≡ seen)
    → seen ≡ (old || id == mid)
    → (b < mid → mid ≤ l → seen ≡ true)
    → (ltb (max l c) mid && not kept) ≡ ((ltb b mid && not old) && not (mid == id))
waits_step b l c id mid old seen kept h k after mark cover = ground arith

module _ (key : Text) (id now : ℕ) (q : Queue) where
  abbrev pub start : ℕ
  start = coalesce (watermark_in key q.consumers) 0

  abbrev pub marked : Queue
  marked = insert_completed key id now (ensure_consumer key q)

  abbrev pub landed : ℕ
  landed = walked key marked

  started : watermark_in key marked.consumers ≡ some start
  unfolding insert_completed ensure_consumer
  started = watermark_in-with_consumer key q.consumers

  pub landed-ge : boundary q start ≤ landed
  unfolding walked insert_completed ensure_consumer boundary
  landed-ge = rw (watermark_in-with_consumer key q.consumers) (
      walk-ge (λ i. is_consumer_message_completed key i marked) q.messages (suc (length q.messages))
        (boundary q start))

  landed_covers :
      Ascending (λ m. m.id) 0 q.messages
      → All
          (λ m.
            boundary q start < m.id
            → m.id ≤ landed
            → is_consumer_message_completed key m.id marked ≡ true)
          q.messages
  unfolding walked insert_completed ensure_consumer boundary
  landed_covers a = rw (watermark_in-with_consumer key q.consumers) (
      walk_covers (λ i. is_consumer_message_completed key i marked) q.messages
        (suc (length q.messages)) (boundary q start) a)

  pub watermark_in_complete :
      watermark_in key (complete_consumer_message key id now q).consumers ≡ some landed
  unfolding complete_consumer_message
  watermark_in_complete = watermark_in-set key landed start marked.consumers started

  waits_complete :
      (m : MessageRow)
      → (boundary q start < m.id
          → m.id ≤ landed
          → is_consumer_message_completed key m.id marked ≡ true)
      → waits key landed (complete_consumer_message key id now q) m
        ≡ (waits key start (ensure_consumer key q) m && not (m.id == id))
  unfolding complete_consumer_message boundary is_consumer_message_completed
  waits_complete m cover =
      waits_step (boundary q start) landed (coalesce q.cutover 0) id m.id
        (is_consumer_message_completed key m.id q) (is_consumer_message_completed key m.id marked)
        (is_consumer_message_completed key m.id (complete_consumer_message key id now q)) landed-ge
        (omega arith) (λ lt. completed-store key key landed m.id marked.completed (inr lt))
        (completed-insert key key id m.id now q.completed ∙ ground (arith, same_refl key)) cover

  -- Completing a message takes exactly that message off the consumer's queue: nothing that is still
  -- to be processed is skipped, whatever the order in which messages are completed.
  pub pending_complete :
      Ascending (λ m. m.id) 0 q.messages
      → pending key (complete_consumer_message key id now q)
        ≡ filter (λ m. not (m.id == id)) (pending key (ensure_consumer key q))
  unfolding complete_consumer_message
  pending_complete a =
      pending_of_watermark key (complete_consumer_message key id now q) landed watermark_in_complete
      ∙ (filter_cong (waits key landed (complete_consumer_message key id now q))
            (λ m. waits key start (ensure_consumer key q) m && not (m.id == id)) q.messages
            (All-map _ _ waits_complete q.messages (landed_covers a))
          ∙ (sym (
                filter-filter (λ m. not (m.id == id)) (waits key start (ensure_consumer key q))
                  q.messages)
              ∙ ap (filter (λ m. not (m.id == id))) (
                  sym (
                    pending_of_watermark key (ensure_consumer key q) start
                      (watermark_in-with_consumer key q.consumers)))))
