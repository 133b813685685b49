-- ===== src/Runner/Lanes.antt =====
-- The Map of lanes under the updates of the runner: which lane a task finds, and what stands at its head.
use ubot_ai_agent.Base.{
  ℕ, ◌==◌, if◌then◌else◌, Bool, true, false, ◌||◌, some, List, [], ◌∷◌, ◌++◌, ◌≡◌, refl, ap, inl,
  inr, ◌∙◌, Text, same, same_iff, any, All, All-append, arith, Bool-cases,
}
use ubot_ai_agent.Base.Updates.{update, All-update}
use ubot_ai_agent.Store.Messages.{MessageRow}
use ubot_ai_agent.Runner.{Lane, Task, lane_of, is_queued, with_lane, push_row, enqueue, shift_head}

module _ (k : Text) (f : Lane → Lane) (keeps : (l : Lane) → (f l).key ≡ l.key) where
  pub lane_of-update :
      (lanes : List Lane) (l : Lane)
      → lane_of k lanes ≡ some l
      → lane_of k (update (λ l. same l.key k) f lanes) ≡ some (f l)
  lane_of-update [] l e = cc
  lane_of-update (x ∷ xs) l e = elim (Bool-cases (same x.key k)) [
    | inl hit ↦
        let found : x ≡ l = ground arith in
        let kept : same (f x).key k ≡ true = rw (keeps x, hit) refl in
        rw hit (rw kept (ap (λ y. some (f y)) found))
    | inr miss ↦ rw (miss, miss) (lane_of-update xs l (ground arith))
  ]

  pub lane_of-update_other :
      (other : Text) (lanes : List Lane)
      → same k other ≡ false
      → lane_of other (update (λ l. same l.key k) f lanes) ≡ lane_of other lanes
  lane_of-update_other other [] h = refl
  lane_of-update_other other (x ∷ xs) h = elim (Bool-cases (same x.key k)) [
    | inl hit ↦
        let away : same x.key other ≡ false =
          ground (arith, same_iff x.key k, same_iff x.key other, same_iff k other) in
        rw hit (rw (keeps x, away) (lane_of-update_other other xs h))
    | inr miss ↦ rw miss (ground (arith, lane_of-update_other other xs h))
  ]

pub lane_of-append :
    (key : Text) (lanes rest : List Lane) (l : Lane)
    → lane_of key lanes ≡ some l
    → lane_of key (lanes ++ rest) ≡ some l
lane_of-append key [] rest l e = cc
lane_of-append key (x ∷ xs) rest l e = elim (Bool-cases (same x.key key)) [
  | inl hit ↦ ground arith
  | inr miss ↦ rw miss (lane_of-append key xs rest l (ground arith))
]

-- The first message of a queue.
abbrev pub IsHead : MessageRow → List MessageRow → Type 0
IsHead m [] = ⊥
IsHead m (x ∷ xs) = x ≡ m

-- A message stands at the head until its handler is done with it.
abbrev pub HoldsUntil : (finished : Bool) → MessageRow → List MessageRow → Type 0
HoldsUntil true m q = Unit
HoldsUntil false m q = IsHead m q

abbrev pub Holds : Task → List MessageRow → Type 0
Holds t q = HoldsUntil t.finished t.message q

HoldsUntil-map :
    (finished : Bool) (m : MessageRow) (q r : List MessageRow)
    → (IsHead m q → IsHead m r)
    → HoldsUntil finished m q
    → HoldsUntil finished m r
HoldsUntil-map true m q r f h = tt
HoldsUntil-map false m q r f h = f h

-- The lane of a task: its head is the task's message until the handler is done with it.
abbrev pub Serves : List Lane → Task → Type 0
Serves lanes t =
    (l : Lane) × (lane_of t.key lanes ≡ some l) × (l.backoff_until ≡ 0) × Holds t l.queue

module _ (k : Text) (f : Lane → Lane) (keeps : (l : Lane) → (f l).key ≡ l.key) (lanes : List Lane)
    (t : Task) where
  pub Serves-update_own :
      ((l : Lane) → l.backoff_until ≡ 0 → (f l).backoff_until ≡ 0)
      → ((l : Lane) → Holds t l.queue → Holds t (f l).queue)
      → Serves lanes t
      → Serves (update (λ l. same l.key k) f lanes) t
  Serves-update_own ready head (l, at, zero_backoff, top) = elim (Bool-cases (same k t.key)) [
    | inl e ↦
        let key_eq : k ≡ t.key = ground (arith, same_iff k t.key) in
        (f l, rw key_eq (lane_of-update t.key f keeps lanes l at), ready l zero_backoff, head l top)
    | inr e ↦ (l, lane_of-update_other k f keeps t.key lanes e ∙ at, zero_backoff, top)
  ]

  pub Serves-update_other :
      same k t.key ≡ false → Serves lanes t → Serves (update (λ l. same l.key k) f lanes) t
  Serves-update_other e (l, at, zero_backoff, top) =
      (l, lane_of-update_other k f keeps t.key lanes e ∙ at, zero_backoff, top)

-- No message stands twice in a queue.
abbrev pub AreDistinct : List MessageRow → Type 0
AreDistinct [] = Unit
AreDistinct (m ∷ ms) = (is_queued m.id ms ≡ false) × AreDistinct ms

is_queued-append :
    (id : ℕ) (ms : List MessageRow) (m : MessageRow)
    → is_queued id (ms ++ m ∷ []) ≡ (is_queued id ms || m.id == id)
is_queued-append id [] m = ground arith
is_queued-append id (x ∷ xs) m = ground (arith, is_queued-append id xs m)

AreDistinct-append :
    (ms : List MessageRow) (m : MessageRow)
    → AreDistinct ms
    → is_queued m.id ms ≡ false
    → AreDistinct (ms ++ m ∷ [])
AreDistinct-append [] m d h = (refl, tt)
AreDistinct-append (x ∷ xs) m d h =
    (ground (arith, d.0, is_queued-append x.id xs m), AreDistinct-append xs m d.1 (ground arith))

IsHead-append : (m : MessageRow) (ms rest : List MessageRow) → IsHead m ms → IsHead m (ms ++ rest)
IsHead-append m [] rest h = elim h [ ]
IsHead-append m (x ∷ xs) rest h = h

push_row-AreDistinct :
    (row : MessageRow) (l : Lane) → AreDistinct l.queue → AreDistinct (push_row row l).queue
unfolding push_row
push_row-AreDistinct row l d = elim (Bool-cases (is_queued row.id l.queue)) [
  | inl e ↦ rw e d
  | inr e ↦ rw e (AreDistinct-append l.queue row d e)
]

push_row-IsHead :
    (row m : MessageRow) (l : Lane) → IsHead m l.queue → IsHead m (push_row row l).queue
unfolding push_row
push_row-IsHead row m l h = elim (Bool-cases (is_queued row.id l.queue)) [
  | inl e ↦ rw e h
  | inr e ↦ rw e (IsHead-append m l.queue (row ∷ []) h)
]

pub shift_head-AreDistinct :
    (id : ℕ) (l : Lane) → AreDistinct l.queue → AreDistinct (shift_head id l).queue
unfolding shift_head
shift_head-AreDistinct id l d = shifted l.queue d
  where
    shifted :
        (ms : List MessageRow)
        → AreDistinct ms
        → AreDistinct (elim ms [ [] ↦ [] | m ∷ rest ↦ if m.id == id then rest else m ∷ rest ])
    shifted [] d = tt
    shifted (m ∷ rest) d = elim (Bool-cases (m.id == id)) [ inl e ↦ rw e d.1 | inr e ↦ rw e d ]

Serves-with_lane :
    (key : Text) (lanes : List Lane) (t : Task) → Serves lanes t → Serves (with_lane key lanes) t
unfolding with_lane
Serves-with_lane key lanes t (l, at, zero_backoff, top) =
    elim (Bool-cases (any (λ l. same l.key key) lanes)) [
      | inl e ↦ rw (e, with_lane) (l, at, zero_backoff, top)
      | inr e ↦ rw (e, with_lane) (l, lane_of-append t.key lanes _ l at, zero_backoff, top)
    ]

pub enqueue-Serves :
    (key : Text) (row : MessageRow) (lanes : List Lane) (t : Task)
    → Serves lanes t
    → Serves (enqueue key row lanes) t
unfolding enqueue
enqueue-Serves key row lanes t v =
    Serves-update_own key (push_row row) (unfold push_row in λ l. refl) (with_lane key lanes) t
      (unfold push_row in λ l e. e)
      (λ l h.
        HoldsUntil-map t.finished t.message l.queue (push_row row l).queue
          (push_row-IsHead row t.message l) h)
      (Serves-with_lane key lanes t v)

pub enqueue-AreDistinct :
    (key : Text) (row : MessageRow) (lanes : List Lane)
    → All (λ l. AreDistinct l.queue) lanes
    → All (λ l. AreDistinct l.queue) (enqueue key row lanes)
unfolding enqueue with_lane
enqueue-AreDistinct key row lanes d =
    All-update (λ l. same l.key key) (push_row row) (λ l. AreDistinct l.queue)
      (λ l. AreDistinct l.queue) (λ l e h. push_row-AreDistinct row l h) (λ l e h. h)
      (with_lane key lanes)
      (elim (Bool-cases (any (λ l. same l.key key) lanes)) [
        | inl e ↦ rw (e, with_lane) d
        | inr e ↦ rw (e, with_lane) (All-append (λ l. AreDistinct l.queue) lanes _ d (tt, tt))
      ])
