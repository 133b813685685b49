-- ===== src/Store/Consumers/Walk.antt =====
-- The loop of `completeConsumerMessage`: what it passes over, and where it stops.
use ubot_ai_agent.Base.{
  ℕ, zero, suc, ltb, ◌≤◌, ◌<◌, ◌≡◌, ◌⊎◌, inl, inr, Bool, true, false, none, some, List, [], ◌∷◌,
  count, All, All-map, All-map₂, All-pure, arith, Bool-cases, Option-cases,
}
use ubot_ai_agent.Base.Ascending.{Ascending, Ascending-lower}
use ubot_ai_agent.Store.Messages.{MessageRow}
use ubot_ai_agent.Store.Consumers.{next_message, walk}

abbrev id_of : MessageRow → ℕ
id_of m = m.id

next_message-none :
    (w : ℕ) (ms : List MessageRow) → next_message w ms ≡ none → All (λ m. m.id ≤ w) ms
unfolding next_message
next_message-none w [] e = tt
next_message-none w (m ∷ ms) e = ground (arith, next_message-none w ms)

-- The next message is the least one above the watermark.
next_message-some :
    (w lo : ℕ) (ms : List MessageRow) (n : MessageRow)
    → Ascending id_of lo ms
    → next_message w ms ≡ some n
    → (w < n.id) × (lo < n.id) × All (λ m. (m.id ≤ w) ⊎ (n.id ≤ m.id)) ms
unfolding next_message
next_message-some w lo [] n a e = cc
next_message-some w lo (m ∷ ms) n a e = elim (Bool-cases (ltb w m.id)) [
  | inl hit ↦
      let same_id : m.id ≡ n.id = ground arith in
      (
        ground arith,
        omega arith,
        (
          inr (omega arith),
          All-map (λ x. m.id < x.id) _ (λ x h. inr (omega arith)) ms
              (Ascending-lower id_of m.id ms a.1),
        ),
      )
  | inr miss ↦
      let (above, higher, rest) = next_message-some w m.id ms n a.1 (ground arith) in
      (above, omega arith, (inl (ground arith), rest))
]

next_message-above :
    (w : ℕ) (ms : List MessageRow) (n : MessageRow) → next_message w ms ≡ some n → w < n.id
unfolding next_message
next_message-above w [] n e = cc
next_message-above w (m ∷ ms) n e = ground (arith, next_message-above w ms n)

count_mono :
    (w v : ℕ) (ms : List MessageRow)
    → w ≤ v
    → count (λ m. ltb v m.id) ms ≤ count (λ m. ltb w m.id) ms
count_mono w v [] h = omega arith
count_mono w v (m ∷ ms) h = ground (arith, count_mono w v ms h)

count-next :
    (w : ℕ) (ms : List MessageRow) (n : MessageRow)
    → next_message w ms ≡ some n
    → count (λ m. ltb n.id m.id) ms < count (λ m. ltb w m.id) ms
unfolding next_message
count-next w [] n e = cc
count-next w (m ∷ ms) n e = elim (Bool-cases (ltb w m.id)) [
  | inl hit ↦ let same_id : m.id ≡ n.id = ground arith in ground (arith, count_mono w n.id ms)
  | inr miss ↦ ground (arith, count-next w ms n, next_message-above w ms n)
]

module _ (done : ℕ → Bool) (ms : List MessageRow) where
  -- The watermark never moves back.
  pub walk-ge : (fuel w : ℕ) → w ≤ walk fuel done ms w
  unfolding walk
  walk-ge zero w = omega arith
  walk-ge (suc fuel) w = elim (Option-cases (next_message w ms)) [
    | inl e ↦ rw (e, walk) (omega arith)
    | inr (n, e) ↦
        rw (e, walk)
          (elim (Bool-cases (done n.id)) [
            | inl d ↦ rw (d, walk) (omega (arith, walk-ge fuel n.id, next_message-above w ms n e))
            | inr d ↦ rw (d, walk) (omega arith)
          ])
  ]

  -- The walk stops only at the end of the table or before a message that is not completed.
  pub walk_stops :
      (fuel w : ℕ)
      → count (λ m. ltb w m.id) ms < fuel
      → (next_message (walk fuel done ms w) ms ≡ none)
        ⊎ ((n : MessageRow) × (next_message (walk fuel done ms w) ms ≡ some n)
            × (done n.id ≡ false))
  unfolding walk
  walk_stops zero w h = elim h [ ]
  walk_stops (suc fuel) w h = elim (Option-cases (next_message w ms)) [
    | inl e ↦ rw (e, walk) (inl e)
    | inr (n, e) ↦
        rw (e, walk)
          (elim (Bool-cases (done n.id)) [
            | inl d ↦ rw (d, walk) (walk_stops fuel n.id (omega (arith, count-next w ms n e)))
            | inr d ↦ rw (d, walk) (inr (n, e, d))
          ])
  ]

  -- Every message that the watermark passes over is completed.
  pub walk_covers :
      (fuel w : ℕ)
      → Ascending id_of 0 ms
      → All (λ m. w < m.id → m.id ≤ walk fuel done ms w → done m.id ≡ true) ms
  unfolding walk
  walk_covers zero w a = All-pure _ (λ m h k. absurd (omega arith)) ms
  walk_covers (suc fuel) w a = elim (Option-cases (next_message w ms)) [
    | inl e ↦ rw (e, walk) (All-pure _ (λ m h k. absurd (omega arith)) ms)
    | inr (n, e) ↦
        rw (e, walk)
          (elim (Bool-cases (done n.id)) [
            | inl d ↦
                rw (d, walk)
                  (All-map₂ (λ m. (m.id ≤ w) ⊎ (n.id ≤ m.id))
                    (λ m. n.id < m.id → m.id ≤ walk fuel done ms n.id → done m.id ≡ true) _
                    (λ m c ih h k. ground arith) ms (next_message-some w 0 ms n a e).2
                    (walk_covers fuel n.id a))
            | inr d ↦ rw (d, walk) (All-pure _ (λ m h k. absurd (omega arith)) ms)
          ])
  ]
