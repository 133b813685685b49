-- ===== src/Limits/GroupLock/Turns.antt =====
-- The group lock in any order of events.
use ubot_ai_agent.Base.{
  ℕ, ◌-◌, ◌≤◌, ◌<◌, ltb, not, ◌&&◌, List, [], ◌∷◌, ◌≡◌, refl, ◌⊎◌, inl, inr, any, All, All-append,
  All-filter, arith, Bool-cases,
}
use ubot_ai_agent.Base.Updates.{All-update}
use ubot_ai_agent.Limits.GroupLock.{
  Group, is_group, get_or_create_state, take_place, acquire, next_turn, give_place, is_idle,
  release, Event, acquires, releases, step, run,
}

-- A group has no more tasks than the limit, and keeps one waiting only at the limit.
abbrev pub IsFair : ℕ → Group → Type 0
IsFair limit g = (g.active ≤ limit) × ((g.queue ≡ []) ⊎ (g.active ≡ limit))

take_place-IsFair :
    (limit task : ℕ) (g : Group) → IsFair limit g → IsFair limit (take_place limit task g)
unfolding take_place
take_place-IsFair limit task g (most, fair) = elim (Bool-cases (ltb g.active limit)) [
  | inl free ↦
      rw (free, take_place)
        (ground arith, elim fair [ inl idle ↦ inl idle | inr full ↦ absurd (ground arith) ])
  | inr full ↦ rw (full, take_place) (most, inr (ground arith))
]

give_place-IsFair :
    (limit : ℕ) (g : Group) → 0 < limit → IsFair limit g → IsFair limit (give_place g)
unfolding give_place
give_place-IsFair limit g positive (most, fair) = turned g.queue refl
  where
    turned :
        (q : List ℕ) → g.queue ≡ q → IsFair limit (next_turn q (record g { active = g.active - 1 }))
    turned [] e = unfold next_turn in (omega (arith, most), inl e)
    turned (task ∷ tasks) e =
        unfold next_turn in
        elim fair [
          | inl idle ↦ absurd (ground (arith, e, idle))
          | inr full ↦ (omega (arith, full, positive), inr (omega (arith, full, positive)))
        ]

module _ (limit : ℕ) (positive : 0 < limit) where
  step-AreFair :
      (e : Event) (gs : List Group) → All (IsFair limit) gs → All (IsFair limit) (step limit e gs)
  unfolding step acquire get_or_create_state release
  step-AreFair (acquires group_id task) gs v =
      All-update (is_group group_id) (take_place limit task) (IsFair limit) (IsFair limit)
        (λ g e h. take_place-IsFair limit task g h) (λ g e h. h) (get_or_create_state group_id gs)
        (elim (Bool-cases (any (is_group group_id) gs)) [
          | inl known ↦ rw (known, get_or_create_state) v
          | inr new ↦
              rw (new, get_or_create_state)
                (All-append (IsFair limit) gs _ v ((omega arith, inl refl), tt))
        ])
  step-AreFair (releases group_id) gs v =
      All-update (is_group group_id) give_place (IsFair limit) (IsFair limit)
        (λ g e h. give_place-IsFair limit g positive h) (λ g e h. h) _
        (All-filter (IsFair limit) (IsFair limit)
          (λ g. not (is_group group_id g && is_idle g.queue (g.active - 1))) (λ g e h. h) gs v)

  run-steps-AreFair :
      (es : List Event) (gs : List Group)
      → All (IsFair limit) gs
      → All (IsFair limit) (run limit es gs)
  unfolding run
  run-steps-AreFair [] gs v = v
  run-steps-AreFair (e ∷ es) gs v = run-steps-AreFair es (step limit e gs) (step-AreFair e gs v)

-- With a positive limit, whatever tasks come and leave, in any order, no group has more of them under
-- way than the limit, and a task waits only while its group is at the limit.
pub run-AreFair : (limit : ℕ) (es : List Event) → 0 < limit → All (IsFair limit) (run limit es [])
run-AreFair limit es positive = run-steps-AreFair limit positive es [] tt
