-- ===== src/Limits/Semaphore/Permits.antt =====
-- The semaphore in any order of events.
use ubot_ai_agent.Base.{
  ℕ, suc, ◌-◌, ◌≤◌, ◌==◌, ltb, Bool, true, false, List, [], ◌∷◌, ◌≡◌, refl, ap, ◌∙◌, ◌⊎◌, inl, inr,
  filter, length, arith, Bool-cases,
}
use ubot_ai_agent.Limits.Semaphore.{
  Semaphore, empty, acquire, reject, without, hand_over, release, holds, Event, acquires, rejects,
  releases, step, run,
}

-- `active` counts the permits, there are never more than the limit, and nobody waits while one is free.
pub record IsFair (max_concurrent : ℕ) (s : Semaphore) : Type 0 where
  pub counted : s.active ≡ length s.holders
  pub limited : s.active ≤ max_concurrent
  pub busy : (s.waiters ≡ []) ⊎ (s.active ≡ max_concurrent)

without-hit : (c x : ℕ) (xs : List ℕ) → (x == c) ≡ true → without c (x ∷ xs) ≡ xs
without-hit c x xs e = rw (e, without) refl

without-miss : (c x : ℕ) (xs : List ℕ) → (x == c) ≡ false → without c (x ∷ xs) ≡ x ∷ without c xs
without-miss c x xs e = rw (e, without) refl

length-without : (c : ℕ) (xs : List ℕ) → holds c xs ≡ true → suc (length (without c xs)) ≡ length xs
length-without c [] h = cc
length-without c (x ∷ xs) h = elim (Bool-cases (x == c)) [
  | inl e ↦ ap (λ ys. suc (length ys)) (without-hit c x xs e)
  | inr e ↦
      ap (λ ys. suc (length ys)) (without-miss c x xs e)
      ∙ ap suc (length-without c xs (ground arith))
]

filter-nil : (p : ℕ → Bool) (xs : List ℕ) → xs ≡ [] → filter p xs ≡ []
filter-nil p xs e = rw (e, without) refl

module _ (m : ℕ) where
  acquire-IsFair :
      (c : ℕ) (aborted : Bool) (s : Semaphore) → IsFair m s → IsFair m (acquire m c aborted s)
  unfolding acquire
  acquire-IsFair c true s v = v
  acquire-IsFair c false s v = elim (Bool-cases (ltb s.active m)) [
    | inl free ↦
        rw (free, acquire)
          (record {
            counted = omega (arith, v.counted);
            limited = ground arith;
            busy = elim v.busy [ inl idle ↦ inl idle | inr full ↦ absurd (ground arith) ];
          })
    | inr full ↦
        rw (full, acquire)
          (record {
            counted = v.counted;
            limited = v.limited;
            busy = inr (ground (arith, v.limited));
          })
  ]

  reject-IsFair : (c : ℕ) (s : Semaphore) → IsFair m s → IsFair m (reject c s)
  unfolding reject
  reject-IsFair c s v = record {
    counted = v.counted;
    limited = v.limited;
    busy = elim v.busy [ inl idle ↦ inl (filter-nil _ s.waiters idle) | inr full ↦ inr full ];
  }

  hand_over-IsFair :
      (ws : List ℕ) (c : ℕ) (s : Semaphore)
      → holds c s.holders ≡ true
      → s.waiters ≡ ws
      → IsFair m s
      → IsFair m (hand_over ws (record s { active = s.active - 1; holders = without c s.holders }))
  unfolding hand_over
  hand_over-IsFair [] c s h e v = record {
    counted = omega (arith, v.counted, length-without c s.holders h);
    limited = omega (arith, v.limited);
    busy = inl e;
  }
  hand_over-IsFair (w ∷ ws) c s h e v = record {
    counted = omega (arith, v.counted, length-without c s.holders h);
    limited = omega (arith, v.limited, v.counted, length-without c s.holders h);
    busy = elim v.busy [
      | inl idle ↦ absurd (ground (arith, e))
      | inr full ↦ inr (omega (arith, full, v.counted, length-without c s.holders h))
    ];
  }

  step-IsFair : (e : Event) (s : Semaphore) → IsFair m s → IsFair m (step m e s)
  unfolding step release
  step-IsFair (acquires c aborted) s v = acquire-IsFair c aborted s v
  step-IsFair (rejects c) s v = reject-IsFair c s v
  step-IsFair (releases c) s v = elim (Bool-cases (holds c s.holders)) [
    | inl h ↦ rw (h, step) (hand_over-IsFair s.waiters c s h refl v)
    | inr h ↦ rw (h, step) v
  ]

  run-steps-IsFair : (es : List Event) (s : Semaphore) → IsFair m s → IsFair m (run m es s)
  unfolding run
  run-steps-IsFair [] s v = v
  run-steps-IsFair (e ∷ es) s v = run-steps-IsFair es (step m e s) (step-IsFair e s v)

-- Whatever callers acquire, release, time out and abort, in any order, the semaphore counts exactly
-- the permits that are out, gives out no more than its limit, and keeps a caller waiting only while
-- all permits are out.
pub run-IsFair :
    (max_concurrent : ℕ) (es : List Event) → IsFair max_concurrent (run max_concurrent es empty)
unfolding empty
run-IsFair m es =
    run-steps-IsFair m es empty (record { counted = refl; limited = omega arith; busy = inl refl })

-- A release with waiters hands the permit to the first of them: the number of permits stays, and the
-- others wait on in their order.
pub release-hands_over :
    (caller next : ℕ) (rest : List ℕ) (s : Semaphore) (max_concurrent : ℕ)
    → IsFair max_concurrent s
    → holds caller s.holders ≡ true
    → s.waiters ≡ next ∷ rest
    → ((release caller s).active ≡ s.active)
      × ((release caller s).waiters ≡ rest)
      × (holds next (release caller s).holders ≡ true)
unfolding release hand_over
release-hands_over caller next rest s m v h e =
    rw (e, hand_over)
      (omega (arith, v.counted, length-without caller s.holders h), refl, ground arith)
