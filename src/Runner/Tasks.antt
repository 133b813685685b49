-- ===== src/Runner/Tasks.antt =====
-- The tasks under way, one for a key, and what `dispatch` takes.
use ubot_ai_agent.Base.{
  ℕ, ◌<◌, leb, ltb, if◌then◌else◌, Bool, true, false, not, ◌||◌, none, some, List, [], ◌∷◌, ◌++◌,
  ◌≡◌, refl, ap, inl, inr, Text, same, same_iff, map, filter, length, arith, Bool-cases,
  Option-cases,
}
use ubot_ai_agent.Base.Updates.{update}
use ubot_ai_agent.Store.Messages.{MessageRow}
use ubot_ai_agent.Runner.{Options, Lane, Task, Runner, lane_of, is_busy, next_task}
use ubot_ai_agent.Runner.Lanes.{IsHead}

abbrev pub key_of : Task → Text
key_of t = t.key

-- No two tasks have the same key.
abbrev pub AreApart : List Text → Type 0
AreApart [] = Unit
AreApart (k ∷ ks) = (is_busy k ks ≡ false) × AreApart ks

pub AreApart-append :
    (ks : List Text) (k : Text) → AreApart ks → is_busy k ks ≡ false → AreApart (ks ++ k ∷ [])
AreApart-append [] k a h = (refl, tt)
AreApart-append (x ∷ xs) k a h = (away xs a.0, AreApart-append xs k a.1 (ground arith))
  where
    away : (ys : List Text) → is_busy x ys ≡ false → is_busy x (ys ++ k ∷ []) ≡ false
    away [] f = ground (arith, same_iff x k, same_iff k x)
    away (y ∷ ys) f = ground (arith, away ys)

pub is_busy-filter :
    (x : Text) (p : Text → Bool) (ks : List Text)
    → is_busy x ks ≡ false
    → is_busy x (filter p ks) ≡ false
is_busy-filter x p [] h = refl
is_busy-filter x p (k ∷ ks) h = ground (arith, is_busy-filter x p ks)

pub AreApart-filter : (p : Text → Bool) (ks : List Text) → AreApart ks → AreApart (filter p ks)
AreApart-filter p [] a = tt
AreApart-filter p (k ∷ ks) a = ground (arith, is_busy-filter k p ks a.0, AreApart-filter p ks a.1)

pub map-append_task :
    (ts : List Task) (t : Task) → map key_of (ts ++ t ∷ []) ≡ map key_of ts ++ t.key ∷ []
map-append_task [] t = refl
map-append_task (x ∷ xs) t = ap (◌∷◌ x.key) (map-append_task xs t)

pub map-filter_task :
    (key : Text) (ts : List Task)
    → map key_of (filter (λ t. not (same t.key key)) ts)
      ≡ filter (λ k. not (same k key)) (map key_of ts)
map-filter_task key [] = refl
map-filter_task key (t ∷ ts) = ground (arith, map-filter_task key ts)

pub map-finish_task :
    (key : Text) (ts : List Task)
    → map key_of (update (λ u. same u.key key) (λ u. record u { finished = true }) ts)
      ≡ map key_of ts
map-finish_task key [] = refl
map-finish_task key (t ∷ ts) = ground (arith, map-finish_task key ts)

pub picked_lem :
    (late : Bool) (q : List MessageRow) (m : MessageRow)
    → elim q [ [] ↦ none | x ∷ _ ↦ if late then none else some x ] ≡ some m
    → IsHead m q
picked_lem late [] m e = cc
picked_lem true (x ∷ xs) m e = cc
picked_lem false (x ∷ xs) m e = cc

pub next_task-lane :
    (o : Options) (key : Text) (now : ℕ) (s : Runner) (m : MessageRow)
    → next_task o key now s ≡ some m
    → (is_busy key s.busy_keys ≡ false)
      × (length s.busy_keys < o.max_concurrent_keys)
      × (l : Lane) × (lane_of key s.lanes ≡ some l)
      × IsHead m l.queue
unfolding next_task
next_task-lane o key now s m e =
    elim (Bool-cases
      (s.stopped || (is_busy key s.busy_keys || leb o.max_concurrent_keys (length s.busy_keys)))) [
        | inl closed ↦ absurd (ground arith)
        | inr passed ↦ elim (Option-cases (lane_of key s.lanes)) [
          | inl missing ↦ absurd (ground arith)
          | inr (l, at) ↦ (
            ground arith,
            ground arith,
            l,
            at,
            picked_lem (ltb now l.backoff_until) l.queue m (ground arith),
          )
        ]
      ]
