-- ===== src/ModelRouter/Fallback.antt =====
-- Which model answers.
use ubot_ai_agent.Base.{
  ℕ, ◌<◌, ◌≡◌, refl, sym, ap, subst, ◌∙◌, inl, inr, leb, Bool, true, false, not, List, [], ◌∷◌,
  ◌++◌, Text, same, All, Result, ok, throws, Bool-cases, arith,
}
use ubot_ai_agent.ModelRouter.{
  Model, Outcome, value, failure, Attempt, RouteError, provider, aborted, model_total_timeout,
  Routed, Cursor, settle, run,
}

module _ {V : Type 0} {E : Type 0} where
  throws_ne_ok :
      (x : RouteError E) (d c : Cursor E) (r : Routed V)
      → ◌≡◌ {A = Result (RouteError E) (Routed V) × Cursor E} (throws x, d) (ok r, c)
      → ⊥
  throws_ne_ok x d c r e = cc

  same_answer :
      (q r : Routed V) (d c : Cursor E)
      → ◌≡◌ {A = Result (RouteError E) (Routed V) × Cursor E} (ok q, d) (ok r, c)
      → ◌≡◌ {A = Routed V × Cursor E} (q, d) (r, c)
  same_answer q r d c e = cc

module _ {V : Type 0} {E : Type 0} (attempt : Model → Attempt V E) (primary : Text)
    (deadline : ℕ) where
  -- A model whose attempt was begun in time and failed so that the next one is tried.
  pub record IsPassed (m : Model) : Type 0 where
    pub error : E
    pub failed : (attempt m).outcome ≡ failure true error
    pub in_time : (attempt m).now < deadline

  -- The value is that of a model, and the ones before it were tried and passed.
  pub record IsAnswer (models : List Model) (r : Routed V) (c : Cursor E) : Type 0 where
    pub before : List Model
    pub model : Model
    pub split : models ≡ before ++ model ∷ c.rest
    pub passed : All IsPassed before
    pub answered : (attempt model).outcome ≡ value r.value_of
    pub in_time : (attempt model).now < deadline
    pub named : r.model_id ≡ model.id
    pub is_fallback : r.fallback_used ≡ not (same model.id primary)

  -- What the rest of the loop answers, the loop answers.
  passed-IsAnswer :
      (m : Model) (ms : List Model) (r : Routed V) (c : Cursor E)
      → IsPassed m
      → IsAnswer ms r c
      → IsAnswer (m ∷ ms) r c
  passed-IsAnswer m ms r c p a = record {
    before = m ∷ a.before;
    model = a.model;
    split = ap (◌∷◌ m) a.split;
    passed = (p, a.passed);
    answered = a.answered;
    in_time = a.in_time;
    named = a.named;
    is_fallback = a.is_fallback;
  }

  settled-IsAnswer :
      (m : Model) (ms : List Model) (out : Outcome V E) (gone : Bool) (last : RouteError E)
      (r : Routed V) (c : Cursor E)
      → (attempt m).outcome ≡ out
      → (attempt m).now < deadline
      → ((last' : RouteError E)
          → run attempt primary deadline ms last' ≡ (ok r, c)
          → IsAnswer ms r c)
      → settle attempt primary deadline m out gone
          (record { rest = ms; last_error = last })
          (run attempt primary deadline ms)
        ≡ (ok r, c)
      → IsAnswer (m ∷ ms) r c
  settled-IsAnswer m ms out true last r c made early rest e = cc
  settled-IsAnswer m ms (value v) false last r c made early rest e =
      let answer : Routed V = record {
        value_of = v;
        model_id = m.id;
        fallback_used = not (same m.id primary);
      } in
      let behind : Cursor E = record { rest = ms; last_error = last } in
      subst (λ out. IsAnswer (m ∷ ms) out.0 out.1) (same_answer answer r behind c e)
        (record {
          before = [];
          model = m;
          split = refl;
          passed = tt;
          answered = made;
          in_time = early;
          named = refl;
          is_fallback = refl;
        })
  settled-IsAnswer m ms (failure true x) false last r c made early rest e =
      passed-IsAnswer m ms r c (record { error = x; failed = made; in_time = early }) (rest _ e)
  settled-IsAnswer m ms (failure false x) false last r c made early rest e = cc

  -- A run that returns returns the value of a model: the first of the candidates left whose attempt
  -- does not fail, begun before the deadline, while the attempts before it were begun before the
  -- deadline and failed so that the next one is tried; the cursor stands behind it, and the answer names
  -- it and says whether it is another than the primary one.
  pub run-IsAnswer :
      (models : List Model) (last : RouteError E) (r : Routed V) (c : Cursor E)
      → run attempt primary deadline models last ≡ (ok r, c)
      → IsAnswer models r c
  unfolding run
  run-IsAnswer [] last r c e = cc
  run-IsAnswer (m ∷ ms) last r c e = elim (Bool-cases (attempt m).is_aborted) [
    | inl gone ↦ absurd (
        throws_ne_ok aborted (record { rest = m ∷ ms; last_error = last }) c r
          (sym (rw (gone, run) refl) ∙ e))
    | inr here ↦ elim (Bool-cases (leb deadline (attempt m).now)) [
      | inl late ↦ absurd (
          throws_ne_ok model_total_timeout (record { rest = m ∷ ms; last_error = last }) c r
            (sym (rw (here, late, run) refl) ∙ e))
      | inr early ↦
          settled-IsAnswer m ms (attempt m).outcome (attempt m).is_aborted_after last r c refl
            (ground (arith, early)) (λ last' e'. run-IsAnswer ms last' r c e')
            (sym (rw (here, early, run) refl) ∙ e)
    ]
  ]

  -- Nobody aborts the attempt with the model, before it or behind it.
  pub record IsLeft (m : Model) : Type 0 where
    pub not_before : (attempt m).is_aborted ≡ false
    pub not_after : (attempt m).is_aborted_after ≡ false

  one_round :
      (m : Model) (ms : List Model) (last : RouteError E)
      → IsLeft m
      → (attempt m).now < deadline
      → run attempt primary deadline (m ∷ ms) last
        ≡ settle attempt primary deadline m
            (attempt m).outcome
            false
            (record { rest = ms; last_error = last })
            (run attempt primary deadline ms)
  unfolding run
  one_round m ms last left early =
      let on_time : leb deadline (attempt m).now ≡ false = ground (arith, early) in
      rw (left.not_before, on_time, left.not_after, run) refl

  -- As long as nobody aborts, a model whose attempt returns a value, begun before the deadline, answers
  -- if all the candidates before it were tried before the deadline and failed so that the next one is
  -- tried.
  pub run-reaches :
      (before : List Model) (m : Model) (after : List Model) (last : RouteError E) (v : V)
      → All (λ x. IsPassed x × IsLeft x) before
      → IsLeft m
      → (attempt m).now < deadline
      → (attempt m).outcome ≡ value v
      → (run attempt primary deadline (before ++ m ∷ after) last).0
        ≡ ok (record { value_of = v; model_id = m.id; fallback_used = not (same m.id primary) })
  run-reaches [] m after last v passed left early made =
      ap (λ out. out.0)
        (one_round m after last left early
          ∙ ap
              (λ o.
                settle attempt primary deadline m o false
                  (record { rest = after; last_error = last }) (run attempt primary deadline after))
              made)
  run-reaches (x ∷ before) m after last v passed left early made =
      let (p, x_left) = passed.0 in
      ap (λ out. out.0)
        (one_round x (before ++ m ∷ after) last x_left p.in_time
          ∙ ap
              (λ o.
                settle attempt primary deadline x o false
                  (record { rest = before ++ m ∷ after; last_error = last })
                  (run attempt primary deadline (before ++ m ∷ after)))
              p.failed)
      ∙ run-reaches before m after (provider p.error) v passed.1 left early made
