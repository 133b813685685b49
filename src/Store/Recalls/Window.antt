-- ===== src/Store/Recalls/Window.antt =====
-- `claimDueMessageRecalls`: what the claimed rows satisfy.
use ubot_ai_agent.Base.{
  ℕ, suc, ◌≤◌, Bool, true, false, ◌&&◌, some, List, [], ◌∷◌, ◌≡◌, ◌≢◌, inl, inr, refl, ap, ◌∙◌, map,
  take, length, length-take-le, length-filter-count, All, All-map, All-map₂, All-take, All-filter,
  filter, arith, Bool-cases,
}
use ubot_ai_agent.Base.Ascending.{Ascending}
use ubot_ai_agent.Base.Updates.{update, All-update}
use ubot_ai_agent.Base.Selection.{among}
use ubot_ai_agent.Base.Keys.{count_cong-le, count-among, among-absent, failed_apart}
use ubot_ai_agent.Store.Recalls.{
  sending, expired, is_sending, max_recall_attempts, RecallRow, Recalls, is_overdue,
  expire_in_transaction, is_before, insert_by_due, sort_by_due, is_due, claim_row, due_ids,
  claim_due,
}
use ubot_ai_agent.Store.Recalls.Table.{id_of, IsSound, IsTable, close-IsTable, claim_due-IsTable}

module _ {κ} (P : RecallRow → Type κ) where
  All-insert : (r : RecallRow) (xs : List RecallRow) → P r → All P xs → All P (insert_by_due r xs)
  unfolding insert_by_due
  All-insert r [] p h = (p, tt)
  All-insert r (x ∷ xs) p h = elim (Bool-cases (is_before r x)) [
    | inl e ↦ rw (e, insert_by_due) (p, h)
    | inr e ↦ rw (e, insert_by_due) (h.0, All-insert r xs p h.1)
  ]

  pub All-sort : (xs : List RecallRow) → All P xs → All P (sort_by_due xs)
  unfolding sort_by_due
  All-sort [] h = tt
  All-sort (x ∷ xs) h = All-insert x (sort_by_due xs) h.0 (All-sort xs h.1)

length-insert :
    (r : RecallRow) (xs : List RecallRow) → length (insert_by_due r xs) ≡ suc (length xs)
unfolding insert_by_due
length-insert r [] = refl
length-insert r (x ∷ xs) = elim (Bool-cases (is_before r x)) [
  | inl e ↦ rw (e, insert_by_due) refl
  | inr e ↦ rw (e, insert_by_due) (ap suc (length-insert r xs))
]

length-sort : (xs : List RecallRow) → length (sort_by_due xs) ≡ length xs
unfolding sort_by_due
length-sort [] = refl
length-sort (x ∷ xs) = length-insert x (sort_by_due xs) ∙ ap suc (length-sort xs)

length-map : (xs : List RecallRow) → length (map id_of xs) ≡ length xs
length-map [] = refl
length-map (x ∷ xs) = ap suc (length-map xs)

-- Only due rows are picked.
due_ids-apart :
    (limit now : ℕ) (rows : List RecallRow)
    → Ascending id_of 0 rows
    → All (λ r. is_due now r ≡ false → among (due_ids limit now rows) r.id ≡ false) rows
unfolding due_ids
due_ids-apart limit now rows a =
    All-map (λ r. is_due now r ≡ false → All (λ y. id_of y ≢ id_of r) (filter (is_due now) rows)) _
      (λ r h e. among-absent id_of (id_of r) (take limit (sort_by_due (filter (is_due now) rows))) (
        All-take (λ y. id_of y ≢ id_of r) limit (sort_by_due (filter (is_due now) rows))
          (All-sort (λ y. id_of y ≢ id_of r) (filter (is_due now) rows) (h e))))
      rows (failed_apart id_of (is_due now) 0 rows a)

length-due_ids : (limit now : ℕ) (rows : List RecallRow) → length (due_ids limit now rows) ≤ limit
unfolding due_ids
length-due_ids limit now rows = omega (
  arith,
  length-map (take limit (sort_by_due (filter (is_due now) rows))),
  length-take-le limit (sort_by_due (filter (is_due now) rows)),
)

-- A row just claimed: it was due, its deadline had not passed, and it has had at most two attempts.
abbrev pub IsClaimed : ℕ → RecallRow → Type 0
IsClaimed now r =
    (r.status ≡ sending)
    × (r.claimed_at ≡ some now)
    × (r.due_at ≤ now)
    × (now ≤ r.deadline_at)
    × (r.attempts ≤ max_recall_attempts)

claim_row-IsClaimed :
    (now : ℕ) (r : RecallRow) → is_due now r ≡ true → IsSound r → IsClaimed now (claim_row now r)
unfolding is_due claim_row
claim_row-IsClaimed now r e v = (refl, refl, ground arith, ground arith, ground arith)

abbrev IsPicked : List ℕ → ℕ → RecallRow → Type 0
IsPicked ids now r = (among ids r.id && is_sending r.status) ≡ true → IsClaimed now r

not_picked : (a d s : Bool) → (a && d) ≡ false → (d ≡ false → a ≡ false) → (a && s) ≡ true → ⊥
not_picked a d s e h k = ground arith

claimed_rows :
    (ids : List ℕ) (now : ℕ) (rows : List RecallRow)
    → All (λ r. is_due now r ≡ false → among ids r.id ≡ false) rows
    → All IsSound rows
    → All (IsPicked ids now) (update (λ r. among ids r.id && is_due now r) (claim_row now) rows)
claimed_rows ids now rows apart sound =
    All-update (λ r. among ids r.id && is_due now r) (claim_row now)
      (λ r. (is_due now r ≡ false → among ids r.id ≡ false) × IsSound r) (IsPicked ids now)
      (λ r e b picked. claim_row-IsClaimed now r (ground arith) b.1)
      (λ r e b picked.
        absurd (not_picked (among ids r.id) (is_due now r) (is_sending r.status) e b.0 picked))
      rows (All-map₂ _ IsSound _ (λ r a b. (a, b)) rows apart sound)

-- On a well-formed table every row that `claimDueMessageRecalls` returns is `sending`, was claimed
-- at this time, is due, is not past its deadline and has been attempted at most twice; it returns at
-- most `limit` rows.
pub claim_due-AreClaimed :
    (limit now : ℕ) (s : Recalls)
    → IsTable s
    → All (IsClaimed now) (claim_due limit now s).0 × (length (claim_due limit now s).0 ≤ limit)
unfolding claim_due
claim_due-AreClaimed limit now s v =
    let t = (expire_in_transaction now s).1 in
    let v' : IsTable t =
      unfold expire_in_transaction in close-IsTable (is_overdue now) expired now s refl v in
    let ids = due_ids limit now t.rows in
    let rows = update (λ r. among ids r.id && is_due now r) (claim_row now) t.rows in
    (
      All-sort (IsClaimed now) (filter (λ r. among ids r.id && is_sending r.status) rows) (
          All-filter (IsPicked ids now) (IsClaimed now) (λ r. among ids r.id && is_sending r.status)
            (λ r e b. b e) rows
            (claimed_rows ids now t.rows (due_ids-apart limit now t.rows v'.ordered) v'.sound)),
      omega (
        arith,
        length-sort (filter (λ r. among ids r.id && is_sending r.status) rows),
        length-filter-count (λ r. among ids r.id && is_sending r.status) rows,
        count_cong-le (λ r. among ids r.id && is_sending r.status) (λ r. among ids (id_of r)) rows
            (λ r e. ground arith),
        count-among id_of ids 0 rows (claim_due-IsTable limit now s v).ordered,
        length-due_ids limit now t.rows,
      ),
    )
