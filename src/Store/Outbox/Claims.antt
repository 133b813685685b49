-- ===== src/Store/Outbox/Claims.antt =====
-- What `claimOutbox` hands to the sender, and that it hands out no row twice.
use ubot_ai_agent.Base.{
  ℕ, ◌+◌, Bool, true, false, ◌&&◌, leb, if◌then◌else◌, none, some, List, [], ◌∷◌, ◌≡◌, inl, inr,
  refl, ap, sym, ◌∙◌, subst, map, filter, take, All, All-take, All-filter, All-of_map, arith,
  Bool-cases,
}
use ubot_ai_agent.Base.Ascending.{Ascending, Below}
use ubot_ai_agent.Base.Updates.{All-update, filter-update, Ascending-update, Below-update}
use ubot_ai_agent.Base.Selection.{among, selected-picked, picked_passes}
use ubot_ai_agent.Store.Outbox.{
  preparing, pending, sending, sent, failed, is_sending, OutboxRow, Outbox, is_stale, give_up,
  recover_stale_sending_outbox, is_claimable, claim_row, claim_pending, claim_outbox,
}

abbrev pub id_of : OutboxRow → ℕ
id_of r = r.id

pub record IsTable (s : Outbox) : Type 0 where
  pub ordered : Ascending id_of 0 s.rows
  pub bounded : Below id_of s.sequence s.rows

-- A row in flight that nobody may claim is not claimable when it has been given up either.
pub filter-recover :
    (now stale : ℕ) (s : Outbox)
    → filter (is_claimable now) (recover_stale_sending_outbox now stale s).1.rows
      ≡ filter (is_claimable now) s.rows
unfolding recover_stale_sending_outbox
filter-recover now stale s =
    filter-update (is_stale now stale) (give_up now) (is_claimable now) blind s.rows
  where
    blind :
        (r : OutboxRow)
        → is_stale now stale r ≡ true
        → (is_claimable now r ≡ false) × (is_claimable now (give_up now r) ≡ false)
    blind r e = unfold is_stale is_claimable give_up in ground arith

pub recover-IsTable :
    (now stale : ℕ) (s : Outbox) → IsTable s → IsTable (recover_stale_sending_outbox now stale s).1
unfolding recover_stale_sending_outbox
recover-IsTable now stale s v = record {
  ordered = Ascending-update id_of _ _ (λ r. refl) 0 s.rows v.ordered;
  bounded = Below-update id_of _ _ (λ r. refl) s.sequence s.rows v.bounded;
}

claim_row-sending : (now : ℕ) (r : OutboxRow) → is_sending (claim_row now r).status ≡ true
unfolding claim_row
claim_row-sending now r = refl

claim_row-id : (now : ℕ) (r : OutboxRow) → id_of (claim_row now r) ≡ id_of r
unfolding claim_row
claim_row-id now r = refl

-- The rows that a claim returns, in the words of the code.
pub claim_outbox-claim_row :
    (limit now : ℕ) (s : Outbox)
    → IsTable s
    → (claim_outbox limit now s).0
      ≡ map (claim_row now) (take limit (filter (is_claimable now) s.rows))
unfolding claim_outbox claim_pending
claim_outbox-claim_row limit now s v =
    let t = (recover_stale_sending_outbox now 60000 s).1 in
    selected-picked id_of (is_claimable now) (λ r. is_sending r.status) (claim_row now)
      (claim_row-id now) (claim_row-sending now) limit 0 t.rows
      (recover-IsTable now 60000 s v).ordered
    ∙ ap (λ l. map (claim_row now) (take limit l)) (filter-recover now 60000 s)

-- Pending, or failed with a retry that is due.
abbrev pub is_ready : ℕ → OutboxRow → Bool
is_ready now r = elim r.status [
  | preparing ↦ false
  | pending ↦ true
  | sending ↦ false
  | sent ↦ false
  | failed ↦ elim r.retry_after [ none ↦ false | some at ↦ leb at now ]
]

-- On its way, with one more attempt, from this time on.
abbrev pub in_flight : ℕ → OutboxRow → OutboxRow
in_flight now r = record r { status = sending; attempts = r.attempts + 1; updated_at = some now }

is_claimable-is_ready : (now : ℕ) (r : OutboxRow) → is_claimable now r ≡ is_ready now r
unfolding is_claimable
is_claimable-is_ready now r = elim (Bool-cases (is_claimable now r)) [
  | inl e ↦ ground (arith, e)
  | inr e ↦ ground (arith, e)
]

filter-is_claimable :
    (now : ℕ) (rs : List OutboxRow) → filter (is_claimable now) rs ≡ filter (is_ready now) rs
filter-is_claimable now [] = refl
filter-is_claimable now (r ∷ rs) =
    ap (λ b. if b then r ∷ filter (is_claimable now) rs else filter (is_claimable now) rs)
      (is_claimable-is_ready now r)
    ∙ ap (λ l. if is_ready now r then r ∷ l else l) (filter-is_claimable now rs)

-- On an outbox in id order a claim returns the first rows, in the order of their ids and at most `limit`
-- of them, that are pending or failed with a retry that is due, each as it was but for its status,
-- which is sending, its attempts, one more, and the time of its update.
pub claim_outbox_lem :
    (limit now : ℕ) (s : Outbox)
    → IsTable s
    → (claim_outbox limit now s).0 ≡ map (in_flight now) (take limit (filter (is_ready now) s.rows))
unfolding claim_row
claim_outbox_lem limit now s v =
    claim_outbox-claim_row limit now s v
    ∙ ap (λ l. map (in_flight now) (take limit l)) (filter-is_claimable now s.rows)

-- A row that no claim returns: it is in flight, sent, or has failed for good.
abbrev pub IsHeld : OutboxRow → Type 0
IsHeld r = elim r.status [
  | preparing ↦ ⊥
  | pending ↦ ⊥
  | sending ↦ Unit
  | sent ↦ Unit
  | failed ↦ r.retry_after ≡ none
]

abbrev pub AreHeld : List ℕ → Outbox → Type 0
AreHeld ids s = All (λ r. among ids r.id ≡ true → IsHeld r) s.rows

IsHeld-not_claimable : (now : ℕ) (r : OutboxRow) → IsHeld r → is_claimable now r ≡ false
unfolding is_claimable
IsHeld-not_claimable now r h = ground arith

claim_row-IsHeld : (now : ℕ) (r : OutboxRow) → IsHeld (claim_row now r)
unfolding claim_row
claim_row-IsHeld now r = tt

give_up-IsHeld : (now : ℕ) (r : OutboxRow) → IsHeld (give_up now r)
unfolding give_up
give_up-IsHeld now r = refl

module _ (ids : List ℕ) where
  abbrev Held : OutboxRow → Type 0
  Held r = among ids r.id ≡ true → IsHeld r

  pub recover-AreHeld :
      (now stale : ℕ) (s : Outbox)
      → AreHeld ids s
      → AreHeld ids (recover_stale_sending_outbox now stale s).1
  unfolding recover_stale_sending_outbox give_up
  recover-AreHeld now stale s h =
      All-update (is_stale now stale) (give_up now) Held Held (λ r e k m. refl) (λ r e k m. k m)
        s.rows h

  pub claim-AreHeld :
      (limit now : ℕ) (s : Outbox) → AreHeld ids s → AreHeld ids (claim_outbox limit now s).1
  unfolding claim_outbox claim_pending
  claim-AreHeld limit now s h =
      let t = (recover_stale_sending_outbox now 60000 s).1 in
      All-update _ (claim_row now) Held Held (λ r e k m. unfold claim_row in tt) (λ r e k m. k m)
        t.rows (recover-AreHeld now 60000 s h)

  -- A claim returns none of the held rows.
  pub claim-not_held :
      (limit now : ℕ) (s : Outbox)
      → IsTable s
      → AreHeld ids s
      → All (λ r. among ids r.id ≡ false) (claim_outbox limit now s).0
  claim-not_held limit now s v h =
      subst (All (λ r. among ids r.id ≡ false)) (sym (claim_outbox-claim_row limit now s v)) (
        All-of_map (λ r. among ids r.id ≡ false) (claim_row now) _
          (unfold claim_row in
            All-take _ limit _
              (All-filter Held (λ r. among ids r.id ≡ false) (is_claimable now) free s.rows h)))
    where
      free : (r : OutboxRow) → is_claimable now r ≡ true → Held r → among ids r.id ≡ false
      free r e k = elim (Bool-cases (among ids r.id)) [
        | inl m ↦ ground (arith, IsHeld-not_claimable now r (k m))
        | inr m ↦ m
      ]

map-claim_row : (now : ℕ) (rs : List OutboxRow) → map id_of (map (claim_row now) rs) ≡ map id_of rs
unfolding claim_row
map-claim_row now [] = refl
map-claim_row now (r ∷ rs) = ap (◌∷◌ r.id) (map-claim_row now rs)

-- What a claim returned is held from then on.
pub claimed-AreHeld :
    (limit now : ℕ) (s : Outbox)
    → IsTable s
    → AreHeld (map id_of (claim_outbox limit now s).0) (claim_outbox limit now s).1
unfolding claim_outbox claim_pending
claimed-AreHeld limit now s v =
    let t = (recover_stale_sending_outbox now 60000 s).1 in
    let ids = map id_of (take limit (filter (is_claimable now) t.rows)) in
    let ordered = (recover-IsTable now 60000 s v).ordered in
    subst (λ l. AreHeld l (claim_pending limit now t).1)
      (sym (
        ap (map id_of) (
          selected-picked id_of (is_claimable now) (λ r. is_sending r.status) (claim_row now)
            (claim_row-id now) (claim_row-sending now) limit 0 t.rows ordered)
        ∙ map-claim_row now (take limit (filter (is_claimable now) t.rows))))
      (All-update (λ r. among ids r.id && is_claimable now r) (claim_row now)
        (λ r. among ids r.id ≡ true → is_claimable now r ≡ true) (Held ids)
        (λ r e k m. claim_row-IsHeld now r) (λ r e k m. missed r e k m) t.rows
        (picked_passes id_of (is_claimable now) (λ r. is_sending r.status) (claim_row now)
          (claim_row-id now) (claim_row-sending now) limit 0 t.rows ordered))
  where
    missed :
        (r : OutboxRow) {b c : Bool}
        → (b && c) ≡ false
        → (b ≡ true → c ≡ true)
        → b ≡ true
        → IsHeld r
    missed r {b} {c} e k m = absurd (ground (arith, k m))

pub claim-IsTable : (limit now : ℕ) (s : Outbox) → IsTable s → IsTable (claim_outbox limit now s).1
unfolding claim_outbox claim_pending
claim-IsTable limit now s v =
    let t = recover-IsTable now 60000 s v in
    record {
      ordered = Ascending-update id_of _ (claim_row now) (claim_row-id now) 0 _ t.ordered;
      bounded = Below-update id_of _ (claim_row now) (claim_row-id now) s.sequence _ t.bounded;
    }
