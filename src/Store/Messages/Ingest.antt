-- ===== src/Store/Messages/Ingest.antt =====
-- `insertMessage` keeps the ledger in order and takes each message once.
use ubot_ai_agent.Base.{
  ℕ, inl, inr, not, filter, suc, ◌==◌, ◌≤◌, ◌≡◌, refl, true, false, ◌||◌, List, [], ◌∷◌, ◌++◌, Text,
  same, same_iff, same_refl, Bool-cases, arith, All, All-filter,
}
use ubot_ai_agent.Base.Ascending.{Ascending, Below, Ascending-append, Below-append, Below-weaken}
use ubot_ai_agent.Base.Updates.{update, All-update, filter-update, Ascending-update, Below-update}
use ubot_ai_agent.Store.Messages.{
  MessageRow, NewMessage, Messages, holds_key, key_of, row_of, insert_message, drop_row,
  mark_message_dropped,
}

-- No two rows have the same deduplication key.
abbrev pub DistinctKeys : List MessageRow → Type 0
DistinctKeys [] = Unit
DistinctKeys (r ∷ rs) = (holds_key r.dedup_key rs ≡ false) × DistinctKeys rs

pub record IsLedger (s : Messages) : Type 0 where
  pub ordered : Ascending (λ r. r.id) 0 s.rows
  pub bounded : Below (λ r. r.id) s.sequence s.rows
  pub distinct : DistinctKeys s.rows

same_sym : (a b : Text) → same a b ≡ same b a
same_sym a b = ground (arith, same_iff a b, same_iff b a)

holds_key-append :
    (k : Text) (xs : List MessageRow) (r : MessageRow)
    → holds_key k (xs ++ r ∷ []) ≡ (holds_key k xs || same r.dedup_key k)
holds_key-append k [] r = ground arith
holds_key-append k (x ∷ xs) r = ground (arith, holds_key-append k xs r)

DistinctKeys-append :
    (xs : List MessageRow) (r : MessageRow)
    → DistinctKeys xs
    → holds_key r.dedup_key xs ≡ false
    → DistinctKeys (xs ++ r ∷ [])
DistinctKeys-append [] r d h = (refl, tt)
DistinctKeys-append (x ∷ xs) r d h = (
  ground (arith, holds_key-append x.dedup_key xs r, same_sym r.dedup_key x.dedup_key),
  DistinctKeys-append xs r d.1 (ground arith),
)

-- Inserting a message keeps the ids rising and bounded by the sequence, and the keys distinct.
pub insert_message-IsLedger :
    (m : NewMessage) (s : Messages) → IsLedger s → IsLedger (insert_message m s).1
unfolding insert_message row_of
insert_message-IsLedger m s v = elim (Bool-cases (holds_key (key_of m) s.rows)) [
  | inl dup ↦ rw dup v
  | inr new ↦ rw new (record {
    ordered =
        Ascending-append (λ r. r.id) 0 s.sequence s.rows (row_of (suc s.sequence) m) v.ordered
          v.bounded (omega arith) (omega arith);
    bounded =
        Below-append (λ r. r.id) (suc s.sequence) s.rows (row_of (suc s.sequence) m)
          (Below-weaken (λ r. r.id) s.sequence (suc s.sequence) s.rows (omega arith) v.bounded)
          (omega arith);
    distinct = DistinctKeys-append s.rows (row_of (suc s.sequence) m) v.distinct new;
  })
]

-- A run of ingress: each message is offered to the ledger once, in order.
unfoldable pub ingest : List NewMessage → Messages → Messages
unfolding insert_message
ingest [] s = s
ingest (m ∷ ms) s = ingest ms (insert_message m s).1

-- Whatever ingress receives, the ledger keeps rising ids and one row for each key.
pub ingest-IsLedger : (ms : List NewMessage) (s : Messages) → IsLedger s → IsLedger (ingest ms s)
unfolding ingest
ingest-IsLedger [] s v = v
ingest-IsLedger (m ∷ ms) s v = ingest-IsLedger ms _ (insert_message-IsLedger m s v)

holds_key-insert :
    (m : NewMessage) (s : Messages) → holds_key (key_of m) (insert_message m s).1.rows ≡ true
unfolding insert_message row_of
holds_key-insert m s = elim (Bool-cases (holds_key (key_of m) s.rows)) [
  | inl dup ↦ rw dup dup
  | inr new ↦ rw new (
      ground (
        arith,
        holds_key-append (key_of m) s.rows (row_of (suc s.sequence) m),
        same_refl (key_of m),
      ))
]

-- A message that comes again with the same bot, group and message id gets 0, and nothing is stored.
pub insert_message-repeat :
    (m again : NewMessage) (s : Messages)
    → again.self_id ≡ m.self_id
    → again.group_id ≡ m.group_id
    → again.msg_id ≡ m.msg_id
    → insert_message again (insert_message m s).1 ≡ (0, (insert_message m s).1)
unfolding insert_message key_of
insert_message-repeat m again s e f g =
    rw (e, f, g) (unfold insert_message key_of in rw (holds_key-insert m s))

holds_key-drop :
    (k : Text) (id : ℕ) (reason : Text) (rs : List MessageRow)
    → holds_key k (update (λ r. r.id == id) (drop_row reason) rs) ≡ holds_key k rs
unfolding drop_row
holds_key-drop k id reason [] = refl
holds_key-drop k id reason (r ∷ rs) = ground (arith, holds_key-drop k id reason rs)

DistinctKeys-drop :
    (id : ℕ) (reason : Text) (rs : List MessageRow)
    → DistinctKeys rs
    → DistinctKeys (update (λ r. r.id == id) (drop_row reason) rs)
unfolding drop_row
DistinctKeys-drop id reason [] d = tt
DistinctKeys-drop id reason (r ∷ rs) d =
    ground (arith, holds_key-drop r.dedup_key id reason rs, DistinctKeys-drop id reason rs d.1)

-- Dropping an event keeps the ledger, its ids and keys; exactly the rows with that id become
-- unprocessable, and the others stay as they are.
pub mark_message_dropped_lem :
    (id : ℕ) (reason : Text) (s : Messages)
    → IsLedger s
    → IsLedger (mark_message_dropped id reason s)
      × All
          (λ r. r.processable ≡ false)
          (filter (λ r. r.id == id) (mark_message_dropped id reason s).rows)
      × (filter (λ r. not (r.id == id)) (mark_message_dropped id reason s).rows
          ≡ filter (λ r. not (r.id == id)) s.rows)
unfolding mark_message_dropped drop_row
mark_message_dropped_lem id reason s v = (
  record {
    ordered =
        Ascending-update (λ r. r.id) (λ r. r.id == id) (drop_row reason) (λ r. refl) 0 s.rows
          v.ordered;
    bounded =
        Below-update (λ r. r.id) (λ r. r.id == id) (drop_row reason) (λ r. refl) s.sequence s.rows
          v.bounded;
    distinct = DistinctKeys-drop id reason s.rows v.distinct;
  },
  All-filter (λ r. (r.id == id) ≡ true → r.processable ≡ false) (λ r. r.processable ≡ false)
      (λ r. r.id == id) (λ r e h. h e) (update (λ r. r.id == id) (drop_row reason) s.rows)
      (All-update (λ r. r.id == id) (drop_row reason) (λ r. r.id ≤ s.sequence)
        (λ r. (r.id == id) ≡ true → r.processable ≡ false) (λ r e h k. refl)
        (λ r e h k. absurd (ground arith)) s.rows v.bounded),
  filter-update (λ r. r.id == id) (drop_row reason) (λ r. not (r.id == id)) (λ r e. ground arith)
      s.rows,
)
