-- ===== src/Store/Delivery/Acks.antt =====
-- What an acknowledged delivery exposes.
use ubot_ai_agent.Base.{
  ℕ, ◌==◌, Bool, true, false, not, Option, none, some, List, [], ◌∷◌, ◌++◌, ◌≡◌, refl, sym, ap, ◌∙◌,
  subst, inl, inr, Text, same, same_refl, trim, is_empty, coalesce, filter, find, any, found_passes,
  ok, throws, throw_if, Returns, Returns-bind, Returns-ok, Returns-map, throw_if-passed, arith,
  Bool-cases, Option-cases,
}
use ubot_ai_agent.Base.Updates.{update, find-update}
use ubot_ai_agent.Store.Numbers.{other_message_id, other_context, empty_message_id}
use ubot_ai_agent.Store.Outbox.{sent, OutboxRow, Outbox, ack_row}
use ubot_ai_agent.Store.Recalls.{Recalls}
use ubot_ai_agent.Store.Delivery.{
  BotMessage, ContextRow, Ledger, truthy, is_other, is_bot_message, record_bot_message, is_context,
  context_of, is_bound_elsewhere, rebind, put_context, bind_message,
  sync_outbox_conversation_context, row_by_id, insert_recall, recall_input, acked_row, acked,
  ack_checked, ack_outbox_delivery,
}

-- The message is bound to the route.
abbrev pub IsRouted : Text → Text → Text → Text → Ledger → Type 0
IsRouted g m topic branch s =
    (c : ContextRow) × (context_of g m s.contexts ≡ some c)
    × (c.topic_id ≡ topic)
    × (c.branch_id ≡ branch)

-- The tables that binding a message does not touch.
abbrev IsElsewhere : Ledger → Ledger → Type 0
IsElsewhere s t = (t.outbox ≡ s.outbox) × (t.bot_messages ≡ s.bot_messages)

context_of-new :
    (g m : Text) (cs : List ContextRow) (c : ContextRow)
    → any (is_context g m) cs ≡ false
    → is_context g m c ≡ true
    → context_of g m (cs ++ c ∷ []) ≡ some c
context_of-new g m [] c e h = rw h refl
context_of-new g m (x ∷ xs) c e h = ground (arith, context_of-new g m xs c)

context_of-rebound :
    (g m topic branch : Text) (turn : Option ℕ) (cs : List ContextRow)
    → any (is_context g m) cs ≡ true
    → (c : ContextRow) × (context_of g m (update (is_context g m) (rebind topic branch turn) cs)
        ≡ some c)
      × (c.topic_id ≡ topic)
      × (c.branch_id ≡ branch)
unfolding rebind
context_of-rebound g m topic branch turn [] e = cc
context_of-rebound g m topic branch turn (x ∷ xs) e = elim (Bool-cases (is_context g m x)) [
  | inl hit ↦ rw hit (rw hit (rebind topic branch turn x, refl, refl, refl))
  | inr miss ↦ rw miss (rw miss (context_of-rebound g m topic branch turn xs (ground arith)))
]

put_context-routed :
    (row : OutboxRow) (topic branch m : Text) (at : ℕ) (cs : List ContextRow)
    → (c : ContextRow) × (context_of row.group_id m (put_context row topic branch m at cs) ≡ some c)
      × (c.topic_id ≡ topic)
      × (c.branch_id ≡ branch)
unfolding put_context
put_context-routed row topic branch m at cs =
    elim (Bool-cases (any (is_context row.group_id m) cs)) [
      | inl old ↦
          rw (old, put_context) (context_of-rebound row.group_id m topic branch row.turn_id cs old)
      | inr new ↦
          rw (new, put_context)
            (
              _,
              context_of-new row.group_id m cs _ new
                  (ground (arith, same_refl row.group_id, same_refl m)),
              refl,
              refl,
            )
    ]

bind_message-IsRouted :
    (row : OutboxRow) (topic branch m : Text) (at : ℕ) (s : Ledger)
    → Returns (IsRouted row.group_id m topic branch) (bind_message row topic branch m at s)
unfolding bind_message
bind_message-IsRouted row topic branch m at s =
    let elsewhere =
      is_bound_elsewhere topic branch row.turn_id (context_of row.group_id m s.contexts) in
    Returns-bind (IsRouted row.group_id m topic branch) (throw_if elsewhere other_context) _
      λ u e. put_context-routed row topic branch m at s.contexts

bind_message-IsElsewhere :
    (row : OutboxRow) (topic branch m : Text) (at : ℕ) (s : Ledger)
    → Returns (IsElsewhere s) (bind_message row topic branch m at s)
unfolding bind_message
bind_message-IsElsewhere row topic branch m at s =
    let elsewhere =
      is_bound_elsewhere topic branch row.turn_id (context_of row.group_id m s.contexts) in
    Returns-bind (IsElsewhere s) (throw_if elsewhere other_context) _ λ u e. (refl, refl)

sync-IsElsewhere :
    (row : OutboxRow) (at : ℕ) (s : Ledger)
    → Returns (IsElsewhere s) (sync_outbox_conversation_context row at s)
unfolding sync_outbox_conversation_context
sync-IsElsewhere row at s = elim (Option-cases (truthy row.topic_id)) [
  | inl n ↦ rw (n, sync_outbox_conversation_context) (refl, refl)
  | inr (topic, t) ↦
      rw (t, sync_outbox_conversation_context)
        (elim (Option-cases (truthy row.branch_id)) [
          | inl n ↦ rw (n, sync_outbox_conversation_context) (refl, refl)
          | inr (branch, b) ↦
              rw (b, sync_outbox_conversation_context)
                (elim (Option-cases (truthy row.platform_message_id)) [
                  | inl n ↦ rw (n, sync_outbox_conversation_context) (refl, refl)
                  | inr (m, p) ↦
                      rw (p, sync_outbox_conversation_context)
                        (bind_message-IsElsewhere row topic branch m at s)
                ])
        ])
]

sync-IsRouted :
    (row : OutboxRow) (topic branch m : Text) (at : ℕ) (s : Ledger)
    → truthy row.topic_id ≡ some topic
    → truthy row.branch_id ≡ some branch
    → truthy row.platform_message_id ≡ some m
    → Returns (IsRouted row.group_id m topic branch) (sync_outbox_conversation_context row at s)
unfolding sync_outbox_conversation_context
sync-IsRouted row topic branch m at s t b p =
    rw (t, sync_outbox_conversation_context)
      (rw (b, sync_outbox_conversation_context)
        (rw (p, sync_outbox_conversation_context) (bind_message-IsRouted row topic branch m at s)))

is_bot_message-recorded :
    (g m : Text) (at : ℕ) (rows : List BotMessage)
    → any (is_bot_message g m) (record_bot_message g m at rows) ≡ true
unfolding record_bot_message
is_bot_message-recorded g m at rows = last (filter (λ b. not (is_bot_message g m b)) rows)
  where
    last :
        (xs : List BotMessage)
        → any (is_bot_message g m) (xs ++ record { group_id = g; msg_id = m; sent_at = at } ∷ [])
          ≡ true
    last [] = ground (arith, same_refl g, same_refl m)
    last (x ∷ xs) = ground (arith, last xs)

row_by_id-key : (id : ℕ) (o : Outbox) (row : OutboxRow) → row_by_id id o ≡ some row → row.id ≡ id
row_by_id-key id o row e = ground (arith, found_passes (λ r. r.id == id) o.rows row e)

truthy-full : (m : Text) → is_empty m ≡ false → truthy (some m) ≡ some m
truthy-full m e = rw e refl

-- The row is sent, with the message's id, at the time of its first acknowledgement.
abbrev pub sent_with : Text → ℕ → OutboxRow → OutboxRow
sent_with m at row = record row {
  status = sent;
  retry_after = none;
  platform_message_id = some m;
  sent_at = elim row.sent_at [ none ↦ some at | some first ↦ some first ];
  updated_at = some at;
}

first_time :
    (at : ℕ) (t : Option ℕ)
    → some (coalesce t at) ≡ elim t [ none ↦ some at | some first ↦ some first ]
first_time at none = refl
first_time at (some t) = refl

sent_with-ack_row :
    (m : Text) (at : ℕ) (row : OutboxRow)
    → ack_row m (coalesce row.sent_at at) at row ≡ sent_with m at row
unfolding ack_row
sent_with-ack_row m at row =
    ap (λ t. record (sent_with m at row) { sent_at = t }) (first_time at row.sent_at)

-- The row is sent so, and the message is known to be the bot's.
abbrev pub IsExposed : ℕ → Text → ℕ → OutboxRow → Ledger → Type 0
IsExposed id m at row s =
    (row_by_id id s.outbox ≡ some (sent_with m at row))
    × (any (is_bot_message row.group_id m) s.bot_messages ≡ true)

acked-IsExposed :
    (id : ℕ) (m : Text) (at : ℕ) (row : OutboxRow) (recalls : Recalls) (s t : Ledger)
    → row_by_id id s.outbox ≡ some row
    → IsElsewhere (acked m (coalesce row.sent_at at) at row recalls s) t
    → IsExposed id m at row t
unfolding acked ack_row
acked-IsExposed id m at row recalls s t e (outbox, bots) = (
  rw outbox (
      subst
        (λ n.
          find (λ r. r.id == id)
            (update (λ r. r.id == n) (ack_row m (coalesce row.sent_at at) at) s.outbox.rows)
          ≡ some (ack_row m (coalesce row.sent_at at) at row))
        (sym (row_by_id-key id s.outbox row e))
        (find-update (λ r. r.id) (λ r. r.id == id) (ack_row m (coalesce row.sent_at at) at)
          (λ r. refl) id s.outbox.rows row refl e)
      ∙ ap some (sent_with-ack_row m at row)),
  rw bots (is_bot_message-recorded row.group_id m (coalesce row.sent_at at) s.bot_messages),
)

module _ (id : ℕ) (message : Text) (at : ℕ) (actual : Bool) (clock : ℕ) (s : Ledger)
    (row : OutboxRow) where
  ack-exposes :
      row_by_id id s.outbox ≡ some row
      → Returns
          (IsExposed id (trim message) at row)
          (ack_outbox_delivery id message at actual clock s)
  unfolding ack_outbox_delivery ack_checked
  ack-exposes e =
      let P = IsExposed id (trim message) at row in
      let sent_at = coalesce row.sent_at at in
      rw e (
        Returns-bind P (throw_if (is_empty (trim message)) empty_message_id) _ λ u p.
          Returns-bind P
            (throw_if (is_other row.platform_message_id (trim message)) other_message_id) _
            λ w q.
              Returns-bind P
                (insert_recall (recall_input actual (trim message) sent_at row) clock s.recalls) _
                λ recalls i.
                  Returns-map (IsElsewhere (acked (trim message) sent_at at row recalls s)) P
                    (λ t h. acked-IsExposed id (trim message) at row recalls s t e h) _
                    (sync-IsElsewhere (acked_row (trim message) sent_at row) sent_at
                      (acked (trim message) sent_at at row recalls s)))

  ack-routes :
      (topic branch : Text)
      → row_by_id id s.outbox ≡ some row
      → truthy row.topic_id ≡ some topic
      → truthy row.branch_id ≡ some branch
      → Returns
          (IsRouted row.group_id (trim message) topic branch)
          (ack_outbox_delivery id message at actual clock s)
  unfolding ack_outbox_delivery ack_checked
  ack-routes topic branch e t b =
      let P = IsRouted row.group_id (trim message) topic branch in
      let sent_at = coalesce row.sent_at at in
      rw e (
        Returns-bind P (throw_if (is_empty (trim message)) empty_message_id) _ λ u p.
          Returns-bind P
            (throw_if (is_other row.platform_message_id (trim message)) other_message_id) _
            λ w q.
              Returns-bind P
                (insert_recall (recall_input actual (trim message) sent_at row) clock s.recalls) _
                λ recalls i.
                  sync-IsRouted (acked_row (trim message) sent_at row) topic branch (trim message)
                    sent_at (acked (trim message) sent_at at row recalls s) t b
                    (truthy-full (trim message)
                      (throw_if-passed (is_empty (trim message)) empty_message_id u p)))

-- On a row with a topic and a branch, an acknowledgement that returns has, in one transaction, left the
-- row as it was but for its status, which is sent, without a retry, with the trimmed message id, the time
-- of its first acknowledgement and that of this update, has recorded the message as one of the bot's,
-- and has bound it to that topic and branch.
pub ack_outbox_delivery_lem :
    (id : ℕ) (message : Text) (at : ℕ) (actual : Bool) (clock : ℕ) (s t : Ledger) (row : OutboxRow)
    (topic branch : Text)
    → row_by_id id s.outbox ≡ some row
    → truthy row.topic_id ≡ some topic
    → truthy row.branch_id ≡ some branch
    → ack_outbox_delivery id message at actual clock s ≡ ok t
    → IsExposed id (trim message) at row t × IsRouted row.group_id (trim message) topic branch t
ack_outbox_delivery_lem id message at actual clock s t row topic branch e h k done = (
  Returns-ok (IsExposed id (trim message) at row) _ t done
      (ack-exposes id message at actual clock s row e),
  Returns-ok (IsRouted row.group_id (trim message) topic branch) _ t done
      (ack-routes id message at actual clock s row topic branch e h k),
)

is_other-refused : (m n : Text) → is_empty m ≡ false → same m n ≡ false → is_other (some m) n ≡ true
is_other-refused m n full differ = rw (full, is_other) (rw differ refl)

-- A row acknowledged with one message refuses every other: once an acknowledgement has returned, one
-- with a different trimmed message id, which is not empty, throws.
pub ack-conflict :
    (id : ℕ) (message other : Text) (at at' : ℕ) (actual actual' : Bool) (clock clock' : ℕ)
    (s t : Ledger) (row : OutboxRow)
    → row_by_id id s.outbox ≡ some row
    → is_empty (trim message) ≡ false
    → is_empty (trim other) ≡ false
    → same (trim message) (trim other) ≡ false
    → ack_outbox_delivery id message at actual clock s ≡ ok t
    → ack_outbox_delivery id other at' actual' clock' t ≡ throws other_message_id
unfolding ack_outbox_delivery ack_row
ack-conflict id message other at at' actual actual' clock clock' s t row e full full' differ done =
    let (exposed, known) =
      Returns-ok (IsExposed id (trim message) at row) _ t done
        (ack-exposes id message at actual clock s row e) in
    rw full' (rw exposed (rw (is_other-refused (trim message) (trim other) full differ) refl))
