-- ===== src/Store/Delivery/Binding.antt =====
-- A message that is bound to a conversation route stays bound to it.
use ubot_ai_agent.Base.{
  ℕ, Bool, true, false, ◌&&◌, ◌||◌, Option, none, some, List, [], ◌∷◌, ◌≡◌, refl, ap, sym, subst,
  ◌⊎◌, inl, inr, Text, same_iff, trim, is_empty, coalesce, coalesce?, any, found_passes,
  find-append, ok, throw_if, Returns, Returns-bind, Returns-ok, throw_if-passed, arith, Bool-cases,
  Option-cases,
}
use ubot_ai_agent.Base.Updates.{update}
use ubot_ai_agent.Store.Numbers.{
  delivery_id_of, missing_outbox_row, other_message_id, turn_required, other_route,
  other_delivery_id, other_context, empty_message_id,
}
use ubot_ai_agent.Store.Outbox.{OutboxRow, Context, attach_row}
use ubot_ai_agent.Store.Delivery.{
  ContextRow, Ledger, truthy, is_other, is_other_turn, is_context, context_of, is_bound_elsewhere,
  rebind, put_context, bind_message, sync_outbox_conversation_context, row_by_id, required,
  insert_recall, recall_input, acked_row, acked, attached, ack_checked, ack_outbox_delivery,
  find_outbox_by_delivery_id, attach_one_outbox_context, attach_each, normalized_ids,
  attach_normalized, attach_outbox_contexts,
}

-- A turn that is known is the same afterwards.
abbrev pub KeepsTurn : Option ℕ → Option ℕ → Type 0
KeepsTurn none after = Unit
KeepsTurn (some i) after = after ≡ some i

KeepsTurn-coalesce? :
    (known after turn : Option ℕ) → KeepsTurn known after → KeepsTurn known (coalesce? after turn)
KeepsTurn-coalesce? none after turn h = tt
KeepsTurn-coalesce? (some i) after turn h = rw h refl

KeepsTurn-refl : (known : Option ℕ) → KeepsTurn known known
KeepsTurn-refl none = tt
KeepsTurn-refl (some i) = refl

-- The second row has the first one's route, and its turn if that is known.
abbrev pub Extends : ContextRow → ContextRow → Type 0
Extends c d =
    (d.topic_id ≡ c.topic_id) × (d.branch_id ≡ c.branch_id) × KeepsTurn c.turn_id d.turn_id

-- The message has a binding that extends `c`.
abbrev pub IsBound : Text → Text → ContextRow → Ledger → Type 0
IsBound g m c s = (d : ContextRow) × (context_of g m s.contexts ≡ some d) × Extends c d

rebind-context :
    (a b g m topic branch : Text) (turn : Option ℕ) (cs : List ContextRow) (c : ContextRow)
    → context_of g m cs ≡ some c
    → (d : ContextRow) × (context_of g m (update (is_context a b) (rebind topic branch turn) cs)
        ≡ some d)
      × ((d ≡ c) ⊎ ((is_context a b c ≡ true) × (d ≡ rebind topic branch turn c)))
unfolding rebind
rebind-context a b g m topic branch turn [] c e = cc
rebind-context a b g m topic branch turn (x ∷ xs) c e = elim (Bool-cases (is_context g m x)) [
  | inl hit ↦
      let found : x ≡ c = ground arith in
      elim (Bool-cases (is_context a b x)) [
        | inl own ↦ rw own (
            rw hit (
              rebind topic branch turn x,
              refl,
              inr (rw (← found) own, ap (rebind topic branch turn) found),
            ))
        | inr apart ↦ rw apart (rw hit (x, refl, inl found))
      ]
  | inr miss ↦
      let (d, at, fits) = rebind-context a b g m topic branch turn xs c (ground arith) in
      elim (Bool-cases (is_context a b x)) [
        | inl own ↦ rw own (rw miss (d, at, fits))
        | inr apart ↦ rw apart (rw miss (d, at, fits))
      ]
]

rebind-Extends :
    (c d : ContextRow) (topic branch : Text) (turn : Option ℕ)
    → is_bound_elsewhere topic branch turn (some d) ≡ false
    → Extends c d
    → Extends c (rebind topic branch turn d)
unfolding rebind
rebind-Extends c d topic branch turn free (t, b, i) = (
  ground (arith, same_iff d.topic_id topic),
  ground (arith, same_iff d.branch_id branch),
  KeepsTurn-coalesce? c.turn_id d.turn_id turn i,
)

Extends-refl : (c : ContextRow) → Extends c c
Extends-refl c = (refl, refl, KeepsTurn-refl c.turn_id)

-- A row that both tests find has the key of both.
one_key :
    (a b g m : Text) (d : ContextRow)
    → is_context a b d ≡ true
    → is_context g m d ≡ true
    → (a ≡ g) × (b ≡ m)
one_key a b g m d h k = (
  ground (arith, same_iff d.group_id a, same_iff d.group_id g),
  ground (arith, same_iff d.platform_message_id b, same_iff d.platform_message_id m),
)

module _ (g m : Text) (c : ContextRow) where
  put_context-IsBound :
      (row : OutboxRow) (topic branch message : Text) (at : ℕ) (cs : List ContextRow)
      (d : ContextRow)
      → is_bound_elsewhere topic branch row.turn_id (context_of row.group_id message cs) ≡ false
      → context_of g m cs ≡ some d
      → Extends c d
      → (d' : ContextRow) × (context_of g m (put_context row topic branch message at cs) ≡ some d')
        × Extends c d'
  unfolding put_context
  put_context-IsBound row topic branch message at cs d free e x =
      elim (Bool-cases (any (is_context row.group_id message) cs)) [
        | inr new ↦ rw (new, put_context) (d, find-append (is_context g m) cs _ d e, x)
        | inl old ↦
            rw (old, put_context)
              (let (d', e', fits) =
                  rebind-context row.group_id message g m topic branch row.turn_id cs d e in
                (
                  d',
                  e',
                  elim fits [
                    | inl kept ↦ subst (Extends c) (sym kept) x
                    | inr (own, rebound) ↦
                        let (k, l) =
                          one_key row.group_id message g m d own
                            (found_passes (is_context g m) cs d e) in
                        let here : context_of row.group_id message cs ≡ some d = rw (k, l) e in
                        subst (Extends c) (sym rebound) (
                          rebind-Extends c d topic branch row.turn_id
                            (subst (λ o. is_bound_elsewhere topic branch row.turn_id o ≡ false) here
                              free)
                            x)
                  ],
                ))
      ]

  bind_message-IsBound :
      (row : OutboxRow) (topic branch message : Text) (at : ℕ) (s : Ledger)
      → IsBound g m c s
      → Returns (IsBound g m c) (bind_message row topic branch message at s)
  unfolding bind_message
  bind_message-IsBound row topic branch message at s (d, here, x) =
      let elsewhere =
        is_bound_elsewhere topic branch row.turn_id (context_of row.group_id message s.contexts) in
      Returns-bind (IsBound g m c) (throw_if elsewhere other_context) _ λ u e.
        put_context-IsBound row topic branch message at s.contexts d
          (throw_if-passed elsewhere other_context u e) here x

  sync-IsBound :
      (row : OutboxRow) (at : ℕ) (s : Ledger)
      → IsBound g m c s
      → Returns (IsBound g m c) (sync_outbox_conversation_context row at s)
  unfolding sync_outbox_conversation_context
  sync-IsBound row at s v = elim (Option-cases (truthy row.topic_id)) [
    | inl n ↦ rw (n, sync_outbox_conversation_context) v
    | inr (topic, t) ↦
        rw (t, sync_outbox_conversation_context)
          (elim (Option-cases (truthy row.branch_id)) [
            | inl n ↦ rw (n, sync_outbox_conversation_context) v
            | inr (branch, b) ↦
                rw (b, sync_outbox_conversation_context)
                  (elim (Option-cases (truthy row.platform_message_id)) [
                    | inl n ↦ rw (n, sync_outbox_conversation_context) v
                    | inr (message, p) ↦
                        rw (p, sync_outbox_conversation_context)
                          (bind_message-IsBound row topic branch message at s v)
                  ])
          ])
  ]

  ack-IsBound :
      (id : ℕ) (message : Text) (sent_at : ℕ) (actual : Bool) (clock : ℕ) (s : Ledger)
      → IsBound g m c s
      → Returns (IsBound g m c) (ack_outbox_delivery id message sent_at actual clock s)
  unfolding ack_outbox_delivery ack_checked acked
  ack-IsBound id message sent_at actual clock s v =
      Returns-bind (IsBound g m c) (throw_if (is_empty (trim message)) empty_message_id) _ λ u p.
        Returns-bind (IsBound g m c) (required missing_outbox_row (row_by_id id s.outbox)) _
          λ row r.
            Returns-bind (IsBound g m c)
              (throw_if (is_other row.platform_message_id (trim message)) other_message_id) _
              λ w q.
                Returns-bind (IsBound g m c)
                  (insert_recall
                    (recall_input actual (trim message) (coalesce row.sent_at sent_at) row) clock
                    s.recalls)
                  _
                  λ recalls i.
                    let at = coalesce row.sent_at sent_at in
                    sync-IsBound (acked_row (trim message) at row) at
                      (acked (trim message) at sent_at row recalls s) v

  attach_one-IsBound :
      (context : Context) (clock : ℕ) (delivery_id : Text) (s : Ledger)
      → IsBound g m c s
      → Returns (IsBound g m c) (attach_one_outbox_context context clock delivery_id s)
  unfolding attach_one_outbox_context attached
  attach_one-IsBound context clock delivery_id s v =
      Returns-bind (IsBound g m c)
        (required missing_outbox_row (find_outbox_by_delivery_id delivery_id s.outbox)) _
        λ row r.
          Returns-bind (IsBound g m c)
            (throw_if
              (is_other row.topic_id context.topic_id
                || (is_other row.branch_id context.branch_id
                    || is_other_turn row.turn_id context.turn_id))
              other_route)
            _
            λ u p.
              Returns-bind (IsBound g m c)
                (throw_if
                  (is_other row.delivery_id delivery_id
                    && is_other row.delivery_id (delivery_id_of row.id))
                  other_delivery_id)
                _
                λ w q.
                  let attached_row = attach_row (delivery_id_of row.id) context clock row in
                  sync-IsBound attached_row (coalesce attached_row.sent_at clock)
                    (attached context clock row s) v

  attach_each-IsBound :
      (context : Context) (clock : ℕ) (ids : List Text) (s : Ledger)
      → IsBound g m c s
      → Returns (IsBound g m c) (attach_each context clock ids s)
  unfolding attach_each
  attach_each-IsBound context clock [] s v = v
  attach_each-IsBound context clock (d ∷ ds) s v =
      Returns-bind (IsBound g m c) (attach_one_outbox_context context clock d s) _ λ t e.
        attach_each-IsBound context clock ds t
          (Returns-ok (IsBound g m c) _ t e (attach_one-IsBound context clock d s v))

  attach_normalized-IsBound :
      (context : Context) (clock : ℕ) (ids : List Text) (s : Ledger)
      → IsBound g m c s
      → Returns (IsBound g m c) (attach_normalized context clock ids s)
  unfolding attach_normalized
  attach_normalized-IsBound context clock [] s v = v
  attach_normalized-IsBound context clock (d ∷ ds) s v =
      Returns-bind (IsBound g m c)
        (throw_if (elim context.turn_id [ none ↦ true | some _ ↦ false ]) turn_required) _
        λ u e. attach_each-IsBound context clock (d ∷ ds) s v

-- A message that is bound to a topic and a branch stays bound to them in every acknowledgement and
-- every attachment that returns, and a turn that is known for it stays.
pub binding_stays :
    (g m : Text) (c : ContextRow) (s t u : Ledger) (id : ℕ) (message : Text) (sent_at : ℕ)
    (actual : Bool) (clock : ℕ) (ids : List Text) (context : Context)
    → context_of g m s.contexts ≡ some c
    → ack_outbox_delivery id message sent_at actual clock s ≡ ok t
    → attach_outbox_contexts ids context clock s ≡ ok u
    → IsBound g m c t × IsBound g m c u
unfolding attach_outbox_contexts
binding_stays g m c s t u id message sent_at actual clock ids context e acked attached =
    let v : IsBound g m c s = (c, e, Extends-refl c) in
    (
      Returns-ok (IsBound g m c) _ t acked (ack-IsBound g m c id message sent_at actual clock s v),
      Returns-ok (IsBound g m c) _ u attached
          (attach_normalized-IsBound g m c context clock (normalized_ids ids) s v),
    )
