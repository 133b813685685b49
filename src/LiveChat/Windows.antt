-- ===== src/LiveChat/Windows.antt =====
-- What a new message leaves of the buffers.
use ubot_ai_agent.Base.{
  ℕ, ◌+◌, ◌≤◌, ◌≡◌, refl, ap, ◌∙◌, inl, inr, ltb, if◌then◌else◌, false, List, [], ◌∷◌, ◌++◌, Text,
  same, trim, is_empty, filter, Bool-cases, arith,
}
use ubot_ai_agent.LiveChat.{
  LiveChat, BufferedMessage, MessageContext, is_old, is_between, max_buffer_window_ms, build_key,
  shift_old, maybe_prune, message_of, push_message, add_message, get_messages_between,
}

module _ (start end now : ℕ) (inside : now ≤ start + max_buffer_window_ms) where
  -- Between the start and the end.
  abbrev within : List BufferedMessage → List BufferedMessage
  within = filter (λ m. is_between start end m.timestamp)

  within-shift_old : (ms : List BufferedMessage) → within (shift_old now ms) ≡ within ms
  unfolding shift_old
  within-shift_old [] = refl
  within-shift_old (m ∷ ms) = elim (Bool-cases (is_old now m.timestamp)) [
    | inl e ↦
        let early : is_between start end m.timestamp ≡ false = ground (arith, e, inside) in
        rw (e, early) (within-shift_old ms)
    | inr e ↦ rw e refl
  ]

  within-append :
      (ms : List BufferedMessage) (m : BufferedMessage)
      → within (ms ++ m ∷ []) ≡ within ms ++ within (m ∷ [])
  within-append [] m = refl
  within-append (x ∷ ms) m = elim (Bool-cases (is_between start end x.timestamp)) [
    | inl e ↦ rw e (ap (◌∷◌ x) (within-append ms m))
    | inr e ↦ rw e (within-append ms m)
  ]

  within-maybe_prune :
      (s : LiveChat) (key : Text)
      → within ((maybe_prune now s).buffers key) ≡ within (s.buffers key)
  unfolding maybe_prune
  within-maybe_prune s key =
      elim (Bool-cases (ltb now (s.last_prune_time + max_buffer_window_ms))) [
        | inl e ↦ rw e refl
        | inr e ↦ rw e (within-shift_old (s.buffers key))
      ]

  within-push_message :
      (key other : Text) (m : BufferedMessage) (s : LiveChat)
      → within ((push_message key m now s).buffers other) ≡ (
          if same key other
          then within (s.buffers key) ++ within (m ∷ [])
          else within (s.buffers other))
  unfolding push_message
  within-push_message key other m s =
      within-maybe_prune _ other ∙ elim (Bool-cases (same key other)) [
        | inl e ↦
            rw e (within-shift_old (s.buffers key ++ m ∷ []) ∙ within-append (s.buffers key) m)
        | inr e ↦ rw e refl
      ]

  -- The message as it is kept.
  abbrev pub said : Text → Text → MessageContext → BufferedMessage
  said user text context = record {
    text = trim text;
    user_id = user;
    timestamp = now;
    source_message_id = context.source_message_id;
    reply_message_id = context.reply_message_id;
  }

  -- A message with text that is added at some time: of the messages from at most thirty minutes before
  -- on, the user's are what they were, with the message behind them where it is within the end, and
  -- those under every other key are what they were.
  pub get_messages_between-add_message :
      (group user text : Text) (context : MessageContext) (s : LiveChat)
      → is_empty (trim text) ≡ false
      → (group' user' : Text)
      → get_messages_between group' user' start end (add_message group user text now context s) ≡ (
          if same (build_key group user) (build_key group' user')
          then get_messages_between group user start end s ++ within (said user text context ∷ [])
          else get_messages_between group' user' start end s)
  unfolding get_messages_between add_message message_of
  get_messages_between-add_message group user text context s written group' user' =
      let added : add_message group user text now context s
          ≡ push_message (build_key group user) (message_of user text now context) now s =
        rw (written, add_message) refl in
      ap (λ x. within (x.buffers (build_key group' user'))) added
      ∙ within-push_message (build_key group user) (build_key group' user')
          (message_of user text now context) s
