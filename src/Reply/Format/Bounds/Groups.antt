-- ===== src/Reply/Format/Bounds/Groups.antt =====
-- The messages that sentences are grouped into.
use ubot_ai_agent.Base.{
  ℕ, ◌≤◌, ◌<◌, ltb, leb, Bool, not, ◌&&◌, List, [], ◌∷◌, ◌++◌, map, inl, inr, Text, trim, is_empty,
  length, length-take-le, All, All-map, All-filter, All-append, All-take, All-of_map, arith,
  Bool-cases,
}
use ubot_ai_agent.Reply.Pieces.{filled, finalize_message, SentenceUnit, split_into_sentence_units}
use ubot_ai_agent.Reply.Pieces.Bounds.{Fits, length-finalize_message-le, chunk_long_sentence-Fits}
use ubot_ai_agent.Reply.Format.{
  chunk_all, finish_all, Groups, push_current, end_line, push_chunks, group_sentence, group_loop,
  last_group, group_units, group_sentences_into_messages, format_single_sentence_messages,
}

module _ (n : ℕ) where
  pub finalized-Fits :
      (strip : Bool) (ss : List Text)
      → All (Fits n) ss
      → All (Fits n) (map (finalize_message strip) ss)
  finalized-Fits strip ss h =
      All-of_map (Fits n) (finalize_message strip) ss
        (All-map (Fits n) _ (λ s k. omega (arith, k, length-finalize_message-le strip s)) ss h)

  pub filled-Fits : (ss : List Text) → All (Fits n) ss → All (Fits n) (filled ss)
  filled-Fits ss h = All-filter (Fits n) (Fits n) _ (λ s e k. k) ss h

  pub finish_all-Fits :
      (max_messages : ℕ) (strip : Bool) (ss : List Text)
      → All (Fits n) ss
      → All (Fits n) (finish_all max_messages strip ss)
  unfolding finish_all
  finish_all-Fits max_messages strip ss h =
      All-take (Fits n) max_messages _ (filled-Fits _ (finalized-Fits strip ss h))

  pub finish_all_count :
      (max_messages : ℕ) (strip : Bool) (ss : List Text)
      → length (finish_all max_messages strip ss) ≤ max_messages
  unfolding finish_all
  finish_all_count max_messages strip ss = length-take-le max_messages _

-- No message is longer than the limit, and there are no more of them than asked for.
abbrev pub AreRaw : ℕ → ℕ → List Text → Type 0
AreRaw max_chars max_messages messages =
    All (Fits max_chars) messages × (length messages ≤ max_messages)

-- The invariant of the loop.
module _ (max_chars max_messages : ℕ) (strip : Bool) (pos : 0 < max_chars) where
  pub chunk_all-Fits : (ss : List Text) → All (Fits max_chars) (chunk_all max_chars ss)
  chunk_all-Fits [] = tt
  chunk_all-Fits (s ∷ ss) =
      All-append (Fits max_chars) _ _ (chunk_long_sentence-Fits s max_chars pos) (chunk_all-Fits ss)

  abbrev AreGroups : Groups → Type 0
  AreGroups g = All (Fits max_chars) g.messages × (length g.current ≤ max_chars)

  push_current-AreGroups : (g : Groups) → AreGroups g → AreGroups (push_current strip g)
  unfolding push_current
  push_current-AreGroups g h = (
    All-append (Fits max_chars) g.messages _ h.0
        (omega (arith, h.1, length-finalize_message-le strip g.current), tt),
    omega arith,
  )

  end_line-AreGroups :
      (u : SentenceUnit) (g : Groups) → AreGroups g → AreGroups (end_line strip u g)
  unfolding end_line
  end_line-AreGroups u g h = elim (Bool-cases u.hard_break_after) [
    | inl e ↦ rw e (push_current-AreGroups g h)
    | inr e ↦ rw e h
  ]

  push_chunks-Fits :
      (messages chunks : List Text)
      → All (Fits max_chars) messages
      → All (Fits max_chars) chunks
      → All (Fits max_chars) (push_chunks max_messages strip messages chunks)
  unfolding push_chunks
  push_chunks-Fits messages [] h k = h
  push_chunks-Fits messages (c ∷ cs) h k = elim (Bool-cases (leb max_messages (length messages))) [
    | inl e ↦ rw e h
    | inr e ↦ rw e (
        push_chunks-Fits (messages ++ finalize_message strip c ∷ []) cs
          (All-append (Fits max_chars) messages _ h
            (omega (arith, k.0, length-finalize_message-le strip c), tt))
          k.1)
  ]

  group_sentence-AreGroups :
      (u : SentenceUnit) (g : Groups)
      → AreGroups g
      → AreGroups (group_sentence max_chars max_messages strip u g).0
  unfolding group_sentence
  group_sentence-AreGroups u g h =
      let clean = finalize_message strip (trim u.text) in
      elim (Bool-cases (is_empty clean)) [
        | inl e ↦ rw e h
        | inr e ↦ rw e (elim (Bool-cases (ltb max_chars (length clean))) [
          | inl long ↦ rw long (elim (Bool-cases (is_empty g.current)) [
            | inl none_yet ↦ rw none_yet (
              push_chunks-Fits g.messages _ h.0 (chunk_long_sentence-Fits clean max_chars pos),
              h.1,
            )
            | inr some_yet ↦
                let pushed = push_current-AreGroups g h in
                rw some_yet (
                  push_chunks-Fits (push_current strip g).messages _ pushed.0
                      (chunk_long_sentence-Fits clean max_chars pos),
                  pushed.1,
                )
          ])
          | inr short ↦ rw short (elim (Bool-cases (is_empty g.current)) [
            | inl none_yet ↦
                rw none_yet
                  (end_line-AreGroups u (record g { current = clean }) (h.0, ground arith))
            | inr some_yet ↦ rw some_yet (
                let candidate = trim (g.current ++ 32 ∷ clean) in
                elim (Bool-cases (leb (length candidate) max_chars)) [
                  | inl room ↦
                      rw room (
                        end_line-AreGroups u (record g { current = candidate }) (h.0, ground arith))
                  | inr full ↦ rw full (
                      end_line-AreGroups u (record (push_current strip g) { current = clean })
                        ((push_current-AreGroups g h).0, ground arith))
                ])
          ])
        ])
      ]

  group_loop-AreGroups :
      (us : List SentenceUnit) (g : Groups)
      → AreGroups g
      → AreGroups (group_loop max_chars max_messages strip us g)
  unfolding group_loop
  group_loop-AreGroups [] g h = h
  group_loop-AreGroups (u ∷ us) g h =
      let next = group_sentence-AreGroups u g h in
      elim (Bool-cases (group_sentence max_chars max_messages strip u g).1) [
        | inl e ↦ rw e next
        | inr e ↦ rw e (group_loop-AreGroups us _ next)
      ]

  last_group-Fits :
      (g : Groups) → AreGroups g → All (Fits max_chars) (last_group max_messages strip g)
  unfolding last_group
  last_group-Fits g h =
      elim (Bool-cases (not (is_empty g.current) && ltb (length g.messages) max_messages)) [
        | inl e ↦ rw e (push_current-AreGroups g h).0
        | inr e ↦ rw e h.0
      ]

  finish_all-AreRaw :
      (ss : List Text)
      → All (Fits max_chars) ss
      → AreRaw max_chars max_messages (finish_all max_messages strip ss)
  finish_all-AreRaw ss h = (
    finish_all-Fits max_chars max_messages strip ss h,
    finish_all_count max_chars max_messages strip ss,
  )

  group_units-AreRaw :
      (text : Text) (us : List SentenceUnit)
      → AreRaw max_chars max_messages (group_units text max_chars max_messages strip us)
  unfolding group_units
  group_units-AreRaw text [] = finish_all-AreRaw _ (chunk_long_sentence-Fits text max_chars pos)
  group_units-AreRaw text (u ∷ us) = (
    All-take (Fits max_chars) max_messages _ (
        filled-Fits max_chars _ (
          last_group-Fits _ (
            group_loop-AreGroups (u ∷ us) (record { messages = []; current = [] })
              (tt, omega arith)))),
    length-take-le max_messages _,
  )

  pub groups-AreRaw :
      (text : Text) (respect : Bool)
      → AreRaw max_chars max_messages
          (group_sentences_into_messages text max_chars max_messages strip respect)
  unfolding group_sentences_into_messages
  groups-AreRaw text respect = group_units-AreRaw text (split_into_sentence_units text respect)

  pub single-AreRaw :
      (text : Text) (respect : Bool)
      → AreRaw max_chars max_messages
          (format_single_sentence_messages text max_chars max_messages strip respect)
  unfolding format_single_sentence_messages
  single-AreRaw text respect =
      let sentences = map (λ (u : SentenceUnit). u.text) (split_into_sentence_units text respect) in
      elim (Bool-cases
        (ltb 0 (length (finish_all max_messages strip (chunk_all max_chars sentences))))) [
          | inl some_left ↦ rw some_left (finish_all-AreRaw _ (chunk_all-Fits sentences))
          | inr none_left ↦
              rw none_left (finish_all-AreRaw _ (chunk_long_sentence-Fits text max_chars pos))
        ]
