-- ===== src/Reply/Format.antt =====
-- `formatReplyMessages` of src/utils/reply-format.ts and the functions behind it.
pub mod Bounds
use ubot_ai_agent.Base.{
  ℕ, ◌+◌, ◌-◌, min, ◌==◌, ltb, leb, if◌then◌else◌, Bool, true, false, not, ◌&&◌, ◌||◌, Option, List,
  [], ◌∷◌, ◌++◌, map, Text, codes, trim, is_empty, starts_with, length, take, any,
}
use ubot_ai_agent.Reply.Options.{
  Skill, Behavior, Budget, get_reply_behavior_options, apply_reply_format_budget,
}
use ubot_ai_agent.Reply.Pieces.{
  filled, is_one_of, finalize_message, chunk_long_sentence, SentenceUnit, split_into_sentence_units,
}
use ubot_ai_agent.Reply.Cleanup.{sanitize_reply}

abbrev pub chunk_all : ℕ → List Text → List Text
chunk_all max_chars [] = []
chunk_all max_chars (s ∷ ss) = chunk_long_sentence s max_chars ++ chunk_all max_chars ss

-- `.map(finalizeMessage).filter(Boolean).slice(0, maxMessages)`
unfoldable pub finish_all : ℕ → Bool → List Text → List Text
finish_all max_messages strip messages =
    take max_messages (filled (map (finalize_message strip) messages))

unfoldable pub format_single_sentence_messages : Text → ℕ → ℕ → Bool → Bool → List Text
unfolding finish_all
format_single_sentence_messages text max_chars max_messages strip respect_line_breaks =
    let messages = finish_all max_messages strip (
      chunk_all max_chars
        (map (λ u. u.text) (split_into_sentence_units text respect_line_breaks))) in
    if ltb 0 (length messages)
    then messages
    else finish_all max_messages strip (chunk_long_sentence text max_chars)

-- The variables of the loop in `groupSentencesIntoMessages`.
pub record Groups : Type 0 where
  pub messages : List Text
  pub current : Text

-- `messages.push(finalizeMessage(current, …)); current = ""`
unfoldable pub push_current : Bool → Groups → Groups
push_current strip g = record {
  messages = g.messages ++ finalize_message strip g.current ∷ [];
  current = [];
}

-- A group ends where its line ends.
unfoldable pub end_line : Bool → SentenceUnit → Groups → Groups
unfolding push_current
end_line strip u g = if u.hard_break_after then push_current strip g else g

unfoldable pub push_chunks : ℕ → Bool → List Text → List Text → List Text
push_chunks max_messages strip messages [] = messages
push_chunks max_messages strip messages (chunk ∷ chunks) =
    let rest =
      push_chunks max_messages strip (messages ++ finalize_message strip chunk ∷ []) chunks in
    if leb max_messages (length messages) then messages else rest

-- One round: the variables behind it, and whether it breaks off the loop.
unfoldable pub group_sentence : ℕ → ℕ → Bool → SentenceUnit → Groups → Groups × Bool
unfolding push_current end_line push_chunks
group_sentence max_chars max_messages strip u g =
    let clean_sentence = finalize_message strip (trim u.text) in
    let candidate = trim (g.current ++ 32 ∷ clean_sentence) in
    let pushed = if is_empty g.current then g else push_current strip g in
    let next = end_line strip u (record (push_current strip g) { current = clean_sentence }) in
    if is_empty clean_sentence
    then (g, false)
    else if ltb max_chars (length clean_sentence)
    then (
      record pushed {
        messages =
            push_chunks max_messages strip pushed.messages
              (chunk_long_sentence clean_sentence max_chars);
      },
      false,
    )
    else if is_empty g.current
    then (end_line strip u (record g { current = clean_sentence }), false)
    else if leb (length candidate) max_chars
    then (end_line strip u (record g { current = candidate }), false)
    else (next, leb max_messages (length next.messages))

unfoldable pub group_loop : ℕ → ℕ → Bool → List SentenceUnit → Groups → Groups
unfolding group_sentence
group_loop max_chars max_messages strip [] g = g
group_loop max_chars max_messages strip (u ∷ us) g =
    let (next, stops) = group_sentence max_chars max_messages strip u g in
    let rest = group_loop max_chars max_messages strip us next in if stops then next else rest

unfoldable pub last_group : ℕ → Bool → Groups → List Text
unfolding push_current
last_group max_messages strip g =
    if not (is_empty g.current) && ltb (length g.messages) max_messages
    then (push_current strip g).messages
    else g.messages

unfoldable pub group_units : Text → ℕ → ℕ → Bool → List SentenceUnit → List Text
unfolding finish_all group_loop last_group
group_units text max_chars max_messages strip [] =
    finish_all max_messages strip (chunk_long_sentence text max_chars)
group_units text max_chars max_messages strip (u ∷ us) = take max_messages (
    filled (
      last_group max_messages strip (
        group_loop max_chars max_messages strip (u ∷ us) (record { messages = []; current = [] }))))

unfoldable pub group_sentences_into_messages : Text → ℕ → ℕ → Bool → Bool → List Text
unfolding group_units
group_sentences_into_messages text max_chars max_messages strip respect_line_breaks =
    group_units text max_chars max_messages strip
      (split_into_sentence_units text respect_line_breaks)

abbrev pub first_text : List Text → Text
first_text [] = []
first_text (s ∷ ss) = s

unfoldable pub shorten_to_complete_thought : Text → ℕ → ℕ → Bool → Text
shorten_to_complete_thought text limit max_chars strip =
    let finalized = finalize_message strip text in
    if limit == 0
    then []
    else if leb (length finalized) limit
    then finalized
    else first_text (
        filled (map (finalize_message strip) (chunk_long_sentence finalized (min limit max_chars))))

-- The loop of `fitMessagesWithinBudget`, with what it has pushed in front of what follows.
unfoldable pub fit_messages : ℕ → ℕ → Bool → ℕ → List Text → List Text
unfolding shorten_to_complete_thought
fit_messages max_total max_chars strip used [] = []
fit_messages max_total max_chars strip used (message ∷ messages) =
    let clean_message = finalize_message strip message in
    let skipped = fit_messages max_total max_chars strip used messages in
    let kept = fit_messages max_total max_chars strip (used + length clean_message) messages in
    if is_empty clean_message
    then skipped
    else if leb (used + length clean_message) max_total
    then clean_message ∷ kept
    else filled (shorten_to_complete_thought clean_message (max_total - used) max_chars strip ∷ [])

-- `text.includes(word)`
unfoldable pub has_word : Text → Text → Bool
has_word word [] = starts_with [] word
has_word word (c ∷ s) = starts_with (c ∷ s) word || has_word word s

-- `/[!！？]{2,}/`
unfoldable pub has_double_mark : Text → Bool
has_double_mark [] = false
has_double_mark (c ∷ []) = false
has_double_mark (c ∷ d ∷ s) =
    (is_one_of (codes "!！？") c && is_one_of (codes "!！？") d) || has_double_mark (d ∷ s)

abbrev pub emotion_words : List Text
emotion_words =
    codes "哈哈哈"
    ∷ codes "蚌埠"
    ∷ codes "妈的"
    ∷ codes "几把"
    ∷ codes "煞笔"
    ∷ codes "傻逼"
    ∷ codes "废物"
    ∷ codes "狗叫"
    ∷ codes "气死"
    ∷ codes "难受"
    ∷ codes "破防"
    ∷ codes "真烦"
    ∷ codes "真恶心"
    ∷ []

unfoldable pub should_allow_burst_messages : Text → Behavior → Bool
unfolding has_word has_double_mark
should_allow_burst_messages text behavior =
    behavior.allow_burst_on_high_emotion
    && (has_double_mark text
        || any (λ word. has_word word text) emotion_words
        || any (λ word. not (is_empty word) && has_word word text) behavior.high_emotion_keywords)

unfoldable pub message_limit : Behavior → Text → ℕ
unfolding should_allow_burst_messages
message_limit behavior sanitized =
    if should_allow_burst_messages sanitized behavior
    then behavior.max_messages
    else behavior.preferred_max_messages

unfoldable pub raw_messages : Behavior → ℕ → Text → List Text
unfolding format_single_sentence_messages group_sentences_into_messages
raw_messages behavior max_messages sanitized =
    if behavior.single_sentence_per_message
    then format_single_sentence_messages sanitized behavior.max_chars max_messages
        behavior.strip_terminal_punctuation behavior.respect_line_breaks
    else group_sentences_into_messages sanitized behavior.max_chars max_messages
        behavior.strip_terminal_punctuation behavior.respect_line_breaks

-- What follows `sanitizeReply`.
unfoldable pub format_sanitized : Behavior → Text → List Text
unfolding message_limit raw_messages fit_messages
format_sanitized behavior sanitized =
    if is_empty sanitized
    then []
    else fit_messages behavior.max_total_chars behavior.max_chars
        behavior.strip_terminal_punctuation 0
        (raw_messages behavior (message_limit behavior sanitized) sanitized)

unfoldable pub format_reply_messages : Skill → Text → Option Budget → List Text
unfolding get_reply_behavior_options apply_reply_format_budget sanitize_reply format_sanitized
format_reply_messages skill reply_text budget =
    let behavior = apply_reply_format_budget (get_reply_behavior_options skill) budget in
    format_sanitized behavior
      (sanitize_reply reply_text behavior.strip_asterisks behavior.respect_line_breaks)
