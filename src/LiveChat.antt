-- ===== src/LiveChat.antt =====
-- LiveChatService of src/services/live-chat-service.ts. A Map is a function, with the empty list where it
-- has no entry: the service deletes the entries that become empty, and reads a missing one as empty. A
-- timestamp is its milliseconds.
pub mod Candidates
pub mod Windows
mod Tests
use ubot_ai_agent.Base.{
  ℕ, ◌+◌, ◌*◌, ◌==◌, leb, ltb, if◌then◌else◌, Bool, true, false, not, ◌&&◌, Option, none, some,
  List, [], ◌∷◌, ◌++◌, Text, codes, same, trim, is_empty, length, filter, distinct,
}

-- BufferedMessage, without the targets and the reply context, which are carried along.
pub record BufferedMessage : Type 0 where
  pub text : Text
  pub user_id : Text
  pub timestamp : ℕ
  pub source_message_id : Option Text
  pub reply_message_id : Option Text

-- The fields of LiveChatService.
pub record LiveChat : Type 0 where
  pub buffers : Text → List BufferedMessage
  pub bot_activities : Text → List ℕ
  pub started_at : ℕ
  pub last_prune_time : ℕ

abbrev pub max_buffer_window_ms : ℕ
max_buffer_window_ms = 30 * 60 * 1000

abbrev pub build_key : Text → Text → Text
build_key group user = group ++ (codes ":" ++ user)

-- Older than the window: `timestamp < now - MAX_BUFFER_WINDOW_MS`.
abbrev pub is_old : ℕ → ℕ → Bool
is_old now timestamp = ltb (timestamp + max_buffer_window_ms) now

-- `while (messages.length > 0 && …) messages.shift()`
unfoldable pub shift_old : ℕ → List BufferedMessage → List BufferedMessage
shift_old now [] = []
shift_old now (m ∷ ms) =
    let rest = shift_old now ms in if is_old now m.timestamp then rest else m ∷ ms

unfoldable pub shift_activities : ℕ → List ℕ → List ℕ
shift_activities now [] = []
shift_activities now (t ∷ ts) =
    let rest = shift_activities now ts in if is_old now t then rest else t ∷ ts

abbrev pub with_entry {ℓ} : {A : Type ℓ} → Text → A → (Text → A) → Text → A
with_entry key value entries other = if same key other then value else entries other

unfoldable pub maybe_prune : ℕ → LiveChat → LiveChat
unfolding shift_old shift_activities
maybe_prune now s = if ltb now (s.last_prune_time + max_buffer_window_ms) then s else record s {
  buffers = λ key. shift_old now (s.buffers key);
  bot_activities = λ group. shift_activities now (s.bot_activities group);
  last_prune_time = now;
}

-- The context of a message: the ids that it may have.
pub record MessageContext : Type 0 where
  pub source_message_id : Option Text
  pub reply_message_id : Option Text

unfoldable pub message_of : Text → Text → ℕ → MessageContext → BufferedMessage
message_of user text now context = record {
  text = trim text;
  user_id = user;
  timestamp = now;
  source_message_id = context.source_message_id;
  reply_message_id = context.reply_message_id;
}

unfoldable pub push_message : Text → BufferedMessage → ℕ → LiveChat → LiveChat
unfolding shift_old maybe_prune
push_message key message now s = maybe_prune now (record s {
  buffers = with_entry key (shift_old now (s.buffers key ++ message ∷ [])) s.buffers;
})

unfoldable pub add_message : Text → Text → Text → ℕ → MessageContext → LiveChat → LiveChat
unfolding message_of push_message
add_message group user text now context s =
    if is_empty (trim text)
    then s
    else push_message (build_key group user) (message_of user text now context) now s

unfoldable pub record_bot_activity : Text → ℕ → LiveChat → LiveChat
unfolding shift_activities maybe_prune
record_bot_activity group now s = maybe_prune now (record s {
  bot_activities =
      with_entry group (shift_activities now (s.bot_activities group ++ now ∷ [])) s.bot_activities;
})

abbrev pub is_between : ℕ → ℕ → ℕ → Bool
is_between start end timestamp = leb start timestamp && leb timestamp end

unfoldable pub has_bot_activity_between : Text → ℕ → ℕ → LiveChat → Bool
has_bot_activity_between group start end s =
    not (length (filter (is_between start end) (s.bot_activities group)) == 0)

abbrev pub last_or : ℕ → List ℕ → ℕ
last_or fallback [] = fallback
last_or fallback (t ∷ ts) = last_or t ts

unfoldable pub get_last_bot_activity : Text → LiveChat → ℕ
get_last_bot_activity group s = last_or s.started_at (s.bot_activities group)

unfoldable pub get_messages_between : Text → Text → ℕ → ℕ → LiveChat → List BufferedMessage
get_messages_between group user start end s =
    filter (λ m. is_between start end m.timestamp) (s.buffers (build_key group user))

-- LiveChatWindowCandidate
pub record Candidate : Type 0 where
  pub user_id : Text
  pub messages : List BufferedMessage
  pub last_timestamp : ℕ

abbrev pub last_timestamp_of : BufferedMessage → List BufferedMessage → ℕ
last_timestamp_of m [] = m.timestamp
last_timestamp_of m (n ∷ ms) = last_timestamp_of n ms

-- What a user offers.
unfoldable pub offer : Text → List BufferedMessage → Option Candidate
offer user [] = none
offer user (m ∷ ms) =
    some (record { user_id = user; messages = m ∷ ms; last_timestamp = last_timestamp_of m ms })

-- The later of the two, the first one where they are of the same time.
abbrev pub better : Option Candidate → Option Candidate → Option Candidate
better best none = best
better none (some c) = some c
better (some b) (some c) = if ltb b.last_timestamp c.last_timestamp then some c else some b

unfoldable pub candidate_from :
    Text → ℕ → ℕ → LiveChat → Option Candidate → List Text → Option Candidate
unfolding offer get_messages_between
candidate_from group start end s best [] = best
candidate_from group start end s best (user ∷ users) =
    candidate_from group start end s
      (better best (offer user (get_messages_between group user start end s))) users

unfoldable pub get_window_candidate : Text → List Text → ℕ → ℕ → LiveChat → Option Candidate
unfolding candidate_from
get_window_candidate group users start end s = candidate_from group start end s none users

-- An entry of the pending users, with whether it is `ready`.
pub record PendingUser : Type 0 where
  pub user_id : Text
  pub message_count : ℕ
  pub is_ready : Bool

-- LiveChatRuntimeState
pub record RuntimeState : Type 0 where
  pub enabled : Bool
  pub tracked_user_count : ℕ
  pub delay_seconds : ℕ
  pub pending_users : List PendingUser

unfoldable pub pending_users_of : Bool → Text → ℕ → ℕ → LiveChat → List Text → List PendingUser
unfolding get_messages_between
pending_users_of ready group start now s [] = []
pending_users_of ready group start now s (user ∷ users) =
    let rest = pending_users_of ready group start now s users in
    let message_count = length (get_messages_between group user start now s) in
    if message_count == 0
    then rest
    else record { user_id = user; message_count = message_count; is_ready = ready } ∷ rest

unfoldable pub get_runtime_state : Text → List Text → ℕ → ℕ → LiveChat → RuntimeState
unfolding pending_users_of get_last_bot_activity
get_runtime_state group tracked delay_seconds now s =
    let users = distinct (filter (λ u. not (is_empty u)) tracked) in
    let last = get_last_bot_activity group s in
    let ready = leb (last + delay_seconds * 1000) now in
    record {
      enabled = not (length users == 0);
      tracked_user_count = length users;
      delay_seconds = delay_seconds;
      pending_users = pending_users_of ready group last now s users;
    }

unfoldable pub discard_messages_before : Text → Text → ℕ → LiveChat → LiveChat
discard_messages_before group user cutoff s =
    let key = build_key group user in
    record s {
      buffers = with_entry key (filter (λ m. ltb cutoff m.timestamp) (s.buffers key)) s.buffers;
    }
