-- ===== src/Store/Messages.antt =====
-- The `messages` table of src/shared/sqlite.ts: what ingress writes and workers poll.
-- Rows stand in the order of their AUTOINCREMENT id. The JSON column of verified mentions holds the
-- list that is stringified into it.
pub mod Ingest
pub mod DedupKey
mod Tests
use ubot_ai_agent.Base.{
  ℕ, suc, ◌==◌, leb, ltb, if◌then◌else◌, Bool, true, false, ◌&&◌, Option, none, some, List, [], ◌∷◌,
  ◌++◌, Text, codes, same, trim, lower, is_digit, is_empty, distinct, coalesce, map, filter, any,
  all, length, take, count,
}
use ubot_ai_agent.Base.Updates.{update}

pub record MessageRow : Type 0 where
  pub id : ℕ
  pub group_id : Text
  pub user_id : Text
  pub self_id : Text
  pub msg_id : Text
  pub msg_time : ℕ
  pub text : Text
  pub images_json : Text
  pub sender_card : Option Text
  pub sender_nickname : Option Text
  pub sender_role : Option Text
  pub reply_to : Option Text
  pub verified_mention_user_ids : List Text
  pub has_at_bot : Bool
  pub is_bot_msg : Bool
  pub processable : Bool
  pub drop_reason : Option Text
  pub created_at : ℕ
  pub dedup_key : Text

-- The argument of `insertMessage`; an absent property is `none`.
pub record NewMessage : Type 0 where
  pub group_id : Text
  pub user_id : Text
  pub self_id : Text
  pub msg_id : Text
  pub msg_time : ℕ
  pub text : Text
  pub images_json : Text
  pub sender_card : Option Text
  pub sender_nickname : Option Text
  pub sender_role : Option Text
  pub reply_to : Option Text
  pub verified_mention_user_ids : Option (List Text)
  pub has_at_bot : Bool
  pub is_bot_msg : Bool
  pub processable : Option Bool
  pub drop_reason : Option Text
  pub created_at : ℕ

-- `sequence` is the largest id that AUTOINCREMENT has given out.
pub record Messages : Type 0 where
  pub rows : List MessageRow
  pub sequence : ℕ

pub empty : Messages
empty = record { rows = []; sequence = 0 }

non_empty : Text → Option Text
non_empty t = if is_empty t then none else some t

pub normalize_optional_text : Option Text → Option Text
unfolding non_empty
normalize_optional_text none = none
normalize_optional_text (some value) = non_empty (trim value)

known_role : Text → Option Text
known_role r =
    if same r (codes "owner")
    then some r
    else if same r (codes "admin")
    then some r
    else if same r (codes "member")
    then some r
    else none

pub normalize_sender_role : Option Text → Option Text
unfolding known_role
normalize_sender_role none = none
normalize_sender_role (some value) = known_role (lower (trim value))

-- /^\d{5,12}$/
pub is_user_id : Text → Bool
is_user_id t = all is_digit t && leb 5 (length t) && leb (length t) 12

pub normalize_verified_mention_user_ids : Option (List Text) → List Text
unfolding is_user_id
normalize_verified_mention_user_ids values =
    distinct (filter is_user_id (map trim (coalesce values [])))

pub dedup_key_of : Text → Text → Text → Text
dedup_key_of self_id group_id msg_id = self_id ++ (b':' ∷ (group_id ++ (b':' ∷ msg_id)))

key_of : NewMessage → Text
unfolding dedup_key_of
key_of m = dedup_key_of m.self_id m.group_id m.msg_id

pub row_of : ℕ → NewMessage → MessageRow
unfolding key_of normalize_optional_text normalize_sender_role normalize_verified_mention_user_ids
row_of id m = record {
  id = id;
  group_id = m.group_id;
  user_id = m.user_id;
  self_id = m.self_id;
  msg_id = m.msg_id;
  msg_time = m.msg_time;
  text = m.text;
  images_json = m.images_json;
  sender_card = normalize_optional_text m.sender_card;
  sender_nickname = normalize_optional_text m.sender_nickname;
  sender_role = normalize_sender_role m.sender_role;
  reply_to = m.reply_to;
  verified_mention_user_ids = normalize_verified_mention_user_ids m.verified_mention_user_ids;
  has_at_bot = m.has_at_bot;
  is_bot_msg = m.is_bot_msg;
  processable = coalesce m.processable true;
  drop_reason = m.drop_reason;
  created_at = m.created_at;
  dedup_key = key_of m;
}

-- The UNIQUE constraint on `dedup_key`.
abbrev pub holds_key : Text → List MessageRow → Bool
holds_key key = any (λ r. same r.dedup_key key)

-- The row's id, or 0 for a duplicate, and the table after the insert.
pub insert_message : NewMessage → Messages → ℕ × Messages
unfolding key_of row_of
insert_message m s = if holds_key (key_of m) s.rows then (0, s) else (
  suc s.sequence,
  record { rows = s.rows ++ row_of (suc s.sequence) m ∷ []; sequence = suc s.sequence },
)

drop_row : Text → MessageRow → MessageRow
drop_row reason r = record r { processable = false; drop_reason = some (take 120 reason) }

pub mark_message_dropped : ℕ → Text → Messages → Messages
unfolding drop_row
mark_message_dropped id reason s = record s {
  rows = update (λ r. r.id == id) (drop_row reason) s.rows;
}

pub count_messages_since : Text → ℕ → Messages → ℕ
count_messages_since group_id since s =
    count (λ r. same r.group_id group_id && leb since r.created_at) s.rows
