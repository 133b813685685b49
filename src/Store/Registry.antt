-- ===== src/Store/Registry.antt =====
-- The registries of src/shared/sqlite.ts for recalled messages and for tasks in flight, and the
-- decision of src/services/inflight-manager.ts on a message that comes while a task runs.
pub mod Tasks
mod Tests
use ubot_ai_agent.Base.{
  ℕ, ◌+◌, ltb, leb, if◌then◌else◌, Bool, true, false, not, ◌&&◌, ◌||◌, Option, none, some, List, [],
  ◌∷◌, ◌++◌, Text, codes, same, trim, is_empty, starts_with, filter, find, any, length,
}
use ubot_ai_agent.Base.Updates.{update}

-- A row of `retracted`.
pub record Retracted : Type 0 where
  pub msg_key : Text
  pub retracted_at : ℕ

-- `${groupId}:${msgId}`
unfoldable pub msg_key_of : Text → Text → Text
msg_key_of group_id msg_id = group_id ++ (b':' ∷ msg_id)

unfoldable pub mark_retracted : Text → Text → ℕ → List Retracted → List Retracted
unfolding msg_key_of
mark_retracted group_id msg_id now rows =
    filter (λ r. not (same r.msg_key (msg_key_of group_id msg_id))) rows
    ++ record { msg_key = msg_key_of group_id msg_id; retracted_at = now } ∷ []

unfoldable pub is_retracted : Text → Text → List Retracted → Bool
unfolding msg_key_of
is_retracted group_id msg_id = any λ r. same r.msg_key (msg_key_of group_id msg_id)

unfoldable pub prune_retracted : ℕ → List Retracted → List Retracted
prune_retracted before = filter λ r. not (ltb r.retracted_at before)

-- InflightRow
pub record Inflight : Type 0 where
  pub key : Text
  pub task_id : Text
  pub started_at : ℕ
  pub cancel_token : Text
  pub cancel_requested : Bool
  pub merged_reply : Option Text

-- INSERT OR REPLACE INTO inflight
unfoldable pub register_inflight : Text → Text → ℕ → Text → List Inflight → List Inflight
register_inflight key task_id started_at cancel_token rows =
    filter (λ r. not (same r.key key)) rows
    ++ record {
      key = key;
      task_id = task_id;
      started_at = started_at;
      cancel_token = cancel_token;
      cancel_requested = false;
      merged_reply = none;
    }
      ∷ []

unfoldable pub get_inflight : Text → List Inflight → Option Inflight
get_inflight key = find λ r. same r.key key

unfoldable pub request_cancel : Text → List Inflight → List Inflight
request_cancel key = update (λ r. same r.key key) (λ r. record r { cancel_requested = true })

-- An empty task id counts as none.
unfoldable pub clear_inflight : Text → Option Text → List Inflight → List Inflight
clear_inflight key none rows = filter (λ r. not (same r.key key)) rows
clear_inflight key (some task_id) rows =
    if is_empty task_id
    then filter (λ r. not (same r.key key)) rows
    else filter (λ r. not (same r.key key && same r.task_id task_id)) rows

-- `begin` of InflightManager, with the id that randomUUID gave.
unfoldable pub begin : Text → Text → ℕ → List Inflight → List Inflight
unfolding register_inflight
begin key task_id now rows = register_inflight key task_id now task_id rows

unfoldable pub is_cancelled : Text → List Inflight → Bool
unfolding get_inflight
is_cancelled key rows = elim (get_inflight key rows) [ none ↦ false | some r ↦ r.cancel_requested ]

-- The options of InflightManager, 20_000 and 10 by default.
pub record Options : Type 0 where
  pub cancel_after_ms : ℕ
  pub merge_short_text_chars : ℕ

pub data Verdict : Type 0 where
  drop_no_inflight drop_duplicate merge_rerun merge_correction : Verdict

-- /^(补充|不对|其实|更正|纠正|另外|还有)/, or a short text.
unfoldable pub is_append_correction : Options → Text → Bool
is_append_correction o text =
    any (starts_with text) (
      codes "补充" ∷ codes "不对" ∷ codes "其实" ∷ codes "更正" ∷ codes "纠正" ∷ codes "另外" ∷ codes "还有" ∷ [])
    || ltb (length text) o.merge_short_text_chars

-- `decideNewMessage`; `nowMs - started_at > cancelAfterMs`, where the difference may be negative. The
-- merge text is the new text in both merging verdicts.
unfoldable pub decide_new_message :
    Options → Text → Text → ℕ → List Inflight → Verdict × List Inflight
unfolding get_inflight request_cancel is_append_correction
decide_new_message o key new_text now rows = elim (get_inflight key rows) [
  | none ↦ (drop_no_inflight, rows)
  | some r ↦
      if ltb (r.started_at + o.cancel_after_ms) now
      then (merge_rerun, request_cancel key rows)
      else if is_append_correction o (trim new_text)
      then (merge_correction, rows)
      else (drop_duplicate, rows)
]
