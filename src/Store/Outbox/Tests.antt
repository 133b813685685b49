-- ===== src/Store/Outbox/Tests.antt =====
-- The outbox on concrete replies.
use ubot_ai_agent.Base.{
  ◌≡◌, none, some, List, [], ◌∷◌, codes, false, map, filter, take, All, arith, Option,
}
use ubot_ai_agent.Base.Selection.{among}
use ubot_ai_agent.Store.Outbox.{Context, Reply, Outbox, empty, enqueue_outbox, claim_outbox}
use ubot_ai_agent.Store.Outbox.Calls.{Call, enqueues, claims, recovers, marks_failed, run}
use ubot_ai_agent.Store.Outbox.Claims.{id_of, IsTable, in_flight, is_ready, claim_outbox_lem}
use ubot_ai_agent.Store.Outbox.Once.{claim_once}
use ubot_ai_agent.Store.Outbox.Attempts.{AreWithinBudget, run-IsWithinBudget}

abbrev reply : Option Context → Reply
reply context = record {
  group_id = codes "42";
  reply_to = none;
  text = codes "hi";
  kind = codes "text";
  context = context;
  forward_payload_json = none;
  auto_recall = none;
}

-- A context whose turn is not persisted yet.
abbrev open_turn : Context
open_turn = record {
  topic_id = codes "t";
  branch_id = codes "main";
  source_turn_id = some 7;
  turn_id = none;
}

abbrev filled : List Call
filled =
    enqueues (reply none) 10 ∷ enqueues (reply (some open_turn)) 11 ∷ enqueues (reply none) 12 ∷ []

abbrev table : Outbox
table = run filled empty

table-IsTable : IsTable table
unfolding run enqueue_outbox empty
table-IsTable = record {
  ordered = (ground arith, (ground arith, (ground arith, tt)));
  bounded = (ground arith, (ground arith, (ground arith, tt)));
}

-- The sender dies: its row is given up, and no claim returns it again.
abbrev crash : List Call
crash = recovers 90000 60000 ∷ claims 5 90001 ∷ marks_failed 1 none 90002 ∷ []

claim_once_example :
    All
      (λ r. among (map id_of (claim_outbox 1 20 table).0) r.id ≡ false)
      (claim_outbox 9 99999 (run crash (claim_outbox 1 20 table).1)).0
claim_once_example = claim_once 1 20 9 99999 crash table table-IsTable (tt, (tt, (tt, tt)))

run-IsWithinBudget_example : AreWithinBudget (
    run
      (enqueues (reply none) 10 ∷ claims 1 11 ∷ marks_failed 1 (some 2000) 12 ∷ claims 1 9000 ∷ [])
      empty)
run-IsWithinBudget_example =
    run-IsWithinBudget
      (enqueues (reply none) 10 ∷ claims 1 11 ∷ marks_failed 1 (some 2000) 12 ∷ claims 1 9000 ∷ [])

claim_outbox_example :
    (claim_outbox 1 20 table).0 ≡ map (in_flight 20) (take 1 (filter (is_ready 20) table.rows))
claim_outbox_example = claim_outbox_lem 1 20 table table-IsTable

abbrev drafted : Outbox
drafted = run (enqueues (reply (some open_turn)) 30 ∷ []) table
