-- ===== src/Store/Recalls/Tests.antt =====
-- The recall table on concrete messages.
use ubot_ai_agent.Base.{
  filter, ◌==◌, ◌≡◌, ◌≢◌, refl, some, List, [], ◌∷◌, ◌≤◌, codes, true, length, All,
}
use ubot_ai_agent.Store.Numbers.{Policy}
use ubot_ai_agent.Store.Recalls.{
  Recalls, RecallRow, RecallStatus, recalled, rejected, empty, is_terminal, is_recalled,
  get_message_recall, claim_due, RecallRow, pending,
}
use ubot_ai_agent.Store.Recalls.Insertion.{Input}
use ubot_ai_agent.Store.Recalls.Calls.{
  Call, inserts, claims, recovers, terminates, reschedules, observes, run,
}
use ubot_ai_agent.Store.Recalls.Table.{IsTable}
use ubot_ai_agent.Store.Recalls.Invariant.{run-IsTable}
use ubot_ai_agent.Store.Recalls.Window.{IsClaimed, claim_due-AreClaimed}
use ubot_ai_agent.Store.Recalls.Finality.{terminal_stays}

abbrev input : Input
input = record {
  outbox_id = some 3;
  group_id = codes "42";
  platform_message_id = codes "777";
  sent_at_ms = 1000;
  policy = record { after_ms = 60; deadline_ms = 100 };
}

-- Scheduled, claimed in its window, put off once and claimed again.
abbrev calls : List Call
calls = inserts input 1000 ∷ claims 5 1060 ∷ reschedules 1 1080 1070 ∷ claims 5 1080 ∷ []

abbrev scheduled : Recalls
scheduled = run (inserts input 1000 ∷ []) empty

abbrev taken_back : Recalls
taken_back = run (terminates 1 recalled 1090 ∷ []) (run calls empty)

run-IsTable_example :
    IsTable (
      run (inserts input 1000 ∷ claims 5 1060 ∷ reschedules 1 1080 1070 ∷ claims 5 1080 ∷ []) empty)
run-IsTable_example =
    run-IsTable (inserts input 1000 ∷ claims 5 1060 ∷ reschedules 1 1080 1070 ∷ claims 5 1080 ∷ [])

claim_due_example :
    All (IsClaimed 1060) (claim_due 5 1060 scheduled).0
    × (length (claim_due 5 1060 scheduled).0 ≤ 5)
claim_due_example = claim_due-AreClaimed 5 1060 scheduled (run-IsTable (inserts input 1000 ∷ []))

one_claimed : length (claim_due 5 1060 scheduled).0 ≡ 1
unfolding claim_due run empty ubot_ai_agent.Store.Recalls.Insertion.insert_message_recall
    ubot_ai_agent.Store.Numbers.normalize_policy ubot_ai_agent.Store.Numbers.normalize_epoch_ms
    ubot_ai_agent.Store.Numbers.add_epoch_ms
one_claimed = refl

abbrev taken_back_calls : List Call
taken_back_calls =
    inserts input 1000
    ∷ claims 5 1060
    ∷ reschedules 1 1080 1070
    ∷ claims 5 1080
    ∷ terminates 1 recalled 1090
    ∷ []

abbrev final_row : RecallRow
final_row = record {
  id = 1;
  outbox_id = some 3;
  group_id = codes "42";
  platform_message_id = codes "777";
  sent_at = 1000;
  due_at = 1080;
  deadline_at = 1100;
  status = recalled;
  attempts = 2;
  claimed_at = some 1080;
  completed_at = some 1090;
  created_at = 1000;
  updated_at = 1090;
}

found_final : get_message_recall 1 (run taken_back_calls empty) ≡ some final_row
unfolding get_message_recall run empty ubot_ai_agent.Store.Recalls.mark_message_recall_terminal
    ubot_ai_agent.Store.Numbers.normalize_epoch_ms
    ubot_ai_agent.Store.Recalls.claim_due_message_recalls
    ubot_ai_agent.Store.Recalls.reschedule_message_recall_after_not_sent
    ubot_ai_agent.Store.Recalls.Insertion.insert_message_recall
    ubot_ai_agent.Store.Numbers.normalize_policy ubot_ai_agent.Store.Numbers.add_epoch_ms
found_final = refl

abbrev later : List Call
later =
    recovers 90000 30000
    ∷ observes (codes "42") (codes "777") 90001
    ∷ terminates 1 rejected 90002
    ∷ []

terminal_stays_example :
    All
      (λ x. is_terminal x.status ≡ true)
      (filter (λ x. x.id == 1) (run later (run taken_back_calls empty)).rows)
    × All (λ x. x.id ≢ 1) (claim_due 5 90003 (run later (run taken_back_calls empty))).0
terminal_stays_example =
    terminal_stays later (run taken_back_calls empty) final_row 1 5 90003
      (run-IsTable taken_back_calls) found_final refl
