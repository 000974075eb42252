-- ===== src/Tests/Replays.antt =====
-- Tests of the theorems on step checkpoints, the mailbox and histories of calls.
use durare.Prelude.{
  find, find, find, find, ℤ, pos, true, false, String, none, some, List, [], ◌∷◌, string_eq,
  option_eq, int_eq, pair_eq, refl, ◌≡◌,
}
use durare.Errors.{ok, err, workflow_conflict}
use durare.Memory.{
  is_missing, recorded_at, is_missing, recorded_at, is_missing, recorded_at, is_missing,
  recorded_at, recorded_at, recorded_at, recorded_at, recorded_at, recorded_at, recorded_at,
  step_row_outcome, step_row_outcome, step_row_outcome, step_row_outcome, step_row_outcome,
  step_row_outcome, Inner, NotificationRow, NotificationInsert, StepRow, output, push_notifications,
}
use durare.Memory.Steps.{
  refresh_executor, refresh_executor, refresh_executor, refresh_executor, refresh_executor,
  refresh_executor, get_step_result, record_step_result,
}
use durare.Memory.Steps.Checkpoints.{
  get_step_result-record_step_result, record_step_result-retry, record_step_result-rival,
}
use durare.Memory.Messages.{
  claim_oldest, claim_oldest, claim_oldest, claim_oldest, claim_oldest, claim_oldest, waits,
  send_from_workflow, consume_notification,
}
use durare.Memory.Messages.Delivery.{consume_notification-replay, send_from_workflow-replay}
use durare.Memory.Calls.{Call, run}
use durare.Memory.Calls.Kept.{spares, run-keeps_step}
use durare.Map
use durare.Tests.{one, sample_host}

-- The state after step 0 of the workflow `w` recorded the value `7`.
abbrev pub charged : Inner String
charged = record one {
  steps =
      ((
        ("w", pos 0),
        record {
          name = "charge";
          output = some "7";
          error = none;
          child_workflow_id = none;
          started_at_ms = some (pos 20);
          completed_at_ms = some (pos 21);
        },
      )
        ∷ []);
}

get_step_result-record_step_result_example :
    get_step_result "w" (pos 0) charged ≡ some (record { name = "charge"; outcome = output "7" })
unfolding record_step_result Map.get step_row_outcome refresh_executor Map.insert
get_step_result-record_step_result_example =
    get_step_result-record_step_result "w" (pos 0) "charge" "7" none (some (pos 20)) none (pos 21)
      one charged (output "7") refl

record_step_result-retry_example :
    record_step_result "w" (pos 0) "charge" "7" none (some (pos 20)) (some "b") (pos 99) charged
    ≡ (ok (output "7"), charged)
unfolding record_step_result Map.get step_row_outcome refresh_executor Map.insert
record_step_result-retry_example =
    record_step_result-retry "w" (pos 0) "charge" "7" none (some (pos 20)) none (pos 21) (some "b")
      (pos 99) one charged (output "7") refl

record_step_result-rival_example :
    record_step_result "w" (pos 0) "charge" "8" none (some (pos 20)) none (pos 99) charged
    ≡ (err (workflow_conflict "w"), charged)
unfolding record_step_result Map.get step_row_outcome refresh_executor Map.insert
record_step_result-rival_example =
    record_step_result-rival "w" (pos 0) "charge" "7" none (some (pos 20)) none (pos 21) "charge"
      "8" none (some (pos 20)) none (pos 99) one charged (output "7") refl refl

abbrev message : String → ℤ → NotificationRow String
message text at = record {
  message_uuid = text;
  destination_id = "w";
  topic = "t";
  message = text;
  consumed = false;
  created_at_ms = at;
}

abbrev mailbox : Inner String
mailbox = record one { notifications = message "late" (pos 9) ∷ message "early" (pos 5) ∷ [] }

abbrev received : Inner String
unfolding consume_notification
received = (consume_notification "w" "t" (pos 0) "recv" (pos 50) mailbox).1

consume_notification-replay_example :
    consume_notification "w" "t" (pos 0) "recv" (pos 99) received ≡ (ok (some "early"), received)
unfolding consume_notification recorded_at Map.get claim_oldest waits
consume_notification-replay_example =
    consume_notification-replay "w" "t" (pos 0) "recv" (pos 50) (pos 99) mailbox received "early"
      refl

abbrev insert_to : String → NotificationInsert String
insert_to id = record { destination_id = id; topic = "t"; message = "hi"; idempotency_key = none }

abbrev sent : Inner String
unfolding send_from_workflow
sent = (send_from_workflow "w" (pos 0) "send" (insert_to "w" ∷ []) (λ i. "u") (pos 50) one).1

send_from_workflow-replay_example :
    send_from_workflow "w" (pos 0) "send" (insert_to "gone" ∷ []) (λ i. "v") (pos 60) sent
    ≡ (ok tt, sent)
unfolding send_from_workflow recorded_at Map.get push_notifications find is_missing Map.contains_key
send_from_workflow-replay_example =
    send_from_workflow-replay "w" (pos 0) "send" (insert_to "w" ∷ []) (insert_to "gone" ∷ [])
      (λ i. "u") (λ i. "v") (pos 50) (pos 60) one sent refl

-- A rival write, a second executor's receive and a cancellation.
abbrev history : List (Call String)
history =
    Call.record_step_result "w" (pos 0) "charge" "8" none none none (pos 30)
    ∷ Call.consume_notification "w" "t" (pos 0) "recv" (pos 31)
    ∷ Call.cancel_workflows_with_options ("w" ∷ []) true (pos 32)
    ∷ []

abbrev charge_row : StepRow String
charge_row = record {
  name = "charge";
  output = some "7";
  error = none;
  child_workflow_id = none;
  started_at_ms = some (pos 20);
  completed_at_ms = some (pos 21);
}

run-keeps_step_example : Map.get ("w", pos 0) (run charged history).steps ≡ some charge_row
unfolding spares Map.get
run-keeps_step_example =
    run-keeps_step "w" (pos 0) charge_row history charged (refl, (refl, (refl, tt))) refl
