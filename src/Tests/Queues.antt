-- ===== src/Tests/Queues.antt =====
-- Tests of the theorems on dispatch, streams, descendants and deletion.
use durare.Prelude.{
  any, any, pos, true, false, String, Option, none, some, List, [], ◌∷◌, ◌≤◌, count, contains,
  filter, max, string_eq, option_eq, int_eq, pair_eq, refl, ◌≡◌, ◌↔◌, ◌⊎◌, arith,
}
use durare.Errors.{Result}
use durare.Workflow.{WorkflowStatus, status_enqueued}
use durare.Memory.{append_stream, append_stream, Inner}
use durare.Memory.Dispatch.{
  in_scope, in_scope, in_scope, DequeueRequest, is_running, dequeue_workflows,
}
use durare.Memory.Dispatch.Limits.{dequeue_workflows-global}
use durare.Memory.Streams.{read_stream, write_stream}
use durare.Memory.Streams.Reads.{read_stream-write_stream}
use durare.Memory.Manage.{
  push_children, push_children, push_children, push_children, collect, descendants,
  cancel_workflows_with_options, delete_workflows,
}
use durare.Memory.Manage.Closure.{Descends, descendants-Descends}
use durare.Memory.Manage.Removal.{Cancels, delete_workflows-left, cancel_workflows_with_options-row}
use durare.Map
use durare.Tests.{queued, row, one, several, with_rows, sample_host}

-- One worker slot on the queue `mail`.
abbrev single : DequeueRequest
single = record {
  queue_name = "mail";
  executor_id = "b";
  app_version = "v1";
  partition_key = none;
  max_tasks = pos 5;
  global_concurrency = some (pos 1);
  rate_limit_max = none;
  rate_limit_period_ms = none;
}

abbrev two_queued : Inner String
two_queued =
    with_rows
      (("q", queued) ∷ ("p", record (row "p" status_enqueued) { queue_name = some "mail" }) ∷ [])

abbrev dispatched : Result String (Option (List (WorkflowStatus String))) × Inner String
unfolding dequeue_workflows
dispatched = dequeue_workflows single (pos 70) (λ id. pos 71) two_queued

dequeue_workflows-global_example :
    count (is_running single) (Map.values dispatched.1.workflows)
    ≤ max 1 (count (is_running single) (Map.values two_queued.workflows))
unfolding count is_running in_scope dispatched dequeue_workflows
dequeue_workflows-global_example =
    dequeue_workflows-global single (pos 70) (λ id. pos 71) 1 two_queued refl (omega arith)
      (omega arith)

abbrev started : WorkflowStatus String
started = record (row "p" "PENDING") {
  queue_name = some "mail";
  executor_id = "b";
  started_at_ms = some (pos 70);
  updated_at = pos 71;
}

abbrev streaming : Inner String
streaming = record one {
  streams = (("w", "log"), some "1" ∷ some "2" ∷ []) ∷ (("w", "old"), some "0" ∷ none ∷ []) ∷ [];
}

abbrev written : Inner String
unfolding write_stream
written = (write_stream "w" "log" (some "3") (pos 0) streaming).1

read_stream-write_stream_example :
    read_stream "w" "log" (pos 0) written ≡ ("1" ∷ "2" ∷ "3" ∷ [], false)
unfolding write_stream append_stream any Map.get read_stream
read_stream-write_stream_example =
    read_stream-write_stream "w" "log" (some "3") (pos 0) streaming written refl

descendants-Descends_example :
    (collect 6 several.workflows 0 ("w" ∷ []) ≡ some (descendants several.workflows ("w" ∷ [])))
    × ((contains (descendants several.workflows ("w" ∷ [])) "c" ≡ true)
        ↔ Descends several.workflows ("w" ∷ []) "c")
unfolding Map.get
descendants-Descends_example =
    descendants-Descends several.workflows ("w" ∷ []) "c" (refl, (refl, (refl, (refl, tt))))

delete_workflows-left_example :
    (Map.get "c" (delete_workflows ("w" ∷ []) true several).1.workflows ≡ none)
    × ((Map.get ("c", pos 0) (delete_workflows ("w" ∷ []) true several).1.steps ≡ none)
        × ((Map.get ("c", "log") (delete_workflows ("w" ∷ []) true several).1.streams ≡ none)
            × (((delete_workflows ("w" ∷ []) true several).1.notifications ≡ [])
                × ((delete_workflows ("w" ∷ []) true several).1.events ≡ []))))
unfolding descendants contains filter collect push_children
delete_workflows-left_example = delete_workflows-left ("w" ∷ []) true several "c" "log" (pos 0)

cancel_workflows_with_options-row_example :
    let after =
      Map.get "d"
        (cancel_workflows_with_options ("d" ∷ "w" ∷ []) true (pos 80) several).1.workflows in
    ((Map.get "d" several.workflows ≡ none) × (after ≡ none))
    ⊎ ((row : WorkflowStatus String) × (Map.get "d" several.workflows ≡ some row)
        × Cancels (pos 80) true row after)
unfolding descendants contains collect push_children Map.get
cancel_workflows_with_options-row_example =
    cancel_workflows_with_options-row ("d" ∷ "w" ∷ []) true (pos 80) several "d"
