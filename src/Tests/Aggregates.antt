-- ===== src/Tests/Aggregates.antt =====
-- Tests of the theorems on the aggregates.
use durare.Prelude.{pos, true, false, none, some, [], ◌∷◌, ◌≡◌, refl, count}
use durare.Map
use durare.Workflow.{status_success}
use durare.Memory.{Inner}
use durare.Memory.Aggregates.{WorkflowAggregateQuery, is_counted, get_workflow_aggregates}
use durare.Memory.Aggregates.Steps.{StepAggregateQuery}
use durare.Memory.Aggregates.Totals.{total, count_value, get_workflow_aggregates-total}
use durare.Tests.{sample_host, one}

abbrev by_name : WorkflowAggregateQuery
by_name = record {
  by_status = false;
  by_name = true;
  by_queue_name = false;
  by_executor_id = false;
  by_app_version = false;
  select_count = true;
  select_min_created_at = true;
  select_max_queue_wait_ms = false;
  select_max_total_latency_ms = false;
  time_bucket_ms = some (pos 1000);
  status = [];
  name = [];
  app_version = [];
  executor_ids = [];
  queue_names = [];
  workflow_id_prefix = some "w";
  start_time_ms = none;
  end_time_ms = none;
  completed_after_ms = none;
  completed_before_ms = none;
  dequeued_after_ms = none;
  dequeued_before_ms = none;
  limit = none;
}

abbrev by_function : StepAggregateQuery
by_function = record {
  by_function_name = true;
  by_status = true;
  select_count = true;
  select_max_duration_ms = true;
  time_bucket_ms = none;
  status = status_success ∷ [];
  function_name = [];
  workflow_id_prefix = none;
  completed_after_ms = some (pos 1);
  completed_before_ms = none;
  limit = none;
}

get_workflow_aggregates-total_example :
    total (λ a. count_value a.count) (get_workflow_aggregates by_name one)
    ≡ count (is_counted by_name) (Map.values one.workflows)
get_workflow_aggregates-total_example = get_workflow_aggregates-total by_name one refl refl

one_group : total (λ a. count_value a.count) (get_workflow_aggregates by_name one) ≡ 1
unfolding total get_workflow_aggregates durare.Prelude.sort durare.Memory.Aggregates.accumulate
    is_counted Map.insert durare.Memory.Aggregates.aggregate_of durare.Memory.Aggregates.add_row
    Map.get
one_group = refl
