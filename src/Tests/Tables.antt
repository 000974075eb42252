-- ===== src/Tests/Tables.antt =====
-- Tests of the theorems on the workflow table, on forks and on the start of children.
use durare.Memory.Status.{
  holds_slot, is_rival, insert_row, insert_checked, insert_workflow_status, holds_slot, is_rival,
  insert_row, insert_checked, insert_workflow_status, holds_slot, is_rival, insert_row,
  insert_checked, insert_workflow_status, holds_slot, is_rival, insert_row, insert_checked,
  insert_workflow_status,
}
use durare.Memory.Manage.{
  cancel_all, cancel_workflows_with_options, resume_workflow, cancel_all,
  cancel_workflows_with_options, resume_workflow, cancel_all, cancel_workflows_with_options,
  resume_workflow, cancel_all, cancel_workflows_with_options, resume_workflow,
}
use durare.Prelude.{
  filter, sort, filter, sort, any, any, any, any, pos, true, false, String, none, some, List, [],
  ◌∷◌, string_eq, option_eq, int_eq, pair_eq, refl, ◌≡◌, ◌≢◌,
}
use durare.Errors.{ok}
use durare.Workflow.{
  check_target, check_child_target, check_target, check_child_target, WorkflowStatus,
  status_enqueued,
}
use durare.Memory.{Inner, StepRow, empty}
use durare.Memory.Dispatch.{
  is_latest, claim_row, in_scope, is_candidate, select_ids, claim_all, rate_cap, global_cap,
  max_tasks, is_latest, claim_row, in_scope, is_candidate, select_ids, claim_all, rate_cap,
  global_cap, max_tasks, DequeueRequest, dequeue_workflows,
}
use durare.Memory.Dispatch.Total.{dequeue_workflows-total}
use durare.Memory.Lifecycle.{
  commit_child, choose, commit_child, choose, ForkParams, replayed, resolved,
  fork_workflow_with_timeout, insert_child_workflow,
}
use durare.Memory.Lifecycle.Forks.{fork_workflow_with_timeout-ok}
use durare.Memory.Lifecycle.Starts.{insert_child_workflow-replay}
use durare.Memory.Calls.{apply, apply, apply, apply, Call, run}
use durare.Memory.Calls.Slots.{Table}
use durare.Memory.Calls.OneSlot.{run-Table}
use durare.Workflow.{status_pending}
use durare.Tests.{with_rows}
use durare.Map
use durare.Tests.{pending, queued, rival, child, one, sample_host}

-- A creation, a refused one for the same slot, a cancel, a resume and a re-enqueue.
abbrev rivalry : List (Call String)
rivalry =
    Call.insert_workflow_status queued
    ∷ Call.insert_workflow_status rival
    ∷ Call.cancel_workflows_with_options ("q" ∷ []) false (pos 60)
    ∷ Call.resume_workflow "q" (pos 61)
    ∷ Call.enqueue_existing "q" "mail" (pos 62)
    ∷ []

pub empty-Table : Table (empty {V = String}).workflows
unfolding Map.get
empty-Table = record { unique = tt; keyed = λ k w g. cc; distinct = λ k l v w q d g g' s s'. cc }

run-Table_example : Table (run empty rivalry).workflows
unfolding run Map.get apply resume_workflow cancel_workflows_with_options cancel_all
    insert_workflow_status insert_checked any insert_row Map.insert is_rival holds_slot
run-Table_example = run-Table rivalry empty (refl, (refl, (refl, (refl, (refl, tt))))) empty-Table

abbrev request : DequeueRequest
request = record {
  queue_name = "mail";
  executor_id = "b";
  app_version = "v1";
  partition_key = none;
  max_tasks = pos 5;
  global_concurrency = none;
  rate_limit_max = none;
  rate_limit_period_ms = none;
}

after_rivalry : Table (run empty rivalry).workflows
unfolding run Map.get apply resume_workflow cancel_workflows_with_options cancel_all
    insert_workflow_status insert_checked any insert_row Map.insert is_rival holds_slot
after_rivalry = run-Table rivalry empty (refl, (refl, (refl, (refl, (refl, tt))))) empty-Table

dequeue_workflows-total_example :
    (claimed : List (WorkflowStatus String)) × ((dequeue_workflows request
        (pos 70)
        (λ id. pos 71)
        (run empty rivalry)).0
      ≡ ok (some claimed))
dequeue_workflows-total_example =
    dequeue_workflows-total request (pos 70) (λ id. pos 71) (run empty rivalry) after_rivalry

abbrev step : String → StepRow String
step text = record {
  name = "charge";
  output = some text;
  error = none;
  child_workflow_id = none;
  started_at_ms = none;
  completed_at_ms = none;
}

abbrev two_steps : Inner String
two_steps = record one { steps = (("w", pos 0), step "7") ∷ (("w", pos 1), step "8") ∷ [] }

-- A fork of `w` that keeps its first step.
abbrev fork : ForkParams
fork = record {
  original_id = "w";
  new_id = "f";
  start_step = pos 1;
  app_version = none;
  queue_name = "mail";
  partition_key = none;
}

abbrev forked : Inner String
unfolding fork_workflow_with_timeout
forked = (fork_workflow_with_timeout fork none (pos 90) two_steps).1

f_ne_w : ◌≢◌ {A = String} "f" "w"
f_ne_w e = let h : false ≡ true = (string_eq.beq_iff "f" "w").1 e in cc

fork_workflow_with_timeout-ok_example :
    (Map.get "w" two_steps.workflows ≢ none)
    × ((row : WorkflowStatus String) × (Map.get "f" forked.workflows ≡ some row)
        × (row.status ≡ status_enqueued)
        × (row.queue_name ≡ some "mail")
        × (row.forked_from ≡ some "w"))
    × (Map.get ("f", pos 0) forked.steps ≡ some (step "7"))
    × (Map.get ("w", pos 0) forked.steps ≡ some (step "7"))
    × (Map.get "w" forked.workflows ≡ some pending)
unfolding fork_workflow_with_timeout Map.get
fork_workflow_with_timeout-ok_example =
    fork_workflow_with_timeout-ok fork none (pos 90) two_steps forked "w" (pos 0) (refl, (refl, tt))
      refl f_ne_w

abbrev with_child : Inner String
unfolding insert_child_workflow
with_child = (insert_child_workflow child "w" (pos 0) false one).1

insert_child_workflow-replay_example :
    insert_child_workflow (record child { id = "other" }) "w" (pos 0) true with_child
    ≡ (ok (replayed "c"), with_child)
unfolding insert_child_workflow Map.get choose commit_child check_child_target check_target
insert_child_workflow-replay_example =
    insert_child_workflow-replay child (record child { id = "other" }) "w" (pos 0) false true one
      with_child (resolved child true) refl refl

-- One enqueued row, claimed by executor `b`.
abbrev taken : WorkflowStatus String
taken = record queued {
  status = status_pending;
  executor_id = "b";
  started_at_ms = some (pos 70);
  updated_at = pos 71;
}

abbrev waiting : Inner String
waiting = with_rows (("q", queued) ∷ [])

abbrev dispatched : Inner String
unfolding dequeue_workflows
dispatched = (dequeue_workflows request (pos 70) (λ id. pos 71) waiting).1
