-- ===== src/Memory/Status.antt =====
-- src/memory.rs: creation of workflow rows, deduplication, and the guarded status write.
pub mod Creation
use durare.Prelude.{
  Bool, true, false, String, Option, none, some, ◌==◌, ◌!=◌, ◌||◌, ◌&&◌, not, if◌then◌else◌, any,
  find, string_eq, option_eq,
}
use durare.Map
use durare.Errors.{Result, ok, err, queue_deduplicated}
use durare.Host.{Host, DateTime}
use durare.Recorded.{decode_error}
use durare.Workflow.{
  WorkflowStatus, is_terminal, status_pending, status_success, status_error, status_cancelled,
  status_max_recovery_attempts_exceeded,
}
use durare.Memory.{Inner, Op}

-- The row holds the slot `(queue, dedup)`.
unfoldable pub holds_slot : {V : Type 0} → String → String → WorkflowStatus V → Bool
holds_slot queue dedup w = w.queue_name == some queue && w.dedup_id == some dedup

-- Another row than `id` holds the slot.
unfoldable pub is_rival : {V : Type 0} → String → String → String → WorkflowStatus V → Bool
is_rival id queue dedup w = w.id != id && holds_slot queue dedup w

module _ {V : Type 0} where
  unfoldable pub insert_row : WorkflowStatus V → Op V (WorkflowStatus V × Bool)
  insert_row status g = elim (Map.get status.id g.workflows) [
    | some row ↦ (ok (row, false), g)
    | none ↦ (ok (status, true), record g { workflows = Map.insert status.id status g.workflows })
  ]

  -- the test for a conflict is made only where the row has a queue and a deduplication id
  unfoldable pub insert_checked :
      Option String → Option String → WorkflowStatus V → Op V (WorkflowStatus V × Bool)
  insert_checked (some queue) (some dedup) status g =
      if any (is_rival status.id queue dedup) (Map.values g.workflows)
      then (err (queue_deduplicated queue dedup), g)
      else insert_row status g
  insert_checked _ _ status g = insert_row status g

  unfoldable pub insert_workflow_status : WorkflowStatus V → Op V (WorkflowStatus V × Bool)
  insert_workflow_status status = insert_checked status.queue_name status.dedup_id status

  unfoldable pub get_deduplicated_workflow : String → String → Inner V → Option String
  get_deduplicated_workflow queue dedup g =
      elim (find (holds_slot queue dedup) (Map.values g.workflows)) [
        | none ↦ none
        | some w ↦ some w.id
      ]

  unfoldable pub get_workflow_status : String → Inner V → Option (WorkflowStatus V)
  get_workflow_status id g = Map.get id g.workflows

-- The row's status allows the transition to `target`.
unfoldable pub is_allowed : String → String → Bool
is_allowed target current =
    if target == status_success
      || target == status_error
      || target == status_max_recovery_attempts_exceeded
    then current == status_pending
    else if target == status_cancelled
    then not (current == status_success || current == status_error || current == status_cancelled)
    else true

module _ {V : Type 0} ⦃j : Host V⦄ where
  abbrev with_output : Option V → WorkflowStatus V → WorkflowStatus V
  with_output none row = row
  with_output (some o) row = record row { output = some o }

  abbrev with_error : Option String → WorkflowStatus V → WorkflowStatus V
  with_error none row = row
  with_error (some e) row =
      let (message, info) = decode_error none e in
      record row { error = some message; error_info = info }

  abbrev when_terminal : String → DateTime → WorkflowStatus V → WorkflowStatus V
  when_terminal status now row =
      if is_terminal status
      then record row { completed_at_ms = some (j.timestamp_millis now); dedup_id = none }
      else row

  -- the row after an allowed write
  unfoldable pub set_row :
      String → Option V → Option String → DateTime → WorkflowStatus V → WorkflowStatus V
  set_row status output error now row =
      record (when_terminal status now
        (with_error error (with_output output (record row { status = status })))) {
          updated_at = now;
        }

  unfoldable pub set_workflow_status :
      String → String → Option V → Option String → DateTime → Op V Bool
  set_workflow_status id status output error now g = elim (Map.get id g.workflows) [
    | none ↦ (ok false, g)
    | some row ↦
        if is_allowed status row.status
        then (
          ok true,
          record g { workflows = Map.insert id (set_row status output error now row) g.workflows },
        )
        else (ok false, g)
  ]
