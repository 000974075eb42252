-- ===== src/Memory/Steps.antt =====
-- src/memory.rs: the checkpoints of steps, patches and child starts.
pub mod Checkpoints
use durare.Prelude.{
  ℤ, Bool, true, false, String, Option, none, some, ◌==◌, ◌!=◌, ◌&&◌, if◌then◌else◌, string_eq,
  option_eq, int_eq, pair_eq,
}
use durare.Map
use durare.Errors.{Result, ok, err, unexpected_step, workflow_conflict}
use durare.Host.{Host, DateTime, json_eq}
use durare.Workflow.{WorkflowStatus}
use durare.Memory.{Inner, Op, StepRow, StepOutcome, RecordedStep, step_row_outcome}

module _ {V : Type 0} ⦃j : Host V⦄ where
  unfoldable pub get_step_result : String → ℤ → Inner V → Option (RecordedStep V)
  get_step_result workflow_id seq g = elim (Map.get (workflow_id, seq) g.steps) [
    | none ↦ none
    | some r ↦ some (record { name = r.name; outcome = step_row_outcome r })
  ]

  -- The row that a write of this outcome stores: the error of a failure, or the value.
  unfoldable pub outcome_row : String → V → Option String → Option ℤ → DateTime → StepRow V
  outcome_row name value error started_at_ms now = record {
    name = name;
    output = elim error [ some e ↦ none | none ↦ some value ];
    error = error;
    child_workflow_id = none;
    started_at_ms = started_at_ms;
    completed_at_ms = some (j.timestamp_millis now);
  }

  -- `same_write`: content and start instant
  unfoldable pub same_write : StepRow V → StepRow V → Bool
  same_write row new =
      row.output == new.output && (row.error == new.error && row.started_at_ms == new.started_at_ms)

  -- The executor that won the checkpoint is the one that runs the workflow.
  unfoldable pub refresh_executor : String → Option String → Inner V → Inner V
  refresh_executor workflow_id none g = g
  refresh_executor workflow_id (some executor) g = elim (Map.get workflow_id g.workflows) [
    | none ↦ g
    | some wf ↦
        if wf.executor_id != executor
        then record g {
          workflows = Map.insert workflow_id (record wf { executor_id = executor }) g.workflows;
        }
        else g
  ]

  unfoldable pub record_step_result :
      String
      → ℤ
      → String
      → V
      → Option String
      → Option ℤ
      → Option String
      → DateTime
      → Op V (StepOutcome V)
  unfolding outcome_row same_write
  record_step_result workflow_id seq name value error started_at_ms executor_id now g =
      let new = outcome_row name value error started_at_ms now in
      elim (Map.get (workflow_id, seq) g.steps) [
        | some row ↦
            if row.name != name
            then (err (unexpected_step workflow_id seq name row.name), g)
            else if same_write row new
            then (ok (step_row_outcome row), g)
            else (err (workflow_conflict workflow_id), g)
        | none ↦ (
          ok (step_row_outcome new),
          refresh_executor workflow_id executor_id
              (record g { steps = Map.insert (workflow_id, seq) new g.steps }),
        )
      ]

  abbrev pub named_row : String → Option String → StepRow V
  named_row name child = record {
    name = name;
    output = none;
    error = none;
    child_workflow_id = child;
    started_at_ms = none;
    completed_at_ms = none;
  }

  -- `entry(..).or_insert_with(..)`
  unfoldable pub insert_if_absent : String → ℤ → StepRow V → Op V (Unit {0})
  insert_if_absent workflow_id seq row g = elim (Map.get (workflow_id, seq) g.steps) [
    | some old ↦ (ok tt, g)
    | none ↦ (ok tt, record g { steps = Map.insert (workflow_id, seq) row g.steps })
  ]

  unfoldable pub record_child_workflow : String → ℤ → String → String → Op V (Unit {0})
  unfolding insert_if_absent
  record_child_workflow parent_id seq name child_id =
      insert_if_absent parent_id seq (named_row name (some child_id))

  unfoldable pub check_child_workflow : String → ℤ → Inner V → Option (String × String)
  check_child_workflow parent_id seq g = elim (Map.get (parent_id, seq) g.steps) [
    | none ↦ none
    | some r ↦ elim r.child_workflow_id [ none ↦ none | some id ↦ some (id, r.name) ]
  ]

  unfoldable pub get_step_name : String → ℤ → Inner V → Option String
  get_step_name workflow_id seq g = elim (Map.get (workflow_id, seq) g.steps) [
    | none ↦ none
    | some r ↦ some r.name
  ]

  unfoldable pub record_patch : String → ℤ → String → Op V (Unit {0})
  unfolding insert_if_absent
  record_patch workflow_id seq name = insert_if_absent workflow_id seq (named_row name none)
