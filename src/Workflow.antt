-- ===== src/Workflow.antt =====
-- The rows of src/provider.rs: workflow statuses, their lifecycle states and child targets.
use durare.Prelude.{
  ℤ, pos, Bool, false, String, Option, none, some, List, [], ◌∷◌, ◌==◌, ◌!=◌, ◌||◌, if◌then◌else◌,
  string_eq, option_eq, format,
}
use durare.Errors.{Error, PortableWorkflowError, Result, ok, err, portable}
use durare.Host.{Host, DateTime}

abbrev pub status_enqueued : String
status_enqueued = "ENQUEUED"

abbrev pub status_delayed : String
status_delayed = "DELAYED"

abbrev pub status_pending : String
status_pending = "PENDING"

abbrev pub status_success : String
status_success = "SUCCESS"

abbrev pub status_error : String
status_error = "ERROR"

abbrev pub status_cancelled : String
status_cancelled = "CANCELLED"

abbrev pub status_max_recovery_attempts_exceeded : String
status_max_recovery_attempts_exceeded = "MAX_RECOVERY_ATTEMPTS_EXCEEDED"

unfoldable pub is_terminal : String → Bool
is_terminal status =
    status == status_success
    || status == status_error
    || status == status_cancelled
    || status == status_max_recovery_attempts_exceeded

pub record WorkflowStatus (V : Type 0) : Type 0 where
  pub id : String
  pub name : String
  pub status : String
  pub input : V
  pub output : Option V
  pub error : Option String
  pub error_info : Option (PortableWorkflowError V)
  pub executor_id : String
  pub app_version : String
  pub queue_name : Option String
  pub queue_partition_key : Option String
  pub priority : ℤ
  pub dedup_id : Option String
  pub recovery_attempts : ℤ
  pub parent_workflow_id : Option String
  pub timeout_ms : Option ℤ
  pub deadline_ms : Option ℤ
  pub started_at_ms : Option ℤ
  pub rate_limited : Bool
  pub delay_until_ms : Option ℤ
  pub completed_at_ms : Option ℤ
  pub forked_from : Option String
  pub authenticated_user : Option String
  pub assumed_role : Option String
  pub authenticated_roles : List String
  pub class_name : Option String
  pub config_name : Option String
  pub created_at : DateTime
  pub updated_at : DateTime
  pub attributes : Option V

-- `WorkflowStatus::new`; the clock's reading is the last argument.
unfoldable pub new :
    {V : Type 0} → String → String → V → String → String → String → DateTime → WorkflowStatus V
new id name input status executor_id app_version now = record {
  id = id;
  name = name;
  status = status;
  input = input;
  output = none;
  error = none;
  error_info = none;
  executor_id = executor_id;
  app_version = app_version;
  queue_name = none;
  queue_partition_key = none;
  priority = pos 0;
  dedup_id = none;
  recovery_attempts = pos 0;
  parent_workflow_id = none;
  timeout_ms = none;
  deadline_ms = none;
  started_at_ms = none;
  rate_limited = false;
  delay_until_ms = none;
  completed_at_ms = none;
  forked_from = none;
  authenticated_user = none;
  assumed_role = none;
  authenticated_roles = [];
  class_name = none;
  config_name = none;
  created_at = now;
  updated_at = now;
  attributes = none;
}

-- `.filter(|s| !s.is_empty())`
abbrev pub non_empty : Option String → Option String
non_empty none = none
non_empty (some s) = if s == "" then none else some s

module _ {V : Type 0} ⦃j : Host V⦄ where
  -- `Error::workflow_target_conflict`

  unfoldable pub workflow_target_conflict : String → Error V
  workflow_target_conflict id = portable (record {
    name = "durare.WorkflowTargetConflict";
    message = format ("workflow `" ∷ id ∷ "` already belongs to a different workflow target" ∷ []);
    code = some (j.of_str "workflow_target_conflict");
    payload = some (j.object (("workflow_id", j.of_str id) ∷ []));
  })

  unfoldable pub check_target :
      WorkflowStatus V → String → Option String → Option String → Result V (Unit {0})
  check_target row name class_name config_name =
      if row.name != name
        || non_empty row.class_name != non_empty class_name
        || non_empty row.config_name != non_empty config_name
      then err (workflow_target_conflict row.id)
      else ok tt

  unfoldable pub check_child_target : WorkflowStatus V → WorkflowStatus V → Result V (Unit {0})
  check_child_target row requested =
      check_target row requested.name requested.class_name requested.config_name
