-- ===== src/Classify.antt =====
-- `Error::code` of src/error.rs: the stable code by which callers classify an error.
use durare.Prelude.{
  Bool, true, false, String, Option, none, some, ◌==◌, ◌&&◌, if◌then◌else◌, string_eq, option_eq,
  int_eq, nat_eq,
}
use durare.Errors.{
  Error, ErrorCode, PortableWorkflowError, recovery_required, observation_failed, recorded, db,
  migrate, serde, output_serialization, serialization, unknown_workflow, unknown_queue,
  non_existent_workflow, not_authorized, queue_deduplicated, cancelled,
  max_recovery_attempts_exceeded, conflicting_registration, timeout, unexpected_step,
  nested_durable_call, durable_call_crossed_body, durable_call_outside_execution, workflow_conflict,
  replay_diverged, app, portable,
}
use durare.Host.{Host}

module _ {V : Type 0} ⦃j : Host V⦄ where
  code_text : Option V → Option String
  code_text none = none
  code_text (some v) = j.as_str v

  -- the guard of the `Portable` arm
  is_target_conflict : PortableWorkflowError V → Bool
  unfolding code_text
  is_target_conflict info =
      info.name == "durare.WorkflowTargetConflict"
      && code_text info.code == some "workflow_target_conflict"

  unfoldable pub code : Error V → ErrorCode
  unfolding is_target_conflict
  code (recovery_required cause) = ErrorCode.recovery_required
  code (observation_failed cause) = code cause
  code (recorded error) = error.code
  code (db e) = ErrorCode.database
  code (migrate e) = ErrorCode.initialization
  code (serde e) = ErrorCode.serialization
  code (output_serialization e) = ErrorCode.serialization
  code (serialization e) = ErrorCode.serialization
  code (unknown_workflow name) = ErrorCode.workflow_not_registered
  code (unknown_queue name) = ErrorCode.queue_not_registered
  code (non_existent_workflow id) = ErrorCode.non_existent_workflow
  code (queue_deduplicated queue dedup) = ErrorCode.queue_deduplicated
  code (not_authorized msg) = ErrorCode.not_authorized
  code (cancelled id) = ErrorCode.workflow_cancelled
  code (max_recovery_attempts_exceeded id) = ErrorCode.max_recovery_attempts_exceeded
  code (conflicting_registration name) = ErrorCode.conflicting_registration
  code timeout = ErrorCode.timeout
  code (unexpected_step id step expected found) = ErrorCode.unexpected_step
  code (nested_durable_call id operation) = ErrorCode.nested_durable_call
  code (durable_call_crossed_body operation) = ErrorCode.nested_durable_call
  code (durable_call_outside_execution id operation) = ErrorCode.durable_call_outside_execution
  code (workflow_conflict id) = ErrorCode.workflow_conflict
  code (replay_diverged id divergence) = ErrorCode.replay_diverged
  code (portable info) =
      if is_target_conflict info then ErrorCode.workflow_target_conflict else ErrorCode.application
  code (app message source) = ErrorCode.application

-- `error.code() == ErrorCode::RecoveryRequired`
abbrev pub is_recovery_required : ErrorCode → Bool
is_recovery_required ErrorCode.recovery_required = true
is_recovery_required _ = false
