-- ===== src/Execution.antt =====
-- src/execution.rs: the failure that a workflow execution latches, and where a durable call may run.
pub mod Latch
use durare.Prelude.{Bool, true, false, String, Option, none, some, ◌==◌, string_eq, if◌then◌else◌}
use durare.Errors.{
  Error, ErrorCode, Result, ok, err, recovery_required, observation_failed, recorded, db, migrate,
  serde, serialization, cancelled, durable_call_outside_execution, durable_call_crossed_body,
  nested_durable_call,
}
use durare.Host.{Host}
use durare.Classify.{code}

-- Where a call is built or polled: in the task of its execution, in the body of one of that
-- execution's steps, or elsewhere. The source keeps this in task-local values.
pub data Place : Type 0 where
  in_workflow in_step_body elsewhere : Place

pub record Execution (V : Type 0) : Type 0 where
  pub workflow_id : String
  pub failure : Option (Error V)

module _ {V : Type 0} where
  -- `Execution::new`
  abbrev pub new : String → Execution V
  new workflow_id = record { workflow_id = workflow_id; failure = none }

  unfoldable pub is_storage_failure : Error V → Bool
  is_storage_failure (db e) = true
  is_storage_failure (migrate e) = true
  is_storage_failure (serde e) = true
  is_storage_failure (serialization e) = true
  is_storage_failure (recovery_required cause) = true
  is_storage_failure (observation_failed cause) = true
  is_storage_failure e = false

  unfoldable pub recovery_error : Error V → Error V
  recovery_error (recovery_required cause) = recovery_required cause
  recovery_error (observation_failed cause) = recovery_required cause
  recovery_error other = recovery_required other

  unfoldable pub provider_error : Error V → Error V
  unfolding is_storage_failure recovery_error
  provider_error error = if is_storage_failure error then recovery_error error else error

  unfoldable pub observation_error : Error V → Error V
  unfolding is_storage_failure
  observation_error (observation_failed cause) = observation_failed cause
  observation_error (recovery_required cause) = observation_failed cause
  observation_error error = if is_storage_failure error then observation_failed error else error

  -- what `interrupt` latches
  abbrev pub cause_of : Error V → Error V
  cause_of (recovery_required cause) = cause
  cause_of (observation_failed cause) = cause
  cause_of error = error

  -- The first failure stays.
  unfoldable pub interrupt : Error V → Execution V → Error V × Execution V
  interrupt error x = elim x.failure [
    | some first ↦ (recovery_required first, x)
    | none ↦ (recovery_required (cause_of error), record x { failure = some (cause_of error) })
  ]

  -- the `match` of `Execution::record`
  abbrev record_mapped : Error V → Execution V → Error V × Execution V
  record_mapped (recovery_required cause) x = interrupt (recovery_required cause) x
  record_mapped rejection x = (rejection, x)

  -- `Execution::record`
  unfoldable pub record_error : Error V → Execution V → Error V × Execution V
  unfolding provider_error interrupt
  record_error error x = record_mapped (provider_error error) x

  unfoldable pub body_error : Error V → Execution V → Error V × Execution V
  unfolding interrupt
  body_error (recovery_required cause) x = interrupt (recovery_required cause) x
  body_error (observation_failed cause) x = interrupt (observation_failed cause) x
  body_error error x = (error, x)

  unfoldable pub check : Execution V → Result V (Unit {0})
  check x = elim x.failure [ some error ↦ err (recovery_required error) | none ↦ ok tt ]

  unfoldable pub storage {ℓ} : {A : Type ℓ} → Result V A → Execution V → Result V A × Execution V
  unfolding record_error
  storage (ok a) x = (ok a, x)
  storage (err error) x = let (error', x') = record_error error x in (err error', x')

  -- `check_call` of src/context.rs, with the error that a call in a step body gets
  unfoldable pub check_call : Place → String → Error V → Execution V → Result V (Unit {0})
  unfolding check
  check_call Place.elsewhere operation refused x =
      err (durable_call_outside_execution x.workflow_id operation)
  check_call Place.in_workflow operation refused x = check x
  check_call Place.in_step_body operation refused x = elim (check x) [
    | ok u ↦ err refused
    | err e ↦ err e
  ]

  -- `DurableContext::refuse_inside_body`: the check when a call is built
  unfoldable pub refuse_inside_body : Place → String → Execution V → Result V (Unit {0})
  unfolding check_call
  refuse_inside_body at operation x =
      check_call at operation (nested_durable_call x.workflow_id operation) x

  -- the check when a call is polled
  unfoldable pub check_call_poll : Place → String → Execution V → Result V (Unit {0})
  unfolding check_call
  check_call_poll at operation x = check_call at operation (durable_call_crossed_body operation) x

  -- src/error.rs
  unfoldable pub is_cancellation_for : Error V → String → Bool
  is_cancellation_for (cancelled id) workflow_id = id == workflow_id
  is_cancellation_for error workflow_id = false

abbrev is_scope_code : ErrorCode → Bool
is_scope_code ErrorCode.nested_durable_call = true
is_scope_code ErrorCode.durable_call_outside_execution = true
is_scope_code _ = false

unfoldable pub is_scope_violation : {V : Type 0} ⦃j : Host V⦄ → Error V → Bool
unfolding code
is_scope_violation error = is_scope_code (code error)
