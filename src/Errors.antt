-- ===== src/Errors.antt =====
-- src/error.rs, with the envelope of src/serialize.rs and the divergences of src/replay.rs: the
-- errors that the library returns, their text and their stable codes.
use durare.Prelude.{ℤ, Bool, String, Option, none, [], ◌∷◌, format, display_ℤ, ◌≡◌, refl}

-- The errors of a driver, of a migration and of serde_json, and the source of an application error,
-- are known by their text only. The field
-- `payload` is the source's `data`, which is a keyword here.
pub record PortableWorkflowError (V : Type 0) : Type 0 where
  pub name : String
  pub message : String
  pub code : Option V
  pub payload : Option V

pub data ErrorCode : Type 0 where
  recovery_required database initialization serialization : ErrorCode
  workflow_not_registered queue_not_registered non_existent_workflow : ErrorCode
  queue_deduplicated not_authorized workflow_cancelled : ErrorCode
  max_recovery_attempts_exceeded conflicting_registration timeout unexpected_step : ErrorCode
  nested_durable_call durable_call_outside_execution workflow_conflict : ErrorCode
  replay_diverged application workflow_target_conflict : ErrorCode

pub record RecordedError : Type 0 where
  pub code : ErrorCode
  pub message : String
  pub retryable : Bool
  pub tx_conflict : Bool
  pub unique_violation : Bool
  pub foreign_key_violation : Bool

pub data Divergence : Type 0 where
  mismatch : ℤ → String → String → Divergence
  extra : ℤ → String → Divergence
  missing : ℤ → String → Divergence
  failed : String → Divergence

pub data Error (V : Type 0) : Type 0 where
  recovery_required : Error V → Error V
  observation_failed : Error V → Error V
  recorded : RecordedError → Error V
  db : String → Error V
  migrate : String → Error V
  serde : String → Error V
  output_serialization : String → Error V
  serialization : String → Error V
  unknown_workflow : String → Error V
  unknown_queue : String → Error V
  non_existent_workflow : String → Error V
  not_authorized : String → Error V
  queue_deduplicated : String → String → Error V
  cancelled : String → Error V
  max_recovery_attempts_exceeded : String → Error V
  conflicting_registration : String → Error V
  timeout : Error V
  unexpected_step : String → ℤ → String → String → Error V
  nested_durable_call : String → String → Error V
  durable_call_crossed_body : String → Error V
  durable_call_outside_execution : String → String → Error V
  workflow_conflict : String → Error V
  replay_diverged : String → Divergence → Error V
  -- with its source, if it has one
  app : String → Option String → Error V
  portable : PortableWorkflowError V → Error V

-- `Error::app`
abbrev pub app_error : {V : Type 0} → String → Error V
app_error message = app message none

-- `crate::Result`
pub data Result {ℓ} (V : Type 0) (A : Type ℓ) : Type ℓ where
  ok : A → Result V A
  err : Error V → Result V A

-- The `?` operator.
infixl 5 ◌>>=◌
abbrev pub ◌>>=◌ {ℓ κ} :
    {V : Type 0} {A : Type ℓ} {B : Type κ} → Result V A → (A → Result V B) → Result V B
err e >>= next = err e
ok a >>= next = next a

unfoldable pub display_divergence : Divergence → String
display_divergence (mismatch position expected found) = format (
    "step "
    ∷ display_ℤ position
    ∷ ": the code now issues `"
    ∷ expected
    ∷ "`, but `"
    ∷ found
    ∷ "` is recorded there"
    ∷ [])
display_divergence (extra position operation) = format (
    "step "
    ∷ display_ℤ position
    ∷ ": the code now issues `"
    ∷ operation
    ∷ "`, which the recorded history does not have"
    ∷ [])
display_divergence (missing position found) = format (
    "step "
    ∷ display_ℤ position
    ∷ ": the code no longer reaches `"
    ∷ found
    ∷ "`, which is recorded there"
    ∷ [])
display_divergence (failed error) =
    format ("the recorded run did not fail, but the re-run did — " ∷ error ∷ [])

unfoldable pub display : {V : Type 0} → Error V → String
unfolding display_divergence
display (recovery_required cause) =
    format ("workflow execution requires recovery: " ∷ display cause ∷ [])
display (observation_failed cause) =
    format ("workflow operation could not be observed: " ∷ display cause ∷ [])
display (recorded error) = error.message
display (db e) = format ("database error: " ∷ e ∷ [])
display (migrate e) = format ("migration error: " ∷ e ∷ [])
display (serde e) = format ("serialization error: " ∷ e ∷ [])
display (output_serialization e) = format ("serialization error: " ∷ e ∷ [])
display (serialization e) = format ("serialization format error: " ∷ e ∷ [])
display (unknown_workflow name) = format ("no workflow registered under name `" ∷ name ∷ "`" ∷ [])
display (unknown_queue name) = format ("no queue registered under name `" ∷ name ∷ "`" ∷ [])
display (non_existent_workflow id) = format ("workflow `" ∷ id ∷ "` does not exist" ∷ [])
display (not_authorized msg) = format ("not authorized: " ∷ msg ∷ [])
display (queue_deduplicated queue_name dedup_id) =
    format ("deduplication id `" ∷ dedup_id ∷ "` already in use on queue `" ∷ queue_name ∷ "`" ∷ [])
display (cancelled id) = format ("workflow `" ∷ id ∷ "` was cancelled" ∷ [])
display (max_recovery_attempts_exceeded id) =
    format ("workflow `" ∷ id ∷ "` exceeded its maximum recovery attempts" ∷ [])
display (conflicting_registration name) =
    format ("workflow name `" ∷ name ∷ "` is registered more than once" ∷ [])
display timeout = "operation timed out"
display (unexpected_step workflow_id step_id expected found) = format (
    "workflow `"
    ∷ workflow_id
    ∷ "` step "
    ∷ display_ℤ step_id
    ∷ " is `"
    ∷ expected
    ∷ "` but `"
    ∷ found
    ∷ "` is recorded there — the workflow function is non-deterministic"
    ∷ [])
display (nested_durable_call workflow_id operation) = format (
    "workflow `" ∷ workflow_id ∷ "`: `" ∷ operation
    ∷ "` was created inside another durable operation's body — a durable call cannot hold its position there"
    ∷ [])
display (durable_call_crossed_body operation) = format (
    "`" ∷ operation
    ∷ "` was built outside the durable body it is being awaited in — await it where it was built"
    ∷ [])
display (durable_call_outside_execution workflow_id operation) = format (
    "workflow `" ∷ workflow_id ∷ "`: `" ∷ operation
    ∷ "` was used outside its original workflow execution; keep durable calls in the workflow body or start a child workflow"
    ∷ [])
display (workflow_conflict id) = format (
    "workflow `" ∷ id
    ∷ "` is being executed concurrently by another process; this execution lost the step-checkpoint race"
    ∷ [])
display (replay_diverged workflow_id divergence) = format (
    "workflow `"
    ∷ workflow_id
    ∷ "` no longer replays its recorded history: "
    ∷ display_divergence divergence
    ∷ [])
display (app message source) = message
display (portable info) = info.message

-- Inversion of a chain that succeeds.
pub >>=-ok {ℓ κ} :
    {V : Type 0} {A : Type ℓ} {B : Type κ} (r : Result V A) (next : A → Result V B) {b : B}
    → (r >>= next) ≡ ok b
    → (a : A) × (r ≡ ok a) × (next a ≡ ok b)
>>=-ok (ok a) next h = (a, refl, h)
>>=-ok (err e) next h = cc
