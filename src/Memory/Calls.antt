-- ===== src/Memory/Calls.antt =====
-- The provider as a state machine. An operation of `StateProvider` that changes the state of
-- `InMemoryProvider` is a call, all but `import_workflow`, which takes its rows from exported JSON
-- and is not modelled; the mutex makes each call one step, so the histories without an import of any
-- number of concurrent executors are the lists of calls.
pub mod Kept
pub mod Slots
pub mod Distinct
pub mod Children
pub mod Updates
pub mod OneSlot
use durare.Prelude.{ℤ, ℕ, Bool, true, false, String, Option, List, [], ◌∷◌, ◌!=◌, string_eq}
use durare.Errors.{Result}
use durare.Host.{Host, DateTime}
use durare.Workflow.{WorkflowStatus}
use durare.Schedule.{WorkflowSchedule, ScheduleStatus, ScheduleUpdate, WorkflowQueue}
use durare.Memory.{Inner, NotificationInsert}
use durare.Memory.Status
use durare.Memory.Steps
use durare.Memory.Messages
use durare.Memory.Dispatch
use durare.Memory.Dispatch.{DequeueRequest}
use durare.Memory.Streams
use durare.Memory.Manage
use durare.Memory.Lifecycle
use durare.Memory.Lifecycle.{ForkParams, RecoveryClaimRequest}
use durare.Memory.Registry

pub data RegistryCall (V : Type 0) : Type 0 where
  create_schedule : WorkflowSchedule V → RegistryCall V
  update_schedule :
      (String → Option String) → (String → Bool) → String → ScheduleUpdate V → RegistryCall V
  apply_schedules : List (WorkflowSchedule V) → RegistryCall V
  set_schedule_status : String → ScheduleStatus → RegistryCall V
  set_schedule_last_fired : String → ℤ → RegistryCall V
  delete_schedule : String → RegistryCall V
  create_application_version : String → String → DateTime → RegistryCall V
  set_latest_application_version : String → DateTime → RegistryCall V
  upsert_queue : WorkflowQueue → Bool → RegistryCall V

pub data Call (V : Type 0) : Type 0 where
  insert_workflow_status : WorkflowStatus V → Call V
  set_workflow_status : String → String → Option V → Option String → DateTime → Call V
  record_step_result :
      String → ℤ → String → V → Option String → Option ℤ → Option String → DateTime → Call V
  record_child_workflow : String → ℤ → String → String → Call V
  record_patch : String → ℤ → String → Call V
  insert_child_workflow : WorkflowStatus V → String → ℤ → Bool → Call V
  dequeue_workflows : DequeueRequest → DateTime → (String → DateTime) → Call V
  transition_delayed_workflows : ℤ → (String → DateTime) → Call V
  insert_notification : String → String → V → Option String → String → DateTime → Call V
  insert_notifications : List (NotificationInsert V) → (ℕ → String) → DateTime → Call V
  send_from_workflow :
      String → ℤ → String → List (NotificationInsert V) → (ℕ → String) → DateTime → Call V
  consume_notification : String → String → ℤ → String → DateTime → Call V
  upsert_event : String → String → V → Call V
  write_stream : String → String → Option V → ℤ → Call V
  write_stream_from_workflow : String → ℤ → String → String → Option V → DateTime → Call V
  cancel_workflows_with_options : List String → Bool → DateTime → Call V
  resume_workflow : String → DateTime → Call V
  resume_workflows : List String → DateTime → Call V
  enqueue_existing : String → String → DateTime → Call V
  delete_workflows : List String → Bool → Call V
  set_workflow_delay : String → ℤ → DateTime → Call V
  set_workflow_attributes : String → Option (List (String × V)) → DateTime → Call V
  fork_workflow_with_timeout : ForkParams → Option ℤ → DateTime → Call V
  claim_for_recovery : RecoveryClaimRequest → DateTime → Call V
  registry : RegistryCall V → Call V

module _ {V : Type 0} ⦃j : Host V⦄ where
  unfoldable pub apply_registry : RegistryCall V → Inner V → Inner V
  apply_registry (create_schedule s) g = (Registry.create_schedule s g).1
  apply_registry (update_schedule c t n u) g = (Registry.update_schedule c t n u g).1
  apply_registry (apply_schedules l) g = (Registry.apply_schedules l g).1
  apply_registry (set_schedule_status n s) g = (Registry.set_schedule_status n s g).1
  apply_registry (set_schedule_last_fired n t) g = (Registry.set_schedule_last_fired n t g).1
  apply_registry (delete_schedule n) g = (Registry.delete_schedule n g).1
  apply_registry (create_application_version n u t) g =
      (Registry.create_application_version n u t g).1
  apply_registry (set_latest_application_version n t) g =
      (Registry.set_latest_application_version n t g).1
  apply_registry (upsert_queue q u) g = (Registry.upsert_queue q u g).1

  -- The state after a call, whatever it returns.
  unfoldable pub apply : Call V → Inner V → Inner V
  apply (insert_workflow_status s) g = (Status.insert_workflow_status s g).1
  apply (set_workflow_status i s o e t) g = (Status.set_workflow_status i s o e t g).1
  apply (record_step_result w q n v e s x t) g = (Steps.record_step_result w q n v e s x t g).1
  apply (record_child_workflow p q n c) g = (Steps.record_child_workflow p q n c g).1
  apply (record_patch w q n) g = (Steps.record_patch w q n g).1
  apply (insert_child_workflow c p q r) g = (Lifecycle.insert_child_workflow c p q r g).1
  apply (dequeue_workflows r t k) g = (Dispatch.dequeue_workflows r t k g).1
  apply (transition_delayed_workflows t k) g = (Dispatch.transition_delayed_workflows t k g).1
  apply (insert_notification d p m k u t) g = (Messages.insert_notification d p m k u t g).1
  apply (insert_notifications r u t) g = (Messages.insert_notifications r u t g).1
  apply (send_from_workflow w q n r u t) g = (Messages.send_from_workflow w q n r u t g).1
  apply (consume_notification w p q n t) g = (Messages.consume_notification w p q n t g).1
  apply (upsert_event w k v) g = (Streams.upsert_event w k v g).1
  apply (write_stream w k v f) g = (Streams.write_stream w k v f g).1
  apply (write_stream_from_workflow w q n k v t) g =
      (Streams.write_stream_from_workflow w q n k v t g).1
  apply (cancel_workflows_with_options i c t) g = (Manage.cancel_workflows_with_options i c t g).1
  apply (resume_workflow i t) g = (Manage.resume_workflow i t g).1
  apply (resume_workflows i t) g = (Manage.resume_workflows i t g).1
  apply (enqueue_existing i q t) g = (Manage.enqueue_existing i q t g).1
  apply (delete_workflows i c) g = (Manage.delete_workflows i c g).1
  apply (set_workflow_delay i d t) g = (Manage.set_workflow_delay i d t g).1
  apply (set_workflow_attributes i a t) g = (Manage.set_workflow_attributes i a t g).1
  apply (fork_workflow_with_timeout p o t) g = (Lifecycle.fork_workflow_with_timeout p o t g).1
  apply (claim_for_recovery r t) g = (Lifecycle.claim_for_recovery r t g).1
  apply (registry c) g = apply_registry c g

  unfoldable pub run : Inner V → List (Call V) → Inner V
  run g [] = g
  run g (c ∷ cs) = run (apply c g) cs
