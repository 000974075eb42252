-- ===== src/Memory/Calls/OneSlot.antt =====
-- Ids and deduplication slots through histories of the calls of src/memory.rs.
use durare.Prelude.{
  ℤ, ℕ, Bool, true, String, Option, none, some, List, [], ◌∷◌, ◌≡◌, refl, string_eq, option_eq,
  int_eq, pair_eq, arith, inl, inr,
}
use durare.Host.{Host, DateTime}
use durare.Workflow.{WorkflowStatus}
use durare.Memory.{
  Inner, StepRow, NotificationInsert, push_notifications, append_stream, checkpoint,
}
use durare.Memory.Status
use durare.Memory.Steps
use durare.Memory.Messages
use durare.Memory.Dispatch
use durare.Memory.Streams
use durare.Memory.Manage
use durare.Memory.Registry
use durare.Memory.Calls.{Call, RegistryCall, apply, apply_registry, run}
use durare.Memory.Calls.Slots.{Table, Tame, map_values-Table, move-Table}
use durare.Memory.Calls.Distinct.{Ok, insert_checked-Ok, cancel_all-Table, delete_all-Ok}
use durare.Memory.Calls.Children.{insert_child_workflow-Ok}
use durare.Memory.Calls.Updates.{
  has_no_slot, set_workflow_status-Ok, record_step_result-Ok, dequeue_workflows-Ok,
  resume_workflow-Ok, resume_all-Table, set_workflow_delay-Ok, set_workflow_attributes-Ok,
  enqueue_existing-Ok, claim_for_recovery-Ok, fork_workflow-Ok,
}

module _ {V : Type 0} ⦃j : Host V⦄ where
  workflows-push_notifications :
      (rows : List (NotificationInsert V)) (u : ℕ → String) (t : DateTime) (g : Inner V)
      → (push_notifications rows u t g).1.workflows ≡ g.workflows
  unfolding push_notifications
  workflows-push_notifications rows u t g = ground arith

  workflows-append_stream :
      (w k : String) (v : Option V) (g : Inner V)
      → (append_stream w k v g).1.workflows ≡ g.workflows
  unfolding append_stream
  workflows-append_stream w k v g = ground arith

  workflows-send_from_workflow :
      (w : String) (q : ℤ) (n : String) (rows : List (NotificationInsert V)) (u : ℕ → String)
      (t : DateTime) (g : Inner V)
      → (Messages.send_from_workflow w q n rows u t g).1.workflows ≡ g.workflows
  unfolding Messages.send_from_workflow checkpoint
  workflows-send_from_workflow w q n rows u t g =
      ground (arith, workflows-push_notifications rows u t g)

  workflows-consume_notification :
      (w p : String) (q : ℤ) (n : String) (t : DateTime) (g : Inner V)
      → (Messages.consume_notification w p q n t g).1.workflows ≡ g.workflows
  unfolding Messages.consume_notification checkpoint
  workflows-consume_notification w p q n t g =
      elim (Messages.Claim-cases (Messages.claim_oldest w p g.notifications)) [
        | inl e ↦ ground arith
        | inr (m, rows, e) ↦ ground arith
      ]

  workflows-write_stream_from_workflow :
      (w : String) (q : ℤ) (n k : String) (v : Option V) (t : DateTime) (g : Inner V)
      → (Streams.write_stream_from_workflow w q n k v t g).1.workflows ≡ g.workflows
  unfolding Streams.write_stream_from_workflow checkpoint
  workflows-write_stream_from_workflow w q n k v t g =
      ground (arith, workflows-append_stream w k v g)

  workflows-insert_if_absent :
      (w : String) (q : ℤ) (new : StepRow V) (g : Inner V)
      → (Steps.insert_if_absent w q new g).1.workflows ≡ g.workflows
  unfolding Steps.insert_if_absent
  workflows-insert_if_absent w q new g = ground arith

  workflows-apply_registry :
      (c : RegistryCall V) (g : Inner V) → (apply_registry c g).workflows ≡ g.workflows
  unfolding apply_registry Registry.create_schedule Registry.update_schedule
      Registry.apply_schedules Registry.set_schedule_status Registry.set_schedule_last_fired
      Registry.delete_schedule Registry.create_application_version
      Registry.set_latest_application_version Registry.upsert_queue
  workflows-apply_registry (RegistryCall.create_schedule s) g = ground arith
  workflows-apply_registry _ g = ground arith

  enqueue_due-Tame :
      (now : ℤ) (k : String → DateTime) (w : WorkflowStatus V)
      → Tame w (Dispatch.enqueue_due now k w)
  enqueue_due-Tame now k w = ground arith

  -- A re-enqueue finds the row without a deduplication id, as it is after a resume.
  abbrev pub requeues_cleared : Call V → Inner V → Bool
  requeues_cleared (Call.enqueue_existing id queue now) g = has_no_slot id g
  requeues_cleared _ g = true

  apply-Ok : (c : Call V) (g : Inner V) → requeues_cleared c g ≡ true → Ok g → Ok (apply c g)
  unfolding apply Status.insert_workflow_status Steps.record_child_workflow Steps.record_patch
      Dispatch.transition_delayed_workflows Messages.insert_notification
      Messages.insert_notifications Streams.upsert_event Streams.write_stream
      Manage.cancel_workflows_with_options Manage.resume_workflows Manage.delete_workflows
  apply-Ok (Call.insert_workflow_status s) g p t =
      insert_checked-Ok s.queue_name s.dedup_id s g refl refl t
  apply-Ok (Call.set_workflow_status i s o e now) g p t = set_workflow_status-Ok i s o e now g t
  apply-Ok (Call.record_step_result w q n v e s x now) g p t =
      record_step_result-Ok w q n v e s x now g t
  apply-Ok (Call.record_child_workflow w q n c) g p t =
      move-Table g.workflows t (workflows-insert_if_absent w q (Steps.named_row n (some c)) g)
  apply-Ok (Call.record_patch w q n) g p t =
      move-Table g.workflows t (workflows-insert_if_absent w q (Steps.named_row n none) g)
  apply-Ok (Call.insert_child_workflow c w q r) g p t = insert_child_workflow-Ok c w q r g t
  apply-Ok (Call.dequeue_workflows r now k) g p t = dequeue_workflows-Ok r now k g t
  apply-Ok (Call.transition_delayed_workflows now k) g p t =
      map_values-Table (Dispatch.enqueue_due now k) g.workflows (λ w. enqueue_due-Tame now k w) t
  apply-Ok (Call.insert_notification d q m k u now) g p t = move-Table g.workflows t (ground arith)
  apply-Ok (Call.insert_notifications rows u now) g p t =
      move-Table g.workflows t (workflows-push_notifications rows u now g)
  apply-Ok (Call.send_from_workflow w q n rows u now) g p t =
      move-Table g.workflows t (workflows-send_from_workflow w q n rows u now g)
  apply-Ok (Call.consume_notification w k q n now) g p t =
      move-Table g.workflows t (workflows-consume_notification w k q n now g)
  apply-Ok (Call.upsert_event w k v) g p t = t
  apply-Ok (Call.write_stream w k v f) g p t =
      move-Table g.workflows t (workflows-append_stream w k v g)
  apply-Ok (Call.write_stream_from_workflow w q n k v now) g p t =
      move-Table g.workflows t (workflows-write_stream_from_workflow w q n k v now g)
  apply-Ok (Call.cancel_workflows_with_options ids c now) g p t =
      cancel_all-Table now (Manage.targets_of c g.workflows ids) g.workflows t
  apply-Ok (Call.resume_workflow i now) g p t = resume_workflow-Ok i now g t
  apply-Ok (Call.resume_workflows ids now) g p t = resume_all-Table now ids g.workflows t
  apply-Ok (Call.enqueue_existing i q now) g p t = enqueue_existing-Ok i q now g p t
  apply-Ok (Call.delete_workflows ids c) g p t =
      delete_all-Ok g (Manage.targets_of c g.workflows ids) t
  apply-Ok (Call.set_workflow_delay i d now) g p t = set_workflow_delay-Ok i d now g t
  apply-Ok (Call.set_workflow_attributes i a now) g p t = set_workflow_attributes-Ok i a now g t
  apply-Ok (Call.fork_workflow_with_timeout r o now) g p t = fork_workflow-Ok r o now g t
  apply-Ok (Call.claim_for_recovery r now) g p t = claim_for_recovery-Ok r now g t
  apply-Ok (Call.registry c) g p t = move-Table g.workflows t (workflows-apply_registry c g)

  -- Every re-enqueue of the history finds its row without a deduplication id.
  abbrev pub RequeuesCleared : Inner V → List (Call V) → Type 0
  RequeuesCleared g [] = Unit
  RequeuesCleared g (c ∷ cs) = (requeues_cleared c g ≡ true) × RequeuesCleared (apply c g) cs

  -- From a table with one row per id, each under its own id, and one row per deduplication slot,
  -- every history of calls leads to such a table, provided that it imports no workflow (an import is
  -- no `Call`) and that every re-enqueue finds its row without a deduplication id.
  pub run-Table :
      (cs : List (Call V)) (g : Inner V)
      → RequeuesCleared g cs
      → Table g.workflows
      → Table (run g cs).workflows
  unfolding run
  run-Table [] g p t = t
  run-Table (c ∷ cs) g p t = run-Table cs (apply c g) p.1 (apply-Ok c g p.0 t)
