-- ===== src/Memory/Calls/Kept.antt =====
-- Recorded steps through histories of the calls of src/memory.rs.
use durare.Prelude.{
  ℤ, Bool, true, false, String, Option, none, some, List, [], ◌∷◌, ◌≡◌, ◌==◌, ◌!=◌, All, string_eq,
  option_eq, int_eq, pair_eq, arith, Option-cases, inl, inr, ℕ,
}
use durare.Map
use durare.Map.{Map}
use durare.Map.Laws.{get-insert, get-insert_absent}
use durare.Errors.{ok}
use durare.Host.{Host, DateTime}
use durare.Workflow.{WorkflowStatus}
use durare.Memory.{
  Inner, StepRow, NotificationInsert, recorded_at, checkpoint, push_notifications, append_stream,
}
use durare.Memory.Steps
use durare.Memory.Steps.{refresh_executor, insert_if_absent}
use durare.Memory.Steps.Checkpoints.{steps-refresh_executor}
use durare.Memory.Messages
use durare.Memory.Streams
use durare.Memory.Manage
use durare.Memory.Lifecycle
use durare.Memory.Lifecycle.{ForkParams, insert_copies}
use durare.Memory.Status
use durare.Memory.Dispatch
use durare.Memory.Registry
use durare.Memory.Calls.{Call, RegistryCall, apply, apply_registry, run}

-- The call neither deletes workflows nor forks onto `workflow_id`.
unfoldable pub spares : {V : Type 0} → String → Call V → Bool
spares workflow_id (Call.delete_workflows ids children) = false
spares workflow_id (Call.fork_workflow_with_timeout params timeout now) =
    params.new_id != workflow_id
spares workflow_id _ = true

module _ {V : Type 0} ⦃j : Host V⦄ (workflow_id : String) (seq : ℤ) (row : StepRow V) where
  -- The step is recorded.
  abbrev Holds : Inner V → Type 0
  Holds g = Map.get (workflow_id, seq) g.steps ≡ some row

  pub insert_if_absent-Holds :
      (w : String) (q : ℤ) (new : StepRow V) (g : Inner V)
      → Holds g
      → Holds (insert_if_absent w q new g).1
  unfolding insert_if_absent
  insert_if_absent-Holds w q new g h = elim (Option-cases (Map.get (w, q) g.steps)) [
    | inl e ↦ ground (arith, get-insert_absent (w, q) (workflow_id, seq) new g.steps e h)
    | inr (old, e) ↦ ground arith
  ]

  pub record_step_result-Holds :
      (w : String) (q : ℤ) (n : String) (v : V) (e : Option String) (s : Option ℤ)
      (x : Option String) (t : DateTime) (g : Inner V)
      → Holds g
      → Holds (Steps.record_step_result w q n v e s x t g).1
  unfolding Steps.record_step_result
  record_step_result-Holds w q n v e s x t g h = elim (Option-cases (Map.get (w, q) g.steps)) [
    | inl p ↦
        let new = Steps.outcome_row n v e s t in
        ground (
          arith,
          steps-refresh_executor w x (record g { steps = Map.insert (w, q) new g.steps }),
          get-insert_absent (w, q) (workflow_id, seq) new g.steps p h,
        )
    | inr (old, p) ↦ ground arith
  ]

  pub recorded_at-none :
      (g : Inner V) (w : String) (q : ℤ) (n : String)
      → recorded_at g w q n ≡ ok none
      → Map.get (w, q) g.steps ≡ none
  unfolding recorded_at
  recorded_at-none g w q n h = ground arith

  checkpoint-Holds :
      (g g' : Inner V) (w : String) (q : ℤ) (n : String) (v : V) (t : DateTime)
      → recorded_at g w q n ≡ ok none
      → g'.steps ≡ g.steps
      → Holds g
      → Holds (checkpoint g' w q n v t)
  unfolding checkpoint
  checkpoint-Holds g g' w q n v t fresh same h =
      get-insert_absent (w, q) (workflow_id, seq) _ g'.steps
        (rw same (recorded_at-none g w q n fresh)) (rw same h)

  pub steps-push_notifications :
      (rows : List (NotificationInsert V)) (u : ℕ → String) (t : DateTime) (g : Inner V)
      → (push_notifications rows u t g).1.steps ≡ g.steps
  unfolding push_notifications
  steps-push_notifications rows u t g = ground arith

  pub steps-append_stream :
      (w k : String) (v : Option V) (g : Inner V) → (append_stream w k v g).1.steps ≡ g.steps
  unfolding append_stream
  steps-append_stream w k v g = ground arith

  pub send_from_workflow-Holds :
      (w : String) (q : ℤ) (n : String) (rows : List (NotificationInsert V)) (u : ℕ → String)
      (t : DateTime) (g : Inner V)
      → Holds g
      → Holds (Messages.send_from_workflow w q n rows u t g).1
  unfolding Messages.send_from_workflow
  send_from_workflow-Holds w q n rows u t g h = ground (
    arith,
    steps-push_notifications rows u t g,
    checkpoint-Holds g (push_notifications rows u t g).1 w q n j.null t,
  )

  consume_notification-Holds :
      (w p : String) (q : ℤ) (n : String) (t : DateTime) (g : Inner V)
      → Holds g
      → Holds (Messages.consume_notification w p q n t g).1
  unfolding Messages.consume_notification
  consume_notification-Holds w p q n t g h =
      elim (Messages.Claim-cases (Messages.claim_oldest w p g.notifications)) [
        | inl e ↦ ground arith
        | inr (m, rows, e) ↦
            ground (arith, checkpoint-Holds g (record g { notifications = rows }) w q n m.message t)
      ]

  pub write_stream_from_workflow-Holds :
      (w : String) (q : ℤ) (n k : String) (v : Option V) (t : DateTime) (g : Inner V)
      → Holds g
      → Holds (Streams.write_stream_from_workflow w q n k v t g).1
  unfolding Streams.write_stream_from_workflow
  write_stream_from_workflow-Holds w q n k v t g h = ground (
    arith,
    steps-append_stream w k v g,
    checkpoint-Holds g (append_stream w k v g).1 w q n j.null t,
  )

  commit_child-Holds :
      (c r : WorkflowStatus V) (created : Bool) (p : String) (q : ℤ) (g : Inner V)
      → Map.get (p, q) g.steps ≡ none
      → Holds g
      → Holds (Lifecycle.commit_child c r created p q g).1
  unfolding Lifecycle.commit_child
  commit_child-Holds c r created p q g e h = ground (
    arith,
    get-insert_absent (p, q) (workflow_id, seq) (Steps.named_row c.name (some r.id)) g.steps e h,
  )

  insert_child_workflow-Holds :
      (c : WorkflowStatus V) (p : String) (q : ℤ) (r : Bool) (g : Inner V)
      → Holds g
      → Holds (Lifecycle.insert_child_workflow c p q r g).1
  unfolding Lifecycle.insert_child_workflow
  insert_child_workflow-Holds c p q r g h = elim (Option-cases (Map.get (p, q) g.steps)) [
    | inr (old, e) ↦ ground arith
    | inl e ↦ elim (Lifecycle.choose-cases c r g.workflows) [
      | inl (row, k) ↦ ground (arith, commit_child-Holds c row false p q g)
      | inr other ↦ ground (arith, commit_child-Holds c c true p q g)
    ]
  ]

  insert_copies-Holds :
      (new_id : String) (l : List (ℤ × StepRow V)) (m : Map (String × ℤ) (StepRow V))
      → (new_id == workflow_id) ≡ false
      → Map.get (workflow_id, seq) m ≡ some row
      → Map.get (workflow_id, seq) (insert_copies new_id l m) ≡ some row
  unfolding insert_copies
  insert_copies-Holds new_id [] m d h = h
  insert_copies-Holds new_id ((q, v) ∷ l) m d h =
      insert_copies-Holds new_id l (Map.insert (new_id, q) v m) d
        (ground (arith, get-insert (new_id, q) (workflow_id, seq) v m))

  fork_workflow-Holds :
      (p : ForkParams) (o : Option ℤ) (t : DateTime) (g : Inner V)
      → (p.new_id != workflow_id) ≡ true
      → Holds g
      → Holds (Lifecycle.fork_workflow_with_timeout p o t g).1
  unfolding Lifecycle.fork_workflow_with_timeout
  fork_workflow-Holds p o t g d h = ground (
    arith,
    insert_copies-Holds p.new_id (Lifecycle.copied p.original_id p.start_step g.steps) g.steps,
  )

  steps-apply_registry : (c : RegistryCall V) (g : Inner V) → (apply_registry c g).steps ≡ g.steps
  unfolding apply_registry Registry.create_schedule Registry.update_schedule
      Registry.apply_schedules Registry.set_schedule_status Registry.set_schedule_last_fired
      Registry.delete_schedule Registry.create_application_version
      Registry.set_latest_application_version Registry.upsert_queue
  steps-apply_registry (RegistryCall.create_schedule s) g = ground arith
  steps-apply_registry _ g = ground arith

  steps-insert_checked :
      (queue dedup : Option String) (status : WorkflowStatus V) (g : Inner V)
      → (Status.insert_checked queue dedup status g).1.steps ≡ g.steps
  unfolding Status.insert_checked Status.insert_row
  steps-insert_checked none dedup status g = ground arith
  steps-insert_checked (some q) none status g = ground arith
  steps-insert_checked (some q) (some d) status g = ground arith

  -- One call that spares the workflow keeps a recorded step.
  apply-Holds :
      (c : Call V) (g : Inner V) → spares workflow_id c ≡ true → Holds g → Holds (apply c g)
  unfolding apply spares Status.insert_workflow_status Status.set_workflow_status
      Steps.record_child_workflow Steps.record_patch Dispatch.dequeue_workflows
      Dispatch.transition_delayed_workflows Messages.insert_notification
      Messages.insert_notifications Streams.upsert_event Streams.write_stream
      Manage.cancel_workflows_with_options Manage.resume_workflow Manage.resume_workflows
      Manage.enqueue_existing Manage.set_workflow_delay Manage.set_workflow_attributes
      Lifecycle.claim_for_recovery
  apply-Holds (Call.insert_workflow_status s) g p h =
      rw (steps-insert_checked s.queue_name s.dedup_id s g) h
  apply-Holds (Call.record_step_result w q n v e s x t) g p h =
      record_step_result-Holds w q n v e s x t g h
  apply-Holds (Call.record_child_workflow w q n c) g p h =
      insert_if_absent-Holds w q (Steps.named_row n (some c)) g h
  apply-Holds (Call.record_patch w q n) g p h =
      insert_if_absent-Holds w q (Steps.named_row n none) g h
  apply-Holds (Call.insert_child_workflow c w q r) g p h = insert_child_workflow-Holds c w q r g h
  apply-Holds (Call.insert_notifications rows u t) g p h = rw steps-push_notifications h
  apply-Holds (Call.send_from_workflow w q n rows u t) g p h =
      send_from_workflow-Holds w q n rows u t g h
  apply-Holds (Call.consume_notification w k q n t) g p h = consume_notification-Holds w k q n t g h
  apply-Holds (Call.write_stream w k v f) g p h = rw steps-append_stream h
  apply-Holds (Call.write_stream_from_workflow w q n k v t) g p h =
      write_stream_from_workflow-Holds w q n k v t g h
  apply-Holds (Call.delete_workflows ids c) g p h = cc
  apply-Holds (Call.fork_workflow_with_timeout r o t) g p h = fork_workflow-Holds r o t g p h
  apply-Holds (Call.registry c) g p h = rw steps-apply_registry h
  apply-Holds _ g p h = ground arith

  -- A recorded step stays as it is through every history of calls, by any executors, that imports no
  -- workflow (an import is no `Call`), deletes none and does not fork onto the id of this one.
  pub run-keeps_step :
      (cs : List (Call V)) (g : Inner V)
      → All (λ c. spares workflow_id c ≡ true) cs
      → Map.get (workflow_id, seq) g.steps ≡ some row
      → Map.get (workflow_id, seq) (run g cs).steps ≡ some row
  unfolding run
  run-keeps_step [] g p h = h
  run-keeps_step (c ∷ cs) g p h = run-keeps_step cs (apply c g) p.1 (apply-Holds c g p.0 h)
