-- ===== src/Memory/Manage.antt =====
-- src/memory.rs: the operator's side. Cancel, resume, re-enqueue, delete, delays and attributes.
pub mod Descendants
pub mod Closure
pub mod Removal
use durare.Prelude.{
  ℤ, pos, ℕ, zero, suc, ◌+◌, Bool, true, false, String, Option, none, some, List, [], ◌∷◌, ◌++◌,
  ◌==◌, ◌!=◌, ◌||◌, ◌&&◌, not, if◌then◌else◌, contains, length, filter, string_eq, option_eq,
  get_elem?,
}
use durare.Map
use durare.Map.{Map}
use durare.Errors.{Result, ok, err, non_existent_workflow}
use durare.Host.{Host, DateTime}
use durare.Workflow.{
  WorkflowStatus, status_pending, status_success, status_error, status_cancelled, status_enqueued,
  status_delayed,
}
use durare.Memory.{Inner, Op}

unfoldable pub is_completed : String → Bool
is_completed status = status == status_success || status == status_error

unfoldable pub is_closed : String → Bool
is_closed status = status == status_success || status == status_error || status == status_cancelled

module _ {V : Type 0} where
  -- The inner loop of the traversal: the children of `parent` that are no targets yet, in the order
  -- of the map. A child that was pushed is seen by the tests that follow.
  unfoldable pub push_children : String → Map String (WorkflowStatus V) → List String → List String
  push_children parent [] targets = targets
  push_children parent ((id, row) ∷ m) targets = push_children parent m (
      if row.parent_workflow_id == some parent && not (contains targets id)
      then targets ++ id ∷ []
      else targets)

  -- `while i < targets.len()`; `none` is a traversal that ran out of fuel.
  unfoldable pub collect :
      ℕ → Map String (WorkflowStatus V) → ℕ → List String → Option (List String)
  collect zero m i targets = none
  collect (suc fuel) m i targets = elim (get_elem? targets i) [
    | none ↦ some targets
    | some parent ↦ collect fuel m (suc i) (push_children parent m targets)
  ]

  -- The fuel is one more than the given ids and the rows together.
  unfoldable pub descendants : Map String (WorkflowStatus V) → List String → List String
  descendants m ids = elim (collect (suc (length ids + length m)) m 0 ids) [
    | none ↦ []
    | some targets ↦ targets
  ]

  abbrev pub targets_of : Bool → Map String (WorkflowStatus V) → List String → List String
  targets_of false m ids = ids
  targets_of true m ids = descendants m ids

module _ {V : Type 0} ⦃j : Host V⦄ where
  unfoldable pub cancel_row : DateTime → WorkflowStatus V → WorkflowStatus V
  unfolding is_closed
  cancel_row now row = if is_closed row.status then row else record row {
    status = status_cancelled;
    completed_at_ms = some (j.timestamp_millis now);
    started_at_ms = none;
    queue_name = none;
    dedup_id = none;
    updated_at = now;
  }

  -- `if let Some(row) = g.workflows.get_mut(&id)` around an update of the row
  abbrev update_row :
      (WorkflowStatus V → WorkflowStatus V)
      → String
      → Map String (WorkflowStatus V)
      → Map String (WorkflowStatus V)
  update_row f id m = elim (Map.get id m) [ none ↦ m | some row ↦ Map.insert id (f row) m ]

  unfoldable pub cancel_all :
      DateTime → List String → Map String (WorkflowStatus V) → Map String (WorkflowStatus V)
  unfolding cancel_row
  cancel_all now [] m = m
  cancel_all now (id ∷ ids) m = cancel_all now ids (update_row (cancel_row now) id m)

  -- the flag is `CancelOptions::cancel_children`
  unfoldable pub cancel_workflows_with_options : List String → Bool → DateTime → Op V (Unit {0})
  cancel_workflows_with_options ids cancel_children now g = (
    ok tt,
    record g {
      workflows = cancel_all now (targets_of cancel_children g.workflows ids) g.workflows;
    },
  )

  unfoldable pub cancel_workflows : List String → DateTime → Op V (Unit {0})
  unfolding cancel_workflows_with_options
  cancel_workflows ids = cancel_workflows_with_options ids false

  unfoldable pub cancel_workflow : String → DateTime → Op V (Unit {0})
  unfolding cancel_workflows
  cancel_workflow id = cancel_workflows (id ∷ [])

  -- `attributes.filter(|m| !m.is_empty()).map(Value::Object)`
  abbrev pub stored_attributes : Option (List (String × V)) → Option V
  stored_attributes none = none
  stored_attributes (some []) = none
  stored_attributes (some (e ∷ m)) = some (j.object (e ∷ m))

  unfoldable pub set_workflow_attributes :
      String → Option (List (String × V)) → DateTime → Op V (Unit {0})
  set_workflow_attributes id attributes now g = elim (Map.get id g.workflows) [
    | none ↦ (err (non_existent_workflow id), g)
    | some row ↦ (
      ok tt,
      record g {
        workflows =
            Map.insert id
              (record row { attributes = stored_attributes attributes; updated_at = now })
              g.workflows;
      },
    )
  ]

module _ {V : Type 0} where
  unfoldable pub resume_row : DateTime → WorkflowStatus V → WorkflowStatus V
  resume_row now row = record row {
    status = status_pending;
    recovery_attempts = pos 0;
    deadline_ms = none;
    dedup_id = none;
    started_at_ms = none;
    completed_at_ms = none;
    updated_at = now;
  }

  unfoldable pub resume_workflow : String → DateTime → Op V Bool
  unfolding is_completed resume_row
  resume_workflow id now g = elim (Map.get id g.workflows) [
    | none ↦ (ok false, g)
    | some row ↦
        if is_completed row.status
        then (ok false, g)
        else (ok true, record g { workflows = Map.insert id (resume_row now row) g.workflows })
  ]

  abbrev pub cons_resumed :
      String
      → List String × Map String (WorkflowStatus V)
      → List String × Map String (WorkflowStatus V)
  cons_resumed id (ids, m) = (id ∷ ids, m)

  -- the resumed ids, in the order of the argument
  unfoldable pub resume_all :
      DateTime
      → List String
      → Map String (WorkflowStatus V)
      → List String × Map String (WorkflowStatus V)
  unfolding is_completed resume_row
  resume_all now [] m = ([], m)
  resume_all now (id ∷ ids) m =
      let skipped = resume_all now ids m in
      elim (Map.get id m) [
        | none ↦ skipped
        | some row ↦
            let resumed =
              cons_resumed id (resume_all now ids (Map.insert id (resume_row now row) m)) in
            if is_completed row.status then skipped else resumed
      ]

  unfoldable pub resume_workflows : List String → DateTime → Op V (List String)
  unfolding resume_all
  resume_workflows ids now g =
      let (resumed, workflows) = resume_all now ids g.workflows in
      (ok resumed, record g { workflows = workflows })

  unfoldable pub enqueue_existing : String → String → DateTime → Op V (Unit {0})
  enqueue_existing id queue now g = elim (Map.get id g.workflows) [
    | none ↦ (ok tt, g)
    | some row ↦ (
      ok tt,
      record g {
        workflows =
            Map.insert id
              (record row {
                status = status_enqueued;
                queue_name = some queue;
                executor_id = "";
                started_at_ms = none;
                updated_at = now;
              })
              g.workflows;
      },
    )
  ]

  -- One turn of the deleting loop: the row, its steps, its streams and its mailbox.
  unfoldable pub delete_one : Inner V → String → Inner V
  delete_one g id = record g {
    workflows = Map.remove id g.workflows;
    steps = Map.retain (λ (k : String × ℤ). k.0 != id) g.steps;
    streams = Map.retain (λ (k : String × String). k.0 != id) g.streams;
    notifications = filter (λ n. n.destination_id != id) g.notifications;
  }

  unfoldable pub delete_all : Inner V → List String → Inner V
  unfolding delete_one
  delete_all g [] = g
  delete_all g (id ∷ ids) = delete_all (delete_one g id) ids

  unfoldable pub delete_workflows : List String → Bool → Op V (Unit {0})
  unfolding delete_all
  delete_workflows ids delete_children g =
      (ok tt, delete_all g (targets_of delete_children g.workflows ids))

  unfoldable pub set_workflow_delay : String → ℤ → DateTime → Op V Bool
  set_workflow_delay id delay_until_ms now g = elim (Map.get id g.workflows) [
    | none ↦ (ok false, g)
    | some row ↦
        if row.status == status_delayed
        then (
          ok true,
          record g {
            workflows =
                Map.insert id
                  (record row { delay_until_ms = some delay_until_ms; updated_at = now })
                  g.workflows;
          },
        )
        else (ok false, g)
  ]
