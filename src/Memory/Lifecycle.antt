-- ===== src/Memory/Lifecycle.antt =====
-- src/memory.rs: forks, recovery claims, and the start of a child workflow with its checkpoint.
pub mod Claims
pub mod Forks
pub mod Starts
use durare.Prelude.{
  ℤ, pos, Bool, true, false, String, Option, none, some, List, [], ◌∷◌, ◌==◌, ◌!=◌, ◌||◌, ◌&&◌,
  if◌then◌else◌, find, ltb_ℤ, succ_i32, string_eq, option_eq, int_eq, pair_eq, ◌≡◌, ◌⊎◌, refl, inl,
  inr,
}
use durare.Map
use durare.Map.{Map}
use durare.Errors.{
  Error, Result, ok, err, app_error, non_existent_workflow, workflow_conflict, cancelled,
  queue_deduplicated,
}
use durare.Host.{Host, DateTime}
use durare.Recorded.{is_none}
use durare.Workflow.{
  WorkflowStatus, new, check_child_target, status_pending, status_enqueued, status_cancelled,
  status_max_recovery_attempts_exceeded,
}
use durare.Memory.{Inner, Op, StepRow}
use durare.Memory.Status.{holds_slot}
use durare.Memory.Steps.{named_row}

-- provider.rs
pub record ForkParams : Type 0 where
  pub original_id : String
  pub new_id : String
  pub start_step : ℤ
  pub app_version : Option String
  pub queue_name : String
  pub partition_key : Option String

pub record RecoveryClaimRequest : Type 0 where
  pub workflow_id : String
  pub expected_executor : String
  pub expected_attempts : ℤ
  pub new_executor : String
  pub max_attempts : ℤ
  pub requeue : Bool

pub data RecoveryClaim : Type 0 where
  claimed : ℤ → RecoveryClaim
  requeued : RecoveryClaim
  parked : ℤ → RecoveryClaim
  lost : RecoveryClaim

pub data ChildInsert (V : Type 0) : Type 0 where
  replayed : String → ChildInsert V
  resolved : WorkflowStatus V → Bool → ChildInsert V

abbrev pub is_negative : Option ℤ → Bool
is_negative none = false
is_negative (some t) = ltb_ℤ t (pos 0)

abbrev pub unwrap_or : {A : Type 0} → Option A → A → A
unwrap_or none d = d
unwrap_or (some a) d = a

module _ {V : Type 0} where
  unfoldable pub forked_row : ForkParams → Option ℤ → DateTime → WorkflowStatus V → WorkflowStatus V
  unfolding new
  forked_row params timeout_ms now original =
      record (new params.new_id original.name original.input status_enqueued ""
        (unwrap_or params.app_version original.app_version) now) {
          timeout_ms = timeout_ms;
          forked_from = some params.original_id;
          authenticated_user = original.authenticated_user;
          assumed_role = original.assumed_role;
          authenticated_roles = original.authenticated_roles;
          class_name = original.class_name;
          config_name = original.config_name;
          attributes = original.attributes;
          queue_name = some params.queue_name;
          queue_partition_key = params.partition_key;
        }

  -- the collected checkpoints of the original below the start step
  unfoldable pub copied : String → ℤ → Map (String × ℤ) (StepRow V) → List (ℤ × StepRow V)
  copied original_id start_step [] = []
  copied original_id start_step (((wid, seq), v) ∷ m) =
      let rest = copied original_id start_step m in
      if wid == original_id && ltb_ℤ seq start_step then (seq, v) ∷ rest else rest

  unfoldable pub insert_copies :
      String → List (ℤ × StepRow V) → Map (String × ℤ) (StepRow V) → Map (String × ℤ) (StepRow V)
  insert_copies new_id [] m = m
  insert_copies new_id ((seq, v) ∷ rest) m =
      insert_copies new_id rest (Map.insert (new_id, seq) v m)

  unfoldable pub fork_workflow_with_timeout : ForkParams → Option ℤ → DateTime → Op V (Unit {0})
  unfolding forked_row copied insert_copies
  fork_workflow_with_timeout params timeout_ms now g =
      if is_negative timeout_ms
      then (err (app_error "fork timeout cannot be negative"), g)
      else elim (Map.get params.original_id g.workflows) [
        | none ↦ (err (non_existent_workflow params.original_id), g)
        | some original ↦ (
          ok tt,
          record g {
            workflows =
                Map.insert params.new_id (forked_row params timeout_ms now original) g.workflows;
            steps =
                insert_copies params.new_id (copied params.original_id params.start_step g.steps)
                  g.steps;
          },
        )
      ]

  unfoldable pub fork_workflow : ForkParams → DateTime → Op V (Unit {0})
  unfolding fork_workflow_with_timeout
  fork_workflow params = fork_workflow_with_timeout params none

  -- the compare-and-set predicate, negated
  unfoldable pub is_stale : RecoveryClaimRequest → WorkflowStatus V → Bool
  is_stale req row =
      row.status != status_pending
      || row.executor_id != req.expected_executor
      || row.recovery_attempts != req.expected_attempts

  -- the row and the answer of a claim that is not lost
  unfoldable pub claim :
      RecoveryClaimRequest → DateTime → WorkflowStatus V → RecoveryClaim × WorkflowStatus V
  claim req now row =
      let attempts = succ_i32 row.recovery_attempts in
      if ltb_ℤ req.max_attempts attempts
      then (
        parked attempts,
        record row {
          recovery_attempts = attempts;
          updated_at = now;
          status = status_max_recovery_attempts_exceeded;
          dedup_id = none;
        },
      )
      else if req.requeue
      then (
        requeued,
        record row {
          recovery_attempts = attempts;
          updated_at = now;
          status = status_enqueued;
          started_at_ms = none;
        },
      )
      else (
        claimed attempts,
        record row {
          recovery_attempts = attempts;
          updated_at = now;
          executor_id = req.new_executor;
        },
      )

  unfoldable pub claim_for_recovery : RecoveryClaimRequest → DateTime → Op V RecoveryClaim
  unfolding is_stale claim
  claim_for_recovery req now g = elim (Map.get req.workflow_id g.workflows) [
    | none ↦ (ok lost, g)
    | some row ↦
        if is_stale req row
        then (ok lost, g)
        else let (answer, row') = claim req now row in
          (ok answer, record g { workflows = Map.insert req.workflow_id row' g.workflows })
  ]

module _ {V : Type 0} ⦃j : Host V⦄ where
  -- The row that the child is adopted from, or `none` for a row to be created.
  abbrev pub slot_holder :
      Option String → Option String → Map String (WorkflowStatus V) → Option (WorkflowStatus V)
  slot_holder (some queue) (some dedup) m = find (holds_slot queue dedup) (Map.values m)
  slot_holder _ _ m = none

  abbrev refused_slot : WorkflowStatus V → Error V
  refused_slot child =
      queue_deduplicated (unwrap_or child.queue_name "") (unwrap_or child.dedup_id "")

  unfoldable pub choose :
      WorkflowStatus V → Bool → Map String (WorkflowStatus V) → Result V (Option (WorkflowStatus V))
  choose child return_existing m = elim (Map.get child.id m) [
    | some row ↦ ok (some row)
    | none ↦ elim (slot_holder child.queue_name child.dedup_id m) [
      | none ↦ ok none
      | some row ↦ if return_existing then ok (some row) else err (refused_slot child)
    ]
  ]

  pub choose-cases :
      (child : WorkflowStatus V) (return_existing : Bool) (m : Map String (WorkflowStatus V))
      → ((row : WorkflowStatus V) × (choose child return_existing m ≡ ok (some row)))
        ⊎ ((choose child return_existing m ≡ ok none)
            ⊎ ((e : Error V) × (choose child return_existing m ≡ err e)))
  choose-cases child return_existing m = cases (choose child return_existing m)
    where
      cases :
          (r : Result V (Option (WorkflowStatus V)))
          → ((row : WorkflowStatus V) × (r ≡ ok (some row)))
            ⊎ ((r ≡ ok none) ⊎ ((e : Error V) × (r ≡ err e)))
      cases (ok (some row)) = inl (row, refl)
      cases (ok none) = inr (inl refl)
      cases (err e) = inr (inr (e, refl))

  -- the end of the operation: the target check, the row if it is new, and the checkpoint
  unfoldable pub commit_child :
      WorkflowStatus V → WorkflowStatus V → Bool → String → ℤ → Op V (ChildInsert V)
  commit_child child row created parent_id seq g = elim (check_child_target row child) [
    | err e ↦ (err e, g)
    | ok _ ↦ (
      ok (resolved row created),
      record g {
        workflows = if created then Map.insert row.id row g.workflows else g.workflows;
        steps = Map.insert (parent_id, seq) (named_row child.name (some row.id)) g.steps;
      },
    )
  ]

  -- a checkpoint that is there already
  abbrev replay_child : WorkflowStatus V → String → StepRow V → Result V (ChildInsert V)
  replay_child child parent_id step =
      if step.name != child.name
      then err (workflow_conflict parent_id)
      else elim step.child_workflow_id [
        | none ↦ err (workflow_conflict parent_id)
        | some id ↦ ok (replayed id)
      ]

  -- The source wraps the answer in `Some`; `None` is for providers without this operation.
  unfoldable pub insert_child_workflow : WorkflowStatus V → String → ℤ → Bool → Op V (ChildInsert V)
  insert_child_workflow child parent_id seq return_existing g =
      elim (Map.get (parent_id, seq) g.steps) [
        | some step ↦ (replay_child child parent_id step, g)
        | none ↦ elim (Map.get parent_id g.workflows) [
          | none ↦ (err (non_existent_workflow parent_id), g)
          | some parent ↦
              if parent.status == status_cancelled
              then (err (cancelled parent_id), g)
              else elim (choose child return_existing g.workflows) [
                | err e ↦ (err e, g)
                | ok (some row) ↦ commit_child child row false parent_id seq g
                | ok none ↦ commit_child child child true parent_id seq g
              ]
        ]
      ]
