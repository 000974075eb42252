-- ===== src/Tests/Lifecycle.antt =====
-- Tests of the theorems on creation, status writes and recovery.
use durare.Prelude.{
  any, any, pos, ◌≤ℤ◌, ltb_ℤ, succ_i32, wrap_i32, true, false, String, none, some, [], ◌∷◌,
  string_eq, option_eq, int_eq, pair_eq, refl, ◌≡◌, ◌≢◌, ◌⊎◌, inl,
}
use durare.Errors.{ok}
use durare.Workflow.{
  status_max_recovery_attempts_exceeded, WorkflowStatus, is_terminal, status_pending,
  status_success, status_error, status_cancelled,
}
use durare.Memory.{Inner, empty}
use durare.Memory.Status.{
  insert_row, insert_checked, insert_workflow_status, get_workflow_status, is_allowed, set_row,
  set_workflow_status,
}
use durare.Memory.Status.Creation.{
  insert_workflow_status-ok, insert_workflow_status-twice, set_workflow_status-terminal,
  set_workflow_status-completed,
}
use durare.Memory.Lifecycle.{
  RecoveryClaimRequest, claimed, lost, is_stale, claim, claim_for_recovery,
}
use durare.Memory.Lifecycle.Claims.{
  claim_for_recovery-once, claim_for_recovery-claimed, claim_for_recovery-parked,
}
use durare.Map
use durare.Tests.{pending, done, one, queued, several, with_rows, sample_host}

abbrev renamed : WorkflowStatus String
renamed = record pending { name = "bill" }

insert_workflow_status-ok_example :
    (get_workflow_status "w" one ≡ some pending) × (true ≡ true) × (pending ≡ pending)
unfolding insert_workflow_status insert_checked insert_row Map.get Map.insert get_workflow_status
insert_workflow_status-ok_example = insert_workflow_status-ok pending pending true empty one refl

-- Another row with the id and the slot of the queued one.
abbrev rebilled : WorkflowStatus String
rebilled = record queued { name = "bill" }

insert_workflow_status-twice_example :
    insert_workflow_status rebilled (with_rows (("q", queued) ∷ []))
    ≡ (ok (queued, false), with_rows (("q", queued) ∷ []))
unfolding insert_workflow_status insert_checked insert_row Map.get Map.insert any
insert_workflow_status-twice_example =
    insert_workflow_status-twice queued rebilled queued true empty (with_rows (("q", queued) ∷ []))
      refl refl refl refl

abbrev finished : WorkflowStatus String
finished = record pending {
  status = status_success;
  output = some "9";
  completed_at_ms = some (pos 99);
  updated_at = pos 99;
}

set_workflow_status-terminal_example :
    (((status_success ≡ status_cancelled)
        × (status_pending ≢ status_success)
        × (status_pending ≢ status_error)
        × (status_pending ≢ status_cancelled))
      ⊎ (status_pending ≡ status_pending))
    × ((row' : WorkflowStatus String) × (get_workflow_status "w" (with_rows (("w", finished) ∷ []))
          ≡ some row')
        × (row'.status ≡ status_success)
        × (row'.completed_at_ms ≡ some (pos 99))
        × (row'.dedup_id ≡ none))
unfolding set_workflow_status get_workflow_status Map.get Map.insert is_allowed is_terminal set_row
set_workflow_status-terminal_example =
    set_workflow_status-terminal "w" status_success (some "9") none (pos 99) one
      (with_rows (("w", finished) ∷ [])) pending refl refl refl

set_workflow_status-completed_example :
    set_workflow_status "d" status_cancelled none none (pos 99) several ≡ (ok false, several)
unfolding get_workflow_status Map.get is_terminal
set_workflow_status-completed_example =
    set_workflow_status-completed "d" status_cancelled none none (pos 99) several done refl refl
      (inl refl)

-- A sweep by executor `b` of the workflow that executor `a` left pending.
abbrev sweep : RecoveryClaimRequest
sweep = record {
  workflow_id = "w";
  expected_executor = "a";
  expected_attempts = pos 0;
  new_executor = "b";
  requeue = false;
  max_attempts = pos 3;
}

abbrev rival_sweep : RecoveryClaimRequest
rival_sweep = record sweep { new_executor = "z" }

abbrev hopeless : RecoveryClaimRequest
hopeless = record sweep { max_attempts = pos 0 }

abbrev swept : RecoveryClaimRequest → Inner String
unfolding claim_for_recovery Map.get Map.insert
swept req = (claim_for_recovery req (pos 60) one).1

claim_for_recovery-once_example :
    claim_for_recovery rival_sweep (pos 61) (swept sweep) ≡ (ok lost, swept sweep)
unfolding claim_for_recovery Map.get Map.insert is_stale claim succ_i32 wrap_i32
claim_for_recovery-once_example =
    claim_for_recovery-once sweep rival_sweep (pos 60) (pos 61) one (swept sweep) (claimed (pos 1))
      refl refl refl (λ e. cc)

claim_for_recovery-claimed_example :
    (before after : WorkflowStatus String) × (Map.get "w" one.workflows ≡ some before)
    × (before.status ≡ status_pending)
    × (before.executor_id ≡ "a")
    × (before.recovery_attempts ≡ pos 0)
    × (Map.get "w" (swept sweep).workflows ≡ some after)
    × (after.status ≡ status_pending)
    × (after.executor_id ≡ "b")
    × (after.recovery_attempts ≡ pos 1)
    × (pos 1 ≡ succ_i32 (pos 0))
    × (pos 1 ≤ℤ pos 3)
unfolding claim_for_recovery Map.get succ_i32 swept wrap_i32
claim_for_recovery-claimed_example =
    claim_for_recovery-claimed sweep (pos 60) one (swept sweep) (pos 1) refl

claim_for_recovery-parked_example :
    (ltb_ℤ (pos 0) (pos 1) ≡ true)
    × ((row : WorkflowStatus String) × (Map.get "w" (swept hopeless).workflows ≡ some row)
        × (row.status ≡ status_max_recovery_attempts_exceeded))
    × (claim_for_recovery sweep (pos 61) (swept hopeless) ≡ (ok lost, swept hopeless))
unfolding claim_for_recovery Map.get succ_i32 swept wrap_i32
claim_for_recovery-parked_example =
    claim_for_recovery-parked hopeless sweep (pos 60) (pos 61) one (swept hopeless) (swept hopeless)
      (pos 1) refl refl refl
