-- ===== src/Memory/Lifecycle/Claims.antt =====
-- `claim_for_recovery` of src/memory.rs as a compare-and-set.
use durare.Prelude.{
  ℤ, pos, negsuc, true, false, some, ◌≡◌, ◌≢◌, refl, string_eq, int_eq, arith, Option-cases, inl,
  inr, ==→≡, succ_i32, wrap_i32, ltb_ℤ, ◌≤ℤ◌,
}
use durare.Map
use durare.Map.Laws.{get-insert_self}
use durare.Errors.{ok}
use durare.Host.{DateTime}
use durare.Workflow.{WorkflowStatus, status_pending, status_max_recovery_attempts_exceeded}
use durare.Memory.{Inner}
use durare.Memory.Lifecycle.{
  RecoveryClaimRequest, RecoveryClaim, claimed, parked, lost, is_stale, claim, claim_for_recovery,
}

-- The fencing counter moves with every claim, at the end of the `i32` range too.
succ_i32-ne : (a : ℤ) → succ_i32 a ≢ a
unfolding succ_i32 wrap_i32
succ_i32-ne (pos n) = ground arith
succ_i32-ne (negsuc n) = ground arith

module _ {V : Type 0} where
  recovery_attempts-claim :
      (req : RecoveryClaimRequest) (now : DateTime) (row : WorkflowStatus V)
      → (claim req now row).1.recovery_attempts ≡ succ_i32 row.recovery_attempts
  unfolding claim
  recovery_attempts-claim req now row = ground arith

  -- What a claim that wins leaves.
  won :
      (req : RecoveryClaimRequest) (now : DateTime) (g g' : Inner V) (answer : RecoveryClaim)
      → claim_for_recovery req now g ≡ (ok answer, g')
      → answer ≢ lost
      → (row : WorkflowStatus V) × (Map.get req.workflow_id g.workflows ≡ some row)
        × (is_stale req row ≡ false)
        × (answer ≡ (claim req now row).0)
        × (Map.get req.workflow_id g'.workflows ≡ some (claim req now row).1)
  unfolding claim_for_recovery
  won req now g g' answer h w = elim (Option-cases (Map.get req.workflow_id g.workflows)) [
    | inl e ↦ absurd (ground arith)
    | inr (row, e) ↦ (
      row,
      e,
      ground arith,
      ground arith,
      ground (arith, get-insert_self req.workflow_id (claim req now row).1 g.workflows),
    )
  ]

  -- Two claims on one workflow that expect the same attempt count: after the first one wins, in
  -- whichever way, the second is lost and changes nothing.
  pub claim_for_recovery-once :
      (req other : RecoveryClaimRequest) (now later : DateTime) (g g' : Inner V)
      (answer : RecoveryClaim)
      → other.workflow_id ≡ req.workflow_id
      → other.expected_attempts ≡ req.expected_attempts
      → claim_for_recovery req now g ≡ (ok answer, g')
      → answer ≢ lost
      → claim_for_recovery other later g' ≡ (ok lost, g')
  unfolding claim_for_recovery is_stale
  claim_for_recovery-once req other now later g g' answer same seen h w =
      let (row, at, fresh, _, after) = won req now g g' answer h w in
      ground (
        arith,
        after,
        recovery_attempts-claim req now row,
        ==→≡ row.recovery_attempts req.expected_attempts,
        ==→≡ (claim req now row).1.recovery_attempts other.expected_attempts,
        succ_i32-ne row.recovery_attempts,
      )

  -- A sweep that may dispatch found the row pending under the owner and at the count that it
  -- expected; the row is pending under the new owner, and its count, one more, is within the cap.
  pub claim_for_recovery-claimed :
      (req : RecoveryClaimRequest) (now : DateTime) (g g' : Inner V) (n : ℤ)
      → claim_for_recovery req now g ≡ (ok (claimed n), g')
      → (row row' : WorkflowStatus V) × (Map.get req.workflow_id g.workflows ≡ some row)
        × (row.status ≡ status_pending)
        × (row.executor_id ≡ req.expected_executor)
        × (row.recovery_attempts ≡ req.expected_attempts)
        × (Map.get req.workflow_id g'.workflows ≡ some row')
        × (row'.status ≡ status_pending)
        × (row'.executor_id ≡ req.new_executor)
        × (row'.recovery_attempts ≡ n)
        × (n ≡ succ_i32 req.expected_attempts)
        × (n ≤ℤ req.max_attempts)
  unfolding is_stale claim
  claim_for_recovery-claimed req now g g' n h =
      let (row, at, fresh, ans, after) = won req now g g' (claimed n) h (λ e. cc) in
      let s = ==→≡ row.status status_pending in
      let x = ==→≡ row.executor_id req.expected_executor in
      let a = ==→≡ row.recovery_attempts req.expected_attempts in
      (
        row,
        (claim req now row).1,
        at,
        ground (arith, s),
        ground (arith, x),
        ground (arith, a),
        after,
        ground (arith, s),
        ground arith,
        ground arith,
        ground (arith, a),
        ground arith,
      )

  claim-parked :
      (req : RecoveryClaimRequest) (now : DateTime) (row : WorkflowStatus V) (n : ℤ)
      → parked n ≡ (claim req now row).0
      → (ltb_ℤ req.max_attempts n ≡ true)
        × ((claim req now row).1.status ≡ status_max_recovery_attempts_exceeded)
  unfolding claim
  claim-parked req now row n h = ground arith

  is_stale-parked :
      (req : RecoveryClaimRequest) (row : WorkflowStatus V)
      → row.status ≡ status_max_recovery_attempts_exceeded
      → is_stale req row ≡ true
  unfolding is_stale
  is_stale-parked req row h = rw h refl

  -- A claim past the cap parks the row: it has MAX_RECOVERY_ATTEMPTS_EXCEEDED, whatever it was
  -- before, and in every later state in which the parked row is still as it was left, every claim of
  -- the workflow is lost and changes nothing.
  pub claim_for_recovery-parked :
      (req other : RecoveryClaimRequest) (now later : DateTime) (g g' h : Inner V) (n : ℤ)
      → other.workflow_id ≡ req.workflow_id
      → claim_for_recovery req now g ≡ (ok (parked n), g')
      → Map.get req.workflow_id h.workflows ≡ Map.get req.workflow_id g'.workflows
      → (ltb_ℤ req.max_attempts n ≡ true)
        × ((row : WorkflowStatus V) × (Map.get req.workflow_id g'.workflows ≡ some row)
            × (row.status ≡ status_max_recovery_attempts_exceeded))
        × (claim_for_recovery other later h ≡ (ok lost, h))
  unfolding claim_for_recovery
  claim_for_recovery-parked req other now later g g' h n same parks kept =
      let (row, at, fresh, ans, after) = won req now g g' (parked n) parks (λ e. cc) in
      let (capped, status) = claim-parked req now row n ans in
      (
        capped,
        ((claim req now row).1, after, status),
        ground (arith, same, after, kept, is_stale-parked other (claim req now row).1 status),
      )
