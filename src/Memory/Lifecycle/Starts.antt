-- ===== src/Memory/Lifecycle/Starts.antt =====
-- `insert_child_workflow` of src/memory.rs, first runs and replays.
use durare.Prelude.{
  ℤ, Bool, true, false, String, some, ◌≡◌, refl, string_eq, option_eq, int_eq, pair_eq, arith,
  Option-cases, inl, inr, ==→≡, ==_refl,
}
use durare.Map
use durare.Map.{Map}
use durare.Map.Laws.{get-insert_self}
use durare.Errors.{ok}
use durare.Host.{Host}
use durare.Workflow.{WorkflowStatus}
use durare.Memory.{Inner, StepRow}
use durare.Memory.Steps.{named_row}
use durare.Memory.Lifecycle.{
  ChildInsert, replayed, resolved, choose-cases, commit_child, replay_child, insert_child_workflow,
}

-- The child's id in an answer.
abbrev pub answered_id : {V : Type 0} → ChildInsert V → String
answered_id (replayed id) = id
answered_id (resolved row created) = row.id

module _ {V : Type 0} ⦃j : Host V⦄ where
  -- The step at the position names the child with this id.
  abbrev Names : String → ℤ → String → String → Inner V → Type 0
  Names p q name id g =
      (row : StepRow V) × (Map.get (p, q) g.steps ≡ some row)
      × (row.name ≡ name)
      × (row.child_workflow_id ≡ some id)

  commit_child-Names :
      (child row : WorkflowStatus V) (created : Bool) (p : String) (q : ℤ) (g g' : Inner V)
      (a : ChildInsert V)
      → commit_child child row created p q g ≡ (ok a, g')
      → Names p q child.name (answered_id a) g'
  unfolding commit_child
  commit_child-Names child row created p q g g' a h =
      let step : StepRow V = named_row child.name (some row.id) in
      (step, ground (arith, get-insert_self (p, q) step g.steps), refl, ground arith)

  replay_child-Names :
      (child : WorkflowStatus V) (p : String) (step : StepRow V) (a : ChildInsert V)
      → replay_child child p step ≡ ok a
      → (step.name ≡ child.name) × (step.child_workflow_id ≡ some (answered_id a))
  replay_child-Names child p step a h = elim (Option-cases step.child_workflow_id) [
    | inl e ↦ absurd (ground arith)
    | inr (id, e) ↦ (ground (arith, ==→≡ step.name child.name), ground arith)
  ]

  answered :
      (child : WorkflowStatus V) (p : String) (q : ℤ) (existing : Bool) (g g' : Inner V)
      (a : ChildInsert V)
      → insert_child_workflow child p q existing g ≡ (ok a, g')
      → Names p q child.name (answered_id a) g'
  unfolding insert_child_workflow
  answered child p q existing g g' a h = elim (Option-cases (Map.get (p, q) g.steps)) [
    | inr (step, e) ↦
        let (n, c) = replay_child-Names child p step a (ground arith) in (step, ground arith, n, c)
    | inl e ↦ elim (Option-cases (Map.get p g.workflows)) [
      | inl n ↦ absurd (ground arith)
      | inr (parent, n) ↦ elim (choose-cases child existing g.workflows) [
        | inl (row, k) ↦ commit_child-Names child row false p q g g' a (ground arith)
        | inr (inl k) ↦ commit_child-Names child child true p q g g' a (ground arith)
        | inr (inr (x, k)) ↦ absurd (ground arith)
      ]
    ]
  ]

  -- Once a start has succeeded, every start of a child of that name at its position, whatever row
  -- it brings, replays the same child's id and changes nothing.
  pub insert_child_workflow-replay :
      (child again : WorkflowStatus V) (p : String) (q : ℤ) (existing existing' : Bool)
      (g g' : Inner V) (a : ChildInsert V)
      → again.name ≡ child.name
      → insert_child_workflow child p q existing g ≡ (ok a, g')
      → insert_child_workflow again p q existing' g' ≡ (ok (replayed (answered_id a)), g')
  unfolding insert_child_workflow
  insert_child_workflow-replay child again p q existing existing' g g' a same h =
      let (row, at, named, id) = answered child p q existing g g' a h in
      ground (arith, at, named, id, same, ==_refl child.name)
