-- ===== src/Memory/Calls/Children.antt =====
-- `insert_child_workflow` of src/memory.rs on the workflow table.
use durare.Prelude.{
  ℤ, Bool, true, false, String, Option, none, some, ◌≡◌, refl, ◌==◌, string_eq, option_eq, int_eq,
  pair_eq, arith, Option-cases, Bool-cases, inl, inr, sym, ◌∙◌,
}
use durare.Map
use durare.Map.{Map}
use durare.Map.Values.{find-none}
use durare.Errors.{Result, ok, err}
use durare.Host.{Host}
use durare.Workflow.{WorkflowStatus, check_child_target, status_cancelled}
use durare.Memory.{Inner}
use durare.Memory.Status.{holds_slot}
use durare.Memory.Lifecycle.{slot_holder, choose, choose-cases, commit_child, insert_child_workflow}
use durare.Memory.Calls.Slots.{InSlot, Free, insert-Table, move-Table}
use durare.Memory.Calls.Distinct.{Ok, holds_slot-InSlot}

module _ {V : Type 0} ⦃j : Host V⦄ where
  not_held :
      (queue dedup : Option String) (m : Map String (WorkflowStatus V)) (q d l : String)
      (v : WorkflowStatus V)
      → slot_holder queue dedup m ≡ none
      → queue ≡ some q
      → dedup ≡ some d
      → Map.get l m ≡ some v
      → ¬ InSlot q d v
  not_held none dedup m q d l v h eq ed g s = cc
  not_held (some q') none m q d l v h eq ed g s = cc
  not_held (some q') (some d') m q d l v h eq ed g s =
      let free = find-none (holds_slot q' d') m h l {v = v} g in
      let held = holds_slot-InSlot q' d' v (s.0 ∙ sym eq, s.1 ∙ sym ed) in cc

  choose-Free :
      (child : WorkflowStatus V) (existing : Bool) (m : Map String (WorkflowStatus V))
      → choose child existing m ≡ ok none
      → Free child.id child m
  unfolding choose
  choose-Free child existing m h q d l v s g sv =
      elim (Option-cases (slot_holder child.queue_name child.dedup_id m)) [
        | inl e ↦ absurd (not_held child.queue_name child.dedup_id m q d l v e s.0 s.1 g sv)
        | inr (w, e) ↦ absurd (ground arith)
      ]

  commit_child-Ok :
      (child row : WorkflowStatus V) (created : Bool) (p : String) (q : ℤ) (g : Inner V)
      → (created ≡ true → Free row.id row g.workflows)
      → Ok g
      → Ok (commit_child child row created p q g).1
  unfolding commit_child
  commit_child-Ok child row created p q g free t = cases (check_child_target row child) refl
    where
      cases :
          (r : Result V (Unit {0}))
          → check_child_target row child ≡ r
          → Ok (commit_child child row created p q g).1
      cases (err e) h = move-Table g.workflows t (ground arith)
      cases (ok u) h = elim (Bool-cases created) [
        | inl c ↦
            move-Table (Map.insert row.id row g.workflows)
              (insert-Table row.id row g.workflows refl (free c) t) (ground arith)
        | inr c ↦ move-Table g.workflows t (ground arith)
      ]

  pub insert_child_workflow-Ok :
      (child : WorkflowStatus V) (p : String) (q : ℤ) (existing : Bool) (g : Inner V)
      → Ok g
      → Ok (insert_child_workflow child p q existing g).1
  unfolding insert_child_workflow
  insert_child_workflow-Ok child p q existing g t = elim (Option-cases (Map.get (p, q) g.steps)) [
    | inr (step, e) ↦ move-Table g.workflows t (ground arith)
    | inl e ↦ elim (Option-cases (Map.get p g.workflows)) [
      | inl n ↦ move-Table g.workflows t (ground arith)
      | inr (parent, n) ↦ elim (Bool-cases (parent.status == status_cancelled)) [
        | inl c ↦ move-Table g.workflows t (ground arith)
        | inr c ↦ chosen parent e n c
      ]
    ]
  ]
    where
      chosen :
          (parent : WorkflowStatus V)
          → Map.get (p, q) g.steps ≡ none
          → Map.get p g.workflows ≡ some parent
          → (parent.status == status_cancelled) ≡ false
          → Ok (insert_child_workflow child p q existing g).1
      chosen parent e n c = elim (choose-cases child existing g.workflows) [
        | inl (row, k) ↦
            move-Table (commit_child child row false p q g).1.workflows
              (commit_child-Ok child row false p q g (λ f. absurd (ground arith)) t) (ground arith)
        | inr (inl k) ↦
            move-Table (commit_child child child true p q g).1.workflows
              (commit_child-Ok child child true p q g
                (λ f. choose-Free child existing g.workflows k) t)
              (ground arith)
        | inr (inr (x, k)) ↦ move-Table g.workflows t (ground arith)
      ]
