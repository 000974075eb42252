-- ===== src/Memory/Calls/Updates.antt =====
-- The operations of src/memory.rs that rewrite rows, on the workflow table.
use durare.Prelude.{
  pos, leb_ℤ, ℤ, Bool, true, String, Option, none, some, List, [], ◌∷◌, ◌≡◌, refl, ◌==◌, ◌⊎◌,
  string_eq, option_eq, int_eq, pair_eq, arith, Option-cases, Bool-cases, inl, inr, ==→≡,
}
use durare.Map
use durare.Map.{Map, Unique}
use durare.Host.{Host, DateTime}
use durare.Workflow.{WorkflowStatus, new, status_delayed, status_enqueued}
use durare.Memory.{Inner}
use durare.Memory.Status
use durare.Memory.Status.{holds_slot}
use durare.Memory.Steps
use durare.Memory.Dispatch
use durare.Memory.Manage
use durare.Memory.Lifecycle
use durare.Memory.Lifecycle.{ForkParams, RecoveryClaimRequest}
use durare.Memory.Calls.Slots.{Table, Tame, insert-Table, update-Table, move-Table}
use durare.Memory.Calls.Distinct.{
  Ok, no_slot-Free, set_row-Tame, refresh_executor-Ok, claim_all-Table, resume_row-Tame,
}

module _ {V : Type 0} ⦃j : Host V⦄ where
  -- An update of the row `i`, if there is one, that is tame.
  Tame-update :
      (f : WorkflowStatus V → WorkflowStatus V) (i : String) (g : Inner V)
      {m : Map String (WorkflowStatus V)}
      → ((row : WorkflowStatus V) → Map.get i g.workflows ≡ some row → Tame row (f row))
      → (Map.get i g.workflows ≡ none → m ≡ g.workflows)
      → ((row : WorkflowStatus V)
          → Map.get i g.workflows ≡ some row
          → (m ≡ Map.insert i (f row) g.workflows) ⊎ (m ≡ g.workflows))
      → Ok g
      → Table m
  Tame-update f i g tame absent present t = elim (Option-cases (Map.get i g.workflows)) [
    | inl h ↦ move-Table g.workflows t (absent h)
    | inr (row, h) ↦ elim (present row h) [
      | inl e ↦
          move-Table (Map.insert i (f row) g.workflows)
            (update-Table i row (f row) g.workflows h (tame row h) t) e
      | inr e ↦ move-Table g.workflows t e
    ]
  ]

  pub set_workflow_status-Ok :
      (i s : String) (o : Option V) (e : Option String) (now : DateTime) (g : Inner V)
      → Ok g
      → Ok (Status.set_workflow_status i s o e now g).1
  unfolding Status.set_workflow_status
  set_workflow_status-Ok i s o e now g t =
      Tame-update (Status.set_row s o e now) i g (λ row h. set_row-Tame s o e now row)
        (λ h. ground arith)
        (λ row h. elim (Bool-cases (Status.is_allowed s row.status)) [
          | inl a ↦ inl (ground arith)
          | inr a ↦ inr (ground arith)
        ])
        t

  pub record_step_result-Ok :
      (w : String) (q : ℤ) (n : String) (v : V) (e : Option String) (s : Option ℤ)
      (x : Option String) (now : DateTime) (g : Inner V)
      → Ok g
      → Ok (Steps.record_step_result w q n v e s x now g).1
  unfolding Steps.record_step_result
  record_step_result-Ok w q n v e s x now g t = elim (Option-cases (Map.get (w, q) g.steps)) [
    | inl h ↦
        let new = Steps.outcome_row n v e s now in
        let stored : Inner V = record g { steps = Map.insert (w, q) new g.steps } in
        move-Table (Steps.refresh_executor w x stored).workflows (refresh_executor-Ok w x stored t)
          (ground arith)
    | inr (row, h) ↦ move-Table g.workflows t (ground arith)
  ]

  pub dequeue_workflows-Ok :
      (r : Dispatch.DequeueRequest) (now : DateTime) (clock : String → DateTime) (g : Inner V)
      → Ok g
      → Ok (Dispatch.dequeue_workflows r now clock g).1
  unfolding Dispatch.dequeue_workflows
  dequeue_workflows-Ok r now clock g t =
      let now_ms = j.timestamp_millis now in
      let tasks = Dispatch.max_tasks r now_ms (Map.values g.workflows) in
      let ts = Dispatch.select_ids r tasks g in
      elim (Bool-cases (leb_ℤ tasks (pos 0))) [
        | inl e ↦ move-Table g.workflows t (ground arith)
        | inr e ↦
            move-Table (Dispatch.claim_all r now_ms clock ts g.workflows).1
              (claim_all-Table r now_ms clock ts g.workflows t) (ground arith)
      ]

  pub resume_workflow-Ok :
      (i : String) (now : DateTime) (g : Inner V) → Ok g → Ok (Manage.resume_workflow i now g).1
  unfolding Manage.resume_workflow
  resume_workflow-Ok i now g t =
      Tame-update (Manage.resume_row now) i g (λ row h. resume_row-Tame now row) (λ h. ground arith)
        (λ row h. elim (Bool-cases (Manage.is_completed row.status)) [
          | inl a ↦ inr (ground arith)
          | inr a ↦ inl (ground arith)
        ])
        t

  cons_resumed-map :
      (id : String) (r : List String × Map String (WorkflowStatus V))
      → (Manage.cons_resumed id r).1 ≡ r.1
  cons_resumed-map id (l, m) = refl

  pub resume_all-Table :
      (now : DateTime) (ids : List String) (m : Map String (WorkflowStatus V))
      → Table m
      → Table (Manage.resume_all now ids m).1
  unfolding Manage.resume_all
  resume_all-Table now [] m t = t
  resume_all-Table now (id ∷ ids) m t =
      let skipped = resume_all-Table now ids m t in
      elim (Option-cases (Map.get id m)) [
        | inl h ↦ move-Table (Manage.resume_all now ids m).1 skipped (ground arith)
        | inr (row, h) ↦ elim (Bool-cases (Manage.is_completed row.status)) [
          | inl a ↦ move-Table (Manage.resume_all now ids m).1 skipped (ground arith)
          | inr a ↦
              let m' = Map.insert id (Manage.resume_row now row) m in
              let rest = Manage.resume_all now ids m' in
              move-Table rest.1
                (resume_all-Table now ids m'
                  (update-Table id row (Manage.resume_row now row) m h (resume_row-Tame now row) t))
                (ground (arith, cons_resumed-map id rest))
        ]
      ]

  pub set_workflow_delay-Ok :
      (i : String) (d : ℤ) (now : DateTime) (g : Inner V)
      → Ok g
      → Ok (Manage.set_workflow_delay i d now g).1
  unfolding Manage.set_workflow_delay
  set_workflow_delay-Ok i d now g t =
      Tame-update (λ row. record row { delay_until_ms = some d; updated_at = now }) i g
        (λ row h. (refl, inr (refl, refl))) (λ h. ground arith)
        (λ row h. elim (Bool-cases (row.status == status_delayed)) [
          | inl a ↦ inl (ground arith)
          | inr a ↦ inr (ground arith)
        ])
        t

  pub set_workflow_attributes-Ok :
      (i : String) (a : Option (List (String × V))) (now : DateTime) (g : Inner V)
      → Ok g
      → Ok (Manage.set_workflow_attributes i a now g).1
  unfolding Manage.set_workflow_attributes
  set_workflow_attributes-Ok i a now g t =
      Tame-update (λ row. record row { attributes = Manage.stored_attributes a; updated_at = now })
        i g (λ row h. (refl, inr (refl, refl))) (λ h. ground arith) (λ row h. inl (ground arith)) t

  -- The row at `i`, if there is one, has no deduplication id.
  abbrev pub has_no_slot : String → Inner V → Bool
  has_no_slot i g = elim (Map.get i g.workflows) [ none ↦ true | some row ↦ row.dedup_id == none ]

  pub enqueue_existing-Ok :
      (i q : String) (now : DateTime) (g : Inner V)
      → has_no_slot i g ≡ true
      → Ok g
      → Ok (Manage.enqueue_existing i q now g).1
  unfolding Manage.enqueue_existing
  enqueue_existing-Ok i q now g clear t =
      Tame-update
        (λ row. record row {
          status = status_enqueued;
          queue_name = some q;
          executor_id = "";
          started_at_ms = none;
          updated_at = now;
        })
        i g (λ row h. (refl, inl (==→≡ row.dedup_id none (ground (arith, h, clear)))))
        (λ h. ground arith) (λ row h. inl (ground arith)) t

  claim-Tame :
      (r : RecoveryClaimRequest) (now : DateTime) (row : WorkflowStatus V)
      → Tame row (Lifecycle.claim r now row).1
  unfolding Lifecycle.claim
  claim-Tame r now row = ground arith

  pub claim_for_recovery-Ok :
      (r : RecoveryClaimRequest) (now : DateTime) (g : Inner V)
      → Ok g
      → Ok (Lifecycle.claim_for_recovery r now g).1
  unfolding Lifecycle.claim_for_recovery
  claim_for_recovery-Ok r now g t =
      Tame-update (λ row. (Lifecycle.claim r now row).1) r.workflow_id g
        (λ row h. claim-Tame r now row) (λ h. ground arith)
        (λ row h. elim (Bool-cases (Lifecycle.is_stale r row)) [
          | inl a ↦ inr (ground arith)
          | inr a ↦ inl (ground arith)
        ])
        t

  pub fork_workflow-Ok :
      (p : ForkParams) (o : Option ℤ) (now : DateTime) (g : Inner V)
      → Ok g
      → Ok (Lifecycle.fork_workflow_with_timeout p o now g).1
  unfolding Lifecycle.fork_workflow_with_timeout
  fork_workflow-Ok p o now g t = elim (Bool-cases (Lifecycle.is_negative o)) [
    | inl h ↦ move-Table g.workflows t (ground arith)
    | inr h ↦ elim (Option-cases (Map.get p.original_id g.workflows)) [
      | inl e ↦ move-Table g.workflows t (ground arith)
      | inr (original, e) ↦
          let forked = Lifecycle.forked_row p o now original in
          move-Table (Map.insert p.new_id forked g.workflows)
            (unfold Lifecycle.forked_row new in
              insert-Table p.new_id forked g.workflows refl
                (no_slot-Free p.new_id forked g.workflows (inr refl)) t)
            (ground arith)
    ]
  ]
