-- ===== src/Memory/Status/Creation.antt =====
-- `insert_workflow_status` and `set_workflow_status` of src/memory.rs on all their branches.
use durare.Prelude.{
  Bool, true, false, String, Option, none, some, ◌≡◌, ◌≢◌, refl, ◌==◌, if◌then◌else◌, string_eq,
  option_eq, arith, Option-cases, Bool-cases, inl, inr, ==→≡, any, ◌⊎◌, sym, ◌∙◌, subst, ap,
  ==_refl,
}
use durare.Map
use durare.Map.Laws.{get-insert_self}
use durare.Map.Values.{any-find, any-insert}
use durare.Errors.{Error, ok, err, queue_deduplicated}
use durare.Host.{Host, DateTime}
use durare.Workflow.{
  WorkflowStatus, is_terminal, status_pending, status_success, status_error, status_cancelled,
}
use durare.Memory.{Inner}
use durare.Memory.Status.{
  holds_slot, is_rival, insert_row, insert_checked, insert_workflow_status,
  get_deduplicated_workflow, get_workflow_status, is_allowed, set_row, set_workflow_status,
}

module _ {V : Type 0} where
  insert_row-ok :
      (status row : WorkflowStatus V) (created : Bool) (g g' : Inner V)
      → insert_row status g ≡ (ok (row, created), g')
      → (Map.get status.id g'.workflows ≡ some row)
        × (created ≡ (elim (Map.get status.id g.workflows) [ none ↦ true | some w ↦ false ]))
        × (if created then row ≡ status else g' ≡ g)
  unfolding insert_row
  insert_row-ok status row created g g' h = elim (Option-cases (Map.get status.id g.workflows)) [
    | inl e ↦ ground (arith, get-insert_self status.id status g.workflows)
    | inr (w, e) ↦ ground arith
  ]

  -- With no conflict the check lets the creation through, and with one it refuses.
  insert_checked-cases :
      (queue dedup : Option String) (status : WorkflowStatus V) (g : Inner V)
      → (insert_checked queue dedup status g ≡ insert_row status g)
        ⊎ ((q d : String) × (queue ≡ some q)
            × (dedup ≡ some d)
            × (any (is_rival status.id q d) (Map.values g.workflows) ≡ true)
            × (insert_checked queue dedup status g ≡ (err (queue_deduplicated q d), g)))
  unfolding insert_checked
  insert_checked-cases none dedup status g = inl refl
  insert_checked-cases (some q) none status g = inl refl
  insert_checked-cases (some q) (some d) status g =
      elim (Bool-cases (any (is_rival status.id q d) (Map.values g.workflows))) [
        | inl e ↦ inr (q, d, refl, refl, e, rw e refl)
        | inr e ↦ inl (rw e refl)
      ]

  -- A creation that succeeds returns the row that the state now has under the id; the row is the
  -- caller's exactly when no row was there, and otherwise nothing changes.
  pub insert_workflow_status-ok :
      (status row : WorkflowStatus V) (created : Bool) (g g' : Inner V)
      → insert_workflow_status status g ≡ (ok (row, created), g')
      → (get_workflow_status status.id g' ≡ some row)
        × (created ≡ (elim (get_workflow_status status.id g) [ none ↦ true | some w ↦ false ]))
        × (if created then row ≡ status else g' ≡ g)
  unfolding insert_workflow_status get_workflow_status
  insert_workflow_status-ok status row created g g' h =
      elim (insert_checked-cases status.queue_name status.dedup_id status g) [
        | inl e ↦ insert_row-ok status row created g g' (sym e ∙ h)
        | inr (q, d, _, _, _, e) ↦ absurd (cc (sym e ∙ h))
      ]

  is_rival_self : (id q d : String) (w : WorkflowStatus V) → w.id ≡ id → is_rival id q d w ≡ false
  unfolding is_rival
  is_rival_self id q d w h = ground (arith, h, ==_refl id)

  -- A row that is written under its id is no rival of itself.
  insert_row-rivals :
      (id q d : String) (status row : WorkflowStatus V) (created : Bool) (g g' : Inner V)
      → status.id ≡ id
      → any (is_rival id q d) (Map.values g.workflows) ≡ false
      → insert_row status g ≡ (ok (row, created), g')
      → any (is_rival id q d) (Map.values g'.workflows) ≡ false
  unfolding insert_row
  insert_row-rivals id q d status row created g g' same none_there h =
      elim (Option-cases (Map.get status.id g.workflows)) [
        | inl e ↦ ground (
          arith,
          any-insert (is_rival id q d) status.id status g.workflows,
          is_rival_self id q d status same,
        )
        | inr (w, e) ↦ ground arith
      ]

  -- What passed the check for a slot passes it again.
  insert_checked-again :
      (queue dedup : Option String) (status other row : WorkflowStatus V) (created : Bool)
      (g g' : Inner V)
      → other.id ≡ status.id
      → insert_checked queue dedup status g ≡ (ok (row, created), g')
      → insert_checked queue dedup other g' ≡ insert_row other g'
  unfolding insert_checked
  insert_checked-again none dedup status other row created g g' same h = refl
  insert_checked-again (some q) none status other row created g g' same h = refl
  insert_checked-again (some q) (some d) status other row created g g' same h =
      elim (Bool-cases (any (is_rival status.id q d) (Map.values g.workflows))) [
        | inl e ↦ absurd (ground (arith, e))
        | inr e ↦ ground (
          arith,
          same,
          insert_row-rivals status.id q d status row created g g' refl e (ground (arith, e)),
        )
      ]

  insert_row-there :
      (other row : WorkflowStatus V) (g : Inner V)
      → Map.get other.id g.workflows ≡ some row
      → insert_row other g ≡ (ok (row, false), g)
  unfolding insert_row
  insert_row-there other row g h = ground (arith, h)

  -- In the state that a successful creation left, every creation of its id with its queue and
  -- deduplication id, whatever else its row says, succeeds: it returns the same row, creates nothing
  -- and changes nothing.
  pub insert_workflow_status-twice :
      (status other row : WorkflowStatus V) (created : Bool) (g g' : Inner V)
      → other.id ≡ status.id
      → other.queue_name ≡ status.queue_name
      → other.dedup_id ≡ status.dedup_id
      → insert_workflow_status status g ≡ (ok (row, created), g')
      → insert_workflow_status other g' ≡ (ok (row, false), g')
  unfolding insert_workflow_status get_workflow_status
  insert_workflow_status-twice status other row created g g' same queue dedup h =
      let (found, _, _) = insert_workflow_status-ok status row created g g' h in
      ap (λ q. insert_checked q other.dedup_id other g') queue
      ∙ ap (λ d. insert_checked status.queue_name d other g') dedup
      ∙ insert_checked-again status.queue_name status.dedup_id status other row created g g' same h
      ∙ insert_row-there other row g' (ap (λ i. Map.get i g'.workflows) same ∙ found)

  insert_row-ne-err :
      (status : WorkflowStatus V) (g : Inner V) {g' : Inner V} {e : Error V}
      → insert_row status g ≢ (err e, g')
  unfolding insert_row
  insert_row-ne-err status g = ground arith

  is_rival-holds_slot :
      (id q d : String) (w : WorkflowStatus V) → is_rival id q d w ≡ true → holds_slot q d w ≡ true
  unfolding is_rival
  is_rival-holds_slot id q d w h = ground arith

  -- A creation is refused only for a slot that another row holds, and the refusal changes nothing:
  -- the slot's holder is then found by the lookup that returns an existing workflow.
  pub insert_workflow_status-err :
      (status : WorkflowStatus V) (g g' : Inner V) (e : Error V)
      → insert_workflow_status status g ≡ (err e, g')
      → (g' ≡ g)
        × ((queue dedup holder : String) × (status.queue_name ≡ some queue)
            × (status.dedup_id ≡ some dedup)
            × (e ≡ queue_deduplicated queue dedup)
            × (get_deduplicated_workflow queue dedup g ≡ some holder))
  unfolding insert_workflow_status get_deduplicated_workflow
  insert_workflow_status-err status g g' e h =
      elim (insert_checked-cases status.queue_name status.dedup_id status g) [
        | inl p ↦ absurd (insert_row-ne-err status g (sym p ∙ h))
        | inr (q, d, hq, hd, conflict, p) ↦
            let (w, f) =
              any-find (is_rival status.id q d) (holds_slot q d) (Map.values g.workflows)
                (is_rival-holds_slot status.id q d) conflict in
            (
              ground arith,
              (q, d, w.id, hq, hd, ground arith, rw (f, get_deduplicated_workflow) refl),
            )
      ]

cancellable :
    (current other : String)
    → is_allowed status_cancelled other ≡ false
    → is_allowed status_cancelled current ≡ true
    → current ≢ other
cancellable current other refused allowed = λ p. cc

-- What the guard of a terminal write says of the row.
is_allowed-terminal :
    (target current : String)
    → is_terminal target ≡ true
    → is_allowed target current ≡ true
    → ((target ≡ status_cancelled)
        × (current ≢ status_success)
        × (current ≢ status_error)
        × (current ≢ status_cancelled))
      ⊎ (current ≡ status_pending)
unfolding is_allowed is_terminal
is_allowed-terminal target current t h = elim (Bool-cases (current == status_pending)) [
  | inl e ↦ inr (==→≡ current status_pending e)
  | inr e ↦ elim (Bool-cases (target == status_cancelled)) [
    | inr d ↦ absurd (ground arith)
    | inl d ↦
        let same = ==→≡ target status_cancelled d in
        let open_row = subst (λ u. is_allowed u current ≡ true) same h in
        inl (
          same,
          cancellable current status_success refl open_row,
          cancellable current status_error refl open_row,
          cancellable current status_cancelled refl open_row,
        )
  ]
]

is_allowed-completed :
    (target current : String)
    → is_terminal target ≡ true
    → (current ≡ status_success) ⊎ (current ≡ status_error)
    → is_allowed target current ≡ false
unfolding is_allowed is_terminal
is_allowed-completed target current t (inl e) = rw e (ground arith)
is_allowed-completed target current t (inr e) = rw e (ground arith)

module _ {V : Type 0} ⦃j : Host V⦄ where
  set_row-terminal :
      (status : String) (output : Option V) (error : Option String) (now : DateTime)
      (row : WorkflowStatus V)
      → is_terminal status ≡ true
      → ((set_row status output error now row).status ≡ status)
        × ((set_row status output error now row).completed_at_ms ≡ some (j.timestamp_millis now))
        × ((set_row status output error now row).dedup_id ≡ none)
  unfolding set_row
  set_row-terminal status output error now row t = ground (arith, t)

  -- A terminal write lands exactly where its guard allows it: an outcome or a parking only on a
  -- pending row, a cancellation only on a row that is not completed or cancelled. What lands has
  -- the new status, a completion time and no deduplication slot.
  pub set_workflow_status-terminal :
      (id status : String) (output : Option V) (error : Option String) (now : DateTime)
      (g g' : Inner V) (row : WorkflowStatus V)
      → is_terminal status ≡ true
      → get_workflow_status id g ≡ some row
      → set_workflow_status id status output error now g ≡ (ok true, g')
      → (((status ≡ status_cancelled)
            × (row.status ≢ status_success)
            × (row.status ≢ status_error)
            × (row.status ≢ status_cancelled))
          ⊎ (row.status ≡ status_pending))
        × ((row' : WorkflowStatus V) × (get_workflow_status id g' ≡ some row')
            × (row'.status ≡ status)
            × (row'.completed_at_ms ≡ some (j.timestamp_millis now))
            × (row'.dedup_id ≡ none))
  unfolding set_workflow_status get_workflow_status
  set_workflow_status-terminal id status output error now g g' row t at h =
      let allowed : is_allowed status row.status ≡ true = ground (arith, at) in
      let new = set_row status output error now row in
      let (s, c, d) = set_row-terminal status output error now row t in
      (
        is_allowed-terminal status row.status t allowed,
        (new, ground (arith, at, allowed, get-insert_self id new g.workflows), s, c, d),
      )

  -- A write that is refused changes nothing, and one on a completed row is always refused: the
  -- recorded outcome of a workflow is never overwritten by another terminal write.
  pub set_workflow_status-completed :
      (id status : String) (output : Option V) (error : Option String) (now : DateTime)
      (g : Inner V) (row : WorkflowStatus V)
      → is_terminal status ≡ true
      → get_workflow_status id g ≡ some row
      → (row.status ≡ status_success) ⊎ (row.status ≡ status_error)
      → set_workflow_status id status output error now g ≡ (ok false, g)
  unfolding set_workflow_status get_workflow_status
  set_workflow_status-completed id status output error now g row t at done =
      ground (arith, at, is_allowed-completed status row.status t done)
