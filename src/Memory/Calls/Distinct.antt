-- ===== src/Memory/Calls/Distinct.antt =====
-- What the operations of src/memory.rs make of the workflow table, seen as a table with keys.
use mathlib.Core.Option.{some-injective}
use durare.Prelude.{
  ap, ℤ, true, false, String, Option, none, some, List, [], ◌∷◌, ◌≡◌, refl, ◌==◌, ◌⊎◌, any,
  string_eq, option_eq, int_eq, pair_eq, arith, Option-cases, Bool-cases, inl, inr, ==→≡, ==_refl,
  sym, ◌∙◌,
}
use durare.Map
use durare.Map.{Map, Unique}
use durare.Map.Laws.{get-remove, remove-Unique}
use durare.Map.Values.{any-false}
use durare.Host.{Host, DateTime}
use durare.Workflow.{WorkflowStatus}
use durare.Memory.{Inner}
use durare.Memory.Status
use durare.Memory.Status.{holds_slot, is_rival}
use durare.Memory.Steps
use durare.Memory.Dispatch
use durare.Memory.Dispatch.{DequeueRequest, Ticket}
use durare.Memory.Dispatch.Limits.{claim_cons-map}
use durare.Memory.Manage
use durare.Memory.Calls.Slots.{
  InSlot, Table, Free, Tame, insert-Table, update-Table, sub-Table, move-Table,
}

module _ {V : Type 0} where
  abbrev pub Ok : Inner V → Type 0
  Ok g = Table g.workflows

  pub holds_slot-InSlot :
      (q d : String) (w : WorkflowStatus V) → InSlot q d w → holds_slot q d w ≡ true
  unfolding holds_slot
  holds_slot-InSlot q d w (hq, hd) = ground (arith, hq, hd, ==_refl (some q), ==_refl (some d))

  -- With no rival the slot is free for the row.
  no_rival-Free :
      (status : WorkflowStatus V) (q d : String) (m : Map String (WorkflowStatus V))
      → Table m
      → InSlot q d status
      → any (is_rival status.id q d) (Map.values m) ≡ false
      → Free status.id status m
  unfolding is_rival
  no_rival-Free status q d m t s h q' d' l v s' g sv =
      let h' = any-false (is_rival status.id q d) m h l {v = v} g in
      let eq : q ≡ q' = some-injective _ _ (sym s.0 ∙ s'.0) in
      let ed : d ≡ d' = some-injective _ _ (sym s.1 ∙ s'.1) in
      let held = holds_slot-InSlot q d v (sv.0 ∙ ap some (sym eq), sv.1 ∙ ap some (sym ed)) in
      let same : v.id ≡ status.id = ==→≡ v.id status.id (ground (arith, held)) in
      sym same ∙ t.keyed l v g

  -- A row without a whole slot is in no one's way.
  pub no_slot-Free :
      (k : String) (w : WorkflowStatus V) (m : Map String (WorkflowStatus V))
      → (w.queue_name ≡ none) ⊎ (w.dedup_id ≡ none)
      → Free k w m
  no_slot-Free k w m (inl h) q d l v s g sv = absurd (ground arith)
  no_slot-Free k w m (inr h) q d l v s g sv = absurd (ground arith)

  insert_row-Ok :
      (status : WorkflowStatus V) (g : Inner V)
      → Free status.id status g.workflows
      → Ok g
      → Ok (Status.insert_row status g).1
  unfolding Status.insert_row
  insert_row-Ok status g f t = elim (Option-cases (Map.get status.id g.workflows)) [
    | inl e ↦
        move-Table (Map.insert status.id status g.workflows)
          (insert-Table status.id status g.workflows refl f t) (ground arith)
    | inr (w, e) ↦ move-Table g.workflows t (ground arith)
  ]

  pub insert_checked-Ok :
      (queue dedup : Option String) (status : WorkflowStatus V) (g : Inner V)
      → status.queue_name ≡ queue
      → status.dedup_id ≡ dedup
      → Ok g
      → Ok (Status.insert_checked queue dedup status g).1
  unfolding Status.insert_checked
  insert_checked-Ok none dedup status g hq hd t =
      insert_row-Ok status g (no_slot-Free status.id status g.workflows (inl hq)) t
  insert_checked-Ok (some q) none status g hq hd t =
      insert_row-Ok status g (no_slot-Free status.id status g.workflows (inr hd)) t
  insert_checked-Ok (some q) (some d) status g hq hd t =
      elim (Bool-cases (any (is_rival status.id q d) (Map.values g.workflows))) [
        | inl e ↦ rw e t
        | inr e ↦
            rw e (insert_row-Ok status g (no_rival-Free status q d g.workflows t (hq, hd) e) t)
      ]

module _ {V : Type 0} ⦃j : Host V⦄ where
  pub set_row-Tame :
      (s : String) (o : Option V) (e : Option String) (t : DateTime) (row : WorkflowStatus V)
      → Tame row (Status.set_row s o e t row)
  unfolding Status.set_row
  set_row-Tame s none none t row = ground arith
  set_row-Tame s none (some e) t row = ground arith
  set_row-Tame s (some o) none t row = ground arith
  set_row-Tame s (some o) (some e) t row = ground arith

  pub refresh_executor-Ok :
      (w : String) (x : Option String) (g : Inner V) → Ok g → Ok (Steps.refresh_executor w x g)
  unfolding Steps.refresh_executor
  refresh_executor-Ok w none g t = t
  refresh_executor-Ok w (some x) g t = elim (Option-cases (Map.get w g.workflows)) [
    | inl e ↦ move-Table g.workflows t (ground arith)
    | inr (row, e) ↦ elim (Bool-cases (row.executor_id == x)) [
      | inl h ↦ move-Table g.workflows t (ground arith)
      | inr h ↦
          move-Table (Map.insert w (record row { executor_id = x }) g.workflows)
            (update-Table w row (record row { executor_id = x }) g.workflows e
              (refl, inr (refl, refl)) t)
            (ground arith)
    ]
  ]

  pub claim_all-Table :
      (r : DequeueRequest) (now : ℤ) (clock : String → DateTime) (ts : List Ticket)
      (m : Map String (WorkflowStatus V))
      → Table m
      → Table (Dispatch.claim_all r now clock ts m).1
  unfolding Dispatch.claim_all
  claim_all-Table r now clock [] m t = t
  claim_all-Table r now clock ((a, b, id) ∷ ts) m t = elim (Option-cases (Map.get id m)) [
    | inl e ↦ move-Table m t (ground arith)
    | inr (w, e) ↦
        let w' = Dispatch.claim_row r now (clock id) w in
        let rest = Dispatch.claim_all r now clock ts (Map.insert id w' m) in
        let h : Table rest.1 =
          claim_all-Table r now clock ts (Map.insert id w' m)
            (update-Table id w w' m e (unfold Dispatch.claim_row in (refl, inr (refl, refl))) t) in
        move-Table rest.1 h (ground (arith, claim_cons-map w' rest))
  ]

  cancel_row-Tame : (now : DateTime) (row : WorkflowStatus V) → Tame row (Manage.cancel_row now row)
  unfolding Manage.cancel_row
  cancel_row-Tame now row = ground arith

  pub cancel_all-Table :
      (now : DateTime) (ids : List String) (m : Map String (WorkflowStatus V))
      → Table m
      → Table (Manage.cancel_all now ids m)
  unfolding Manage.cancel_all
  cancel_all-Table now [] m t = t
  cancel_all-Table now (id ∷ ids) m t = elim (Option-cases (Map.get id m)) [
    | inl e ↦ move-Table (Manage.cancel_all now ids m) (cancel_all-Table now ids m t) (ground arith)
    | inr (row, e) ↦
        let m' = Map.insert id (Manage.cancel_row now row) m in
        move-Table (Manage.cancel_all now ids m')
          (cancel_all-Table now ids m'
            (update-Table id row (Manage.cancel_row now row) m e (cancel_row-Tame now row) t))
          (ground arith)
  ]

  pub resume_row-Tame :
      (now : DateTime) (row : WorkflowStatus V) → Tame row (Manage.resume_row now row)
  unfolding Manage.resume_row
  resume_row-Tame now row = (refl, inl refl)

  pub delete_all-Ok : (g : Inner V) (ids : List String) → Ok g → Ok (Manage.delete_all g ids)
  unfolding Manage.delete_all Manage.delete_one
  delete_all-Ok g [] t = t
  delete_all-Ok g (id ∷ ids) t = delete_all-Ok (Manage.delete_one g id) ids (
      sub-Table g.workflows (Map.remove id g.workflows) (remove-Unique id g.workflows t.unique)
        (λ k w h. ground (arith, get-remove id k g.workflows)) t)
