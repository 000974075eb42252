-- ===== src/Memory/Dispatch/Total.antt =====
-- The `expect` in the dispatch loop of src/memory.rs.
use durare.Prelude.{
  All-take, All-filter, All-map, ℤ, pos, leb_ℤ, String, Option, none, some, List, [], ◌∷◌, ◌≡◌, ◌≢◌,
  refl, All, All-sort, filter, map, string_eq, arith, Option-cases, Bool-cases, inl, inr,
}
use durare.Map
use durare.Map.{Map}
use durare.Map.Laws.{get-insert}
use durare.Errors.{ok}
use durare.Host.{Host, DateTime}
use durare.Workflow.{WorkflowStatus}
use durare.Memory.{Inner}
use durare.Memory.Dispatch.{
  DequeueRequest, Ticket, ticket, ticket_leb, is_candidate, is_latest, to_usize, max_tasks,
  claim_row, claim_cons, claim_all, select_ids, dequeue_workflows,
}
use durare.Memory.Manage.Closure.{Within, Within-self}
use durare.Memory.Calls.Slots.{Table, Keyed}

module _ {V : Type 0} where
  -- The ticket's id has a row.
  abbrev HasRow : Map String (WorkflowStatus V) → Ticket → Type 0
  HasRow m t = Map.get t.2 m ≢ none

  HasRow-insert :
      (id : String) (w : WorkflowStatus V) (m : Map String (WorkflowStatus V)) (ts : List Ticket)
      → All (HasRow m) ts
      → All (HasRow (Map.insert id w m)) ts
  HasRow-insert id w m [] h = tt
  HasRow-insert id w m (t ∷ ts) h =
      ((λ e. h.0 (ground (arith, get-insert id t.2 w m))), HasRow-insert id w m ts h.1)

  claim_cons-total :
      (w : WorkflowStatus V) (r : Option (List (WorkflowStatus V)) × Map String (WorkflowStatus V))
      → r.0 ≢ none
      → (claim_cons w r).0 ≢ none
  claim_cons-total w (none, m) h = absurd (h refl)
  claim_cons-total w (some l, m) h = λ e. cc

  claim_all-total :
      (req : DequeueRequest) (now_ms : ℤ) (clock : String → DateTime) (ts : List Ticket)
      (m : Map String (WorkflowStatus V))
      → All (HasRow m) ts
      → (claim_all req now_ms clock ts m).0 ≢ none
  unfolding claim_all
  claim_all-total req now_ms clock [] m h = λ e. cc
  claim_all-total req now_ms clock ((p, c, id) ∷ ts) m h = elim (Option-cases (Map.get id m)) [
    | inl e ↦ absurd (h.0 e)
    | inr (w, e) ↦
        let w' = claim_row req now_ms (clock id) w in
        let m' = Map.insert id w' m in
        rw (e, claim_all)
          (claim_cons-total w' (claim_all req now_ms clock ts m')
            (claim_all-total req now_ms clock ts m' (HasRow-insert id w' m ts h.1)))
  ]

  Within-values :
      (m r : Map String (WorkflowStatus V))
      → Keyed m
      → Within m r
      → All (λ (w : WorkflowStatus V). Map.get w.id m ≢ none) (Map.values r)
  Within-values m [] k h = tt
  Within-values m ((id, w) ∷ r) k h =
      ((λ e. absurd (ground (arith, k id w h.0, h.0, e))), Within-values m r k h.1)

module _ {V : Type 0} ⦃j : Host V⦄ where
  select_ids-HasRow :
      (req : DequeueRequest) (tasks : ℤ) (g : Inner V)
      → Table g.workflows
      → All (HasRow g.workflows) (select_ids req tasks g)
  unfolding select_ids
  select_ids-HasRow req tasks g t =
      let P = HasRow g.workflows in
      let candidate =
        is_candidate {V = V} req (is_latest req.app_version (Map.values g.versions)) in
      let rows = Map.values g.workflows in
      All-take P (to_usize tasks) _ (
        All-sort ticket_leb P (map ticket (filter candidate rows)) (
          All-map P ticket (filter candidate rows) (
            All-filter (λ w. P (ticket w)) candidate rows
              (Within-values g.workflows g.workflows t.keyed (Within-self g.workflows t.unique)))))

  -- On a table with one row per id, each under its own id, a dispatch returns a list of claimed
  -- rows: it does not panic.
  pub dequeue_workflows-total :
      (req : DequeueRequest) (now : DateTime) (clock : String → DateTime) (g : Inner V)
      → Table g.workflows
      → (claimed : List (WorkflowStatus V)) × ((dequeue_workflows req now clock g).0
          ≡ ok (some claimed))
  unfolding dequeue_workflows
  dequeue_workflows-total req now clock g t =
      let now_ms = j.timestamp_millis now in
      let tasks = max_tasks req now_ms (Map.values g.workflows) in
      let ts = select_ids req tasks g in
      elim (Bool-cases (leb_ℤ tasks (pos 0))) [
        | inl e ↦ ([], ground arith)
        | inr e ↦ elim (Option-cases (claim_all req now_ms clock ts g.workflows).0) [
          | inl h ↦
              absurd (
                claim_all-total req now_ms clock ts g.workflows (select_ids-HasRow req tasks g t) h)
          | inr (l, h) ↦ (l, ground arith)
        ]
      ]
