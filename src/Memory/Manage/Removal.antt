-- ===== src/Memory/Manage/Removal.antt =====
-- `cancel_workflows_with_options` and `delete_workflows` of src/memory.rs, seen by every read.
use durare.Prelude.{
  ℤ, Bool, true, false, String, Option, none, some, List, [], ◌∷◌, ◌≡◌, refl, sym, ◌∙◌, ◌!=◌, not,
  if◌then◌else◌, contains, filter, string_eq, int_eq, pair_eq, option_eq, arith, Option-cases, inl,
  inr, ==_refl, ==→≡, ◌≢◌, ◌⊎◌, ap, subst, Bool-cases,
}
use durare.Map
use durare.Map.{Map}
use durare.Map.Laws.{get-insert, get-remove, get-retain}
use durare.Host.{Host, DateTime}
use durare.Workflow.{WorkflowStatus, status_success, status_error, status_cancelled}
use durare.Memory.{Inner, NotificationRow}
use durare.Memory.Manage.{
  is_closed, cancel_row, cancel_all, targets_of, cancel_workflows_with_options, delete_one,
  delete_all, delete_workflows,
}

-- A read of a map from which the targets have gone.
abbrev pub unless_target : {A : Type 0} → List String → String → Option A → Option A
unless_target targets id o = if contains targets id then none else o

filter-filter :
    {V : Type 0} (l : List (NotificationRow V)) (id : String) (ids : List String)
    → filter
        (λ (n : NotificationRow V). not (contains ids n.destination_id))
        (filter (λ (n : NotificationRow V). n.destination_id != id) l)
      ≡ filter (λ (n : NotificationRow V). not (contains (id ∷ ids) n.destination_id)) l
unfolding filter contains
filter-filter [] id ids = refl
filter-filter (n ∷ l) id ids = ground (
  arith,
  filter-filter l id ids,
  string_eq.beq_iff n.destination_id id,
  string_eq.beq_iff id n.destination_id,
)

filter-none :
    {V : Type 0} (l : List (NotificationRow V))
    → filter (λ (n : NotificationRow V). not (contains [] n.destination_id)) l ≡ l
unfolding filter contains
filter-none [] = refl
filter-none (n ∷ l) = ground (arith, filter-none l)

module _ {V : Type 0} where
  pub get-delete_all :
      (g : Inner V) (ids : List String) (id : String)
      → Map.get id (delete_all g ids).workflows ≡ unless_target ids id (Map.get id g.workflows)
  unfolding delete_all delete_one contains
  get-delete_all g [] id = refl
  get-delete_all g (t ∷ ids) id =
      ground (arith, get-delete_all (delete_one g t) ids id, get-remove t id g.workflows)

  pub steps-delete_all :
      (g : Inner V) (ids : List String) (id : String) (n : ℤ)
      → Map.get (id, n) (delete_all g ids).steps ≡ unless_target ids id (Map.get (id, n) g.steps)
  unfolding delete_all delete_one contains
  steps-delete_all g [] id n = refl
  steps-delete_all g (t ∷ ids) id n = ground (
    arith,
    steps-delete_all (delete_one g t) ids id n,
    get-retain (λ (k : String × ℤ). k.0 != t) (id, n) g.steps,
    string_eq.beq_iff id t,
    string_eq.beq_iff t id,
  )

  streams-delete_all :
      (g : Inner V) (ids : List String) (id key : String)
      → Map.get (id, key) (delete_all g ids).streams
        ≡ unless_target ids id (Map.get (id, key) g.streams)
  unfolding delete_all delete_one contains
  streams-delete_all g [] id key = refl
  streams-delete_all g (t ∷ ids) id key = ground (
    arith,
    streams-delete_all (delete_one g t) ids id key,
    get-retain (λ (k : String × String). k.0 != t) (id, key) g.streams,
    string_eq.beq_iff id t,
    string_eq.beq_iff t id,
  )

  notifications-delete_all :
      (g : Inner V) (ids : List String)
      → (delete_all g ids).notifications
        ≡ filter (λ (n : NotificationRow V). not (contains ids n.destination_id)) g.notifications
  unfolding delete_all delete_one
  notifications-delete_all g [] = sym (filter-none g.notifications)
  notifications-delete_all g (t ∷ ids) =
      notifications-delete_all (delete_one g t) ids ∙ filter-filter g.notifications t ids

  events-delete_all : (g : Inner V) (ids : List String) → (delete_all g ids).events ≡ g.events
  unfolding delete_all delete_one
  events-delete_all g [] = refl
  events-delete_all g (t ∷ ids) = events-delete_all (delete_one g t) ids

  -- After a delete no target has a row, a step, a stream or a message left, every other workflow
  -- keeps all of them, and the events of every workflow, the targets' too, are still there. The
  -- targets are the given ids, or with `delete_children` these and their descendants.
  pub delete_workflows-left :
      (ids : List String) (children : Bool) (g : Inner V) (id key : String) (n : ℤ)
      → let targets = targets_of children g.workflows ids in
        let after = (delete_workflows ids children g).1 in
        (Map.get id after.workflows ≡ unless_target targets id (Map.get id g.workflows))
        × ((Map.get (id, n) after.steps ≡ unless_target targets id (Map.get (id, n) g.steps))
            × ((Map.get (id, key) after.streams
                  ≡ unless_target targets id (Map.get (id, key) g.streams))
                × ((after.notifications
                      ≡ filter
                          (λ (r : NotificationRow V). not (contains targets r.destination_id))
                          g.notifications)
                    × (after.events ≡ g.events))))
  unfolding delete_workflows
  delete_workflows-left ids children g id key n =
      let targets = targets_of children g.workflows ids in
      (
        get-delete_all g targets id,
        (
          steps-delete_all g targets id n,
          (
            streams-delete_all g targets id key,
            (notifications-delete_all g targets, events-delete_all g targets),
          ),
        ),
      )

is_closed-status :
    (s : String)
    → is_closed s ≡ true
    → (s ≡ status_success) ⊎ ((s ≡ status_error) ⊎ (s ≡ status_cancelled))
unfolding is_closed
is_closed-status s h =
    ground (arith, ==→≡ s status_success, ==→≡ s status_error, ==→≡ s status_cancelled)

is_closed-open :
    (s : String)
    → is_closed s ≡ false
    → (s ≢ status_success) × (s ≢ status_error) × (s ≢ status_cancelled)
unfolding is_closed
is_closed-open s h = ((λ e. cc), (λ e. cc), λ e. cc)

module _ {V : Type 0} ⦃j : Host V⦄ where
  -- A row that ended is not cancelled again.
  cancel_row-cancel_row :
      (now : DateTime) (row : WorkflowStatus V)
      → cancel_row now (cancel_row now row) ≡ cancel_row now row
  unfolding cancel_row is_closed
  cancel_row-cancel_row now row = ground (arith, ==_refl status_cancelled)

  abbrev pub cancelled : DateTime → Bool → Option (WorkflowStatus V) → Option (WorkflowStatus V)
  cancelled now false o = o
  cancelled now true none = none
  cancelled now true (some row) = some (cancel_row now row)

  cancelled-none : (now : DateTime) (target : Bool) → cancelled now target none ≡ none
  cancelled-none now false = refl
  cancelled-none now true = refl

  get-cancel_all :
      (now : DateTime) (ids : List String) (m : Map String (WorkflowStatus V)) (id : String)
      → Map.get id (cancel_all now ids m) ≡ cancelled now (contains ids id) (Map.get id m)
  unfolding cancel_all contains
  get-cancel_all now [] m id = refl
  get-cancel_all now (t ∷ ids) m id = elim (Option-cases (Map.get t m)) [
    | inl e ↦ ground (arith, get-cancel_all now ids m id, ==→≡ t id)
    | inr (row, e) ↦ ground (
      arith,
      get-cancel_all now ids (Map.insert t (cancel_row now row) m) id,
      get-insert t id (cancel_row now row) m,
      ==→≡ t id,
      cancel_row-cancel_row now row,
    )
  ]

  -- The row of a workflow that is open, after a cancel at `now`.
  abbrev pub cancelled_row : DateTime → WorkflowStatus V → WorkflowStatus V
  cancelled_row now row = record row {
    status = status_cancelled;
    completed_at_ms = some (j.timestamp_millis now);
    started_at_ms = none;
    queue_name = none;
    dedup_id = none;
    updated_at = now;
  }

  -- What a cancel may make of a row: a target that is not SUCCESS, ERROR or CANCELLED becomes
  -- CANCELLED at `now`; a row that is no target or has one of the three stays as it is.
  abbrev pub Cancels : DateTime → Bool → WorkflowStatus V → Option (WorkflowStatus V) → Type 0
  Cancels now target row after =
      ((target ≡ true)
        × (row.status ≢ status_success)
        × (row.status ≢ status_error)
        × (row.status ≢ status_cancelled)
        × (after ≡ some (cancelled_row now row)))
      ⊎ (((target ≡ false)
            ⊎ ((row.status ≡ status_success)
                ⊎ ((row.status ≡ status_error) ⊎ (row.status ≡ status_cancelled))))
          × (after ≡ some row))

  cancelled-Cancels :
      (now : DateTime) (target : Bool) (row : WorkflowStatus V)
      → Cancels now target row (cancelled now target (some row))
  unfolding cancel_row
  cancelled-Cancels now false row = inr (inl refl, refl)
  cancelled-Cancels now true row = elim (Bool-cases (is_closed row.status)) [
    | inl e ↦ inr (inr (is_closed-status row.status e), ground arith)
    | inr e ↦ let (s, f, c) = is_closed-open row.status e in inl (refl, s, f, c, ground arith)
  ]

  -- A cancel makes no row. A target that has a row, however often it is listed, and is not SUCCESS,
  -- ERROR or CANCELLED becomes CANCELLED and completed at `now`, off its queue, with no deduplication
  -- id and no start, its other fields kept. A row that is no target, or has one of the three
  -- statuses, stays as it is.
  pub cancel_workflows_with_options-row :
      (ids : List String) (children : Bool) (now : DateTime) (g : Inner V) (id : String)
      → let after = Map.get id (cancel_workflows_with_options ids children now g).1.workflows in
        ((Map.get id g.workflows ≡ none) × (after ≡ none))
        ⊎ ((row : WorkflowStatus V) × (Map.get id g.workflows ≡ some row)
            × Cancels now (contains (targets_of children g.workflows ids) id) row after)
  unfolding cancel_workflows_with_options
  cancel_workflows_with_options-row ids children now g id =
      let targets = targets_of children g.workflows ids in
      let target = contains targets id in
      let after = get-cancel_all now targets g.workflows id in
      elim (Option-cases (Map.get id g.workflows)) [
        | inl e ↦ inl (e, after ∙ ap (cancelled now target) e ∙ cancelled-none now target)
        | inr (row, e) ↦ inr (
          row,
          e,
          subst (Cancels now target row) (sym (after ∙ ap (cancelled now target) e))
              (cancelled-Cancels now target row),
        )
      ]
