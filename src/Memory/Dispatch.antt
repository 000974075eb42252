-- ===== src/Memory/Dispatch.antt =====
-- src/memory.rs: the dispatcher's side. Claiming queued workflows under the queue's limits, the
-- transition of delayed rows, and the partitions of a queue.
pub mod Limits
pub mod Total
pub mod Tickets
pub mod Claimed
use durare.Prelude.{
  ℤ, pos, negsuc, ℕ, suc, ◌+◌, Bool, true, false, String, Option, none, some, List, [], ◌∷◌, ◌==◌,
  ◌!=◌, ◌&&◌, ◌||◌, if◌then◌else◌, ltb_ℤ, leb_ℤ, min_ℤ, max_ℤ, add_i64, sub_i64, filter, count, map,
  sort, take, filter_map, string_eq, option_eq, int_eq, str_leb, dedup,
}
use durare.Map
use durare.Errors.{Result, ok}
use durare.Host.{Host, DateTime}
use durare.Workflow.{WorkflowStatus, status_pending, status_enqueued, status_delayed}
use durare.Memory.{Inner, Op, VersionInfo}
use durare.Map.{Map}

-- provider.rs
pub record DequeueRequest : Type 0 where
  pub queue_name : String
  pub executor_id : String
  pub app_version : String
  pub partition_key : Option String
  pub max_tasks : ℤ
  pub global_concurrency : Option ℤ
  pub rate_limit_max : Option ℤ
  pub rate_limit_period_ms : Option ℤ

abbrev pub is_some : {A : Type 0} → Option A → Bool
is_some none = false
is_some (some a) = true

abbrev pub is_some_and : {A : Type 0} → (A → Bool) → Option A → Bool
is_some_and p none = false
is_some_and p (some a) = p a

module _ {V : Type 0} (req : DequeueRequest) where
  -- The row is on the request's queue, and in its partition if it names one.
  unfoldable pub in_scope : WorkflowStatus V → Bool
  in_scope w =
      w.queue_name == some req.queue_name
      && (req.partition_key == none || w.queue_partition_key == req.partition_key)

  unfoldable pub is_recent_start : ℤ → WorkflowStatus V → Bool
  is_recent_start cutoff w =
      in_scope w
      && (w.rate_limited
          && (w.status != status_enqueued
              && (w.status != status_delayed && is_some_and (λ t. ltb_ℤ cutoff t) w.started_at_ms)))

  unfoldable pub is_running : WorkflowStatus V → Bool
  is_running w = in_scope w && w.status == status_pending

  unfoldable pub rate_cap : Option ℤ → Option ℤ → ℤ → List (WorkflowStatus V) → ℤ → ℤ
  rate_cap (some limit) (some period) now_ms rows tasks =
      let recent = pos (count (is_recent_start (sub_i64 now_ms period)) rows) in
      min_ℤ tasks (max_ℤ (sub_i64 limit recent) (pos 0))
  rate_cap _ _ now_ms rows tasks = tasks

  unfoldable pub global_cap : Option ℤ → List (WorkflowStatus V) → ℤ → ℤ
  global_cap (some global) rows tasks =
      min_ℤ tasks (max_ℤ (sub_i64 global (pos (count is_running rows))) (pos 0))
  global_cap none rows tasks = tasks

  unfoldable pub max_tasks : ℤ → List (WorkflowStatus V) → ℤ
  max_tasks now_ms rows =
      global_cap req.global_concurrency rows
        (rate_cap req.rate_limit_max req.rate_limit_period_ms now_ms rows req.max_tasks)

  unfoldable pub is_candidate : Bool → WorkflowStatus V → Bool
  is_candidate is_latest w =
      in_scope w
      && (w.status == status_enqueued
          && (w.app_version == req.app_version || (w.app_version == "" && is_latest)))

-- `max_by_key` takes the last of the greatest.
unfoldable pub latest_version : List VersionInfo → Option VersionInfo
latest_version [] = none
latest_version (v ∷ vs) = elim (latest_version vs) [
  | none ↦ some v
  | some w ↦ if leb_ℤ v.version_timestamp w.version_timestamp then some w else some v
]

-- No registered version makes every executor the latest.
unfoldable pub is_latest : String → List VersionInfo → Bool
unfolding latest_version
is_latest app_version vs = elim (latest_version vs) [
  | none ↦ true
  | some latest ↦ latest.version_name == app_version
]

-- `(priority, created_at, id)`, in the order of tuples
abbrev pub Ticket : Type 0
Ticket = ℤ × ℤ × String

unfoldable pub ticket_leb : Ticket → Ticket → Bool
ticket_leb (p, c, i) (q, d, k) =
    if ltb_ℤ p q
    then true
    else if ltb_ℤ q p
    then false
    else if ltb_ℤ c d
    then true
    else if ltb_ℤ d c
    then false
    else str_leb i k

-- A deadline is fixed at the first claim of a row with a timeout.
abbrev pub deadline_at_claim : Option ℤ → Option ℤ → ℤ → Option ℤ
deadline_at_claim (some d) timeout now_ms = some d
deadline_at_claim none none now_ms = none
deadline_at_claim none (some t) now_ms = some (add_i64 now_ms t)

-- `n as usize` of a number that is not negative
abbrev pub to_usize : ℤ → ℕ
to_usize (pos n) = n
to_usize (negsuc n) = 0

-- the row that a claim leaves
unfoldable pub claim_row :
    {V : Type 0} → DequeueRequest → ℤ → DateTime → WorkflowStatus V → WorkflowStatus V
claim_row req now_ms stamp w = record w {
  status = status_pending;
  executor_id = req.executor_id;
  app_version = req.app_version;
  started_at_ms = some now_ms;
  rate_limited = is_some req.rate_limit_max;
  deadline_ms = deadline_at_claim w.deadline_ms w.timeout_ms now_ms;
  updated_at = stamp;
}

-- `Vec::push` after the rows that were claimed so far; a panic ends the loop.
abbrev pub claim_cons :
    {V : Type 0}
    → WorkflowStatus V
    → Option (List (WorkflowStatus V)) × Map String (WorkflowStatus V)
    → Option (List (WorkflowStatus V)) × Map String (WorkflowStatus V)
claim_cons w (none, m) = (none, m)
claim_cons w (some rest, m) = (some (w ∷ rest), m)

-- The claiming loop; `clock` is the reading of the clock at the claim of each id.
unfoldable pub claim_all :
    {V : Type 0}
    → DequeueRequest
    → ℤ
    → (String → DateTime)
    → List Ticket
    → Map String (WorkflowStatus V)
    → Option (List (WorkflowStatus V)) × Map String (WorkflowStatus V)
claim_all req now_ms clock [] m = (some [], m)
claim_all req now_ms clock ((p, c, id) ∷ ts) m = elim (Map.get id m) [
  | none ↦ (none, m)
  | some w ↦
      let w' = claim_row req now_ms (clock id) w in
      claim_cons w' (claim_all req now_ms clock ts (Map.insert id w' m))
]

module _ {V : Type 0} ⦃j : Host V⦄ where
  abbrev pub ticket : WorkflowStatus V → Ticket
  ticket w = (w.priority, j.timestamp_millis w.created_at, w.id)

  -- The tickets in the order of dispatch, no more than `tasks`.
  unfoldable pub select_ids : DequeueRequest → ℤ → Inner V → List Ticket
  select_ids req tasks g =
      let latest = is_latest req.app_version (Map.values g.versions) in
      take (to_usize tasks)
        (sort ticket_leb (map ticket (filter (is_candidate req latest) (Map.values g.workflows))))

  -- `None` on the `expect` stands for its panic: a candidate's id has no row.
  unfoldable pub dequeue_workflows :
      DequeueRequest → DateTime → (String → DateTime) → Op V (Option (List (WorkflowStatus V)))
  dequeue_workflows req now clock g =
      let now_ms = j.timestamp_millis now in
      let tasks = max_tasks req now_ms (Map.values g.workflows) in
      if leb_ℤ tasks (pos 0)
      then (ok (some []), g)
      else let (claimed, workflows) =
          claim_all req now_ms clock (select_ids req tasks g) g.workflows in
        (ok claimed, record g { workflows = workflows })

unfoldable pub is_due : {V : Type 0} → ℤ → WorkflowStatus V → Bool
is_due now_ms w = w.status == status_delayed && is_some_and (λ t. leb_ℤ t now_ms) w.delay_until_ms

abbrev pub enqueue_due :
    {V : Type 0} → ℤ → (String → DateTime) → WorkflowStatus V → WorkflowStatus V
enqueue_due now_ms clock w =
    if is_due now_ms w
    then record w { status = status_enqueued; delay_until_ms = none; updated_at = clock w.id }
    else w

-- The count is a `u64`; a map holds far fewer rows than that.
unfoldable pub transition_delayed_workflows : {V : Type 0} → ℤ → (String → DateTime) → Op V ℕ
unfolding is_due
transition_delayed_workflows now_ms clock g = (
  ok (count (is_due now_ms) (Map.values g.workflows)),
  record g { workflows = Map.map_values (enqueue_due now_ms clock) g.workflows },
)

unfoldable pub queue_partitions : {V : Type 0} → String → Inner V → List String
queue_partitions queue_name g = dedup (
    sort str_leb (
      filter_map (λ w. w.queue_partition_key)
        (filter (λ w. w.queue_name == some queue_name && w.status == status_enqueued)
          (Map.values g.workflows))))
