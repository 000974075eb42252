-- ===== src/Memory/Aggregates.antt =====
-- src/memory.rs: the counts of workflows by group, with the query of src/provider.rs.
pub mod Steps
pub mod Totals
use text.Mathlib.Text.{starts_with}
use durare.Prelude.{
  ℤ, pos, negsuc, sub_ℕ, ℕ, zero, suc, ◌+◌, ◌*◌, ◌/◌, Bool, true, false, String, Option, none, some,
  List, [], ◌∷◌, ◌++◌, ◌==◌, ◌&&◌, ◌||◌, not, ◌↔◌, ◌≡◌, arith, if◌then◌else◌, leb_ℤ, ltb_ℤ, min_ℤ,
  max_ℤ, sub_i64, any, is_empty, contains, filter, map, sort, str_leb, display_ℤ, PartialEq,
  string_eq, option_eq, pair_eq, pair_beq_iff, int_eq,
}
use durare.Map
use durare.Map.{Map}
use durare.Host.{Host}
use durare.Workflow.{WorkflowStatus, status_success}
use durare.Memory.{Inner, StepRow}
use durare.Memory.Dispatch.{is_some_and}
use durare.Memory.Listing.{is_none_or, names, names_some, truncate, and_then}

-- A group: the enabled dimensions, in order, with the values of the row.
abbrev pub Group : Type 0
Group = List (String × Option String)

abbrev pub group_beq : Group → Group → Bool
group_beq [] [] = true
group_beq (a ∷ g) (b ∷ h) = a == b && group_beq g h
group_beq _ _ = false

group_cons_iff :
    {a b : String × Option String}
    → {g h : Group} → {e f : Bool} → (e ≡ true) ↔ (a ≡ b)
    → (f ≡ true) ↔ (g ≡ h)
    → (e && f ≡ true) ↔ (a ∷ g ≡ b ∷ h)
group_cons_iff = ground arith

pub group_beq_iff : (g h : Group) → (group_beq g h ≡ true) ↔ (g ≡ h)
group_beq_iff [] [] = ground arith
group_beq_iff [] (b ∷ h) = ground arith
group_beq_iff (a ∷ g) [] = ground arith
group_beq_iff (a ∷ g) (b ∷ h) = group_cons_iff (pair_beq_iff a b) (group_beq_iff g h)

instance abbrev pub group_eq : PartialEq Group
group_eq = record { eq = group_beq; beq_iff = group_beq_iff }

-- The order of `Option<String>`: an absent value comes first.
abbrev value_ltb : Option String → Option String → Bool
value_ltb none none = false
value_ltb none (some b) = true
value_ltb (some a) none = false
value_ltb (some a) (some b) = not (str_leb b a)

-- `a.group.iter().cmp(b.group.iter())` is not greater
unfoldable pub group_leb : Group → Group → Bool
group_leb [] h = true
group_leb (a ∷ g) [] = false
group_leb ((k, v) ∷ g) ((l, w) ∷ h) =
    let rest = group_leb g h in
    if not (str_leb l k)
    then true
    else if not (str_leb k l)
    then false
    else if value_ltb v w
    then true
    else if value_ltb w v
    then false
    else rest

-- Collected into a `BTreeMap`, whose keys are in order; the dimensions of a group are distinct.
abbrev pub ordered : Group → Group
ordered g = sort (λ a b. str_leb a.0 b.0) g

-- `(t / bucket) * bucket`, which rounds towards zero; the bucket is positive.
unfoldable pub bucket_start : ℤ → ℤ → ℤ
bucket_start (pos n) (pos b) = pos (n / b * b)
bucket_start (negsuc n) (pos b) = sub_ℕ 0 (suc n / b * b)
bucket_start t (negsuc b) = t

-- `time_bucket_ms.filter(|b| *b > 0)`
abbrev pub positive : Option ℤ → Option ℤ
positive none = none
positive (some b) = if ltb_ℤ (pos 0) b then some b else none

-- `then_some`
abbrev pub then_some : {A : Type 0} → Bool → A → Option A
then_some true a = some a
then_some false a = none

abbrev pub when : {A : Type 0} → Bool → Option A → Option A
when true o = o
when false o = none

-- `map_or(x, |m| f(m, x))` around the values that a row has
abbrev pub fold_value : (ℤ → ℤ → ℤ) → Option ℤ → Option ℤ → Option ℤ
fold_value f acc none = acc
fold_value f none (some x) = some x
fold_value f (some m) (some x) = some (f m x)

pub record WorkflowAggregateQuery : Type 0 where
  pub by_status : Bool
  pub by_name : Bool
  pub by_queue_name : Bool
  pub by_executor_id : Bool
  pub by_app_version : Bool
  pub select_count : Bool
  pub select_min_created_at : Bool
  pub select_max_queue_wait_ms : Bool
  pub select_max_total_latency_ms : Bool
  pub time_bucket_ms : Option ℤ
  pub status : List String
  pub name : List String
  pub app_version : List String
  pub executor_ids : List String
  pub queue_names : List String
  pub workflow_id_prefix : Option String
  pub start_time_ms : Option ℤ
  pub end_time_ms : Option ℤ
  pub completed_after_ms : Option ℤ
  pub completed_before_ms : Option ℤ
  pub dequeued_after_ms : Option ℤ
  pub dequeued_before_ms : Option ℤ
  pub limit : Option ℤ

pub record WorkflowAggregate : Type 0 where
  pub group : Group
  pub count : Option ℤ
  pub min_created_at : Option ℤ
  pub max_queue_wait_ms : Option ℤ
  pub max_total_latency_ms : Option ℤ

-- The accumulator of a group. Its count is one of rows in memory, so that its `i64` is not left.
pub record Acc : Type 0 where
  pub count : ℕ
  pub min_created : Option ℤ
  pub max_queue_wait : Option ℤ
  pub max_total_latency : Option ℤ

-- `Acc::default`, or the accumulator that is there
abbrev pub acc_of : Option Acc → Acc
acc_of none = record {
  count = 0;
  min_created = none;
  max_queue_wait = none;
  max_total_latency = none;
}
acc_of (some a) = a

-- a dimension that is on
abbrev pub dimension : Bool → String → Option String → Group → Group
dimension false dim value rest = rest
dimension true dim value rest = (dim, value) ∷ rest

abbrev pub bucket_dimension : Option ℤ → Option ℤ → Group
bucket_dimension none t = []
bucket_dimension (some b) none = ("time_bucket", none) ∷ []
bucket_dimension (some b) (some t) = ("time_bucket", some (display_ℤ (bucket_start t b))) ∷ []

abbrev pub has_prefix : String → Option String → Bool
has_prefix id p = is_none_or (starts_with id) p

module _ (q : WorkflowAggregateQuery) where
  unfoldable pub aggregate_of : Group × Acc → WorkflowAggregate
  aggregate_of (group, acc) = record {
    group = ordered group;
    count = then_some q.select_count (pos acc.count);
    min_created_at = when q.select_min_created_at acc.min_created;
    max_queue_wait_ms = when q.select_max_queue_wait_ms acc.max_queue_wait;
    max_total_latency_ms = when q.select_max_total_latency_ms acc.max_total_latency;
  }

  abbrev pub by_group : WorkflowAggregate → WorkflowAggregate → Bool
  by_group a b = group_leb a.group b.group

module _ {V : Type 0} ⦃j : Host V⦄ (q : WorkflowAggregateQuery) where
  abbrev created_ms : WorkflowStatus V → ℤ
  created_ms w = j.timestamp_millis w.created_at

  -- the filters of the loop, which the source writes as early `continue`s
  unfoldable pub is_counted : WorkflowStatus V → Bool
  is_counted w =
      names q.status w.status
      && names q.name w.name
      && names q.app_version w.app_version
      && names q.executor_ids w.executor_id
      && names_some q.queue_names w.queue_name
      && has_prefix w.id q.workflow_id_prefix
      && is_none_or (λ t. leb_ℤ t (created_ms w)) q.start_time_ms
      && is_none_or (λ t. leb_ℤ (created_ms w) t) q.end_time_ms
      && is_none_or (λ t. is_some_and (λ c. leb_ℤ t c) w.completed_at_ms) q.completed_after_ms
      && is_none_or (λ t. is_some_and (λ c. leb_ℤ c t) w.completed_at_ms) q.completed_before_ms
      && is_none_or (λ t. is_some_and (λ d. leb_ℤ t d) w.started_at_ms) q.dequeued_after_ms
      && is_none_or (λ t. is_some_and (λ d. leb_ℤ d t) w.started_at_ms) q.dequeued_before_ms

  -- `enabled_columns`, with the values of the row
  unfoldable pub group_of : WorkflowStatus V → Group
  group_of w = dimension q.by_status "status" (some w.status) (
      dimension q.by_name "name" (some w.name) (
        dimension q.by_queue_name "queue_name" w.queue_name (
          dimension q.by_executor_id "executor_id" (some w.executor_id) (
            dimension q.by_app_version "application_version" (some w.app_version)
              (bucket_dimension (positive q.time_bucket_ms) (some (created_ms w)))))))

  abbrev since_created : WorkflowStatus V → Option ℤ → Option ℤ
  since_created w o = and_then o (λ t. some (sub_i64 t (created_ms w)))

  unfoldable pub add_row : WorkflowStatus V → Acc → Acc
  add_row w a = record {
    count = suc a.count;
    min_created = fold_value min_ℤ a.min_created (some (created_ms w));
    max_queue_wait = fold_value max_ℤ a.max_queue_wait (since_created w w.started_at_ms);
    max_total_latency = fold_value max_ℤ a.max_total_latency (since_created w w.completed_at_ms);
  }

  -- the loop over the rows
  unfoldable pub accumulate : List (WorkflowStatus V) → Map Group Acc → Map Group Acc
  accumulate [] accs = accs
  accumulate (w ∷ rows) accs = accumulate rows (
      if is_counted w
      then Map.insert (group_of w) (add_row w (acc_of (Map.get (group_of w) accs))) accs
      else accs)

  unfoldable pub get_workflow_aggregates : Inner V → List WorkflowAggregate
  get_workflow_aggregates g =
      truncate q.limit
        (sort (by_group q) (map (aggregate_of q) (accumulate (Map.values g.workflows) [])))
