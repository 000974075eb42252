-- ===== src/Memory/Aggregates/Steps.antt =====
-- src/memory.rs: the counts of steps by group, with the query of src/provider.rs.
use durare.Prelude.{
  ℤ, pos, ℕ, suc, Bool, String, Option, none, some, List, [], ◌∷◌, ◌&&◌, if◌then◌else◌, leb_ℤ,
  max_ℤ, sub_i64, map, sort, string_eq, option_eq, pair_eq, int_eq,
}
use durare.Map
use durare.Map.{Map}
use durare.Memory.{Inner, StepRow}
use durare.Memory.Dispatch.{is_some_and}
use durare.Memory.Listing.{is_none_or, names, truncate}
use durare.Memory.Aggregates.{
  Group, group_eq, group_leb, ordered, positive, then_some, when, fold_value, dimension,
  bucket_dimension, has_prefix,
}

pub record StepAggregateQuery : Type 0 where
  pub by_function_name : Bool
  pub by_status : Bool
  pub select_count : Bool
  pub select_max_duration_ms : Bool
  pub time_bucket_ms : Option ℤ
  pub status : List String
  pub function_name : List String
  pub workflow_id_prefix : Option String
  pub completed_after_ms : Option ℤ
  pub completed_before_ms : Option ℤ
  pub limit : Option ℤ

pub record StepAggregate : Type 0 where
  pub group : Group
  pub count : Option ℤ
  pub max_duration_ms : Option ℤ

-- The accumulator of a group of steps.
abbrev pub StepAcc : Type 0
StepAcc = ℕ × Option ℤ

-- `or_insert((0, None))`
abbrev pub step_acc_of : Option StepAcc → StepAcc
step_acc_of none = (0, none)
step_acc_of (some a) = a

-- `end - start`, when both are there
abbrev pub duration : Option ℤ → Option ℤ → Option ℤ
duration (some start) (some end) = some (sub_i64 end start)
duration start end = none

module _ (q : StepAggregateQuery) where
  unfoldable pub step_aggregate_of : Group × StepAcc → StepAggregate
  step_aggregate_of (group, (n, longest)) = record {
    group = ordered group;
    count = then_some q.select_count (pos n);
    max_duration_ms = when q.select_max_duration_ms longest;
  }

  abbrev pub by_step_group : StepAggregate → StepAggregate → Bool
  by_step_group a b = group_leb a.group b.group

module _ {V : Type 0} (q : StepAggregateQuery) where
  unfoldable pub step_is_counted : (String × ℤ) × StepRow V → Bool
  step_is_counted ((wid, seq), row) =
      names q.status "SUCCESS"
      && names q.function_name row.name
      && has_prefix wid q.workflow_id_prefix
      && is_none_or (λ t. is_some_and (λ c. leb_ℤ t c) row.completed_at_ms) q.completed_after_ms
      && is_none_or (λ t. is_some_and (λ c. leb_ℤ c t) row.completed_at_ms) q.completed_before_ms

  unfoldable pub step_group_of : StepRow V → Group
  step_group_of row = dimension q.by_function_name "function_name" (some row.name) (
      dimension q.by_status "status" (some "SUCCESS")
        (bucket_dimension (positive q.time_bucket_ms) row.completed_at_ms))

  unfoldable pub add_step : StepRow V → StepAcc → StepAcc
  add_step row (n, longest) =
      (suc n, fold_value max_ℤ longest (duration row.started_at_ms row.completed_at_ms))

  unfoldable pub accumulate_steps :
      Map (String × ℤ) (StepRow V) → Map Group StepAcc → Map Group StepAcc
  accumulate_steps [] accs = accs
  accumulate_steps ((key, row) ∷ rows) accs = accumulate_steps rows (
      if step_is_counted (key, row)
      then Map.insert (step_group_of row)
          (add_step row (step_acc_of (Map.get (step_group_of row) accs))) accs
      else accs)

  unfoldable pub get_step_aggregates : Inner V → List StepAggregate
  get_step_aggregates g =
      truncate q.limit
        (sort (by_step_group q) (map (step_aggregate_of q) (accumulate_steps g.steps [])))
