-- ===== src/Memory/Listing.antt =====
-- src/memory.rs: `list_workflows` and `get_workflow_steps`, with the filters of src/provider.rs.
pub mod Matches
pub mod Pages
pub mod Rows
pub mod Found
pub mod StepRows
use text.Mathlib.Text.{starts_with}
use durare.Prelude.{
  ℤ, pos, negsuc, ℕ, Bool, true, false, String, Option, none, some, List, [], ◌∷◌, ◌==◌, ◌&&◌, ◌||◌,
  not, if◌then◌else◌, leb_ℤ, max_ℤ, any, is_empty, contains, filter, filter_map, map, reverse, sort,
  take, drop, string_eq, option_eq, bool_eq, int_eq,
}
use durare.Map
use durare.Map.{Map}
use durare.Host.{
  Host, Json, Items, Fields, scalar, array, fields, no_items, item, no_fields, field_of, json_eq,
  DateTime,
}
use durare.Recorded.{decode_error}
use durare.Workflow.{WorkflowStatus}
use durare.Memory.{Inner, StepRow}
use durare.Memory.Dispatch.{is_some, is_some_and, to_usize}

pub record ListFilter (V : Type 0) : Type 0 where
  pub workflow_ids : List String
  pub workflow_id_prefix : List String
  pub name : List String
  pub status : List String
  pub queue_name : List String
  pub app_version : List String
  pub executor_ids : List String
  pub authenticated_users : List String
  pub forked_from : List String
  pub parent_workflow_ids : List String
  pub was_forked_from : Option Bool
  pub start_time_ms : Option ℤ
  pub end_time_ms : Option ℤ
  pub completed_after_ms : Option ℤ
  pub completed_before_ms : Option ℤ
  pub dequeued_after_ms : Option ℤ
  pub dequeued_before_ms : Option ℤ
  pub has_parent : Option Bool
  pub attributes : Option (List (String × V))
  pub limit : Option ℤ
  pub offset : Option ℤ
  pub sort_desc : Bool
  pub queues_only : Bool
  pub load_input : Bool
  pub load_output : Bool

-- `ListFilter::default`
abbrev pub default_filter : {V : Type 0} → ListFilter V
default_filter = record {
  workflow_ids = [];
  workflow_id_prefix = [];
  name = [];
  status = [];
  queue_name = [];
  app_version = [];
  executor_ids = [];
  authenticated_users = [];
  forked_from = [];
  parent_workflow_ids = [];
  was_forked_from = none;
  start_time_ms = none;
  end_time_ms = none;
  completed_after_ms = none;
  completed_before_ms = none;
  dequeued_after_ms = none;
  dequeued_before_ms = none;
  has_parent = none;
  attributes = none;
  limit = none;
  offset = none;
  sort_desc = false;
  queues_only = false;
  load_input = true;
  load_output = true;
}

-- `Option::is_none_or`
abbrev pub is_none_or : {A : Type 0} → (A → Bool) → Option A → Bool
is_none_or p none = true
is_none_or p (some a) = p a

-- An empty list of names does not filter; otherwise the name is one of them.
abbrev pub names : List String → String → Bool
names l a = is_empty l || contains l a

-- The same of a field that may be absent, which no name matches.
abbrev pub names_some : List String → Option String → Bool
names_some l o = is_empty l || is_some_and (contains l) o

-- `drain(..off)` and `truncate(lim)`; a negative number counts as 0.
abbrev pub skip : {A : Type 0} → Option ℤ → List A → List A
skip none l = l
skip (some n) l = drop (to_usize n) l

abbrev pub truncate : {A : Type 0} → Option ℤ → List A → List A
truncate none l = l
truncate (some n) l = take (to_usize n) l

-- A negative limit is no limit.
abbrev pub at_most : {A : Type 0} → Option ℤ → List A → List A
at_most (some (pos n)) l = take n l
at_most _ l = l

abbrev pub and_then : {A B : Type 0} → Option A → (A → Option B) → Option B
and_then none f = none
and_then (some a) f = f a

module _ {V : Type 0} ⦃j : Host V⦄ where
  -- `map.get(key)` of an object, and a test of what is there
  unfoldable pub some_field : String → (Json V → Bool) → Fields V → Bool
  some_field k p no_fields = false
  some_field k p (field_of l v rest) = if l == k then p v else some_field k p rest

  -- `s.iter().any(p)` over an array
  unfoldable pub any_item : (Json V → Bool) → Items V → Bool
  any_item p no_items = false
  any_item p (item v rest) = p v || any_item p rest

  -- `contains_value`, by recursion on the filter, which comes first; a scalar is contained only in
  -- an equal scalar, and a filter of another kind than the stored value in nothing.
  mutual
    pub contained : Json V → Json V → Bool
    contained (scalar f) s = elim s [ scalar v ↦ v == f | _ ↦ false ]
    contained (array f) s = elim s [ array items ↦ contained_items f items | _ ↦ false ]
    contained (fields f) s = elim s [ fields entries ↦ contained_fields f entries | _ ↦ false ]

    pub contained_items : Items V → Items V → Bool
    contained_items no_items s = true
    contained_items (item f rest) s = any_item (contained f) s && contained_items rest s

    pub contained_fields : Fields V → Fields V → Bool
    contained_fields no_fields s = true
    contained_fields (field_of k f rest) s = some_field k (contained f) s && contained_fields rest s

  -- `filter.iter().all(..)` over the entries of the filter's map
  unfoldable pub all_entries : List (String × V) → Fields V → Bool
  unfolding contained some_field
  all_entries [] s = true
  all_entries ((k, v) ∷ rest) s = some_field k (contained (j.tree v)) s && all_entries rest s

  unfoldable pub attributes_contain : Option V → List (String × V) → Bool
  attributes_contain none f = is_empty f
  attributes_contain (some stored) f = elim (j.tree stored) [
    | fields s ↦ all_entries f s
    | _ ↦ is_empty f
  ]

  -- the ids that some row was forked from
  unfoldable pub fork_sources : Map String (WorkflowStatus V) → List String
  fork_sources m = filter_map (λ w. w.forked_from) (Map.values m)

  -- the closure of `filter`
  unfoldable pub is_listed : ListFilter V → List String → WorkflowStatus V → Bool
  is_listed f sources w =
      let created = j.timestamp_millis w.created_at in
      names f.workflow_ids w.id
      && (is_empty f.workflow_id_prefix || any (λ p. starts_with w.id p) f.workflow_id_prefix)
      && names f.name w.name
      && is_none_or (attributes_contain w.attributes) f.attributes
      && names f.status w.status
      && names_some f.queue_name w.queue_name
      && names f.app_version w.app_version
      && names f.executor_ids w.executor_id
      && names_some f.authenticated_users w.authenticated_user
      && names_some f.forked_from w.forked_from
      && names_some f.parent_workflow_ids w.parent_workflow_id
      && is_none_or (λ b. contains sources w.id == b) f.was_forked_from
      && is_none_or (λ t. leb_ℤ t created) f.start_time_ms
      && is_none_or (λ t. leb_ℤ created t) f.end_time_ms
      && is_none_or (λ t. is_some_and (λ c. leb_ℤ t c) w.completed_at_ms) f.completed_after_ms
      && is_none_or (λ t. is_some_and (λ c. leb_ℤ c t) w.completed_at_ms) f.completed_before_ms
      && is_none_or (λ t. is_some_and (λ s. leb_ℤ t s) w.started_at_ms) f.dequeued_after_ms
      && is_none_or (λ t. is_some_and (λ s. leb_ℤ s t) w.started_at_ms) f.dequeued_before_ms
      && is_none_or (λ b. is_some w.parent_workflow_id == b) f.has_parent
      && (not f.queues_only || is_some w.queue_name)

  abbrev pub earlier_created : WorkflowStatus V → WorkflowStatus V → Bool
  earlier_created v w = leb_ℤ v.created_at w.created_at

  -- the fields that the caller opted out of
  unfoldable pub trim : ListFilter V → WorkflowStatus V → WorkflowStatus V
  trim f w = record w {
    input = if f.load_input then w.input else j.null;
    output = if f.load_output then w.output else none;
  }

  unfoldable pub list_workflows : ListFilter V → Inner V → List (WorkflowStatus V)
  list_workflows f g =
      let rows =
        sort earlier_created
          (filter (is_listed f (fork_sources g.workflows)) (Map.values g.workflows)) in
      map (trim f) (truncate f.limit (skip f.offset (if f.sort_desc then reverse rows else rows)))

pub record StepListOptions : Type 0 where
  pub limit : Option ℤ
  pub offset : Option ℤ
  pub load_output : Bool

-- `StepListOptions::default`
abbrev pub default_options : StepListOptions
default_options = record { limit = none; offset = none; load_output = true }

pub record StepInfo (V : Type 0) : Type 0 where
  pub step_id : ℤ
  pub name : String
  pub output : Option V
  pub error : Option String
  pub child_workflow_id : Option String
  pub started_at : Option DateTime
  pub completed_at : Option DateTime

module _ {V : Type 0} where
  -- the rows of one workflow, with their positions
  unfoldable pub rows_of : String → Map (String × ℤ) (StepRow V) → List (ℤ × StepRow V)
  rows_of workflow_id [] = []
  rows_of workflow_id (((wid, seq), row) ∷ m) =
      let rest = rows_of workflow_id m in if wid == workflow_id then (seq, row) ∷ rest else rest

  abbrev pub by_seq : ℤ × StepRow V → ℤ × StepRow V → Bool
  by_seq (a, v) (b, w) = leb_ℤ a b

module _ {V : Type 0} ⦃j : Host V⦄ where
  unfoldable pub step_info : StepListOptions → ℤ × StepRow V → StepInfo V
  step_info options (seq, row) = record {
    step_id = seq;
    name = row.name;
    output = if options.load_output then row.output else none;
    error = elim row.error [ none ↦ none | some e ↦ some (decode_error {V = V} none e).0 ];
    child_workflow_id = row.child_workflow_id;
    started_at = and_then row.started_at_ms j.from_timestamp_millis;
    completed_at = and_then row.completed_at_ms j.from_timestamp_millis;
  }

  -- Positions and counts are `usize` on a 64-bit machine, where every i64 that is not negative fits.
  unfoldable pub get_workflow_steps_with_options :
      String → StepListOptions → Inner V → List (StepInfo V)
  get_workflow_steps_with_options workflow_id options g =
      map (step_info options)
        (at_most options.limit (skip options.offset (sort by_seq (rows_of workflow_id g.steps))))

  unfoldable pub get_workflow_steps : String → Inner V → List (StepInfo V)
  unfolding get_workflow_steps_with_options
  get_workflow_steps workflow_id = get_workflow_steps_with_options workflow_id default_options
