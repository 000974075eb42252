-- ===== src/Memory.antt =====
-- src/memory.rs: the state behind the mutex of `InMemoryProvider`, and the helpers that its
-- operations share. An operation is a function from the state to its result and the new state; the
-- mutex makes it one step. Readings of the clock and fresh uuids are arguments.
pub mod Status
pub mod Steps
pub mod Messages
pub mod Dispatch
pub mod Streams
pub mod Manage
pub mod Lifecycle
pub mod Registry
pub mod Listing
pub mod Retention
pub mod Aggregates
pub mod Durable
pub mod Calls
use durare.Prelude.{
  ℤ, ℕ, suc, Bool, true, false, String, Option, none, some, List, [], ◌∷◌, ◌++◌, ◌==◌, ◌!=◌,
  if◌then◌else◌, any, find, format, string_eq, option_eq, int_eq, pair_eq,
}
use durare.Map
use durare.Map.{Map}
use durare.Errors.{
  Error, PortableWorkflowError, Result, ok, err, unexpected_step, non_existent_workflow, app_error,
}
use durare.Host.{Host, DateTime}
use durare.Recorded.{decode_error, from_parts, is_none}
use durare.Workflow.{WorkflowStatus}
use durare.Schedule.{WorkflowSchedule, WorkflowQueue}

pub record NotificationRow (V : Type 0) : Type 0 where
  pub message_uuid : String
  pub destination_id : String
  pub topic : String
  pub message : V
  pub consumed : Bool
  pub created_at_ms : ℤ

pub record StepRow (V : Type 0) : Type 0 where
  pub name : String
  pub output : Option V
  pub error : Option String
  pub child_workflow_id : Option String
  pub started_at_ms : Option ℤ
  pub completed_at_ms : Option ℤ

-- provider.rs
pub data StepOutcome (V : Type 0) : Type 0 where
  output : V → StepOutcome V
  failure : String → Option (PortableWorkflowError V) → StepOutcome V

pub record RecordedStep (V : Type 0) : Type 0 where
  pub name : String
  pub outcome : StepOutcome V

pub record NotificationInsert (V : Type 0) : Type 0 where
  pub destination_id : String
  pub topic : String
  pub message : V
  pub idempotency_key : Option String

pub record VersionInfo : Type 0 where
  pub version_id : String
  pub version_name : String
  pub version_timestamp : DateTime
  pub created_at : DateTime

pub record Inner (V : Type 0) : Type 0 where
  pub workflows : Map String (WorkflowStatus V)
  pub steps : Map (String × ℤ) (StepRow V)
  pub notifications : List (NotificationRow V)
  pub events : Map (String × String) V
  pub streams : Map (String × String) (List (Option V))
  pub schedules : Map String (WorkflowSchedule V)
  pub versions : Map String VersionInfo
  pub queues : Map String WorkflowQueue

-- `InMemoryProvider::new`
abbrev pub empty : {V : Type 0} → Inner V
empty = record {
  workflows = [];
  steps = [];
  notifications = [];
  events = [];
  streams = [];
  schedules = [];
  versions = [];
  queues = [];
}

-- An operation under the lock: its result, and the state that it leaves.
abbrev pub Op : Type 0 → Type 0 → Type 0
Op V A = Inner V → Result V A × Inner V

-- the primary key of a notification: derived from the key, or fresh
unfoldable pub message_uuid : Option String → String → String → String
message_uuid (some k) destination uuid = format (k ∷ "::" ∷ destination ∷ [])
message_uuid none destination uuid = uuid

-- `entry(..).or_default()` of a list
abbrev pub or_default : {A : Type 0} → Option (List A) → List A
or_default none = []
or_default (some l) = l

module _ {V : Type 0} ⦃j : Host V⦄ where
  unfoldable pub step_row_outcome : StepRow V → StepOutcome V
  step_row_outcome r = elim r.error [
    | some e ↦ let (message, info) = decode_error none e in failure message info
    | none ↦ elim r.output [ none ↦ output j.null | some v ↦ output v ]
  ]

  -- `StepOutcome::into_value_result`
  unfoldable pub into_value_result : StepOutcome V → Result V V
  into_value_result (output v) = ok v
  into_value_result (failure message info) = err (from_parts message info)

  unfoldable pub recorded_at : Inner V → String → ℤ → String → Result V (Option (StepRow V))
  recorded_at g workflow_id seq step_name = elim (Map.get (workflow_id, seq) g.steps) [
    | none ↦ ok none
    | some row ↦
        if row.name != step_name
        then err (unexpected_step workflow_id seq step_name row.name)
        else ok (some row)
  ]

  abbrev pub checkpoint_row : String → V → DateTime → StepRow V
  checkpoint_row step_name value now = record {
    name = step_name;
    output = some value;
    error = none;
    child_workflow_id = none;
    started_at_ms = none;
    completed_at_ms = some (j.timestamp_millis now);
  }

  unfoldable pub checkpoint : Inner V → String → ℤ → String → V → DateTime → Inner V
  checkpoint g workflow_id seq step_name value now = record g {
    steps = Map.insert (workflow_id, seq) (checkpoint_row step_name value now) g.steps;
  }

  -- a keyed send whose primary key is already there
  unfoldable pub is_duplicate : Option String → String → List (NotificationRow V) → Bool
  is_duplicate none uuid rows = false
  is_duplicate (some k) uuid rows = any (λ n. n.message_uuid == uuid) rows

  abbrev pub notification_row : NotificationInsert V → String → DateTime → NotificationRow V
  notification_row r uuid now = record {
    message_uuid = uuid;
    destination_id = r.destination_id;
    topic = r.topic;
    message = r.message;
    consumed = false;
    created_at_ms = j.timestamp_millis now;
  }

  -- one turn of the loop of `push_notifications`
  unfoldable pub push_notification :
      NotificationInsert V → String → DateTime → List (NotificationRow V) → List (NotificationRow V)
  unfolding is_duplicate
  push_notification r fresh now rows =
      let uuid = message_uuid r.idempotency_key r.destination_id fresh in
      if is_duplicate r.idempotency_key uuid rows
      then rows
      else rows ++ notification_row r uuid now ∷ []

  -- the loop; `fresh` is the uuid that the row at each index would draw
  unfoldable pub push_rows :
      List (NotificationInsert V)
      → ℕ
      → (ℕ → String)
      → DateTime
      → List (NotificationRow V)
      → List (NotificationRow V)
  push_rows [] i fresh now rows = rows
  push_rows (r ∷ rs) i fresh now rows =
      push_rows rs (suc i) fresh now (push_notification r (fresh i) now rows)

  unfoldable pub is_missing : Inner V → NotificationInsert V → Bool
  is_missing g r = if Map.contains_key r.destination_id g.workflows then false else true

  unfoldable pub push_notifications :
      List (NotificationInsert V) → (ℕ → String) → DateTime → Op V (Unit {0})
  push_notifications rows fresh now g = elim (find (is_missing g) rows) [
    | some missing ↦ (err (non_existent_workflow missing.destination_id), g)
    | none ↦ (ok tt, record g { notifications = push_rows rows 0 fresh now g.notifications })
  ]

  -- `entry(..).or_default()` leaves an empty stream behind only where the value is then pushed.
  unfoldable pub append_stream : String → String → Option V → Op V (Unit {0})
  append_stream workflow_id key value g =
      let entries = or_default (Map.get (workflow_id, key) g.streams) in
      if any is_none entries
      then (err (app_error (format ("stream `" ∷ key ∷ "` is already closed" ∷ []))), g)
      else (
        ok tt,
        record g { streams = Map.insert (workflow_id, key) (entries ++ value ∷ []) g.streams },
      )
