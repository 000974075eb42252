-- ===== src/Tests.antt =====
-- The sample host and the sample states of the tests.
pub mod Lifecycle
pub mod Replays
pub mod Queues
pub mod Tables
pub mod Listings
pub mod Aggregates
pub mod Contexts
use durare.Prelude.{
  display_ℤ, ℤ, pos, Bool, true, false, String, Option, none, some, List, [], ◌∷◌, string_eq,
}
use durare.Errors.{Error, PortableWorkflowError}
use durare.Host.{Host, DateTime, malformed, parsed, scalar}
use durare.Workflow.{WorkflowStatus, new, status_pending, status_success, status_enqueued}
use durare.Memory.{Inner, NotificationInsert, empty}

-- JSON values stand as their texts, and instants as their milliseconds.
instance abbrev pub sample_host : Host String
sample_host = record {
  null = "null";
  value_eq = string_eq;
  value_from_str = parsed;
  envelope_from_str = λ s. malformed "not an envelope";
  payload_from_value = λ v. malformed "not a payload";
  error_from_value = λ v. malformed "not an error";
  envelope_to_string = λ e. e.message;
  payload_to_value = λ n e. "{}";
  db_unavailable = λ s. false;
  db_code = λ s. none;
  db_unique_violation = λ s. false;
  db_foreign_key_violation = λ s. false;
  parse_i32 = λ s. none;
  field = λ v k. none;
  as_str = λ v. some v;
  tree = scalar;
  of_str = λ s. s;
  object = λ l. "{}";
  instant_to_value = λ t. parsed (display_ℤ t);
  instant_from_value = λ v. parsed (pos 0);
  timestamp_millis = λ t. t;
  from_timestamp_millis = λ t. some t;
}

abbrev pub row : String → String → WorkflowStatus String
row id status = record {
  id = id;
  name = "order";
  status = status;
  input = "1";
  output = none;
  error = none;
  error_info = none;
  executor_id = "a";
  app_version = "v1";
  queue_name = none;
  queue_partition_key = none;
  priority = pos 0;
  dedup_id = none;
  recovery_attempts = pos 0;
  parent_workflow_id = none;
  timeout_ms = none;
  deadline_ms = none;
  started_at_ms = none;
  rate_limited = false;
  delay_until_ms = none;
  completed_at_ms = none;
  forked_from = none;
  authenticated_user = none;
  assumed_role = none;
  authenticated_roles = [];
  class_name = none;
  config_name = none;
  created_at = pos 10;
  updated_at = pos 10;
  attributes = none;
}

abbrev pub pending : WorkflowStatus String
pending = row "w" status_pending

abbrev pub queued : WorkflowStatus String
queued = record (row "q" status_enqueued) { queue_name = some "mail"; dedup_id = some "d" }

abbrev pub rival : WorkflowStatus String
rival = record (row "r" status_enqueued) { queue_name = some "mail"; dedup_id = some "d" }

abbrev pub done : WorkflowStatus String
done = record (row "d" status_success) { output = some "9" }

abbrev pub child : WorkflowStatus String
child = record (row "c" status_pending) { name = "ship"; parent_workflow_id = some "w" }

abbrev pub with_rows : List (String × WorkflowStatus String) → Inner String
with_rows rows = record (empty {V = String}) { workflows = rows }

-- one pending workflow
abbrev pub one : Inner String
one = with_rows (("w", pending) ∷ [])

-- a pending workflow, its child, a queued one and a completed one
abbrev pub several : Inner String
several = with_rows (("w", pending) ∷ ("c", child) ∷ ("q", queued) ∷ ("d", done) ∷ [])
