-- ===== src/Context/Replayed.antt =====
-- The reference semantics of a replay of src/context.rs: what a body returns when every call that
-- it awaits is answered from a table of recorded steps, with no provider, clock or step body.
pub mod Served
pub mod Going
pub mod Rerun
pub mod Gate
pub mod Live
pub mod Performed
pub mod Answered
pub mod Patched
pub mod Grown
pub mod Settled
use durare.Prelude.{
  ℤ, Bool, true, false, String, Option, none, some, ◌==◌, if◌then◌else◌, string_eq, option_eq,
  succ_i32,
}
use durare.Errors.{Error, Result, ok, err}
use durare.Host.{Host, Parsed, parsed}
use durare.Recorded.{try_from_parts}
use durare.Memory.{StepOutcome, RecordedStep}
use durare.Memory.StepOutcome.{output, failure}
use durare.Execution
use durare.Execution.{refuse_inside_body, check_call_poll}
use durare.Context.{from_parsed}
use durare.Context.Calls.{StepOptions, patch_marker}
use durare.Context.Body.{
  Operation, Answer, value, done, Body, step, step_with, durable_value, sleep, send, send_bulk,
  set_workflow_attributes, set_event, write_stream, close_stream, finish, await, built, patch,
  deprecate_patch, claim_name, record_name,
}

-- The recorded steps of one workflow.
abbrev pub Table : Type 0 → Type 0
Table V = ℤ → Option (RecordedStep V)

abbrev pub map_ok {ℓ} : {V : Type 0} {A : Type 0} {B : Type ℓ} → (A → B) → Result V A → Result V B
map_ok f (ok a) = ok (f a)
map_ok f (err e) = err e

abbrev pub map_option : {A B : Type 0} → (A → B) → Option A → Option B
map_option f none = none
map_option f (some a) = some (f a)

-- A recorded failure, if it can be read.
abbrev pub failure_value : {V A : Type 0} → Result V (Error V) → Option (Result V A)
failure_value (ok error) = some (err error)
failure_value (err unreadable) = none

module _ {V : Type 0} ⦃j : Host V⦄ where
  -- What a recorded outcome gives at a type; a record that cannot be read gives nothing.
  unfoldable pub read_outcome : {A : Type 0} → (V → Parsed A) → StepOutcome V → Option (Result V A)
  read_outcome decode (output v) = some (from_parsed (decode v))
  read_outcome decode (failure message info) = failure_value (try_from_parts message info)

  -- The record at a position, under a name.
  unfoldable pub read_at :
      {A : Type 0} → (V → Parsed A) → String → Option (RecordedStep V) → Option (Result V A)
  unfolding read_outcome
  read_at decode name none = none
  read_at decode name (some r) = if r.name == name then read_outcome decode r.outcome else none

  abbrev pub as_values : {T : Type 0} → Option (Result V T) → Option (Result V (Answer T))
  as_values = map_option (map_ok value)

  abbrev pub as_dones : {T A : Type 0} → Option (Result V A) → Option (Result V (Answer T))
  as_dones = map_option (map_ok (λ a. done))

  unfoldable pub serve : {T : Type 0} → Table V → Operation V T → ℤ → Option (Result V (Answer T))
  unfolding read_at
  serve t (step name decode) seq = as_values (read_at decode name (t seq))
  serve t (step_with opts decode) seq = as_values (read_at decode opts.name (t seq))
  serve t (durable_value name decode) seq = as_values (read_at decode name (t seq))
  serve t sleep seq = as_dones (read_at j.instant_from_value "DBOS.sleep" (t seq))
  serve t op seq = as_dones (read_at {A = V} parsed (record_name op) (t seq))

  -- The refusals of a call are those of an execution with no failure, whose id they name.
  unfoldable pub replay : {T : Type 0} → String → Table V → Body V T → ℤ → Option (Result V T)
  replay id t (finish r) q = some r
  replay id t (await at polled op k) q =
      elim (refuse_inside_body {V = V} at (claim_name op) (Execution.new id)) [
        | err e ↦ replay id t (k (err e)) q
        | ok u ↦ elim (check_call_poll {V = V} polled (claim_name op) (Execution.new id)) [
          | err e ↦ replay id t (k (err e)) (succ_i32 q)
          | ok u ↦ elim (serve t op q) [ none ↦ none | some r ↦ replay id t (k r) (succ_i32 q) ]
        ]
      ]
  replay id t (built at op b) q =
      elim (refuse_inside_body {V = V} at (claim_name op) (Execution.new id)) [
        | err e ↦ replay id t b q
        | ok u ↦ replay id t b (succ_i32 q)
      ]
  replay id t (patch at name k) q =
      elim (refuse_inside_body {V = V} at "patch" (Execution.new id)) [
        | err e ↦ replay id t (k (err e)) q
        | ok u ↦ elim (t q) [
          | none ↦ none
          | some r ↦ elim (r.name == patch_marker name) [
            | true ↦ replay id t (k (ok true)) (succ_i32 q)
            | false ↦ replay id t (k (ok false)) q
          ]
        ]
      ]
  replay id t (deprecate_patch at name k) q =
      elim (refuse_inside_body {V = V} at "deprecate_patch" (Execution.new id)) [
        | err e ↦ replay id t (k (err e)) q
        | ok u ↦ elim (t q) [
          | none ↦ none
          | some r ↦ elim (r.name == patch_marker name) [
            | true ↦ replay id t (k (ok tt)) (succ_i32 q)
            | false ↦ replay id t (k (ok tt)) q
          ]
        ]
      ]
