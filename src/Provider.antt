-- ===== src/Provider.antt =====
-- src/provider.rs: the methods of the trait `StateProvider` that a running workflow calls, as an
-- interface over any state, and the contract of its durable record.
pub mod Contract
use durare.Prelude.{ℤ, ℕ, String, Option, List}
use durare.Errors.{Result}
use durare.Host.{DateTime}
use durare.Workflow.{WorkflowStatus}
use durare.Memory.{StepOutcome, RecordedStep, NotificationInsert}

-- A reading of the clock and the fresh uuids of one call.
pub record Tick : Type 0 where
  pub now : DateTime
  pub fresh : ℕ → String

-- A call of a method: its result, and the state that it leaves.
abbrev pub Method : Type 0 → Type 0 → Type 0 → Type 0
Method V S A = S → Result V A × S

pub record StateProvider (V : Type 0) (S : Type 0) : Type 0 where
  pub get_step_result : String → ℤ → Method V S (Option (RecordedStep V))
  pub get_step_name : String → ℤ → Method V S (Option String)
  pub get_workflow_status : String → Method V S (Option (WorkflowStatus V))
  pub record_step_result :
      String
      → ℤ
      → String
      → V
      → Option String
      → Option ℤ
      → Option String
      → Tick
      → Method V S (StepOutcome V)
  pub record_patch : String → ℤ → String → Method V S (Unit {0})
  pub send_from_workflow :
      String → ℤ → String → List (NotificationInsert V) → Tick → Method V S (Unit {0})
  pub write_stream_from_workflow :
      String → ℤ → String → String → Option V → Tick → Method V S (Unit {0})
  pub upsert_event : String → String → V → Method V S (Unit {0})
  pub set_workflow_attributes : String → Option (List (String × V)) → Tick → Method V S (Unit {0})
