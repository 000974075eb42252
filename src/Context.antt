-- ===== src/Context.antt =====
-- src/context.rs: the durable context of a running workflow, over any provider.
pub mod Calls
pub mod Body
pub mod Latched
pub mod Replayed
pub mod Verifying
use durare.Prelude.{ℤ, ℕ, String, Option, none, some}
use durare.Errors.{
  Error, Result, ok, err, unexpected_step, cancelled, replay_diverged, app_error, serde, mismatch,
  extra,
}
use durare.Host.{Host, DateTime, Parsed, parsed, malformed}
use durare.Classify.{code}
use durare.Recorded.{try_from_parts}
use durare.Recorded.Encode.{Serializer, encode_error}
use durare.Workflow.{WorkflowStatus, status_cancelled}
use durare.Memory.{StepOutcome, RecordedStep}
use durare.Memory.StepOutcome.{output, failure}
use durare.Execution.{Execution, record_error, storage, check, body_error}
use durare.Replay.{Verification, saw, stopped, served_record, reserved_record}
use durare.Provider.{Tick, StateProvider}

-- The context, with the provider's state. Its workflow id is an argument of the calls; the flag of a
-- running transaction is left out.
pub record DurableContext (V S : Type 0) : Type 0 where
  pub store : S
  pub execution : Execution V
  pub seq : ℤ
  pub verify : Option Verification

-- How a step body ended.
pub data Ran (V T : Type 0) : Type 0 where
  returned : Result V T → Ran V T
  panicked : String → Ran V T

-- What one execution meets: the values that its bodies and clocks give at each position, what other
-- executions do to the provider's state meanwhile, and its own settings.
pub record World (V T S : Type 0) : Type 0 where
  -- a step's body at a position and an attempt, with all that happens to the state while it runs
  pub live : ℤ → ℕ → S → Ran V T × S
  pub produce : ℤ → T
  pub wake_instant : ℤ → DateTime
  pub started : ℤ → ℤ
  pub tick : ℤ → Tick
  -- what happens to the state before the call at a position is polled
  pub meanwhile : ℤ → S → S
  pub executor_id : String
  pub serializer : Serializer
  -- `serde_json::to_value`
  pub to_value : T → Parsed V

-- A call on the context. What was written stays written after an error.
abbrev pub Act : Type 0 → Type 0 → Type 0 → Type 0
Act V S A = DurableContext V S → Result V A × DurableContext V S

module _ {V S : Type 0} where
  abbrev pub pure : {A : Type 0} → A → Act V S A
  pure a c = (ok a, c)

  abbrev pub raise : {A : Type 0} → Error V → Act V S A
  raise e c = (err e, c)

  -- a provider's method, with `map_err(|error| self.execution.record(error))?`
  abbrev pub answer : {A : Type 0} → Result V A × S → Act V S A
  answer (ok a, s) c = (ok a, record c { store = s })
  answer (err e, s) c =
      let (e', x) = record_error e c.execution in (err e', record c { store = s; execution = x })

  abbrev pub stored : {A : Type 0} → (S → Result V A × S) → Act V S A
  stored f c = answer (f c.store) c

  -- a result with `self.execution.storage(..)?`
  abbrev pub from_storage : {A : Type 0} → Result V A → Act V S A
  from_storage r c = let (r', x) = storage r c.execution in (r', record c { execution = x })

  abbrev pub checked : Act V S (Unit {0})
  checked c = (check c.execution, c)

  abbrev pub booked : (Verification → Verification) → DurableContext V S → DurableContext V S
  booked f c = elim c.verify [ none ↦ c | some v ↦ record c { verify = some (f v) } ]

-- the rest of a chain, after an answer
abbrev pub continue :
    {V S A B : Type 0}
    → (A → Act V S B)
    → Result V A × DurableContext V S
    → Result V B × DurableContext V S
continue f (ok a, c) = f a c
continue f (err e, c) = (err e, c)

infixl 5 ◌>>=◌ ◌>>◌
abbrev pub ◌>>=◌ : {V S A B : Type 0} → Act V S A → (A → Act V S B) → Act V S B
◌>>=◌ m f c = continue f (m c)

abbrev pub ◌>>◌ : {V S B : Type 0} → Act V S (Unit {0}) → Act V S B → Act V S B
m >> k = m >>= λ _. k

-- `serde_json::from_value(..).map_err(Error::from)`
abbrev pub from_parsed : {V A : Type 0} → Parsed A → Result V A
from_parsed (parsed a) = ok a
from_parsed (malformed e) = err (serde e)
