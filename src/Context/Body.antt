-- ===== src/Context/Body.antt =====
-- A workflow body of src/context.rs as the calls that it makes, and its run: every call is built,
-- which claims its position, and awaited where its body continues with what it answers.
use durare.Prelude.{ℤ, Bool, String, Option, none, some, List, string_eq, option_eq}
use durare.Errors.{Result, ok, err}
use durare.Host.{Host, Parsed}
use durare.Memory.{NotificationInsert}
use durare.Execution.{Place, refuse_inside_body, check_call_poll}
use durare.Provider.{StateProvider}
use durare.Context.{DurableContext, World, Act}
use durare.Context.Calls
use durare.Context.Calls.{StepOptions, next_seq}

-- The calls that claim one position. The type that a step's value is read as stands in `decode`.
pub data Operation (V T : Type 0) : Type 0 where
  step : String → (V → Parsed T) → Operation V T
  step_with : StepOptions V → (V → Parsed T) → Operation V T
  -- `now`, `uuid` and `random`
  durable_value : String → (V → Parsed T) → Operation V T
  sleep : Operation V T
  send : List (NotificationInsert V) → Operation V T
  send_bulk : List (NotificationInsert V) → Operation V T
  set_workflow_attributes : String → Option (List (String × V)) → Operation V T
  set_event : String → V → Operation V T
  write_stream : String → V → Operation V T
  close_stream : String → Operation V T

-- What an awaited call gives its body.
pub data Answer (T : Type 0) : Type 0 where
  value : T → Answer T
  done : Answer T

-- A call may be built and dropped. The body of a step may not build or poll one: `Place`.
pub data Body (V T : Type 0) : Type 0 where
  finish : Result V T → Body V T
  await : Place → Place → Operation V T → (Result V (Answer T) → Body V T) → Body V T
  built : Place → Operation V T → Body V T → Body V T
  patch : Place → String → (Result V Bool → Body V T) → Body V T
  deprecate_patch : Place → String → (Result V (Unit {0}) → Body V T) → Body V T

-- The name that a claim reports.
unfoldable pub claim_name : {V T : Type 0} → Operation V T → String
claim_name (step name decode) = "step"
claim_name (step_with opts decode) = "step"
claim_name (durable_value name decode) = name
claim_name sleep = "sleep"
claim_name (send rows) = "send"
claim_name (send_bulk rows) = "send_bulk"
claim_name (set_workflow_attributes target attributes) = "set_workflow_attributes"
claim_name (set_event key v) = "set_event"
claim_name (write_stream key v) = "write_stream"
claim_name (close_stream key) = "close_stream"

-- The name that is recorded at its position.
unfoldable pub record_name : {V T : Type 0} → Operation V T → String
record_name (step name decode) = name
record_name (step_with opts decode) = opts.name
record_name (durable_value name decode) = name
record_name sleep = "DBOS.sleep"
record_name (send rows) = "DBOS.send"
record_name (send_bulk rows) = "DBOS.send_bulk"
record_name (set_workflow_attributes target attributes) = "DBOS.updateWorkflowAttributes"
record_name (set_event key v) = "DBOS.setEvent"
record_name (write_stream key v) = "DBOS.writeStream"
record_name (close_stream key) = "DBOS.closeStream"

abbrev pub as_value {ℓ} : {V T : Type 0} {S : Type ℓ} → Result V T × S → Result V (Answer T) × S
as_value (ok a, s) = (ok (value a), s)
as_value (err e, s) = (err e, s)

abbrev pub as_done {ℓ} : {V T A : Type 0} {S : Type ℓ} → Result V A × S → Result V (Answer T) × S
as_done (ok a, s) = (ok done, s)
as_done (err e, s) = (err e, s)

module _ {V T S : Type 0} ⦃j : Host V⦄ (p : StateProvider V S) (w : World V T S) (id : String) where
  unfoldable pub perform : Operation V T → ℤ → Act V S (Answer T)
  perform (step name decode) seq c = as_value (Calls.step p w id decode seq name c)
  perform (step_with opts decode) seq c = as_value (Calls.step_with p w id decode seq opts c)
  perform (durable_value name decode) seq c =
      as_value (Calls.durable_value_at p w id decode seq name (w.to_value (w.produce seq)) c)
  perform sleep seq c = as_done (
      Calls.durable_value_at p w id j.instant_from_value seq "DBOS.sleep"
        (j.instant_to_value (w.wake_instant seq)) c)
  perform (send rows) seq c = as_done (Calls.send p w id seq "DBOS.send" rows c)
  perform (send_bulk rows) seq c = as_done (Calls.send p w id seq "DBOS.send_bulk" rows c)
  perform (set_workflow_attributes target attributes) seq c =
      as_done (Calls.set_workflow_attributes p w id seq target attributes c)
  perform (set_event key v) seq c = as_done (Calls.set_event p w id seq key v c)
  perform (write_stream key v) seq c =
      as_done (Calls.write_stream p w id seq "DBOS.writeStream" key (some v) c)
  perform (close_stream key) seq c =
      as_done (Calls.write_stream p w id seq "DBOS.closeStream" key none c)

  abbrev pub arrive : ℤ → DurableContext V S → DurableContext V S
  arrive seq c = record c { store = w.meanwhile seq c.store }

  -- The poll of a call that holds the position `seq`.
  unfoldable pub poll : Place → Operation V T → ℤ → Act V S (Answer T)
  poll at op seq c = elim (check_call_poll at (claim_name op) (arrive seq c).execution) [
    | err e ↦ (err e, arrive seq c)
    | ok u ↦ perform op seq (arrive seq c)
  ]

  -- A refusal when the call is built claims no position.
  unfoldable pub await_call : Place → Place → Operation V T → Act V S (Answer T)
  await_call at polled op c = elim (refuse_inside_body at (claim_name op) c.execution) [
    | err e ↦ (err e, c)
    | ok u ↦ poll polled op c.seq (next_seq p w id c)
  ]

  unfoldable pub build_call : Place → Operation V T → DurableContext V S → DurableContext V S
  build_call at op c = elim (refuse_inside_body at (claim_name op) c.execution) [
    | err e ↦ c
    | ok u ↦ next_seq p w id c
  ]

  -- A call that is checked only when it is polled.
  unfoldable pub unclaimed : {A : Type 0} → Place → String → Act V S A → Act V S A
  unclaimed at operation act c = elim (refuse_inside_body at operation c.execution) [
    | err e ↦ (err e, c)
    | ok u ↦ act (arrive c.seq c)
  ]

  unfoldable pub run : Body V T → Act V S T
  run (finish r) c = (r, c)
  run (await at polled op k) c = let (r, c') = await_call at polled op c in run (k r) c'
  run (built at op b) c = run b (build_call at op c)
  run (patch at name k) c =
      let (r, c') = unclaimed at "patch" (Calls.patch p w id name) c in run (k r) c'
  run (deprecate_patch at name k) c =
      let (r, c') = unclaimed at "deprecate_patch" (Calls.deprecate_patch p w id name) c in
      run (k r) c'
