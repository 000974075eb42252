-- ===== src/Tests/Contexts.antt =====
-- Tests of the theorems on runs of workflow bodies, verification reports and stored errors.
use durare.Context.Replayed.Settled.{Settled}
use durare.Memory.Status.{get_workflow_status}
use durare.Context.Calls.{patch, step, step}
use durare.Prelude.{
  strip_prefix, arith, wrap_i32, succ_i32, format, format, contains, contains, contains, find,
  contains, find, pos, true, String, Option, none, some, [], ◌∷◌, ◌≡◌, refl, inr, All, string_eq,
  option_eq, int_eq, pair_eq,
}
use durare.Errors.{Error, ok, err, app, app_error, db}
use durare.Host.{Host, parsed}
use durare.Recorded.Encode.{is_portable, is_portable, Serializer, envelope, encode_error}
use durare.Recorded.Roundtrip.{
  without_source, without_source, read_step_error, try_from_parts-encode_error,
}
use durare.Recorded.{is_wired, try_from_parts}
use durare.Recorded.Outcomes.{IsBusiness, try_from_parts-IsBusiness}
use durare.Workflow.{status_success}
use durare.Memory.{output, step_row_outcome, step_row_outcome, Inner}
use durare.Memory.Steps.{
  refresh_executor, refresh_executor, record_step_result, record_patch, get_step_name,
  get_step_result,
}
use durare.Memory.Listing.{StepInfo}
use durare.Memory.Durable.{in_memory, recorded_steps, in_memory-IsDurable}
use durare.Execution
use durare.Execution.{Place}
use durare.Replay
use durare.Replay.{History, RunOutcome, Verification, accounts_for, passes, report}
use durare.Replay.Report.{report-passes, passes-report}
use durare.Provider.Contract.{IsDurable}
use durare.Context.{DurableContext, World, Ran}
use durare.Context.Body.{
  record_name, record_name, unclaimed, perform, poll, await_call, perform, poll, await_call,
  Operation, Body, value, done, finish, await, run,
}
use durare.Context.Latched.{run-latched}
use durare.Context.Verifying.{ReadsOnly, Untouched}
use durare.Context.Verifying.Runs.{run-verifying}
use durare.Context.Replayed.{serve, replay, serve, replay, Table}
use durare.Context.Replayed.Rerun.Again.{run-replay}
use durare.Context.Replayed.Settled.Again.{run-again}
use durare.Map
use durare.Tests.{one, sample_host}
use durare.Tests.Replays.{charged}

in_memory-IsDurable_example : IsDurable (recorded_steps {V = String}) in_memory
in_memory-IsDurable_example = in_memory-IsDurable {V = String}

-- A world whose step body answers `8`, where no other execution writes.
abbrev world : World String String (Inner String)
world = record {
  live = λ seq attempt s. (Ran.returned (ok "8"), s);
  produce = λ seq. "5";
  wake_instant = λ seq. pos 30;
  started = λ seq. pos 20;
  tick = λ seq. record { now = pos 40; fresh = λ n. "u" };
  meanwhile = λ seq s. s;
  executor_id = "b";
  serializer = Serializer.json;
  to_value = parsed;
}

-- Charge, and return what the charge answered.
abbrev order : Body String String
order = await Place.in_workflow Place.in_workflow (Operation.step "charge" parsed) (λ r. elim r [
  | err e ↦ finish (err e)
  | ok a ↦ elim a [ value v ↦ finish (ok v) | done ↦ finish (ok "") ]
])

abbrev at : Option Verification → DurableContext String (Inner String)
at v = record { store = charged; execution = Execution.new "w"; seq = pos 0; verify = v }

-- The recorded steps of `w`.
abbrev history : Table String
history q = recorded_steps charged "w" q

run-replay_example : (run in_memory world "w" order (at none)).0 ≡ ok "7"
unfolding run in_memory replay Execution.refuse_inside_body Execution.check_call_poll serve
    get_step_result Map.get step_row_outcome await_call poll perform step
run-replay_example =
    run-replay recorded_steps in_memory world "w" in_memory-IsDurable (λ q s w n r h. h) history
      order (ok "7") (at none) (λ q r h. h) refl refl refl refl

-- A patch, and then the charge.
abbrev patched_order : Body String String
patched_order = Body.patch Place.in_workflow "v2" (λ r. order)

-- Before the workflow recorded anything.
abbrev fresh : DurableContext String (Inner String)
fresh = record (at none) { store = one }

-- Another executor, whose step bodies answer `9`, on the state that the first run left.
abbrev recovery : World String String (Inner String)
recovery = record world { live = λ seq attempt s. (Ran.returned (ok "9"), s); executor_id = "c" }

abbrev recovered : DurableContext String (Inner String)
recovered = record fresh { store = (run in_memory world "w" patched_order fresh).1.store }

run-again_example :
    (run in_memory recovery "w" patched_order recovered).0
    ≡ (run in_memory world "w" patched_order fresh).0
unfolding run in_memory await_call Execution.refuse_inside_body unclaimed patch get_step_name
    Map.get record_patch poll Execution.check_call_poll perform step get_step_result Map.insert
    succ_i32 wrap_i32 get_workflow_status record_step_result step_row_outcome Settled format
    refresh_executor record_name
run-again_example =
    run-again recorded_steps in_memory world recovery "w" in_memory-IsDurable (λ q a s n. refl)
      (λ q s w n r h. h) (λ q s w n r h. h) patched_order fresh recovered refl (refl, refl) refl
      (
        (λ a. (record { name = "DBOS.patch-v2"; outcome = output "null" }, refl)),
        ((λ a b. refl), tt),
      )
      (λ q r h. h) refl (refl, refl) refl

-- Its reads leave the in-memory provider alone.
in_memory_reads : ReadsOnly (in_memory {V = String})
unfolding in_memory
in_memory_reads = record {
  get_step_result_state = λ w q s. refl;
  get_step_name_state = λ w q s. refl;
  get_workflow_status_state = λ w s. refl;
}

run-verifying_example :
    Untouched
      (at (some (Replay.new true)))
      (run in_memory world "w" order (at (some (Replay.new true)))).1
run-verifying_example =
    run-verifying in_memory world "w" in_memory_reads (λ q s. refl) order
      (at (some (Replay.new true))) refl

-- A context whose provider has failed.
abbrev failing : DurableContext String (Inner String)
failing = record (at none) {
  execution = record { workflow_id = "w"; failure = some (db "connection refused") };
}

run-latched_example : (run in_memory world "w" order failing).1 ≡ failing
run-latched_example = run-latched in_memory world "w" (db "connection refused") order failing refl

abbrev charge_info : StepInfo String
charge_info = record {
  step_id = pos 0;
  name = "charge";
  output = some "7";
  error = none;
  child_workflow_id = none;
  started_at = none;
  completed_at = none;
}

abbrev seen : Verification
seen = record (Replay.new true) { served = pos 0 ∷ [] }

abbrev charge_run : History String
charge_run = record {
  id = "w";
  name = "order";
  status = status_success;
  recorded = charge_info ∷ [];
}

abbrev ended : RunOutcome String
ended = RunOutcome.returned (ok "7")

report-passes_example :
    (seen.divergence ≡ none)
    × All (λ op. accounts_for seen op ≡ true) charge_run.recorded
    × ((report seen charge_run ended).matched ≡ (report seen charge_run ended).recorded)
    × Replay.Report.EndedWell seen charge_run ended
unfolding report passes Replay.run_error find contains
report-passes_example = report-passes seen charge_run ended refl

passes-report_example : passes (report seen charge_run ended) ≡ true
unfolding accounts_for contains Replay.own_failure Replay.run_error
passes-report_example = passes-report seen charge_run ended refl (refl, tt) (inr refl)

abbrev absent : Error String
absent = app "__DURARE_ERROR__:no funds" (some "timed out")

-- A host whose parsers read the envelope and the payload of that error.
abbrev wire_host : Host String
wire_host = record sample_host {
  envelope_to_string = λ e. "envelope";
  envelope_from_str = λ s. parsed (envelope ⦃j = sample_host⦄ absent);
  payload_from_value = λ v. parsed (record { version = 1; error = v });
  error_from_value = λ v. parsed (app_error "__DURARE_ERROR__:no funds");
}

try_from_parts-encode_error_example :
    read_step_error String ⦃j = wire_host⦄ "__DURARE_ERROR__:envelope"
    ≡ ok (app_error "__DURARE_ERROR__:no funds")
unfolding envelope is_portable encode_error format without_source strip_prefix
try_from_parts-encode_error_example =
    try_from_parts-encode_error {V = String} ⦃j = wire_host⦄ absent refl (λ h. ("{}", refl, refl))
      Serializer.json "__DURARE_ERROR__:envelope" refl refl

wired :
    (e : Error String)
    → parsed (app_error {V = String} "__DURARE_ERROR__:no funds") ≡ parsed e
    → is_wired e ≡ true
unfolding is_wired
wired e h = ground arith

try_from_parts-IsBusiness_example :
    IsBusiness ⦃j = wire_host⦄ (app_error "__DURARE_ERROR__:no funds")
unfolding envelope strip_prefix try_from_parts
try_from_parts-IsBusiness_example =
    try_from_parts-IsBusiness {V = String} ⦃j = wire_host⦄ (λ wire e h. wired e h)
      "__DURARE_ERROR__:envelope" none (app_error "__DURARE_ERROR__:no funds") refl
