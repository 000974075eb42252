-- ===== src/Context/Calls.antt =====
-- The durable calls of src/context.rs at a position that is theirs: the replay gate, checkpoints,
-- retries, and the effects that leave a checkpoint with them. Spans, metrics and waiting are left
-- out.
use durare.Prelude.{
  option_eq, ℤ, ℕ, zero, suc, Bool, true, false, String, Option, none, some, List, [], ◌∷◌, ◌==◌,
  ◌!=◌, if◌then◌else◌, string_eq, format, display_ℤ, succ_i32,
}
use durare.Errors.{
  Error, Result, ok, err, unexpected_step, cancelled, replay_diverged, app_error, serde, mismatch,
  extra, recovery_required, observation_failed,
}
use durare.Host.{Host, Parsed, parsed, malformed}
use durare.Recorded.{try_from_parts}
use durare.Recorded.Encode.{encode_error}
use durare.Workflow.{WorkflowStatus, status_cancelled}
use durare.Memory.{StepOutcome, RecordedStep, NotificationInsert}
use durare.Memory.StepOutcome.{output, failure}
use durare.Execution.{body_error, is_cancellation_for, is_scope_violation}
use durare.Replay.{saw, stopped, served_record}
use durare.Provider.{StateProvider}
use durare.Context.{
  DurableContext, Ran, returned, panicked, World, Act, pure, raise, stored, from_storage, checked,
  booked, ◌>>=◌, ◌>>◌, from_parsed,
}

-- The options that decide what a step does; the others set the length of its waits.
pub record StepOptions (V : Type 0) : Type 0 where
  pub name : String
  pub max_retries : ℕ
  pub retry_if : Option (Error V → Bool)

-- `run_step_catching`
unfoldable pub run_step_catching : {V T : Type 0} → String → Ran V T → Result V T
run_step_catching name (returned r) = r
run_step_catching name (panicked message) =
    err (app_error (format ("step `" ∷ name ∷ "` panicked: " ∷ message ∷ [])))

abbrev pub patch_marker : String → String
patch_marker name = format ("DBOS.patch-" ∷ name ∷ [])

-- `if let Some(_done) = ..`
abbrev pub as_done : {A : Type 0} → Option A → Option (Unit {0})
as_done none = none
as_done (some a) = some tt

module _ {V T S : Type 0} ⦃j : Host V⦄ (p : StateProvider V S) (w : World V T S) (id : String) where
  unfoldable pub check_recorded : ℤ → String → String → Act V S (Unit {0})
  check_recorded seq expected recorded c =
      if recorded != expected
      then (
        err (unexpected_step id seq expected recorded),
        booked (saw (mismatch seq expected recorded)) c,
      )
      else (ok tt, booked (served_record seq) c)

  unfoldable pub refuse_live_work : ℤ → String → Act V S (Unit {0})
  refuse_live_work seq operation c = elim c.verify [
    | none ↦ (ok tt, c)
    | some v ↦
        if v.complete
        then (err (replay_diverged id (extra seq operation)), booked (saw (extra seq operation)) c)
        else (
          err (
              app_error (
                format (
                  "replay verification of workflow `"
                  ∷ id
                  ∷ "` reached the end of the recorded history at step "
                  ∷ display_ℤ seq
                  ∷ []))),
          booked (stopped seq operation) c,
        )
  ]

  unfoldable pub recorded_value : {A : Type 0} → (V → Parsed A) → StepOutcome V → Act V S A
  recorded_value decode (output value) c = (from_parsed (decode value), c)
  recorded_value decode (failure message info) c =
      (from_storage (try_from_parts message info) >>= raise) c

  unfoldable pub served_value : {A : Type 0} → (V → Parsed A) → StepOutcome V → Act V S (Option A)
  unfolding recorded_value
  served_value decode o = recorded_value decode o >>= λ a. pure (some a)

  -- the arms of `serve_recorded`
  unfoldable pub found :
      {A : Type 0} → (V → Parsed A) → ℤ → String → Option (RecordedStep V) → Act V S (Option A)
  unfolding check_recorded served_value refuse_live_work
  found decode seq expected (some rec) =
      check_recorded seq expected rec.name >> served_value decode rec.outcome
  found decode seq expected none = refuse_live_work seq expected >> pure none

  unfoldable pub serve_recorded : {A : Type 0} → (V → Parsed A) → ℤ → String → Act V S (Option A)
  unfolding found
  serve_recorded decode seq expected =
      stored (p.get_step_result id seq) >>= found decode seq expected

  unfoldable pub refuse_cancelled : Option (WorkflowStatus V) → Act V S (Unit {0})
  refuse_cancelled none = pure tt
  refuse_cancelled (some row) =
      if row.status == status_cancelled then raise (cancelled id) else pure tt

  -- the second half of `replay_or_guard`
  unfoldable pub guarded : {A : Type 0} → Option A → Act V S (Option A)
  unfolding refuse_cancelled
  guarded (some a) = pure (some a)
  guarded none = stored (p.get_workflow_status id) >>= refuse_cancelled >> pure none

  unfoldable pub replay_or_guard : {A : Type 0} → (V → Parsed A) → ℤ → String → Act V S (Option A)
  unfolding serve_recorded guarded
  replay_or_guard decode seq expected = serve_recorded decode seq expected >>= guarded

  unfoldable pub write_step_outcome :
      {A : Type 0} → (V → Parsed A) → ℤ → String → V → Option String → Option ℤ → Act V S A
  unfolding recorded_value
  write_step_outcome decode seq name value encoded started =
      stored
        (p.record_step_result id seq name value encoded started (some w.executor_id) (w.tick seq))
      >>= recorded_value decode

  unfoldable pub record_failure :
      {A : Type 0} → (V → Parsed A) → ℤ → String → Error V → Option ℤ → Act V S A
  unfolding write_step_outcome
  record_failure decode seq name error started =
      checked >> from_storage (encode_error w.serializer error) >>= λ text.
      write_step_outcome decode seq name j.null (some text) started

  -- the arms of `checkpoint`
  unfoldable pub written :
      {A : Type 0} → (V → Parsed A) → ℤ → String → Parsed V → Option ℤ → Act V S A
  unfolding write_step_outcome record_failure
  written decode seq name (parsed value) started =
      write_step_outcome decode seq name value none started
  written decode seq name (malformed e) started = record_failure decode seq name (serde e) started

  unfoldable pub checkpoint :
      {A : Type 0} → (V → Parsed A) → ℤ → String → Parsed V → Option ℤ → Act V S A
  unfolding written
  checkpoint decode seq name encoded started = checked >> written decode seq name encoded started

  -- One run of a step's body.
  unfoldable pub run_body : ℤ → String → ℕ → Act V S T
  unfolding run_step_catching
  run_body seq name attempt c =
      let (ran, s) = w.live seq attempt c.store in
      (run_step_catching name ran, record c { store = s })

  -- the arms of `step` after the body ran
  unfoldable pub settle_result : (V → Parsed T) → ℤ → String → Result V T → Act V S T
  unfolding checkpoint record_failure
  settle_result decode seq name (ok v) =
      checkpoint decode seq name (w.to_value v) (some (w.started seq))
  settle_result decode seq name (err e) =
      if is_cancellation_for e id
      then raise e
      else record_failure decode seq name e (some (w.started seq))

  unfoldable pub settle : (V → Parsed T) → ℤ → String → Act V S T → Act V S T
  unfolding settle_result
  settle decode seq name body c = let (r, c') = body c in settle_result decode seq name r c'

  -- A replayed value, or the rest.
  abbrev pub or_live : {A : Type 0} → Act V S A → Option A → Act V S A
  or_live live (some a) = pure a
  or_live live none = live

  unfoldable pub step : (V → Parsed T) → ℤ → String → Act V S T
  unfolding replay_or_guard settle run_body
  step decode seq name =
      replay_or_guard decode seq name >>= or_live (settle decode seq name (run_body seq name 0))

  -- `Err(error @ (RecoveryRequired(_) | ObservationFailed(_)))`
  abbrev pub is_interruption : Error V → Bool
  is_interruption (recovery_required cause) = true
  is_interruption (observation_failed cause) = true
  is_interruption error = false

  abbrev pub is_retryable_by : Option (Error V → Bool) → Error V → Bool
  is_retryable_by none e = true
  is_retryable_by (some predicate) e = predicate e

  unfoldable pub interrupted : Error V → Act V S T
  interrupted e c = let (e', x) = body_error e c.execution in (err e', record c { execution = x })

  -- the error arms of the loop of `run_with_retries`
  unfoldable pub on_failure : StepOptions V → Act V S T → Error V → Act V S T
  unfolding interrupted
  on_failure opts again e =
      if is_interruption e
      then interrupted e
      else if is_cancellation_for e id
      then raise e
      else if is_scope_violation e
      then raise e
      else if is_retryable_by opts.retry_if e
      then again
      else raise e

  unfoldable pub attempt_with : ℤ → StepOptions V → ℕ → (Error V → Act V S T) → Act V S T
  unfolding run_body
  attempt_with seq opts attempt failed c =
      let (r, c') = run_body seq opts.name attempt c in
      elim r [ ok v ↦ (ok v, c') | err e ↦ failed e c' ]

  -- The loop, on the retries that are left: `attempt >= opts.max_retries` is none left.
  unfoldable pub run_with_retries : ℤ → StepOptions V → ℕ → ℕ → Act V S T
  unfolding attempt_with on_failure
  run_with_retries seq opts zero attempt =
      attempt_with seq opts attempt (λ e. on_failure opts (raise e) e)
  run_with_retries seq opts (suc left) attempt =
      let again = run_with_retries seq opts left (suc attempt) in
      attempt_with seq opts attempt (λ e. on_failure opts again e)

  unfoldable pub step_with : (V → Parsed T) → ℤ → StepOptions V → Act V S T
  unfolding replay_or_guard settle run_with_retries
  step_with decode seq opts =
      replay_or_guard decode seq opts.name
      >>= or_live (settle decode seq opts.name (run_with_retries seq opts opts.max_retries 0))

  unfoldable pub durable_value_at :
      {A : Type 0} → (V → Parsed A) → ℤ → String → Parsed V → Act V S A
  unfolding serve_recorded checkpoint
  durable_value_at decode seq name produced =
      serve_recorded decode seq name >>= or_live (checkpoint decode seq name produced none)

  -- The position of an effect is served, or the effect happens.
  unfoldable pub effect : ℤ → String → Act V S (Unit {0}) → Act V S (Unit {0})
  unfolding replay_or_guard
  effect seq name live = replay_or_guard parsed seq name >>= λ done. or_live live (as_done done)

  unfoldable pub send : ℤ → String → List (NotificationInsert V) → Act V S (Unit {0})
  unfolding effect
  send seq name rows = effect seq name (stored (p.send_from_workflow id seq name rows (w.tick seq)))

  unfoldable pub write_stream : ℤ → String → String → Option V → Act V S (Unit {0})
  unfolding effect
  write_stream seq name key value =
      effect seq name (stored (p.write_stream_from_workflow id seq name key value (w.tick seq)))

  -- the checkpoint of an effect that has its own
  unfoldable pub record_done : ℤ → String → Act V S (Unit {0})
  record_done seq name =
      stored (p.record_step_result id seq name j.null none none (some w.executor_id) (w.tick seq))
      >>= λ o. pure tt

  unfoldable pub set_event : ℤ → String → V → Act V S (Unit {0})
  unfolding effect record_done
  set_event seq key value =
      effect seq "DBOS.setEvent"
        (stored (p.upsert_event id key value) >> record_done seq "DBOS.setEvent")

  unfoldable pub set_workflow_attributes :
      ℤ → String → Option (List (String × V)) → Act V S (Unit {0})
  unfolding effect record_done
  set_workflow_attributes seq target attributes = effect seq "DBOS.updateWorkflowAttributes" (
      stored (p.set_workflow_attributes target attributes (w.tick seq))
      >> record_done seq "DBOS.updateWorkflowAttributes")

  abbrev pub next_seq : DurableContext V S → DurableContext V S
  next_seq c = record c { seq = succ_i32 c.seq }

  -- the arms of `patch`
  unfoldable pub patch_arm : ℤ → String → Option String → Act V S Bool
  unfolding refuse_live_work
  patch_arm seq marker none c =
      (refuse_live_work seq marker >> stored (p.record_patch id seq marker) >> λ d.
      (ok true, next_seq d))
        c
  patch_arm seq marker (some recorded) c =
      if recorded == marker
      then (ok true, next_seq (booked (served_record seq) c))
      else (ok false, c)

  unfoldable pub patch : String → Act V S Bool
  unfolding patch_arm
  patch name c = (stored (p.get_step_name id c.seq) >>= patch_arm c.seq (patch_marker name)) c

  unfoldable pub deprecate_arm : ℤ → String → Option String → Act V S (Unit {0})
  deprecate_arm seq marker recorded c =
      if recorded == some marker
      then (ok tt, next_seq (booked (served_record seq) c))
      else (ok tt, c)

  unfoldable pub deprecate_patch : String → Act V S (Unit {0})
  unfolding deprecate_arm
  deprecate_patch name c =
      (stored (p.get_step_name id c.seq) >>= deprecate_arm c.seq (patch_marker name)) c
