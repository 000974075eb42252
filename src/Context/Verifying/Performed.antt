-- ===== src/Context/Verifying/Performed.antt =====
-- The calls of src/context.rs at a position in a verification run.
use durare.Prelude.{ℤ, true, String, Option, none, some, arith}
use durare.Errors.{Result, ok, err}
use durare.Host.{Host, Parsed, parsed}
use durare.Provider.{StateProvider}
use durare.Context.{DurableContext, World, Act, stored, ◌>>=◌, ◌>>◌}
use durare.Context.Calls
use durare.Context.Calls.{
  serve_recorded, found, served_value, refuse_live_work, check_recorded, recorded_value, guarded,
  replay_or_guard, or_live, effect, durable_value_at, patch_arm, deprecate_arm, patch_marker,
  next_seq,
}
use durare.Context.Body.{
  Operation, step, step_with, durable_value, sleep, send, send_bulk, set_workflow_attributes,
  set_event, write_stream, close_stream, perform, as_value, as_done,
}
use durare.Context.Verifying.{
  ReadsOnly, >>=-Quiet, Quiet, Untouched, gate-Quiet, pure-Quiet, refused-Untouched, refused-err,
  stored-Quiet,
}
use durare.Context.Verifying.Gate.{
  refuse_live_work-Quiet, refuse_live_work-err, serve_recorded-Quiet, serve_recorded-Stops,
  replay_or_guard-Quiet, replay_or_guard-Stops,
}

module _ {V T S : Type 0} ⦃j : Host V⦄ (p : StateProvider V S) (w : World V T S) (id : String)
    (reads : ReadsOnly p) where
  -- A call behind the replay gate answers what is recorded, and otherwise stops.
  gated-Quiet :
      {A : Type 0} (decode : V → Parsed A) (seq : ℤ) (name : String) (live : Act V S A)
      → Quiet (replay_or_guard p w id decode seq name >>= or_live p w id live)
  gated-Quiet decode seq name live =
      gate-Quiet (replay_or_guard p w id decode seq name) (or_live p w id live)
        (replay_or_guard-Quiet p w id reads decode seq name)
        (replay_or_guard-Stops p w id reads decode seq name) (λ a. pure-Quiet a)

  effect-Quiet :
      (seq : ℤ) (name : String) (live : Act V S (Unit {0})) → Quiet (effect p w id seq name live)
  unfolding effect
  effect-Quiet seq name live =
      gate-Quiet (replay_or_guard p w id parsed seq name) _
        (replay_or_guard-Quiet p w id reads parsed seq name)
        (replay_or_guard-Stops p w id reads parsed seq name) (λ a. pure-Quiet tt)

  durable_value_at-Quiet :
      {A : Type 0} (decode : V → Parsed A) (seq : ℤ) (name : String) (produced : Parsed V)
      → Quiet (durable_value_at p w id decode seq name produced)
  unfolding durable_value_at
  durable_value_at-Quiet decode seq name produced =
      gate-Quiet (serve_recorded p w id decode seq name) _
        (serve_recorded-Quiet p w id reads decode seq name)
        (serve_recorded-Stops p w id reads decode seq name) (λ a. pure-Quiet a)

  value-Untouched :
      (c : DurableContext V S) (x : Result V T × DurableContext V S)
      → Untouched c x.1
      → Untouched c (as_value x).1
  value-Untouched c (ok a, d) h = h
  value-Untouched c (err e, d) h = h

  done-Untouched :
      {A : Type 0} (c : DurableContext V S) (x : Result V A × DurableContext V S)
      → Untouched c x.1
      → Untouched c (as_done {T = T} x).1
  done-Untouched c (ok a, d) h = h
  done-Untouched c (err e, d) h = h

  pub perform-Quiet : (op : Operation V T) (seq : ℤ) → Quiet (perform p w id op seq)
  unfolding perform Calls.step Calls.step_with Calls.send Calls.write_stream Calls.set_event
      Calls.set_workflow_attributes
  perform-Quiet (step name decode) seq c v =
      value-Untouched c (Calls.step p w id decode seq name c) (gated-Quiet decode seq name _ c v)
  perform-Quiet (step_with opts decode) seq c v =
      value-Untouched c (Calls.step_with p w id decode seq opts c)
        (gated-Quiet decode seq opts.name _ c v)
  perform-Quiet (durable_value name decode) seq c v =
      value-Untouched c _ (durable_value_at-Quiet decode seq name (w.to_value (w.produce seq)) c v)
  perform-Quiet sleep seq c v = done-Untouched c _ (
      durable_value_at-Quiet j.instant_from_value seq "DBOS.sleep"
        (j.instant_to_value (w.wake_instant seq)) c v)
  perform-Quiet (send rows) seq c v =
      done-Untouched c (Calls.send p w id seq "DBOS.send" rows c)
        (effect-Quiet seq "DBOS.send" _ c v)
  perform-Quiet (send_bulk rows) seq c v =
      done-Untouched c (Calls.send p w id seq "DBOS.send_bulk" rows c)
        (effect-Quiet seq "DBOS.send_bulk" _ c v)
  perform-Quiet (set_workflow_attributes target attributes) seq c v =
      done-Untouched c (Calls.set_workflow_attributes p w id seq target attributes c)
        (effect-Quiet seq "DBOS.updateWorkflowAttributes" _ c v)
  perform-Quiet (set_event key x) seq c v =
      done-Untouched c (Calls.set_event p w id seq key x c) (effect-Quiet seq "DBOS.setEvent" _ c v)
  perform-Quiet (write_stream key x) seq c v =
      done-Untouched c (Calls.write_stream p w id seq "DBOS.writeStream" key (some x) c)
        (effect-Quiet seq "DBOS.writeStream" _ c v)
  perform-Quiet (close_stream key) seq c v =
      done-Untouched c (Calls.write_stream p w id seq "DBOS.closeStream" key none c)
        (effect-Quiet seq "DBOS.closeStream" _ c v)

  refused-Quiet :
      {A : Type 0} (seq : ℤ) (name : String) (rest : Act V S A)
      → Quiet (refuse_live_work p w id seq name >> rest)
  refused-Quiet seq name rest c v =
      refused-Untouched c (refuse_live_work p w id seq name c) rest
        (refuse_live_work-Quiet p w id reads seq name c v)
        (refuse_live_work-err p w id reads seq name c v)

  patch_arm-Quiet :
      (seq : ℤ) (marker : String) (o : Option String) → Quiet (patch_arm p w id seq marker o)
  unfolding patch_arm
  patch_arm-Quiet seq marker none c v =
      let write = stored (p.record_patch id seq marker) in
      let refusal = refuse_live_work p w id seq marker in
      refused-Untouched c ((refusal >> write) c) (λ d. (ok true, next_seq p w id d))
        (refused-Quiet seq marker write c v)
        (refused-err (refusal c) write (refuse_live_work-err p w id reads seq marker c v))
  patch_arm-Quiet seq marker (some r) c v = ground arith

  pub patch-Quiet : (name : String) → Quiet (Calls.patch p w id name)
  unfolding Calls.patch
  patch-Quiet name c v =
      >>=-Quiet (stored (p.get_step_name id c.seq)) (patch_arm p w id c.seq (patch_marker name))
        (stored-Quiet (p.get_step_name id c.seq) (λ s. reads.get_step_name_state id c.seq s))
        (patch_arm-Quiet c.seq (patch_marker name)) c v

  deprecate_arm-Quiet :
      (seq : ℤ) (marker : String) (o : Option String) → Quiet (deprecate_arm p w id seq marker o)
  unfolding deprecate_arm
  deprecate_arm-Quiet seq marker o c v = ground arith

  pub deprecate_patch-Quiet : (name : String) → Quiet (Calls.deprecate_patch p w id name)
  unfolding Calls.deprecate_patch
  deprecate_patch-Quiet name c v =
      >>=-Quiet (stored (p.get_step_name id c.seq)) (deprecate_arm p w id c.seq (patch_marker name))
        (stored-Quiet (p.get_step_name id c.seq) (λ s. reads.get_step_name_state id c.seq s))
        (deprecate_arm-Quiet c.seq (patch_marker name)) c v
