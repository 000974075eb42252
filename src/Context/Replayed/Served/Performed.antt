-- ===== src/Context/Replayed/Served/Performed.antt =====
-- The calls of src/context.rs where a record is served, in any run.
use durare.Prelude.{ℤ, String, none, some, ◌≡◌, refl, subst, string_eq}
use durare.Errors.{Result, ok, err}
use durare.Host.{Host, Parsed, parsed}
use durare.Provider.{StateProvider}
use durare.Provider.Contract.{View, IsDurable}
use durare.Context.{DurableContext, World, Act, pure, continue, ◌>>=◌}
use durare.Context.Calls
use durare.Context.Calls.{
  found, served_value, serve_recorded, check_recorded, recorded_value, guarded, replay_or_guard,
  or_live, effect, durable_value_at, checkpoint,
}
use durare.Context.Body.{
  Operation, Answer, value, done, step, step_with, durable_value, sleep, send, send_bulk,
  set_workflow_attributes, set_event, write_stream, close_stream, perform, as_value, as_done,
  record_name,
}
use durare.Context.Replayed.{map_option, map_ok, read_at, serve}
use durare.Context.Replayed.Served.{
  Serves, Serves-continue, Serves-continue_err, pure-Serves, some_map,
}
use durare.Context.Replayed.Served.Gate.{serve_recorded-Serves, gate-Serves, replay_or_guard-Serves}

module _ {V T S : Type 0} ⦃j : Host V⦄ (view : View V S) (p : StateProvider V S) (w : World V T S)
    (id : String) (durable : IsDurable view p) where
  gated-Serves :
      {A : Type 0} (decode : V → Parsed A) (seq : ℤ) (name : String) (r : Result V A)
      (live : Act V S A) (c : DurableContext V S)
      → read_at decode name (view c.store id seq) ≡ some r
      → Serves view id
          (map_ok (λ a. a) r)
          c
          ((replay_or_guard p w id decode seq name >>= or_live p w id live) c)
  gated-Serves decode seq name r live c h =
      gate-Serves view p w id durable (or_live p w id live) (λ a. a) r c
        (replay_or_guard p w id decode seq name c)
        (replay_or_guard-Serves view p w id durable decode seq name r c h) (λ a d. refl)

  durable_value_at-Serves :
      {A : Type 0} (decode : V → Parsed A) (seq : ℤ) (name : String) (r : Result V A)
      (produced : Parsed V) (c : DurableContext V S)
      → read_at decode name (view c.store id seq) ≡ some r
      → Serves view id (map_ok (λ a. a) r) c (durable_value_at p w id decode seq name produced c)
  unfolding durable_value_at
  durable_value_at-Serves decode seq name r produced c h =
      gate-Serves view p w id durable
        (or_live p w id (checkpoint p w id decode seq name produced none)) (λ a. a) r c
        (serve_recorded p w id decode seq name c)
        (serve_recorded-Serves view p w id durable decode seq name r c h) (λ a d. refl)

  effect-Serves :
      (seq : ℤ) (name : String) (r : Result V V) (live : Act V S (Unit {0}))
      (c : DurableContext V S)
      → read_at parsed name (view c.store id seq) ≡ some r
      → Serves view id (map_ok (λ a. tt) r) c (effect p w id seq name live c)
  unfolding effect
  effect-Serves seq name r live c h =
      gate-Serves view p w id durable _ (λ a. tt) r c (replay_or_guard p w id parsed seq name c)
        (replay_or_guard-Serves view p w id durable parsed seq name r c h) (λ a d. refl)

  as_value-continue :
      (r : Result V (Answer T)) (c : DurableContext V S) (x : Result V T × DurableContext V S)
      → Serves view id r c (continue (λ a. pure (value a)) x)
      → Serves view id r c (as_value x)
  as_value-continue r c (ok a, d) h = h
  as_value-continue r c (err e, d) h = h

  as_done-continue :
      {A : Type 0} (r : Result V (Answer T)) (c : DurableContext V S)
      (x : Result V A × DurableContext V S)
      → Serves view id r c (continue (λ a. pure done) x)
      → Serves view id r c (as_done x)
  as_done-continue r c (ok a, d) h = h
  as_done-continue r c (err e, d) h = h

  value-Serves :
      (r : Result V T) (c : DurableContext V S) (x : Result V T × DurableContext V S)
      → Serves view id (map_ok (λ a. a) r) c x
      → Serves view id (map_ok value r) c (as_value x)
  value-Serves (ok a) c x h =
      as_value-continue (ok (value a)) c x
        (Serves-continue view id _ a (ok (value a)) c x h (λ d st. pure-Serves view id (value a) d))
  value-Serves (err e) c x h = as_value-continue (err e) c x (Serves-continue_err view id _ e c x h)

  done-Serves :
      {A B : Type 0} (g : A → B) (r : Result V A) (c : DurableContext V S)
      (x : Result V B × DurableContext V S)
      → Serves view id (map_ok g r) c x
      → Serves view id (map_ok (λ a. done) r) c (as_done {T = T} x)
  done-Serves g (ok a) c x h =
      as_done-continue (ok done) c x
        (Serves-continue view id _ (g a) (ok done) c x h (λ d st. pure-Serves view id done d))
  done-Serves g (err e) c x h = as_done-continue (err e) c x (Serves-continue_err view id _ e c x h)

  effect-done :
      (seq : ℤ) (name : String) (r : Result V (Answer T)) (live : Act V S (Unit {0}))
      (c : DurableContext V S)
      → map_option (map_ok (λ a. done)) (read_at {A = V} parsed name (view c.store id seq)) ≡ some r
      → Serves view id r c (as_done (effect p w id seq name live c))
  effect-done seq name r live c h =
      let (r', a, b) =
        some_map (map_ok (λ a. done)) (read_at {A = V} parsed name (view c.store id seq)) r h in
      let x = effect p w id seq name live c in
      subst (λ z. Serves view id z c (as_done x)) b
        (done-Serves (λ a. tt) r' c x (effect-Serves seq name r' live c a))

  pub perform-Serves :
      (op : Operation V T) (seq : ℤ) (r : Result V (Answer T)) (c : DurableContext V S)
      → serve (view c.store id) op seq ≡ some r
      → Serves view id r c (perform p w id op seq c)
  unfolding perform serve record_name Calls.step Calls.step_with Calls.send Calls.write_stream
      Calls.set_event Calls.set_workflow_attributes
  perform-Serves (step name decode) seq r c h =
      let (r', a, b) = some_map (map_ok value) (read_at decode name (view c.store id seq)) r h in
      subst (λ z. Serves view id z c (as_value (Calls.step p w id decode seq name c))) b
        (value-Serves r' c (Calls.step p w id decode seq name c)
          (gated-Serves decode seq name r' _ c a))
  perform-Serves (step_with opts decode) seq r c h =
      let (r', a, b) =
        some_map (map_ok value) (read_at decode opts.name (view c.store id seq)) r h in
      subst (λ z. Serves view id z c (as_value (Calls.step_with p w id decode seq opts c))) b
        (value-Serves r' c (Calls.step_with p w id decode seq opts c)
          (gated-Serves decode seq opts.name r' _ c a))
  perform-Serves (durable_value name decode) seq r c h =
      let (r', a, b) = some_map (map_ok value) (read_at decode name (view c.store id seq)) r h in
      let x = Calls.durable_value_at p w id decode seq name (w.to_value (w.produce seq)) c in
      subst (λ z. Serves view id z c (as_value x)) b
        (value-Serves r' c x
          (durable_value_at-Serves decode seq name r' (w.to_value (w.produce seq)) c a))
  perform-Serves sleep seq r c h =
      let (r', a, b) =
        some_map (map_ok (λ a. done))
          (read_at j.instant_from_value "DBOS.sleep" (view c.store id seq)) r h in
      let produced = j.instant_to_value (w.wake_instant seq) in
      let x = Calls.durable_value_at p w id j.instant_from_value seq "DBOS.sleep" produced c in
      subst (λ z. Serves view id z c (as_done x)) b
        (done-Serves (λ a. a) r' c x
          (durable_value_at-Serves j.instant_from_value seq "DBOS.sleep" r' produced c a))
  perform-Serves (send rows) seq r c h = effect-done seq "DBOS.send" r _ c h
  perform-Serves (send_bulk rows) seq r c h = effect-done seq "DBOS.send_bulk" r _ c h
  perform-Serves (set_workflow_attributes target attributes) seq r c h =
      effect-done seq "DBOS.updateWorkflowAttributes" r _ c h
  perform-Serves (set_event key x) seq r c h = effect-done seq "DBOS.setEvent" r _ c h
  perform-Serves (write_stream key x) seq r c h = effect-done seq "DBOS.writeStream" r _ c h
  perform-Serves (close_stream key) seq r c h = effect-done seq "DBOS.closeStream" r _ c h
