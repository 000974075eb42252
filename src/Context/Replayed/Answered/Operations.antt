-- ===== src/Context/Replayed/Answered/Operations.antt =====
-- Each call of src/context.rs in an ordinary run, against what a replay would be served from its
-- record.
use durare.Prelude.{
  ℤ, ℕ, String, Option, none, some, ◌≡◌, inl, inr, refl, sym, ap, ◌∙◌, arith, string_eq,
}
use durare.Errors.{Result, ok, err}
use durare.Host.{Host, parsed}
use durare.Memory.{RecordedStep}
use durare.Provider.{StateProvider}
use durare.Provider.Contract.{View, IsDurable}
use durare.Context.{DurableContext, World}
use durare.Context.Calls
use durare.Context.Calls.{
  StepOptions, run_body, checkpoint, settle, run_with_retries, record_done, replay_or_guard,
  serve_recorded, or_live, effect, as_done,
}
use durare.Context.Body.{
  Operation, Answer, value, done, step, step_with, durable_value, sleep, send, send_bulk,
  set_workflow_attributes, set_event, write_stream, close_stream, perform, record_name, as_value,
}
use durare.Context.Body
use durare.Context.Replayed.{map_ok, map_option, read_at, serve}
use durare.Context.Replayed.Live.{Fixes, calm-continue, Same-IsCalm}
use durare.Context.Replayed.Answered.{durable_value_at-Fixes, map_map, step-Fixes, step_with-Fixes}
use durare.Context.Replayed.Answered.Effects.{
  read_unit, checkpointed-Fixes, record_done-Fixes, effect-Fixes,
}

module _ {V T S : Type 0} ⦃j : Host V⦄ (view : View V S) (p : StateProvider V S) (w : World V T S)
    (id : String) (durable : IsDurable view p)
    (alone : (seq : ℤ) (attempt : ℕ) (s : S) (q : ℤ)
      → view (w.live seq attempt s).1 id q ≡ view s id q) where
  -- Each call, as its answer.
  abbrev Performs : Operation V T → ℤ → DurableContext V S → Type 0
  Performs op seq c =
      Fixes view id (λ o. serve (λ q. o) op seq) (record_name op) seq c (perform p w id op seq c)

  value-Fixes :
      (read : Option (RecordedStep V) → Option (Result V T)) (name : String) (seq : ℤ)
      (c : DurableContext V S) (x : Result V T × DurableContext V S)
      → Fixes view id read name seq c x
      → Fixes view id (λ o. map_option (map_ok value) (read o)) name seq c (as_value x)
  value-Fixes read name seq c (ok a, d) (g, inl (e, q, l)) = absurd (ground arith)
  value-Fixes read name seq c (ok a, d) (g, inr (ex, k)) =
      (g, inr (ex, λ m. ap (map_option (map_ok value)) (k m)))
  value-Fixes read name seq c (err e, d) (g, inl l) = (g, inl (e, refl, l.2))
  value-Fixes read name seq c (err e, d) (g, inr (ex, k)) =
      (g, inr (ex, λ m. ap (map_option (map_ok value)) (k m)))

  done_of :
      {A : Type 0} (read : Option (RecordedStep V) → Option (Result V A))
      (read' : Option (RecordedStep V) → Option (Result V (Answer T))) (name : String) (seq : ℤ)
      (c : DurableContext V S) (x : Result V A × DurableContext V S)
      → ((o : Option (RecordedStep V)) → read' o ≡ map_option (map_ok (λ a. done)) (read o))
      → Fixes view id read name seq c x
      → Fixes view id read' name seq c (Body.as_done x)
  done_of read read' name seq c (ok a, d) s (g, inl (e, q, l)) = absurd (ground arith)
  done_of read read' name seq c (ok a, d) s (g, inr (ex, k)) =
      (g, inr (ex, λ m. s (view d.store id seq) ∙ ap (map_option (map_ok (λ z. done))) (k m)))
  done_of read read' name seq c (err e, d) s (g, inl l) = (g, inl (e, refl, l.2))
  done_of read read' name seq c (err e, d) s (g, inr (ex, k)) =
      (g, inr (ex, λ m. s (view d.store id seq) ∙ ap (map_option (map_ok (λ z. done))) (k m)))

  abbrev as_answer : V → Answer T
  as_answer a = done

  unit_of :
      (name : String) (seq : ℤ) (c : DurableContext V S)
      (x : Result V (Unit {0}) × DurableContext V S)
      → Fixes view id (read_unit view p w id durable alone name) name seq c x
      → Fixes view id
          (λ o. map_option (map_ok as_answer) (read_at parsed name o))
          name
          seq
          c
          (Body.as_done x)
  unit_of name seq c x h =
      done_of (read_unit view p w id durable alone name)
        (λ o. map_option (map_ok as_answer) (read_at parsed name o)) name seq c x
        (λ o. sym (map_map (λ a. tt) (λ u. done) (read_at parsed name o))) h

  pub perform-Fixes :
      (op : Operation V T) (seq : ℤ) (c : DurableContext V S) → c.verify ≡ none → Performs op seq c
  unfolding perform serve record_name Calls.send Calls.write_stream Calls.set_event
      Calls.set_workflow_attributes
  perform-Fixes (step name decode) seq c v =
      value-Fixes (read_at decode name) name seq c (Calls.step p w id decode seq name c)
        (step-Fixes view p w id durable alone decode seq name c v)
  perform-Fixes (step_with opts decode) seq c v =
      value-Fixes (read_at decode opts.name) opts.name seq c
        (Calls.step_with p w id decode seq opts c)
        (step_with-Fixes view p w id durable alone decode seq opts c v)
  perform-Fixes (durable_value name decode) seq c v =
      let produced = w.to_value (w.produce seq) in
      value-Fixes (read_at decode name) name seq c
        (Calls.durable_value_at p w id decode seq name produced c)
        (durable_value_at-Fixes view p w id durable alone decode seq name produced c v)
  perform-Fixes sleep seq c v =
      let produced = j.instant_to_value (w.wake_instant seq) in
      done_of (read_at j.instant_from_value "DBOS.sleep") _ "DBOS.sleep" seq c
        (Calls.durable_value_at p w id j.instant_from_value seq "DBOS.sleep" produced c) (λ o. refl)
        (durable_value_at-Fixes view p w id durable alone j.instant_from_value seq "DBOS.sleep"
          produced c v)
  perform-Fixes (send rows) seq c v =
      unit_of "DBOS.send" seq c (Calls.send p w id seq "DBOS.send" rows c) (
        effect-Fixes view p w id durable alone seq "DBOS.send" _ c v λ d v' n.
          checkpointed-Fixes view p w id durable alone seq "DBOS.send" d _ v' n
            (durable.send_from_workflow_lem id seq "DBOS.send" rows (w.tick seq) d.store))
  perform-Fixes (send_bulk rows) seq c v =
      unit_of "DBOS.send_bulk" seq c (Calls.send p w id seq "DBOS.send_bulk" rows c) (
        effect-Fixes view p w id durable alone seq "DBOS.send_bulk" _ c v λ d v' n.
          checkpointed-Fixes view p w id durable alone seq "DBOS.send_bulk" d _ v' n
            (durable.send_from_workflow_lem id seq "DBOS.send_bulk" rows (w.tick seq) d.store))
  perform-Fixes (set_workflow_attributes target attributes) seq c v =
      let name : String = "DBOS.updateWorkflowAttributes" in
      unit_of name seq c (Calls.set_workflow_attributes p w id seq target attributes c) (
        effect-Fixes view p w id durable alone seq name _ c v λ d v' n.
          calm-continue view id (read_unit view p w id durable alone name) name seq
            (λ u. record_done p w id seq name) d _ n
            (Same-IsCalm view id d
              (p.set_workflow_attributes target attributes (w.tick seq) d.store) v'
              (durable.set_workflow_attributes_lem target attributes (w.tick seq) d.store))
            (λ u e v'' n'. record_done-Fixes view p w id durable alone seq name e v'' n'))
  perform-Fixes (set_event key val) seq c v =
      let name : String = "DBOS.setEvent" in
      unit_of name seq c (Calls.set_event p w id seq key val c) (
        effect-Fixes view p w id durable alone seq name _ c v λ d v' n.
          calm-continue view id (read_unit view p w id durable alone name) name seq
            (λ u. record_done p w id seq name) d _ n
            (Same-IsCalm view id d (p.upsert_event id key val d.store) v'
              (durable.upsert_event_lem id key val d.store))
            (λ u e v'' n'. record_done-Fixes view p w id durable alone seq name e v'' n'))
  perform-Fixes (write_stream key val) seq c v =
      unit_of "DBOS.writeStream" seq c
        (Calls.write_stream p w id seq "DBOS.writeStream" key (some val) c)
        (effect-Fixes view p w id durable alone seq "DBOS.writeStream" _ c v λ d v' n.
          checkpointed-Fixes view p w id durable alone seq "DBOS.writeStream" d _ v' n (
            durable.write_stream_from_workflow_lem id seq "DBOS.writeStream" key (some val)
              (w.tick seq) d.store))
  perform-Fixes (close_stream key) seq c v =
      unit_of "DBOS.closeStream" seq c (Calls.write_stream p w id seq "DBOS.closeStream" key none c)
        (effect-Fixes view p w id durable alone seq "DBOS.closeStream" _ c v λ d v' n.
          checkpointed-Fixes view p w id durable alone seq "DBOS.closeStream" d _ v' n (
            durable.write_stream_from_workflow_lem id seq "DBOS.closeStream" key none (w.tick seq)
              d.store))
