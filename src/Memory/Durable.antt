-- ===== src/Memory/Durable.antt =====
-- The in-memory provider of src/memory.rs as the trait of src/provider.rs, and its table of recorded
-- steps.
use durare.Prelude.{
  ℤ, String, Option, none, some, List, ◌≡◌, refl, arith, Option-cases, inl, inr, ap, subst, ℕ,
  string_eq, int_eq, pair_eq,
}
use durare.Map
use durare.Map.Laws.{get-insert_self}
use durare.Errors.{Error, ok, err}
use durare.Host.{Host}
use durare.Memory.{
  Inner, StepRow, StepOutcome, NotificationInsert, step_row_outcome, recorded_at, checkpoint,
  checkpoint_row, push_notifications, append_stream,
}
use durare.Memory.StepOutcome.{output}
use durare.Memory.Status
use durare.Memory.Steps
use durare.Memory.Messages
use durare.Memory.Streams
use durare.Memory.Manage
use durare.Memory.Calls.Kept
use durare.Memory.Steps.Checkpoints.{get_step_result-record_step_result}
use durare.Provider.{Tick, StateProvider}
use durare.Provider.Contract.{
  View, Keeps, Same, IsDurable, Writes, Checkpoints, Writes-intro, Checkpoints-intro, name_at,
}

module _ {V : Type 0} ⦃j : Host V⦄ where
  unfoldable pub in_memory : StateProvider V (Inner V)
  in_memory = record {
    get_step_result = λ w q g. (ok (Steps.get_step_result w q g), g);
    get_step_name = λ w q g. (ok (Steps.get_step_name w q g), g);
    get_workflow_status = λ w g. (ok (Status.get_workflow_status w g), g);
    record_step_result = λ w q n v e st x t g. Steps.record_step_result w q n v e st x t.now g;
    record_patch = λ w q n g. Steps.record_patch w q n g;
    send_from_workflow = λ w q n rows t g. Messages.send_from_workflow w q n rows t.fresh t.now g;
    write_stream_from_workflow =
        λ w q n k v t g. Streams.write_stream_from_workflow w q n k v t.now g;
    upsert_event = λ w k v g. Streams.upsert_event w k v g;
    set_workflow_attributes = λ w a t g. Manage.set_workflow_attributes w a t.now g;
  }

  -- The table of the contract.
  abbrev pub recorded_steps : View V (Inner V)
  recorded_steps g w q = Steps.get_step_result w q g

  recorded_steps-Keeps :
      (g g' : Inner V)
      → ((w : String) (q : ℤ) (row : StepRow V)
          → Map.get (w, q) g.steps ≡ some row
          → Map.get (w, q) g'.steps ≡ some row)
      → Keeps recorded_steps g g'
  unfolding Steps.get_step_result
  recorded_steps-Keeps g g' keep w q r h = elim (Option-cases (Map.get (w, q) g.steps)) [
    | inl e ↦ absurd (ground arith)
    | inr (row, e) ↦ ground (arith, keep w q row e)
  ]

  steps-Same : (g g' : Inner V) → g'.steps ≡ g.steps → Same recorded_steps g g'
  unfolding Steps.get_step_result
  steps-Same g g' same w q = rw same refl

  -- The checkpoint of an effect, read back.
  get_step_result-checkpoint :
      (g : Inner V) (w : String) (q : ℤ) (n : String) (v : V) (t : ℤ)
      → Steps.get_step_result w q (checkpoint g w q n v t)
        ≡ some (record { name = n; outcome = output v })
  unfolding Steps.get_step_result checkpoint step_row_outcome
  get_step_result-checkpoint g w q n v t =
      ground (arith, get-insert_self (w, q) (checkpoint_row n v t) g.steps)

  get_step_result-insert_if_absent :
      (g : Inner V) (w : String) (q : ℤ) (n : String)
      → Map.get (w, q) g.steps ≡ none
      → Steps.get_step_result w q (Steps.insert_if_absent w q (Steps.named_row n none) g).1
        ≡ some (record { name = n; outcome = output j.null })
  unfolding Steps.get_step_result Steps.insert_if_absent step_row_outcome
  get_step_result-insert_if_absent g w q n h =
      ground (arith, get-insert_self (w, q) (Steps.named_row n none) g.steps)

  get_step_result-none :
      (g : Inner V) (w : String) (q : ℤ)
      → Steps.get_step_result w q g ≡ none
      → Map.get (w, q) g.steps ≡ none
  unfolding Steps.get_step_result
  get_step_result-none g w q h = ground arith

  outcome_of_value :
      (n : String) (v : V) (st : Option ℤ) (t : ℤ)
      → step_row_outcome (Steps.outcome_row n v none st t) ≡ output v
  unfolding step_row_outcome Steps.outcome_row
  outcome_of_value n v st t = refl

  Same-state : (g g' : Inner V) → g' ≡ g → Same recorded_steps g g'
  Same-state g g' e = λ w q. rw e refl

  record_step_result-err :
      (w : String) (q : ℤ) (n : String) (v : V) (e : Option String) (st : Option ℤ)
      (x : Option String) (t : ℤ) (g : Inner V) (b : Error V)
      → (Steps.record_step_result w q n v e st x t g).0 ≡ err b
      → (Steps.record_step_result w q n v e st x t g).1 ≡ g
  unfolding Steps.record_step_result
  record_step_result-err w q n v e st x t g b h = ground arith

  insert_if_absent-err :
      (g : Inner V) (w : String) (q : ℤ) (r : StepRow V) (b : Error V)
      → (Steps.insert_if_absent w q r g).0 ≡ err b
      → (Steps.insert_if_absent w q r g).1 ≡ g
  unfolding Steps.insert_if_absent
  insert_if_absent-err g w q r b h = ground arith

  send_from_workflow-err :
      (w : String) (q : ℤ) (n : String) (rows : List (NotificationInsert V)) (u : ℕ → String)
      (t : ℤ) (g : Inner V) (b : Error V)
      → (Messages.send_from_workflow w q n rows u t g).0 ≡ err b
      → (Messages.send_from_workflow w q n rows u t g).1 ≡ g
  unfolding Messages.send_from_workflow push_notifications
  send_from_workflow-err w q n rows u t g b h = ground arith

  write_stream_from_workflow-err :
      (w : String) (q : ℤ) (n k : String) (v : Option V) (t : ℤ) (g : Inner V) (b : Error V)
      → (Streams.write_stream_from_workflow w q n k v t g).0 ≡ err b
      → (Streams.write_stream_from_workflow w q n k v t g).1 ≡ g
  unfolding Streams.write_stream_from_workflow append_stream
  write_stream_from_workflow-err w q n k v t g b h = ground arith

  record_step_result-fresh :
      (w : String) (q : ℤ) (n : String) (v : V) (st : Option ℤ) (x : Option String) (t : ℤ)
      (g : Inner V) (o : StepOutcome V)
      → Map.get (w, q) g.steps ≡ none
      → (Steps.record_step_result w q n v none st x t g).0 ≡ ok o
      → o ≡ output v
  unfolding Steps.record_step_result
  record_step_result-fresh w q n v st x t g o e h = ground (arith, outcome_of_value n v st t)

  record_step_result-Writes :
      (w : String) (q : ℤ) (n : String) (v : V) (e : Option String) (st : Option ℤ)
      (x : Option String) (t : Tick) (g : Inner V)
      → Writes recorded_steps w q n v e g (Steps.record_step_result w q n v e st x t.now g)
  record_step_result-Writes w q n v e st x t g =
      let y = Steps.record_step_result w q n v e st x t.now g in
      Writes-intro recorded_steps w q n v e g y
        (recorded_steps-Keeps g y.1
          λ a b row h. Kept.record_step_result-Holds a b row w q n v e st x t.now g h)
        (λ o h. (
          get_step_result-record_step_result w q n v e st x t.now g y.1 o (ap (λ r. (r, y.1)) h),
          λ free success.
              record_step_result-fresh w q n v st x t.now g o (get_step_result-none g w q free)
                (subst (λ z. (Steps.record_step_result w q n v z st x t.now g).0 ≡ ok o) success h),
        ))
        λ b h. Same-state g y.1 (record_step_result-err w q n v e st x t.now g b h)

  record_patch-Checkpoints :
      (w : String) (q : ℤ) (n : String) (g : Inner V)
      → Checkpoints recorded_steps w q n g (Steps.record_patch w q n g)
  unfolding Steps.record_patch
  record_patch-Checkpoints w q n g =
      let new = Steps.named_row n none in
      let y = Steps.insert_if_absent w q new g in
      Checkpoints-intro recorded_steps w q n g y
        (recorded_steps-Keeps g y.1 λ a b row h. Kept.insert_if_absent-Holds a b row w q new g h)
        (λ h free.
          (j.null, get_step_result-insert_if_absent g w q n (get_step_result-none g w q free)))
        λ b h. Same-state g y.1 (insert_if_absent-err g w q new b h)

  send_from_workflow-fresh :
      (w : String) (q : ℤ) (n : String) (rows : List (NotificationInsert V)) (u : ℕ → String)
      (t : ℤ) (g : Inner V)
      → (Messages.send_from_workflow w q n rows u t g).0 ≡ ok tt
      → Map.get (w, q) g.steps ≡ none
      → Steps.get_step_result w q (Messages.send_from_workflow w q n rows u t g).1
        ≡ some (record { name = n; outcome = output j.null })
  unfolding Messages.send_from_workflow recorded_at
  send_from_workflow-fresh w q n rows u t g h free =
      ground (arith, get_step_result-checkpoint (push_notifications rows u t g).1 w q n j.null t)

  send_from_workflow-Checkpoints :
      (w : String) (q : ℤ) (n : String) (rows : List (NotificationInsert V)) (t : Tick)
      (g : Inner V)
      → Checkpoints recorded_steps w q n g (Messages.send_from_workflow w q n rows t.fresh t.now g)
  send_from_workflow-Checkpoints w q n rows t g =
      let y = Messages.send_from_workflow w q n rows t.fresh t.now g in
      Checkpoints-intro recorded_steps w q n g y
        (recorded_steps-Keeps g y.1
          λ a b row h. Kept.send_from_workflow-Holds a b row w q n rows t.fresh t.now g h)
        (λ h free. (
          j.null,
          send_from_workflow-fresh w q n rows t.fresh t.now g h (get_step_result-none g w q free),
        ))
        λ b h. Same-state g y.1 (send_from_workflow-err w q n rows t.fresh t.now g b h)

  write_stream_from_workflow-fresh :
      (w : String) (q : ℤ) (n k : String) (v : Option V) (t : ℤ) (g : Inner V)
      → (Streams.write_stream_from_workflow w q n k v t g).0 ≡ ok tt
      → Map.get (w, q) g.steps ≡ none
      → Steps.get_step_result w q (Streams.write_stream_from_workflow w q n k v t g).1
        ≡ some (record { name = n; outcome = output j.null })
  unfolding Streams.write_stream_from_workflow recorded_at
  write_stream_from_workflow-fresh w q n k v t g h free =
      ground (arith, get_step_result-checkpoint (append_stream w k v g).1 w q n j.null t)

  write_stream_from_workflow-Checkpoints :
      (w : String) (q : ℤ) (n k : String) (v : Option V) (t : Tick) (g : Inner V)
      → Checkpoints recorded_steps w q n g (Streams.write_stream_from_workflow w q n k v t.now g)
  write_stream_from_workflow-Checkpoints w q n k v t g =
      let y = Streams.write_stream_from_workflow w q n k v t.now g in
      Checkpoints-intro recorded_steps w q n g y
        (recorded_steps-Keeps g y.1
          λ a b row h. Kept.write_stream_from_workflow-Holds a b row w q n k v t.now g h)
        (λ h free. (
          j.null,
          write_stream_from_workflow-fresh w q n k v t.now g h (get_step_result-none g w q free),
        ))
        λ b h. Same-state g y.1 (write_stream_from_workflow-err w q n k v t.now g b h)

  get_step_name-name_at :
      (w : String) (q : ℤ) (g : Inner V)
      → Steps.get_step_name w q g ≡ name_at (Steps.get_step_result w q g)
  unfolding Steps.get_step_name Steps.get_step_result
  get_step_name-name_at w q g = ground arith

  steps-set_workflow_attributes :
      (w : String) (a : Option (List (String × V))) (t : ℤ) (g : Inner V)
      → (Manage.set_workflow_attributes w a t g).1.steps ≡ g.steps
  unfolding Manage.set_workflow_attributes
  steps-set_workflow_attributes w a t g = ground arith

  steps-upsert_event :
      (w k : String) (v : V) (g : Inner V) → (Streams.upsert_event w k v g).1.steps ≡ g.steps
  unfolding Streams.upsert_event
  steps-upsert_event w k v g = refl

  -- The in-memory provider meets the contract: its reads return what is recorded and change
  -- nothing, a write or an effect that succeeds leaves its checkpoint, and no method that a
  -- workflow calls loses or changes a recorded step.
  pub in_memory-IsDurable : IsDurable recorded_steps in_memory
  unfolding in_memory
  in_memory-IsDurable = record {
    get_step_result_lem = λ w q g. (refl, λ a b. refl);
    get_step_name_lem = λ w q g. (get_step_name-name_at w q g, λ a b. refl);
    get_workflow_status_lem = λ w g a b. refl;
    record_step_result_lem = record_step_result-Writes;
    record_patch_lem = record_patch-Checkpoints;
    send_from_workflow_lem = send_from_workflow-Checkpoints;
    write_stream_from_workflow_lem = write_stream_from_workflow-Checkpoints;
    upsert_event_lem = λ w k v g. steps-Same g _ (steps-upsert_event w k v g);
    set_workflow_attributes_lem =
        λ w a t g. steps-Same g _ (steps-set_workflow_attributes w a t.now g);
  }
