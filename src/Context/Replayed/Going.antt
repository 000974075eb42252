-- ===== src/Context/Replayed/Going.antt =====
-- How a run of a body of src/context.rs and its reference replay go on after a call: the equations
-- of the two, by the refusals of the call.
use durare.Prelude.{
  ℤ, String, none, some, Bool, true, false, ◌≡◌, ◌⊎◌, inl, inr, refl, ap, ◌∙◌, arith, ◌==◌,
  string_eq, option_eq, succ_i32,
}
use durare.Errors.{Error, Result, ok, err}
use durare.Host.{Host, parsed}
use durare.Execution
use durare.Execution.{Execution, Place, refuse_inside_body, check_call_poll}
use durare.Execution.Latch.{refuse_inside_body-place, check_call_poll-place}
use durare.Memory.{RecordedStep}
use durare.Provider.{StateProvider}
use durare.Context.{DurableContext, World, Act}
use durare.Context.Calls.{next_seq, patch_marker}
use durare.Context.Body.{
  Operation, Answer, Body, step, step_with, durable_value, sleep, send, send_bulk,
  set_workflow_attributes, set_event, write_stream, close_stream, built, await, patch,
  deprecate_patch, perform, poll, arrive, await_call, build_call, unclaimed, claim_name,
  record_name,
}
use durare.Context.Replayed.{Table, read_at, as_values, as_dones, serve, replay}

pub Result-cases :
    {V A : Type 0} (x : Result V A) → ((a : A) × (x ≡ ok a)) ⊎ ((e : Error V) × (x ≡ err e))
Result-cases (ok a) = inl (a, refl)
Result-cases (err e) = inr (e, refl)

module _ {V T : Type 0} ⦃j : Host V⦄ where
  -- What is served depends on the record at the position alone.
  pub serve_local :
      (t t' : Table V) (op : Operation V T) (q : ℤ) → t q ≡ t' q → serve t op q ≡ serve t' op q
  unfolding serve record_name
  serve_local t t' (step name decode) q e = ap (λ o. as_values (read_at decode name o)) e
  serve_local t t' (step_with opts decode) q e = ap (λ o. as_values (read_at decode opts.name o)) e
  serve_local t t' (durable_value name decode) q e = ap (λ o. as_values (read_at decode name o)) e
  serve_local t t' sleep q e = ap (λ o. as_dones (read_at j.instant_from_value "DBOS.sleep" o)) e
  serve_local t t' (send rows) q e = ap (λ o. as_dones (read_at {A = V} parsed "DBOS.send" o)) e
  serve_local t t' (send_bulk rows) q e =
      ap (λ o. as_dones (read_at {A = V} parsed "DBOS.send_bulk" o)) e
  serve_local t t' (set_workflow_attributes target attributes) q e =
      ap (λ o. as_dones (read_at {A = V} parsed "DBOS.updateWorkflowAttributes" o)) e
  serve_local t t' (set_event key v) q e =
      ap (λ o. as_dones (read_at {A = V} parsed "DBOS.setEvent" o)) e
  serve_local t t' (write_stream key v) q e =
      ap (λ o. as_dones (read_at {A = V} parsed "DBOS.writeStream" o)) e
  serve_local t t' (close_stream key) q e =
      ap (λ o. as_dones (read_at {A = V} parsed "DBOS.closeStream" o)) e

  pub serve-none : (t : Table V) (op : Operation V T) (q : ℤ) → t q ≡ none → serve t op q ≡ none
  unfolding serve read_at
  serve-none t (step name decode) q e = rw e refl
  serve-none t (step_with opts decode) q e = rw e refl
  serve-none t (durable_value name decode) q e = rw e refl
  serve-none t sleep q e = rw e refl
  serve-none t _ q e = rw e refl

module _ {V S : Type 0} (id : String) where
  -- A context with no failure, of this workflow.
  abbrev pub IsRunning : DurableContext V S → Type 0
  IsRunning c = (c.execution.failure ≡ none) × (c.execution.workflow_id ≡ id)

  pub refusal :
      (at : Place) (operation : String) (c : DurableContext V S)
      → IsRunning c
      → refuse_inside_body at operation c.execution
        ≡ refuse_inside_body at operation (Execution.new id)
  refusal at operation c (f, i) =
      refuse_inside_body-place at operation c.execution f
      ∙ ap (λ z. refuse_inside_body {V = V} at operation (Execution.new z)) i

  pub crossing :
      (at : Place) (operation : String) (c : DurableContext V S)
      → IsRunning c
      → check_call_poll at operation c.execution ≡ check_call_poll at operation (Execution.new id)
  crossing at operation c (f, i) =
      check_call_poll-place at operation c.execution f
      ∙ ap (λ z. check_call_poll {V = V} at operation (Execution.new z)) i

module _ {V T : Type 0} ⦃j : Host V⦄ (id : String) (t : Table V) where
  -- How the replay of an awaited call goes on.
  pub replay-await_refused :
      (at polled : Place) (op : Operation V T) (k : Result V (Answer T) → Body V T) (q : ℤ)
      (e : Error V)
      → refuse_inside_body at (claim_name op) (Execution.new id) ≡ err e
      → replay id t (await at polled op k) q ≡ replay id t (k (err e)) q
  unfolding replay
  replay-await_refused at polled op k q e h = ground (arith, h)

  pub replay-await_crossed :
      (at polled : Place) (op : Operation V T) (k : Result V (Answer T) → Body V T) (q : ℤ)
      (e : Error V)
      → refuse_inside_body {V = V} at (claim_name op) (Execution.new id) ≡ ok tt
      → check_call_poll polled (claim_name op) (Execution.new id) ≡ err e
      → replay id t (await at polled op k) q ≡ replay id t (k (err e)) (succ_i32 q)
  unfolding replay
  replay-await_crossed at polled op k q e h g = ground (arith, h, g)

  pub replay-await_goes :
      (at polled : Place) (op : Operation V T) (k : Result V (Answer T) → Body V T) (q : ℤ)
      (a : Result V (Answer T))
      → refuse_inside_body {V = V} at (claim_name op) (Execution.new id) ≡ ok tt
      → check_call_poll {V = V} polled (claim_name op) (Execution.new id) ≡ ok tt
      → serve t op q ≡ some a
      → replay id t (await at polled op k) q ≡ replay id t (k a) (succ_i32 q)
  unfolding replay
  replay-await_goes at polled op k q a h g s = ground (arith, h, g, s)

  pub replay-patch_refused :
      (at : Place) (name : String) (k : Result V Bool → Body V T) (q : ℤ) (e : Error V)
      → refuse_inside_body at "patch" (Execution.new id) ≡ err e
      → replay id t (patch at name k) q ≡ replay id t (k (err e)) q
  unfolding replay
  replay-patch_refused at name k q e h = ground (arith, h)

  pub replay-patch_own :
      (at : Place) (name : String) (k : Result V Bool → Body V T) (q : ℤ) (rec : RecordedStep V)
      → refuse_inside_body {V = V} at "patch" (Execution.new id) ≡ ok tt
      → t q ≡ some rec
      → (rec.name == patch_marker name) ≡ true
      → replay id t (patch at name k) q ≡ replay id t (k (ok true)) (succ_i32 q)
  unfolding replay
  replay-patch_own at name k q rec h e m = ground (arith, h, e, m)

  pub replay-patch_other :
      (at : Place) (name : String) (k : Result V Bool → Body V T) (q : ℤ) (rec : RecordedStep V)
      → refuse_inside_body {V = V} at "patch" (Execution.new id) ≡ ok tt
      → t q ≡ some rec
      → (rec.name == patch_marker name) ≡ false
      → replay id t (patch at name k) q ≡ replay id t (k (ok false)) q
  unfolding replay
  replay-patch_other at name k q rec h e m = ground (arith, h, e, m)

  pub replay-deprecate_refused :
      (at : Place) (name : String) (k : Result V (Unit {0}) → Body V T) (q : ℤ) (e : Error V)
      → refuse_inside_body at "deprecate_patch" (Execution.new id) ≡ err e
      → replay id t (deprecate_patch at name k) q ≡ replay id t (k (err e)) q
  unfolding replay
  replay-deprecate_refused at name k q e h = ground (arith, h)

  pub replay-deprecate_own :
      (at : Place) (name : String) (k : Result V (Unit {0}) → Body V T) (q : ℤ)
      (rec : RecordedStep V)
      → refuse_inside_body {V = V} at "deprecate_patch" (Execution.new id) ≡ ok tt
      → t q ≡ some rec
      → (rec.name == patch_marker name) ≡ true
      → replay id t (deprecate_patch at name k) q ≡ replay id t (k (ok tt)) (succ_i32 q)
  unfolding replay
  replay-deprecate_own at name k q rec h e m = ground (arith, h, e, m)

  pub replay-deprecate_other :
      (at : Place) (name : String) (k : Result V (Unit {0}) → Body V T) (q : ℤ)
      (rec : RecordedStep V)
      → refuse_inside_body {V = V} at "deprecate_patch" (Execution.new id) ≡ ok tt
      → t q ≡ some rec
      → (rec.name == patch_marker name) ≡ false
      → replay id t (deprecate_patch at name k) q ≡ replay id t (k (ok tt)) q
  unfolding replay
  replay-deprecate_other at name k q rec h e m = ground (arith, h, e, m)

  -- A call that is built and dropped.
  pub replay-built_refused :
      (at : Place) (op : Operation V T) (b : Body V T) (q : ℤ) (e : Error V)
      → refuse_inside_body at (claim_name op) (Execution.new id) ≡ err e
      → replay id t (built at op b) q ≡ replay id t b q
  unfolding replay
  replay-built_refused at op b q e h = ground (arith, h)

  pub replay-built_claimed :
      (at : Place) (op : Operation V T) (b : Body V T) (q : ℤ)
      → refuse_inside_body {V = V} at (claim_name op) (Execution.new id) ≡ ok tt
      → replay id t (built at op b) q ≡ replay id t b (succ_i32 q)
  unfolding replay
  replay-built_claimed at op b q h = ground (arith, h)

module _ {V T S : Type 0} ⦃j : Host V⦄ (p : StateProvider V S) (w : World V T S) (id : String) where
  -- How the run of an awaited call goes on.
  pub await_call-refused :
      (at polled : Place) (op : Operation V T) (c : DurableContext V S) (e : Error V)
      → refuse_inside_body at (claim_name op) c.execution ≡ err e
      → await_call p w id at polled op c ≡ (err e, c)
  unfolding await_call
  await_call-refused at polled op c e h = ground (arith, h)

  abbrev pub polled_at : DurableContext V S → DurableContext V S
  polled_at c = arrive p w id c.seq (next_seq p w id c)

  pub await_call-crossed :
      (at polled : Place) (op : Operation V T) (c : DurableContext V S) (e : Error V)
      → refuse_inside_body at (claim_name op) c.execution ≡ ok tt
      → check_call_poll polled (claim_name op) c.execution ≡ err e
      → await_call p w id at polled op c ≡ (err e, polled_at c)
  unfolding await_call poll
  await_call-crossed at polled op c e h g = ground (arith, h, g)

  pub await_call-performed :
      (at polled : Place) (op : Operation V T) (c : DurableContext V S)
      → refuse_inside_body at (claim_name op) c.execution ≡ ok tt
      → check_call_poll polled (claim_name op) c.execution ≡ ok tt
      → await_call p w id at polled op c ≡ perform p w id op c.seq (polled_at c)
  unfolding await_call poll
  await_call-performed at polled op c h g = ground (arith, h, g)

  pub build_call-refused :
      (at : Place) (op : Operation V T) (c : DurableContext V S) (e : Error V)
      → refuse_inside_body at (claim_name op) c.execution ≡ err e
      → build_call p w id at op c ≡ c
  unfolding build_call
  build_call-refused at op c e h = ground (arith, h)

  pub build_call-claimed :
      (at : Place) (op : Operation V T) (c : DurableContext V S)
      → refuse_inside_body at (claim_name op) c.execution ≡ ok tt
      → build_call p w id at op c ≡ next_seq p w id c
  unfolding build_call
  build_call-claimed at op c h = ground (arith, h)

  pub unclaimed-refused :
      {A : Type 0} (at : Place) (operation : String) (act : Act V S A) (c : DurableContext V S)
      (e : Error V)
      → refuse_inside_body at operation c.execution ≡ err e
      → unclaimed p w id at operation act c ≡ (err e, c)
  unfolding unclaimed
  unclaimed-refused at operation act c e h = ground (arith, h)

  pub unclaimed-polled :
      {A : Type 0} (at : Place) (operation : String) (act : Act V S A) (c : DurableContext V S)
      → refuse_inside_body at operation c.execution ≡ ok tt
      → unclaimed p w id at operation act c ≡ act (arrive p w id c.seq c)
  unfolding unclaimed
  unclaimed-polled at operation act c h = ground (arith, h)
