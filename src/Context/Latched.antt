-- ===== src/Context/Latched.antt =====
-- The calls of src/context.rs after src/execution.rs has latched a failure.
use durare.Prelude.{String, some, ◌≡◌, refl, sym, subst, arith}
use durare.Errors.{Error, err, recovery_required, durable_call_outside_execution}
use durare.Host.{Host}
use durare.Execution.{Execution, Place, refuse_inside_body}
use durare.Provider.{StateProvider}
use durare.Context.{DurableContext, World, Act}
use durare.Context.Calls
use durare.Context.Body.{
  Body, Operation, claim_name, finish, await, built, patch, deprecate_patch, await_call, build_call,
  unclaimed, run,
}

module _ {V : Type 0} where
  pub refuse_latched :
      (at : Place) (operation : String) (x : Execution V) (e : Error V)
      → x.failure ≡ some e
      → (e' : Error V) × (refuse_inside_body at operation x ≡ err e')
  unfolding refuse_inside_body
  refuse_latched Place.in_workflow operation x e h = (recovery_required e, ground arith)
  refuse_latched Place.in_step_body operation x e h = (recovery_required e, ground arith)
  refuse_latched Place.elsewhere operation x e h =
      (durable_call_outside_execution x.workflow_id operation, ground arith)

module _ {V T S : Type 0} ⦃j : Host V⦄ (p : StateProvider V S) (w : World V T S) (id : String)
    (e : Error V) where
  abbrev IsLatched : DurableContext V S → Type 0
  IsLatched c = c.execution.failure ≡ some e

  await_call-latched :
      (at polled : Place) (op : Operation V T) (c : DurableContext V S)
      → IsLatched c
      → (e' : Error V) × (await_call p w id at polled op c ≡ (err e', c))
  unfolding await_call
  await_call-latched at polled op c h =
      let (e', q) = refuse_latched at (claim_name op) c.execution e h in (e', ground (arith, q))

  build_call-latched :
      (at : Place) (op : Operation V T) (c : DurableContext V S)
      → IsLatched c
      → build_call p w id at op c ≡ c
  unfolding build_call
  build_call-latched at op c h =
      let (e', q) = refuse_latched at (claim_name op) c.execution e h in ground (arith, q)

  unclaimed-latched :
      {A : Type 0} (at : Place) (operation : String) (act : Act V S A) (c : DurableContext V S)
      → IsLatched c
      → (e' : Error V) × (unclaimed p w id at operation act c ≡ (err e', c))
  unfolding unclaimed
  unclaimed-latched at operation act c h =
      let (e', q) = refuse_latched at operation c.execution e h in (e', ground (arith, q))

  -- After a provider failure was latched, the rest of a body changes neither the context nor the
  -- provider's state, whatever it catches and calls.
  pub run-latched :
      (b : Body V T) (c : DurableContext V S)
      → c.execution.failure ≡ some e
      → (run p w id b c).1 ≡ c
  unfolding run
  run-latched (finish r) c h = refl
  run-latched (await at polled op k) c h =
      let (e', q) = await_call-latched at polled op c h in
      subst (λ x. (run p w id (k x.0) x.1).1 ≡ c) (sym q) (run-latched (k (err e')) c h)
  run-latched (built at op b) c h =
      subst (λ x. (run p w id b x).1 ≡ c) (sym (build_call-latched at op c h)) (run-latched b c h)
  run-latched (patch at name k) c h =
      let (e', q) = unclaimed-latched at "patch" (Calls.patch p w id name) c h in
      subst (λ x. (run p w id (k x.0) x.1).1 ≡ c) (sym q) (run-latched (k (err e')) c h)
  run-latched (deprecate_patch at name k) c h =
      let (e', q) =
        unclaimed-latched at "deprecate_patch" (Calls.deprecate_patch p w id name) c h in
      subst (λ x. (run p w id (k x.0) x.1).1 ≡ c) (sym q) (run-latched (k (err e')) c h)
