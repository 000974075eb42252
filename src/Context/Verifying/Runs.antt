-- ===== src/Context/Verifying/Runs.antt =====
-- The run of a body of src/context.rs as a verification.
use durare.Prelude.{ℤ, String, ◌≡◌, refl, arith, ◌∙◌}
use durare.Host.{Host}
use durare.Execution.{Place}
use durare.Provider.{StateProvider}
use durare.Context.{DurableContext, World, Act}
use durare.Context.Calls
use durare.Context.Calls.{
  serve_recorded, found, served_value, refuse_live_work, check_recorded, recorded_value, guarded,
  replay_or_guard, or_live, effect, durable_value_at, patch_arm, deprecate_arm, patch_marker,
  next_seq,
}
use durare.Context.Body.{
  Body, Operation, finish, await, built, patch, deprecate_patch, await_call, build_call, unclaimed,
  run, poll, arrive,
}
use durare.Context.Verifying.{ReadsOnly, IsVerifying, Quiet, Untouched, chained}
use durare.Context.Verifying.Performed.{perform-Quiet, patch-Quiet, deprecate_patch-Quiet}

module _ {V T S : Type 0} ⦃j : Host V⦄ (p : StateProvider V S) (w : World V T S) (id : String)
    (reads : ReadsOnly p) where
  module _ (alone : (seq : ℤ) (s : S) → w.meanwhile seq s ≡ s) where
    poll-Quiet : (at : Place) (op : Operation V T) (seq : ℤ) → Quiet (poll p w id at op seq)
    unfolding poll
    poll-Quiet at op seq c v =
        ground (arith, alone seq c.store, perform-Quiet p w id reads op seq (arrive p w id seq c))

    await_call-Quiet :
        (at polled : Place) (op : Operation V T) → Quiet (await_call p w id at polled op)
    unfolding await_call
    await_call-Quiet at polled op c v =
        ground (arith, poll-Quiet polled op c.seq (next_seq p w id c))

    build_call-Untouched :
        (at : Place) (op : Operation V T) (c : DurableContext V S)
        → IsVerifying c
        → Untouched c (build_call p w id at op c)
    unfolding build_call
    build_call-Untouched at op c v = ground arith

    unclaimed-Quiet :
        {A : Type 0} (at : Place) (operation : String) (act : Act V S A)
        → Quiet act
        → Quiet (unclaimed p w id at operation act)
    unfolding unclaimed
    unclaimed-Quiet at operation act q c v =
        ground (arith, alone c.seq c.store, q (arrive p w id c.seq c))

    -- Over a provider whose reads change nothing, and with no other execution, a verification run of
    -- any body leaves the provider's state as it was, whatever the step bodies would do to it, and
    -- stays a verification.
    pub run-verifying :
        (b : Body V T) (c : DurableContext V S) → IsVerifying c → Untouched c (run p w id b c).1
    unfolding run
    run-verifying (finish r) c v = (refl, v)
    run-verifying (await at polled op k) c v =
        chained c (await_call p w id at polled op c) (λ r d. (run p w id (k r) d).1)
          (await_call-Quiet at polled op c v) (λ r d u. run-verifying (k r) d u)
    run-verifying (built at op b) c v =
        let (h, u) = build_call-Untouched at op c v in
        let (h', u') = run-verifying b (build_call p w id at op c) u in (h' ∙ h, u')
    run-verifying (patch at name k) c v =
        chained c _ (λ r d. (run p w id (k r) d).1)
          (unclaimed-Quiet at "patch" (Calls.patch p w id name) (patch-Quiet p w id reads name) c v)
          (λ r d u. run-verifying (k r) d u)
    run-verifying (deprecate_patch at name k) c v =
        chained c _ (λ r d. (run p w id (k r) d).1)
          (unclaimed-Quiet at "deprecate_patch" (Calls.deprecate_patch p w id name)
            (deprecate_patch-Quiet p w id reads name) c v)
          (λ r d u. run-verifying (k r) d u)
