-- ===== src/Context/Replayed/Rerun/Again.antt =====
-- The run of a body of src/context.rs, against the reference replay.
use durare.Prelude.{ℤ, String, none, some, ◌≡◌, inl, inr, arith, string_eq}
use durare.Errors.{Result}
use durare.Host.{Host}
use durare.Execution
use durare.Execution.{Place, record_error, refuse_inside_body, check_call_poll}
use durare.Memory.{RecordedStep}
use durare.Provider.{StateProvider}
use durare.Provider.Contract.{View, Keeps, IsDurable}
use durare.Context.{DurableContext, World}
use durare.Context.Calls.{next_seq}
use durare.Context.Body.{
  Operation, Body, finish, await, built, patch, deprecate_patch, claim_name, build_call, run,
}
use durare.Context.Replayed.{Table, replay}
use durare.Context.Replayed.Going.{Result-cases, refusal}
use durare.Context.Replayed.Rerun.{Replays}
use durare.Context.Replayed.Rerun.Awaited.{await-Ends}
use durare.Context.Replayed.Rerun.Markers.{patch-Ends, deprecate_patch-Ends}

module _ {V T S : Type 0} ⦃j : Host V⦄ (view : View V S) (p : StateProvider V S) (w : World V T S)
    (id : String) (durable : IsDurable view p)
    (grows : (seq : ℤ) (s : S) → Keeps view s (w.meanwhile seq s)) (t : Table V) where
  built-Ends :
      (at : Place) (op : Operation V T) (b : Body V T)
      → Replays view p w id durable grows t b
      → Replays view p w id durable grows t (built at op b)
  unfolding run replay build_call
  built-Ends at op b ih r c h o e =
      elim (Result-cases (refuse_inside_body {V = V} at (claim_name op) (Execution.new id))) [
        | inr (x, n) ↦ ground (arith, n, refusal id at (claim_name op) c o, ih r c h o)
        | inl (u, n) ↦
            ground (arith, n, refusal id at (claim_name op) c o, ih r (next_seq p w id c) h o)
      ]

  replays : (b : Body V T) → Replays view p w id durable grows t b
  unfolding run replay
  replays (finish x) r c h o e = λ f. ground arith
  replays (await at polled op k) r c h o e =
      await-Ends view p w id durable grows t at polled op k (λ a. replays (k a)) r c h o e
  replays (built at op b) r c h o e = built-Ends at op b (replays b) r c h o e
  replays (patch at name k) r c h o e =
      patch-Ends view p w id durable grows t at name k (λ a. replays (k a)) r c h o e
  replays (deprecate_patch at name k) r c h o e =
      deprecate_patch-Ends view p w id durable grows t at name k (λ a. replays (k a)) r c h o e

  -- Over a provider that meets the contract, and with other executions that lose no recorded step:
  -- where a table of recorded steps is in the state and the reference replay of a body on it ends,
  -- every run of the body from the same position that starts and ends without a latched failure
  -- returns what the reference replay returns, whatever the clocks, the step bodies and the
  -- verification do.
  pub run-replay :
      (b : Body V T) (r : Result V T) (c : DurableContext V S)
      → ((q : ℤ) (rec : RecordedStep V) → t q ≡ some rec → view c.store id q ≡ some rec)
      → c.execution.failure ≡ none
      → c.execution.workflow_id ≡ id
      → replay id t b c.seq ≡ some r
      → (run p w id b c).1.execution.failure ≡ none
      → (run p w id b c).0 ≡ r
  run-replay b r c h f i e = replays b r c h (f, i) e
