-- ===== src/Context/Replayed/Settled/Again.antt =====
-- An ordinary run of a body of src/context.rs that left its records, and later runs of the body.
use durare.Prelude.{
  ℤ, ℕ, String, none, some, ◌≡◌, inl, inr, refl, sym, subst, ap, ◌∙◌, string_eq, option_eq,
}
use durare.Host.{Host}
use durare.Execution
use durare.Execution.{Place, refuse_inside_body, check_call_poll}
use durare.Memory.{RecordedStep}
use durare.Provider.{StateProvider}
use durare.Provider.Contract.{View, IsDurable, Keeps}
use durare.Context.{DurableContext, World}
use durare.Context.Calls.{next_seq}
use durare.Context.Body.{
  Operation, Body, finish, await, built, patch, deprecate_patch, build_call, run, claim_name,
}
use durare.Context.Replayed.{Table, replay}
use durare.Context.Replayed.Going.{
  Result-cases, IsRunning, refusal, replay-built_refused, replay-built_claimed, build_call-refused,
  build_call-claimed,
}
use durare.Context.Replayed.Rerun.Again.{run-replay}
use durare.Context.Replayed.Settled.{Settled, Holds, AllSettle}
use durare.Context.Replayed.Settled.Awaited.{await-Goes}
use durare.Context.Replayed.Settled.Markers.{patch-Goes, deprecate-Goes}

module _ {V T S : Type 0} ⦃j : Host V⦄ (view : View V S) (p : StateProvider V S) (w : World V T S)
    (id : String) (durable : IsDurable view p)
    (alone : (seq : ℤ) (attempt : ℕ) (s : S) (q : ℤ)
      → view (w.live seq attempt s).1 id q ≡ view s id q)
    (grows : (seq : ℤ) (s : S) → Keeps view s (w.meanwhile seq s)) (t : Table V) where
  built-Settles :
      (at : Place) (op : Operation V T) (b : Body V T)
      → AllSettle view p w id t b
      → (c : DurableContext V S) → c.verify ≡ none
      → IsRunning id c
      → Holds view p w id t (run p w id b (build_call p w id at op c)).1
      → (run p w id b (build_call p w id at op c)).1.execution.failure ≡ none
      → Settled view p w id t b (build_call p w id at op c)
      → replay id t (built at op b) c.seq ≡ some (run p w id b (build_call p w id at op c)).0
  built-Settles at op b ih c v o =
      let goes = λ (d : DurableContext V S).
        Holds view p w id t (run p w id b d).1
        → (run p w id b d).1.execution.failure ≡ none
        → Settled view p w id t b d
        → replay id t (built at op b) c.seq ≡ some (run p w id b d).0 in
      elim (Result-cases (refuse_inside_body {V = V} at (claim_name op) (Execution.new id))) [
        | inr (e, n) ↦
            subst goes
              (sym (build_call-refused p w id at op c e (refusal id at (claim_name op) c o ∙ n)))
              (λ h f s. replay-built_refused id t at op b c.seq e n ∙ ih c v o h f s)
        | inl (u, n) ↦
            subst goes
              (sym (build_call-claimed p w id at op c (refusal id at (claim_name op) c o ∙ n)))
              (λ h f s.
                replay-built_claimed id t at op b c.seq n ∙ ih (next_seq p w id c) v o h f s)
      ]

  settles : (b : Body V T) → AllSettle view p w id t b
  unfolding run Settled replay
  settles (finish r) c v o h f s = refl
  settles (await at polled op k) c v o h f s =
      await-Goes view p w id durable alone grows t at polled op k (λ a. settles (k a)) c o v h f s.0
        s.1
  settles (built at op b) c v o h f s = built-Settles at op b (settles b) c v o h f s
  settles (patch at name k) c v o h f s =
      patch-Goes view p w id durable alone grows t at name k (λ a. settles (k a)) c o v h f s.0 s.1
  settles (deprecate_patch at name k) c v o h f s =
      deprecate-Goes view p w id durable alone grows t at name k (λ a. settles (k a)) c o v h f s.0
        s.1

module _ {V T S : Type 0} ⦃j : Host V⦄ (view : View V S) (p : StateProvider V S)
    (w w' : World V T S) (id : String) (durable : IsDurable view p)
    (alone : (seq : ℤ) (attempt : ℕ) (s : S) (q : ℤ)
      → view (w.live seq attempt s).1 id q ≡ view s id q)
    (grows : (seq : ℤ) (s : S) → Keeps view s (w.meanwhile seq s))
    (grows' : (seq : ℤ) (s : S) → Keeps view s (w'.meanwhile seq s)) where
  -- What an ordinary run of a body returned is what every later run from the same position returns:
  -- over a provider that meets the contract, where the step bodies of the first run left the records
  -- of its workflow alone, no other execution loses a record, and every call of the first run left
  -- its record, a second run of the body from a state that has these records returns the same result,
  -- whatever its clocks, step bodies and verification, provided that neither run starts or ends with
  -- a latched failure.
  pub run-again :
      (b : Body V T) (c d : DurableContext V S)
      → c.verify ≡ none
      → IsRunning id c
      → (run p w id b c).1.execution.failure ≡ none
      → Settled view p w id (view (run p w id b c).1.store id) b c
      → ((q : ℤ) (r : RecordedStep V)
          → view (run p w id b c).1.store id q ≡ some r
          → view d.store id q ≡ some r)
      → d.seq ≡ c.seq
      → IsRunning id d
      → (run p w' id b d).1.execution.failure ≡ none
      → (run p w' id b d).0 ≡ (run p w id b c).0
  run-again b c d v o f s kept sq (f', i') g =
      let t = view (run p w id b c).1.store id in
      run-replay view p w' id durable grows' t b (run p w id b c).0 d kept f' i'
        (ap (replay id t b) sq ∙ settles view p w id durable alone grows t b c v o (λ q r h. h) f s)
        g
