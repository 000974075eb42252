-- ===== src/Context/Replayed/Settled.antt =====
-- When every call of an ordinary run of a body of src/context.rs left its record, and what is left
-- to do after a call.
pub mod Awaited
pub mod Markers
pub mod Again
use durare.Prelude.{
  ℤ, ℕ, String, Option, none, some, Bool, true, false, ◌≡◌, ◌≢◌, ◌⊎◌, inl, inr, refl, sym, subst,
  ap, ◌∙◌, arith, Option-cases, ◌==◌, string_eq, option_eq, succ_i32,
}
use durare.Errors.{Error, Result, ok, err}
use durare.Host.{Host}
use durare.Execution
use durare.Execution.{Place, refuse_inside_body, check_call_poll}
use durare.Execution.Latch.{IsLatched}
use durare.Memory.{RecordedStep}
use durare.Provider.{StateProvider}
use durare.Provider.Contract.{View, IsDurable, Keeps, name_at}
use durare.Context.{DurableContext, World, Act}
use durare.Context.Calls
use durare.Context.Calls.{next_seq, patch_marker}
use durare.Context.Body.{
  Operation, Answer, Body, finish, await, built, patch, deprecate_patch, perform, arrive,
  await_call, build_call, unclaimed, run, claim_name, record_name,
}
use durare.Context.Latched.{run-latched}
use durare.Context.Replayed.{Table, serve, replay}
use durare.Context.Replayed.Going.{
  Result-cases, serve_local, IsRunning, refusal, crossing, replay-await_refused,
  replay-await_crossed, replay-await_goes, replay-patch_refused, replay-patch_own,
  replay-patch_other, replay-deprecate_refused, replay-deprecate_own, replay-deprecate_other,
  replay-built_refused, replay-built_claimed, await_call-refused, polled_at, await_call-crossed,
  await_call-performed, build_call-refused, build_call-claimed, unclaimed-refused, unclaimed-polled,
}
use durare.Context.Replayed.Rerun.Again.{run-replay}
use durare.Context.Replayed.Live.{Fixes}
use durare.Context.Replayed.Answered.Operations.{perform-Fixes}
use durare.Context.Replayed.Patched.{
  Kept, Patches, Deprecates, patch-Patches, deprecate_patch-Deprecates,
}
use durare.Context.Replayed.Grown.{run-Kept}

module _ {V T S : Type 0} ⦃j : Host V⦄ (view : View V S) (p : StateProvider V S) (w : World V T S)
    (id : String) (t : Table V) where
  -- An awaited call that was not refused left a record of its name at its position.
  abbrev pub Recorded :
      Place → Place → Operation V T → DurableContext V S → DurableContext V S → Type 0
  Recorded at polled op c d =
      refuse_inside_body {V = V} at (claim_name op) c.execution ≡ ok tt
      → check_call_poll polled (claim_name op) c.execution ≡ ok tt
      → name_at (view d.store id c.seq) ≡ some (record_name op)

  -- A patch that was not refused left a record at its position.
  abbrev pub Marked : Place → DurableContext V S → DurableContext V S → Type 0
  Marked at c d =
      refuse_inside_body {V = V} at "patch" c.execution ≡ ok tt
      → (rec : RecordedStep V) × (view d.store id c.seq ≡ some rec)

  -- A deprecated patch that was not refused has a record at its position in the table, and found
  -- the marker there if the record is the marker.
  abbrev pub Bypassed : Place → String → DurableContext V S → Type 0
  Bypassed at name c =
      refuse_inside_body {V = V} at "deprecate_patch" c.execution ≡ ok tt
      → (rec : RecordedStep V) × (t c.seq ≡ some rec)
        × (view (arrive p w id c.seq c).store id c.seq ≡ none
            → (rec.name == patch_marker name) ≡ false)

  -- Every call of the run left its record.
  unfoldable pub Settled : Body V T → DurableContext V S → Type 0
  Settled (finish r) c = Unit {0}
  Settled (await at polled op k) c =
      let x = await_call p w id at polled op c in Recorded at polled op c x.1 × Settled (k x.0) x.1
  Settled (built at op b) c = Settled b (build_call p w id at op c)
  Settled (patch at name k) c =
      let x = unclaimed p w id at "patch" (Calls.patch p w id name) c in
      Marked at c x.1 × Settled (k x.0) x.1
  Settled (deprecate_patch at name k) c =
      let x = unclaimed p w id at "deprecate_patch" (Calls.deprecate_patch p w id name) c in
      Bypassed at name c × Settled (k x.0) x.1

  -- The table has all records.
  abbrev pub Holds : DurableContext V S → Type 0
  Holds d = (q : ℤ) (r : RecordedStep V) → view d.store id q ≡ some r → t q ≡ some r

  -- The part of the main theorem that is proved by induction.
  abbrev pub Settles : Body V T → DurableContext V S → Type 0
  Settles b c =
      Holds (run p w id b c).1
      → (run p w id b c).1.execution.failure ≡ none
      → Settled b c
      → replay id t b c.seq ≡ some (run p w id b c).0

  abbrev pub AllSettle : Body V T → Type 0
  AllSettle b = (c : DurableContext V S) → c.verify ≡ none → IsRunning id c → Settles b c

  pub unlatched :
      (b : Body V T) (c : DurableContext V S)
      → IsLatched c.execution
      → (run p w id b c).1.execution.failure ≢ none
  unlatched b c (e, h) f =
      ground (arith, ap (λ d. d.execution.failure) (run-latched p w id e b c h))

  -- The rest of a run, after a call that latched nothing.
  pub rest_of :
      {A : Type 0} (k : Result V A → Body V T) (ih : (a : Result V A) → AllSettle (k a)) (q : ℤ)
      (c : DurableContext V S) (x : Result V A × DurableContext V S)
      → IsRunning id c
      → x.1.execution ≡ c.execution
      → x.1.verify ≡ none
      → x.1.seq ≡ q
      → Holds (run p w id (k x.0) x.1).1
      → (run p w id (k x.0) x.1).1.execution.failure ≡ none
      → Settled (k x.0) x.1
      → replay id t (k x.0) q ≡ some (run p w id (k x.0) x.1).0
  rest_of k ih q c x o ex v sq h f s =
      ap (replay id t (k x.0)) (sym sq)
      ∙ ih x.0 x.1 v (ap (λ y. y.failure) ex ∙ o.0, ap (λ y. y.workflow_id) ex ∙ o.1) h f s

module _ {V T S : Type 0} ⦃j : Host V⦄ (view : View V S) (p : StateProvider V S) (w : World V T S)
    (id : String) (durable : IsDurable view p)
    (alone : (seq : ℤ) (attempt : ℕ) (s : S) (q : ℤ)
      → view (w.live seq attempt s).1 id q ≡ view s id q)
    (grows : (seq : ℤ) (s : S) → Keeps view s (w.meanwhile seq s)) (t : Table V) where
  -- A record that a call left is in the table.
  pub left_at :
      (b : Body V T) (c : DurableContext V S) (q : ℤ) (r : RecordedStep V)
      → c.verify ≡ none
      → Holds view p w id t (run p w id b c).1
      → view c.store id q ≡ some r
      → t q ≡ some r
  left_at b c q r v h e = h q r ((run-Kept view p w id durable alone grows b c v).0 q r e)
