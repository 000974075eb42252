-- ===== src/Context/Verifying.antt =====
-- Verification runs of src/context.rs, and what it is for one to leave the provider's state alone.
pub mod Gate
pub mod Performed
pub mod Runs
use durare.Prelude.{ℤ, true, false, String, Option, none, some, ◌≡◌, ◌≢◌, refl, arith, ◌∙◌}
use durare.Errors.{Error, Result, ok, err}
use durare.Host.{Host, Parsed, parsed}
use durare.Execution.{Place}
use durare.Recorded.{is_none}
use durare.Provider.{StateProvider}
use durare.Memory.{RecordedStep}
use durare.Memory.{StepOutcome}
use durare.Memory.StepOutcome.{output, failure}
use durare.Recorded.{try_from_parts}
use durare.Replay.{Verification}
use durare.Context.{
  DurableContext, World, Act, pure, raise, continue, answer, stored, from_storage, booked, ◌>>=◌,
  ◌>>◌,
}
use durare.Context.Calls
use durare.Context.Calls.{
  serve_recorded, found, served_value, refuse_live_work, check_recorded, recorded_value, guarded,
  replay_or_guard, or_live, effect, durable_value_at, patch_arm, deprecate_arm, patch_marker,
  next_seq,
}
use durare.Context.Body.{
  Body, Operation, step, step_with, durable_value, sleep, send, send_bulk, set_workflow_attributes,
  set_event, write_stream, close_stream, finish, await, built, patch, deprecate_patch, await_call,
  build_call, unclaimed, run, perform, poll, arrive, as_value, as_done,
}

pub some_ne_none : {V A : Type 0} (a : A) → let r : Result V (Option A) = ok (some a) in r ≢ ok none
some_ne_none a h = cc

module _ {V S : Type 0} where
  abbrev pub IsVerifying : DurableContext V S → Type 0
  IsVerifying c = is_none c.verify ≡ false

  -- The provider's state is as it was.
  abbrev pub Untouched : DurableContext V S → DurableContext V S → Type 0
  Untouched c c' = (c'.store ≡ c.store) × IsVerifying c'

  -- The provider's reads leave its state alone.
  pub record ReadsOnly (p : StateProvider V S) : Type 0 where
    pub get_step_result_state : (w : String) (q : ℤ) (s : S) → (p.get_step_result w q s).1 ≡ s
    pub get_step_name_state : (w : String) (q : ℤ) (s : S) → (p.get_step_name w q s).1 ≡ s
    pub get_workflow_status_state : (w : String) (s : S) → (p.get_workflow_status w s).1 ≡ s

  -- The call leaves the provider's state as it was.
  abbrev pub Quiet : {A : Type 0} → Act V S A → Type 0
  Quiet m = (c : DurableContext V S) → IsVerifying c → Untouched c (m c).1

  pub pure-Quiet : {A : Type 0} (a : A) → Quiet (pure a)
  pure-Quiet a c v = (refl, v)

  pub raise-Quiet : (A : Type 0) (e : Error V) → Quiet (raise {A = A} e)
  raise-Quiet A e c v = (refl, v)

  answer-Untouched :
      {A : Type 0} (x : Result V A × S) (c : DurableContext V S)
      → x.1 ≡ c.store
      → IsVerifying c
      → Untouched c (answer x c).1
  answer-Untouched (ok a, s) c h v = (h, v)
  answer-Untouched (err e, s) c h v = (h, v)

  pub stored-Quiet :
      {A : Type 0} (f : S → Result V A × S) → ((s : S) → (f s).1 ≡ s) → Quiet (stored f)
  stored-Quiet f h c v = answer-Untouched (f c.store) c (h c.store) v

  -- the rest of a chain, after an answer
  then-Untouched :
      {A B : Type 0} (f : A → Act V S B) (c : DurableContext V S)
      (x : Result V A × DurableContext V S)
      → Untouched c x.1
      → ((a : A) → Quiet (f a))
      → Untouched c (continue f x).1
  then-Untouched f c (ok a, d) (h, v) k = let (h', v') = k a d v in (h' ∙ h, v')
  then-Untouched f c (err e, d) (h, v) k = (h, v)

  pub >>=-Quiet :
      {A B : Type 0} (m : Act V S A) (f : A → Act V S B)
      → Quiet m
      → ((a : A) → Quiet (f a))
      → Quiet (m >>= f)
  >>=-Quiet m f h k c v = then-Untouched f c (m c) (h c v) k

  -- the call never answers that nothing is recorded
  abbrev pub Stops : {A : Type 0} → Act V S (Option A) → Type 0
  Stops m = (c : DurableContext V S) → IsVerifying c → (m c).0 ≢ ok none

  pub then-Stops :
      {A B : Type 0} (f : A → Act V S (Option B)) (x : Result V A × DurableContext V S)
      → IsVerifying x.1
      → ((a : A) → Stops (f a))
      → (continue f x).0 ≢ ok none
  then-Stops f (ok a, d) v k = k a d v
  then-Stops f (err e, d) v k = λ h. cc

  -- a call that goes on only with a recorded value
  gate-Untouched :
      {A B : Type 0} (f : Option A → Act V S B) (c : DurableContext V S)
      (x : Result V (Option A) × DurableContext V S)
      → Untouched c x.1
      → x.0 ≢ ok none
      → ((a : A) → Quiet (f (some a)))
      → Untouched c (continue f x).1
  gate-Untouched f c (ok none, d) h n k = absurd (n refl)
  gate-Untouched f c (ok (some a), d) (h, v) n k = let (h', v') = k a d v in (h' ∙ h, v')
  gate-Untouched f c (err e, d) h n k = h

  pub gate-Quiet :
      {A B : Type 0} (m : Act V S (Option A)) (f : Option A → Act V S B)
      → Quiet m
      → Stops m
      → ((a : A) → Quiet (f (some a)))
      → Quiet (m >>= f)
  gate-Quiet m f h n k c v = gate-Untouched f c (m c) (h c v) (n c v) k

  pub gate-Stops :
      {A B : Type 0} (f : Option A → Act V S (Option B))
      (x : Result V (Option A) × DurableContext V S)
      → IsVerifying x.1
      → x.0 ≢ ok none
      → ((a : A) → Stops (f (some a)))
      → (continue f x).0 ≢ ok none
  gate-Stops f (ok none, d) v n k = absurd (n refl)
  gate-Stops f (ok (some a), d) v n k = k a d v
  gate-Stops f (err e, d) v n k = λ h. cc

  -- a body that goes on after an answer
  pub chained :
      {A : Type 0} (c : DurableContext V S) (x : Result V A × DurableContext V S)
      (f : Result V A → DurableContext V S → DurableContext V S)
      → Untouched c x.1
      → ((r : Result V A) (d : DurableContext V S) → IsVerifying d → Untouched d (f r d))
      → Untouched c (f x.0 x.1)
  chained c (r, d) f (h, v) k = let (h', v') = k r d v in (h' ∙ h, v')

  -- a chain that a refusal ends
  pub refused-Untouched :
      {A : Type 0} (c : DurableContext V S) (x : Result V (Unit {0}) × DurableContext V S)
      (rest : Act V S A)
      → Untouched c x.1
      → x.0 ≢ ok tt
      → Untouched c (continue (λ u. rest) x).1
  refused-Untouched c (ok u, d) rest h n = absurd (n refl)
  refused-Untouched c (err e, d) rest h n = h

  pub refused-err :
      (x : Result V (Unit {0}) × DurableContext V S) (rest : Act V S (Unit {0}))
      → x.0 ≢ ok tt
      → (continue (λ u. rest) x).0 ≢ ok tt
  refused-err (ok u, d) rest n = absurd (n refl)
  refused-err (err e, d) rest n = λ h. cc
