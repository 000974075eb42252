-- ===== src/Context/Verifying/Gate.antt =====
-- The replay gate of src/context.rs in a verification run.
use durare.Prelude.{ℤ, String, Option, none, some, ◌≢◌, refl, arith}
use durare.Errors.{Result, ok, err}
use durare.Host.{Host, Parsed}
use durare.Provider.{StateProvider}
use durare.Memory.{RecordedStep}
use durare.Memory.{StepOutcome}
use durare.Memory.StepOutcome.{output, failure}
use durare.Recorded.{try_from_parts}
use durare.Context.{DurableContext, World, pure, raise, continue, stored, from_storage}
use durare.Context.Calls.{
  serve_recorded, found, served_value, refuse_live_work, check_recorded, recorded_value, guarded,
  replay_or_guard,
}
use durare.Context.Verifying.{
  ReadsOnly, >>=-Quiet, IsVerifying, Quiet, Stops, gate-Quiet, gate-Stops, pure-Quiet, raise-Quiet,
  some_ne_none, stored-Quiet, then-Stops,
}

module _ {V T S : Type 0} ⦃j : Host V⦄ (p : StateProvider V S) (w : World V T S) (id : String)
    (reads : ReadsOnly p) where
  pub refuse_live_work-Quiet : (seq : ℤ) (name : String) → Quiet (refuse_live_work p w id seq name)
  unfolding refuse_live_work
  refuse_live_work-Quiet seq name c v = ground arith

  pub refuse_live_work-err :
      (seq : ℤ) (name : String) (c : DurableContext V S)
      → IsVerifying c
      → (refuse_live_work p w id seq name c).0 ≢ ok tt
  unfolding refuse_live_work
  refuse_live_work-err seq name c v h = ground arith

  check_recorded-Quiet :
      (seq : ℤ) (name found_name : String) → Quiet (check_recorded p w id seq name found_name)
  unfolding check_recorded
  check_recorded-Quiet seq name found_name c v = ground arith

  recorded_value-Quiet :
      {A : Type 0} (decode : V → Parsed A) (o : StepOutcome V)
      → Quiet (recorded_value p w id decode o)
  unfolding recorded_value
  recorded_value-Quiet {A} decode (output value) c v = (refl, v)
  recorded_value-Quiet {A} decode (failure message info) c v =
      >>=-Quiet (from_storage (try_from_parts message info)) raise (λ d v'. (refl, v'))
        (λ e. raise-Quiet A e) c v

  served_value-Quiet :
      {A : Type 0} (decode : V → Parsed A) (o : StepOutcome V)
      → Quiet (served_value p w id decode o)
  unfolding served_value
  served_value-Quiet decode o =
      >>=-Quiet (recorded_value p w id decode o) _ (recorded_value-Quiet decode o)
        (λ a. pure-Quiet (some a))

  served_value-Stops :
      {A : Type 0} (decode : V → Parsed A) (o : StepOutcome V)
      → Stops (served_value p w id decode o)
  unfolding served_value
  served_value-Stops decode o c v =
      then-Stops (λ a. pure (some a)) (recorded_value p w id decode o c)
        (recorded_value-Quiet decode o c v).1 (λ a d v'. some_ne_none a)

  found-Quiet :
      {A : Type 0} (decode : V → Parsed A) (seq : ℤ) (name : String) (o : Option (RecordedStep V))
      → Quiet (found p w id decode seq name o)
  unfolding found
  found-Quiet {A} decode seq name none =
      >>=-Quiet (refuse_live_work p w id seq name) _ (refuse_live_work-Quiet seq name)
        (λ u. pure-Quiet {A = Option A} none)
  found-Quiet {A} decode seq name (some r) =
      >>=-Quiet (check_recorded p w id seq name r.name) _ (check_recorded-Quiet seq name r.name)
        (λ u. served_value-Quiet decode r.outcome)

  -- nothing recorded: the run is refused
  refused-Stops :
      {A : Type 0} (x : Result V (Unit {0}) × DurableContext V S)
      → x.0 ≢ ok tt
      → (continue (λ u. pure {A = Option A} none) x).0 ≢ ok none
  refused-Stops (ok u, d) n = absurd (n refl)
  refused-Stops (err e, d) n = λ h. cc

  found-Stops :
      {A : Type 0} (decode : V → Parsed A) (seq : ℤ) (name : String) (o : Option (RecordedStep V))
      → Stops (found p w id decode seq name o)
  unfolding found
  found-Stops decode seq name none c v =
      refused-Stops (refuse_live_work p w id seq name c) (refuse_live_work-err seq name c v)
  found-Stops decode seq name (some r) c v =
      then-Stops (λ u. served_value p w id decode r.outcome)
        (check_recorded p w id seq name r.name c) (check_recorded-Quiet seq name r.name c v).1
        (λ u. served_value-Stops decode r.outcome)

  get_step_result-Quiet : (seq : ℤ) → Quiet (stored (p.get_step_result id seq))
  get_step_result-Quiet seq =
      stored-Quiet (p.get_step_result id seq) (λ s. reads.get_step_result_state id seq s)

  pub serve_recorded-Quiet :
      {A : Type 0} (decode : V → Parsed A) (seq : ℤ) (name : String)
      → Quiet (serve_recorded p w id decode seq name)
  unfolding serve_recorded
  serve_recorded-Quiet decode seq name =
      >>=-Quiet (stored (p.get_step_result id seq)) (found p w id decode seq name)
        (get_step_result-Quiet seq) (found-Quiet decode seq name)

  pub serve_recorded-Stops :
      {A : Type 0} (decode : V → Parsed A) (seq : ℤ) (name : String)
      → Stops (serve_recorded p w id decode seq name)
  unfolding serve_recorded
  serve_recorded-Stops decode seq name c v =
      then-Stops (found p w id decode seq name) (stored (p.get_step_result id seq) c)
        (get_step_result-Quiet seq c v).1 (found-Stops decode seq name)

  pub replay_or_guard-Quiet :
      {A : Type 0} (decode : V → Parsed A) (seq : ℤ) (name : String)
      → Quiet (replay_or_guard p w id decode seq name)
  unfolding replay_or_guard guarded
  replay_or_guard-Quiet decode seq name =
      gate-Quiet (serve_recorded p w id decode seq name) (guarded p w id)
        (serve_recorded-Quiet decode seq name) (serve_recorded-Stops decode seq name)
        (λ a. pure-Quiet (some a))

  pub replay_or_guard-Stops :
      {A : Type 0} (decode : V → Parsed A) (seq : ℤ) (name : String)
      → Stops (replay_or_guard p w id decode seq name)
  unfolding replay_or_guard guarded
  replay_or_guard-Stops decode seq name c v =
      gate-Stops (guarded p w id) (serve_recorded p w id decode seq name c)
        (serve_recorded-Quiet decode seq name c v).1 (serve_recorded-Stops decode seq name c v)
        (λ a d v'. some_ne_none a)
