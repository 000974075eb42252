-- ===== src/Context/Replayed/Served/Gate.antt =====
-- The replay gate of src/context.rs where a record is served, in any run.
use durare.Prelude.{
  ℤ, String, Option, none, some, ◌≡◌, inl, inr, refl, sym, subst, arith, Bool-cases, ==_refl, ==→≡,
  ◌==◌, string_eq,
}
use durare.Errors.{Error, Result, ok, err}
use durare.Host.{Host, Parsed}
use durare.Recorded.{try_from_parts}
use durare.Replay.{served_record}
use durare.Execution.{Execution, Place, is_storage_failure, record_error}
use durare.Memory.{StepOutcome, RecordedStep}
use durare.Memory.StepOutcome.{output, failure}
use durare.Provider.{StateProvider}
use durare.Provider.Contract.{View, IsDurable}
use durare.Context.{DurableContext, World, Act, raise, continue, stored, from_storage}
use durare.Context.Calls.{
  found, served_value, serve_recorded, check_recorded, recorded_value, guarded, replay_or_guard,
}
use durare.Context.Replayed.{map_ok, read_outcome, failure_value, read_at}
use durare.Context.Replayed.Served.{
  Serves, Serves-chain, Serves-continue, Serves-continue_err, answer-Serves, booked-SameTable,
  pure-Serves,
}

module _ {V T S : Type 0} ⦃j : Host V⦄ (view : View V S) (p : StateProvider V S) (w : World V T S)
    (id : String) (durable : IsDurable view p) where
  read_failure :
      {A : Type 0} (y : Result V (Error V)) (r : Result V A) (c : DurableContext V S)
      → failure_value y ≡ some r
      → Serves view id r c (continue raise (from_storage y c))
  unfolding durare.Execution.storage
  read_failure (ok e) r c h = ((λ q. refl), refl, inr (ground arith, refl))
  read_failure (err e) r c h = absurd (ground arith)

  check_recorded-Serves :
      (seq : ℤ) (name : String) (c : DurableContext V S)
      → Serves view id (ok tt) c (check_recorded p w id seq name name c)
  unfolding check_recorded
  check_recorded-Serves seq name c =
      let (st, sq, ex) = booked-SameTable view id (served_record seq) c in
      rw (==_refl name) (st, sq, inr (refl, ex))

  recorded_value-Serves :
      {A : Type 0} (decode : V → Parsed A) (o : StepOutcome V) (r : Result V A)
      (c : DurableContext V S)
      → read_outcome decode o ≡ some r
      → Serves view id r c (recorded_value p w id decode o c)
  unfolding recorded_value read_outcome
  recorded_value-Serves decode (output v) r c h = ((λ q. refl), refl, inr (ground arith, refl))
  recorded_value-Serves decode (failure message info) r c h =
      read_failure (try_from_parts message info) r c h

  served_value-Serves :
      {A : Type 0} (decode : V → Parsed A) (o : StepOutcome V) (r : Result V A)
      (c : DurableContext V S)
      → read_outcome decode o ≡ some r
      → Serves view id (map_ok some r) c (served_value p w id decode o c)
  unfolding served_value
  served_value-Serves decode o r c h =
      Serves-chain view id _ some r c (recorded_value p w id decode o c)
        (recorded_value-Serves decode o r c h) (λ a d st. pure-Serves view id (some a) d)

  found-Serves :
      {A : Type 0} (decode : V → Parsed A) (seq : ℤ) (o : Option (RecordedStep V)) (name : String)
      (r : Result V A) (c : DurableContext V S)
      → read_at decode name o ≡ some r
      → Serves view id (map_ok some r) c (found p w id decode seq name o c)
  unfolding found read_at
  found-Serves decode seq none name r c h = absurd (ground arith)
  found-Serves decode seq (some rec) name r c h = elim (Bool-cases (rec.name == name)) [
    | inr e ↦ absurd (ground arith)
    | inl e ↦
        let n = ==→≡ rec.name name e in
        Serves-continue view id _ tt (map_ok some r) c (check_recorded p w id seq name rec.name c)
          (subst (λ z. Serves view id (ok tt) c (check_recorded p w id seq name z c)) (sym n)
            (check_recorded-Serves seq name c))
          (λ d st. served_value-Serves decode rec.outcome r d (ground arith))
  ]

  pub serve_recorded-Serves :
      {A : Type 0} (decode : V → Parsed A) (seq : ℤ) (name : String) (r : Result V A)
      (c : DurableContext V S)
      → read_at decode name (view c.store id seq) ≡ some r
      → Serves view id (map_ok some r) c (serve_recorded p w id decode seq name c)
  unfolding serve_recorded
  serve_recorded-Serves decode seq name r c h =
      Serves-continue view id (found p w id decode seq name) (view c.store id seq) (map_ok some r) c
        (stored (p.get_step_result id seq) c)
        (answer-Serves view id (view c.store id seq) c (p.get_step_result id seq c.store)
          (durable.get_step_result_lem id seq c.store))
        (λ d st. found-Serves decode seq (view c.store id seq) name r d h)

  -- A gate that goes on with the recorded value alone.
  pub gate-Serves :
      {A B : Type 0} (f : Option A → Act V S B) (g : A → B) (r : Result V A)
      (c : DurableContext V S) (x : Result V (Option A) × DurableContext V S)
      → Serves view id (map_ok some r) c x
      → ((a : A) (d : DurableContext V S) → f (some a) d ≡ (ok (g a), d))
      → Serves view id (map_ok g r) c (continue f x)
  gate-Serves f g (ok a) c x h k =
      Serves-continue view id f (some a) (ok (g a)) c x h
        (λ d st. subst (Serves view id (ok (g a)) d) (sym (k a d)) (pure-Serves view id (g a) d))
  gate-Serves f g (err e) c x h k = Serves-continue_err view id f e c x h

  pub replay_or_guard-Serves :
      {A : Type 0} (decode : V → Parsed A) (seq : ℤ) (name : String) (r : Result V A)
      (c : DurableContext V S)
      → read_at decode name (view c.store id seq) ≡ some r
      → Serves view id (map_ok some r) c (replay_or_guard p w id decode seq name c)
  unfolding replay_or_guard guarded
  replay_or_guard-Serves decode seq name r c h =
      gate-Serves (guarded p w id) some r c (serve_recorded p w id decode seq name c)
        (serve_recorded-Serves decode seq name r c h) (λ a d. refl)
