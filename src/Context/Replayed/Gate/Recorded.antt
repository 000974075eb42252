-- ===== src/Context/Replayed/Gate/Recorded.antt =====
-- What the replay gate of src/context.rs serves from a record in an ordinary run.
use durare.Prelude.{
  ℤ, true, false, String, Option, none, some, ◌≡◌, ◌⊎◌, inl, inr, refl, sym, subst, arith,
  Bool-cases, ◌==◌, ==_refl, string_eq,
}
use durare.Errors.{Error, Result, ok, err, unexpected_step}
use durare.Host.{Host, Parsed}
use durare.Recorded.{try_from_parts}
use durare.Recorded.Unreadable.{try_from_parts-storage}
use durare.Replay.{Verification}
use durare.Execution.{is_storage_failure, record_error, storage}
use durare.Execution.Latch.{record_error-IsLatched}
use durare.Memory.{StepOutcome, RecordedStep}
use durare.Memory.StepOutcome.{output, failure}
use durare.Provider.{StateProvider}
use durare.Provider.Contract.{View, IsDurable}
use durare.Context.{DurableContext, World, pure, raise, continue, from_storage, booked, from_parsed}
use durare.Context.Calls.{
  found, served_value, serve_recorded, check_recorded, recorded_value, refuse_live_work,
}
use durare.Context.Replayed.{read_outcome, failure_value, read_at}
use durare.Context.Replayed.Served.{IsInterrupted}
use durare.Context.Replayed.Gate.{Fixed, GateAnswer, Gates, IsStill, IsStill-refl, answer-chain}

module _ {V T S : Type 0} ⦃j : Host V⦄ (view : View V S) (p : StateProvider V S) (w : World V T S)
    (id : String) (durable : IsDurable view p) where
  pub unverified :
      (f : Verification → Verification) (c : DurableContext V S) → c.verify ≡ none → booked f c ≡ c
  unverified f c v = ground arith

  -- A recorded outcome is latched as unreadable, or read.
  abbrev pub Reading :
      {A : Type 0}
      → Option (Result V A)
      → DurableContext V S
      → Result V A × DurableContext V S
      → Type 0
  Reading {A} o c x =
      (IsStill view id c x.1 × IsInterrupted view id x)
      ⊎ ((r : Result V A) × (o ≡ some r) × (x ≡ (r, c)))

  failure-Reading :
      {A : Type 0} (y : Result V (Error V)) (c : DurableContext V S)
      → c.verify ≡ none
      → ((e : Error V) → y ≡ err e → is_storage_failure e ≡ true)
      → Reading {A = A} (failure_value y) c (continue raise (from_storage y c))
  unfolding storage
  failure-Reading (ok e) c v h = inr (err e, refl, refl)
  failure-Reading (err e) c v h = inl (
    IsStill-refl view id c v,
    ((record_error e c.execution).0, refl, record_error-IsLatched e c.execution (h e refl)),
  )

  pub recorded_value-Reading :
      {A : Type 0} (decode : V → Parsed A) (o : StepOutcome V) (c : DurableContext V S)
      → c.verify ≡ none
      → Reading {A = A} (read_outcome decode o) c (recorded_value p w id decode o c)
  unfolding recorded_value read_outcome
  recorded_value-Reading decode (output v) c n = inr (from_parsed (decode v), refl, refl)
  recorded_value-Reading decode (failure message info) c n =
      failure-Reading (try_from_parts message info) c n (try_from_parts-storage message info)

  -- The value that a record of this name gives.
  served-Gates :
      {A : Type 0} (decode : V → Parsed A) (name : String) (rec : RecordedStep V)
      (c : DurableContext V S) (x : Result V A × DurableContext V S)
      → c.verify ≡ none
      → (rec.name == name) ≡ true
      → Reading {A = A} (read_outcome decode rec.outcome) c x
      → Gates view id (read_at decode name) name (some rec) c (continue (λ a. pure (some a)) x)
  unfolding read_at
  served-Gates decode name rec c (ok a, d) v n (inl (st, (b, q, l))) = absurd (ground arith)
  served-Gates decode name rec c (err e, d) v n (inl (st, l)) =
      (st, inl (l.0, ground (arith, l.1), l.2))
  served-Gates decode name rec c x v n (inr (ok a, q, e)) =
      subst
        (λ z.
          Gates view id (read_at decode name) name (some rec) c (continue (λ a. pure (some a)) z))
        (sym e) (IsStill-refl view id c v, inr (refl, rw n q))
  served-Gates decode name rec c x v n (inr (err b, q, e)) =
      subst
        (λ z.
          Gates view id (read_at decode name) name (some rec) c (continue (λ a. pure (some a)) z))
        (sym e) (IsStill-refl view id c v, inr (refl, λ m. rw n q))

  pub refuse_live_work-none :
      (seq : ℤ) (name : String) (c : DurableContext V S)
      → c.verify ≡ none
      → refuse_live_work p w id seq name c ≡ (ok tt, c)
  unfolding refuse_live_work
  refuse_live_work-none seq name c v = ground arith

  check_recorded-match :
      (seq : ℤ) (name n : String) (c : DurableContext V S)
      → c.verify ≡ none
      → (n == name) ≡ true
      → check_recorded p w id seq name n c ≡ (ok tt, c)
  unfolding check_recorded
  check_recorded-match seq name n c v h = ground (arith, h)

  check_recorded-mismatch :
      (seq : ℤ) (name n : String) (c : DurableContext V S)
      → c.verify ≡ none
      → (n == name) ≡ false
      → (e : Error V) × (check_recorded p w id seq name n c ≡ (err e, c))
  unfolding check_recorded
  check_recorded-mismatch seq name n c v h = (unexpected_step id seq name n, ground (arith, h))

  name_mismatch :
      {A : Type 0} (read : Option (RecordedStep V) → Option (Result V A)) (name : String)
      (rec : RecordedStep V) (r : Result V A)
      → (rec.name == name) ≡ false
      → Fixed view id read name r (some rec)
  name_mismatch read name rec r h m = absurd (ground (arith, h, ==_refl name))

  found-Gates :
      {A : Type 0} (decode : V → Parsed A) (seq : ℤ) (name : String) (o : Option (RecordedStep V))
      (c : DurableContext V S)
      → c.verify ≡ none
      → Gates view id (read_at decode name) name o c (found p w id decode seq name o c)
  unfolding found served_value
  found-Gates {A} decode seq name none c v =
      subst
        (λ z.
          Gates view id (read_at decode name) name none c
            (continue (λ u. pure {A = Option A} none) z))
        (sym (refuse_live_work-none seq name c v)) (IsStill-refl view id c v, inr (refl, refl))
  found-Gates {A} decode seq name (some rec) c v = elim (Bool-cases (rec.name == name)) [
    | inl n ↦
        subst
          (λ z.
            Gates view id (read_at decode name) name (some rec) c
              (continue (λ u. served_value p w id decode rec.outcome) z))
          (sym (check_recorded-match seq name rec.name c v n))
          (served-Gates decode name rec c (recorded_value p w id decode rec.outcome c) v n
            (recorded_value-Reading decode rec.outcome c v))
    | inr n ↦
        let (e, q) = check_recorded-mismatch seq name rec.name c v n in
        subst
          (λ z.
            Gates view id (read_at decode name) name (some rec) c
              (continue (λ u. served_value p w id decode rec.outcome) z))
          (sym q)
          (
            IsStill-refl view id c v,
            inr (refl, name_mismatch (read_at decode name) name rec (err e) n),
          )
  ]

  pub serve_recorded-Gates :
      {A : Type 0} (decode : V → Parsed A) (seq : ℤ) (name : String) (c : DurableContext V S)
      → c.verify ≡ none
      → Gates view id
          (read_at decode name)
          name
          (view c.store id seq)
          c
          (serve_recorded p w id decode seq name c)
  unfolding serve_recorded
  serve_recorded-Gates decode seq name c v =
      let o = view c.store id seq in
      answer-chain view id (found p w id decode seq name) o c (p.get_step_result id seq c.store) v
        (durable.get_step_result_lem id seq c.store)
        (GateAnswer view id (read_at decode name) name o)
        (λ d st ex. found-Gates decode seq name o d st.2)
