-- ===== src/Context/Replayed/Gate/Guard.antt =====
-- The check of src/context.rs for a cancellation, and the whole gate, in an ordinary run.
use durare.Prelude.{
  ℤ, String, Option, none, some, ◌≡◌, ◌⊎◌, inl, inr, refl, sym, subst, ap, ◌∙◌, arith, Bool-cases,
  ◌==◌, string_eq,
}
use durare.Errors.{Error, Result, ok, err, cancelled}
use durare.Host.{Host, Parsed}
use durare.Workflow.{WorkflowStatus, status_cancelled}
use durare.Execution.{record_error}
use durare.Execution.Latch.{record_error-IsLatched}
use durare.Memory.{RecordedStep}
use durare.Provider.{StateProvider}
use durare.Provider.Contract.{View, IsDurable, ReadsOther, name_at}
use durare.Context.{DurableContext, World, pure, continue, answer}
use durare.Context.Calls.{serve_recorded, refuse_cancelled, guarded, replay_or_guard}
use durare.Context.Replayed.{read_at}
use durare.Context.Replayed.Gate.{
  Fixed, GateAnswer, Gates, IsStill, IsStill-refl, IsStill-trans, Unless,
}
use durare.Context.Replayed.Gate.Recorded.{serve_recorded-Gates}

module _ {V T S : Type 0} ⦃j : Host V⦄ (view : View V S) (p : StateProvider V S) (w : World V T S)
    (id : String) (durable : IsDurable view p) where
  -- The check for a cancellation, where nothing is recorded.
  abbrev Guards :
      {A : Type 0} → DurableContext V S → Result V (Option A) × DurableContext V S → Type 0
  Guards c x =
      IsStill view id c x.1 × Unless view id c x ((x.0 ≡ ok none) ⊎ ((e : Error V) × (x.0 ≡ err e)))

  refused-Guards :
      {A : Type 0} (row : Option (WorkflowStatus V)) (c : DurableContext V S)
      → c.verify ≡ none
      → Guards {A = A} c (continue (λ u. pure none) (refuse_cancelled p w id row c))
  unfolding refuse_cancelled
  refused-Guards none c v = (IsStill-refl view id c v, inr (refl, inl refl))
  refused-Guards (some row) c v = elim (Bool-cases (row.status == status_cancelled)) [
    | inl h ↦ rw h (IsStill-refl view id c v, inr (refl, inr (cancelled id, refl)))
    | inr h ↦ rw h (IsStill-refl view id c v, inr (refl, inl refl))
  ]

  status-Guards :
      {A : Type 0} (c : DurableContext V S) (y : Result V (Option (WorkflowStatus V)) × S)
      → c.verify ≡ none
      → ReadsOther view c.store y
      → Guards {A = A} c
          (continue (λ u. pure none) (continue (refuse_cancelled p w id) (answer y c)))
  status-Guards {A} c (ok row, s) v same =
      let d = record c { store = s } in
      let (st, u) = refused-Guards {A = A} row d v in
      (
        IsStill-trans view id c d
            (continue (λ x. pure {A = Option A} none) (refuse_cancelled p w id row d)).1
            ((λ n. same id n), refl, v) st,
        u,
      )
  status-Guards c (err e, s) v (h, same) = (
    ((λ n. same id n), refl, v),
    inl ((record_error e c.execution).0, refl, record_error-IsLatched e c.execution h),
  )

  guarded-none :
      {A : Type 0} (c : DurableContext V S)
      → c.verify ≡ none
      → Guards {A = A} c (guarded p w id none c)
  unfolding guarded
  guarded-none c v =
      status-Guards c (p.get_workflow_status id c.store) v
        (durable.get_workflow_status_lem id c.store)

  pub Fixed-none :
      {A : Type 0} (read : Option (RecordedStep V) → Option (Result V A)) (name : String)
      (o : Option (RecordedStep V)) (r : Result V A)
      → o ≡ none
      → Fixed view id read name r o
  Fixed-none read name o r h m = absurd (ground (arith, h, m, ap name_at h))

  -- The guard after the gate.
  none-Gates :
      {A : Type 0} (read : Option (RecordedStep V) → Option (Result V A)) (name : String)
      (o : Option (RecordedStep V)) (c d : DurableContext V S)
      (x : Result V (Option A) × DurableContext V S)
      → IsStill view id c d
      → (d.execution ≡ c.execution) × (o ≡ none)
      → Guards d x
      → Gates view id read name o c x
  none-Gates read name o c d x st u (st', inl l) = (IsStill-trans view id c d x.1 st st', inl l)
  none-Gates read name o c d (y, e) st (ex, n) (st', inr (ex', inl a)) = (
    IsStill-trans view id c d e st st',
    inr (ex' ∙ ex, subst (GateAnswer view id read name o) (sym a) n),
  )
  none-Gates read name o c d (y, e) st (ex, n) (st', inr (ex', inr (b, a))) = (
    IsStill-trans view id c d e st st',
    inr (
      ex' ∙ ex,
      subst (GateAnswer view id read name o) (sym a) (Fixed-none read name o (err b) n),
    ),
  )

  guarded-Gates :
      {A : Type 0} (read : Option (RecordedStep V) → Option (Result V A)) (name : String)
      (o : Option (RecordedStep V)) (c : DurableContext V S)
      (x : Result V (Option A) × DurableContext V S)
      → Gates view id read name o c x
      → Gates view id read name o c (continue (guarded p w id) x)
  unfolding guarded
  guarded-Gates read name o c (ok (some a), d) h = h
  guarded-Gates read name o c (ok none, d) (st, inl (b, q, l)) = absurd (ground arith)
  guarded-Gates read name o c (ok none, d) (st, inr u) =
      none-Gates read name o c d (guarded p w id none d) st u (guarded-none d st.2)
  guarded-Gates read name o c (err e, d) h = h

  pub replay_or_guard-Gates :
      {A : Type 0} (decode : V → Parsed A) (seq : ℤ) (name : String) (c : DurableContext V S)
      → c.verify ≡ none
      → Gates view id
          (read_at decode name)
          name
          (view c.store id seq)
          c
          (replay_or_guard p w id decode seq name c)
  unfolding replay_or_guard
  replay_or_guard-Gates decode seq name c v =
      guarded-Gates (read_at decode name) name (view c.store id seq) c
        (serve_recorded p w id decode seq name c)
        (serve_recorded-Gates view p w id durable decode seq name c v)
