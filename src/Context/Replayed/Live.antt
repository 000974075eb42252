-- ===== src/Context/Replayed/Live.antt =====
-- The live half of a call of src/context.rs, and the record that it leaves.
pub mod Recording
use durare.Prelude.{
  ℤ, true, String, Option, none, some, ◌≡◌, ◌⊎◌, inl, inr, refl, sym, subst, ap, ◌∙◌, arith,
  Bool-cases, Option-cases, ==_refl, string_eq,
}
use durare.Errors.{recovery_required, serde, Error, Result, ok, err}
use durare.Host.{Host, Parsed, parsed, malformed}
use durare.Execution.{is_storage_failure, record_error, storage, check, is_cancellation_for}
use durare.Execution.Latch.{record_error-IsLatched, record_error-cases}
use durare.Memory.{StepOutcome, RecordedStep}
use durare.Recorded.Encode.{encode_error}
use durare.Provider.{StateProvider}
use durare.Provider.Contract.{View, IsDurable, Writes, Same, name_at}
use durare.Context.{DurableContext, World, Act, pure, continue, answer, from_storage, checked}
use durare.Context.Calls.{
  recorded_value, write_step_outcome, record_failure, written, checkpoint, settle_result,
}
use durare.Context.Replayed.{read_outcome, read_at}
use durare.Context.Replayed.Served.{IsInterrupted}
use durare.Context.Replayed.Gate.{IsStill, IsStill-refl, IsStill-trans, Unless, Fixed}
use durare.Context.Replayed.Gate.Recorded.{Reading, recorded_value-Reading}

module _ {V S : Type 0} (view : View V S) (id : String) where
  -- The records of the workflow are kept; its position is as it was.
  abbrev pub IsGrown : DurableContext V S → DurableContext V S → Type 0
  IsGrown c d =
      ((q : ℤ) (r : RecordedStep V) → view c.store id q ≡ some r → view d.store id q ≡ some r)
      × (d.seq ≡ c.seq)
      × (d.verify ≡ none)

  abbrev pub Fixes :
      {A : Type 0}
      → (Option (RecordedStep V) → Option (Result V A))
      → String
      → ℤ
      → DurableContext V S
      → Result V A × DurableContext V S
      → Type 0
  Fixes read name seq c x =
      IsGrown c x.1 × Unless view id c x (Fixed view id read name x.0 (view x.1.store id seq))

  -- A call that records nothing.
  abbrev pub IsCalm : {A : Type 0} → DurableContext V S → Result V A × DurableContext V S → Type 0
  IsCalm c x = IsStill view id c x.1 × (IsInterrupted view id x ⊎ (x.1.execution ≡ c.execution))

  pub IsGrown-still : (c d : DurableContext V S) → IsStill view id c d → IsGrown c d
  IsGrown-still c d (st, sq, v) = ((λ q r h. st q ∙ h), sq, v)

  pub Fixes-trans :
      {A : Type 0} (read : Option (RecordedStep V) → Option (Result V A)) (name : String) (seq : ℤ)
      (c d : DurableContext V S) (x : Result V A × DurableContext V S)
      → IsStill view id c d
      → d.execution ≡ c.execution
      → Fixes read name seq d x
      → Fixes read name seq c x
  Fixes-trans read name seq c d x (st, sq, v) ex ((g, sq', v'), u) = (
    ((λ q r h. g q r (st q ∙ h)), sq' ∙ sq, v'),
    elim u [ inl l ↦ inl l | inr (ex', p) ↦ inr (ex' ∙ ex, p) ],
  )

  -- A result with nothing recorded.
  pub unrecorded-Fixes :
      {A : Type 0} (read : Option (RecordedStep V) → Option (Result V A)) (name : String) (seq : ℤ)
      (c d : DurableContext V S) (r : Result V A)
      → view c.store id seq ≡ none
      → IsStill view id c d
      → d.execution ≡ c.execution
      → Fixes read name seq c (r, d)
  unrecorded-Fixes read name seq c d r n st ex =
      (IsGrown-still c d st, inr (ex, λ m. absurd (ground (arith, ap name_at (st.0 seq ∙ n), m))))

  -- A call that records nothing, and what follows it.
  pub calm-continue :
      {A B : Type 0} (read : Option (RecordedStep V) → Option (Result V B)) (name : String)
      (seq : ℤ) (f : A → Act V S B) (c : DurableContext V S) (x : Result V A × DurableContext V S)
      → view c.store id seq ≡ none
      → IsCalm c x
      → ((a : A) (d : DurableContext V S)
          → d.verify ≡ none
          → view d.store id seq ≡ none
          → Fixes read name seq d (f a d))
      → Fixes read name seq c (continue f x)
  calm-continue read name seq f c (ok a, d) n (st, inl (b, q, l)) k = absurd (ground arith)
  calm-continue read name seq f c (ok a, d) n (st, inr ex) k =
      Fixes-trans read name seq c d (f a d) st ex (k a d st.2 (st.0 seq ∙ n))
  calm-continue read name seq f c (err e, d) n (st, inl l) k =
      (IsGrown-still c d st, inl (e, refl, l.2))
  calm-continue read name seq f c (err e, d) n (st, inr ex) k =
      unrecorded-Fixes read name seq c d (err e) n st ex

  pub checked-IsCalm : (c : DurableContext V S) → c.verify ≡ none → IsCalm c (checked c)
  unfolding check
  checked-IsCalm c v = elim (Option-cases c.execution.failure) [
    | inl h ↦ (IsStill-refl view id c v, inr refl)
    | inr (e, h) ↦ (IsStill-refl view id c v, inl (recovery_required e, ground arith, (e, h)))
  ]

  pub from_storage-IsCalm :
      {A : Type 0} (r : Result V A) (c : DurableContext V S)
      → c.verify ≡ none
      → IsCalm c (from_storage r c)
  unfolding storage
  from_storage-IsCalm (ok a) c v = (IsStill-refl view id c v, inr refl)
  from_storage-IsCalm (err e) c v = (
    IsStill-refl view id c v,
    elim (record_error-cases e c.execution) [
      | inl l ↦ inl ((record_error e c.execution).0, refl, l)
      | inr h ↦ inr h
    ],
  )

  -- a method that records nothing
  pub Same-IsCalm :
      {A : Type 0} (c : DurableContext V S) (y : Result V A × S)
      → c.verify ≡ none
      → Same view c.store y.1
      → IsCalm c (answer y c)
  Same-IsCalm c (ok a, s) v same = (((λ n. same id n), refl, v), inr refl)
  Same-IsCalm c (err e, s) v same = (
    ((λ n. same id n), refl, v),
    elim (record_error-cases e c.execution) [
      | inl l ↦ inl ((record_error e c.execution).0, refl, l)
      | inr h ↦ inr h
    ],
  )

  -- A refused write.
  pub refused-Fixes :
      {A : Type 0} (read : Option (RecordedStep V) → Option (Result V A)) (name : String) (seq : ℤ)
      (c : DurableContext V S) (e : Error V) (s : S)
      → c.verify ≡ none
      → view c.store id seq ≡ none
      → ((w : String) (q : ℤ) (r : RecordedStep V)
          → view c.store w q ≡ some r
          → view s w q ≡ some r)
      → (is_storage_failure e ≡ true) ⊎ Same view c.store s
      → Fixes read name seq c (answer (err e, s) c)
  refused-Fixes read name seq c e s v n keeps (inl h) = (
    ((λ q r g. keeps id q r g), refl, v),
    inl ((record_error e c.execution).0, refl, record_error-IsLatched e c.execution h),
  )
  refused-Fixes {A} read name seq c e s v n keeps (inr same) =
      calm-continue read name seq (λ (a : A). pure a) c (answer (err e, s) c) n
        (Same-IsCalm c (err e, s) v same)
        (λ a d v' n'. unrecorded-Fixes read name seq d d (ok a) n' (IsStill-refl view id d v') refl)
