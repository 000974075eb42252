-- ===== src/Context/Replayed/Gate.antt =====
-- The replay gate of src/context.rs in an ordinary run: the answers it may give, against the record
-- at the position.
pub mod Recorded
pub mod Guard
use durare.Prelude.{
  ℤ, true, false, String, Option, none, some, ◌≡◌, ◌⊎◌, inl, inr, refl, sym, subst, ap, ◌∙◌, arith,
  Bool-cases, ◌==◌, ==_refl, string_eq,
}
use durare.Errors.{Error, Result, ok, err, unexpected_step, cancelled}
use durare.Host.{Host, Parsed}
use durare.Recorded.{try_from_parts}
use durare.Recorded.Unreadable.{try_from_parts-storage}
use durare.Workflow.{WorkflowStatus, status_cancelled}
use durare.Replay.{Verification}
use durare.Execution.{is_storage_failure, record_error, storage}
use durare.Execution.Latch.{record_error-IsLatched}
use durare.Memory.{StepOutcome, RecordedStep}
use durare.Memory.StepOutcome.{output, failure}
use durare.Provider.{StateProvider}
use durare.Provider.Contract.{View, IsDurable, Reads, ReadsOther, name_at}
use durare.Context.{
  DurableContext, World, Act, pure, raise, continue, answer, from_storage, booked, from_parsed,
}
use durare.Context.Calls.{
  found, served_value, serve_recorded, check_recorded, recorded_value, refuse_live_work,
  refuse_cancelled, guarded, replay_or_guard,
}
use durare.Context.Replayed.{map_ok, read_outcome, failure_value, read_at}
use durare.Context.Replayed.Served.{SameTable, IsInterrupted}

module _ {V S : Type 0} (view : View V S) (id : String) where
  -- The run is no verification, and its position and the records of its workflow are as they were.
  abbrev pub IsStill : DurableContext V S → DurableContext V S → Type 0
  IsStill c d = SameTable view id c d × (d.seq ≡ c.seq) × (d.verify ≡ none)

  -- A failure was latched, or nothing was and `P` holds.
  abbrev pub Unless :
      {A : Type 0} → DurableContext V S → Result V A × DurableContext V S → Type 0 → Type 0
  Unless c x P = IsInterrupted view id x ⊎ ((x.1.execution ≡ c.execution) × P)

  -- If the position holds a record of that name, the result is what is read from it.
  abbrev pub Fixed :
      {A : Type 0}
      → (Option (RecordedStep V) → Option (Result V A))
      → String
      → Result V A
      → Option (RecordedStep V)
      → Type 0
  Fixed read name r o = name_at o ≡ some name → read o ≡ some r

  -- What the gate answers, against the record at the position.
  abbrev pub GateAnswer :
      {A : Type 0}
      → (Option (RecordedStep V) → Option (Result V A))
      → String
      → Option (RecordedStep V)
      → Result V (Option A)
      → Type 0
  GateAnswer read name o (ok (some a)) = read o ≡ some (ok a)
  GateAnswer read name o (ok none) = o ≡ none
  GateAnswer read name o (err e) = Fixed read name (err e) o

  abbrev pub Gates :
      {A : Type 0}
      → (Option (RecordedStep V) → Option (Result V A))
      → String
      → Option (RecordedStep V)
      → DurableContext V S
      → Result V (Option A) × DurableContext V S
      → Type 0
  Gates read name o c x = IsStill c x.1 × Unless c x (GateAnswer read name o x.0)

  pub IsStill-refl : (c : DurableContext V S) → c.verify ≡ none → IsStill c c
  IsStill-refl c v = ((λ q. refl), refl, v)

  pub IsStill-trans : (c d e : DurableContext V S) → IsStill c d → IsStill d e → IsStill c e
  IsStill-trans c d e (st, sq, v) (st', sq', v') = ((λ q. st' q ∙ st q), sq' ∙ sq, v')

  -- an answer of the provider, and what follows it
  pub answer-chain :
      {A B : Type 0} (f : A → Act V S B) (a : A) (c : DurableContext V S) (y : Result V A × S)
      → c.verify ≡ none
      → Reads view a c.store y
      → (P : Result V B → Type 0)
      → ((d : DurableContext V S)
          → IsStill c d
          → d.execution ≡ c.execution
          → IsStill d (f a d).1 × Unless d (f a d) (P (f a d).0))
      → IsStill c (continue f (answer y c)).1
        × Unless c (continue f (answer y c)) (P (continue f (answer y c)).0)
  answer-chain f a c (ok b, s) v (q, same) P k =
      let d = record c { store = s } in
      let still : IsStill c d = ((λ n. same id n), refl, v) in
      let (st, u) = k d still refl in
      subst (λ z. IsStill c (f z d).1 × Unless c (f z d) (P (f z d).0)) (sym q)
        (IsStill-trans c d (f a d).1 still st, u)
  answer-chain f a c (err e, s) v (h, same) P k = (
    ((λ n. same id n), refl, v),
    inl ((record_error e c.execution).0, refl, record_error-IsLatched e c.execution h),
  )
