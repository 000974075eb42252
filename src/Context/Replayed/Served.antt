-- ===== src/Context/Replayed/Served.antt =====
-- Calls of src/context.rs whose record is there: the chains of the gate, in any run.
pub mod Gate
pub mod Performed
use durare.Prelude.{
  ℤ, String, Option, none, some, ◌≡◌, ◌⊎◌, inl, inr, refl, sym, subst, ap, ◌∙◌, arith, Bool-cases,
  Option-cases, ==_refl, ==→≡, ◌==◌, string_eq,
}
use durare.Errors.{Error, Result, ok, err}
use durare.Host.{Host, Parsed, parsed}
use durare.Recorded.{try_from_parts}
use durare.Replay.{Verification, served_record}
use durare.Execution.{Execution, Place, is_storage_failure, record_error}
use durare.Execution.Latch.{IsLatched, record_error-IsLatched}
use durare.Memory.{StepOutcome, RecordedStep}
use durare.Memory.StepOutcome.{output, failure}
use durare.Provider.{StateProvider}
use durare.Provider.Contract.{View, IsDurable, Reads}
use durare.Context.{
  DurableContext, World, Act, pure, raise, continue, answer, stored, from_storage, booked, ◌>>=◌,
}
use durare.Context.Calls
use durare.Context.Calls.{
  found, served_value, serve_recorded, check_recorded, recorded_value, guarded, replay_or_guard,
  or_live, effect, durable_value_at, checkpoint,
}
use durare.Context.Body.{
  Operation, Answer, value, done, step, step_with, durable_value, sleep, send, send_bulk,
  set_workflow_attributes, set_event, write_stream, close_stream, perform, as_value, as_done,
  record_name,
}
use durare.Context.Replayed.{map_option, map_ok, read_outcome, failure_value, read_at, serve}

-- What a mapped option comes from.
pub some_map :
    {A B : Type 0} (f : A → B) (o : Option A) (b : B)
    → map_option f o ≡ some b
    → (a : A) × (o ≡ some a) × (f a ≡ b)
some_map f none b h = absurd (ground arith)
some_map f (some a) b h = (a, refl, ground arith)

module _ {V S : Type 0} (view : View V S) (id : String) where
  abbrev pub SameTable : DurableContext V S → DurableContext V S → Type 0
  SameTable c d = (q : ℤ) → view d.store id q ≡ view c.store id q

  -- The call failed on the storage, which is latched.
  abbrev pub IsInterrupted : {A : Type 0} → Result V A × DurableContext V S → Type 0
  IsInterrupted x = (e : Error V) × (x.0 ≡ err e) × IsLatched x.1.execution

  -- The call gave this result and changed nothing but what a verification books.
  abbrev pub Serves :
      {A : Type 0} → Result V A → DurableContext V S → Result V A × DurableContext V S → Type 0
  Serves r c x =
      SameTable c x.1
      × (x.1.seq ≡ c.seq)
      × (IsInterrupted x ⊎ ((x.0 ≡ r) × (x.1.execution ≡ c.execution)))

  Serves-trans :
      {A : Type 0} (r : Result V A) (x : Result V A × DurableContext V S) (c d : DurableContext V S)
      → SameTable c d
      → d.seq ≡ c.seq
      → d.execution ≡ c.execution
      → Serves r d x
      → Serves r c x
  Serves-trans r x c d st sq ex (st', sq', inl l) = ((λ q. st' q ∙ st q), sq' ∙ sq, inl l)
  Serves-trans r x c d st sq ex (st', sq', inr (u, v)) =
      ((λ q. st' q ∙ st q), sq' ∙ sq, inr (u, v ∙ ex))

  -- the rest of a chain
  pub Serves-continue :
      {A B : Type 0} (f : A → Act V S B) (a : A) (r : Result V B) (c : DurableContext V S)
      (x : Result V A × DurableContext V S)
      → Serves (ok a) c x
      → ((d : DurableContext V S) → SameTable c d → Serves r d (f a d))
      → Serves r c (continue f x)
  Serves-continue f a r c (y, d) (st, sq, inl (e, q, l)) k =
      subst (λ z. Serves r c (continue f (z, d))) (sym q) (st, sq, inl (e, refl, l))
  Serves-continue f a r c (y, d) (st, sq, inr (q, ex)) k =
      subst (λ z. Serves r c (continue f (z, d))) (sym q)
        (Serves-trans r (f a d) c d st sq ex (k d st))

  pub Serves-continue_err :
      {A B : Type 0} (f : A → Act V S B) (e : Error V) (c : DurableContext V S)
      (x : Result V A × DurableContext V S)
      → Serves (err e) c x
      → Serves (err e) c (continue f x)
  Serves-continue_err f e c (y, d) (st, sq, inl (e', q, l)) =
      subst (λ z. Serves (err e) c (continue f (z, d))) (sym q) (st, sq, inl (e', refl, l))
  Serves-continue_err f e c (y, d) (st, sq, inr (q, ex)) =
      subst (λ z. Serves (err e) c (continue f (z, d))) (sym q) (st, sq, inr (refl, ex))

  -- The same, whatever the first result was.
  pub Serves-chain :
      {A B : Type 0} (f : A → Act V S B) (g : A → B) (r : Result V A) (c : DurableContext V S)
      (x : Result V A × DurableContext V S)
      → Serves r c x
      → ((a : A) (d : DurableContext V S) → SameTable c d → Serves (ok (g a)) d (f a d))
      → Serves (map_ok g r) c (continue f x)
  Serves-chain f g (ok a) c x h k = Serves-continue f a (ok (g a)) c x h (k a)
  Serves-chain f g (err e) c x h k = Serves-continue_err f e c x h

  pub pure-Serves : {A : Type 0} (a : A) (c : DurableContext V S) → Serves (ok a) c (pure a c)
  pure-Serves a c = ((λ q. refl), refl, inr (refl, refl))

  pub booked-SameTable :
      (f : Verification → Verification) (c : DurableContext V S)
      → SameTable c (booked f c)
        × ((booked f c).seq ≡ c.seq)
        × ((booked f c).execution ≡ c.execution)
  booked-SameTable f c = elim (Option-cases c.verify) [
    | inl h ↦ ((λ q. ground arith), ground arith, ground arith)
    | inr (v, h) ↦ ((λ q. ground arith), ground arith, ground arith)
  ]

  -- A read of the provider gives what the table says.
  pub answer-Serves :
      {A : Type 0} (a : A) (c : DurableContext V S) (y : Result V A × S)
      → Reads view a c.store y
      → Serves (ok a) c (answer y c)
  answer-Serves a c (ok b, s') (q, same) = ((λ n. same id n), refl, inr (ap ok q, refl))
  answer-Serves a c (err e, s') (h, same) = (
    (λ n. same id n),
    refl,
    inl ((record_error e c.execution).0, refl, record_error-IsLatched e c.execution h),
  )
