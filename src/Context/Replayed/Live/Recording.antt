-- ===== src/Context/Replayed/Live/Recording.antt =====
-- The writes of a call of src/context.rs in an ordinary run, and the answers read from them.
use durare.Prelude.{
  ℤ, String, Option, none, some, ◌≡◌, inl, inr, refl, sym, subst, ◌∙◌, arith, Bool-cases, ==_refl,
  string_eq,
}
use durare.Errors.{serde, Error, Result, ok, err}
use durare.Host.{Host, Parsed, parsed, malformed}
use durare.Execution.{is_cancellation_for}
use durare.Memory.{StepOutcome}
use durare.Recorded.Encode.{encode_error}
use durare.Provider.{StateProvider}
use durare.Provider.Contract.{View, IsDurable, Writes}
use durare.Context.{DurableContext, World, Act, continue, answer, from_storage, checked}
use durare.Context.Calls.{
  recorded_value, write_step_outcome, record_failure, written, checkpoint, settle_result,
}
use durare.Context.Replayed.{read_outcome, read_at}
use durare.Context.Replayed.Gate.{IsStill-refl, IsStill-trans}
use durare.Context.Replayed.Gate.Recorded.{Reading, recorded_value-Reading}
use durare.Context.Replayed.Live.{
  Fixes, IsCalm, IsGrown, calm-continue, checked-IsCalm, from_storage-IsCalm, refused-Fixes,
  unrecorded-Fixes,
}

module _ {V T S : Type 0} ⦃j : Host V⦄ (view : View V S) (p : StateProvider V S) (w : World V T S)
    (id : String) (durable : IsDurable view p) where
  -- A write that succeeded, and the value that its outcome gives.
  wrote-Fixes :
      {A : Type 0} (decode : V → Parsed A) (name : String) (seq : ℤ) (o : StepOutcome V)
      (c d : DurableContext V S) (x : Result V A × DurableContext V S)
      → IsGrown view id c d
      → d.execution ≡ c.execution
      → view d.store id seq ≡ some (record { name = name; outcome = o })
      → Reading view p w id durable {A = A} (read_outcome decode o) d x
      → Fixes view id (read_at decode name) name seq c x
  unfolding read_at
  wrote-Fixes decode name seq o c d x (g, sq, v) ex at (inl ((st, sq', v'), l)) =
      (((λ q r h. st q ∙ g q r h), sq' ∙ sq, v'), inl l)
  wrote-Fixes decode name seq o c d x (g, sq, v) ex at (inr (r, q, e)) =
      subst (Fixes view id (read_at decode name) name seq c) (sym e)
        ((g, sq, v), inr (ex, λ m. rw at (rw (==_refl name) q)))

  pub answered-Fixes :
      {A : Type 0} (decode : V → Parsed A) (name : String) (seq : ℤ) (value : V)
      (error : Option String) (c : DurableContext V S) (y : Result V (StepOutcome V) × S)
      → c.verify ≡ none
      → view c.store id seq ≡ none
      → Writes view id seq name value error c.store y
      → Fixes view id
          (read_at decode name)
          name
          seq
          c
          (continue (recorded_value p w id decode) (answer y c))
  answered-Fixes decode name seq value error c (ok o, s) v n (at, keeps, k) =
      let d = record c { store = s } in
      wrote-Fixes decode name seq o c d (recorded_value p w id decode o d)
        ((λ q r h. keeps id q r h), refl, v) refl at
        (recorded_value-Reading view p w id durable decode o d v)
  answered-Fixes decode name seq value error c (err e, s) v n (keeps, k) =
      refused-Fixes view id (read_at decode name) name seq c e s v n keeps k

  write_step_outcome-Fixes :
      {A : Type 0} (decode : V → Parsed A) (seq : ℤ) (name : String) (value : V)
      (error : Option String) (started : Option ℤ) (c : DurableContext V S)
      → c.verify ≡ none
      → view c.store id seq ≡ none
      → Fixes view id
          (read_at decode name)
          name
          seq
          c
          (write_step_outcome p w id decode seq name value error started c)
  unfolding write_step_outcome
  write_step_outcome-Fixes decode seq name value error started c v n =
      answered-Fixes decode name seq value error c
        (p.record_step_result id seq name value error started (some w.executor_id) (w.tick seq)
          c.store)
        v n
        (durable.record_step_result_lem id seq name value error started (some w.executor_id)
          (w.tick seq) c.store)

  -- two calls that record nothing
  pub IsCalm-chain :
      {A : Type 0} (m : Act V S (Unit {0})) (f : Act V S A) (c : DurableContext V S)
      (x : Result V (Unit {0}) × DurableContext V S)
      → IsCalm view id c x
      → ((d : DurableContext V S) → d.verify ≡ none → IsCalm view id d (f d))
      → IsCalm view id c (continue (λ u. f) x)
  IsCalm-chain m f c (ok u, d) (st, inl (b, q, l)) k = absurd (ground arith)
  IsCalm-chain m f c (ok u, d) (st, inr ex) k =
      let (st', l) = k d st.2 in
      (IsStill-trans view id c d (f d).1 st st', elim l [ inl a ↦ inl a | inr b ↦ inr (b ∙ ex) ])
  IsCalm-chain m f c (err e, d) (st, inl l) k = (st, inl (e, refl, l.2))
  IsCalm-chain m f c (err e, d) (st, inr ex) k = (st, inr ex)

  pub record_failure-Fixes :
      {A : Type 0} (decode : V → Parsed A) (seq : ℤ) (name : String) (e : Error V)
      (started : Option ℤ) (c : DurableContext V S)
      → c.verify ≡ none
      → view c.store id seq ≡ none
      → Fixes view id
          (read_at decode name)
          name
          seq
          c
          (record_failure p w id decode seq name e started c)
  unfolding record_failure
  record_failure-Fixes decode seq name e started c v n =
      calm-continue view id (read_at decode name) name seq
        (λ text. write_step_outcome p w id decode seq name j.null (some text) started) c
        (continue (λ u. from_storage (encode_error w.serializer e)) (checked c)) n
        (IsCalm-chain checked (from_storage (encode_error w.serializer e)) c (checked c)
          (checked-IsCalm view id c v)
          (λ d v'. from_storage-IsCalm view id (encode_error w.serializer e) d v'))
        (λ text d v' n'.
          write_step_outcome-Fixes decode seq name j.null (some text) started d v' n')

  written-Fixes :
      {A : Type 0} (decode : V → Parsed A) (seq : ℤ) (name : String) (encoded : Parsed V)
      (started : Option ℤ) (c : DurableContext V S)
      → c.verify ≡ none
      → view c.store id seq ≡ none
      → Fixes view id
          (read_at decode name)
          name
          seq
          c
          (written p w id decode seq name encoded started c)
  unfolding written
  written-Fixes decode seq name (parsed value) started c v n =
      write_step_outcome-Fixes decode seq name value none started c v n
  written-Fixes decode seq name (malformed e) started c v n =
      record_failure-Fixes decode seq name (serde e) started c v n

  pub checkpoint-Fixes :
      {A : Type 0} (decode : V → Parsed A) (seq : ℤ) (name : String) (encoded : Parsed V)
      (started : Option ℤ) (c : DurableContext V S)
      → c.verify ≡ none
      → view c.store id seq ≡ none
      → Fixes view id
          (read_at decode name)
          name
          seq
          c
          (checkpoint p w id decode seq name encoded started c)
  unfolding checkpoint
  checkpoint-Fixes decode seq name encoded started c v n =
      calm-continue view id (read_at decode name) name seq
        (λ u. written p w id decode seq name encoded started) c (checked c) n
        (checked-IsCalm view id c v)
        (λ u d v' n'. written-Fixes decode seq name encoded started d v' n')

  pub settle_result-Fixes :
      (decode : V → Parsed T) (seq : ℤ) (name : String) (r : Result V T) (c : DurableContext V S)
      → c.verify ≡ none
      → view c.store id seq ≡ none
      → Fixes view id (read_at decode name) name seq c (settle_result p w id decode seq name r c)
  unfolding settle_result
  settle_result-Fixes decode seq name (ok a) c v n =
      checkpoint-Fixes decode seq name (w.to_value a) (some (w.started seq)) c v n
  settle_result-Fixes decode seq name (err e) c v n = elim (Bool-cases (is_cancellation_for e id)) [
    | inl h ↦ rw h (
        unrecorded-Fixes view id (read_at decode name) name seq c c (err e) n
          (IsStill-refl view id c v) refl)
    | inr h ↦ rw h (record_failure-Fixes decode seq name e (some (w.started seq)) c v n)
  ]
