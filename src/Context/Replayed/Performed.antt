-- ===== src/Context/Replayed/Performed.antt =====
-- Step bodies, retries and the gate of src/context.rs in an ordinary run.
use durare.Prelude.{
  ℤ, ℕ, zero, suc, true, String, Option, none, some, ◌≡◌, inl, inr, refl, sym, subst, ap, ◌∙◌,
  arith, Bool-cases, string_eq,
}
use durare.Errors.{Error, Result, ok, err, recovery_required, observation_failed}
use durare.Host.{Host, Parsed}
use durare.Execution.{check, body_error, is_cancellation_for, is_scope_violation, interrupt}
use durare.Execution.Latch.{IsLatched, interrupt-IsLatched}
use durare.Memory.{RecordedStep}
use durare.Provider.{StateProvider}
use durare.Provider.Contract.{View, IsDurable, name_at}
use durare.Context.{DurableContext, World, Act, raise, continue}
use durare.Context.Calls.{
  StepOptions, run_body, record_failure, settle, settle_result, interrupted, on_failure,
  attempt_with, run_with_retries, is_interruption, is_retryable_by,
}
use durare.Context.Replayed.{map_ok, map_option, read_at}
use durare.Context.Replayed.Gate.{IsStill-refl, IsStill-trans, Gates}
use durare.Context.Replayed.Live.{IsGrown-still, Fixes, Fixes-trans, IsCalm}
use durare.Context.Replayed.Live.Recording.{settle_result-Fixes}

module _ {V T S : Type 0} ⦃j : Host V⦄ (view : View V S) (p : StateProvider V S) (w : World V T S)
    (id : String) (durable : IsDurable view p)
    -- the step bodies leave the records of this workflow alone
    (alone : (seq : ℤ) (attempt : ℕ) (s : S) (q : ℤ)
      → view (w.live seq attempt s).1 id q ≡ view s id q) where
  pub run_body-IsCalm :
      (seq : ℤ) (name : String) (attempt : ℕ) (c : DurableContext V S)
      → c.verify ≡ none
      → IsCalm view id c (run_body p w id seq name attempt c)
  unfolding run_body
  run_body-IsCalm seq name attempt c v = (((λ q. alone seq attempt c.store q), refl, v), inr refl)

  interrupted-IsCalm :
      (e : Error V) (c : DurableContext V S)
      → c.verify ≡ none
      → is_interruption p w id e ≡ true
      → IsCalm view id c (interrupted p w id e c)
  unfolding interrupted body_error
  interrupted-IsCalm (recovery_required cause) c v h = (
    IsStill-refl view id c v,
    inl (
      (interrupt (recovery_required cause) c.execution).0,
      refl,
      interrupt-IsLatched (recovery_required cause) c.execution,
    ),
  )
  interrupted-IsCalm (observation_failed cause) c v h = (
    IsStill-refl view id c v,
    inl (
      (interrupt (observation_failed cause) c.execution).0,
      refl,
      interrupt-IsLatched (observation_failed cause) c.execution,
    ),
  )
  interrupted-IsCalm _ c v h = absurd (ground arith)

  raise-IsCalm :
      (e : Error V) (c : DurableContext V S)
      → c.verify ≡ none
      → IsCalm view id c (raise {A = T} e c)
  raise-IsCalm e c v = (IsStill-refl view id c v, inr refl)

  on_failure-IsCalm :
      (opts : StepOptions V) (again : Act V S T) (e : Error V) (c : DurableContext V S)
      → c.verify ≡ none
      → ((d : DurableContext V S) → d.verify ≡ none → IsCalm view id d (again d))
      → IsCalm view id c (on_failure p w id opts again e c)
  unfolding on_failure
  on_failure-IsCalm opts again e c v k = elim (Bool-cases (is_interruption p w id e)) [
    | inl a ↦ rw a (interrupted-IsCalm e c v a)
    | inr a ↦ elim (Bool-cases (is_cancellation_for e id)) [
      | inl b ↦ rw (a, b) (raise-IsCalm e c v)
      | inr b ↦ elim (Bool-cases (is_scope_violation e)) [
        | inl s ↦ rw (a, b, s) (raise-IsCalm e c v)
        | inr s ↦ elim (Bool-cases (is_retryable_by p w id opts.retry_if e)) [
          | inl r ↦ rw (a, b, s, r) (k c v)
          | inr r ↦ rw (a, b, s, r) (raise-IsCalm e c v)
        ]
      ]
    ]
  ]

  -- an attempt, and what follows its failure
  failed-IsCalm :
      (failed : Error V → Act V S T) (c : DurableContext V S) (x : Result V T × DurableContext V S)
      → IsCalm view id c x
      → ((e : Error V) (d : DurableContext V S) → d.verify ≡ none → IsCalm view id d (failed e d))
      → x.1.execution ≡ c.execution
      → IsCalm view id {A = T} c (elim x.0 [ ok v ↦ (ok v, x.1) | err e ↦ failed e x.1 ])
  failed-IsCalm failed c (ok a, d) h k ex = h
  failed-IsCalm failed c (err e, d) (st, l) k ex =
      let (st', l') = k e d st.2 in
      (
        IsStill-trans view id c d (failed e d).1 st st',
        elim l' [ inl a ↦ inl a | inr b ↦ inr (b ∙ ex) ],
      )

  attempt_with-IsCalm :
      (seq : ℤ) (opts : StepOptions V) (attempt : ℕ) (failed : Error V → Act V S T)
      (c : DurableContext V S)
      → c.verify ≡ none
      → ((e : Error V) (d : DurableContext V S) → d.verify ≡ none → IsCalm view id d (failed e d))
      → IsCalm view id c (attempt_with p w id seq opts attempt failed c)
  unfolding attempt_with run_body
  attempt_with-IsCalm seq opts attempt failed c v k =
      failed-IsCalm failed c (run_body p w id seq opts.name attempt c)
        (run_body-IsCalm seq opts.name attempt c v) k refl

  pub run_with_retries-IsCalm :
      (seq : ℤ) (opts : StepOptions V) (left attempt : ℕ) (c : DurableContext V S)
      → c.verify ≡ none
      → IsCalm view id c (run_with_retries p w id seq opts left attempt c)
  unfolding run_with_retries
  run_with_retries-IsCalm seq opts zero attempt c v =
      attempt_with-IsCalm seq opts attempt (λ e. on_failure p w id opts (raise e) e) c v
        (λ e d v'. on_failure-IsCalm opts (raise e) e d v' (λ f u. raise-IsCalm e f u))
  run_with_retries-IsCalm seq opts (suc left) attempt c v =
      attempt_with-IsCalm seq opts attempt
        (λ e. on_failure p w id opts (run_with_retries p w id seq opts left (suc attempt)) e) c v
        (λ e d v'.
          on_failure-IsCalm opts (run_with_retries p w id seq opts left (suc attempt)) e d v'
            (λ f u. run_with_retries-IsCalm seq opts left (suc attempt) f u))

  -- A failure that is latched ends a call.
  record_failure-latched :
      {A : Type 0} (decode : V → Parsed A) (seq : ℤ) (name : String) (e b : Error V)
      (started : Option ℤ) (c : DurableContext V S)
      → c.execution.failure ≡ some b
      → record_failure p w id decode seq name e started c ≡ (err (recovery_required b), c)
  unfolding record_failure check
  record_failure-latched decode seq name e b started c h = ground (arith, h)

  settle_result-latched :
      (decode : V → Parsed T) (seq : ℤ) (name : String) (e : Error V) (c : DurableContext V S)
      → IsLatched c.execution
      → (b : Error V) × (settle_result p w id decode seq name (err e) c ≡ (err b, c))
  unfolding settle_result
  settle_result-latched decode seq name e c (b, l) = elim (Bool-cases (is_cancellation_for e id)) [
    | inl h ↦ (e, ground (arith, h))
    | inr h ↦ (
      recovery_required b,
      rw h (record_failure-latched decode seq name e b (some (w.started seq)) c l),
    )
  ]

  settled-Fixes :
      (decode : V → Parsed T) (seq : ℤ) (name : String) (c : DurableContext V S)
      (x : Result V T × DurableContext V S)
      → view c.store id seq ≡ none
      → IsCalm view id c x
      → Fixes view id
          (read_at decode name)
          name
          seq
          c
          (settle_result p w id decode seq name x.0 x.1)
  settled-Fixes decode seq name c (r, d) n (st, inr ex) =
      Fixes-trans view id (read_at decode name) name seq c d
        (settle_result p w id decode seq name r d) st ex
        (settle_result-Fixes view p w id durable decode seq name r d st.2 (st.0 seq ∙ n))
  settled-Fixes decode seq name c (r, d) n (st, inl (e, q, l)) =
      let (b, z) = settle_result-latched decode seq name e d l in
      subst (Fixes view id (read_at decode name) name seq c)
        (sym (ap (λ y. settle_result p w id decode seq name y d) q ∙ z))
        (IsGrown-still view id c d st, inl (b, refl, l))

  pub settle-Fixes :
      (decode : V → Parsed T) (seq : ℤ) (name : String) (body : Act V S T) (c : DurableContext V S)
      → view c.store id seq ≡ none
      → IsCalm view id c (body c)
      → Fixes view id (read_at decode name) name seq c (settle p w id decode seq name body c)
  unfolding settle
  settle-Fixes decode seq name body c n h = settled-Fixes decode seq name c (body c) n h

  -- A replayed value, or the live half.
  pub gate-Fixes :
      {A B : Type 0} (g : A → B) (read : Option (RecordedStep V) → Option (Result V A))
      (read' : Option (RecordedStep V) → Option (Result V B)) (name : String) (seq : ℤ)
      (c : DurableContext V S) (f : Option A → Act V S B)
      (x : Result V (Option A) × DurableContext V S)
      → ((o : Option (RecordedStep V)) → read' o ≡ map_option (map_ok g) (read o))
      → ((a : A) (d : DurableContext V S) → f (some a) d ≡ (ok (g a), d))
      → Gates view id read name (view c.store id seq) c x
      → ((d : DurableContext V S)
          → d.verify ≡ none
          → view d.store id seq ≡ none
          → Fixes view id read' name seq d (f none d))
      → Fixes view id read' name seq c (continue f x)
  gate-Fixes g read read' name seq c f (ok (some a), d) m s (st, inl (b, q, l)) k =
      absurd (ground arith)
  gate-Fixes g read read' name seq c f (ok (some a), d) m s (st, inr (ex, q)) k =
      subst (Fixes view id read' name seq c) (sym (s a d)) (
        IsGrown-still view id c d st,
        inr (
          ex,
          λ y.
              m (view d.store id seq)
              ∙ ap (λ o. map_option (map_ok g) (read o)) (st.0 seq)
              ∙ ap (map_option (map_ok g)) q,
        ),
      )
  gate-Fixes g read read' name seq c f (ok none, d) m s (st, inl (b, q, l)) k =
      absurd (ground arith)
  gate-Fixes g read read' name seq c f (ok none, d) m s (st, inr (ex, n)) k =
      Fixes-trans view id read' name seq c d (f none d) st ex (k d st.2 (st.0 seq ∙ n))
  gate-Fixes g read read' name seq c f (err e, d) m s (st, inl l) k =
      (IsGrown-still view id c d st, inl (e, refl, l.2))
  gate-Fixes g read read' name seq c f (err e, d) m s (st, inr (ex, q)) k = (
    IsGrown-still view id c d st,
    inr (
      ex,
      λ y.
          m (view d.store id seq)
          ∙ ap (λ o. map_option (map_ok g) (read o)) (st.0 seq)
          ∙ ap (map_option (map_ok g)) (q (sym (ap name_at (st.0 seq)) ∙ y)),
    ),
  )
