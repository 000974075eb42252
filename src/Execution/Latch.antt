-- ===== src/Execution/Latch.antt =====
-- The latch of src/execution.rs: the errors that set it.
use durare.Prelude.{
  true, false, String, none, some, ◌≡◌, refl, sym, subst, arith, Option-cases, Bool-cases, ap, ◌⊎◌,
  inl, inr,
}
use durare.Errors.{Error, recovery_required, observation_failed, db, migrate, serde, serialization}
use durare.Execution.{
  Execution, Place, is_storage_failure, provider_error, recovery_error, interrupt, record_error,
  storage, cause_of, refuse_inside_body, check_call_poll, check, record_mapped,
}
use durare.Execution

module _ {V : Type 0} where
  abbrev pub IsLatched : Execution V → Type 0
  IsLatched x = (e : Error V) × (x.failure ≡ some e)

  pub interrupt-IsLatched : (e : Error V) (x : Execution V) → IsLatched (interrupt e x).1
  unfolding interrupt
  interrupt-IsLatched e x = elim (Option-cases x.failure) [
    | inl h ↦ (cause_of e, ground arith)
    | inr (first, h) ↦ (first, ground arith)
  ]

  provider_error-storage :
      (e : Error V)
      → is_storage_failure e ≡ true
      → (cause : Error V) × (provider_error e ≡ recovery_required cause)
  unfolding provider_error is_storage_failure recovery_error
  provider_error-storage (recovery_required cause) h = (cause, refl)
  provider_error-storage (observation_failed cause) h = (cause, refl)
  provider_error-storage (db e) h = (db e, refl)
  provider_error-storage (migrate e) h = (migrate e, refl)
  provider_error-storage (serde e) h = (serde e, refl)
  provider_error-storage (serialization e) h = (serialization e, refl)
  provider_error-storage e h = absurd (ground arith)

  record_mapped-IsLatched :
      (e : Error V) (x : Execution V) (cause : Error V)
      → e ≡ recovery_required cause
      → IsLatched (record_mapped e x).1
  record_mapped-IsLatched e x cause h =
      subst (λ z. IsLatched (record_mapped z x).1) (sym h)
        (interrupt-IsLatched (recovery_required cause) x)

  -- A storage failure is latched.
  pub record_error-IsLatched :
      (e : Error V) (x : Execution V) → is_storage_failure e ≡ true → IsLatched (record_error e x).1
  unfolding record_error
  record_error-IsLatched e x h =
      let (cause, q) = provider_error-storage e h in
      record_mapped-IsLatched (provider_error e) x cause q

  -- Where nothing is latched, a call is refused for its place alone.
  pub refuse_inside_body-place :
      (at : Place) (operation : String) (x : Execution V)
      → x.failure ≡ none
      → refuse_inside_body at operation x
        ≡ refuse_inside_body at operation (Execution.new x.workflow_id)
  unfolding refuse_inside_body
  refuse_inside_body-place Place.in_workflow operation x h = ground arith
  refuse_inside_body-place Place.in_step_body operation x h = ground arith
  refuse_inside_body-place Place.elsewhere operation x h = ground arith

  pub check_call_poll-place :
      (at : Place) (operation : String) (x : Execution V)
      → x.failure ≡ none
      → check_call_poll at operation x ≡ check_call_poll at operation (Execution.new x.workflow_id)
  unfolding check_call_poll
  check_call_poll-place Place.in_workflow operation x h = ground arith
  check_call_poll-place Place.in_step_body operation x h = ground arith
  check_call_poll-place Place.elsewhere operation x h = ground arith

  record_mapped-other :
      (e : Error V) (x : Execution V) → is_storage_failure e ≡ false → record_mapped e x ≡ (e, x)
  unfolding is_storage_failure
  record_mapped-other (recovery_required cause) x h = absurd (ground arith)
  record_mapped-other _ x h = refl

  -- Any other error is passed on and latches nothing.
  pub record_error-other :
      (e : Error V) (x : Execution V) → is_storage_failure e ≡ false → record_error e x ≡ (e, x)
  unfolding record_error provider_error
  record_error-other e x h = rw h (record_mapped-other e x h)

  -- An error of the provider is latched or leaves the execution as it was.
  pub record_error-cases :
      (e : Error V) (x : Execution V) → IsLatched (record_error e x).1 ⊎ ((record_error e x).1 ≡ x)
  record_error-cases e x = elim (Bool-cases (is_storage_failure e)) [
    | inl h ↦ inl (record_error-IsLatched e x h)
    | inr h ↦ inr (ap (λ y. y.1) (record_error-other e x h))
  ]
