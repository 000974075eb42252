-- ===== src/Memory/Steps/Checkpoints.antt =====
-- The contract of `record_step_result` of src/memory.rs: first writes, retries and rivals.
use durare.Prelude.{
  ℤ, true, false, String, Option, none, some, ◌≡◌, refl, ◌==◌, ◌&&◌, if◌then◌else◌, string_eq,
  option_eq, int_eq, pair_eq, arith, Option-cases, inl, inr, ==_refl, ==→≡,
}
use durare.Map
use durare.Map.Laws.{get-insert_self}
use durare.Errors.{ok, err, unexpected_step, workflow_conflict}
use durare.Host.{Host, DateTime, json_eq}
use durare.Memory.{Inner, StepRow, StepOutcome, step_row_outcome}
use durare.Memory.Steps.{
  get_step_result, outcome_row, same_write, refresh_executor, record_step_result,
}

module _ {V : Type 0} ⦃j : Host V⦄ where
  pub steps-refresh_executor :
      (workflow_id : String) (executor : Option String) (g : Inner V)
      → (refresh_executor workflow_id executor g).steps ≡ g.steps
  unfolding refresh_executor
  steps-refresh_executor workflow_id none g = refl
  steps-refresh_executor workflow_id (some executor) g = ground arith

  same_write_trans : (a b c : StepRow V) → same_write a b ≡ true → same_write a c ≡ same_write b c
  unfolding same_write
  same_write_trans a b c h =
      ground
        (arith, ==→≡ a.output b.output, ==→≡ a.error b.error, ==→≡ a.started_at_ms b.started_at_ms)

  module _ (workflow_id : String) (seq : ℤ) (name : String) (value : V) (error : Option String)
      (started : Option ℤ) (executor : Option String) (now : DateTime) where
    abbrev new_row : StepRow V
    new_row = outcome_row name value error started now

    abbrev stored : Inner V → Inner V
    stored g =
        refresh_executor workflow_id executor
          (record g { steps = Map.insert (workflow_id, seq) new_row g.steps })

    get-stored : (g : Inner V) → Map.get (workflow_id, seq) (stored g).steps ≡ some new_row
    get-stored g = rw steps-refresh_executor (get-insert_self (workflow_id, seq) new_row g.steps)

    -- A write that succeeds leaves, at its position, the named step with the outcome it returned.
    pub get_step_result-record_step_result :
        (g g' : Inner V) (o : StepOutcome V)
        → record_step_result workflow_id seq name value error started executor now g ≡ (ok o, g')
        → get_step_result workflow_id seq g' ≡ some (record { name = name; outcome = o })
    unfolding record_step_result get_step_result
    get_step_result-record_step_result g g' o h =
        elim (Option-cases (Map.get (workflow_id, seq) g.steps)) [
          | inl e ↦ ground (arith, get-stored g)
          | inr (row, e) ↦ ground (arith, ==→≡ row.name name)
        ]

    same_write_refl :
        (now' : DateTime) → same_write new_row (outcome_row name value error started now') ≡ true
    unfolding same_write outcome_row
    same_write_refl now' = ground (arith, ==_refl error, ==_refl started, ==_refl value)

    -- What an accepted write leaves at its position: its row, or an equal one.
    accepted :
        (g g' : Inner V) (o : StepOutcome V)
        → record_step_result workflow_id seq name value error started executor now g ≡ (ok o, g')
        → (row : StepRow V) × (Map.get (workflow_id, seq) g'.steps ≡ some row)
          × (row.name ≡ name)
          × (same_write row new_row ≡ true)
          × (step_row_outcome row ≡ o)
    unfolding record_step_result
    accepted g g' o h = elim (Option-cases (Map.get (workflow_id, seq) g.steps)) [
      | inl e ↦ (
        new_row,
        ground (arith, get-stored g),
        unfold outcome_row in refl,
        same_write_refl now,
        ground arith,
      )
      | inr (row, e) ↦
          (row, ground arith, ground (arith, ==→≡ row.name name), ground arith, ground arith)
    ]

    same_write_now :
        (row : StepRow V) (now' : DateTime)
        → same_write row (outcome_row name value error started now') ≡ same_write row new_row
    unfolding same_write outcome_row
    same_write_now row now' = refl

    -- A retry of the same write, at any later time and by any executor, returns the same outcome
    -- and changes nothing.
    pub record_step_result-retry :
        (executor' : Option String) (now' : DateTime) (g g' : Inner V) (o : StepOutcome V)
        → record_step_result workflow_id seq name value error started executor now g ≡ (ok o, g')
        → record_step_result workflow_id seq name value error started executor' now' g' ≡ (ok o, g')
    unfolding record_step_result
    record_step_result-retry executor' now' g g' o h =
        let (row, at, named, same, out) = accepted g g' o h in
        ground (arith, at, named, same, out, same_write_now row now', ==_refl name)

    -- After an accepted write, any later write at its position is refused, and changes nothing: one
    -- with another name as a divergent replay, and one with other content as a rival execution.
    pub record_step_result-rival :
        (name' : String) (value' : V) (error' : Option String) (started' : Option ℤ)
        (executor' : Option String) (now' : DateTime) (g g' : Inner V) (o : StepOutcome V)
        → record_step_result workflow_id seq name value error started executor now g ≡ (ok o, g')
        → ((name == name') && same_write new_row (outcome_row name' value' error' started' now'))
          ≡ false
        → record_step_result workflow_id seq name' value' error' started' executor' now' g' ≡ (
          (if name == name'
              then err (workflow_conflict workflow_id)
              else err (unexpected_step workflow_id seq name' name)),
          g',
        )
    unfolding record_step_result
    record_step_result-rival name' value' error' started' executor' now' g g' o h differs =
        let (row, at, named, same, _) = accepted g g' o h in
        ground (
          arith,
          at,
          named,
          same_write_trans row new_row (outcome_row name' value' error' started' now') same,
        )
