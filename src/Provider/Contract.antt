-- ===== src/Provider/Contract.antt =====
-- The contract of src/provider.rs on recorded steps, for every implementation: a table of recorded
-- steps, which reads return and writes extend.
use durare.Prelude.{ℤ, true, String, Option, none, some, List, ◌≡◌, refl, ◌⊎◌, inr}
use durare.Errors.{Error, Result, ok, err}
use durare.Execution.{is_storage_failure}
use durare.Memory.{StepOutcome, output, RecordedStep, NotificationInsert}
use durare.Provider.{Tick, StateProvider}

-- The table, as a function of the state.
abbrev pub View : Type 0 → Type 0 → Type 0
View V S = S → String → ℤ → Option (RecordedStep V)

-- A name recorded at a position.
abbrev pub name_at : {V : Type 0} → Option (RecordedStep V) → Option String
name_at none = none
name_at (some r) = some r.name

module _ {V S : Type 0} (view : View V S) where
  -- No recorded step is lost or changed.
  abbrev pub Keeps : S → S → Type 0
  Keeps s s' =
      (workflow_id : String) (seq : ℤ) (r : RecordedStep V)
      → view s workflow_id seq ≡ some r
      → view s' workflow_id seq ≡ some r

  -- No step is recorded, lost or changed.
  abbrev pub Same : S → S → Type 0
  Same s s' = (workflow_id : String) (seq : ℤ) → view s' workflow_id seq ≡ view s workflow_id seq

  -- A read: it returns what the table says, or fails for storage reasons.
  abbrev pub Reads : {A : Type 0} → A → S → Result V A × S → Type 0
  Reads a s (ok b, s') = (b ≡ a) × Same s s'
  Reads a s (err e, s') = (is_storage_failure e ≡ true) × Same s s'

  -- A read of something else.
  abbrev pub ReadsOther : {A : Type 0} → S → Result V A × S → Type 0
  ReadsOther s (ok b, s') = Same s s'
  ReadsOther s (err e, s') = (is_storage_failure e ≡ true) × Same s s'

  -- A write of a step's outcome: a success leaves the outcome that it returns, which is the
  -- value written where the position was free; a failure that is not the storage's records nothing.
  abbrev pub Writes :
      String → ℤ → String → V → Option String → S → Result V (StepOutcome V) × S → Type 0
  Writes workflow_id seq name value error s (ok o, s') =
      (view s' workflow_id seq ≡ some (record { name = name; outcome = o }))
      × Keeps s s'
      × (view s workflow_id seq ≡ none → error ≡ none → o ≡ output value)
  Writes workflow_id seq name value error s (err e, s') =
      Keeps s s' × ((is_storage_failure e ≡ true) ⊎ Same s s')

  -- An effect that leaves its checkpoint with it: an output under its name, where the position was
  -- free.
  abbrev pub Checkpoints : String → ℤ → String → S → Result V (Unit {0}) × S → Type 0
  Checkpoints workflow_id seq name s (ok u, s') =
      Keeps s s'
      × (view s workflow_id seq ≡ none
          → (v : V) × (view s' workflow_id seq ≡ some (record { name = name; outcome = output v })))
  Checkpoints workflow_id seq name s (err e, s') =
      Keeps s s' × ((is_storage_failure e ≡ true) ⊎ Same s s')

  pub record IsDurable (p : StateProvider V S) : Type 0 where
    pub get_step_result_lem :
        (w : String) (q : ℤ) (s : S) → Reads (view s w q) s (p.get_step_result w q s)
    pub get_step_name_lem :
        (w : String) (q : ℤ) (s : S) → Reads (name_at (view s w q)) s (p.get_step_name w q s)
    pub get_workflow_status_lem : (w : String) (s : S) → ReadsOther s (p.get_workflow_status w s)
    pub record_step_result_lem :
        (w : String) (q : ℤ) (n : String) (v : V) (e : Option String) (st : Option ℤ)
        (x : Option String) (t : Tick) (s : S)
        → Writes w q n v e s (p.record_step_result w q n v e st x t s)
    pub record_patch_lem :
        (w : String) (q : ℤ) (n : String) (s : S) → Checkpoints w q n s (p.record_patch w q n s)
    pub send_from_workflow_lem :
        (w : String) (q : ℤ) (n : String) (rows : List (NotificationInsert V)) (t : Tick) (s : S)
        → Checkpoints w q n s (p.send_from_workflow w q n rows t s)
    pub write_stream_from_workflow_lem :
        (w : String) (q : ℤ) (n k : String) (v : Option V) (t : Tick) (s : S)
        → Checkpoints w q n s (p.write_stream_from_workflow w q n k v t s)
    pub upsert_event_lem : (w k : String) (v : V) (s : S) → Same s (p.upsert_event w k v s).1
    pub set_workflow_attributes_lem :
        (w : String) (a : Option (List (String × V))) (t : Tick) (s : S)
        → Same s (p.set_workflow_attributes w a t s).1

  -- The same, from the two parts of an answer.
  pub Writes-intro :
      (w : String) (q : ℤ) (n : String) (v : V) (e : Option String) (s : S)
      (x : Result V (StepOutcome V) × S)
      → Keeps s x.1
      → ((o : StepOutcome V)
          → x.0 ≡ ok o
          → (view x.1 w q ≡ some (record { name = n; outcome = o }))
            × (view s w q ≡ none → e ≡ none → o ≡ output v))
      → ((b : Error V) → x.0 ≡ err b → Same s x.1)
      → Writes w q n v e s x
  Writes-intro w q n v e s (ok o, s') k f g = let (a, b) = f o refl in (a, k, b)
  Writes-intro w q n v e s (err x, s') k f g = (k, inr (g x refl))

  pub Checkpoints-intro :
      (w : String) (q : ℤ) (n : String) (s : S) (x : Result V (Unit {0}) × S)
      → Keeps s x.1
      → (x.0 ≡ ok tt
          → view s w q ≡ none
          → (v : V) × (view x.1 w q ≡ some (record { name = n; outcome = output v })))
      → ((b : Error V) → x.0 ≡ err b → Same s x.1)
      → Checkpoints w q n s x
  Checkpoints-intro w q n s (ok tt, s') k f g = (k, f refl)
  Checkpoints-intro w q n s (err x, s') k f g = (k, inr (g x refl))
