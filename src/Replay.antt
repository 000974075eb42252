-- ===== src/Replay.antt =====
-- src/replay.rs: what a verification run books, and the report that it comes to.
pub mod Report
use durare.Prelude.{
  ℤ, ℕ, Bool, true, false, String, Option, none, some, List, [], ◌∷◌, ◌==◌, ◌||◌, not,
  if◌then◌else◌, string_eq, option_eq, int_eq, contains, find, count, length, format,
}
use durare.Map
use durare.Map.{Map}
use durare.Errors.{
  Error, Divergence, mismatch, missing, failed, Result, ok, err, display, replay_diverged,
}
use durare.Recorded.{is_none}
use durare.Workflow.{status_error}
use durare.Memory.Listing.{StepInfo}

pub record ReplayReport : Type 0 where
  pub workflow_id : String
  pub workflow_name : String
  pub recorded : ℕ
  pub matched : ℕ
  pub complete : Bool
  pub divergence : Option Divergence

unfoldable pub passes : ReplayReport → Bool
passes r = is_none r.divergence

unfoldable pub into_result : {V : Type 0} → ReplayReport → Result V (Unit {0})
into_result r = elim r.divergence [
  | none ↦ ok tt
  | some divergence ↦ err (replay_diverged r.workflow_id divergence)
]

-- The recorded run.
pub record History (V : Type 0) : Type 0 where
  pub id : String
  pub name : String
  pub status : String
  pub recorded : List (StepInfo V)

-- How the re-run ended: what it returned, or the message of its panic.
pub data RunOutcome (V : Type 0) : Type 0 where
  returned : Result V V → RunOutcome V
  panicked : String → RunOutcome V

-- `Verification`, with the fields of `Seen`, which its mutex guards.
pub record Verification : Type 0 where
  pub complete : Bool
  pub divergence : Option Divergence
  pub stopped_at : Option (ℤ × String)
  pub served : List ℤ
  pub reserved : Map ℤ String

abbrev pub new : Bool → Verification
new complete = record {
  complete = complete;
  divergence = none;
  stopped_at = none;
  served = [];
  reserved = [];
}

-- `get_or_insert`
abbrev pub get_or_insert {ℓ} : {A : Type ℓ} → Option A → A → Option A
get_or_insert (some a) b = some a
get_or_insert none b = some b

unfoldable pub saw : Divergence → Verification → Verification
saw divergence v = record v { divergence = get_or_insert v.divergence divergence }

unfoldable pub stopped : ℤ → String → Verification → Verification
stopped seq operation v = record v { stopped_at = get_or_insert v.stopped_at (seq, operation) }

-- an insertion into a `BTreeSet`
unfoldable pub served_record : ℤ → Verification → Verification
served_record seq v = record v {
  served = if contains v.served seq then v.served else seq ∷ v.served;
}

unfoldable pub reserved_record : ℤ → String → Verification → Verification
reserved_record seq operation v = record v { reserved = Map.insert seq operation v.reserved }

abbrev pub or_else {ℓ} : {A : Type ℓ} → Option A → Option A → Option A
or_else (some a) b = some a
or_else none b = b

module _ {V : Type 0} where
  unfoldable pub accounts_for : Verification → StepInfo V → Bool
  accounts_for v op = contains v.served op.step_id || Map.get op.step_id v.reserved == some op.name

  -- what the run failed with
  unfoldable pub run_error : RunOutcome V → Option String
  unfolding display
  run_error (panicked message) = some (format ("workflow panicked: " ∷ message ∷ []))
  run_error (returned (err e)) = some (display e)
  run_error (returned (ok v)) = none

  -- `failed`
  unfoldable pub own_failure : String → RunOutcome V → Option Divergence
  own_failure status outcome =
      if status == status_error
      then none
      else elim (run_error outcome) [ none ↦ none | some error ↦ some (failed error) ]

  -- the arms of `unaccounted`
  abbrev pub divergence_at : StepInfo V → Option String → Divergence
  divergence_at op (some expected) = mismatch op.step_id expected op.name
  divergence_at op none = missing op.step_id op.name

  unfoldable pub unaccounted : List (StepInfo V) → Verification → Option Divergence
  unfolding accounts_for
  unaccounted recorded v = elim (find (λ op. not (accounts_for v op)) recorded) [
    | none ↦ none
    | some op ↦ some (divergence_at op (Map.get op.step_id v.reserved))
  ]

  unfoldable pub report : Verification → History V → RunOutcome V → ReplayReport
  unfolding accounts_for own_failure unaccounted
  report v h outcome = record {
    workflow_id = h.id;
    workflow_name = h.name;
    recorded = length h.recorded;
    matched = count (accounts_for v) h.recorded;
    complete = v.complete;
    divergence = or_else v.divergence (
        or_else (if is_none v.stopped_at then own_failure h.status outcome else none)
          (unaccounted h.recorded v));
  }
