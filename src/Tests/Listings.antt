-- ===== src/Tests/Listings.antt =====
-- Tests of the theorems on listings, garbage collection, keyed sends and application versions.
use durare.Memory.Status.{
  insert_row, insert_checked, insert_workflow_status, insert_row, insert_checked,
  insert_workflow_status,
}
use durare.Prelude.{
  wrap_i64, sub_i64, wrap_i64, sub_i64, contains, contains, ℤ, pos, String, none, some, List, [],
  ◌∷◌, any, string_eq, option_eq, int_eq, pair_eq, refl, ◌≡◌, ◌==◌, ◌&&◌,
}
use durare.Errors.{ok}
use durare.Workflow.{WorkflowStatus}
use durare.Memory.{Inner, empty}
use durare.Memory.Steps.{get_step_name}
use durare.Memory.Listing.{StepInfo, get_workflow_steps}
use durare.Memory.Listing.StepRows.{get_workflow_steps-get_step_name}
use durare.Memory.Calls.{apply, apply, Call, run}
use durare.Memory.Calls.Slots.{Table}
use durare.Memory.Calls.OneSlot.{run-Table}
use durare.Memory.{VersionInfo}
use durare.Memory.Messages.{insert_notification}
use durare.Memory.Messages.Keys.{insert_notification-keyed}
use durare.Prelude.{ℕ}
use durare.Memory.Retention.{garbage_collect, resolve_gc_cutoff}
use durare.Memory.Retention.Sweep.{garbage_collect-rows}
use durare.Memory.Listing.{ListFilter, default_filter, is_listed, list_workflows}
use durare.Memory.Listing.Pages.{whole, Follows, list_workflows-Ordered}
use durare.Memory.Listing.Found.{shown, list_workflows-Matches}
use durare.Memory.Listing.Matches.{Among, Matches}
use durare.Prelude.{Ordered, length, get_elem?, count, All, ◌↔◌}
use durare.Tests.{with_rows}
use durare.Workflow.{status_pending}
use durare.Prelude.{true, false}
use durare.Map
use durare.Tests.{pending, done, one, sample_host}
use durare.Tests.Tables.{empty-Table}

abbrev creations : List (Call String)
creations = Call.insert_workflow_status pending ∷ Call.insert_workflow_status done ∷ []

created-Table : Table (run empty creations).workflows
unfolding run
created-Table = run-Table creations empty (refl, (refl, tt)) empty-Table

-- The second page of the pending rows, newest first, one to a page and without their inputs.
abbrev open_rows : ListFilter String
open_rows = record (default_filter {V = String}) {
  status = status_pending ∷ [];
  limit = some (pos 1);
  offset = some (pos 1);
  sort_desc = true;
  load_input = false;
}

-- Two pending rows and a completed one.
abbrev listed : Inner String
listed =
    with_rows
      (("w", pending) ∷ ("x", record pending { id = "x"; created_at = pos 12 }) ∷ ("d", done) ∷ [])

list_workflows-Ordered_example :
    Ordered (Follows true) (list_workflows (whole open_rows) listed)
    × (length (list_workflows (whole open_rows) listed) ≡ 2)
    × (get_elem? (list_workflows open_rows listed) 0
        ≡ get_elem? (list_workflows (whole open_rows) listed) 1)
unfolding is_listed contains count
list_workflows-Ordered_example = list_workflows-Ordered open_rows listed 0

list_workflows-Matches_example :
    All
      (λ (w : WorkflowStatus String).
        (k : String) × (u : WorkflowStatus String) × (Map.get k (run empty creations).workflows
          ≡ some u)
        × (w ≡ shown open_rows u))
      (list_workflows (whole open_rows) (run empty creations))
    × (Among
          (record pending { input = "null" })
          (list_workflows (whole open_rows) (run empty creations))
        ↔ Matches open_rows (run empty creations).workflows pending)
unfolding run Map.get apply insert_workflow_status insert_checked insert_row Map.insert
list_workflows-Matches_example =
    list_workflows-Matches open_rows (run empty creations) "w" pending created-Table refl

abbrev recorded : Inner String
recorded = record one {
  steps =
      ((
        ("w", pos 0),
        record {
          name = "charge";
          output = some "7";
          error = none;
          child_workflow_id = none;
          started_at_ms = none;
          completed_at_ms = some (pos 21);
        },
      )
        ∷ []);
}

get_workflow_steps-get_step_name_example :
    any
      (λ (i : StepInfo String). i.step_id == pos 0 && i.name == "charge")
      (get_workflow_steps "w" recorded)
    ≡ (get_step_name "w" (pos 0) recorded == some "charge")
unfolding Map.get
get_workflow_steps-get_step_name_example =
    get_workflow_steps-get_step_name "w" "charge" (pos 0) recorded (refl, tt)

abbrev keyed : Inner String
unfolding insert_notification
keyed = (insert_notification "w" "t" "hi" (some "k") "u" (pos 50) one).1

insert_notification-keyed_example :
    insert_notification "w" "other" "again" (some "k") "v" (pos 60) keyed ≡ (ok tt, keyed)
unfolding insert_notification Map.contains_key
insert_notification-keyed_example =
    insert_notification-keyed "w" "t" "other" "hi" "again" "k" "u" "v" (pos 50) (pos 60) one keyed
      refl

abbrev version : String → ℤ → VersionInfo
version name at = record {
  version_id = name;
  version_name = name;
  version_timestamp = at;
  created_at = at;
}

abbrev versioned : Inner String
versioned = record one {
  versions = ("v1", version "v1" (pos 1)) ∷ ("v2", version "v2" (pos 2)) ∷ [];
}

-- A completed workflow, and a pending one.
abbrev ended : WorkflowStatus String
ended = record done { completed_at_ms = some (pos 5) }

abbrev history : Inner String
unfolding run
history = run empty (Call.insert_workflow_status pending ∷ Call.insert_workflow_status ended ∷ [])

history-Table : Table history.workflows
unfolding run
history-Table =
    run-Table (Call.insert_workflow_status pending ∷ Call.insert_workflow_status ended ∷ []) empty
      (refl, (refl, tt)) empty-Table

garbage_collect-rows_example :
    (n : ℕ) × (after : Inner String) × (garbage_collect (some (pos 10)) none history
      ≡ some (ok n, after))
    × (Map.get "d" after.workflows ≡ none)
unfolding resolve_gc_cutoff Map.get history apply insert_workflow_status insert_checked insert_row
    Map.insert contains sub_i64 wrap_i64
garbage_collect-rows_example =
    garbage_collect-rows (some (pos 10)) none history (pos 10) "d" history-Table refl
