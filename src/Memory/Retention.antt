-- ===== src/Memory/Retention.antt =====
-- src/provider.rs: garbage collection, the default method that the in-memory provider keeps. It is
-- composed of separate operations, each under the lock; here no other call comes between them.
pub mod Sweep
use durare.Prelude.{
  ℤ, pos, ℕ, zero, suc, ◌+◌, Bool, true, false, String, Option, none, some, List, [], ◌∷◌, ltb,
  leb_ℤ, ltb_ℤ, sub_i64, if◌then◌else◌, get_elem?, length, sort, map, filter_map, format, display_ℤ,
}
use durare.Errors.{Error, Result, ok, err, app_error}
use durare.Host.{Host}
use durare.Workflow.{
  WorkflowStatus, status_success, status_error, status_cancelled,
  status_max_recovery_attempts_exceeded,
}
use durare.Memory.{Inner, Op}
use durare.Memory.Dispatch.{to_usize}
use durare.Memory.Manage.{delete_workflows}
use durare.Memory.Listing.{ListFilter, default_filter, list_workflows}

-- `GC_BATCH`
abbrev pub gc_batch : ℕ
gc_batch = 10000

abbrev pub terminal_statuses : List String
terminal_statuses =
    status_success ∷ status_error ∷ status_cancelled ∷ status_max_recovery_attempts_exceeded ∷ []

abbrev pub finished_filter : {V : Type 0} → ListFilter V
finished_filter {V} = record (default_filter {V = V}) {
  status = terminal_statuses;
  load_input = false;
  load_output = false;
}

-- The bound of a deletion is strictly before the cutoff, and the filter's is inclusive.
abbrev pub gc_filter : {V : Type 0} → ℤ → ListFilter V
gc_filter {V} cutoff = record (default_filter {V = V}) {
  status = terminal_statuses;
  completed_before_ms = some (sub_i64 cutoff (pos 1));
  limit = some (pos gc_batch);
  load_input = false;
  load_output = false;
}

-- the newer of the two bounds
abbrev newer : Option ℤ → Option ℤ → Option ℤ
newer cutoff none = cutoff
newer none (some r) = some r
newer (some c) (some r) = if ltb_ℤ c r then some r else some c

module _ {V : Type 0} ⦃j : Host V⦄ where
  -- The threshold is positive where this is called; `select_nth_unstable_by` finds what a whole sort
  -- from the newest on has at the index.
  unfoldable pub nth_newest_completed_at : ℤ → Inner V → Option ℤ
  nth_newest_completed_at threshold g =
      let completed = filter_map (λ w. w.completed_at_ms) (list_workflows finished_filter g) in
      elim (to_usize threshold) [
        | zero ↦ none
        | suc i ↦ get_elem? (sort (λ a b. leb_ℤ b a) completed) i
      ]

  unfoldable pub resolve_gc_cutoff : Option ℤ → Option ℤ → Inner V → Result V (Option ℤ)
  resolve_gc_cutoff cutoff none g = ok cutoff
  resolve_gc_cutoff cutoff (some t) g =
      if leb_ℤ t (pos 0)
      then err (app_error (format ("rows_threshold must be positive, got " ∷ display_ℤ t ∷ [])))
      else ok (newer cutoff (nth_newest_completed_at t g))

  -- The batch that the next turn of the loop deletes.
  abbrev pub batch : ℤ → Inner V → List String
  batch cutoff g = map (λ w. w.id) (list_workflows (gc_filter cutoff) g)

  abbrev pub add_total : ℕ → Option (ℕ × Inner V) → Option (ℕ × Inner V)
  add_total n none = none
  add_total n (some (total, g)) = some (n + total, g)

  -- The loop: the count of deleted rows and the state after; `none` is a loop out of fuel. The count
  -- is a `u64`; a table holds far fewer rows than that.
  unfoldable pub gc_loop : ℕ → ℤ → Inner V → Option (ℕ × Inner V)
  gc_loop zero cutoff g = none
  gc_loop (suc fuel) cutoff g =
      let ids = batch cutoff g in
      let g' = (delete_workflows ids false g).1 in
      let rest = gc_loop fuel cutoff g' in
      if ltb (length ids) gc_batch then some (length ids, g') else add_total (length ids) rest

  -- The answer of a collection at this cutoff; the fuel is one more than the rows.
  abbrev pub collected : Option ℤ → Inner V → Option (Result V ℕ × Inner V)
  collected none g = some (ok 0, g)
  collected (some cutoff) g = elim (gc_loop (suc (length g.workflows)) cutoff g) [
    | none ↦ none
    | some (total, g') ↦ some (ok total, g')
  ]

  unfoldable pub garbage_collect : Option ℤ → Option ℤ → Inner V → Option (Result V ℕ × Inner V)
  unfolding gc_loop
  garbage_collect cutoff_epoch_ms rows_threshold g =
      elim (resolve_gc_cutoff cutoff_epoch_ms rows_threshold g) [
        | err e ↦ some (err e, g)
        | ok cutoff ↦ collected cutoff g
      ]
