-- ===== src/Memory/Listing/Found.antt =====
-- Which rows `list_workflows` of src/memory.rs lists.
use durare.Prelude.{
  String, some, ◌≡◌, refl, sym, ap, ◌∙◌, subst, ◌↔◌, if◌then◌else◌, All, All-weaken, get_elem?-All,
  string_eq, ==→≡, none, true,
}
use durare.Map
use durare.Host.{Host}
use durare.Workflow.{WorkflowStatus}
use durare.Memory.{Inner}
use durare.Memory.Listing.{ListFilter, is_listed, fork_sources, trim, list_workflows}
use durare.Memory.Listing.Matches.{Among, Matches, any_iff, is_listed_iff}
use durare.Memory.Listing.Pages.{whole}
use durare.Memory.Listing.Rows.{list_workflows-rows, list_workflows_complete}
use durare.Memory.Calls.Slots.{Table}

module _ {V : Type 0} ⦃j : Host V⦄ (f : ListFilter V) where
  -- The row without the fields that the caller opted out of.
  abbrev pub shown : WorkflowStatus V → WorkflowStatus V
  shown v = record v {
    input = if f.load_input then v.input else j.null;
    output = if f.load_output then v.output else none;
  }

module _ {V : Type 0} ⦃j : Host V⦄ (f : ListFilter V) (g : Inner V) where
  -- What stands in the whole listing under the id of a row is that row, and it passed the test.
  at_row :
      (t : Table g.workflows) (id : String) (v w : WorkflowStatus V)
      → Map.get id g.workflows ≡ some v
      → Among w (list_workflows (whole f) g)
      → w.id ≡ id
      → (w ≡ shown f v) × (is_listed f (fork_sources g.workflows) v ≡ true)
  unfolding is_listed trim
  at_row t id v w at (i, e) named =
      let (u, there, listed, same) =
        get_elem?-All _ (list_workflows (whole f) g) i {x = w} (list_workflows-rows (whole f) g t)
          e in
      let uid : u.id ≡ id = sym (ap (λ (r : WorkflowStatus V). r.id) same) ∙ named in
      let both : some u ≡ some v = sym there ∙ ap (λ k. Map.get k g.workflows) uid ∙ at in
      let row : u ≡ v = cc in
      (
        same ∙ ap (shown f) row,
        subst (λ r. is_listed f (fork_sources g.workflows) r ≡ true) row listed,
      )

  -- On a table with one row per id, whatever the filter: the listing without limit and offset has
  -- only rows of the table, less the fields that the caller opted out of, and has the row of a
  -- workflow exactly when that row meets every condition of the filter as `Matches` states them:
  -- names by membership, instants by the order of the integers, being forked from by the row of a
  -- fork; a prefix and the containment of attributes are tested as in the code.
  pub list_workflows-Matches :
      (id : String) (v : WorkflowStatus V)
      → Table g.workflows
      → Map.get id g.workflows ≡ some v
      → All
          (λ (w : WorkflowStatus V).
            (k : String) × (u : WorkflowStatus V) × (Map.get k g.workflows ≡ some u)
            × (w ≡ shown f u))
          (list_workflows (whole f) g)
        × (Among (shown f v) (list_workflows (whole f) g) ↔ Matches f g.workflows v)
  unfolding is_listed trim
  list_workflows-Matches id v t at = (
    All-weaken _ _ (list_workflows (whole f) g)
        (λ w (u, there, listed, same). (u.id, u, there, same)) (list_workflows-rows (whole f) g t),
    (
      (λ h.
          (is_listed_iff f g.workflows v t).0 (at_row t id v (shown f v) at h (t.keyed id v at)).1),
      λ m.
          let found =
            list_workflows_complete (whole f) g id v refl refl t at
              ((is_listed_iff f g.workflows v t).1 m) in
          let (w, (i, e), q) = (any_iff _ (list_workflows (whole f) g)).0 found in
          (i, e ∙ ap some (at_row t id v w at (i, e) (==→≡ w.id id q)).0),
    ),
  )
