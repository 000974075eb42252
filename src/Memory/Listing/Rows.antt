-- ===== src/Memory/Listing/Rows.antt =====
-- `list_workflows` of src/memory.rs against its filter.
use durare.Prelude.{
  All, All-take, All-drop, All-reverse, All-sort, All-map, All-filter, All-both, All-weaken,
  filter-All, any-reverse, any-sort, any-filter, any-map, ℤ, Bool, true, false, String, Option,
  none, some, List, [], ◌∷◌, ◌≡◌, refl, ◌==◌, ◌&&◌, if◌then◌else◌, any, filter, reverse, sort,
  string_eq, arith, Bool-cases, inl, inr, ==_refl, ◌∙◌,
}
use durare.Map
use durare.Map.{Map}
use durare.Host.{Host}
use durare.Workflow.{WorkflowStatus}
use durare.Memory.{Inner}
use durare.Memory.Dispatch.{to_usize}
use durare.Memory.Listing.{
  ListFilter, is_listed, fork_sources, earlier_created, skip, truncate, trim, list_workflows,
}
use durare.Memory.Manage.Closure.{Within, Within-self}
use durare.Memory.Calls.Slots.{Table, Keyed}

All-skip : {A : Type 0} (P : A → Type 0) (o : Option ℤ) (l : List A) → All P l → All P (skip o l)
All-skip P none l h = h
All-skip P (some n) l h = All-drop P (to_usize n) l h

All-truncate :
    {A : Type 0} (P : A → Type 0) (o : Option ℤ) (l : List A) → All P l → All P (truncate o l)
All-truncate P none l h = h
All-truncate P (some n) l h = All-take P (to_usize n) l h

All-ordered :
    {A : Type 0} (P : A → Type 0) (b : Bool) (l : List A)
    → All P l
    → All P (if b then reverse l else l)
All-ordered P true l h = All-reverse P l h
All-ordered P false l h = h

any-ordered :
    {A : Type 0} (p : A → Bool) (b : Bool) (l : List A)
    → any p (if b then reverse l else l) ≡ any p l
any-ordered p true l = any-reverse p l
any-ordered p false l = refl

any-whole :
    {A : Type 0} (p : A → Bool) (limit offset : Option ℤ) (l : List A)
    → limit ≡ none
    → offset ≡ none
    → any p (truncate limit (skip offset l)) ≡ any p l
any-whole p limit offset l e k = rw (e, k) refl

module _ {V : Type 0} where
  pub values-Within :
      (m r : Map String (WorkflowStatus V))
      → Keyed m
      → Within m r
      → All (λ (w : WorkflowStatus V). Map.get w.id m ≡ some w) (Map.values r)
  values-Within m [] k h = tt
  values-Within m ((id, w) ∷ r) k h = (ground (arith, k id w h.0, h.0), values-Within m r k h.1)

  pub any-values :
      (p : WorkflowStatus V → Bool) (m : Map String (WorkflowStatus V)) (k : String)
      {w : WorkflowStatus V}
      → Map.get k m ≡ some w
      → p w ≡ true
      → any p (Map.values m) ≡ true
  unfolding any Map.get
  any-values p [] k g h = cc
  any-values p ((i, v) ∷ m) k {w} g h = elim (Bool-cases (i == k)) [
    | inl e ↦ ground arith
    | inr e ↦ ground (arith, any-values p m k {w = w})
  ]

module _ {V : Type 0} ⦃j : Host V⦄ (f : ListFilter V) (g : Inner V) where
  -- Whatever the filter, every row that is listed is a row of the table that matches it, less the
  -- fields that the caller opted out of.
  pub list_workflows-rows :
      Table g.workflows
      → All
          (λ (w : WorkflowStatus V).
            (v : WorkflowStatus V) × (Map.get v.id g.workflows ≡ some v)
            × (is_listed f (fork_sources g.workflows) v ≡ true)
            × (w ≡ trim f v))
          (list_workflows f g)
  unfolding list_workflows
  list_workflows-rows t =
      let p = is_listed f (fork_sources g.workflows) in
      let Q : WorkflowStatus V → Type 0 = λ v. (Map.get v.id g.workflows ≡ some v) × (p v ≡ true) in
      let rows = filter p (Map.values g.workflows) in
      let there =
        All-filter (λ (v : WorkflowStatus V). Map.get v.id g.workflows ≡ some v) p
          (Map.values g.workflows)
          (values-Within g.workflows g.workflows t.keyed (Within-self g.workflows t.unique)) in
      let both =
        All-both (λ (v : WorkflowStatus V). Map.get v.id g.workflows ≡ some v) (λ v. p v ≡ true)
          rows there (filter-All p (Map.values g.workflows)) in
      let sorted = sort earlier_created rows in
      let ordered = if f.sort_desc then reverse sorted else sorted in
      All-map _ (trim f) (truncate f.limit (skip f.offset ordered)) (
        All-weaken Q _ (truncate f.limit (skip f.offset ordered)) (λ v h. (v, h.0, h.1, refl))
          (All-truncate Q f.limit (skip f.offset ordered) (
            All-skip Q f.offset ordered
              (All-ordered Q f.sort_desc sorted (All-sort earlier_created Q rows both)))))

  -- Without a limit and an offset every row of the table that matches is listed.
  pub list_workflows_complete :
      (id : String) (v : WorkflowStatus V)
      → f.limit ≡ none
      → f.offset ≡ none
      → Table g.workflows
      → Map.get id g.workflows ≡ some v
      → is_listed f (fork_sources g.workflows) v ≡ true
      → any (λ (w : WorkflowStatus V). w.id == id) (list_workflows f g) ≡ true
  unfolding list_workflows trim
  list_workflows_complete id v unlimited whole t at listed =
      let p = is_listed f (fork_sources g.workflows) in
      let q : WorkflowStatus V → Bool = λ w. w.id == id in
      let rows = filter p (Map.values g.workflows) in
      let sorted = sort earlier_created rows in
      let ordered = if f.sort_desc then reverse sorted else sorted in
      let named : (v.id == id) ≡ true = rw (t.keyed id v at) (==_refl id) in
      let found : any q ordered ≡ true =
        any-ordered q f.sort_desc sorted
        ∙ any-sort q earlier_created rows
        ∙ any-filter q p (Map.values g.workflows)
        ∙ any-values (λ w. q w && p w) g.workflows id {w = v} at (ground (arith, named, listed)) in
      any-map q (trim f) (truncate f.limit (skip f.offset ordered))
      ∙ any-whole q f.limit f.offset ordered unlimited whole
      ∙ found
