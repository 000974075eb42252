-- ===== src/Memory/Retention/Sweep.antt =====
-- The loop of `garbage_collect` of src/provider.rs over the in-memory provider.
use durare.Prelude.{
  length-map, ltb→lt, subst, ◌||◌, All-map, any-map, any-filter, any-sort, All-weaken, ℤ, pos, ℕ,
  zero, suc, ◌+◌, ◌≤◌, ◌<◌, Bool, true, false, String, Option, none, some, List, [], ◌∷◌, ◌≡◌, ◌≢◌,
  refl, ◌==◌, ◌&&◌, ltb, leb_ℤ, sub_i64, if◌then◌else◌, All, any, contains, filter, map, sort, take,
  length, string_eq, option_eq, bool_eq, arith, Bool-cases, Option-cases, inl, inr, ==→≡, ==_refl,
  sym, ◌∙◌, ap,
}
use durare.Map
use durare.Map.{Map}
use durare.Host.{Host}
use durare.Workflow.{WorkflowStatus}
use durare.Memory.{Inner}
use durare.Memory.Dispatch.{is_some_and}
use durare.Memory.Manage.{delete_one, delete_all, delete_workflows}
use durare.Memory.Manage.Removal.{get-delete_all}
use durare.Memory.Listing.{is_listed, fork_sources, earlier_created, trim, list_workflows}
use durare.Memory.Listing.Rows.{any-values, list_workflows-rows}
use durare.Memory.Calls.Slots.{Table}
use durare.Memory.Calls.Distinct.{delete_all-Ok}
use durare.Errors.{ok}
use durare.Memory.Retention.{
  resolve_gc_cutoff, garbage_collect, gc_batch, terminal_statuses, gc_filter, batch, gc_loop,
}

-- The row ended before the cutoff.
abbrev pub is_collectable : {V : Type 0} → ℤ → WorkflowStatus V → Bool
is_collectable cutoff w =
    contains terminal_statuses w.status
    && is_some_and (λ t. leb_ℤ t (sub_i64 cutoff (pos 1))) w.completed_at_ms

-- What a collection leaves of an entry.
abbrev pub unless_collectable :
    {V : Type 0} → ℤ → Option (WorkflowStatus V) → Option (WorkflowStatus V)
unless_collectable cutoff none = none
unless_collectable cutoff (some w) = if is_collectable cutoff w then none else some w

take-short : {A : Type 0} (n : ℕ) (l : List A) → length (take n l) < n → take n l ≡ l
take-short zero l h = absurd (omega arith)
take-short (suc n) [] h = refl
take-short (suc n) (x ∷ l) h = ap (λ r. x ∷ r) (take-short n l (omega arith))

contains-All :
    (P : String → Type 0) (l : List String) (x : String) → All P l → contains l x ≡ true → P x
unfolding contains
contains-All P [] x h c = cc
contains-All P (y ∷ l) x h c = elim (Bool-cases (y == x)) [
  | inl e ↦ rw (← ==→≡ y x e) h.0
  | inr e ↦ contains-All P l x h.1 (ground arith)
]

contains-any : (l : List String) (x : String) → contains l x ≡ any (λ y. y == x) l
unfolding contains any
contains-any [] x = refl
contains-any (y ∷ l) x = ap (λ b. y == x || b) (contains-any l x)

module _ {V : Type 0} where
  length-remove :
      (k : String) (m : Map String (WorkflowStatus V)) → length (Map.remove k m) ≤ length m
  unfolding Map.remove
  length-remove k [] = omega arith
  length-remove k ((i, w) ∷ m) = ground (arith, length-remove k m)

  length-remove_present :
      (k : String) (m : Map String (WorkflowStatus V))
      → Map.get k m ≢ none
      → length (Map.remove k m) < length m
  unfolding Map.remove Map.get
  length-remove_present k [] h = absurd (h refl)
  length-remove_present k ((i, w) ∷ m) h = elim (Bool-cases (i == k)) [
    | inl e ↦ ground (arith, length-remove k m)
    | inr e ↦ ground (arith, length-remove_present k m (λ n. h (ground (arith, n))))
  ]

  length-delete_all :
      (g : Inner V) (ids : List String) → length (delete_all g ids).workflows ≤ length g.workflows
  unfolding delete_all delete_one
  length-delete_all g [] = omega arith
  length-delete_all g (id ∷ ids) =
      omega (arith, length-delete_all (delete_one g id) ids, length-remove id g.workflows)

  -- A first id with a row makes the table smaller.
  length-delete_all_first :
      (g : Inner V) (id : String) (ids : List String)
      → Map.get id g.workflows ≢ none
      → length (delete_all g (id ∷ ids)).workflows < length g.workflows
  unfolding delete_all delete_one
  length-delete_all_first g id ids h =
      omega (arith, length-delete_all (delete_one g id) ids, length-remove_present id g.workflows h)

module _ {V : Type 0} ⦃j : Host V⦄ (cutoff : ℤ) where
  is_listed-gc_filter :
      (sources : List String) (w : WorkflowStatus V)
      → is_listed (gc_filter cutoff) sources w ≡ is_collectable cutoff w
  unfolding is_listed
  is_listed-gc_filter sources w = ground arith

  -- Whoever is in the batch has a row, which is collectable.
  abbrev InBatch : Inner V → String → Type 0
  InBatch g id =
      (v : WorkflowStatus V) × (Map.get id g.workflows ≡ some v) × (is_collectable cutoff v ≡ true)

  trim-InBatch :
      (g : Inner V) (w : WorkflowStatus V)
      → (v : WorkflowStatus V) × (Map.get v.id g.workflows ≡ some v)
        × (is_listed (gc_filter cutoff) (fork_sources g.workflows) v ≡ true)
        × (w ≡ trim (gc_filter cutoff) v)
      → InBatch g w.id
  unfolding trim
  trim-InBatch g w (v, at, l, same) = (
    v,
    subst (λ k. Map.get k g.workflows ≡ some v) (sym (ap (λ u. u.id) same)) at,
    sym (is_listed-gc_filter (fork_sources g.workflows) v) ∙ l,
  )

  All-InBatch : (g : Inner V) → Table g.workflows → All (InBatch g) (batch cutoff g)
  All-InBatch g t =
      All-map (InBatch g) (λ (w : WorkflowStatus V). w.id) (list_workflows (gc_filter cutoff) g)
        (All-weaken _ _ (list_workflows (gc_filter cutoff) g) (trim-InBatch g)
          (list_workflows-rows (gc_filter cutoff) g t))

  -- A batch that is not full has every row that passes.
  short-batch :
      (n : ℕ) (rows : List (WorkflowStatus V)) (id : String)
      → length (map (λ (w : WorkflowStatus V). w.id) (map (trim (gc_filter cutoff)) (take n rows)))
        < n
      → any (λ (w : WorkflowStatus V). w.id == id) rows ≡ true
      → contains
          (map (λ (w : WorkflowStatus V). w.id) (map (trim (gc_filter cutoff)) (take n rows)))
          id
        ≡ true
  unfolding trim
  short-batch n rows id short found =
      let name : WorkflowStatus V → String = λ w. w.id in
      let cut : WorkflowStatus V → WorkflowStatus V = trim (gc_filter cutoff) in
      let whole : take n rows ≡ rows = take-short n rows (
        omega
          (arith, short, length-map name (map cut (take n rows)), length-map cut (take n rows))) in
      contains-any (map name (map cut (take n rows))) id
      ∙ any-map (λ y. y == id) name (map cut (take n rows))
      ∙ any-map (λ w. w.id == id) cut (take n rows)
      ∙ ap (any (λ (w : WorkflowStatus V). w.id == id)) whole
      ∙ found

  batch_complete :
      (g : Inner V) (id : String) (v : WorkflowStatus V)
      → Table g.workflows
      → length (batch cutoff g) < gc_batch
      → Map.get id g.workflows ≡ some v
      → is_collectable cutoff v ≡ true
      → contains (batch cutoff g) id ≡ true
  unfolding list_workflows
  batch_complete g id v t short at c =
      let p = is_listed (gc_filter cutoff) (fork_sources g.workflows) in
      let q : WorkflowStatus V → Bool = λ w. w.id == id in
      let rows = filter p (Map.values g.workflows) in
      let named : q v ≡ true = rw (t.keyed id v at) (==_refl id) in
      let listed : p v ≡ true = is_listed-gc_filter (fork_sources g.workflows) v ∙ c in
      short-batch gc_batch (sort earlier_created rows) id short (
        any-sort q earlier_created rows
        ∙ any-filter q p (Map.values g.workflows)
        ∙ any-values (λ w. q w && p w) g.workflows id {w = v} at (ground (arith, named, listed)))

  abbrev swept : Inner V → Inner V
  swept g = delete_all g (batch cutoff g)

  -- One turn deletes collectable rows only.
  swept-spares :
      (g : Inner V) (id : String)
      → Table g.workflows
      → unless_collectable cutoff (Map.get id (swept g).workflows)
        ≡ unless_collectable cutoff (Map.get id g.workflows)
  swept-spares g id t = elim (Bool-cases (contains (batch cutoff g) id)) [
    | inl c ↦
        let (v, at, collectable) =
          contains-All (InBatch g) (batch cutoff g) id (All-InBatch g t) c in
        ground (arith, get-delete_all g (batch cutoff g) id, at, collectable)
    | inr c ↦ ground (arith, get-delete_all g (batch cutoff g) id)
  ]

  -- A turn with a batch that is not full deletes them all.
  swept-last :
      (g : Inner V) (id : String)
      → Table g.workflows
      → length (batch cutoff g) < gc_batch
      → Map.get id (swept g).workflows ≡ unless_collectable cutoff (Map.get id g.workflows)
  swept-last g id t short = elim (Bool-cases (contains (batch cutoff g) id)) [
    | inl c ↦
        let (v, at, collectable) =
          contains-All (InBatch g) (batch cutoff g) id (All-InBatch g t) c in
        ground (arith, get-delete_all g (batch cutoff g) id, at, collectable)
    | inr c ↦ elim (Option-cases (Map.get id g.workflows)) [
      | inl e ↦ ground (arith, get-delete_all g (batch cutoff g) id)
      | inr (v, e) ↦
          ground (arith, get-delete_all g (batch cutoff g) id, batch_complete g id v t short e)
    ]
  ]

  -- A turn with a full batch makes the table smaller.
  length-swept :
      (g : Inner V)
      → Table g.workflows
      → ltb (length (batch cutoff g)) gc_batch ≡ false
      → length (swept g).workflows < length g.workflows
  length-swept g t full = cases (batch cutoff g) refl
    where
      cases :
          (ids : List String)
          → batch cutoff g ≡ ids
          → length (swept g).workflows < length g.workflows
      cases [] e = absurd (ground (arith, e, full))
      cases (id ∷ ids) e =
          let all : All (InBatch g) (id ∷ ids) = subst (All (InBatch g)) e (All-InBatch g t) in
          rw e (length-delete_all_first g id ids (λ n. let (v, at, c) = all.0 in cc))

  pub gc_loop-rows :
      (fuel : ℕ) (g : Inner V)
      → length g.workflows < fuel
      → Table g.workflows
      → (n : ℕ) × (g' : Inner V) × (gc_loop fuel cutoff g ≡ some (n, g'))
        × ((id : String)
            → Map.get id g'.workflows ≡ unless_collectable cutoff (Map.get id g.workflows))
  unfolding gc_loop delete_workflows
  gc_loop-rows zero g h t = absurd (omega arith)
  gc_loop-rows (suc fuel) g h t = elim (Bool-cases (ltb (length (batch cutoff g)) gc_batch)) [
    | inl short ↦
        (length (batch cutoff g), swept g, ground arith, λ id. swept-last g id t (ltb→lt _ _ short))
    | inr full ↦
        let (n, g', e, rows) =
          gc_loop-rows fuel (swept g) (omega (arith, length-swept g t full))
            (delete_all-Ok g (batch cutoff g) t) in
        (length (batch cutoff g) + n, g', ground arith, λ id. rows id ∙ swept-spares g id t)
  ]

module _ {V : Type 0} ⦃j : Host V⦄ where
  -- On a table with one row per id, each under its own id, a collection with a cutoff ends, and
  -- what it deletes are exactly the rows that ended before the cutoff: every other row is as it was.
  -- The cutoff is the newer of the one given and the one that the threshold of rows sets.
  pub garbage_collect-rows :
      (cutoff_epoch_ms rows_threshold : Option ℤ) (g : Inner V) (cutoff : ℤ) (id : String)
      → Table g.workflows
      → resolve_gc_cutoff cutoff_epoch_ms rows_threshold g ≡ ok (some cutoff)
      → (n : ℕ) × (g' : Inner V) × (garbage_collect cutoff_epoch_ms rows_threshold g
          ≡ some (ok n, g'))
        × (Map.get id g'.workflows ≡ unless_collectable cutoff (Map.get id g.workflows))
  unfolding garbage_collect
  garbage_collect-rows cutoff_epoch_ms rows_threshold g cutoff id t h =
      let (n, g', e, rows) = gc_loop-rows cutoff (suc (length g.workflows)) g (omega arith) t in
      (n, g', ground (arith, h, e), rows id)
