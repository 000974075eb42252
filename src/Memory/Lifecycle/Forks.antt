-- ===== src/Memory/Lifecycle/Forks.antt =====
-- `fork_workflow_with_timeout` of src/memory.rs: the new row and the copied checkpoints.
use durare.Prelude.{
  ℤ, ltb_ℤ, String, Option, none, some, [], ◌∷◌, ◌≡◌, ◌≢◌, refl, ◌==◌, ◌&&◌, if◌then◌else◌,
  string_eq, int_eq, pair_eq, arith, Option-cases, Bool-cases, inl, inr, ==→≡, ==_refl,
}
use durare.Map
use durare.Map.{Map, Unique}
use durare.Map.Laws.{get-insert, get-insert_self}
use durare.Errors.{ok}
use durare.Host.{Host, DateTime}
use durare.Workflow.{WorkflowStatus, new, status_enqueued}
use durare.Memory.{Inner, StepRow}
use durare.Memory.Lifecycle.{
  ForkParams, forked_row, copied, insert_copies, fork_workflow_with_timeout,
}

-- The first answer if there is one.
abbrev pub or_second : {A : Type 0} → Option A → Option A → Option A
or_second none second = second
or_second (some a) second = some a

module _ {V : Type 0} where
  get-copied :
      (o : String) (k s : ℤ) (m : Map (String × ℤ) (StepRow V))
      → Map.get s (copied o k m) ≡ (if ltb_ℤ s k then Map.get (o, s) m else none)
  unfolding copied Map.get
  get-copied o k s [] = ground arith
  get-copied o k s (((w, q), v) ∷ m) = elim (Bool-cases (q == s)) [
    | inl e ↦ rw (==→≡ q s e) (ground (arith, get-copied o k s m, ==_refl s))
    | inr e ↦ ground (arith, get-copied o k s m)
  ]

  copied-Unique :
      (o : String) (k : ℤ) (m : Map (String × ℤ) (StepRow V)) → Unique m → Unique (copied o k m)
  unfolding copied
  copied-Unique o k [] u = tt
  copied-Unique o k (((w, q), v) ∷ m) u = elim (Bool-cases (w == o && ltb_ℤ q k)) [
    | inl e ↦
        let same : w ≡ o = ==→≡ w o (ground arith) in
        rw e (ground (arith, get-copied o k q m, u.0, same), copied-Unique o k m u.1)
    | inr e ↦ rw e (copied-Unique o k m u.1)
  ]

  get-insert_copies :
      (n : String) (s : ℤ) (l : Map ℤ (StepRow V)) (m : Map (String × ℤ) (StepRow V))
      → Unique l
      → Map.get (n, s) (insert_copies n l m) ≡ or_second (Map.get s l) (Map.get (n, s) m)
  unfolding insert_copies Map.get
  get-insert_copies n s [] m u = refl
  get-insert_copies n s ((q, v) ∷ l) m u = elim (Bool-cases (q == s)) [
    | inl e ↦ ground (
      arith,
      get-insert_copies n s l (Map.insert (n, q) v m) u.1,
      ==→≡ q s e,
      u.0,
      get-insert_self (n, s) v m,
    )
    | inr e ↦
        ground
          (arith, get-insert_copies n s l (Map.insert (n, q) v m) u.1, get-insert (n, q) (n, s) v m)
  ]

  get-insert_copies_ne :
      (n w : String) (s : ℤ) (l : Map ℤ (StepRow V)) (m : Map (String × ℤ) (StepRow V))
      → n ≢ w
      → Map.get (w, s) (insert_copies n l m) ≡ Map.get (w, s) m
  unfolding insert_copies
  get-insert_copies_ne n w s [] m d = refl
  get-insert_copies_ne n w s ((q, v) ∷ l) m d = ground (
    arith,
    get-insert_copies_ne n w s l (Map.insert (n, q) v m) d,
    get-insert (n, q) (w, s) v m,
    ==→≡ n w,
    d,
  )

  forked_row-new :
      (params : ForkParams) (timeout_ms : Option ℤ) (now : DateTime) (original : WorkflowStatus V)
      → ((forked_row params timeout_ms now original).status ≡ status_enqueued)
        × ((forked_row params timeout_ms now original).queue_name ≡ some params.queue_name)
        × ((forked_row params timeout_ms now original).forked_from ≡ some params.original_id)
  unfolding forked_row new
  forked_row-new params timeout_ms now original = (refl, refl, refl)

module _ {V : Type 0} ⦃j : Host V⦄ where
  -- A fork that succeeds found its original; it leaves an enqueued row for the new id, on the
  -- queue that was asked for, which names the original; at each position below the start step the
  -- new workflow has the step of the original, if there is one, and from the start step on only
  -- what it had; the steps of every other workflow, and every other row, are as they were.
  pub fork_workflow_with_timeout-ok :
      (params : ForkParams) (timeout_ms : Option ℤ) (now : DateTime) (g g' : Inner V)
      (other : String) (seq : ℤ)
      → Unique g.steps
      → fork_workflow_with_timeout params timeout_ms now g ≡ (ok tt, g')
      → params.new_id ≢ other
      → (Map.get params.original_id g.workflows ≢ none)
        × ((row : WorkflowStatus V) × (Map.get params.new_id g'.workflows ≡ some row)
            × (row.status ≡ status_enqueued)
            × (row.queue_name ≡ some params.queue_name)
            × (row.forked_from ≡ some params.original_id))
        × (Map.get (params.new_id, seq) g'.steps
            ≡ or_second
                (if ltb_ℤ seq params.start_step
                  then Map.get (params.original_id, seq) g.steps
                  else none)
                (Map.get (params.new_id, seq) g.steps))
        × (Map.get (other, seq) g'.steps ≡ Map.get (other, seq) g.steps)
        × (Map.get other g'.workflows ≡ Map.get other g.workflows)
  unfolding fork_workflow_with_timeout
  fork_workflow_with_timeout-ok params timeout_ms now g g' other seq u h d =
      elim (Option-cases (Map.get params.original_id g.workflows)) [
        | inl e ↦ absurd (ground arith)
        | inr (original, e) ↦
            let row = forked_row params timeout_ms now original in
            let l = copied params.original_id params.start_step g.steps in
            let (enqueued, queued, source) = forked_row-new params timeout_ms now original in
            (
              (λ n. cc),
              (
                row,
                ground (arith, get-insert_self params.new_id row g.workflows),
                enqueued,
                queued,
                source,
              ),
              ground (
                arith,
                get-insert_copies params.new_id seq l g.steps
                    (copied-Unique params.original_id params.start_step g.steps u),
                get-copied params.original_id params.start_step seq g.steps,
              ),
              ground (arith, get-insert_copies_ne params.new_id other seq l g.steps d),
              ground (
                arith,
                get-insert params.new_id other row g.workflows,
                ==→≡ params.new_id other,
                d,
              ),
            )
      ]
