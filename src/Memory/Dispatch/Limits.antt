-- ===== src/Memory/Dispatch/Limits.antt =====
-- The counts of `dequeue_workflows` of src/memory.rs under the limits of a request.
use native.Mathlib.Nat.{le_trans}
use mathlib.Core.Path.{sym}
use mathlib.Core.Option.{some-injective}
use durare.Prelude.{
  ℤ, pos, negsuc, ℕ, ◌+◌, ◌-◌, ◌≤◌, ◌<◌, max, Bool, String, Option, none, some, List, [], ◌∷◌, ◌≡◌,
  refl, string_eq, option_eq, arith, Option-cases, inl, inr, count, length, length-take-le, half64,
  sub_i64_exact, min_ℤ, max_ℤ,
}
use durare.Map
use durare.Map.{Map}
use durare.Map.Values.{count-insert}
use durare.Errors.{ok}
use durare.Host.{Host, DateTime}
use durare.Workflow.{WorkflowStatus}
use durare.Memory.{Inner}
use durare.Memory.Dispatch.{
  DequeueRequest, Ticket, is_running, rate_cap, global_cap, max_tasks, claim_row, claim_all,
  claim_cons, select_ids, dequeue_workflows, to_usize,
}

pub claim_cons-map :
    {V : Type 0} (w : WorkflowStatus V)
    (r : Option (List (WorkflowStatus V)) × Map String (WorkflowStatus V))
    → (claim_cons w r).1 ≡ r.1
claim_cons-map w (none, m) = refl
claim_cons-map w (some l, m) = refl

pub claim_cons-some :
    {V : Type 0} (w : WorkflowStatus V)
    (r : Option (List (WorkflowStatus V)) × Map String (WorkflowStatus V))
    {l : List (WorkflowStatus V)}
    → (claim_cons w r).0 ≡ some l
    → (l0 : List (WorkflowStatus V)) × (r.0 ≡ some l0) × (l ≡ w ∷ l0)
claim_cons-some w (none, m) h = cc
claim_cons-some w (some l0, m) h = (l0, refl, sym (some-injective _ _ h))

module _ {V : Type 0} (req : DequeueRequest) (now_ms : ℤ) (clock : String → DateTime) where
  -- A claim adds one row at most to any count.
  count-claim_all :
      (p : WorkflowStatus V → Bool) (ts : List Ticket) (m : Map String (WorkflowStatus V))
      → count p (Map.values (claim_all req now_ms clock ts m).1)
        ≤ count p (Map.values m) + length ts
  unfolding claim_all
  count-claim_all p [] m = omega arith
  count-claim_all p ((a, b, id) ∷ ts) m = elim (Option-cases (Map.get id m)) [
    | inl e ↦ ground arith
    | inr (w, e) ↦
        let w' = claim_row req now_ms (clock id) w in
        ground (arith, count-insert p id w' m, count-claim_all p ts (Map.insert id w' m))
  ]

  length-claim_all :
      (ts : List Ticket) (m : Map String (WorkflowStatus V)) {l : List (WorkflowStatus V)}
      → (claim_all req now_ms clock ts m).0 ≡ some l
      → length l ≤ length ts
  unfolding claim_all
  length-claim_all [] m h = ground arith
  length-claim_all ((a, b, id) ∷ ts) m {l} h = elim (Option-cases (Map.get id m)) [
    | inl e ↦ absurd (ground arith)
    | inr (w, e) ↦
        let w' = claim_row req now_ms (clock id) w in
        let next = Map.insert id w' m in
        let (l0, r, c) =
          claim_cons-some w' (claim_all req now_ms clock ts next) {l = l} (ground arith) in
        ground (arith, c, length-claim_all ts next {l = l0} r)
  ]

-- The cap of the global limit, exact where the numbers are in range.
global_cap-le :
    {V : Type 0} (req : DequeueRequest) (o : Option ℤ) (n : ℕ) (rows : List (WorkflowStatus V))
    (tasks : ℤ)
    → o ≡ some (pos n)
    → n < half64
    → count (is_running req) rows < half64
    → to_usize (global_cap req o rows tasks) ≤ n - count (is_running req) rows
unfolding global_cap min_ℤ max_ℤ
global_cap-le req o n rows tasks e p q =
    rw e (ground (arith, sub_i64_exact n (count (is_running req) rows) p q))

to_usize-min_ℤ : (a b : ℤ) → to_usize (min_ℤ a b) ≤ to_usize a
unfolding min_ℤ
to_usize-min_ℤ (pos a) (pos b) = ground arith
to_usize-min_ℤ (pos a) (negsuc b) = ground arith
to_usize-min_ℤ (negsuc a) (pos b) = ground arith
to_usize-min_ℤ (negsuc a) (negsuc b) = ground arith

module _ {V : Type 0} ⦃j : Host V⦄ (req : DequeueRequest) (now : DateTime)
    (clock : String → DateTime) where
  length-select_ids : (tasks : ℤ) (g : Inner V) → length (select_ids req tasks g) ≤ to_usize tasks
  unfolding select_ids
  length-select_ids tasks g = length-take-le (to_usize tasks) _

  max_tasks-le :
      (n : ℕ) (now_ms : ℤ) (rows : List (WorkflowStatus V))
      → req.global_concurrency ≡ some (pos n)
      → n < half64
      → count (is_running req) rows < half64
      → to_usize (max_tasks req now_ms rows) ≤ n - count (is_running req) rows
  unfolding max_tasks
  max_tasks-le n now_ms rows e p q = global_cap-le req req.global_concurrency n rows _ e p q

  -- With a global limit, a dispatch leaves no more rows running than the limit, or than there were.
  pub dequeue_workflows-global :
      (n : ℕ) (g : Inner V)
      → req.global_concurrency ≡ some (pos n)
      → n < half64
      → count (is_running req) (Map.values g.workflows) < half64
      → count (is_running req) (Map.values (dequeue_workflows req now clock g).1.workflows)
        ≤ max n (count (is_running req) (Map.values g.workflows))
  unfolding dequeue_workflows
  dequeue_workflows-global n g e p q =
      let rows = Map.values g.workflows in
      let now_ms = j.timestamp_millis now in
      let tasks = max_tasks req now_ms rows in
      ground (
        arith,
        count-claim_all req now_ms clock (is_running req) (select_ids req tasks g) g.workflows,
        length-select_ids tasks g,
        max_tasks-le n now_ms rows e p q,
      )

  global_cap-le_tasks :
      (global : Option ℤ) (rows : List (WorkflowStatus V)) (tasks : ℤ)
      → to_usize (global_cap req global rows tasks) ≤ to_usize tasks
  unfolding global_cap
  global_cap-le_tasks none rows tasks = omega arith
  global_cap-le_tasks (some n) rows tasks = to_usize-min_ℤ tasks _

  rate_cap-le_tasks :
      (limit period : Option ℤ) (now_ms : ℤ) (rows : List (WorkflowStatus V)) (tasks : ℤ)
      → to_usize (rate_cap req limit period now_ms rows tasks) ≤ to_usize tasks
  unfolding rate_cap
  rate_cap-le_tasks (some limit) (some period) now_ms rows tasks = to_usize-min_ℤ tasks _
  rate_cap-le_tasks (some limit) none now_ms rows tasks = omega arith
  rate_cap-le_tasks none period now_ms rows tasks = omega arith

  max_tasks-le_tasks :
      (now_ms : ℤ) (rows : List (WorkflowStatus V))
      → to_usize (max_tasks req now_ms rows) ≤ to_usize req.max_tasks
  unfolding max_tasks
  max_tasks-le_tasks now_ms rows =
      le_trans (global_cap-le_tasks req.global_concurrency rows _) (rate_cap-le_tasks _ _ _ _ _)

  -- No more rows are claimed than the request's own bound.
  pub dequeue_workflows-max_tasks :
      (g g' : Inner V) (claimed : List (WorkflowStatus V))
      → dequeue_workflows req now clock g ≡ (ok (some claimed), g')
      → length claimed ≤ to_usize req.max_tasks
  unfolding dequeue_workflows
  dequeue_workflows-max_tasks g g' claimed h =
      let rows = Map.values g.workflows in
      let now_ms = j.timestamp_millis now in
      let tasks = max_tasks req now_ms rows in
      ground (
        arith,
        length-claim_all req now_ms clock (select_ids req tasks g) g.workflows {l = claimed},
        length-select_ids tasks g,
        max_tasks-le_tasks now_ms rows,
      )
