-- ===== src/Memory/Aggregates/Totals.antt =====
-- src/memory.rs: the counts of the groups account for every row that passes the filter.
use durare.Prelude.{
  String, ℤ, pos, ℕ, suc, ◌+◌, Bool, true, false, Option, none, some, List, [], ◌∷◌, ◌≡◌, refl,
  arith, if◌then◌else◌, map, count, sort, insert_sorted, PartialEq,
}
use durare.Map
use durare.Map.{Map}
use durare.Host.{Host}
use durare.Workflow.{WorkflowStatus}
use durare.Memory.{Inner, StepRow}
use durare.Memory.Aggregates.{
  by_group, Group, group_eq, Acc, acc_of, WorkflowAggregateQuery, is_counted, group_of, add_row,
  accumulate, aggregate_of, by_group, get_workflow_aggregates,
}
use durare.Memory.Aggregates.Steps.{
  by_step_group, StepAcc, step_acc_of, StepAggregateQuery, step_is_counted, step_group_of, add_step,
  accumulate_steps, step_aggregate_of, get_step_aggregates,
}

-- The sum of a quantity over a list.
unfoldable pub total {ℓ} : {A : Type ℓ} → (A → ℕ) → List A → ℕ
total f [] = 0
total f (x ∷ l) = f x + total f l

-- A count that was asked for; one that was not counts as 0.
abbrev pub count_value : Option ℤ → ℕ
count_value (some (pos n)) = n
count_value _ = 0

total-insert_sorted :
    {A : Type 0} (f : A → ℕ) (le : A → A → Bool) (x : A) (l : List A)
    → total f (insert_sorted le x l) ≡ f x + total f l
unfolding total insert_sorted
total-insert_sorted f le x [] = refl
total-insert_sorted f le x (y ∷ l) = ground (arith, total-insert_sorted f le x l)

total-sort :
    {A : Type 0} (f : A → ℕ) (le : A → A → Bool) (l : List A) → total f (sort le l) ≡ total f l
unfolding total sort
total-sort f le [] = refl
total-sort f le (x ∷ l) = ground (arith, total-insert_sorted f le x (sort le l), total-sort f le l)

-- One more in the entry of a key is one more in all.
total-insert :
    {K A : Type 0} ⦃e : PartialEq K⦄ (f : A → ℕ) (of : Option A → A) (g : A → A)
    → ((o : A) → f (of (some o)) ≡ f o)
    → (f (of none) ≡ 0)
    → ((o : A) → f (g o) ≡ suc (f o))
    → (k : K) (m : Map K A)
    → total (λ p. f p.1) (Map.insert k (g (of (Map.get k m))) m) ≡ suc (total (λ p. f p.1) m)
unfolding total Map.insert Map.get
total-insert f of g same zero more k [] = ground (arith, more (of none))
total-insert f of g same zero more k ((j, a) ∷ m) =
    ground (arith, more (of (some a)), same a, total-insert f of g same zero more k m)

total_nil : total {A = Group × Acc} (λ p. p.1.count) [] ≡ 0
unfolding total
total_nil = refl

total-aggregate_of :
    (q : WorkflowAggregateQuery) (accs : Map Group Acc)
    → q.select_count ≡ true
    → total (λ a. count_value a.count) (map (aggregate_of q) accs) ≡ total (λ p. p.1.count) accs
unfolding total aggregate_of
total-aggregate_of q [] h = refl
total-aggregate_of q (p ∷ accs) h = ground (arith, total-aggregate_of q accs h)

module _ {V : Type 0} ⦃j : Host V⦄ (q : WorkflowAggregateQuery) where
  total-accumulate :
      (rows : List (WorkflowStatus V)) (accs : Map Group Acc)
      → total (λ p. p.1.count) (accumulate q rows accs)
        ≡ count (is_counted q) rows + total (λ p. p.1.count) accs
  unfolding accumulate count add_row total
  total-accumulate [] accs = ground arith
  total-accumulate (w ∷ rows) accs =
      elim (is_counted q w)
        as (λ b.
          total (λ p. p.1.count)
            (accumulate q rows (
              if b
              then Map.insert (group_of q w) (add_row q w (acc_of (Map.get (group_of q w) accs)))
                  accs
              else accs))
          ≡ (if b then suc (count (is_counted q) rows) else count (is_counted q) rows)
            + total (λ p. p.1.count) accs) [
              | true ↦ ground (
                arith,
                total-accumulate rows (
                    Map.insert (group_of q w) (add_row q w (acc_of (Map.get (group_of q w) accs)))
                      accs),
                total-insert (λ a. a.count) acc_of (add_row q w) (λ a. refl) refl (λ a. refl)
                    (group_of q w) accs,
              )
              | false ↦ total-accumulate rows accs
            ]

  -- When the count is asked for and no limit is set, the counts of the groups add up to the number of the workflows that pass the query's filters.
  pub get_workflow_aggregates-total :
      (g : Inner V)
      → q.select_count ≡ true
      → q.limit ≡ none
      → total (λ a. count_value a.count) (get_workflow_aggregates q g)
        ≡ count (is_counted q) (Map.values g.workflows)
  unfolding get_workflow_aggregates
  get_workflow_aggregates-total g h l =
      let rows = Map.values g.workflows in
      let accs = accumulate q rows [] in
      let groups = map (aggregate_of q) accs in
      ground (
        arith,
        l,
        total-sort (λ a. count_value a.count) (by_group q) groups,
        total-aggregate_of q accs h,
        total-accumulate rows [],
        total_nil,
      )

total-step_aggregate_of :
    (q : StepAggregateQuery) (accs : Map Group StepAcc)
    → q.select_count ≡ true
    → total (λ a. count_value a.count) (map (step_aggregate_of q) accs) ≡ total (λ p. p.1.0) accs
unfolding total step_aggregate_of
total-step_aggregate_of q [] h = refl
total-step_aggregate_of q ((group, (n, longest)) ∷ accs) h =
    ground (arith, total-step_aggregate_of q accs h)

step_total_nil : total {A = Group × StepAcc} (λ p. p.1.0) [] ≡ 0
unfolding total
step_total_nil = refl

module _ {V : Type 0} (q : StepAggregateQuery) where
  total-accumulate_steps :
      (rows : Map (String × ℤ) (StepRow V)) (accs : Map Group StepAcc)
      → total (λ p. p.1.0) (accumulate_steps q rows accs)
        ≡ count (step_is_counted q) rows + total (λ p. p.1.0) accs
  unfolding accumulate_steps count add_step total
  total-accumulate_steps [] accs = ground arith
  total-accumulate_steps ((key, row) ∷ rows) accs =
      elim (step_is_counted q (key, row))
        as (λ b.
          total (λ p. p.1.0)
            (accumulate_steps q rows (
              if b
              then Map.insert (step_group_of q row)
                  (add_step q row (step_acc_of (Map.get (step_group_of q row) accs))) accs
              else accs))
          ≡ (if b then suc (count (step_is_counted q) rows) else count (step_is_counted q) rows)
            + total (λ p. p.1.0) accs) [
              | true ↦ ground (
                arith,
                total-accumulate_steps rows (
                    Map.insert (step_group_of q row)
                      (add_step q row (step_acc_of (Map.get (step_group_of q row) accs))) accs),
                total-insert (λ a. a.0) step_acc_of (add_step q row) (λ a. refl) refl (λ a. refl)
                    (step_group_of q row) accs,
              )
              | false ↦ total-accumulate_steps rows accs
            ]

  -- When the count is asked for and no limit is set, the counts of the groups add up to the number of the recorded steps that pass the query's filters.
  pub get_step_aggregates-total :
      (g : Inner V)
      → q.select_count ≡ true
      → q.limit ≡ none
      → total (λ a. count_value a.count) (get_step_aggregates q g)
        ≡ count (step_is_counted q) g.steps
  unfolding get_step_aggregates
  get_step_aggregates-total g h l =
      let accs = accumulate_steps q g.steps [] in
      let groups = map (step_aggregate_of q) accs in
      ground (
        arith,
        l,
        total-sort (λ a. count_value a.count) (by_step_group q) groups,
        total-step_aggregate_of q accs h,
        total-accumulate_steps g.steps [],
        step_total_nil,
      )
