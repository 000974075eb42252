-- ===== src/Memory/Listing/StepRows.antt =====
-- `get_workflow_steps` of src/memory.rs against the lookup of a step.
use durare.Prelude.{
  any-sort, any-map, ℤ, Bool, false, String, Option, none, some, [], ◌∷◌, ◌≡◌, refl, ◌==◌, ◌&&◌,
  any, sort, string_eq, option_eq, int_eq, pair_eq, arith, Bool-cases, inl, inr, ==→≡, ◌∙◌,
}
use durare.Map
use durare.Map.{Map, Unique}
use durare.Host.{Host}
use durare.Memory.{Inner, StepRow}
use durare.Memory.Steps.{get_step_name}
use durare.Memory.Listing.{
  StepInfo, default_options, step_info, rows_of, by_seq, get_workflow_steps,
}

module _ {V : Type 0} where
  -- the name that a lookup finds
  abbrev pub has_name : Option (StepRow V) → String → Bool
  has_name none n = false
  has_name (some row) n = row.name == n

  any-rows_of :
      (w n : String) (s : ℤ) (m : Map (String × ℤ) (StepRow V))
      → Unique m
      → any (λ (e : ℤ × StepRow V). e.0 == s && e.1.name == n) (rows_of w m)
        ≡ has_name (Map.get (w, s) m) n
  unfolding any rows_of Map.get
  any-rows_of w n s [] u = refl
  any-rows_of w n s (((wid, q), row) ∷ m) u = elim (Bool-cases (wid == w)) [
    | inr e ↦ ground (arith, any-rows_of w n s m u.1)
    | inl e ↦ elim (Bool-cases (q == s)) [
      | inr d ↦ ground (arith, any-rows_of w n s m u.1)
      | inl d ↦ ground (arith, any-rows_of w n s m u.1, ==→≡ wid w e, ==→≡ q s d, u.0)
    ]
  ]

module _ {V : Type 0} ⦃j : Host V⦄ where
  -- With one row per position, the listing of a workflow's steps has a step of this number and
  -- name exactly when the lookup of the name at that position finds it.
  pub get_workflow_steps-get_step_name :
      (w n : String) (s : ℤ) (g : Inner V)
      → Unique g.steps
      → any (λ (i : StepInfo V). i.step_id == s && i.name == n) (get_workflow_steps w g)
        ≡ (get_step_name w s g == some n)
  unfolding get_workflow_steps get_step_name step_info
  get_workflow_steps-get_step_name w n s g u =
      let p : StepInfo V → Bool = λ i. i.step_id == s && i.name == n in
      let q : ℤ × StepRow V → Bool = λ e. e.0 == s && e.1.name == n in
      let rows = rows_of w g.steps in
      any-map p (step_info default_options) (sort by_seq rows)
      ∙ any-sort q by_seq rows
      ∙ any-rows_of w n s g.steps u
      ∙ named (Map.get (w, s) g.steps) refl
    where
      named :
          (o : Option (StepRow V))
          → Map.get (w, s) g.steps ≡ o
          → has_name o n ≡ (get_step_name w s g == some n)
      named none e = ground (arith, e)
      named (some row) e = ground (arith, e)
