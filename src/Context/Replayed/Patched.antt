-- ===== src/Context/Replayed/Patched.antt =====
-- `patch` and `deprecate_patch` of src/context.rs in an ordinary run, against the record that is at
-- their position.
use durare.Prelude.{
  ℤ, true, false, Bool, String, Option, none, some, ◌≡◌, ◌⊎◌, inl, inr, refl, sym, subst, ap, ◌∙◌,
  arith, Bool-cases, ==_refl, ◌==◌, string_eq, option_eq, succ_i32,
}
use durare.Errors.{Result, ok, err}
use durare.Host.{Host}
use durare.Execution.{record_error}
use durare.Execution.Latch.{record_error-IsLatched, record_error-cases}
use durare.Memory.{RecordedStep}
use durare.Replay.{served_record}
use durare.Provider.{StateProvider}
use durare.Provider.Contract.{View, IsDurable, Checkpoints, Reads, name_at}
use durare.Context.{DurableContext, World, continue, answer, stored}
use durare.Context.Calls
use durare.Context.Calls.{next_seq, patch_arm, deprecate_arm, patch_marker, refuse_live_work}
use durare.Context.Replayed.Gate.{Unless}
use durare.Context.Replayed.Gate.Recorded.{refuse_live_work-none, unverified}

module _ {V S : Type 0} (view : View V S) (id : String) where
  -- The records of the workflow are kept.
  abbrev pub Kept : DurableContext V S → DurableContext V S → Type 0
  Kept c d =
      ((q : ℤ) (r : RecordedStep V) → view c.store id q ≡ some r → view d.store id q ≡ some r)
      × (d.verify ≡ none)

  -- What a marker answers: the first answer and the next position, or the second and the same one.
  abbrev pub Marks : {A : Type 0} → A → A → Bool → ℤ → Result V A × DurableContext V S → Type 0
  Marks own other b q x =
      ((b ≡ true) × (x.0 ≡ ok own) × (x.1.seq ≡ succ_i32 q))
      ⊎ ((b ≡ false) × (x.0 ≡ ok other) × (x.1.seq ≡ q))

  -- The answer of `patch`, by the record that its position then has.
  abbrev pub Patches : String → DurableContext V S → Result V Bool × DurableContext V S → Type 0
  Patches marker c x =
      Kept c x.1
      × Unless view id c x (
          (rec : RecordedStep V)
          → view x.1.store id c.seq ≡ some rec
          → Marks true false (rec.name == marker) c.seq x)

  -- The answer of `deprecate_patch`, by the record that its position had.
  abbrev pub Deprecates :
      String → DurableContext V S → Result V (Unit {0}) × DurableContext V S → Type 0
  Deprecates marker c x =
      Kept c x.1
      × Unless view id c x (Marks tt tt (name_at (view c.store id c.seq) == some marker) c.seq x)

module _ {V T S : Type 0} ⦃j : Host V⦄ (view : View V S) (p : StateProvider V S) (w : World V T S)
    (id : String) (durable : IsDurable view p) where
  recorded-Patches :
      (marker : String) (c : DurableContext V S) (y : Result V (Unit {0}) × S)
      → c.verify ≡ none
      → view c.store id c.seq ≡ none
      → Checkpoints view id c.seq marker c.store y
      → Patches view id marker c (continue (λ u d. (ok true, next_seq p w id d)) (answer y c))
  recorded-Patches marker c (ok tt, s) v n (keeps, k) =
      let (x, e) = k n in
      (
        ((λ q r h. keeps id q r h), v),
        inr (
          refl,
          λ rec m. inl (ground (arith, ap name_at (sym m ∙ e), ==_refl marker), refl, refl),
        ),
      )
  recorded-Patches marker c (err e, s) v n (keeps, inl h) = (
    ((λ q r g. keeps id q r g), v),
    inl ((record_error e c.execution).0, refl, record_error-IsLatched e c.execution h),
  )
  recorded-Patches marker c (err e, s) v n (keeps, inr same) = (
    ((λ q r g. keeps id q r g), v),
    elim (record_error-cases e c.execution) [
      | inl l ↦ inl ((record_error e c.execution).0, refl, l)
      | inr ex ↦ inr (ex, λ rec m. absurd (ground (arith, sym (same id c.seq ∙ n) ∙ m)))
    ],
  )

  patch_arm-Patches :
      (marker : String) (c : DurableContext V S) (o : Option (RecordedStep V))
      → c.verify ≡ none
      → view c.store id c.seq ≡ o
      → Patches view id marker c (patch_arm p w id c.seq marker (name_at o) c)
  unfolding patch_arm
  patch_arm-Patches marker c none v n =
      subst
        (λ z. Patches view id marker c (
          continue (λ u d. (ok true, next_seq p w id d))
            (continue (λ u. stored (p.record_patch id c.seq marker)) z)))
        (sym (refuse_live_work-none view p w id durable c.seq marker c v))
        (recorded-Patches marker c (p.record_patch id c.seq marker c.store) v n
          (durable.record_patch_lem id c.seq marker c.store))
  patch_arm-Patches marker c (some r) v n = elim (Bool-cases (r.name == marker)) [
    | inl h ↦ rw h (
        subst (λ z. Patches view id marker c (ok true, next_seq p w id z))
          (sym (unverified view p w id durable (served_record c.seq) c v))
          (
            ((λ q z g. g), v),
            inr (refl, λ rec m. inl (ground (arith, h, ap name_at (sym n ∙ m)), refl, refl)),
          ))
    | inr h ↦ rw h (
      ((λ q z g. g), v),
      inr (refl, λ rec m. inr (ground (arith, h, ap name_at (sym n ∙ m)), refl, refl)),
    )
  ]

  named-Patches :
      (marker : String) (c : DurableContext V S) (y : Result V (Option String) × S)
      → c.verify ≡ none
      → Reads view (name_at (view c.store id c.seq)) c.store y
      → Patches view id marker c (continue (patch_arm p w id c.seq marker) (answer y c))
  named-Patches marker c (ok b, s) v (q, same) =
      let d = record c { store = s } in
      let ((g, v'), u) = patch_arm-Patches marker d (view c.store id c.seq) v (same id c.seq) in
      subst (λ z. Patches view id marker c (patch_arm p w id c.seq marker z d)) (sym q)
        (((λ n r h. g n r (same id n ∙ h)), v'), u)
  named-Patches marker c (err e, s) v (h, same) = (
    ((λ n r g. same id n ∙ g), v),
    inl ((record_error e c.execution).0, refl, record_error-IsLatched e c.execution h),
  )

  pub patch-Patches :
      (name : String) (c : DurableContext V S)
      → c.verify ≡ none
      → Patches view id (patch_marker name) c (Calls.patch p w id name c)
  unfolding Calls.patch
  patch-Patches name c v =
      named-Patches (patch_marker name) c (p.get_step_name id c.seq c.store) v
        (durable.get_step_name_lem id c.seq c.store)

  deprecate_arm-Deprecates :
      (marker : String) (c : DurableContext V S)
      → c.verify ≡ none
      → Deprecates view id marker c
          (deprecate_arm p w id c.seq marker (name_at (view c.store id c.seq)) c)
  unfolding deprecate_arm
  deprecate_arm-Deprecates marker c v =
      elim (Bool-cases (name_at (view c.store id c.seq) == some marker)) [
        | inl h ↦ rw h (
            subst
              (λ z.
                Kept view id c z
                × Unless view id c (ok tt, next_seq p w id z)
                    (Marks view id tt tt true c.seq (ok tt, next_seq p w id z)))
              (sym (unverified view p w id durable (served_record c.seq) c v))
              (((λ q z g. g), v), inr (refl, inl (refl, refl, refl))))
        | inr h ↦ rw h (((λ q z g. g), v), inr (refl, inr (refl, refl, refl)))
      ]

  named-Deprecates :
      (marker : String) (c : DurableContext V S) (y : Result V (Option String) × S)
      → c.verify ≡ none
      → Reads view (name_at (view c.store id c.seq)) c.store y
      → Deprecates view id marker c (continue (deprecate_arm p w id c.seq marker) (answer y c))
  named-Deprecates marker c (ok b, s) v (q, same) =
      let d = record c { store = s } in
      let ((g, v'), u) = deprecate_arm-Deprecates marker d v in
      let eq : name_at (view s id c.seq) ≡ b = ap name_at (same id c.seq) ∙ sym q in
      subst (λ z. Deprecates view id marker c (deprecate_arm p w id c.seq marker z d)) eq
        (
          ((λ n r h. g n r (same id n ∙ h)), v'),
          subst
              (λ z.
                Unless view id c (deprecate_arm p w id c.seq marker (name_at (view s id c.seq)) d) (
                  Marks view id tt tt (z == some marker) c.seq
                    (deprecate_arm p w id c.seq marker (name_at (view s id c.seq)) d)))
              (ap name_at (same id c.seq)) u,
        )
  named-Deprecates marker c (err e, s) v (h, same) = (
    ((λ n r g. same id n ∙ g), v),
    inl ((record_error e c.execution).0, refl, record_error-IsLatched e c.execution h),
  )

  pub deprecate_patch-Deprecates :
      (name : String) (c : DurableContext V S)
      → c.verify ≡ none
      → Deprecates view id (patch_marker name) c (Calls.deprecate_patch p w id name c)
  unfolding Calls.deprecate_patch
  deprecate_patch-Deprecates name c v =
      named-Deprecates (patch_marker name) c (p.get_step_name id c.seq c.store) v
        (durable.get_step_name_lem id c.seq c.store)
