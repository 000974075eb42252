-- ===== src/Context/Replayed/Settled/Markers.antt =====
-- `patch` and `deprecate_patch` of src/context.rs in a run that left its records, against the
-- reference replay.
use durare.Prelude.{
  ℤ, ℕ, String, Option, none, some, Bool, false, ◌≡◌, inl, inr, refl, sym, subst, ap, ◌∙◌, arith,
  ◌==◌, string_eq, option_eq, succ_i32,
}
use durare.Errors.{Result, ok, err}
use durare.Host.{Host}
use durare.Execution
use durare.Execution.{Place, refuse_inside_body, check_call_poll}
use durare.Memory.{RecordedStep}
use durare.Provider.{StateProvider}
use durare.Provider.Contract.{View, IsDurable, Keeps, name_at}
use durare.Context.{DurableContext, World}
use durare.Context.Calls
use durare.Context.Calls.{next_seq, patch_marker}
use durare.Context.Body.{Body, patch, deprecate_patch, arrive, unclaimed, run}
use durare.Context.Replayed.{Table, replay}
use durare.Context.Replayed.Going.{
  Result-cases, IsRunning, refusal, replay-patch_refused, replay-patch_own, replay-patch_other,
  replay-deprecate_refused, replay-deprecate_own, replay-deprecate_other, unclaimed-refused,
  unclaimed-polled,
}
use durare.Context.Replayed.Patched.{Patches, Deprecates, patch-Patches, deprecate_patch-Deprecates}
use durare.Context.Replayed.Settled.{
  Marked, Bypassed, Settled, Holds, AllSettle, unlatched, rest_of, left_at,
}

module _ {V T S : Type 0} ⦃j : Host V⦄ (view : View V S) (p : StateProvider V S) (w : World V T S)
    (id : String) (durable : IsDurable view p)
    (alone : (seq : ℤ) (attempt : ℕ) (s : S) (q : ℤ)
      → view (w.live seq attempt s).1 id q ≡ view s id q)
    (grows : (seq : ℤ) (s : S) → Keeps view s (w.meanwhile seq s)) (t : Table V) where
  module _ (at : Place) (name : String) (k : Result V Bool → Body V T)
      (ih : (a : Result V Bool) → AllSettle view p w id t (k a)) (c : DurableContext V S)
      (o : IsRunning id c) where
    abbrev pub PatchGoes : Result V Bool × DurableContext V S → Type 0
    PatchGoes x =
        Holds view p w id t (run p w id (k x.0) x.1).1
        → (run p w id (k x.0) x.1).1.execution.failure ≡ none
        → Marked view p w id t at c x.1
        → Settled view p w id t (k x.0) x.1
        → replay id t (patch at name k) c.seq ≡ some (run p w id (k x.0) x.1).0

    patched-Goes :
        (x : Result V Bool × DurableContext V S)
        → refuse_inside_body {V = V} at "patch" (Execution.new id) ≡ ok tt
        → Patches view id (patch_marker name) (arrive p w id c.seq c) x
        → PatchGoes x
    patched-Goes x n (g, inl (e, q, l)) h f r s = absurd (unlatched view p w id t (k x.0) x.1 l f)
    patched-Goes x n ((g, v), inr (ex, m)) h f r s =
        let (rec, z) = r (refusal id at "patch" c o ∙ n) in
        let in_table = left_at view p w id durable alone grows t (k x.0) x.1 c.seq rec v h z in
        elim (m rec z) [
          | inl (b, y, sq) ↦
              replay-patch_own id t at name k c.seq rec n in_table b
              ∙ ap (λ a. replay id t (k a) (succ_i32 c.seq)) (sym y)
              ∙ rest_of view p w id t k ih (succ_i32 c.seq) c x o ex v sq h f s
          | inr (b, y, sq) ↦
              replay-patch_other id t at name k c.seq rec n in_table b
              ∙ ap (λ a. replay id t (k a) c.seq) (sym y)
              ∙ rest_of view p w id t k ih c.seq c x o ex v sq h f s
        ]

    pub patch-Goes :
        c.verify ≡ none → PatchGoes (unclaimed p w id at "patch" (Calls.patch p w id name) c)
    patch-Goes v =
        let act = Calls.patch p w id name in
        elim (Result-cases (refuse_inside_body {V = V} at "patch" (Execution.new id))) [
          | inr (e, n) ↦
              subst PatchGoes
                (sym (unclaimed-refused p w id at "patch" act c e (refusal id at "patch" c o ∙ n)))
                (λ h f r s. replay-patch_refused id t at name k c.seq e n ∙ ih (err e) c v o h f s)
          | inl (u, n) ↦
              subst PatchGoes
                (sym (unclaimed-polled p w id at "patch" act c (refusal id at "patch" c o ∙ n)))
                (patched-Goes (act (arrive p w id c.seq c)) n
                  (patch-Patches view p w id durable name (arrive p w id c.seq c) v))
        ]

  -- The marker in the table, against the one that the call found.
  found_marker :
      (marker : String) (rec : RecordedStep V) (o : Option (RecordedStep V))
      → (o ≡ none → (rec.name == marker) ≡ false)
      → ((r : RecordedStep V) → o ≡ some r → some rec ≡ some r)
      → (rec.name == marker) ≡ (name_at o == some marker)
  found_marker marker rec none a h = ground (arith, a refl)
  found_marker marker rec (some r) a h = ground (arith, ap name_at (h r refl))

  module _ (at : Place) (name : String) (k : Result V (Unit {0}) → Body V T)
      (ih : (a : Result V (Unit {0})) → AllSettle view p w id t (k a)) (c : DurableContext V S)
      (o : IsRunning id c) where
    abbrev pub DeprecateGoes : Result V (Unit {0}) × DurableContext V S → Type 0
    DeprecateGoes x =
        Holds view p w id t (run p w id (k x.0) x.1).1
        → (run p w id (k x.0) x.1).1.execution.failure ≡ none
        → Bypassed view p w id t at name c
        → Settled view p w id t (k x.0) x.1
        → replay id t (deprecate_patch at name k) c.seq ≡ some (run p w id (k x.0) x.1).0

    deprecated-Goes :
        (x : Result V (Unit {0}) × DurableContext V S)
        → refuse_inside_body {V = V} at "deprecate_patch" (Execution.new id) ≡ ok tt
        → Deprecates view id (patch_marker name) (arrive p w id c.seq c) x
        → DeprecateGoes x
    deprecated-Goes x n (g, inl (e, q, l)) h f r s =
        absurd (unlatched view p w id t (k x.0) x.1 l f)
    deprecated-Goes x n ((g, v), inr (ex, m)) h f r s =
        let (rec, z, a) = r (refusal id at "deprecate_patch" c o ∙ n) in
        let same =
          found_marker (patch_marker name) rec (view (arrive p w id c.seq c).store id c.seq) a
            (λ y e.
              sym z
              ∙ left_at view p w id durable alone grows t (k x.0) x.1 c.seq y v h (g c.seq y e)) in
        elim m [
          | inl (b, y, sq) ↦
              replay-deprecate_own id t at name k c.seq rec n z (same ∙ b)
              ∙ ap (λ a. replay id t (k a) (succ_i32 c.seq)) (sym y)
              ∙ rest_of view p w id t k ih (succ_i32 c.seq) c x o ex v sq h f s
          | inr (b, y, sq) ↦
              replay-deprecate_other id t at name k c.seq rec n z (same ∙ b)
              ∙ ap (λ a. replay id t (k a) c.seq) (sym y)
              ∙ rest_of view p w id t k ih c.seq c x o ex v sq h f s
        ]

    pub deprecate-Goes :
        c.verify ≡ none
        → DeprecateGoes
            (unclaimed p w id at "deprecate_patch" (Calls.deprecate_patch p w id name) c)
    deprecate-Goes v =
        let act = Calls.deprecate_patch p w id name in
        elim (Result-cases (refuse_inside_body {V = V} at "deprecate_patch" (Execution.new id))) [
          | inr (e, n) ↦
              subst DeprecateGoes
                (sym (
                  unclaimed-refused p w id at "deprecate_patch" act c e
                    (refusal id at "deprecate_patch" c o ∙ n)))
                (λ h f r s.
                  replay-deprecate_refused id t at name k c.seq e n ∙ ih (err e) c v o h f s)
          | inl (u, n) ↦
              subst DeprecateGoes
                (sym (
                  unclaimed-polled p w id at "deprecate_patch" act c
                    (refusal id at "deprecate_patch" c o ∙ n)))
                (deprecated-Goes (act (arrive p w id c.seq c)) n
                  (deprecate_patch-Deprecates view p w id durable name (arrive p w id c.seq c) v))
        ]
