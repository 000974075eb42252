-- ===== src/Context/Replayed/Rerun/Markers.antt =====
-- `patch` and `deprecate_patch` of src/context.rs whose record is served, against the reference
-- replay.
use durare.Prelude.{
  ℤ, true, false, Bool, String, Option, some, ◌≡◌, ◌⊎◌, inl, inr, refl, sym, subst, ap, ◌∙◌, arith,
  Bool-cases, Option-cases, succ_i32, ◌==◌, string_eq,
}
use durare.Errors.{Error, Result, ok, err}
use durare.Host.{Host}
use durare.Execution
use durare.Execution.{Place, record_error, refuse_inside_body, check_call_poll}
use durare.Execution.Latch.{record_error-IsLatched}
use durare.Memory.{RecordedStep}
use durare.Provider.{StateProvider}
use durare.Provider.Contract.{View, Keeps, IsDurable, Reads, name_at}
use durare.Replay.{served_record}
use durare.Context.{DurableContext, World, Act, continue, answer, booked}
use durare.Context.Calls
use durare.Context.Calls.{patch_arm, deprecate_arm, next_seq, patch_marker}
use durare.Context.Body.{Body, patch, deprecate_patch, arrive, unclaimed, run}
use durare.Context.Replayed.{Table, replay}
use durare.Context.Replayed.Served.{IsInterrupted, booked-SameTable}
use durare.Context.Replayed.Going.{
  Result-cases, IsRunning, refusal, unclaimed-refused, unclaimed-polled,
}
use durare.Context.Replayed.Rerun.{Ends, Extends, Extends-arrive, Replays, latched-Ends}

module _ {V T S : Type 0} ⦃j : Host V⦄ (view : View V S) (p : StateProvider V S) (w : World V T S)
    (id : String) (durable : IsDurable view p)
    (grows : (seq : ℤ) (s : S) → Keeps view s (w.meanwhile seq s)) (t : Table V) where
  -- A call that asks for the recorded name: interrupted, or it goes on with that name.
  named :
      {A : Type 0} (arm : Option String → Act V S A) (n : String) (c : DurableContext V S)
      (y : Result V (Option String) × S)
      → Reads view (some n) c.store y
      → IsInterrupted view id (continue arm (answer y c))
        ⊎ ((s : S) × ((q : ℤ) → view s id q ≡ view c.store id q)
            × (continue arm (answer y c) ≡ arm (some n) (record c { store = s })))
  named arm n c (ok b, s) (q, same) =
      inr (s, (λ m. same id m), ap (λ z. arm z (record c { store = s })) q)
  named arm n c (err e, s) (h, same) =
      inl ((record_error e c.execution).0, refl, record_error-IsLatched e c.execution h)

  abbrev next_served : DurableContext V S → DurableContext V S
  next_served c = next_seq p w id (booked (served_record c.seq) c)

  patch_arm-own :
      (marker n : String) (c : DurableContext V S)
      → (n == marker) ≡ true
      → patch_arm p w id c.seq marker (some n) c ≡ (ok true, next_served c)
  unfolding patch_arm
  patch_arm-own marker n c h = ground (arith, h)

  patch_arm-other :
      (marker n : String) (c : DurableContext V S)
      → (n == marker) ≡ false
      → patch_arm p w id c.seq marker (some n) c ≡ (ok false, c)
  unfolding patch_arm
  patch_arm-other marker n c h = ground (arith, h)

  deprecate_arm-own :
      (marker n : String) (c : DurableContext V S)
      → (n == marker) ≡ true
      → deprecate_arm p w id c.seq marker (some n) c ≡ (ok tt, next_served c)
  unfolding deprecate_arm
  deprecate_arm-own marker n c h = ground (arith, h)

  deprecate_arm-other :
      (marker n : String) (c : DurableContext V S)
      → (n == marker) ≡ false
      → deprecate_arm p w id c.seq marker (some n) c ≡ (ok tt, c)
  unfolding deprecate_arm
  deprecate_arm-other marker n c h = ground (arith, h)

  name_at-some :
      (o : Option (RecordedStep V)) (r : RecordedStep V) → o ≡ some r → name_at o ≡ some r.name
  name_at-some o r h = ap name_at h

  -- The replay of a call that asks for a name, by its own marker or another's.
  module _ {A : Type 0} (k : Result V A → Body V T)
      (ih : (a : Result V A) → Replays view p w id durable grows t (k a)) (own other : A)
      (arm : ℤ → Option String → Act V S A) (marker : String)
      (arm_own : (n : String) (c : DurableContext V S)
        → (n == marker) ≡ true
        → arm c.seq (some n) c ≡ (ok own, next_served c))
      (arm_other : (n : String) (c : DurableContext V S)
        → (n == marker) ≡ false
        → arm c.seq (some n) c ≡ (ok other, c)) where
    abbrev Goes : Result V T → Result V A × DurableContext V S → Type 0
    Goes r x = Ends view p w id durable grows t (k x.0) r x.1

    arm-Ends :
        (r : Result V T) (rec : RecordedStep V) (c : DurableContext V S)
        → Extends view p w id durable grows t c
        → IsRunning id c
        → ((rec.name == marker) ≡ true → replay id t (k (ok own)) (succ_i32 c.seq) ≡ some r)
        → ((rec.name == marker) ≡ false → replay id t (k (ok other)) c.seq ≡ some r)
        → Goes r (arm c.seq (some rec.name) c)
    arm-Ends r rec c h o yes_own no_own = elim (Bool-cases (rec.name == marker)) [
      | inl e ↦
          let (st, sq, ex) = booked-SameTable view id (served_record c.seq) c in
          subst (Goes r) (sym (arm_own rec.name c e)) (
            ih (ok own) r (next_served c) (λ q z y. st q ∙ h q z y)
              (ap (λ y. y.failure) ex ∙ o.0, ap (λ y. y.workflow_id) ex ∙ o.1)
              (ap (λ z. replay id t (k (ok own)) (succ_i32 z)) sq ∙ yes_own e))
      | inr e ↦ subst (Goes r) (sym (arm_other rec.name c e)) (ih (ok other) r c h o (no_own e))
    ]

    named-Ends :
        (r : Result V T) (rec : RecordedStep V) (c : DurableContext V S)
        → Extends view p w id durable grows t c
        → IsRunning id c
        → view c.store id c.seq ≡ some rec
        → ((rec.name == marker) ≡ true → replay id t (k (ok own)) (succ_i32 c.seq) ≡ some r)
        → ((rec.name == marker) ≡ false → replay id t (k (ok other)) c.seq ≡ some r)
        → Goes r (continue (arm c.seq) (answer (p.get_step_name id c.seq c.store) c))
    named-Ends r rec c h o e yes_own no_own =
        elim (named (arm c.seq) rec.name c (p.get_step_name id c.seq c.store) (
          subst (λ z. Reads view z c.store (p.get_step_name id c.seq c.store))
            (name_at-some (view c.store id c.seq) rec e)
            (durable.get_step_name_lem id c.seq c.store))) [
              | inl (x, q, l) ↦
                  latched-Ends view p w id durable grows t
                    (k (continue (arm c.seq) (answer (p.get_step_name id c.seq c.store) c)).0) r
                    (continue (arm c.seq) (answer (p.get_step_name id c.seq c.store) c)).1 l
              | inr (s, same, q) ↦ subst (Goes r) (sym q) (
                  arm-Ends r rec (record c { store = s }) (λ n z y. same n ∙ h n z y) o yes_own
                    no_own)
            ]

  -- The replay of a call that is checked when it is polled.
  unclaimed-Ends :
      {A : Type 0} (at : Place) (operation : String) (act : Act V S A) (k : Result V A → Body V T)
      (r : Result V T) (c : DurableContext V S)
      → Extends view p w id durable grows t c
      → IsRunning id c
      → ((e : Error V)
          → refuse_inside_body at operation (Execution.new id) ≡ err e
          → Ends view p w id durable grows t (k (err e)) r c)
      → (refuse_inside_body {V = V} at operation (Execution.new id) ≡ ok tt
          → Ends view p w id durable grows t
              (k (act (arrive p w id c.seq c)).0)
              r
              (act (arrive p w id c.seq c)).1)
      → Ends view p w id durable grows t
          (k (unclaimed p w id at operation act c).0)
          r
          (unclaimed p w id at operation act c).1
  unclaimed-Ends at operation act k r c h o refused goes =
      elim (Result-cases (refuse_inside_body {V = V} at operation (Execution.new id))) [
        | inr (e, n) ↦
            subst (λ x. Ends view p w id durable grows t (k x.0) r x.1)
              (sym
                (unclaimed-refused p w id at operation act c e (refusal id at operation c o ∙ n)))
              (refused e n)
        | inl (u, n) ↦
            subst (λ x. Ends view p w id durable grows t (k x.0) r x.1)
              (sym (unclaimed-polled p w id at operation act c (refusal id at operation c o ∙ n)))
              (goes n)
      ]

  pub patch-Ends :
      (at : Place) (name : String) (k : Result V Bool → Body V T)
      → ((a : Result V Bool) → Replays view p w id durable grows t (k a))
      → Replays view p w id durable grows t (patch at name k)
  unfolding run replay Calls.patch
  patch-Ends at name k ih r c h o e =
      unclaimed-Ends at "patch" (Calls.patch p w id name) k r c h o
        (λ x n. ih (err x) r c h o (ground (arith, n)))
        λ n. elim (Option-cases (t c.seq)) [
          | inl z ↦ absurd (ground (arith, n))
          | inr (rec, z) ↦
              named-Ends k ih true false (λ q. patch_arm p w id q (patch_marker name))
                (patch_marker name) (patch_arm-own (patch_marker name))
                (patch_arm-other (patch_marker name)) r rec (arrive p w id c.seq c)
                (Extends-arrive view p w id durable grows t c.seq c h) o
                (Extends-arrive view p w id durable grows t c.seq c h c.seq rec z)
                (λ m. ground (arith, n, z, m)) (λ m. ground (arith, n, z, m))
        ]

  pub deprecate_patch-Ends :
      (at : Place) (name : String) (k : Result V (Unit {0}) → Body V T)
      → ((a : Result V (Unit {0})) → Replays view p w id durable grows t (k a))
      → Replays view p w id durable grows t (deprecate_patch at name k)
  unfolding run replay Calls.deprecate_patch
  deprecate_patch-Ends at name k ih r c h o e =
      unclaimed-Ends at "deprecate_patch" (Calls.deprecate_patch p w id name) k r c h o
        (λ x n. ih (err x) r c h o (ground (arith, n)))
        λ n. elim (Option-cases (t c.seq)) [
          | inl z ↦ absurd (ground (arith, n))
          | inr (rec, z) ↦
              named-Ends k ih tt tt (λ q. deprecate_arm p w id q (patch_marker name))
                (patch_marker name) (deprecate_arm-own (patch_marker name))
                (deprecate_arm-other (patch_marker name)) r rec (arrive p w id c.seq c)
                (Extends-arrive view p w id durable grows t c.seq c h) o
                (Extends-arrive view p w id durable grows t c.seq c h c.seq rec z)
                (λ m. ground (arith, n, z, m)) (λ m. ground (arith, n, z, m))
        ]
