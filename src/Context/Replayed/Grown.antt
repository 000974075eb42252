-- ===== src/Context/Replayed/Grown.antt =====
-- The records of a workflow before and after the calls of src/context.rs.
use durare.Prelude.{ℤ, ℕ, String, none, ◌≡◌, inl, inr, sym, subst}
use durare.Errors.{Result}
use durare.Host.{Host}
use durare.Execution.{Place, refuse_inside_body, check_call_poll}
use durare.Provider.{StateProvider}
use durare.Provider.Contract.{View, IsDurable, Keeps}
use durare.Context.{DurableContext, World, Act}
use durare.Context.Calls
use durare.Context.Calls.{next_seq, patch_marker}
use durare.Context.Body.{
  Operation, Answer, Body, finish, await, built, patch, deprecate_patch, perform, arrive,
  await_call, build_call, unclaimed, run, claim_name,
}
use durare.Context.Replayed.Going.{
  Result-cases, await_call-refused, await_call-crossed, await_call-performed, build_call-refused,
  build_call-claimed, unclaimed-refused, unclaimed-polled,
}
use durare.Context.Replayed.Answered.Operations.{perform-Fixes}
use durare.Context.Replayed.Patched.{Kept, patch-Patches, deprecate_patch-Deprecates}

module _ {V T S : Type 0} ⦃j : Host V⦄ (view : View V S) (p : StateProvider V S) (w : World V T S)
    (id : String) (durable : IsDurable view p)
    (alone : (seq : ℤ) (attempt : ℕ) (s : S) (q : ℤ)
      → view (w.live seq attempt s).1 id q ≡ view s id q)
    (grows : (seq : ℤ) (s : S) → Keeps view s (w.meanwhile seq s)) where
  Kept-trans : (c d e : DurableContext V S) → Kept view id c d → Kept view id d e → Kept view id c e
  Kept-trans c d e (g, v) (g', v') = ((λ q r h. g' q r (g q r h)), v')

  arrive-Kept :
      (q : ℤ) (c : DurableContext V S) → c.verify ≡ none → Kept view id c (arrive p w id q c)
  arrive-Kept q c v = ((λ n r h. grows q c.store id n r h), v)

  pub await_call-Kept :
      (at polled : Place) (op : Operation V T) (c : DurableContext V S)
      → c.verify ≡ none
      → Kept view id c (await_call p w id at polled op c).1
  await_call-Kept at polled op c v =
      let d = arrive p w id c.seq (next_seq p w id c) in
      let kept = λ (x : Result V (Answer T) × DurableContext V S). Kept view id c x.1 in
      elim (Result-cases (refuse_inside_body at (claim_name op) c.execution)) [
        | inr (e, h) ↦
            subst kept (sym (await_call-refused p w id at polled op c e h)) ((λ q r g. g), v)
        | inl (u, h) ↦ elim (Result-cases (check_call_poll polled (claim_name op) c.execution)) [
          | inr (e, g) ↦
              subst kept (sym (await_call-crossed p w id at polled op c e h g))
                (arrive-Kept c.seq (next_seq p w id c) v)
          | inl (u, g) ↦
              let ((k, sq, v'), z) = perform-Fixes view p w id durable alone op c.seq d v in
              subst kept (sym (await_call-performed p w id at polled op c h g)) (
                Kept-trans c d (perform p w id op c.seq d).1
                  (arrive-Kept c.seq (next_seq p w id c) v) (k, v'))
        ]
      ]

  pub build_call-Kept :
      (at : Place) (op : Operation V T) (c : DurableContext V S)
      → c.verify ≡ none
      → Kept view id c (build_call p w id at op c)
  build_call-Kept at op c v =
      elim (Result-cases (refuse_inside_body at (claim_name op) c.execution)) [
        | inr (e, h) ↦
            subst (Kept view id c) (sym (build_call-refused p w id at op c e h)) ((λ q r g. g), v)
        | inl (u, h) ↦
            subst (Kept view id c) (sym (build_call-claimed p w id at op c h)) ((λ q r g. g), v)
      ]

  pub unclaimed-Kept :
      {A : Type 0} (at : Place) (operation : String) (act : Act V S A) (c : DurableContext V S)
      → c.verify ≡ none
      → ((d : DurableContext V S) → d.verify ≡ none → Kept view id d (act d).1)
      → Kept view id c (unclaimed p w id at operation act c).1
  unclaimed-Kept {A} at operation act c v k =
      let kept = λ (x : Result V A × DurableContext V S). Kept view id c x.1 in
      elim (Result-cases (refuse_inside_body at operation c.execution)) [
        | inr (e, h) ↦
            subst kept (sym (unclaimed-refused p w id at operation act c e h)) ((λ q r g. g), v)
        | inl (u, h) ↦ subst kept (sym (unclaimed-polled p w id at operation act c h)) (
            Kept-trans c (arrive p w id c.seq c) (act (arrive p w id c.seq c)).1
              (arrive-Kept c.seq c v) (k (arrive p w id c.seq c) v))
      ]

  pub run-Kept :
      (b : Body V T) (c : DurableContext V S) → c.verify ≡ none → Kept view id c (run p w id b c).1
  unfolding run
  run-Kept (finish r) c v = ((λ q z g. g), v)
  run-Kept (await at polled op k) c v =
      let x = await_call p w id at polled op c in
      let h = await_call-Kept at polled op c v in
      Kept-trans c x.1 (run p w id (k x.0) x.1).1 h (run-Kept (k x.0) x.1 h.1)
  run-Kept (built at op b) c v =
      let d = build_call p w id at op c in
      let h = build_call-Kept at op c v in Kept-trans c d (run p w id b d).1 h (run-Kept b d h.1)
  run-Kept (patch at name k) c v =
      let x = unclaimed p w id at "patch" (Calls.patch p w id name) c in
      let h =
        unclaimed-Kept at "patch" (Calls.patch p w id name) c v
          (λ d u. (patch-Patches view p w id durable name d u).0) in
      Kept-trans c x.1 (run p w id (k x.0) x.1).1 h (run-Kept (k x.0) x.1 h.1)
  run-Kept (deprecate_patch at name k) c v =
      let x = unclaimed p w id at "deprecate_patch" (Calls.deprecate_patch p w id name) c in
      let h =
        unclaimed-Kept at "deprecate_patch" (Calls.deprecate_patch p w id name) c v
          (λ d u. (deprecate_patch-Deprecates view p w id durable name d u).0) in
      Kept-trans c x.1 (run p w id (k x.0) x.1).1 h (run-Kept (k x.0) x.1 h.1)
