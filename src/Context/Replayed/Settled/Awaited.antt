-- ===== src/Context/Replayed/Settled/Awaited.antt =====
-- An awaited call of src/context.rs in a run that left its records, against the reference replay.
use durare.Prelude.{
  ℤ, ℕ, String, none, some, ◌≡◌, inl, inr, sym, subst, ap, ◌∙◌, arith, Option-cases, string_eq,
  option_eq, succ_i32,
}
use durare.Errors.{Result, ok, err}
use durare.Host.{Host}
use durare.Execution
use durare.Execution.{Place, refuse_inside_body, check_call_poll}
use durare.Provider.{StateProvider}
use durare.Provider.Contract.{View, IsDurable, Keeps, name_at}
use durare.Context.{DurableContext, World}
use durare.Context.Body.{
  Operation, Answer, Body, await, perform, await_call, run, claim_name, record_name,
}
use durare.Context.Replayed.{Table, serve, replay}
use durare.Context.Replayed.Going.{
  Result-cases, serve_local, IsRunning, refusal, crossing, replay-await_refused,
  replay-await_crossed, replay-await_goes, await_call-refused, polled_at, await_call-crossed,
  await_call-performed,
}
use durare.Context.Replayed.Live.{Fixes}
use durare.Context.Replayed.Answered.Operations.{perform-Fixes}
use durare.Context.Replayed.Settled.{
  Recorded, Settled, Holds, AllSettle, unlatched, rest_of, left_at,
}

module _ {V T S : Type 0} ⦃j : Host V⦄ (view : View V S) (p : StateProvider V S) (w : World V T S)
    (id : String) (durable : IsDurable view p)
    (alone : (seq : ℤ) (attempt : ℕ) (s : S) (q : ℤ)
      → view (w.live seq attempt s).1 id q ≡ view s id q)
    (grows : (seq : ℤ) (s : S) → Keeps view s (w.meanwhile seq s)) (t : Table V) where
  module _ (at polled : Place) (op : Operation V T) (k : Result V (Answer T) → Body V T)
      (ih : (a : Result V (Answer T)) → AllSettle view p w id t (k a)) (c : DurableContext V S)
      (o : IsRunning id c) where
    abbrev pub AwaitGoes : Result V (Answer T) × DurableContext V S → Type 0
    AwaitGoes x =
        Holds view p w id t (run p w id (k x.0) x.1).1
        → (run p w id (k x.0) x.1).1.execution.failure ≡ none
        → Recorded view p w id t at polled op c x.1
        → Settled view p w id t (k x.0) x.1
        → replay id t (await at polled op k) c.seq ≡ some (run p w id (k x.0) x.1).0

    performed-Goes :
        (x : Result V (Answer T) × DurableContext V S)
        → refuse_inside_body {V = V} at (claim_name op) (Execution.new id) ≡ ok tt
        → check_call_poll {V = V} polled (claim_name op) (Execution.new id) ≡ ok tt
        → Fixes view id (λ z. serve (λ q. z) op c.seq) (record_name op) c.seq (polled_at p w id c) x
        → AwaitGoes x
    performed-Goes x n m ((g, sq, v), inl (e, q, l)) h f r s =
        absurd (unlatched view p w id t (k x.0) x.1 l f)
    performed-Goes x n m ((g, sq, v), inr (ex, fx)) h f r s =
        let name =
          r (refusal id at (claim_name op) c o ∙ n) (crossing id polled (claim_name op) c o ∙ m) in
        elim (Option-cases (view x.1.store id c.seq)) [
          | inl z ↦ absurd (ground (arith, ap name_at z, name))
          | inr (rec, z) ↦
              let in_table =
                left_at view p w id durable alone grows t (k x.0) x.1 c.seq rec v h z in
              replay-await_goes id t at polled op k c.seq x.0 n m
                (serve_local t (λ q. view x.1.store id c.seq) op c.seq (in_table ∙ sym z) ∙ fx name)
              ∙ rest_of view p w id t k ih (succ_i32 c.seq) c x o ex v sq h f s
        ]

    pub await-Goes : c.verify ≡ none → AwaitGoes (await_call p w id at polled op c)
    await-Goes v =
        elim (Result-cases (refuse_inside_body {V = V} at (claim_name op) (Execution.new id))) [
          | inr (e, n) ↦
              subst AwaitGoes
                (sym (
                  await_call-refused p w id at polled op c e
                    (refusal id at (claim_name op) c o ∙ n)))
                (λ h f r s.
                  replay-await_refused id t at polled op k c.seq e n ∙ ih (err e) c v o h f s)
          | inl (u, n) ↦
              elim (Result-cases
                (check_call_poll {V = V} polled (claim_name op) (Execution.new id))) [
                  | inr (e, m) ↦
                      subst AwaitGoes
                        (sym (
                          await_call-crossed p w id at polled op c e
                            (refusal id at (claim_name op) c o ∙ n)
                            (crossing id polled (claim_name op) c o ∙ m)))
                        (λ h f r s.
                          replay-await_crossed id t at polled op k c.seq e n m
                          ∙ ih (err e) (polled_at p w id c) v o h f s)
                  | inl (y, m) ↦
                      subst AwaitGoes
                        (sym (
                          await_call-performed p w id at polled op c
                            (refusal id at (claim_name op) c o ∙ n)
                            (crossing id polled (claim_name op) c o ∙ m)))
                        (performed-Goes (perform p w id op c.seq (polled_at p w id c)) n m
                          (perform-Fixes view p w id durable alone op c.seq (polled_at p w id c) v))
                ]
        ]
