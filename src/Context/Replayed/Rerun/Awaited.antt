-- ===== src/Context/Replayed/Rerun/Awaited.antt =====
-- An awaited call of src/context.rs whose record is served, against the reference replay.
use durare.Prelude.{ℤ, String, none, some, ◌≡◌, inl, inr, sym, subst, ap, ◌∙◌, string_eq}
use durare.Errors.{Result, err}
use durare.Host.{Host}
use durare.Execution
use durare.Execution.{Place, record_error, refuse_inside_body, check_call_poll}
use durare.Provider.{StateProvider}
use durare.Provider.Contract.{View, Keeps, IsDurable}
use durare.Context.{DurableContext, World}
use durare.Context.Calls.{next_seq}
use durare.Context.Body.{Operation, Answer, Body, await, perform, claim_name, await_call, run}
use durare.Context.Replayed.{Table, replay}
use durare.Context.Replayed.Served.Performed.{perform-Serves}
use durare.Context.Replayed.Going.{
  Result-cases, IsRunning, refusal, crossing, replay-await_refused, replay-await_crossed,
  await_call-refused, polled_at, await_call-crossed, await_call-performed,
}
use durare.Context.Replayed.Rerun.{
  Ends, Extends, Extends-arrive, Replays, replay-await_served, serve-Extends, served-Ends,
}

module _ {V T S : Type 0} ⦃j : Host V⦄ (view : View V S) (p : StateProvider V S) (w : World V T S)
    (id : String) (durable : IsDurable view p)
    (grows : (seq : ℤ) (s : S) → Keeps view s (w.meanwhile seq s)) (t : Table V) where
  pub await-Ends :
      (at polled : Place) (op : Operation V T) (k : Result V (Answer T) → Body V T)
      → ((a : Result V (Answer T)) → Replays view p w id durable grows t (k a))
      → (r : Result V T) (c : DurableContext V S) → Extends view p w id durable grows t c
      → IsRunning id c
      → replay id t (await at polled op k) c.seq ≡ some r
      → (run p w id
          (k (await_call p w id at polled op c).0)
          (await_call p w id at polled op c).1).1.execution.failure
        ≡ none
      → (run p w id (k (await_call p w id at polled op c).0) (await_call p w id at polled op c).1).0
        ≡ r
  await-Ends at polled op k ih r c h run_ok e =
      let goes = λ (x : Result V (Answer T) × DurableContext V S).
        Ends view p w id durable grows t (k x.0) r x.1 in
      elim (Result-cases (refuse_inside_body {V = V} at (claim_name op) (Execution.new id))) [
        | inr (x, n) ↦
            subst goes
              (sym (
                await_call-refused p w id at polled op c x
                  (refusal id at (claim_name op) c run_ok ∙ n)))
              (ih (err x) r c h run_ok
                (sym (replay-await_refused id t at polled op k c.seq x n) ∙ e))
        | inl (u, n) ↦
            elim (Result-cases
              (check_call_poll {V = V} polled (claim_name op) (Execution.new id))) [
                | inr (x, m) ↦
                    subst goes
                      (sym (
                        await_call-crossed p w id at polled op c x
                          (refusal id at (claim_name op) c run_ok ∙ n)
                          (crossing id polled (claim_name op) c run_ok ∙ m)))
                      (ih (err x) r (polled_at p w id c)
                        (Extends-arrive view p w id durable grows t c.seq (next_seq p w id c) h)
                        run_ok (sym (replay-await_crossed id t at polled op k c.seq x n m) ∙ e))
                | inl (v, m) ↦
                    let (a, s, next) =
                      replay-await_served view p w id durable grows t at polled op k c.seq r n m
                        e in
                    let ext =
                      Extends-arrive view p w id durable grows t c.seq (next_seq p w id c) h in
                    subst goes
                      (sym (
                        await_call-performed p w id at polled op c
                          (refusal id at (claim_name op) c run_ok ∙ n)
                          (crossing id polled (claim_name op) c run_ok ∙ m)))
                      (served-Ends view p w id durable grows t k a r (polled_at p w id c)
                        (perform p w id op c.seq (polled_at p w id c))
                        (perform-Serves view p w id durable op c.seq a (polled_at p w id c) (
                          serve-Extends view p w id durable grows t op c.seq a (polled_at p w id c)
                            ext s))
                        (λ d st sq ex.
                          ih a r d (λ q z y. st q ∙ ext q z y)
                            (
                              ap (λ y. y.failure) ex ∙ run_ok.0,
                              ap (λ y. y.workflow_id) ex ∙ run_ok.1,
                            )
                            (ap (replay id t (k a)) sq ∙ next)))
              ]
      ]
