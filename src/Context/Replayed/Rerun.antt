-- ===== src/Context/Replayed/Rerun.antt =====
-- Runs of a body of src/context.rs over a table of recorded steps, and how they go on.
pub mod Awaited
pub mod Markers
pub mod Again
use durare.Prelude.{
  ℤ, true, false, Bool, String, Option, none, some, ◌≡◌, ◌⊎◌, inl, inr, refl, sym, subst, ap, ◌∙◌,
  arith, Bool-cases, Option-cases, succ_i32, ◌==◌, string_eq,
}
use durare.Errors.{Error, Result, ok, err}
use durare.Host.{Host}
use durare.Execution
use durare.Execution.{Place, record_error, refuse_inside_body, check_call_poll}
use durare.Execution.Latch.{IsLatched, record_error-IsLatched}
use durare.Memory.{RecordedStep}
use durare.Provider.{StateProvider}
use durare.Provider.Contract.{View, Keeps, IsDurable, Reads, name_at}
use durare.Replay.{served_record}
use durare.Context.{DurableContext, World, Act, continue, answer, booked}
use durare.Context.Calls
use durare.Context.Calls.{patch_arm, deprecate_arm, next_seq, patch_marker}
use durare.Context.Body.{
  Operation, Answer, Body, finish, await, built, patch, deprecate_patch, perform, claim_name,
  arrive, await_call, build_call, unclaimed, run,
}
use durare.Context.Latched.{run-latched}
use durare.Context.Replayed.{Table, serve, replay}
use durare.Context.Replayed.Served.{SameTable, IsInterrupted, Serves, booked-SameTable}
use durare.Context.Replayed.Served.Performed.{perform-Serves}
use durare.Context.Replayed.Going.{
  Result-cases, serve_local, serve-none, IsRunning, refusal, crossing, replay-await_refused,
  replay-await_crossed, await_call-refused, polled_at, await_call-crossed, await_call-performed,
  unclaimed-refused, unclaimed-polled,
}

module _ {V T S : Type 0} ⦃j : Host V⦄ (view : View V S) (p : StateProvider V S) (w : World V T S)
    (id : String) (durable : IsDurable view p)
    (grows : (seq : ℤ) (s : S) → Keeps view s (w.meanwhile seq s)) (t : Table V) where
  -- The table is recorded.
  abbrev pub Extends : DurableContext V S → Type 0
  Extends c = (q : ℤ) (r : RecordedStep V) → t q ≡ some r → view c.store id q ≡ some r

  pub Extends-arrive :
      (seq : ℤ) (c : DurableContext V S) → Extends c → Extends (arrive p w id seq c)
  Extends-arrive seq c h q r e = grows seq c.store id q r (h q r e)

  abbrev pub Ends : Body V T → Result V T → DurableContext V S → Type 0
  Ends b r c = (run p w id b c).1.execution.failure ≡ none → (run p w id b c).0 ≡ r

  -- A failure that is latched shows at the end.
  pub latched-Ends :
      (b : Body V T) (r : Result V T) (c : DurableContext V S) → IsLatched c.execution → Ends b r c
  latched-Ends b r c (e, h) f =
      absurd (ground (arith, ap (λ d. d.execution.failure) (run-latched p w id e b c h)))

  -- After a call that was served, the body goes on as the replay does.
  pub served-Ends :
      {A : Type 0} (k : Result V A → Body V T) (a : Result V A) (r : Result V T)
      (c : DurableContext V S) (x : Result V A × DurableContext V S)
      → Serves view id a c x
      → ((d : DurableContext V S)
          → SameTable view id c d
          → d.seq ≡ c.seq
          → d.execution ≡ c.execution
          → Ends (k a) r d)
      → Ends (k x.0) r x.1
  served-Ends k a r c (y, d) (st, sq, inl (e, q, l)) next = latched-Ends (k y) r d l
  served-Ends k a r c (y, d) (st, sq, inr (q, ex)) next =
      subst (λ z. Ends (k z) r d) (sym q) (next d st sq ex)

  pub serve-Extends :
      (op : Operation V T) (q : ℤ) (a : Result V (Answer T)) (c : DurableContext V S)
      → Extends c
      → serve t op q ≡ some a
      → serve (view c.store id) op q ≡ some a
  serve-Extends op q a c h e = elim (Option-cases (t q)) [
    | inl n ↦ absurd (ground (arith, e, serve-none t op q n))
    | inr (r, n) ↦ serve_local (view c.store id) t op q (h q r n ∙ sym n) ∙ e
  ]

  pub replay-await_served :
      (at polled : Place) (op : Operation V T) (k : Result V (Answer T) → Body V T) (q : ℤ)
      (r : Result V T)
      → refuse_inside_body {V = V} at (claim_name op) (Execution.new id) ≡ ok tt
      → check_call_poll {V = V} polled (claim_name op) (Execution.new id) ≡ ok tt
      → replay id t (await at polled op k) q ≡ some r
      → (a : Result V (Answer T)) × (serve t op q ≡ some a)
        × (replay id t (k a) (succ_i32 q) ≡ some r)
  unfolding replay
  replay-await_served at polled op k q r h g e = elim (Option-cases (serve t op q)) [
    | inl s ↦ absurd (ground (arith, h, g))
    | inr (a, s) ↦ (a, s, ground (arith, h, g))
  ]

  -- The part of the main theorem that is proved by induction.
  abbrev pub Replays : Body V T → Type 0
  Replays b =
      (r : Result V T) (c : DurableContext V S)
      → Extends c
      → IsRunning id c
      → replay id t b c.seq ≡ some r
      → Ends b r c
