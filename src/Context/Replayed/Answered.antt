-- ===== src/Context/Replayed/Answered.antt =====
-- The steps and recorded values of src/context.rs in an ordinary run, against what a replay would
-- be served from their records.
pub mod Effects
pub mod Operations
use durare.Prelude.{
  ℤ, ℕ, String, Option, none, some, ◌≡◌, inl, inr, refl, sym, ap, ◌∙◌, arith, ==_refl, string_eq,
}
use durare.Errors.{Result, ok, err}
use durare.Host.{Host, Parsed, parsed}
use durare.Memory.{StepOutcome, RecordedStep}
use durare.Memory.StepOutcome.{output}
use durare.Provider.{StateProvider}
use durare.Provider.Contract.{View, IsDurable, Writes, Checkpoints}
use durare.Context.{DurableContext, World, Act, pure, continue, answer}
use durare.Context.Calls
use durare.Context.Calls.{
  StepOptions, run_body, checkpoint, settle, run_with_retries, record_done, replay_or_guard,
  serve_recorded, or_live, effect, as_done,
}
use durare.Context.Body.{
  Operation, Answer, value, done, step, step_with, durable_value, sleep, send, send_bulk,
  set_workflow_attributes, set_event, write_stream, close_stream, perform, record_name, as_value,
}
use durare.Context.Body
use durare.Context.Replayed.{map_ok, map_option, read_outcome, read_at, serve}
use durare.Context.Replayed.Gate.Recorded.{serve_recorded-Gates}
use durare.Context.Replayed.Gate.Guard.{replay_or_guard-Gates}
use durare.Context.Replayed.Live.{Fixes, calm-continue, Same-IsCalm, refused-Fixes}
use durare.Context.Replayed.Live.Recording.{checkpoint-Fixes}
use durare.Context.Replayed.Performed.{
  run_body-IsCalm, run_with_retries-IsCalm, settle-Fixes, gate-Fixes,
}

map_self : {V A : Type 0} (o : Option (Result V A)) → o ≡ map_option (map_ok (λ a. a)) o
map_self none = refl
map_self (some (ok a)) = refl
map_self (some (err e)) = refl

module _ {V A B C : Type 0} where
  pub map_map :
      (g : A → B) (h : B → C) (o : Option (Result V A))
      → map_option (map_ok h) (map_option (map_ok g) o) ≡ map_option (map_ok (λ a. h (g a))) o
  map_map g h none = refl
  map_map g h (some (ok a)) = refl
  map_map g h (some (err e)) = refl

module _ {V T S : Type 0} ⦃j : Host V⦄ (view : View V S) (p : StateProvider V S) (w : World V T S)
    (id : String) (durable : IsDurable view p)
    (alone : (seq : ℤ) (attempt : ℕ) (s : S) (q : ℤ)
      → view (w.live seq attempt s).1 id q ≡ view s id q) where
  pub step-Fixes :
      (decode : V → Parsed T) (seq : ℤ) (name : String) (c : DurableContext V S)
      → c.verify ≡ none
      → Fixes view id (read_at decode name) name seq c (Calls.step p w id decode seq name c)
  unfolding Calls.step
  step-Fixes decode seq name c v =
      gate-Fixes view p w id durable alone (λ a. a) (read_at decode name) (read_at decode name) name
        seq c (or_live p w id (settle p w id decode seq name (run_body p w id seq name 0)))
        (replay_or_guard p w id decode seq name c) (λ o. map_self (read_at decode name o))
        (λ a d. refl) (replay_or_guard-Gates view p w id durable decode seq name c v)
        (λ d v' n.
          settle-Fixes view p w id durable alone decode seq name (run_body p w id seq name 0) d n
            (run_body-IsCalm view p w id durable alone seq name 0 d v'))

  pub step_with-Fixes :
      (decode : V → Parsed T) (seq : ℤ) (opts : StepOptions V) (c : DurableContext V S)
      → c.verify ≡ none
      → Fixes view id
          (read_at decode opts.name)
          opts.name
          seq
          c
          (Calls.step_with p w id decode seq opts c)
  unfolding Calls.step_with
  step_with-Fixes decode seq opts c v =
      let body = run_with_retries p w id seq opts opts.max_retries 0 in
      gate-Fixes view p w id durable alone (λ a. a) (read_at decode opts.name)
        (read_at decode opts.name) opts.name seq c
        (or_live p w id (settle p w id decode seq opts.name body))
        (replay_or_guard p w id decode seq opts.name c) (λ o. map_self (read_at decode opts.name o))
        (λ a d. refl) (replay_or_guard-Gates view p w id durable decode seq opts.name c v)
        (λ d v' n.
          settle-Fixes view p w id durable alone decode seq opts.name body d n
            (run_with_retries-IsCalm view p w id durable alone seq opts opts.max_retries 0 d v'))

  pub durable_value_at-Fixes :
      {A : Type 0} (decode : V → Parsed A) (seq : ℤ) (name : String) (produced : Parsed V)
      (c : DurableContext V S)
      → c.verify ≡ none
      → Fixes view id
          (read_at decode name)
          name
          seq
          c
          (Calls.durable_value_at p w id decode seq name produced c)
  unfolding Calls.durable_value_at
  durable_value_at-Fixes decode seq name produced c v =
      gate-Fixes view p w id durable alone (λ a. a) (read_at decode name) (read_at decode name) name
        seq c (or_live p w id (checkpoint p w id decode seq name produced none))
        (serve_recorded p w id decode seq name c) (λ o. map_self (read_at decode name o))
        (λ a d. refl) (serve_recorded-Gates view p w id durable decode seq name c v)
        (λ d v' n. checkpoint-Fixes view p w id durable decode seq name produced none d v' n)
