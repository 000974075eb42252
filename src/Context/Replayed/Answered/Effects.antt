-- ===== src/Context/Replayed/Answered/Effects.antt =====
-- The effects of src/context.rs in an ordinary run, and the checkpoints that they leave.
use durare.Prelude.{ℤ, ℕ, String, Option, none, some, ◌≡◌, inr, refl, ap, ◌∙◌, ==_refl, string_eq}
use durare.Errors.{Result, ok, err}
use durare.Host.{Host, parsed}
use durare.Memory.{StepOutcome, RecordedStep}
use durare.Memory.StepOutcome.{output}
use durare.Provider.{StateProvider}
use durare.Provider.Contract.{View, IsDurable, Writes, Checkpoints}
use durare.Context.{DurableContext, World, Act, pure, continue, answer}
use durare.Context.Calls.{record_done, replay_or_guard, or_live, effect, as_done}
use durare.Context.Replayed.{map_ok, map_option, read_outcome, read_at}
use durare.Context.Replayed.Gate.Guard.{replay_or_guard-Gates}
use durare.Context.Replayed.Live.{Fixes, refused-Fixes}
use durare.Context.Replayed.Performed.{gate-Fixes}

module _ {V T S : Type 0} ⦃j : Host V⦄ (view : View V S) (p : StateProvider V S) (w : World V T S)
    (id : String) (durable : IsDurable view p)
    (alone : (seq : ℤ) (attempt : ℕ) (s : S) (q : ℤ)
      → view (w.live seq attempt s).1 id q ≡ view s id q) where
  -- What a replay reads for an effect.
  abbrev pub read_unit : String → Option (RecordedStep V) → Option (Result V (Unit {0}))
  read_unit name o = map_option (map_ok (λ (a : V). tt)) (read_at {A = V} parsed name o)

  read_unit-own :
      (name : String) (v : V) (o : Option (RecordedStep V))
      → o ≡ some (record { name = name; outcome = output v })
      → read_unit name o ≡ some (ok tt)
  unfolding read_at read_outcome
  read_unit-own name v o h = rw h (rw (==_refl name) refl)

  pub checkpointed-Fixes :
      (seq : ℤ) (name : String) (c : DurableContext V S) (y : Result V (Unit {0}) × S)
      → c.verify ≡ none
      → view c.store id seq ≡ none
      → Checkpoints view id seq name c.store y
      → Fixes view id (read_unit name) name seq c (answer y c)
  checkpointed-Fixes seq name c (ok tt, s) v n (keeps, k) =
      let (x, e) = k n in
      (
        ((λ q r h. keeps id q r h), refl, v),
        inr (refl, λ m. read_unit-own name x (view s id seq) e),
      )
  checkpointed-Fixes seq name c (err e, s) v n (keeps, k) =
      refused-Fixes view id (read_unit name) name seq c e s v n keeps k

  done-Fixes :
      (seq : ℤ) (name : String) (c : DurableContext V S) (y : Result V (StepOutcome V) × S)
      → c.verify ≡ none
      → view c.store id seq ≡ none
      → Writes view id seq name j.null none c.store y
      → Fixes view id (read_unit name) name seq c (continue (λ o. pure tt) (answer y c))
  done-Fixes seq name c (ok o, s) v n (e, keeps, k) = (
    ((λ q r h. keeps id q r h), refl, v),
    inr (
      refl,
      λ m.
          read_unit-own name j.null (view s id seq)
            (e ∙ ap (λ z. some (record { name = name; outcome = z })) (k n refl)),
    ),
  )
  done-Fixes seq name c (err e, s) v n (keeps, k) =
      refused-Fixes view id (read_unit name) name seq c e s v n keeps k

  pub record_done-Fixes :
      (seq : ℤ) (name : String) (c : DurableContext V S)
      → c.verify ≡ none
      → view c.store id seq ≡ none
      → Fixes view id (read_unit name) name seq c (record_done p w id seq name c)
  unfolding record_done
  record_done-Fixes seq name c v n =
      done-Fixes seq name c
        (p.record_step_result id seq name j.null none none (some w.executor_id) (w.tick seq)
          c.store)
        v n
        (durable.record_step_result_lem id seq name j.null none none (some w.executor_id)
          (w.tick seq) c.store)

  pub effect-Fixes :
      (seq : ℤ) (name : String) (live : Act V S (Unit {0})) (c : DurableContext V S)
      → c.verify ≡ none
      → ((d : DurableContext V S)
          → d.verify ≡ none
          → view d.store id seq ≡ none
          → Fixes view id (read_unit name) name seq d (live d))
      → Fixes view id (read_unit name) name seq c (effect p w id seq name live c)
  unfolding effect
  effect-Fixes seq name live c v k =
      gate-Fixes view p w id durable alone (λ (a : V). tt) (read_at {A = V} parsed name)
        (read_unit name) name seq c (λ x. or_live p w id live (as_done x))
        (replay_or_guard p w id {A = V} parsed seq name c) (λ o. refl) (λ a d. refl)
        (replay_or_guard-Gates view p w id durable {A = V} parsed seq name c v) k
