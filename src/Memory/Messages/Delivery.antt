-- ===== src/Memory/Messages/Delivery.antt =====
-- `consume_notification` and `send_from_workflow` of src/memory.rs, first runs and replays.
use durare.Prelude.{
  ℤ, ℕ, true, String, none, some, List, [], ◌∷◌, ◌≡◌, refl, string_eq, pair_eq, int_eq, arith,
  Option-cases, inl, inr, count, All, ◌≤ℤ◌, ==_refl,
}
use durare.Map
use durare.Map.Laws.{get-insert_self}
use durare.Errors.{Error, ok, err}
use durare.Host.{Host, DateTime}
use durare.Memory.{
  Inner, NotificationRow, NotificationInsert, recorded_at, checkpoint, checkpoint_row,
  step_row_outcome, into_value_result, push_notifications,
}
use durare.Memory.Messages.{
  nothing, claim_oldest, waits, consume_notification, send_from_workflow, Claim-cases,
}

module _ {V : Type 0} (w p : String) where
  abbrev IsOldest : NotificationRow V → List (NotificationRow V) → Type 0
  IsOldest m = All (λ n. waits w p n ≡ true → m.created_at_ms ≤ℤ n.created_at_ms)

  -- Without a row to claim nothing waits.
  claim_oldest-nothing :
      (l : List (NotificationRow V)) → claim_oldest w p l ≡ nothing → count (waits w p) l ≡ 0
  unfolding claim_oldest count
  claim_oldest-nothing [] h = refl
  claim_oldest-nothing (n ∷ l) h = elim (Claim-cases (claim_oldest w p l)) [
    | inl e ↦ ground (arith, claim_oldest-nothing l)
    | inr (m, l', e) ↦ ground arith
  ]

  -- The mailbox of the workflow on the topic: how many messages wait.
  abbrev pub waiting : Inner V → ℕ
  waiting g = count (waits w p) g.notifications

into_value_result-checkpoint :
    {V : Type 0} ⦃j : Host V⦄ (step : String) (v : V) (now : DateTime)
    → into_value_result (step_row_outcome (checkpoint_row step v now)) ≡ ok v
unfolding into_value_result step_row_outcome
into_value_result-checkpoint step v now = refl

module _ {V : Type 0} ⦃j : Host V⦄ (w p : String) (q : ℤ) (step : String) (now : DateTime) where
  -- A receive that finds no message leaves no checkpoint, and none waits.
  pub consume_notification-empty :
      (g g' : Inner V)
      → consume_notification w p q step now g ≡ (ok none, g')
      → (g' ≡ g) × (count (waits w p) g.notifications ≡ 0)
  unfolding consume_notification recorded_at
  consume_notification-empty g g' h = elim (Claim-cases (claim_oldest w p g.notifications)) [
    | inl e ↦ (ground arith, claim_oldest-nothing w p g.notifications e)
    | inr (n, rows, e) ↦ absurd (ground arith)
  ]

  -- Once a receive has returned a message, the same receive returns that message again, at any
  -- later time, and takes nothing more from the mailbox.
  pub consume_notification-replay :
      (later : DateTime) (g g' : Inner V) (m : V)
      → consume_notification w p q step now g ≡ (ok (some m), g')
      → consume_notification w p q step later g' ≡ (ok (some m), g')
  unfolding consume_notification recorded_at checkpoint
  consume_notification-replay later g g' m h = elim (Option-cases (Map.get (w, q) g.steps)) [
    | inr (row, e) ↦ ground arith
    | inl e ↦ elim (Claim-cases (claim_oldest w p g.notifications)) [
      | inl c ↦ absurd (ground arith)
      | inr (n, rows, c) ↦
          let row = checkpoint_row step n.message now in
          ground (
            arith,
            get-insert_self (w, q) row g.steps,
            ==_refl step,
            into_value_result-checkpoint step n.message now,
          )
    ]
  ]

module _ {V : Type 0} ⦃j : Host V⦄ where
  -- A send from a workflow that fails delivers nothing and records nothing.
  pub send_from_workflow-err :
      (w : String) (q : ℤ) (step : String) (rows : List (NotificationInsert V)) (u : ℕ → String)
      (now : DateTime) (g g' : Inner V) (e : Error V)
      → send_from_workflow w q step rows u now g ≡ (err e, g')
      → g' ≡ g
  unfolding send_from_workflow push_notifications
  send_from_workflow-err w q step rows u now g g' e h = ground arith

  -- A send that succeeded is not repeated: the same position delivers nothing more, whatever rows
  -- the replay brings.
  pub send_from_workflow-replay :
      (w : String) (q : ℤ) (step : String) (rows rows' : List (NotificationInsert V))
      (u u' : ℕ → String) (now later : DateTime) (g g' : Inner V)
      → send_from_workflow w q step rows u now g ≡ (ok tt, g')
      → send_from_workflow w q step rows' u' later g' ≡ (ok tt, g')
  unfolding send_from_workflow recorded_at checkpoint
  send_from_workflow-replay w q step rows rows' u u' now later g g' h =
      elim (Option-cases (Map.get (w, q) g.steps)) [
        | inr (row, e) ↦ ground arith
        | inl e ↦
            let pushed = (push_notifications rows u now g).1 in
            ground (
              arith,
              ==_refl step,
              get-insert_self (w, q) (checkpoint_row step j.null now) pushed.steps,
            )
      ]
