-- ===== src/Memory/Messages.antt =====
-- src/memory.rs: the mailbox. Sends, sends from a workflow, and the consuming receive.
pub mod Delivery
pub mod Keys
use durare.Prelude.{
  ℤ, ℕ, Bool, true, false, String, Option, none, some, List, [], ◌∷◌, ◌++◌, ◌==◌, ◌&&◌, not, leb_ℤ,
  if◌then◌else◌, filter, min_by, map, sort, string_eq, ◌≡◌, ◌⊎◌, refl, inl, inr,
}
use durare.Map
use durare.Errors.{Error, Result, ok, err, non_existent_workflow}
use durare.Host.{Host, DateTime}
use durare.Memory.{
  Inner, Op, NotificationRow, NotificationInsert, StepRow, message_uuid, is_duplicate,
  notification_row, push_notification, push_notifications, recorded_at, checkpoint,
  step_row_outcome, into_value_result,
}

-- provider.rs
pub record NotificationInfo (V : Type 0) : Type 0 where
  pub topic : Option String
  pub message : V
  pub created_at_ms : ℤ
  pub consumed : Bool

-- The message waits in the mailbox `(workflow_id, topic)`.
unfoldable pub waits : {V : Type 0} → String → String → NotificationRow V → Bool
waits workflow_id topic n = not n.consumed && (n.destination_id == workflow_id && n.topic == topic)

abbrev pub earlier : {V : Type 0} → NotificationRow V → NotificationRow V → Bool
earlier a b = leb_ℤ a.created_at_ms b.created_at_ms

-- The oldest waiting message, and the mailbox with that one row marked: `iter_mut`, `filter`,
-- `min_by_key`, and the write through the reference that it returns.
pub data Claim (V : Type 0) : Type 0 where
  nothing : Claim V
  claimed : NotificationRow V → List (NotificationRow V) → Claim V

pub Claim-cases :
    {V : Type 0} (c : Claim V)
    → (c ≡ nothing)
      ⊎ ((row : NotificationRow V) × (rows : List (NotificationRow V)) × (c ≡ claimed row rows))
Claim-cases nothing = inl refl
Claim-cases (claimed row rows) = inr (row, rows, refl)

module _ {V : Type 0} where
  abbrev mark : NotificationRow V → NotificationRow V
  mark n = record n { consumed = true }

  -- The row `n` in front of what the rest claims: an earlier or equal row wins over the rest's.
  abbrev claim_cons : Bool → NotificationRow V → List (NotificationRow V) → Claim V → Claim V
  claim_cons false n rest nothing = nothing
  claim_cons true n rest nothing = claimed n (mark n ∷ rest)
  claim_cons false n rest (claimed m rest') = claimed m (n ∷ rest')
  claim_cons true n rest (claimed m rest') =
      if earlier n m then claimed n (mark n ∷ rest) else claimed m (n ∷ rest')

  unfoldable pub claim_oldest : String → String → List (NotificationRow V) → Claim V
  claim_oldest workflow_id topic [] = nothing
  claim_oldest workflow_id topic (n ∷ rest) =
      claim_cons (waits workflow_id topic n) n rest (claim_oldest workflow_id topic rest)

module _ {V : Type 0} ⦃j : Host V⦄ where
  unfoldable pub insert_notification :
      String → String → V → Option String → String → DateTime → Op V (Unit {0})
  insert_notification destination topic message key fresh now g =
      if Map.contains_key destination g.workflows
      then (
        ok tt,
        record g {
          notifications =
              push_notification
                (record {
                  destination_id = destination;
                  topic = topic;
                  message = message;
                  idempotency_key = key;
                })
                fresh now g.notifications;
        },
      )
      else (err (non_existent_workflow destination), g)

  unfoldable pub insert_notifications :
      List (NotificationInsert V) → (ℕ → String) → DateTime → Op V (Unit {0})
  insert_notifications = push_notifications

  unfoldable pub send_from_workflow :
      String → ℤ → String → List (NotificationInsert V) → (ℕ → String) → DateTime → Op V (Unit {0})
  send_from_workflow workflow_id seq step_name rows fresh now g =
      elim (recorded_at g workflow_id seq step_name) [
        | err e ↦ (err e, g)
        | ok (some row) ↦ (ok tt, g)
        | ok none ↦
            let (r, g') = push_notifications rows fresh now g in
            elim r [
              | err e ↦ (err e, g')
              | ok _ ↦ (ok tt, checkpoint g' workflow_id seq step_name j.null now)
            ]
      ]

  -- `into_value_result().map(Some)`
  abbrev as_some : Result V V → Result V (Option V)
  as_some (ok v) = ok (some v)
  as_some (err e) = err e

  unfoldable pub consume_notification : String → String → ℤ → String → DateTime → Op V (Option V)
  consume_notification workflow_id topic seq step_name now g =
      elim (recorded_at g workflow_id seq step_name) [
        | err e ↦ (err e, g)
        | ok (some row) ↦ (as_some (into_value_result (step_row_outcome row)), g)
        | ok none ↦ elim (claim_oldest workflow_id topic g.notifications) [
          | nothing ↦ (ok none, g)
          | claimed row rows ↦ (
            ok (some row.message),
            checkpoint (record g { notifications = rows }) workflow_id seq step_name row.message
                now,
          )
        ]
      ]

  abbrev notification_info : NotificationRow V → NotificationInfo V
  notification_info n = record {
    topic = if n.topic == "" then none else some n.topic;
    message = n.message;
    created_at_ms = n.created_at_ms;
    consumed = n.consumed;
  }

  unfoldable pub list_workflow_notifications : String → Inner V → List (NotificationInfo V)
  list_workflow_notifications workflow_id g =
      map notification_info
        (sort earlier (filter (λ n. n.destination_id == workflow_id) g.notifications))
