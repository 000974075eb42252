-- ===== src/Memory/Messages/Keys.antt =====
-- Sends with an idempotency key, `insert_notification` of src/memory.rs.
use durare.Prelude.{
  any-append, Bool, true, String, some, List, [], ◌∷◌, ◌≡◌, refl, ◌==◌, any, string_eq, arith,
  Bool-cases, inl, inr, ==_refl,
}
use durare.Errors.{ok}
use durare.Host.{Host, DateTime}
use durare.Memory.{
  Inner, NotificationRow, NotificationInsert, message_uuid, push_notification, notification_row,
}
use durare.Memory.Messages.{insert_notification}

module _ {V : Type 0} ⦃j : Host V⦄ where
  -- The mailbox has a message with this primary key.
  abbrev has_uuid : String → List (NotificationRow V) → Bool
  has_uuid uuid rows = any (λ n. n.message_uuid == uuid) rows

  has_uuid-push_notification :
      (k u : String) (r : NotificationInsert V) (now : DateTime) (rows : List (NotificationRow V))
      → r.idempotency_key ≡ some k
      → has_uuid (message_uuid (some k) r.destination_id u) (push_notification r u now rows) ≡ true
  unfolding push_notification any
  has_uuid-push_notification k u r now rows e =
      let uuid = message_uuid (some k) r.destination_id u in
      let row = notification_row r uuid now in
      elim (Bool-cases (has_uuid uuid rows)) [
        | inl d ↦ ground (arith, e)
        | inr d ↦
            ground
              (arith, e, any-append (λ n. n.message_uuid == uuid) rows (row ∷ []), ==_refl uuid)
      ]

  push_notification-duplicate :
      (k u : String) (r : NotificationInsert V) (now : DateTime) (rows : List (NotificationRow V))
      → r.idempotency_key ≡ some k
      → has_uuid (message_uuid (some k) r.destination_id u) rows ≡ true
      → push_notification r u now rows ≡ rows
  unfolding push_notification
  push_notification-duplicate k u r now rows e h = ground (arith, e)

  -- Once a keyed send has succeeded, every send with that key to that destination succeeds and
  -- delivers nothing more, whatever its topic and message.
  pub insert_notification-keyed :
      (d t t' : String) (m m' : V) (k u u' : String) (now later : DateTime) (g g' : Inner V)
      → insert_notification d t m (some k) u now g ≡ (ok tt, g')
      → insert_notification d t' m' (some k) u' later g' ≡ (ok tt, g')
  unfolding insert_notification message_uuid
  insert_notification-keyed d t t' m m' k u u' now later g g' h =
      let r : NotificationInsert V = record {
        destination_id = d;
        topic = t;
        message = m;
        idempotency_key = some k;
      } in
      let r' : NotificationInsert V = record {
        destination_id = d;
        topic = t';
        message = m';
        idempotency_key = some k;
      } in
      let rows = push_notification r u now g.notifications in
      let there = has_uuid-push_notification k u r now g.notifications refl in
      ground (arith, push_notification-duplicate k u' r' later rows refl there)
