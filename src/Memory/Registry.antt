-- ===== src/Memory/Registry.antt =====
-- src/memory.rs: the registries of schedules, application versions and queues.
pub mod Versions
use durare.Prelude.{
  ℤ, Bool, true, false, String, Option, none, some, List, [], ◌∷◌, ◌==◌, ◌||◌, if◌then◌else◌, leb_ℤ,
  any, filter, contains, sort, is_empty, str_leb, format, string_eq,
}
use text.Mathlib.Text.{starts_with}
use durare.Map
use durare.Map.{Map}
use durare.Errors.{Result, ok, err, app_error}
use durare.Host.{Host, DateTime, json_eq}
use durare.Schedule.{
  WorkflowSchedule, ScheduleStatus, ScheduleUpdate, ScheduleFilter, WorkflowQueue, validate,
  status_eq,
}
use durare.Memory.{Inner, Op, VersionInfo}
use durare.Memory.Dispatch.{latest_version}

-- a field of an update: absent leaves the old value
abbrev pub or_else {ℓ} : {A : Type ℓ} → Option A → A → A
or_else none old = old
or_else (some a) old = a

module _ {V : Type 0} ⦃j : Host V⦄ where
  unfoldable pub create_schedule : WorkflowSchedule V → Op V (Unit {0})
  create_schedule schedule g =
      if Map.contains_key schedule.schedule_name g.schedules
      then (
        err (app_error (format ("schedule `" ∷ schedule.schedule_name ∷ "` already exists" ∷ []))),
        g,
      )
      else (ok tt, record g { schedules = Map.insert schedule.schedule_name schedule g.schedules })

  -- `context.clone().filter(|v| !v.is_null())`
  abbrev not_null : Option V → Option V
  not_null none = none
  not_null (some v) = if v == j.null then none else some v

  abbrev new_context : Option (Option V) → Option V → Option V
  new_context none old = old
  new_context (some context) old = not_null context

  unfoldable pub updated : ScheduleUpdate V → WorkflowSchedule V → WorkflowSchedule V
  updated u s = record s {
    schedule = or_else u.schedule s.schedule;
    context = new_context u.context s.context;
    automatic_backfill = or_else u.automatic_backfill s.automatic_backfill;
    cron_timezone = or_else u.cron_timezone s.cron_timezone;
    queue_name = or_else u.queue_name s.queue_name;
  }

  unfoldable pub update_schedule :
      (String → Option String) → (String → Bool) → String → ScheduleUpdate V → Op V (Unit {0})
  unfolding updated
  update_schedule cron_error is_timezone name u g = elim (validate cron_error is_timezone u name) [
    | err e ↦ (err e, g)
    | ok _ ↦ elim (Map.get name g.schedules) [
      | none ↦ (err (app_error (format ("schedule `" ∷ name ∷ "` not found" ∷ []))), g)
      | some s ↦ (ok tt, record g { schedules = Map.insert name (updated u s) g.schedules })
    ]
  ]

  unfoldable pub set_schedule_last_fired : String → ℤ → Op V (Unit {0})
  set_schedule_last_fired name at_ms g = elim (Map.get name g.schedules) [
    | none ↦ (ok tt, g)
    | some s ↦ (
      ok tt,
      record g {
        schedules =
            Map.insert name (record s { last_fired_at = j.from_timestamp_millis at_ms })
              g.schedules;
      },
    )
  ]

abbrev by_name : {V : Type 0} → WorkflowSchedule V → WorkflowSchedule V → Bool
by_name a b = str_leb a.schedule_name b.schedule_name

module _ {V : Type 0} where
  unfoldable pub insert_schedules :
      List (WorkflowSchedule V) → Map String (WorkflowSchedule V) → Map String (WorkflowSchedule V)
  insert_schedules [] m = m
  insert_schedules (s ∷ rest) m = insert_schedules rest (Map.insert s.schedule_name s m)

  unfoldable pub apply_schedules : List (WorkflowSchedule V) → Op V (Unit {0})
  unfolding insert_schedules
  apply_schedules schedules g =
      (ok tt, record g { schedules = insert_schedules schedules g.schedules })

  unfoldable pub list_schedules : ScheduleFilter → Inner V → List (WorkflowSchedule V)
  list_schedules f g = sort by_name (
      filter
        (λ s. is_empty f.name_prefixes || any (λ p. starts_with s.schedule_name p) f.name_prefixes)
        (filter (λ s. is_empty f.workflow_names || contains f.workflow_names s.workflow_name)
          (filter (λ s. is_empty f.statuses || contains f.statuses s.status)
            (Map.values g.schedules))))

  unfoldable pub set_schedule_status : String → ScheduleStatus → Op V Bool
  set_schedule_status name status g = elim (Map.get name g.schedules) [
    | none ↦ (ok false, g)
    | some s ↦ (
      ok true,
      record g { schedules = Map.insert name (record s { status = status }) g.schedules },
    )
  ]

  abbrev is_some_schedule : Option (WorkflowSchedule V) → Bool
  is_some_schedule none = false
  is_some_schedule (some s) = true

  unfoldable pub delete_schedule : String → Op V Bool
  delete_schedule name g = (
    ok (is_some_schedule (Map.get name g.schedules)),
    record g { schedules = Map.remove name g.schedules },
  )

  unfoldable pub create_application_version : String → String → DateTime → Op V (Unit {0})
  create_application_version version_name uuid now g = elim (Map.get version_name g.versions) [
    | some v ↦ (ok tt, g)
    | none ↦ (
      ok tt,
      record g {
        versions =
            Map.insert version_name
              (record {
                version_id = uuid;
                version_name = version_name;
                version_timestamp = now;
                created_at = now;
              })
              g.versions;
      },
    )
  ]

  -- `sort_by_key(Reverse(timestamp))`
  unfoldable pub list_application_versions : Inner V → List VersionInfo
  list_application_versions g =
      sort (λ a b. leb_ℤ b.version_timestamp a.version_timestamp) (Map.values g.versions)

  unfoldable pub get_latest_application_version : Inner V → Option VersionInfo
  get_latest_application_version g = latest_version (Map.values g.versions)

  unfoldable pub set_latest_application_version : String → DateTime → Op V Bool
  set_latest_application_version version_name now g = elim (Map.get version_name g.versions) [
    | none ↦ (ok false, g)
    | some v ↦ (
      ok true,
      record g {
        versions = Map.insert version_name (record v { version_timestamp = now }) g.versions;
      },
    )
  ]

  unfoldable pub upsert_queue : WorkflowQueue → Bool → Op V (Unit {0})
  upsert_queue queue update_existing g =
      if update_existing || (if Map.contains_key queue.name g.queues then false else true)
      then (ok tt, record g { queues = Map.insert queue.name queue g.queues })
      else (ok tt, g)

  unfoldable pub list_queues : Inner V → List WorkflowQueue
  list_queues g = sort (λ a b. str_leb a.name b.name) (Map.values g.queues)
