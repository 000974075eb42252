-- ===== src/Schedule.antt =====
-- The records of src/schedule.rs and src/queue.rs.
use durare.Prelude.{
  ℤ, ℕ, Bool, String, Option, none, some, List, PartialEq, ◌==◌, ◌&&◌, string_eq, option_eq, format,
  [], ◌∷◌, if◌then◌else◌, true, false, ◌≡◌, ◌↔◌, arith, bool_eq,
}
use durare.Errors.{Result, ok, err, app_error, ◌>>=◌}
use durare.Host.{Host, DateTime, json_eq}

pub data ScheduleStatus : Type 0 where
  active paused : ScheduleStatus

-- `ScheduleStatus::as_str` and `ScheduleStatus::parse`
unfoldable pub as_str : ScheduleStatus → String
as_str ScheduleStatus.active = "ACTIVE"
as_str ScheduleStatus.paused = "PAUSED"

unfoldable pub parse : String → ScheduleStatus
parse s = if s == "PAUSED" then ScheduleStatus.paused else ScheduleStatus.active

abbrev pub status_beq : ScheduleStatus → ScheduleStatus → Bool
status_beq ScheduleStatus.active ScheduleStatus.active = true
status_beq ScheduleStatus.paused ScheduleStatus.paused = true
status_beq _ _ = false

pub status_beq_iff : (a b : ScheduleStatus) → (status_beq a b ≡ true) ↔ (a ≡ b)
status_beq_iff ScheduleStatus.active ScheduleStatus.active = ground arith
status_beq_iff ScheduleStatus.active ScheduleStatus.paused = ground arith
status_beq_iff ScheduleStatus.paused ScheduleStatus.active = ground arith
status_beq_iff ScheduleStatus.paused ScheduleStatus.paused = ground arith

instance abbrev pub status_eq : PartialEq ScheduleStatus
status_eq = record { eq = status_beq; beq_iff = status_beq_iff }

pub record WorkflowSchedule (V : Type 0) : Type 0 where
  pub schedule_id : String
  pub schedule_name : String
  pub workflow_name : String
  pub schedule : String
  pub status : ScheduleStatus
  pub context : Option V
  pub last_fired_at : Option DateTime
  pub automatic_backfill : Bool
  pub cron_timezone : Option String
  pub queue_name : Option String

-- `none` leaves a field alone; `some none` clears it.
pub record ScheduleUpdate (V : Type 0) : Type 0 where
  pub schedule : Option String
  pub context : Option (Option V)
  pub automatic_backfill : Option Bool
  pub cron_timezone : Option (Option String)
  pub queue_name : Option (Option String)

pub record ScheduleFilter : Type 0 where
  pub statuses : List ScheduleStatus
  pub workflow_names : List String
  pub name_prefixes : List String

pub record RateLimiter : Type 0 where
  pub limit : ℤ
  pub period : ℕ

pub record WorkflowQueue : Type 0 where
  pub name : String
  pub worker_concurrency : Option ℕ
  pub global_concurrency : Option ℤ
  pub priority_enabled : Bool
  pub rate_limit : Option RateLimiter
  pub max_tasks_per_iteration : ℕ
  pub partitioned : Bool
  pub base_polling_interval : ℕ
  pub max_polling_interval : ℕ

module _ {V : Type 0} ⦃j : Host V⦄ where
  unfoldable pub same_definition : WorkflowSchedule V → WorkflowSchedule V → Bool
  same_definition a b =
      a.schedule_id == b.schedule_id
      && (a.workflow_name == b.workflow_name
          && (a.schedule == b.schedule
              && (a.context == b.context
                  && (a.automatic_backfill == b.automatic_backfill
                      && (a.cron_timezone == b.cron_timezone && a.queue_name == b.queue_name)))))

  -- The crates cron and chrono-tz are arguments: the text of the error with which the parser of a
  -- cron expression refuses, if it does, and whether a time zone has this name.
  module _ (cron_error : String → Option String) (is_timezone : String → Bool) where
    -- `parse_cron` and `parse_timezone` of src/engine.rs, whose values the validation drops
    unfoldable pub parse_cron : String → Result V (Unit {0})
    parse_cron spec = elim (cron_error spec) [
      | none ↦ ok tt
      | some e ↦ err (app_error (format ("invalid cron schedule `" ∷ spec ∷ "`: " ∷ e ∷ [])))
    ]

    unfoldable pub parse_timezone : String → Result V (Unit {0})
    parse_timezone tz =
        if is_timezone tz
        then ok tt
        else err (app_error (format ("invalid cron timezone `" ∷ tz ∷ "`" ∷ [])))

    abbrev validate_schedule : Option String → Result V (Unit {0})
    validate_schedule none = ok tt
    validate_schedule (some cron) = parse_cron cron

    abbrev validate_timezone : Option (Option String) → Result V (Unit {0})
    validate_timezone (some (some tz)) = parse_timezone tz
    validate_timezone _ = ok tt

    unfoldable pub validate : ScheduleUpdate V → String → Result V (Unit {0})
    validate u name =
        if name == ""
        then err (app_error "schedule_name is required")
        else (do _ ← validate_schedule u.schedule; validate_timezone u.cron_timezone)
