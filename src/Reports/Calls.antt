-- ===== src/Reports/Calls.antt =====
-- `_require_enabled`, `next_run_after`, `_parse_recipients`, `create_schedule`, `list_schedules`,
-- `delete_schedule`, `process_due_schedule` and `run_due` of backend/report_schedule.py.
use autonomous_ai_analyst.Base.{
  ℕ, ◌+◌, String, List, [], ◌∷◌, map, Bool, false, not, ◌||◌, Option, none, some, ◌==◌, select,
  take, if◌then◌else◌,
}
use autonomous_ai_analyst.Text.{
  strip, is_empty, head_chars, contains_char, starts_with, ends_with, split, join, ◌+++◌,
}
use autonomous_ai_analyst.Common.{Principal, owner_or_local, days}
use autonomous_ai_analyst.Settings.{Settings}
use autonomous_ai_analyst.Http.{
  Result, ok, raised, reports_disabled, smtp_missing, bad_interval, no_recipients, bad_address,
  schedule_not_found, server_error,
}
use autonomous_ai_analyst.Audit.{principal, report_schedule_created, report_schedule_deleted}
use autonomous_ai_analyst.Auth.{owner_scope}
use autonomous_ai_analyst.Limits.{check_llm_quota}
use autonomous_ai_analyst.Usage.{UsageRecord, record_usage}
use autonomous_ai_analyst.Runs.{run_owner}
use autonomous_ai_analyst.Schedules.{
  ReportScheduleRecord, schedule_key, add_report_schedule, get_report_schedule,
  list_report_schedules, due_report_schedules, record_report_schedule_run, delete_report_schedule,
}
use autonomous_ai_analyst.Database.{
  Database, Call, pure, raise, gets, or_raise, ◌>>=◌, ◌>>◌, raise_if, modify, audit, of_result,
}

-- `INTERVALS`
abbrev pub interval_of : String → Option ℕ
interval_of interval =
    if interval == "daily"
    then some (days 1)
    else if interval == "weekly"
    then some (days 7)
    else none

-- `none`: the interval has no entry (`KeyError`).
unfoldable pub next_run_after : String → ℕ → Option ℕ
next_run_after interval moment = elim (interval_of interval) [
  | none ↦ none
  | some span ↦ some (moment + span)
]

abbrev pub bad_recipient : String → Bool
bad_recipient address =
    not (contains_char 64 address) || starts_with 64 address || ends_with 64 address

abbrev first_bad : List String → Option String
first_bad [] = none
first_bad (a ∷ rest) = if bad_recipient a then some a else first_bad rest

unfoldable pub validated : List String → Result (List String)
validated [] = raised no_recipients
validated (a ∷ rest) = elim (first_bad (a ∷ rest)) [
  | some address ↦ raised (bad_address address)
  | none ↦ ok (a ∷ rest)
]

-- `_parse_recipients` of a list; the text of a form field is split at commas first.
unfoldable pub parse_recipients : List String → Result (List String)
unfolding validated
parse_recipients raw = validated (select (λ item. not (is_empty item)) (map strip raw))

unfoldable pub parse_recipient_text : String → Result (List String)
unfolding parse_recipients
parse_recipient_text raw = parse_recipients (split 44 raw)

-- What the code not modelled here answers to a tick: whether the run's metadata and snapshot
-- load, the usage row of the report if one was paid for, `none` if no report came about, and
-- whether the mail was sent.
pub record World : Type 0 where
  pub artifacts_load : Bool
  pub report : String → Option (Option UsageRecord)
  pub mail_sent : Bool

abbrev pub billed : Option UsageRecord → Database → Database
billed none db = db
billed (some row) db = record db { usage = record_usage row db.usage }

abbrev pub advance : String → String → String → ℕ → Database → Result (Unit {0}) × Database
advance schedule_id interval status now db = elim (next_run_after interval now) [
  | none ↦ (raised server_error, db)
  | some next ↦ (
    ok tt,
    record db { schedules = record_report_schedule_run schedule_id next status now db.schedules },
  )
]

module _ (settings : Settings) where
  unfoldable pub require_reports : Call (Unit {0})
  require_reports =
      raise_if (not settings.scheduled_reports_enabled) reports_disabled
      >> elim settings.smtp_host [ none ↦ raise smtp_missing | some _ ↦ pure tt ]

  -- `drawn` is what `secrets.token_hex` draws. Answers the schedule's id.
  unfoldable pub create_schedule :
      String → String → Principal → List String → String → ℕ → Call String
  unfolding require_reports next_run_after
  create_schedule drawn run_key p recipients interval now =
      let schedule_id = "sched_" +++ (head_chars 12 run_key +++ ("_" +++ drawn)) in
      require_reports >> or_raise (next_run_after interval now) bad_interval >>= λ next.
      of_result (parse_recipients recipients)
      >>= (λ parsed. gets λ db.
          add_report_schedule schedule_id run_key p.user_id (join "," parsed) interval next now
            db.schedules)
      >>= (λ schedules. or_raise schedules server_error)
      >>= (λ schedules. modify λ db. record db { schedules = schedules })
      >> audit report_schedule_created (principal p) (some "run") (some run_key) now
      >> pure schedule_id

  unfoldable pub list_schedules : String → Principal → Database → List ReportScheduleRecord
  list_schedules run_key p db =
      list_report_schedules (some run_key) (owner_scope settings p) db.schedules

  unfoldable pub delete_schedule : String → Principal → ℕ → Call (Unit {0})
  delete_schedule schedule_id p now =
      gets (λ db. delete_report_schedule schedule_id (owner_scope settings p) db.schedules)
      >>= λ (schedules, found).
          raise_if (not found) schedule_not_found
          >> modify (λ db. record db { schedules = schedules })
          >> audit report_schedule_deleted (principal p) (some "report_schedule") (some schedule_id)
              now

  -- The `try` of a tick: the status, and the tables as far as it has written them.
  unfoldable pub tick_status : World → String → ℕ → Database → Database × String
  tick_status world run_key now db =
      if not world.artifacts_load
      then (db, "failed")
      else let owner = owner_or_local (run_owner run_key db.runs) in
        let p : Principal = record { user_id = owner; email = ""; is_admin = false } in
        let (r, checked) = check_llm_quota settings p now db in
        elim r [
          | raised _ ↦ (checked, "skipped_over_quota")
          | ok _ ↦ elim (world.report owner) [
            | none ↦ (checked, "failed")
            | some usage ↦ (billed usage checked, if world.mail_sent then "sent" else "failed")
          ]
        ]

  -- One moment stands for the whole tick.
  unfoldable pub process_due_schedule : World → String → ℕ → Call (Unit {0})
  unfolding tick_status
  process_due_schedule world schedule_id now db =
      elim (get_report_schedule schedule_id db.schedules) [
        | none ↦ (ok tt, db)
        | some s ↦
            let (db', status) = tick_status world s.run_key now db in
            if s.active then advance schedule_id s.interval status now db' else (ok tt, db)
      ]

  -- The ids that are handed to the queue, in this order.
  unfoldable pub run_due : ℕ → Database → List String
  run_due now db =
      map schedule_key
        (take settings.report_schedule_max_due_per_run (due_report_schedules now db.schedules))

  -- A worker that takes the ids one after the other.
  unfoldable pub process_all : World → List String → ℕ → Database → Database
  unfolding process_due_schedule
  process_all world [] now db = db
  process_all world (schedule_id ∷ ids) now db =
      process_all world ids now (process_due_schedule world schedule_id now db).1
