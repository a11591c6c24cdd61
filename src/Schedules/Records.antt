-- ===== src/Schedules/Records.antt =====
-- `ReportScheduleRecord` and its helpers in backend/db.py.
use autonomous_ai_analyst.Base.{
  ℕ, String, List, Bool, true, false, ◌&&◌, Option, none, some, ◌==◌, leb, select, delete_where,
  count,
}
use autonomous_ai_analyst.Common.{owned_by}
use autonomous_ai_analyst.Owned.{get_owned}
use autonomous_ai_analyst.Table.{get, update, add, delete, order_by, descending}

pub record ReportScheduleRecord : Type 0 where
  pub schedule_id : String
  pub run_key : String
  pub owner_id : String
  pub recipients : String
  pub interval : String
  pub created_at : ℕ
  pub next_run_at : ℕ
  pub last_run_at : Option ℕ
  pub last_status : Option String
  pub active : Bool

abbrev pub schedule_key : ReportScheduleRecord → String
schedule_key s = s.schedule_id

abbrev pub schedule_owner : ReportScheduleRecord → String
schedule_owner s = s.owner_id

-- `none`: the id is taken.
unfoldable pub add_report_schedule :
    String
    → String
    → String
    → String
    → String
    → ℕ
    → ℕ
    → List ReportScheduleRecord
    → Option (List ReportScheduleRecord)
add_report_schedule schedule_id run_key owner_id recipients interval next_run_at now =
    add schedule_key (record {
      schedule_id = schedule_id;
      run_key = run_key;
      owner_id = owner_id;
      recipients = recipients;
      interval = interval;
      created_at = now;
      next_run_at = next_run_at;
      last_run_at = none;
      last_status = none;
      active = true;
    })

unfoldable pub get_report_schedule :
    String → List ReportScheduleRecord → Option ReportScheduleRecord
get_report_schedule = get schedule_key

abbrev pub run_matches : Option String → String → Bool
run_matches = owned_by

unfoldable pub list_report_schedules :
    Option String → Option String → List ReportScheduleRecord → List ReportScheduleRecord
list_report_schedules run_key owner_id schedules =
    order_by (descending λ (s : ReportScheduleRecord). s.created_at) (
      select
        (λ (s : ReportScheduleRecord).
          run_matches run_key s.run_key && owned_by owner_id s.owner_id)
        schedules)

abbrev pub is_due : ℕ → ReportScheduleRecord → Bool
is_due moment s = s.active && leb s.next_run_at moment

unfoldable pub due_report_schedules : ℕ → List ReportScheduleRecord → List ReportScheduleRecord
due_report_schedules moment = select (is_due moment)

abbrev pub ran : ℕ → String → ℕ → ReportScheduleRecord → ReportScheduleRecord
ran next_run_at status now s = record s {
  last_run_at = some now;
  last_status = some status;
  next_run_at = next_run_at;
}

unfoldable pub record_report_schedule_run :
    String → ℕ → String → ℕ → List ReportScheduleRecord → List ReportScheduleRecord
record_report_schedule_run schedule_id next_run_at status now =
    update schedule_key schedule_id (ran next_run_at status now)

-- The new table, and whether the schedule is there for this owner.
unfoldable pub delete_report_schedule :
    String → Option String → List ReportScheduleRecord → List ReportScheduleRecord × Bool
delete_report_schedule schedule_id owner_id schedules =
    elim (get_owned schedule_key schedule_owner schedule_id owner_id schedules) [
      | none ↦ (schedules, false)
      | some _ ↦ (delete schedule_key schedule_id schedules, true)
    ]

abbrev pub schedule_of_run : String → ReportScheduleRecord → Bool
schedule_of_run run_key s = s.run_key == run_key

unfoldable pub delete_report_schedules_for_run :
    String → List ReportScheduleRecord → List ReportScheduleRecord × ℕ
delete_report_schedules_for_run run_key schedules =
    (delete_where (schedule_of_run run_key) schedules, count (schedule_of_run run_key) schedules)
