-- ===== src/Reports/Ticks.antt =====
-- What a tick of a schedule leaves behind (backend/report_schedule.py).
use autonomous_ai_analyst.Base.{
  ℕ, ◌+◌, ◌≤◌, String, Option, none, subst, true, false, some, ◌≡◌, refl, inl, inr, arith,
  Bool-cases, Option-cases,
}
use autonomous_ai_analyst.Common.{owner_or_local, Principal}
use autonomous_ai_analyst.Settings.{Settings}
use autonomous_ai_analyst.Http.{HttpError, ok, raised, result-cases}
use autonomous_ai_analyst.Runs.{run_owner}
use autonomous_ai_analyst.Usage.{UsageRecord}
use autonomous_ai_analyst.Limits.{check_llm_quota, refuse}
use autonomous_ai_analyst.Schedules.{
  ReportScheduleRecord, schedule_key, ran, is_due, get_report_schedule, record_report_schedule_run,
}
use autonomous_ai_analyst.Table.{update, get-update_self}
use autonomous_ai_analyst.Database.{Database}
use autonomous_ai_analyst.Reports.Calls.{
  interval_of, next_run_after, World, tick_status, process_due_schedule,
}

-- The guard of paid calls writes to the audit log only.
check-schedules :
    (settings : Settings) (p : Principal) (now : ℕ) (db : Database)
    → (check_llm_quota settings p now db).1.schedules ≡ db.schedules
unfolding check_llm_quota refuse
check-schedules settings p now db = ground (arith)

tick-schedules :
    (settings : Settings) (world : World) (run_key : String) (now : ℕ) (db : Database)
    → (tick_status settings world run_key now db).0.schedules ≡ db.schedules
unfolding tick_status
tick-schedules settings world run_key now db =
    let p : Principal = record {
      user_id = owner_or_local (run_owner run_key db.runs);
      email = "";
      is_admin = false;
    } in
    ground (arith, check-schedules settings p now db)

-- Whom a tick acts and pays for: the owner of the run.
abbrev pub payer : String → Database → Principal
payer run_key db = record {
  user_id = owner_or_local (run_owner run_key db.runs);
  email = "";
  is_admin = false;
}

-- When a tick may record a status: `sent` for a report that was made within the ceilings and
-- mailed, `skipped_over_quota` where a ceiling refused it, and `failed` where the artifacts did not
-- load, no report came about, or the mail was not sent.
pub data Says (settings : Settings) (world : World) (run_key : String) (now : ℕ) (db : Database)
    : String → Type 0 where
  says_sent :
      (usage : Option UsageRecord)
      → world.artifacts_load ≡ true
      → (check_llm_quota settings (payer run_key db) now db).0 ≡ ok tt
      → world.report (owner_or_local (run_owner run_key db.runs)) ≡ some usage
      → world.mail_sent ≡ true
      → Says settings world run_key now db "sent"
  says_unsent :
      (usage : Option UsageRecord)
      → world.artifacts_load ≡ true
      → (check_llm_quota settings (payer run_key db) now db).0 ≡ ok tt
      → world.report (owner_or_local (run_owner run_key db.runs)) ≡ some usage
      → world.mail_sent ≡ false
      → Says settings world run_key now db "failed"
  says_unmade :
      world.artifacts_load ≡ true
      → (check_llm_quota settings (payer run_key db) now db).0 ≡ ok tt
      → world.report (owner_or_local (run_owner run_key db.runs)) ≡ none
      → Says settings world run_key now db "failed"
  says_lost : world.artifacts_load ≡ false → Says settings world run_key now db "failed"
  says_over_quota :
      (e : HttpError)
      → world.artifacts_load ≡ true
      → (check_llm_quota settings (payer run_key db) now db).0 ≡ raised e
      → Says settings world run_key now db "skipped_over_quota"

tick-Says :
    (settings : Settings) (world : World) (run_key : String) (now : ℕ) (db : Database)
    → Says settings world run_key now db (tick_status settings world run_key now db).1
unfolding tick_status
tick-Says settings world run_key now db =
    let p = payer run_key db in
    let status = (tick_status settings world run_key now db).1 in
    elim (Bool-cases world.artifacts_load) [
      | inr lost ↦
          subst (Says settings world run_key now db) {y = status} (ground arith) (says_lost lost)
      | inl loaded ↦ elim (result-cases (check_llm_quota settings p now db).0) [
        | inr (e, refused) ↦
            subst (Says settings world run_key now db) {y = status} (ground arith)
              (says_over_quota e loaded refused)
        | inl (u, passed) ↦ elim (Option-cases (world.report p.user_id)) [
          | inl none_made ↦
              subst (Says settings world run_key now db) {y = status} (ground arith)
                (says_unmade loaded passed none_made)
          | inr (usage, made) ↦ elim (Bool-cases world.mail_sent) [
            | inl sent ↦
                subst (Says settings world run_key now db) {y = status} (ground arith)
                  (says_sent usage loaded passed made sent)
            | inr unsent ↦
                subst (Says settings world run_key now db) {y = status} (ground arith)
                  (says_unsent usage loaded passed made unsent)
          ]
        ]
      ]
    ]

pub interval-positive : (interval : String) {span : ℕ} → interval_of interval ≡ some span → 1 ≤ span
interval-positive interval {span} e = ground (arith)

-- Whatever happens during a tick of an active schedule with a known interval (lost artifacts, a
-- reached ceiling, a report that fails, a mail that is not sent), the schedule's next run moves on to
-- one interval after the tick, so that it is no longer due, and no other schedule changes. Its status
-- says what happened: sent, skipped for a ceiling, or failed for one of the other reasons.
pub process_due_schedule-advances :
    (settings : Settings) (world : World) (schedule_id : String) (now span : ℕ) (db : Database)
    {s : ReportScheduleRecord}
    → get_report_schedule schedule_id db.schedules ≡ some s
    → s.active ≡ true
    → interval_of s.interval ≡ some span
    → (status : String) × Says settings world s.run_key now db status
      × ((process_due_schedule settings world schedule_id now db).1.schedules
          ≡ update schedule_key schedule_id (ran (now + span) status now) db.schedules)
      × (get_report_schedule schedule_id
            (process_due_schedule settings world schedule_id now db).1.schedules
          ≡ some (ran (now + span) status now s))
      × (is_due now (ran (now + span) status now s) ≡ false)
unfolding process_due_schedule get_report_schedule next_run_after record_report_schedule_run
process_due_schedule-advances settings world schedule_id now span db {s} e active known =
    let status = (tick_status settings world s.run_key now db).1 in
    let same = tick-schedules settings world s.run_key now db in
    let written : (process_due_schedule settings world schedule_id now db).1.schedules
        ≡ update schedule_key schedule_id (ran (now + span) status now) db.schedules =
      ground (arith, same) in
    (
      status,
      tick-Says settings world s.run_key now db,
      written,
      rw written (
          get-update_self schedule_key schedule_id (ran (now + span) status now) db.schedules
            {r = s} refl e),
      ground (arith, interval-positive s.interval {span = span} known),
    )
