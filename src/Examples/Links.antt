-- ===== src/Examples/Links.antt =====
-- Share links and schedules at concrete inputs.
use autonomous_ai_analyst.Base.{
  length, All, false, String, ℕ, ◌+◌, ◌≤◌, List, [], ◌∷◌, true, false, none, some, ◌≡◌, ◌≢◌, refl,
  ltb, if◌then◌else◌,
}
use autonomous_ai_analyst.Common.{days}
use autonomous_ai_analyst.Http.{ok, raised, link_invalid}
use autonomous_ai_analyst.Table.{update}
use autonomous_ai_analyst.Share.{add_share_link, revoke_share_link}
use autonomous_ai_analyst.Schedules.{schedule_key, ran, is_due, get_report_schedule}
use autonomous_ai_analyst.Auth.{owner_scope}
use autonomous_ai_analyst.Sharing.{
  require_sharing, capped_ttl, create_link, revoke_link, resolve_token,
}
use autonomous_ai_analyst.Sharing.Grants.{create_link-resolves}
use autonomous_ai_analyst.Sharing.Revocation.{LinkCall, mints, erases, run_links, revoke_link-final}
use autonomous_ai_analyst.Reports.{World, process_due_schedule, process_all, run_due}
use autonomous_ai_analyst.Reports.Drain.{due_at, run_due-drains}
use autonomous_ai_analyst.Reports.Ticks.{Says, process_due_schedule-advances}
use autonomous_ai_analyst.Examples.Data.{settings, bob, schedule_of, database}

abbrev link_calls : List (ℕ × LinkCall)
link_calls = (30, mints "t2" "rb" bob none) ∷ (31, erases "ra") ∷ []

create_link-resolves_example :
    ((resolve_token settings "t2" 200
        (create_link settings "t2" "rb" bob (some 90) 30 database).1).0
      ≡ (if ltb 200 (30 + days (capped_ttl settings (some 90)))
          then ok "rb"
          else raised link_invalid))
    × (capped_ttl settings (some 90) ≤ settings.share_link_max_ttl_days)
unfolding create_link require_sharing add_share_link
create_link-resolves_example =
    create_link-resolves settings "t2" "rb" bob (some 90) 30 200 database {t = "t2"} refl

revoke_link-final_example :
    (resolve_token settings "t1" 40
      (run_links settings link_calls (revoke_link settings "t1" bob 20 database).1)).0
    ≢ ok "rb"
unfolding revoke_link revoke_share_link owner_scope
revoke_link-final_example =
    revoke_link-final settings "t1" "rb" bob 20 40 link_calls database (refl, tt) (refl, (tt, tt))
      refl

abbrev offline : World
offline = record { artifacts_load = true; report = λ _. none; mail_sent = false }

process_due_schedule-advances_example :
    (status : String) × Says settings offline "rb" 25 database status
    × ((process_due_schedule settings offline "s1" 25 database).1.schedules
        ≡ update schedule_key "s1" (ran (25 + days 1) status 25) database.schedules)
    × (get_report_schedule "s1" (process_due_schedule settings offline "s1" 25 database).1.schedules
        ≡ some (ran (25 + days 1) status 25 (schedule_of "s1" "rb" bob)))
    × (is_due 25 (ran (25 + days 1) status 25 (schedule_of "s1" "rb" bob)) ≡ false)
unfolding get_report_schedule
process_due_schedule-advances_example =
    process_due_schedule-advances settings offline "s1" 25 (days 1) database
      {s = schedule_of "s1" "rb" bob} refl refl refl

run_due-drains_example :
    (length (run_due settings 25 database) ≤ settings.report_schedule_max_due_per_run)
    × All
        (λ id.
          due_at 25 id
            (process_all settings offline (run_due settings 25 database) 25 database).schedules
          ≡ false)
        (run_due settings 25 database)
run_due-drains_example = run_due-drains settings offline 25 database ((days 1, refl), tt)
