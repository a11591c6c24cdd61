-- ===== src/Lifecycle/Requested.antt =====
-- What a request to delete one run leaves, and whose requests are heard (backend/routes/runs.py).

use autonomous_ai_analyst.Base.{
  ℕ, String, true, not, ◌&&◌, Option, some, ◌==◌, ◌≡◌, ◌≢◌, refl, sym, subst, ap, ◌∙◌, inl, inr,
  arith, ==→eq, eqb, Bool-cases, Option-cases,
}
use autonomous_ai_analyst.Common.{Principal}
use autonomous_ai_analyst.Settings.{Settings}
use autonomous_ai_analyst.Http.{ok, raised, result-cases, run_not_found}
use autonomous_ai_analyst.Table.{get, IsKeyed}
use autonomous_ai_analyst.Runs.{run_id, run_owner}
use autonomous_ai_analyst.Auth.{owner_scope, require_owned_run}
use autonomous_ai_analyst.Security.{validate_dataset_hash}
use autonomous_ai_analyst.Audit.{principal, run_deleted}
use autonomous_ai_analyst.Database.{Database}
use autonomous_ai_analyst.Lifecycle.Purge.{Summary, remove_run, audited}
use autonomous_ai_analyst.Lifecycle.Erased.{IsGone, IsOwn, remove_run-IsGone}
use autonomous_ai_analyst.Lifecycle.Request.{erased, erase_run}

erased-same :
    (run : String) (owner : Option String) (db : Database)
    → (erased run owner db).0 ≡ (remove_run run owner db).0
unfolding erased remove_run
erased-same run owner db = refl

-- Who passes the owner check sees the run's row in the scope of the deletion.
require-IsOwn :
    (settings : Settings) (run : String) (p : Principal) (db : Database)
    → require_owned_run settings run p db ≡ ok tt
    → IsOwn (owner_scope settings p) db.runs run
unfolding require_owned_run owner_scope run_owner
require-IsOwn settings run p db e = elim (Bool-cases settings.auth_enabled) [
  | inr off ↦ elim (Option-cases (get run_id run db.runs)) [
    | inl missing ↦ ground (arith)
    | inr (r, found) ↦ ground (arith)
  ]
  | inl on ↦ elim (Option-cases (get run_id run db.runs)) [
    | inl missing ↦ ground (arith)
    | inr (r, found) ↦ ground (arith)
  ]
]

-- A deletion that is carried out has passed the checks, and leaves the tables without the run and one
-- more audit row.
carried-out :
    (settings : Settings) (run : String) (p : Principal) (now : ℕ) (db : Database)
    {summary : Summary}
    → (erase_run settings run p now db).0 ≡ ok summary
    → (require_owned_run settings run p db ≡ ok tt)
      × ((erase_run settings run p now db).1
          ≡ audited run_deleted
              (principal p)
              (some "run")
              (some run)
              now
              (erased run (owner_scope settings p) db).0)
unfolding erase_run
carried-out settings run p now db {summary} e =
    let (db', existed, counted) = erased run (owner_scope settings p) db in
    elim (result-cases (require_owned_run settings run p db)) [
      | inr (x, refused) ↦ absurd (ground (arith))
      | inl (u, passed) ↦ elim (result-cases (validate_dataset_hash run)) [
        | inr (x, malformed) ↦ absurd (ground (arith))
        | inl (k, formed) ↦ elim (Bool-cases (not existed && eqb counted.artifacts 0)) [
          | inl nothing_there ↦ absurd (ground (arith))
          | inr something ↦ (ground (arith), ground (arith))
        ]
      ]
    ]

audited-IsGone :
    (run : String) (p : Principal) (now : ℕ) (db : Database)
    → IsGone run db
    → IsGone run (audited run_deleted (principal p) (some "run") (some run) now db)
audited-IsGone run p now db g = record {
  no_run = g.no_run;
  no_conversation = g.no_conversation;
  no_prediction = g.no_prediction;
  no_version = g.no_version;
  no_link = g.no_link;
  no_schedule = g.no_schedule;
}

-- When a request to delete a run succeeds, nothing of the run is left: not its row, and no
-- conversation, prediction, model version, share link or report schedule that names it.
pub erase_run-IsGone :
    (settings : Settings) (run : String) (p : Principal) (now : ℕ) (db : Database)
    {summary : Summary}
    → IsKeyed run_id db.runs
    → (erase_run settings run p now db).0 ≡ ok summary
    → IsGone run (erase_run settings run p now db).1
erase_run-IsGone settings run p now db {summary} u e =
    let (passed, left) = carried-out settings run p now db {summary = summary} e in
    let scope = owner_scope settings p in
    subst (IsGone run) (sym left) (
      audited-IsGone run p now (erased run scope db).0 (
        subst (IsGone run) (sym (erased-same run scope db))
          (remove_run-IsGone run scope db u (require-IsOwn settings run p db passed))))

-- With auth on, a request to delete a run that is not the caller's writes nothing, and is answered as
-- if there were no such run.
pub erase_run-foreign :
    (settings : Settings) (run : String) (p : Principal) (now : ℕ) (db : Database)
    → settings.auth_enabled ≡ true
    → run_owner run db.runs ≢ some p.user_id
    → erase_run settings run p now db ≡ (raised run_not_found, db)
unfolding erase_run require_owned_run
erase_run-foreign settings run p now db on other = elim (Option-cases (run_owner run db.runs)) [
  | inl missing ↦ ground (arith)
  | inr (owner, found) ↦ elim (Bool-cases (owner == p.user_id)) [
    | inl own ↦ absurd (other (found ∙ ap some (==→eq owner p.user_id own)))
    | inr foreign ↦ ground (arith)
  ]
]
