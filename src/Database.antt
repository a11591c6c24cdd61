-- ===== src/Database.antt =====
-- All tables of the database (backend/db.py), the artifact store beside it, and the calls that work
-- on both: a call returns what it answers or raises, and leaves the tables as far as it had written
-- them, since each helper of backend/db.py is a transaction of its own.
use autonomous_ai_analyst.Base.{ℕ, String, List, Bool, true, false, Option, none, some}
use autonomous_ai_analyst.Http.{HttpError, Result, ok, raised}
use autonomous_ai_analyst.Jobs.{JobRecord}
use autonomous_ai_analyst.Runs.{RunRecord}
use autonomous_ai_analyst.Predictions.{PredictionRecord}
use autonomous_ai_analyst.Versions.{ModelVersionRecord}
use autonomous_ai_analyst.Conversations.{Chats}
use autonomous_ai_analyst.Audit.{AuditRecord, Action, Actor, record_action}
use autonomous_ai_analyst.Usage.{UsageRecord}
use autonomous_ai_analyst.Share.{ShareLinkRecord}
use autonomous_ai_analyst.Schedules.{ReportScheduleRecord}
use autonomous_ai_analyst.Users.{UserRecord, ApiKeyRecord}
use autonomous_ai_analyst.Storage.{Store}

pub record Database : Type 0 where
  pub users : List UserRecord
  pub api_keys : List ApiKeyRecord
  pub audit_log : List AuditRecord
  pub usage : List UsageRecord
  pub jobs : List JobRecord
  pub chats : Chats
  pub runs : List RunRecord
  pub predictions : List PredictionRecord
  pub versions : List ModelVersionRecord
  pub links : List ShareLinkRecord
  pub schedules : List ReportScheduleRecord
  pub store : Store

abbrev pub Call : Type 0 → Type 0
Call A = Database → Result A × Database

module _ {A : Type 0} where
  abbrev pub pure : A → Call A
  pure a db = (ok a, db)

  abbrev pub raise : HttpError → Call A
  raise e db = (raised e, db)

  abbrev pub of_result : Result A → Call A
  of_result r db = (r, db)

  abbrev pub gets : (Database → A) → Call A
  gets f db = (ok (f db), db)

  abbrev pub or_raise : Option A → HttpError → Call A
  or_raise none e = raise e
  or_raise (some a) e = pure a

infixl 5 ◌>>=◌ ◌>>◌
abbrev pub ◌>>=◌ : {A B : Type 0} → Call A → (A → Call B) → Call B
◌>>=◌ m f db = let (r, db') = m db in elim r [ ok a ↦ f a db' | raised e ↦ raise e db' ]

abbrev pub ◌>>◌ : {A B : Type 0} → Call A → Call B → Call B
m >> k = m >>= λ _. k

abbrev pub raise_if : Bool → HttpError → Call (Unit {0})
raise_if true e db = (raised e, db)
raise_if false e db = (ok tt, db)

abbrev pub modify : (Database → Database) → Call (Unit {0})
modify f db = (ok tt, f db)

-- `audit.record` inside a call.
abbrev pub audit : Action → Actor → Option String → Option String → ℕ → Call (Unit {0})
audit action actor target_type target_id now = modify λ db. record db {
  audit_log = record_action action actor target_type target_id now db.audit_log;
}
