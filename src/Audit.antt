-- ===== src/Audit.antt =====
-- The audit log: `AuditRecord`, `append_audit` and `list_audit` of backend/db.py, and the vocabulary
-- and `record` of backend/audit.py. The database draws a row's id.
use mathlib.Core.List.{reverse}
use autonomous_ai_analyst.Base.{
  ℕ, String, List, [], ◌∷◌, ◌++◌, Bool, true, false, ◌&&◌, Option, none, some, ◌==◌, leb, select,
  take,
}
use autonomous_ai_analyst.Common.{Principal, owned_by}
use autonomous_ai_analyst.Table.{order_by, descending}

pub data Action : Type 0 where
  user_created user_deactivated key_issued key_revoked run_deleted account_data_erased : Action
  retention_purged quota_refused model_promoted model_challenged : Action
  share_link_created share_link_revoked report_schedule_created report_schedule_deleted : Action

-- The strings that the log stores.
abbrev pub action_name : Action → String
action_name user_created = "user.created"
action_name user_deactivated = "user.deactivated"
action_name key_issued = "key.issued"
action_name key_revoked = "key.revoked"
action_name run_deleted = "run.deleted"
action_name account_data_erased = "account.data_erased"
action_name retention_purged = "retention.purged"
action_name quota_refused = "quota.refused"
action_name model_promoted = "model.promoted"
action_name model_challenged = "model.challenged"
action_name share_link_created = "share_link.created"
action_name share_link_revoked = "share_link.revoked"
action_name report_schedule_created = "report_schedule.created"
action_name report_schedule_deleted = "report_schedule.deleted"

-- `SELF_VISIBLE`
abbrev pub self_visible : Action → Bool
self_visible user_created = false
self_visible user_deactivated = false
self_visible retention_purged = false
self_visible _ = true

pub record AuditRecord : Type 0 where
  pub at : ℕ
  pub actor_id : String
  pub actor_email : Option String
  pub action : Action
  pub target_type : Option String
  pub target_id : Option String

pub data Actor : Type 0 where
  principal : Principal → Actor
  system : String → Actor

abbrev pub actor_id_of : Actor → String
actor_id_of (principal p) = p.user_id
actor_id_of (system name) = name

abbrev pub actor_email_of : Actor → Option String
actor_email_of (principal p) = some p.email
actor_email_of (system name) = none

-- Rows are only ever added. `detail` and the request's id are left out.
unfoldable pub append_audit : AuditRecord → List AuditRecord → List AuditRecord
append_audit row log = log ++ row ∷ []

-- `audit.record`, where the write succeeds.
unfoldable pub record_action :
    Action → Actor → Option String → Option String → ℕ → List AuditRecord → List AuditRecord
record_action action actor target_type target_id now = append_audit (record {
  at = now;
  actor_id = actor_id_of actor;
  actor_email = actor_email_of actor;
  action = action;
  target_type = target_type;
  target_id = target_id;
})

abbrev pub action_matches : Option Action → Action → Bool
action_matches none a = true
action_matches (some wanted) a = action_name a == action_name wanted

abbrev pub since_matches : Option ℕ → ℕ → Bool
since_matches none at = true
since_matches (some since) at = leb since at

-- Newest first, and of one moment the row that was added last: ids grow in the order of the rows.
unfoldable pub list_audit :
    ℕ → Option String → Option Action → Option ℕ → List AuditRecord → List AuditRecord
list_audit limit actor_id action since log = take limit (
    order_by (descending λ (r : AuditRecord). r.at) (
      reverse (
        select
          (λ (r : AuditRecord).
            owned_by actor_id r.actor_id
            && action_matches action r.action
            && since_matches since r.at)
          log)))
